-- ===== src/Hlc/Monotone.antt =====
-- The stamps of a `Clock` of sdk/src/hlc.mjs increase, and no remote stamp can push it far ahead.
use zed_sync.Prelude.{ℕ, ◌+◌, ◌≤◌, ◌<◌, max, ◌≡◌, Ordering, List, [], ◌∷◌, All, length, refl, arith}
use zed_sync.Hlc.{Hlc, Clock, compare_hlc, tick, observe, stamp, max_drift_ms, increment, max_exact}
use zed_sync.Hlc.Order.{compare_hlc_trans}

-- Below 2^53 an increment is exact.
increment_exact : (n : ℕ) → n < max_exact → increment n ≡ n + 1
unfolding increment
increment_exact n h = ground arith

-- A tick yields a stamp newer than the clock's last one, also when the wall clock jumps backwards,
-- as long as the counter is below 2^53.
pub tick-newer :
    (c : Clock) (now : ℕ)
    → c.counter < max_exact
    → (compare_hlc (stamp c) (tick c now).1 ≡ Ordering.lt)
      × ((tick c now).0.counter ≤ c.counter + 1)
unfolding compare_hlc tick
tick-newer c now h = ground (arith, increment_exact c.counter h)

pub observe-newer :
    (c : Clock) (r : Hlc) (now : ℕ)
    → c.counter < max_exact
    → r.counter < max_exact
    → (compare_hlc (stamp c) (observe c r now).1 ≡ Ordering.lt)
      × ((observe c r now).0.counter ≤ max c.counter r.counter + 1)
unfolding compare_hlc observe
observe-newer c r now h k = ground (
  arith,
  increment_exact c.counter h,
  increment_exact r.counter k,
  increment_exact (max c.counter r.counter) (omega (arith, h, k)),
)

-- An over-drift remote stamp is not folded in: the wall is that of a local update.
pub observe_over_drift :
    (c : Clock) (r : Hlc) (now : ℕ)
    → now + max_drift_ms < r.wall_ms
    → (observe c r now).0.wall_ms ≡ max now c.wall_ms
unfolding observe
observe_over_drift c r now h = ground arith

-- One call of a method of `Clock`, with the reading of `Date.now()` that it uses.
pub data ClockCall : Type 0 where
  ticked : ℕ → ClockCall
  observed : Hlc → ℕ → ClockCall

abbrev pub call : Clock → ClockCall → Clock × Hlc
call c (ticked now) = tick c now
call c (observed r now) = observe c r now

-- The stamps that a sequence of calls returns, in order.
unfoldable pub stamps : Clock → List ClockCall → List Hlc
stamps c [] = []
stamps c (e ∷ es) = (call c e).1 ∷ stamps (call c e).0 es

unfoldable pub after : Clock → List ClockCall → Clock
after c [] = c
after c (e ∷ es) = after (call c e).0 es

abbrev pub IsNewer : Hlc → Hlc → Type 0
IsNewer a b = compare_hlc a b ≡ Ordering.lt

-- Each member is newer than all members before it.
abbrev pub IsIncreasing : List Hlc → Type 0
IsIncreasing [] = Unit
IsIncreasing (x ∷ xs) = All (IsNewer x) xs × IsIncreasing xs

call-stamp : (c : Clock) (e : ClockCall) → (call c e).1 ≡ stamp (call c e).0
unfolding tick observe
call-stamp c (ticked now) = refl
call-stamp c (observed r now) = refl

-- The counters of the stamps that a call folds in are at most `n`.
abbrev pub IsWithin : ℕ → ClockCall → Type 0
IsWithin n (ticked now) = Unit
IsWithin n (observed r now) = r.counter ≤ n

-- A call within the bound yields a newer stamp, and adds one to the bound at most.
call-IsNewer :
    (c : Clock) (e : ClockCall) (n : ℕ)
    → n < max_exact
    → c.counter ≤ n
    → IsWithin n e
    → IsNewer (stamp c) (call c e).1 × ((call c e).0.counter ≤ n + 1)
call-IsNewer c (ticked now) n b h k =
    let (x, y) = tick-newer c now (omega arith) in (x, omega (arith, y))
call-IsNewer c (observed r now) n b h k =
    let (x, y) = observe-newer c r now (omega arith) (omega (arith, k)) in (x, omega (arith, y, k))

IsWithin-suc : (n : ℕ) (es : List ClockCall) → All (IsWithin n) es → All (IsWithin (n + 1)) es
IsWithin-suc n [] a = tt
IsWithin-suc n (ticked now ∷ es) (a, b) = (tt, IsWithin-suc n es b)
IsWithin-suc n (observed r now ∷ es) (a, b) = (omega (arith, a), IsWithin-suc n es b)

All-IsNewer : (a b : Hlc) (xs : List Hlc) → IsNewer a b → All (IsNewer b) xs → All (IsNewer a) xs
All-IsNewer a b [] h k = tt
All-IsNewer a b (x ∷ xs) h k = (compare_hlc_trans a b x h k.0, All-IsNewer a b xs h k.1)

stamps-IsNewer :
    (c : Clock) (es : List ClockCall) (n : ℕ)
    → n + length es ≤ max_exact
    → c.counter ≤ n
    → All (IsWithin n) es
    → All (IsNewer (stamp c)) (stamps c es)
unfolding stamps
stamps-IsNewer c [] n b h a = tt
stamps-IsNewer c (e ∷ es) n b h (k, a) =
    let (x, y) = call-IsNewer c e n (omega (arith, b)) h k in
    (
      x,
      All-IsNewer (stamp c) (stamp (call c e).0) _ (rw (call-stamp c e) at x)
          (stamps-IsNewer (call c e).0 es (n + 1) (omega (arith, b)) y (IsWithin-suc n es a)),
    )

-- Whatever the readings of the wall clock and the remote stamps observed, the stamps of one clock
-- are strictly increasing: each is newer than all those before it. The condition: the counters of
-- the clock and of the remote stamps leave room for as many increments below 2^53, from where on
-- JavaScript rounds them, as there are calls.
pub stamps-IsIncreasing :
    (c : Clock) (es : List ClockCall) (n : ℕ)
    → n + length es ≤ max_exact
    → c.counter ≤ n
    → All (IsWithin n) es
    → IsIncreasing (stamps c es)
unfolding stamps
stamps-IsIncreasing c [] n b h a = tt
stamps-IsIncreasing c (e ∷ es) n b h (k, a) =
    let (x, y) = call-IsNewer c e n (omega (arith, b)) h k in
    let room : n + 1 + length es ≤ max_exact = omega (arith, b) in
    let a' = IsWithin-suc n es a in
    (
      rw (call-stamp c e) (stamps-IsNewer (call c e).0 es (n + 1) room y a'),
      stamps-IsIncreasing (call c e).0 es (n + 1) room y a',
    )

-- From 2^53 on this is not so: a tick that needs the counter repeats the last stamp.
pub saturated_tick_repeats :
    (c : Clock) (now : ℕ) → c.counter ≡ max_exact → now ≤ c.wall_ms → (tick c now).1 ≡ stamp c
unfolding tick increment
saturated_tick_repeats c now h k = ground arith

abbrev pub reading : ClockCall → ℕ
reading (ticked now) = now
reading (observed r now) = now

call-wall-le :
    (c : Clock) (e : ClockCall) (n : ℕ)
    → c.wall_ms ≤ n + max_drift_ms
    → reading e ≤ n
    → (call c e).0.wall_ms ≤ n + max_drift_ms
unfolding tick observe
call-wall-le c (ticked now) n h k = ground arith
call-wall-le c (observed r now) n h k = ground arith

-- If no reading of the wall clock is past `n`, then no sequence of calls, whatever remote stamps it
-- observes, takes the clock past `n` plus the drift bound.
pub after-wall-le :
    (c : Clock) (es : List ClockCall) (n : ℕ)
    → c.wall_ms ≤ n + max_drift_ms
    → All (λ e. reading e ≤ n) es
    → (after c es).wall_ms ≤ n + max_drift_ms
unfolding after
after-wall-le c [] n h k = h
after-wall-le c (e ∷ es) n h k = after-wall-le (call c e).0 es n (call-wall-le c e n h k.0) k.1
