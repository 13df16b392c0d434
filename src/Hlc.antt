-- ===== src/Hlc.antt =====
-- sdk/src/hlc.mjs: hybrid logical clock stamps, their total order, and the device-local `Clock`.
-- `Date.now()` and `nowMs` are the argument `now`. Numbers are naturals; a counter is
-- incremented as JavaScript does, which rounds from 2^53 on.
pub mod Order
pub mod Monotone
pub mod Encode
pub mod Sorts
use zed_sync.Prelude.{
  ℕ, suc, ◌+◌, ◌^◌, ◌%◌, ◌≤◌, max, Ordering, Bool, true, false, not, ◌&&◌, ltb, leb, ◌==◌,
  if◌then◌else◌, JsString, str_eq, str_lt, ◌≡◌, refl, arith,
}

pub record Hlc : Type 0 where
  pub wall_ms : ℕ
  pub counter : ℕ
  pub actor : JsString

abbrev pub max_drift_ms : ℕ
max_drift_ms = 300000

-- -1, 0 and 1 are `lt`, `eq` and `gt`.
unfoldable pub compare_hlc : Hlc → Hlc → Ordering
compare_hlc a b =
    if not (a.wall_ms == b.wall_ms)
    then (if ltb a.wall_ms b.wall_ms then Ordering.lt else Ordering.gt)
    else if not (a.counter == b.counter)
    then (if ltb a.counter b.counter then Ordering.lt else Ordering.gt)
    else if str_eq a.actor b.actor
    then Ordering.eq
    else if str_lt a.actor b.actor
    then Ordering.lt
    else Ordering.gt

pub record Clock : Type 0 where
  pub actor : JsString
  pub wall_ms : ℕ
  pub counter : ℕ

-- `new Clock(actor)`
unfoldable pub new_clock : JsString → Clock
new_clock actor = record { actor = actor; wall_ms = 0; counter = 0 }

-- The stamp that both methods return.
abbrev pub stamp : Clock → Hlc
stamp c = record { wall_ms = c.wall_ms; counter = c.counter; actor = c.actor }

abbrev pub max_exact : ℕ
max_exact = 2 ^ 53

-- `n + 1` on a number that a double represents. From 2^53 on the doubles are 2 apart, and a sum half
-- way between two goes to the one whose significand is even; from 2^54 on they are 4 or more apart.
unfoldable pub increment : ℕ → ℕ
increment n = if ltb n max_exact then n + 1 else if ltb n (2 ^ 54) && n % 4 == 2 then n + 2 else n

unfoldable pub tick : Clock → ℕ → Clock × Hlc
unfolding increment
tick c now =
    let c' =
      (if ltb c.wall_ms now
        then record c { wall_ms = now; counter = 0 }
        else record c { counter = increment c.counter }) in
    (c', stamp c')

-- The over-drift remote wall is left out of the maximum.
unfoldable pub remote_ok : Hlc → ℕ → Bool
remote_ok remote now = leb remote.wall_ms (now + max_drift_ms)

unfoldable pub max_wall : Clock → Hlc → ℕ → ℕ
unfolding remote_ok
max_wall c remote now =
    if remote_ok remote now then max (max now c.wall_ms) remote.wall_ms else max now c.wall_ms

unfoldable pub observed_counter : Clock → Hlc → ℕ → ℕ
unfolding max_wall remote_ok increment
observed_counter c remote now =
    let wall = max_wall c remote now in
    if remote_ok remote now && wall == c.wall_ms && wall == remote.wall_ms
    then increment (max c.counter remote.counter)
    else if wall == c.wall_ms
    then increment c.counter
    else if remote_ok remote now && wall == remote.wall_ms
    then increment remote.counter
    else 0

unfoldable pub observe : Clock → Hlc → ℕ → Clock × Hlc
unfolding observed_counter max_wall
observe c remote now =
    let c' = record c {
      counter = observed_counter c remote now;
      wall_ms = max_wall c remote now;
    } in
    (c', stamp c')
