-- ===== src/Lease/Failures.antt =====
-- What a failed renewal of sdk/src/lease.mjs does to the grant.
use zed_sync.Prelude.{
  ℕ, max, ◌/◌, if◌then◌else◌, ◌+◌, ◌≤◌, ◌<◌, true, false, none, some, List, [], ◌∷◌, ◌++◌, JsString,
  codes, ◌≡◌, ◌⊎◌, inl, inr, ◌↔◌, ap, sym, ◌∙◌, Bool-cases, refl, arith,
}
use zed_sync.Lease.{
  Lease, Handle, RenewAct, gives_back, asks_again, renew_act, renew_acts, fold_case, starts_with,
  contains, authority_lost, is_expired, retry_delay, release, owns, beat_failed, count_failure,
  gives_up, mark_lost, schedule, stop_heartbeat,
}
use zed_sync.Lease.Beats.{IsKeeping, beat_failed-settle, settle_failure}

owns_held : (l : Lease) (h : Handle) → l.handle ≡ some h → owns l h ≡ true
unfolding owns
owns_held l h e = ground (arith, e)

-- The text in lower case, as far as it is ASCII.
abbrev pub folded : JsString → JsString
folded [] = []
folded (c ∷ s) = fold_case c ∷ folded s

-- `s` has `word` in it, in whatever case.
abbrev pub Mentions : JsString → JsString → Type 0
Mentions word s =
    (before : JsString) × (middle : JsString) × (after : JsString) × (s
      ≡ before ++ (middle ++ after))
    × (folded middle ≡ word)

starts_with-folded :
    (p s : JsString)
    → starts_with p s ≡ true
    → (middle : JsString) × (after : JsString) × (s ≡ middle ++ after) × (folded middle ≡ p)
unfolding starts_with
starts_with-folded [] s h = ([], s, refl, refl)
starts_with-folded (p ∷ ps) [] h = cc
starts_with-folded (p ∷ ps) (c ∷ s) h =
    let e : p ≡ fold_case c = ground (arith, h) in
    let (m, a, q, f) = starts_with-folded ps s (ground (arith, h)) in
    (c ∷ m, a, ap (λ t. c ∷ t) q, rw (sym e) (ap (λ t. p ∷ t) f))

folded-starts_with : (m a : JsString) → starts_with (folded m) (m ++ a) ≡ true
unfolding starts_with
folded-starts_with [] a = refl
folded-starts_with (c ∷ m) a = ground (arith, folded-starts_with m a)

contains-Mentions : (p s : JsString) → contains p s ≡ true → Mentions p s
unfolding contains
contains-Mentions p [] h = let (m, a, q, f) = starts_with-folded p [] h in ([], m, a, q, f)
contains-Mentions p (c ∷ s) h = elim (Bool-cases (starts_with p (c ∷ s))) [
  | inl e ↦ let (m, a, q, f) = starts_with-folded p (c ∷ s) e in ([], m, a, q, f)
  | inr e ↦
      let (b, m, a, q, f) = contains-Mentions p s (ground (arith, h, e)) in
      (c ∷ b, m, a, ap (λ t. c ∷ t) q, f)
]

starts_with-contains : (p s : JsString) → starts_with p s ≡ true → contains p s ≡ true
unfolding contains
starts_with-contains p [] h = h
starts_with-contains p (c ∷ s) h = ground (arith, h)

contains_after : (p b s : JsString) → contains p s ≡ true → contains p (b ++ s) ≡ true
unfolding contains
contains_after p [] s h = h
contains_after p (c ∷ b) s h = ground (arith, contains_after p b s h)

Mentions-contains : (p s : JsString) → Mentions p s → contains p s ≡ true
Mentions-contains p s (b, m, a, q, f) =
    let k : contains (folded m) (b ++ (m ++ a)) ≡ true =
      contains_after (folded m) b (m ++ a)
        (starts_with-contains (folded m) (m ++ a) (folded-starts_with m a)) in
    ap (contains p) q ∙ ap (λ w. contains w (b ++ (m ++ a))) (sym f) ∙ k

-- The lock client says that the authority is gone.
abbrev pub IsRefusal : JsString → Type 0
IsRefusal m =
    Mentions (codes "lost fenced authority") m
    ⊎ (Mentions (codes "not_holder") m ⊎ Mentions (codes "not_found") m)

authority_lost-IsRefusal : (m : JsString) → authority_lost m ≡ true → IsRefusal m
unfolding authority_lost
authority_lost-IsRefusal m h = elim (Bool-cases (contains (codes "lost fenced authority") m)) [
  | inl e ↦ inl (contains-Mentions (codes "lost fenced authority") m e)
  | inr e ↦ elim (Bool-cases (contains (codes "not_holder") m)) [
    | inl f ↦ inr (inl (contains-Mentions (codes "not_holder") m f))
    | inr f ↦ inr (inr (contains-Mentions (codes "not_found") m (ground (arith, h, e, f))))
  ]
]

pub IsRefusal-authority_lost : (m : JsString) → IsRefusal m → authority_lost m ≡ true
unfolding authority_lost
IsRefusal-authority_lost m (inl r) =
    ground (arith, Mentions-contains (codes "lost fenced authority") m r)
IsRefusal-authority_lost m (inr (inl r)) =
    ground (arith, Mentions-contains (codes "not_holder") m r)
IsRefusal-authority_lost m (inr (inr r)) = ground (arith, Mentions-contains (codes "not_found") m r)

-- A failure costs the grant: the lock client refuses, or the grant has expired at the time `now`,
-- or the failures in a row reach the limit.
abbrev pub IsFatal : JsString → ℕ → Handle → Lease → Type 0
IsFatal m now h l =
    IsRefusal m
    ⊎ (((at : ℕ) × (h.lease_expires_ms ≡ some at) × (at ≤ now))
        ⊎ (l.renew_failure_limit ≤ l.failures + 1))

-- The lease after a failure that costs the grant, and after one that does not.
abbrev pub forfeited : Lease → Lease
forfeited l = record l {
  handle = none;
  timer = none;
  failures = l.failures + 1;
  lost_calls = l.lost_calls + 1;
  renew_errors = l.renew_errors ++ (l.failures + 1) ∷ [];
}

abbrev pub retrying : Lease → Lease
retrying l = record l {
  timer = some (max 250 (l.renew_interval_ms / 2));
  failures = l.failures + 1;
  renew_errors = l.renew_errors ++ (l.failures + 1) ∷ [];
}

is_expired_iff :
    (l : Lease) (h : Handle) (now : ℕ)
    → l.handle ≡ some h
    → (is_expired l now ≡ true) ↔ ((at : ℕ) × (h.lease_expires_ms ≡ some at) × (at ≤ now))
unfolding is_expired
is_expired_iff l h now e = (λ k. ground (arith, e, k), λ k. ground (arith, e, k))

module _ (l : Lease) (h : Handle) (m : JsString) (now : ℕ) (e : l.handle ≡ some h) where
  gives_up-IsFatal : gives_up m now (count_failure l) ≡ true → IsFatal m now h l
  unfolding gives_up count_failure
  gives_up-IsFatal k = elim (Bool-cases (authority_lost m)) [
    | inl a ↦ inl (authority_lost-IsRefusal m a)
    | inr a ↦ elim (Bool-cases (is_expired (count_failure l) now)) [
      | inl x ↦ inr (inl ((is_expired_iff (count_failure l) h now e).0 x))
      | inr x ↦ inr (inr (ground (arith, k, a, x)))
    ]
  ]

  IsFatal-gives_up : IsFatal m now h l → gives_up m now (count_failure l) ≡ true
  unfolding gives_up count_failure
  IsFatal-gives_up (inl r) = ground (arith, IsRefusal-authority_lost m r)
  IsFatal-gives_up (inr (inl x)) = ground (arith, (is_expired_iff (count_failure l) h now e).1 x)
  IsFatal-gives_up (inr (inr x)) = ground (arith, x)

  settle_forfeits :
      gives_up m now (count_failure l) ≡ true → settle_failure m now (count_failure l) ≡ forfeited l
  unfolding count_failure mark_lost stop_heartbeat
  settle_forfeits k = ground (arith, k, e)

  settle_retries :
      gives_up m now (count_failure l) ≡ false → settle_failure m now (count_failure l) ≡ retrying l
  unfolding count_failure schedule stop_heartbeat retry_delay
  settle_retries k = ground (arith, k, e)

  -- A renewal of the grant that is held fails, and `onRenewError` does not release the lease. If the
  -- message says, in whatever case, that the authority is lost, that this is not the holder or that
  -- the lock is not found, or the grant has expired, or the failures in a row reach the limit, then
  -- the grant and the timer are gone and `onLost` is called once; otherwise the grant stays and the
  -- next renewal is due after half the interval, but not before 250 ms. Either way the failure is
  -- counted and reported.
  pub failed_renewal_cases :
      (acts : List RenewAct)
      → IsKeeping acts
      → (IsFatal m now h l × (beat_failed h m acts now l ≡ forfeited l))
        ⊎ (¬ (IsFatal m now h l) × (beat_failed h m acts now l ≡ retrying l))
  failed_renewal_cases acts q =
      let x = beat_failed-settle h h m acts now l q e in
      let y =
        x ∙ ap (λ b. if b then settle_failure m now (count_failure l) else l) (owns_held l h e) in
      elim (Bool-cases (gives_up m now (count_failure l))) [
        | inl k ↦ inl (gives_up-IsFatal k, y ∙ settle_forfeits k)
        | inr k ↦ inr (λ f. ground (arith, k, IsFatal-gives_up f), y ∙ settle_retries k)
      ]

-- A callback that releases the lease leaves it without a grant, and the rest as it was.
released_acts :
    (acts : List RenewAct) (l : Lease)
    → l.handle ≡ none
    → ((renew_acts acts l).handle ≡ none)
      × ((renew_acts acts l).failures ≡ l.failures)
      × ((renew_acts acts l).renew_failure_limit ≡ l.renew_failure_limit)
      × ((renew_acts acts l).renew_interval_ms ≡ l.renew_interval_ms)
unfolding renew_acts renew_act release stop_heartbeat
released_acts [] l n = (n, refl, refl, refl)
released_acts (gives_back ∷ acts) l n =
    released_acts acts (record l { handle = none; timer = none }) refl
released_acts (asks_again ∷ acts) l n =
    ground (arith, n, released_acts acts l n, released_acts acts (record l { acquiring = true }) n)

module _ (l : Lease) (h : Handle) (m : JsString) (now : ℕ) (e : l.handle ≡ some h) where
  -- A renewal of the grant that is held fails, and `onRenewError` releases the lease, whatever it
  -- does then. If the message does not say that the authority is lost, and the failures in a row do
  -- not reach the limit, a heartbeat is scheduled all the same, on a lease that has no grant.
  pub released_in_callback_leaks :
      (acts : List RenewAct)
      → ¬ (IsRefusal m)
      → l.failures + 1 < l.renew_failure_limit
      → ((beat_failed h m (gives_back ∷ acts) now l).handle ≡ none)
        × ((beat_failed h m (gives_back ∷ acts) now l).timer
            ≡ some (max 250 (l.renew_interval_ms / 2)))
  unfolding beat_failed renew_acts renew_act release stop_heartbeat count_failure gives_up
      is_expired schedule retry_delay
  released_in_callback_leaks acts r b =
      let x : Lease = record (count_failure l) { handle = none; timer = none } in
      let (n, f, k, i) = released_acts acts x refl in
      let a : authority_lost m ≡ false = elim (Bool-cases (authority_lost m)) [
        | inl y ↦ absurd (r (authority_lost-IsRefusal m y))
        | inr y ↦ y
      ] in
      ground (arith, owns_held l h e, n, f, k, i, a, b)
