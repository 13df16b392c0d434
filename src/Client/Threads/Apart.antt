-- ===== src/Client/Threads/Apart.antt =====
-- Calls of `applyChange` of sdk/src/client.mjs for other rows than a given one.
use zed_sync.Prelude.{
  ℕ, zero, suc, true, false, ◌&&◌, List, [], ◌∷◌, All, JsString, str_eq, ◌≡◌, refl, arith,
  Bool-cases, inl, inr,
}
use zed_sync.Core.{ChangeEvent, reconcile}
use zed_sync.Store.{get_row}
use zed_sync.Store.Rows.{no_nul}
use zed_sync.Client.{Client}
use zed_sync.Client.Incoming.{local_of}
use zed_sync.Client.Slots.{admits}
use zed_sync.Client.Threads.{
  Thread, begins, decides, drops, retires, announces, ended, segment, next_of, resume, resume_at,
}
use zed_sync.Client.Threads.Alone.{begin_change-admitted, begin_change-next}
use zed_sync.Client.Threads.Rows.{
  IsLate, late-rows, resume-IsLate, decide_change-IsLate, decide_change-rows, begins-rows,
  resume-admits,
}

-- The change is about another row than `t`, `i`.
abbrev pub Elsewhere : JsString → JsString → ChangeEvent → Type 0
Elsewhere t i f = (no_nul f.table ≡ true) × ((str_eq f.table t && str_eq f.id i) ≡ false)

abbrev pub IsApart : JsString → JsString → Thread → Type 0
IsApart t i u = elim u [
  | begins f ↦ Elsewhere t i f
  | decides f existing ↦ Elsewhere t i f
  | drops f ↦ Unit {0}
  | retires f ws ↦ Unit {0}
  | announces f o ↦ Unit {0}
  | ended r ↦ Unit {0}
]

late-IsApart : (t i : JsString) (u : Thread) → IsLate u → IsApart t i u
late-IsApart t i (begins f) h = absurd h
late-IsApart t i (decides f existing) h = absurd h
late-IsApart t i (drops f) h = tt
late-IsApart t i (retires f ws) h = tt
late-IsApart t i (announces f o) h = tt
late-IsApart t i (ended r) h = tt

module _ (t i : JsString) (n : no_nul t ≡ true) where
  apart-rows :
      (u : Thread) (c : Client)
      → IsApart t i u
      → get_row (resume u c).1.store t i ≡ get_row c.store t i
  unfolding resume segment
  apart-rows (begins f) c h = begins-rows f c t i
  apart-rows (decides f existing) c h =
      ground (arith, decide_change-rows f t i h.0 n existing (reconcile (local_of existing) f) c, h)
  apart-rows (drops f) c h = late-rows (drops f) c t i tt
  apart-rows (retires f ws) c h = late-rows (retires f ws) c t i tt
  apart-rows (announces f o) c h = late-rows (announces f o) c t i tt
  apart-rows (ended r) c h = late-rows (ended r) c t i tt

  resume-IsApart : (u : Thread) (c : Client) → IsApart t i u → IsApart t i (resume u c).0
  unfolding resume segment next_of
  resume-IsApart (begins f) c h = elim (Bool-cases (admits c f)) [
    | inl p ↦ rw (begin_change-admitted f c p) h
    | inr p ↦ rw (begin_change-next f c p) tt
  ]
  resume-IsApart (decides f existing) c h =
      late-IsApart t i _ (decide_change-IsLate f existing (reconcile (local_of existing) f) c)
  resume-IsApart (drops f) c h =
      late-IsApart t i (resume (drops f) c).0 (resume-IsLate (drops f) c tt)
  resume-IsApart (retires f ws) c h =
      late-IsApart t i (resume (retires f ws) c).0 (resume-IsLate (retires f ws) c tt)
  resume-IsApart (announces f o) c h =
      late-IsApart t i (resume (announces f o) c).0 (resume-IsLate (announces f o) c tt)
  resume-IsApart (ended r) c h =
      late-IsApart t i (resume (ended r) c).0 (resume-IsLate (ended r) c tt)

  -- The calls for other rows take turns.
  pub others-rows :
      (k : ℕ) (us : List Thread) (c : Client)
      → All (IsApart t i) us
      → get_row (resume_at k us c).1.store t i ≡ get_row c.store t i
  unfolding resume_at
  others-rows zero [] c h = refl
  others-rows (suc k) [] c h = refl
  others-rows zero (u ∷ us) c h = apart-rows u c h.0
  others-rows (suc k) (u ∷ us) c h = others-rows k us c h.1

  pub others-IsApart :
      (k : ℕ) (us : List Thread) (c : Client)
      → All (IsApart t i) us
      → All (IsApart t i) (resume_at k us c).0
  unfolding resume_at
  others-IsApart zero [] c h = tt
  others-IsApart (suc k) [] c h = tt
  others-IsApart zero (u ∷ us) c h = (resume-IsApart u c h.0, h.1)
  others-IsApart (suc k) (u ∷ us) c h = (h.0, others-IsApart k us c h.1)

pub others-admits :
    (e : ChangeEvent) (k : ℕ) (us : List Thread) (c : Client)
    → admits (resume_at k us c).1 e ≡ admits c e
unfolding resume_at
others-admits e zero [] c = refl
others-admits e (suc k) [] c = refl
others-admits e zero (u ∷ us) c = resume-admits u c e
others-admits e (suc k) (u ∷ us) c = others-admits e k us c
