-- ===== src/Client/Threads/Lone.antt =====
-- One call of `applyChange` of sdk/src/client.mjs among calls for other rows.
use mathlib.Core.Path.{ap₂}
use zed_sync.Prelude.{
  ℕ, zero, suc, ◌+◌, ◌≤◌, true, Option, List, [], ◌∷◌, All, str_eq_iff, ◌≡◌, refl, subst, arith,
  ◌∙◌, ap, sym,
}
use zed_sync.Core.{ChangeEvent, reconcile}
use zed_sync.Store.{StoredRow, get_row}
use zed_sync.Store.Rows.{no_nul}
use zed_sync.Client.{Client}
use zed_sync.Client.Incoming.{local_of, observe_version}
use zed_sync.Client.Slots.{admits, takes-slot}
use zed_sync.Client.Converge.{Guarded}
use zed_sync.Client.Views.{view, view_after, view-slot_after}
use zed_sync.Client.Threads.{
  Thread, begins, decides, drops, retires, announces, ended, segment, next_of, resume, Turn,
  resumes, meanwhile, resume_at, turn, run_turns,
}
use zed_sync.Client.Threads.Alone.{begin_change-admitted}
use zed_sync.Client.Threads.Rows.{
  IsLate, late-rows, resume-IsLate, decide_change-IsLate, decide_change-rows,
}
use zed_sync.Client.Threads.Apart.{IsApart, others-rows, others-IsApart, others-admits}

-- How far the call for `e` is after `n` segments, from the row `r0`.
abbrev Tracks : ChangeEvent → Option StoredRow → ℕ → Thread → Client → Type 0
Tracks e r0 n u c = elim u [
  | begins f ↦ (n ≡ 0) × ((f ≡ e) × (get_row c.store e.table e.id ≡ r0)) × (admits c e ≡ true)
  | decides f existing ↦ (n ≡ 1) × ((f ≡ e) × (get_row c.store e.table e.id ≡ r0)) × (existing ≡ r0)
  | drops f ↦ view (get_row c.store e.table e.id) ≡ view_after (view r0) e
  | retires f ws ↦ view (get_row c.store e.table e.id) ≡ view_after (view r0) e
  | announces f o ↦ view (get_row c.store e.table e.id) ≡ view_after (view r0) e
  | ended r ↦ view (get_row c.store e.table e.id) ≡ view_after (view r0) e
]

late-Tracks :
    (e : ChangeEvent) (r0 : Option StoredRow) (n : ℕ) (u : Thread) (c : Client)
    → IsLate u
    → view (get_row c.store e.table e.id) ≡ view_after (view r0) e
    → Tracks e r0 n u c
late-Tracks e r0 n (begins f) c h k = absurd h
late-Tracks e r0 n (decides f existing) c h k = absurd h
late-Tracks e r0 n (drops f) c h k = k
late-Tracks e r0 n (retires f ws) c h k = k
late-Tracks e r0 n (announces f o) c h k = k
late-Tracks e r0 n (ended r) c h k = k

-- Neither the row nor the guards changed.
Tracks-frame :
    (e : ChangeEvent) (r0 : Option StoredRow) (n : ℕ) (u : Thread) (c c' : Client)
    → get_row c'.store e.table e.id ≡ get_row c.store e.table e.id
    → admits c' e ≡ admits c e
    → Tracks e r0 n u c
    → Tracks e r0 n u c'
Tracks-frame e r0 n (begins f) c c' g a (z, (s, h), k) = (z, (s, g ∙ h), a ∙ k)
Tracks-frame e r0 n (decides f existing) c c' g a (z, (s, h), k) = (z, (s, g ∙ h), k)
Tracks-frame e r0 n (drops f) c c' g a k = ap view g ∙ k
Tracks-frame e r0 n (retires f ws) c c' g a k = ap view g ∙ k
Tracks-frame e r0 n (announces f o) c c' g a k = ap view g ∙ k
Tracks-frame e r0 n (ended r) c c' g a k = ap view g ∙ k

decides-view :
    (e : ChangeEvent) (existing : Option StoredRow) (c : Client)
    → no_nul e.table ≡ true
    → get_row c.store e.table e.id ≡ existing
    → view (get_row (resume (decides e existing) c).1.store e.table e.id)
      ≡ view_after (view existing) e
unfolding resume segment
decides-view e existing c n h = ground (
  arith,
  decide_change-rows e e.table e.id n n existing (reconcile (local_of existing) e) c,
  takes-slot e c existing,
  view-slot_after existing e c.now,
  str_eq_iff e.table e.table,
  str_eq_iff e.id e.id,
)

-- One segment of the call itself.
module _ (e : ChangeEvent) (r0 : Option StoredRow) (t : no_nul e.table ≡ true) where
  begins-Tracks :
      (c : Client)
      → get_row c.store e.table e.id ≡ r0
      → admits c e ≡ true
      → Tracks e r0 1 (resume (begins e) c).0 (resume (begins e) c).1
  unfolding resume segment next_of observe_version
  begins-Tracks c h a = rw (begin_change-admitted e c a) (refl, (refl, h), h)

  decides-Tracks :
      (n : ℕ) (c : Client)
      → get_row c.store e.table e.id ≡ r0
      → Tracks e r0 n (resume (decides e r0) c).0 (resume (decides e r0) c).1
  unfolding resume segment
  decides-Tracks n c h =
      late-Tracks e r0 n (resume (decides e r0) c).0 (resume (decides e r0) c).1
        (decide_change-IsLate e r0 (reconcile (local_of r0) e) c) (decides-view e r0 c t h)

  over-Tracks :
      (n : ℕ) (u : Thread) (c : Client)
      → IsLate u
      → view (get_row c.store e.table e.id) ≡ view_after (view r0) e
      → Tracks e r0 n (resume u c).0 (resume u c).1
  over-Tracks n u c l k =
      late-Tracks e r0 n (resume u c).0 (resume u c).1 (resume-IsLate u c l)
        (ap view (late-rows u c e.table e.id l) ∙ k)

  own-Tracks :
      (n : ℕ) (u : Thread) (c : Client)
      → Tracks e r0 n u c
      → Tracks e r0 (suc n) (resume u c).0 (resume u c).1
  own-Tracks n (begins f) c (z, (s, h), a) =
      subst
        (λ (x : ℕ × ChangeEvent).
          Tracks e r0 (suc x.0) (resume (begins x.1) c).0 (resume (begins x.1) c).1)
        (ap₂ (λ x y. (x, y)) (sym z) (sym s)) (begins-Tracks c h a)
  own-Tracks n (decides f existing) c (z, (s, h), k) =
      subst
        (λ (x : ChangeEvent × Option StoredRow).
          Tracks e r0 (suc n) (resume (decides x.0 x.1) c).0 (resume (decides x.0 x.1) c).1)
        (ap₂ (λ x y. (x, y)) (sym s) (sym k)) (decides-Tracks (suc n) c h)
  own-Tracks n (drops f) c k = over-Tracks (suc n) (drops f) c tt k
  own-Tracks n (retires f ws) c k = over-Tracks (suc n) (retires f ws) c tt k
  own-Tracks n (announces f o) c k = over-Tracks (suc n) (announces f o) c tt k
  own-Tracks n (ended r) c k = over-Tracks (suc n) (ended r) c tt k

  Tracks-view :
      (n : ℕ) (u : Thread) (c : Client)
      → 2 ≤ n
      → Tracks e r0 n u c
      → view (get_row c.store e.table e.id) ≡ view_after (view r0) e
  Tracks-view n (begins f) c l (z, (s, h), a) = absurd (omega arith)
  Tracks-view n (decides f existing) c l (z, (s, h), k) = absurd (omega arith)
  Tracks-view n (drops f) c l k = k
  Tracks-view n (retires f ws) c l k = k
  Tracks-view n (announces f o) c l k = k
  Tracks-view n (ended r) c l k = k

-- How many segments of the first call a schedule runs.
unfoldable pub first_turns : List Turn → ℕ
first_turns [] = 0
first_turns (resumes zero ∷ ms) = suc (first_turns ms)
first_turns (resumes (suc k) ∷ ms) = first_turns ms
first_turns (meanwhile f ∷ ms) = first_turns ms

-- What runs in between alters neither the change's row nor the guards.
abbrev pub IsAway : ChangeEvent → Turn → Type 0
IsAway e m = elim m [
  | resumes k ↦ Unit {0}
  | meanwhile f ↦
      (c : Client)
      → (get_row (f c).store e.table e.id ≡ get_row c.store e.table e.id)
        × (admits (f c) e ≡ admits c e)
]

run-Tracks :
    (e : ChangeEvent) (r0 : Option StoredRow) (ms : List Turn) (n : ℕ) (u : Thread)
    (us : List Thread) (c : Client)
    → no_nul e.table ≡ true
    → All (IsAway e) ms
    → All (IsApart e.table e.id) us
    → Tracks e r0 n u c
    → 2 ≤ n + first_turns ms
    → view (get_row (run_turns ms (u ∷ us) c).1.store e.table e.id) ≡ view_after (view r0) e
unfolding run_turns first_turns turn resume_at
run-Tracks e r0 [] n u us c t q hs h l = Tracks-view e r0 t n u c (omega arith) h
run-Tracks e r0 (resumes zero ∷ ms) n u us c t q hs h l =
    run-Tracks e r0 ms (suc n) (resume u c).0 us (resume u c).1 t q.1 hs (own-Tracks e r0 t n u c h)
      (omega arith)
run-Tracks e r0 (resumes (suc k) ∷ ms) n u us c t q hs h l =
    run-Tracks e r0 ms n u (resume_at k us c).0 (resume_at k us c).1 t q.1
      (others-IsApart e.table e.id t k us c hs)
      (Tracks-frame e r0 n u c (resume_at k us c).1 (others-rows e.table e.id t k us c hs)
        (others-admits e k us c) h)
      l
run-Tracks e r0 (meanwhile f ∷ ms) n u us c t q hs h l =
    run-Tracks e r0 ms n u us (f c) t q.1 hs (Tracks-frame e r0 n u c (f c) (q.0 c).0 (q.0 c).1 h) l

-- However the calls for incoming changes interleave at their awaits, with each other and with
-- anything that leaves the row and the guards alone: if no other call is about the change's row,
-- then once two segments of the change's call have run, the row is what the change alone makes of
-- it, and stays so. The guards let the change through, and the table names hold no U+0000.
pub lone_change-view :
    (e : ChangeEvent) (ms : List Turn) (us : List Thread) (c : Client)
    → Guarded c e
    → All (IsAway e) ms
    → All (IsApart e.table e.id) us
    → 2 ≤ first_turns ms
    → view (get_row (run_turns ms (begins e ∷ us) c).1.store e.table e.id)
      ≡ view_after (view (get_row c.store e.table e.id)) e
lone_change-view e ms us c g q hs l =
    run-Tracks e (get_row c.store e.table e.id) ms 0 (begins e) us c g.1 q hs
      (refl, (refl, refl), g.0) (omega arith)
