-- ===== src/Client/Threads/Race.antt =====
-- Two calls of `applyChange` of sdk/src/client.mjs for one row, as
-- sdk/src/transports/backend.mjs starts them for the changes of a frame.
use mathlib.Core.Path.{ap₂}
use zed_sync.Prelude.{
  JsString, List, Ordering, true, false, some, [], ◌∷◌, ◌≡◌, refl, arith, str_eq_iff, ap, ◌∙◌,
}
use zed_sync.Hlc.{compare_hlc}
use zed_sync.Hlc.Order.{compare_hlc-flip, compare_hlc_trans}
use zed_sync.Core.{ChangeEvent, apply, reconcile}
use zed_sync.Store.{StoredRow, get_row}
use zed_sync.Store.Rows.{no_nul}
use zed_sync.Client.{Client, applied}
use zed_sync.Client.Incoming.{apply_all, adopt, observe_version, local_of}
use zed_sync.Client.Slots.{admits, get_row-adopt, adopts_over, adopted_row}
use zed_sync.Client.Converge.{Guarded, two_delivered}
use zed_sync.Client.Views.{view, view_after, taken}
use zed_sync.Client.Threads.{
  announces, Thread, Turn, begins, decides, resumes, decide_change, segment, resume, resume_at,
  turn, run_turns, next_of,
}
use zed_sync.Client.Threads.Alone.{begin_change-admitted}

resume-begins :
    (e : ChangeEvent) (c : Client) (r : StoredRow)
    → admits c e ≡ true
    → get_row c.store e.table e.id ≡ some r
    → resume (begins e) c ≡ (decides e (some r), (observe_version e.version c).1)
unfolding resume segment next_of
resume-begins e c r h held = rw (begin_change-admitted e c h, held) refl

resume-decides :
    (e : ChangeEvent) (r : StoredRow) (c : Client)
    → r.meta.dirty ≡ false
    → compare_hlc e.version r.meta.version ≡ Ordering.gt
    → resume (decides e (some r)) c ≡ (announces e applied, (adopt e c).1)
unfolding resume segment decide_change next_of reconcile
resume-decides e r c clean newer =
    let k : reconcile (local_of (some r)) e ≡ apply =
      ground (arith, compare_hlc-flip e.version r.meta.version) in
    rw k refl

admits-observe :
    (e f : ChangeEvent) (c : Client) → admits (observe_version f.version c).1 e ≡ admits c e
unfolding admits observe_version
admits-observe e f c = refl

module _ (ms : List Turn) (t u : Thread) (c : Client) where
  turn_first :
      (t' : Thread) (c' : Client)
      → resume t c ≡ (t', c')
      → run_turns (resumes 0 ∷ ms) (t ∷ u ∷ []) c ≡ run_turns ms (t' ∷ u ∷ []) c'
  unfolding run_turns turn resume_at
  turn_first t' c' h = ap (λ x. run_turns ms (x.0 ∷ u ∷ []) x.1) h

  turn_second :
      (u' : Thread) (c' : Client)
      → resume u c ≡ (u', c')
      → run_turns (resumes 1 ∷ ms) (t ∷ u ∷ []) c ≡ run_turns ms (t ∷ u' ∷ []) c'
  unfolding run_turns turn resume_at
  turn_second u' c' h = ap (λ x. run_turns ms (t ∷ x.0 ∷ []) x.1) h

abbrev pub in_turns : List Turn
in_turns = resumes 0 ∷ resumes 1 ∷ resumes 0 ∷ resumes 1 ∷ []

-- Both read the row before either stores its change.
both_read :
    (c : Client) (e f : ChangeEvent) (r : StoredRow)
    → admits c e ≡ true
    → admits c f ≡ true
    → get_row c.store e.table e.id ≡ some r
    → get_row c.store f.table f.id ≡ some r
    → r.meta.dirty ≡ false
    → compare_hlc e.version r.meta.version ≡ Ordering.gt
    → compare_hlc f.version r.meta.version ≡ Ordering.gt
    → run_turns in_turns (begins e ∷ begins f ∷ []) c ≡ (
      announces e applied ∷ announces f applied ∷ [],
      (adopt f (adopt e (observe_version f.version (observe_version e.version c).1).1).1).1,
    )
unfolding observe_version run_turns
both_read c e f r ae af he hf clean ne nf =
    let c1 = (observe_version e.version c).1 in
    let c2 = (observe_version f.version c1).1 in
    turn_first (resumes 1 ∷ resumes 0 ∷ resumes 1 ∷ []) (begins e) (begins f) c _ _
      (resume-begins e c r ae he)
    ∙ turn_second (resumes 0 ∷ resumes 1 ∷ []) (decides e (some r)) (begins f) c1 _ _
        (resume-begins f c1 r (admits-observe f e c ∙ af) hf)
    ∙ turn_first (resumes 1 ∷ []) (decides e (some r)) (decides f (some r)) c2 _ _
        (resume-decides e r c2 clean ne)
    ∙ turn_second [] (announces e applied) (decides f (some r)) (adopt e c2).1 _ _
        (resume-decides f r (adopt e c2).1 clean nf)

adopted_view :
    (f : ChangeEvent) (c : Client) (t i : JsString)
    → no_nul f.table ≡ true
    → no_nul t ≡ true
    → f.table ≡ t
    → f.id ≡ i
    → view (get_row (adopt f c).1.store t i) ≡ some (taken f)
unfolding view taken adopted_row adopt
adopted_view f c t i n m ht hi =
    ground (arith, get_row-adopt c.store f c.now t i n m, str_eq_iff f.table t, str_eq_iff f.id i)

newer_than_row :
    (e f : ChangeEvent) (r : StoredRow)
    → compare_hlc f.version r.meta.version ≡ Ordering.gt
    → compare_hlc e.version f.version ≡ Ordering.gt
    → compare_hlc e.version r.meta.version ≡ Ordering.gt
newer_than_row e f r nf ef = ground (
  arith,
  compare_hlc_trans r.meta.version f.version e.version,
  compare_hlc-flip e.version f.version,
  compare_hlc-flip f.version r.meta.version,
  compare_hlc-flip e.version r.meta.version,
  compare_hlc-flip r.meta.version e.version,
)

-- Two changes e and f of a clean row, e newer than f and f newer than the row, that one frame brings
-- in the order e, f: if both calls read the row before either stores its change, the row ends at
-- the older version f. One call after the other leaves it at e.
pub interleaved_changes_regress :
    (c : Client) (e f : ChangeEvent) (r : StoredRow)
    → Guarded c e
    → Guarded c f
    → f.table ≡ e.table
    → f.id ≡ e.id
    → get_row c.store e.table e.id ≡ some r
    → r.meta.dirty ≡ false
    → compare_hlc f.version r.meta.version ≡ Ordering.gt
    → compare_hlc e.version f.version ≡ Ordering.gt
    → (view (get_row (run_turns in_turns (begins e ∷ begins f ∷ []) c).1.store e.table e.id)
        ≡ some (taken f))
      × (view (get_row (apply_all (e ∷ f ∷ []) c).1.store e.table e.id) ≡ some (taken e))
unfolding view view_after adopts_over taken
interleaved_changes_regress c e f r ge gf t i held clean nf ef =
    let c2 = (adopt e (observe_version f.version (observe_version e.version c).1).1).1 in
    (
      ap (λ x. view (get_row x.1.store e.table e.id))
            (both_read c e f r ge.0 gf.0 held (ap₂ (get_row c.store) t i ∙ held) clean
              (newer_than_row e f r nf ef) nf)
          ∙ adopted_view f c2 e.table e.id gf.1 ge.1 t i,
      ground (
        arith,
        two_delivered c e f ge gf t i,
        compare_hlc-flip e.version f.version,
        compare_hlc-flip f.version r.meta.version,
        compare_hlc-flip e.version r.meta.version,
        newer_than_row e f r nf ef,
        held,
      ),
    )
