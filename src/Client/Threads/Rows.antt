-- ===== src/Client/Threads/Rows.antt =====
-- What one segment of `applyChange` of sdk/src/client.mjs does to the stored rows.
use zed_sync.Prelude.{
  Bool, true, false, Option, List, [], ◌∷◌, JsString, ◌≡◌, refl, arith, Bool-cases, inl, inr,
}
use zed_sync.Core.{
  ChangeEvent, QueuedWrite, Reconcile, apply, ignore_stale, ignore_already_applied, conflict,
}
use zed_sync.Store.{StoredRow, get_row, retire, same_row}
use zed_sync.Store.Rows.{no_nul}
use zed_sync.Client.{Client}
use zed_sync.Client.Incoming.{is_clean, conflict_adopts, done}
use zed_sync.Client.Slots.{admits, get_row-adopt, Took, takes}
use zed_sync.Client.Threads.{
  Thread, begins, decides, drops, retires, announces, ended, begin_change, end_with, resolve_change,
  decide_change, retire_next, segment, next_of, resume,
}

-- A call that has made its decision: it no longer touches any row.
abbrev pub IsLate : Thread → Type 0
IsLate t = elim t [
  | begins e ↦ ⊥
  | decides e existing ↦ ⊥
  | drops e ↦ Unit {0}
  | retires e ws ↦ Unit {0}
  | announces e o ↦ Unit {0}
  | ended r ↦ Unit {0}
]

retire_next-rows :
    (e : ChangeEvent) (ws : List QueuedWrite) (c : Client) (u j : JsString)
    → get_row (retire_next e ws c).1.store u j ≡ get_row c.store u j
unfolding retire_next retire get_row
retire_next-rows e [] c u j = refl
retire_next-rows e (w ∷ ws) c u j = ground (arith, retire_next-rows e ws c u j)

retire_next-IsLate :
    (e : ChangeEvent) (ws : List QueuedWrite) (c : Client) → IsLate (next_of (retire_next e ws c).0)
unfolding retire_next next_of
retire_next-IsLate e [] c = tt
retire_next-IsLate e (w ∷ ws) c = elim (Bool-cases (same_row e.table e.id w)) [
  | inl p ↦ rw p tt
  | inr p ↦ rw p (retire_next-IsLate e ws c)
]

pub late-rows :
    (t : Thread) (c : Client) (u j : JsString)
    → IsLate t
    → get_row (resume t c).1.store u j ≡ get_row c.store u j
unfolding resume segment end_with done
late-rows (begins e) c u j h = absurd h
late-rows (decides e existing) c u j h = absurd h
late-rows (drops e) c u j h = refl
late-rows (retires e ws) c u j h = retire_next-rows e ws c u j
late-rows (announces e o) c u j h = refl
late-rows (ended r) c u j h = refl

pub resume-IsLate : (t : Thread) (c : Client) → IsLate t → IsLate (resume t c).0
unfolding resume segment end_with done next_of
resume-IsLate (begins e) c h = absurd h
resume-IsLate (decides e existing) c h = absurd h
resume-IsLate (drops e) c h = tt
resume-IsLate (retires e ws) c h = retire_next-IsLate e ws c
resume-IsLate (announces e o) c h = tt
resume-IsLate (ended r) c h = tt

resolve_change-IsLate :
    (e : ChangeEvent) (b : Bool) (c : Client) → IsLate (next_of (resolve_change e b c).0)
unfolding resolve_change next_of end_with done
resolve_change-IsLate e true c = tt
resolve_change-IsLate e false c = tt

pub decide_change-IsLate :
    (e : ChangeEvent) (existing : Option StoredRow) (d : Reconcile) (c : Client)
    → IsLate (next_of (decide_change e existing d c).0)
unfolding decide_change next_of end_with done
decide_change-IsLate e existing apply c = tt
decide_change-IsLate e existing conflict c =
    resolve_change-IsLate e (conflict_adopts c existing e) c
decide_change-IsLate e existing ignore_already_applied c = elim (Bool-cases (is_clean existing)) [
  | inl p ↦ rw p tt
  | inr p ↦ rw p tt
]
decide_change-IsLate e existing ignore_stale c = tt

module _ (e : ChangeEvent) (u j : JsString) (ht : no_nul e.table ≡ true)
    (hu : no_nul u ≡ true) where
  resolve_change-rows :
      (adopts : Bool) (c : Client)
      → Took e adopts c.store (resolve_change e adopts c).1.store c.now u j
  unfolding resolve_change end_with done
  resolve_change-rows true c = ground (arith, get_row-adopt c.store e c.now u j ht hu)
  resolve_change-rows false c = ground arith

  pub decide_change-rows :
      (existing : Option StoredRow) (d : Reconcile) (c : Client)
      → Took e (takes c existing e d) c.store (decide_change e existing d c).1.store c.now u j
  unfolding decide_change takes end_with done
  decide_change-rows existing apply c = ground (arith, get_row-adopt c.store e c.now u j ht hu)
  decide_change-rows existing conflict c = resolve_change-rows (conflict_adopts c existing e) c
  decide_change-rows existing ignore_already_applied c =
      ground (arith, get_row-adopt c.store e c.now u j ht hu)
  decide_change-rows existing ignore_stale c = ground arith

pub begins-rows :
    (e : ChangeEvent) (c : Client) (u j : JsString)
    → get_row (resume (begins e) c).1.store u j ≡ get_row c.store u j
unfolding resume segment begin_change get_row
begins-rows e c u j = ground arith

retire_next-admits :
    (e f : ChangeEvent) (ws : List QueuedWrite) (c : Client)
    → admits (retire_next e ws c).1 f ≡ admits c f
unfolding retire_next admits
retire_next-admits e f [] c = refl
retire_next-admits e f (w ∷ ws) c = ground (arith, retire_next-admits e f ws c)

decide_change-admits :
    (e f : ChangeEvent) (existing : Option StoredRow) (d : Reconcile) (c : Client)
    → admits (decide_change e existing d c).1 f ≡ admits c f
unfolding decide_change admits end_with done resolve_change
decide_change-admits e f existing apply c = refl
decide_change-admits e f existing conflict c = ground arith
decide_change-admits e f existing ignore_already_applied c = ground arith
decide_change-admits e f existing ignore_stale c = refl

-- The guards are as they were after any segment.
pub resume-admits :
    (t : Thread) (c : Client) (f : ChangeEvent) → admits (resume t c).1 f ≡ admits c f
unfolding resume segment begin_change admits end_with done
resume-admits (begins e) c f = ground arith
resume-admits (decides e existing) c f = decide_change-admits e f existing _ c
resume-admits (drops e) c f = refl
resume-admits (retires e ws) c f = retire_next-admits e f ws c
resume-admits (announces e o) c f = refl
resume-admits (ended r) c f = refl
