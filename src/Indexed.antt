-- ===== src/Indexed.antt =====
-- `IndexedDbStore` of sdk/src/store.mjs: the rows, the write queue and the cursors in object stores
-- of the browser, whose operations are the parameters. A transaction is one atomic step, as IndexedDB has it.
pub mod Refines
pub mod Queues
pub mod Traces
use zed_sync.Prelude.{
  ℕ, ◌+◌, Bool, true, false, not, ltb, leb, ◌==◌, if◌then◌else◌, Option, none, some, List, [], ◌∷◌,
  ◌++◌, length, JsString, codes, str_eq, ◌≡◌,
}
use zed_sync.Json.{Value, null, is_plain}
use zed_sync.Hlc.{Hlc}
use zed_sync.Dict.{Dict, insert}
use zed_sync.Core.{QueuedWrite, settle_queued_ack}
use zed_sync.Store.{
  Cursor, StoredRow, RowMeta, Write, with_seq, find_row, find_seq, without_seq, row_key,
}
use zed_sync.Store.Settle.{AckOptions, AckOutcome, unsettled, adopted_meta}
use zed_sync.Store.Queue.{IsAscending}

-- `put` of a record whose key the object store has: it replaces that record.
unfoldable pub replace_seq : QueuedWrite → List QueuedWrite → List QueuedWrite
replace_seq q [] = []
replace_seq q (x ∷ queue) = if x.seq == q.seq then q ∷ queue else x ∷ replace_seq q queue

-- An object store with the key path `seq` and a key generator, as IndexedDB documents it: the
-- records come in ascending order of their keys, and a generated key is greater than all before it.
-- It keeps structured clones, which are the same where no payload has a `foreign` value in it.
pub record QueueStore : Type 1 where
  pub State : Type 0
  pub get_all : State → List QueuedWrite
  pub get : ℕ → State → Option QueuedWrite
  pub put : QueuedWrite → State → State
  pub add : Write → State → State × ℕ
  pub delete : ℕ → State → State
  -- The last key that was generated.
  pub last_key : State → ℕ
  pub get_law : (n : ℕ) (t : State) → get n t ≡ find_seq n (get_all t)
  pub put_law :
      (q old : QueuedWrite) (t : State)
      → is_plain q.payload ≡ true
      → find_seq q.seq (get_all t) ≡ some old
      → (get_all (put q t) ≡ replace_seq q (get_all t)) × (last_key (put q t) ≡ last_key t)
  pub add_law :
      (w : Write) (t : State)
      → is_plain w.payload ≡ true
      → ((add w t).1 ≡ last_key t + 1)
        × (get_all (add w t).0 ≡ get_all t ++ with_seq w (last_key t + 1) ∷ [])
        × (last_key (add w t).0 ≡ last_key t + 1)
  pub delete_law :
      (n : ℕ) (t : State)
      → (get_all (delete n t) ≡ without_seq n (get_all t)) × (last_key (delete n t) ≡ last_key t)

-- An object store whose keys are given with each record; a structured clone gives back as they are
-- the records with `IsStorable`.
pub record KeyedStore (V : Type 0) (IsStorable : V → Type 0) : Type 1 where
  pub State : Type 0
  pub get : JsString → State → Option V
  pub put : JsString → V → State → State
  pub put_law :
      (k j : JsString) (v : V) (t : State)
      → IsStorable v
      → get j (put k v t) ≡ (if str_eq k j then some v else get j t)

abbrev pub RowStore : Type 1
RowStore = KeyedStore StoredRow (λ r. is_plain r.row ≡ true)

abbrev pub CursorStore : Type 1
CursorStore = KeyedStore Cursor (λ _. Unit)

-- `all.reduce((a, b) => (a.seq <= b.seq ? a : b), first)`
unfoldable pub oldest : QueuedWrite → List QueuedWrite → QueuedWrite
oldest a [] = a
oldest a (b ∷ queue) = oldest (if leb a.seq b.seq then a else b) queue

-- The entry that `enqueue` drops, given the entries from before and the cap.
unfoldable pub overflowing : ℕ → List QueuedWrite → Option QueuedWrite
unfolding oldest
overflowing cap [] = none
overflowing cap (q ∷ queue) =
    if ltb cap (length (q ∷ queue) + 1) then some (oldest q (q ∷ queue)) else none

module _ (Q : QueueStore) (R : RowStore) (C : CursorStore) where
  pub record IndexedDb : Type 0 where
    pub queue : Q.State
    pub rows : R.State
    pub meta : C.State
    pub max_length : ℕ

  unfoldable pub idb_get_row : IndexedDb → JsString → JsString → Option StoredRow
  idb_get_row d table id = R.get (row_key table id) d.rows

  unfoldable pub idb_put_row : IndexedDb → JsString → JsString → Value → RowMeta → IndexedDb
  idb_put_row d table id row meta = record d {
    rows = R.put (row_key table id) (record { row = row; meta = meta }) d.rows;
  }

  unfoldable pub idb_remove_row : IndexedDb → JsString → JsString → RowMeta → IndexedDb
  idb_remove_row d table id meta = record d {
    rows = R.put (row_key table id) (record { row = null; meta = meta }) d.rows;
  }

  pub record IdbEnqueued : Type 0 where
    pub db : IndexedDb
    pub seq : ℕ
    pub dropped : Option QueuedWrite

  unfoldable pub delete_dropped : Option QueuedWrite → Q.State → Q.State
  delete_dropped none t = t
  delete_dropped (some q) t = Q.delete q.seq t

  unfoldable pub idb_enqueue : IndexedDb → Write → IdbEnqueued
  unfolding overflowing delete_dropped
  idb_enqueue d w = elim (find_row w.table w.id (Q.get_all d.queue)) [
    | some existing ↦ record {
      db = record d { queue = Q.put (with_seq w existing.seq) d.queue };
      seq = existing.seq;
      dropped = none;
    }
    | none ↦
        let dropped = overflowing d.max_length (Q.get_all d.queue) in
        record {
          db = record d { queue = delete_dropped dropped (Q.add w d.queue).0 };
          seq = (Q.add w d.queue).1;
          dropped = dropped;
        }
  ]

  unfoldable pub idb_pending : IndexedDb → List QueuedWrite
  idb_pending d = Q.get_all d.queue

  unfoldable pub idb_retire : IndexedDb → ℕ → IndexedDb
  idb_retire d seq = record d { queue = Q.delete seq d.queue }

  unfoldable pub idb_adopt :
      IndexedDb → AckOptions → StoredRow → Option Hlc → IndexedDb × AckOutcome
  unfolding idb_put_row
  idb_adopt d o current none = (d, record { retired = true; adopted = false })
  idb_adopt d o current (some v) = (
    idb_put_row d o.table o.id current.row (adopted_meta v o.at),
    record { retired = true; adopted = true },
  )

  unfoldable pub idb_settle_found :
      IndexedDb → AckOptions → QueuedWrite → StoredRow → IndexedDb × AckOutcome
  unfolding idb_adopt idb_retire
  idb_settle_found d o queued current =
      let settlement =
        (settle_queued_ack (record { version = current.meta.version; dirty = current.meta.dirty })
          queued o.write_key o.base_version
          (record { id = o.id; committed_version = o.committed_version })) in
      if not settlement.retire_current_slot
      then (d, unsettled)
      else idb_adopt (idb_retire d o.seq) o current settlement.adopt

  unfoldable pub idb_settle_ack : IndexedDb → AckOptions → IndexedDb × AckOutcome
  unfolding idb_settle_found idb_get_row
  idb_settle_ack d o = elim (Q.get o.seq d.queue) [
    | none ↦ (d, unsettled)
    | some queued ↦ elim (idb_get_row d o.table o.id) [
      | none ↦ (d, unsettled)
      | some current ↦ idb_settle_found d o queued current
    ]
  ]

  -- The key of a scope is the scope behind "cursor ".
  unfoldable pub idb_get_cursor : IndexedDb → JsString → Option Cursor
  idb_get_cursor d scope = C.get (codes "cursor" ++ 0 ∷ scope) d.meta

  unfoldable pub idb_set_cursor : IndexedDb → JsString → JsString → ℕ → IndexedDb
  idb_set_cursor d scope cursor at = record d {
    meta =
        C.put (codes "cursor" ++ 0 ∷ scope) (record { cursor = cursor; last_synced_at_ms = at })
          d.meta;
  }
