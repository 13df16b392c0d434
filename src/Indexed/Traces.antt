-- ===== src/Indexed/Traces.antt =====
-- The two stores of sdk/src/store.mjs under any sequence of calls.
use zed_sync.Prelude.{
  ℕ, All, true, ◌≤◌, Option, List, [], ◌∷◌, ◌++◌, JsString, codes, str_eq, ◌≡◌, refl, arith, ap,
}
use mathlib.Core.Path.{ap₂}
use zed_sync.Json.{Value, null, is_plain}
use zed_sync.Dict.{lookup-insert}
use zed_sync.Core.{QueuedWrite}
use zed_sync.Store.{
  Store, StoredRow, RowMeta, Cursor, Write, get_row, put_row, remove_row, enqueue, enqueue_new,
  pending, retire, get_cursor, set_cursor,
}
use zed_sync.Store.Settle.{AckOptions, AckOutcome, settle_ack, settle_found, settle_adopt}
use zed_sync.Store.Queue.{IsValid}
use zed_sync.Store.Enqueue.{enqueue-IsValid}
use zed_sync.Store.Removal.{retire-IsValid}
use zed_sync.Store.Ack.{put_row-IsValid, settle_ack-IsValid}
use zed_sync.Client.Keeps.Incoming.{remove_row-IsValid}
use zed_sync.Indexed.{
  QueueStore, RowStore, CursorStore, IndexedDb, idb_get_row, idb_put_row, idb_remove_row,
  idb_enqueue, idb_pending, idb_retire, idb_settle_ack, idb_get_cursor, idb_set_cursor,
}
use zed_sync.Indexed.Refines.{
  Refines, Refines-idb_put_row, Refines-idb_retire, idb_enqueue-Refines, idb_settle_ack-Refines,
}

-- A call of a method of a store.
pub data StoreCall : Type 0 where
  getting_row : JsString → JsString → StoreCall
  putting_row : JsString → JsString → Value → RowMeta → StoreCall
  removing_row : JsString → JsString → RowMeta → StoreCall
  enqueueing : Write → StoreCall
  pending_writes : StoreCall
  retiring : ℕ → StoreCall
  settling : AckOptions → StoreCall
  getting_cursor : JsString → StoreCall
  setting_cursor : JsString → JsString → ℕ → StoreCall

-- No row or payload that it stores has a `foreign` value in it.
abbrev pub IsStorable : StoreCall → Type 0
IsStorable (putting_row t i v m) = is_plain v ≡ true
IsStorable (enqueueing w) = is_plain w.payload ≡ true
IsStorable _ = Unit

-- What it answers, with the write that `onOverflow` is called with.
pub data StoreAnswer : Type 0 where
  row_answer : Option StoredRow → StoreAnswer
  queued_as : ℕ → Option QueuedWrite → StoreAnswer
  writes : List QueuedWrite → StoreAnswer
  settled_as : AckOutcome → StoreAnswer
  cursor_answer : Option Cursor → StoreAnswer
  done : StoreAnswer

unfoldable pub memory_call : StoreCall → Store → Store × StoreAnswer
unfolding get_row put_row remove_row pending retire get_cursor set_cursor enqueue settle_ack
memory_call (getting_row t i) s = (s, row_answer (get_row s t i))
memory_call (putting_row t i v m) s = (put_row s t i v m, done)
memory_call (removing_row t i m) s = (remove_row s t i m, done)
memory_call (enqueueing w) s = let e = enqueue s w in (e.store, queued_as e.seq e.dropped)
memory_call pending_writes s = (s, writes (pending s))
memory_call (retiring n) s = (retire s n, done)
memory_call (settling o) s = let (s', a) = settle_ack s o in (s', settled_as a)
memory_call (getting_cursor scope) s = (s, cursor_answer (get_cursor s scope))
memory_call (setting_cursor scope c at) s = (set_cursor s scope c at, done)

-- The answers to a sequence of calls.
unfoldable pub memory_answers : List StoreCall → Store → List StoreAnswer
unfolding memory_call
memory_answers [] s = []
memory_answers (k ∷ ks) s = let (s', a) = memory_call k s in a ∷ memory_answers ks s'

module _ (Q : QueueStore) (R : RowStore) (C : CursorStore) where
  unfoldable pub idb_call : StoreCall → IndexedDb Q R C → IndexedDb Q R C × StoreAnswer
  unfolding idb_get_row idb_put_row idb_remove_row idb_enqueue idb_pending idb_retire idb_settle_ack
      idb_get_cursor idb_set_cursor
  idb_call (getting_row t i) d = (d, row_answer (idb_get_row Q R C d t i))
  idb_call (putting_row t i v m) d = (idb_put_row Q R C d t i v m, done)
  idb_call (removing_row t i m) d = (idb_remove_row Q R C d t i m, done)
  idb_call (enqueueing w) d = let e = idb_enqueue Q R C d w in (e.db, queued_as e.seq e.dropped)
  idb_call pending_writes d = (d, writes (idb_pending Q R C d))
  idb_call (retiring n) d = (idb_retire Q R C d n, done)
  idb_call (settling o) d = let (d', a) = idb_settle_ack Q R C d o in (d', settled_as a)
  idb_call (getting_cursor scope) d = (d, cursor_answer (idb_get_cursor Q R C d scope))
  idb_call (setting_cursor scope c at) d = (idb_set_cursor Q R C d scope c at, done)

  unfoldable pub idb_answers : List StoreCall → IndexedDb Q R C → List StoreAnswer
  unfolding idb_call
  idb_answers [] d = []
  idb_answers (k ∷ ks) d = let (d', a) = idb_call k d in a ∷ idb_answers ks d'

  Refines-idb_remove_row :
      (d : IndexedDb Q R C) (s : Store) (t i : JsString) (m : RowMeta)
      → Refines Q R C d s
      → Refines Q R C (idb_remove_row Q R C d t i m) (remove_row s t i m)
  unfolding idb_remove_row remove_row idb_put_row put_row is_plain
  Refines-idb_remove_row d s t i m r = Refines-idb_put_row Q R C d s t i null m refl r

  Refines-idb_set_cursor :
      (d : IndexedDb Q R C) (s : Store) (scope cursor : JsString) (at : ℕ)
      → Refines Q R C d s
      → Refines Q R C (idb_set_cursor Q R C d scope cursor at) (set_cursor s scope cursor at)
  unfolding idb_set_cursor set_cursor idb_get_cursor get_cursor idb_get_row get_row str_eq
  Refines-idb_set_cursor d s scope cursor at r = record {
    queue = r.queue;
    last_key = r.last_key;
    max_length = r.max_length;
    rows = r.rows;
    cursors = λ j. ground (
      arith,
      C.put_law (codes "cursor" ++ 0 ∷ scope) (codes "cursor" ++ 0 ∷ j)
          (record { cursor = cursor; last_synced_at_ms = at }) d.meta tt,
      lookup-insert scope j (record { cursor = cursor; last_synced_at_ms = at }) s.cursors,
      r.cursors j,
    );
    plain = r.plain;
  }

set_cursor-IsValid :
    (s : Store) (scope cursor : JsString) (at : ℕ)
    → IsValid s
    → IsValid (set_cursor s scope cursor at)
unfolding set_cursor
set_cursor-IsValid s scope cursor at v = record {
  below = v.below;
  ascending = v.ascending;
  one_slot = v.one_slot;
  bounded = v.bounded;
}

memory_call-IsValid : (k : StoreCall) (s : Store) → IsValid s → IsValid (memory_call k s).0
unfolding memory_call
memory_call-IsValid (getting_row t i) s v = v
memory_call-IsValid (putting_row t i x m) s v = put_row-IsValid s t i x m v
memory_call-IsValid (removing_row t i m) s v = remove_row-IsValid s t i m v
memory_call-IsValid (enqueueing w) s v = enqueue-IsValid s w v
memory_call-IsValid pending_writes s v = v
memory_call-IsValid (retiring n) s v = retire-IsValid s n v
memory_call-IsValid (settling o) s v = settle_ack-IsValid s o v
memory_call-IsValid (getting_cursor scope) s v = v
memory_call-IsValid (setting_cursor scope c at) s v = set_cursor-IsValid s scope c at v

memory_call-max_queue_length :
    (k : StoreCall) (s : Store) → (memory_call k s).0.max_queue_length ≡ s.max_queue_length
unfolding memory_call enqueue enqueue_new settle_ack settle_found settle_adopt put_row remove_row
    retire set_cursor
memory_call-max_queue_length (getting_row t i) s = refl
memory_call-max_queue_length (putting_row t i x m) s = refl
memory_call-max_queue_length (removing_row t i m) s = refl
memory_call-max_queue_length (enqueueing w) s = ground arith
memory_call-max_queue_length pending_writes s = refl
memory_call-max_queue_length (retiring n) s = refl
memory_call-max_queue_length (settling o) s = ground arith
memory_call-max_queue_length (getting_cursor scope) s = refl
memory_call-max_queue_length (setting_cursor scope c at) s = refl

module _ (Q : QueueStore) (R : RowStore) (C : CursorStore) where
  call-Refines :
      (k : StoreCall) (d : IndexedDb Q R C) (s : Store)
      → IsStorable k
      → Refines Q R C d s
      → IsValid s
      → 1 ≤ s.max_queue_length
      → Refines Q R C (idb_call Q R C k d).0 (memory_call k s).0
        × ((idb_call Q R C k d).1 ≡ (memory_call k s).1)
  unfolding idb_call memory_call idb_pending pending
  call-Refines (getting_row t i) d s p r v c = (r, ap row_answer (r.rows t i))
  call-Refines (putting_row t i x m) d s p r v c = (Refines-idb_put_row Q R C d s t i x m p r, refl)
  call-Refines (removing_row t i m) d s p r v c = (Refines-idb_remove_row Q R C d s t i m r, refl)
  call-Refines (enqueueing w) d s p r v c =
      let (q, n, x) = idb_enqueue-Refines Q R C d s w r v p c in (q, ap₂ queued_as n x)
  call-Refines pending_writes d s p r v c = (r, ap writes r.queue)
  call-Refines (retiring n) d s p r v c = (Refines-idb_retire Q R C d s n r, refl)
  call-Refines (settling o) d s p r v c =
      let (q, a) = idb_settle_ack-Refines Q R C d s o r v.ascending in (q, ap settled_as a)
  call-Refines (getting_cursor scope) d s p r v c = (r, ap cursor_answer (r.cursors scope))
  call-Refines (setting_cursor scope x at) d s p r v c =
      (Refines-idb_set_cursor Q R C d s scope x at r, refl)

  -- The IndexedDB store and the in-memory store cannot be told apart by what they answer: started from
  -- the same rows, queue, last key and cursors, with a well-formed queue and the same cap of at least
  -- one, they answer alike every sequence of calls of their methods, sequence numbers, overflows and
  -- settlements included, whose rows and payloads, as the rows at the start, are plain data, which a
  -- structured clone gives back as it is. What becomes later of an entry that `pending` handed out is no answer.
  pub idb_answers-memory_answers :
      (ks : List StoreCall) (d : IndexedDb Q R C) (s : Store)
      → All IsStorable ks
      → Refines Q R C d s
      → IsValid s
      → 1 ≤ s.max_queue_length
      → idb_answers Q R C ks d ≡ memory_answers ks s
  unfolding idb_answers memory_answers
  idb_answers-memory_answers [] d s p r v c = refl
  idb_answers-memory_answers (k ∷ ks) d s (p, ps) r v c =
      let (r', a) = call-Refines k d s p r v c in
      let m : (memory_call k s).0.max_queue_length ≡ s.max_queue_length =
        memory_call-max_queue_length k s in
      ap₂ (λ x xs. x ∷ xs) a
        (idb_answers-memory_answers ks (idb_call Q R C k d).0 (memory_call k s).0 ps r'
          (memory_call-IsValid k s v) (omega (arith, m)))
