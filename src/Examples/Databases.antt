-- ===== src/Examples/Databases.antt =====
-- The IndexedDB store over object stores that are lists.
use zed_sync.Json.{Value, is_plain}
use zed_sync.Prelude.{none, str_eq, ℕ, ◌+◌, ◌++◌, ◌≡◌, List, [], ◌∷◌, codes, refl, arith}
use zed_sync.Dict.{Dict, lookup, insert, lookup-insert}
use zed_sync.Core.{QueuedWrite}
use zed_sync.Store.{
  Cursor, get_cursor, StoredRow, row_key, with_seq, find_seq, without_seq, get_row,
}
use zed_sync.Indexed.{
  idb_get_cursor, QueueStore, RowStore, CursorStore, IndexedDb, replace_seq, idb_get_row,
}
use zed_sync.Indexed.Refines.{Refines, plain_of}
use zed_sync.Indexed.Traces.{
  StoreCall, enqueueing, pending_writes, settling, setting_cursor, getting_cursor, memory_answers,
  idb_answers, idb_answers-memory_answers,
}
use zed_sync.Examples.Stores.{one_note, note_meta, one_note-IsValid, note_write, note_ack}

abbrev list_queue : QueueStore
list_queue = record {
  State = List QueuedWrite × ℕ;
  get_all = λ t. t.0;
  get = λ n t. find_seq n t.0;
  put = λ q t. (replace_seq q t.0, t.1);
  add = λ w t. ((t.0 ++ with_seq w (t.1 + 1) ∷ [], t.1 + 1), t.1 + 1);
  delete = λ n t. (without_seq n t.0, t.1);
  last_key = λ t. t.1;
  get_law = λ n t. refl;
  put_law = λ q old t p h. (refl, refl);
  add_law = λ w t p. (refl, refl, refl);
  delete_law = λ n t. (refl, refl);
}

abbrev dict_rows : RowStore
dict_rows = record {
  State = Dict StoredRow;
  get = λ k t. lookup k t;
  put = λ k r t. insert k r t;
  put_law = λ k j r t p. lookup-insert k j r t;
}

abbrev dict_cursors : CursorStore
dict_cursors = record {
  State = Dict Cursor;
  get = λ k t. lookup k t;
  put = λ k c t. insert k c t;
  put_law = λ k j c t p. lookup-insert k j c t;
}

abbrev db : IndexedDb list_queue dict_rows dict_cursors
db = record { queue = (one_note.queue, 1); rows = one_note.rows; meta = []; max_length = 1 }

abbrev first_note : StoredRow
first_note = record { row = Value.number 1; meta = note_meta }

db-Refines : Refines list_queue dict_rows dict_cursors db one_note
unfolding idb_get_row get_row idb_get_cursor get_cursor lookup is_plain
db-Refines = record {
  queue = refl;
  last_key = refl;
  max_length = refl;
  rows = λ t i. refl;
  cursors = λ scope. refl;
  plain = λ t i x e.
      plain_of (str_eq (row_key (codes "notes") (codes "n1")) (row_key t i)) first_note none x refl
        (λ z h. cc) e;
}

-- Calls that coalesce, overflow, settle and read back.
abbrev store_calls : List StoreCall
store_calls =
    enqueueing (note_write (codes "n1") 3 (codes "k3"))
    ∷ enqueueing (note_write (codes "n2") 2 (codes "k2"))
    ∷ pending_writes
    ∷ settling note_ack
    ∷ setting_cursor (codes "all") (codes "c7") 9
    ∷ getting_cursor (codes "all")
    ∷ []

idb_answers-memory_answers_example :
    idb_answers list_queue dict_rows dict_cursors store_calls db
    ≡ memory_answers store_calls one_note
unfolding is_plain
idb_answers-memory_answers_example =
    idb_answers-memory_answers list_queue dict_rows dict_cursors store_calls db one_note
      (refl, (refl, (tt, (tt, (tt, (tt, tt)))))) db-Refines one_note-IsValid (omega arith)
