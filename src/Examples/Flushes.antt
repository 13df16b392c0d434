-- ===== src/Examples/Flushes.antt =====
-- A flush at a concrete client with two queued writes.
use zed_sync.Prelude.{◌+◌, some, none, [], ◌∷◌, All, codes, str_eq, ◌≡◌, refl, arith}
use zed_sync.Result.{ok}
use zed_sync.Json.{Value}
use zed_sync.Hlc.{Hlc, compare_hlc}
use zed_sync.Dict.{lookup}
use zed_sync.Policy.{throw_only}
use zed_sync.Core.{QueuedWrite}
use zed_sync.Store.{Store, StoredRow, row_key, with_seq, find_row, same_row, get_row}
use zed_sync.Store.Rows.{no_nul}
use zed_sync.Store.Queue.{IsValid}
use zed_sync.Client.{Client, require_capability}
use zed_sync.Client.Drafts.{Request, Send, policy_of}
use zed_sync.Client.Flush.{flush_queue}
use zed_sync.Client.Accepted.{Accepts, IsInStep, IsCommitted}
use zed_sync.Client.Drains.{flush_drains}
use zed_sync.Examples.Clocks.{at}
use zed_sync.Examples.Stores.{note_write, note_meta}
use zed_sync.Examples.Clients.{client}

abbrev queued_note : QueuedWrite
queued_note = with_seq (note_write (codes "n1") 1 (codes "k1")) 1

abbrev other_note : QueuedWrite
other_note = with_seq (note_write (codes "n2") 2 (codes "k2")) 2

abbrev note_row : StoredRow
note_row = record { row = Value.number 1; meta = note_meta }

abbrev other_row : StoredRow
other_row = record { row = Value.number 2; meta = record note_meta { version = at 100 2 } }

abbrev two_notes : Store
two_notes = record {
  rows =
      (row_key (codes "notes") (codes "n1"), note_row)
      ∷ (row_key (codes "notes") (codes "n2"), other_row)
      ∷ [];
  queue = queued_note ∷ other_note ∷ [];
  seq = 2;
  max_queue_length = 2;
  cursors = [];
  detached = [];
}

abbrev busy_client : Client
busy_client = record client { store = two_notes }

two_notes-IsValid : IsValid two_notes
unfolding with_seq find_row same_row str_eq
two_notes-IsValid = record {
  below = (omega arith, (omega arith, tt));
  ascending = ((omega arith, tt), (tt, tt));
  one_slot = (refl, (refl, tt));
  bounded = omega arith;
}

-- A server that commits everything at one version, each time after ten milliseconds.
abbrev commits : Request → Hlc
commits r = at 250 0

abbrev slow_server : Send
slow_server r c = (ok (some (commits r)), record c { now = c.now + 10 })

slow_server-Accepts : Accepts commits slow_server
slow_server-Accepts = record { takes = λ r. 10; accepts = λ r c. refl }

note-IsInStep : IsInStep commits two_notes queued_note
unfolding no_nul compare_hlc with_seq get_row lookup str_eq
note-IsInStep = record {
  nul_free = refl;
  held_row = note_row;
  is_held = refl;
  at_base = refl;
  not_older = λ e. cc;
}

other-IsInStep : IsInStep commits two_notes other_note
unfolding no_nul compare_hlc with_seq get_row lookup str_eq
other-IsInStep = record {
  nul_free = refl;
  held_row = other_row;
  is_held = refl;
  at_base = refl;
  not_older = λ e. cc;
}

flush_drains_example :
    ((flush_queue (some slow_server) none busy_client).0 ≡ ok 2)
    × ((flush_queue (some slow_server) none busy_client).1.store.queue ≡ [])
    × All
        (IsCommitted commits two_notes (flush_queue (some slow_server) none busy_client).1.store)
        (queued_note ∷ other_note ∷ [])
unfolding require_capability policy_of
flush_drains_example =
    flush_drains commits slow_server none throw_only busy_client slow_server-Accepts refl refl
      two_notes-IsValid (note-IsInStep, (other-IsInStep, tt))
