-- ===== src/Examples/Stores.antt =====
-- The in-memory store at concrete inputs.
use zed_sync.Prelude.{ℕ, true, none, [], ◌∷◌, JsString, codes, ◌⊎◌, refl, arith}
use zed_sync.Json.{Value}
use zed_sync.Core.{upsert}
use zed_sync.Store.{Store, RowMeta, Write, row_key, with_seq, find_row}
use zed_sync.Store.Settle.{AckOptions}
use zed_sync.Store.Queue.{IsValid}
use zed_sync.Store.Ack.{Unmatched, Matched, settle_ack_cases}
use zed_sync.Examples.Clocks.{at}

abbrev pub note_write : JsString → ℕ → JsString → Write
note_write id n key = record {
  table = codes "notes";
  id = id;
  op = upsert;
  payload = Value.number n;
  base_version = at 100 n;
  key = key;
}

abbrev pub note_meta : RowMeta
note_meta = record { version = at 100 1; dirty = true; synced_at_ms = none }

-- A store with room for one queued write, which is taken.
abbrev pub one_note : Store
one_note = record {
  rows =
      (row_key (codes "notes") (codes "n1"), record { row = Value.number 1; meta = note_meta })
      ∷ [];
  queue = with_seq (note_write (codes "n1") 1 (codes "k1")) 1 ∷ [];
  seq = 1;
  max_queue_length = 1;
  cursors = [];
  detached = [];
}

pub one_note-IsValid : IsValid one_note
unfolding with_seq find_row
one_note-IsValid = record {
  below = omega arith;
  ascending = omega arith;
  one_slot = (refl, tt);
  bounded = omega arith;
}

abbrev pub note_ack : AckOptions
note_ack = record {
  table = codes "notes";
  id = codes "n1";
  seq = 1;
  write_key = codes "k1";
  base_version = at 100 1;
  committed_version = at 150 0;
  at = 151;
}

settle_ack_cases_example : Unmatched one_note note_ack ⊎ Matched one_note note_ack
settle_ack_cases_example = settle_ack_cases one_note note_ack one_note-IsValid.ascending
