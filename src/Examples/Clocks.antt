-- ===== src/Examples/Clocks.antt =====
-- The clock, the policies and the pure decisions at concrete inputs.
use zed_sync.Prelude.{ℕ, ◌≤◌, ◌+◌, true, some, none, List, [], ◌∷◌, codes, ◌≡◌, refl, arith}
use zed_sync.Json.{Value}
use zed_sync.Hlc.{Hlc, Clock, tick, observe, max_drift_ms, increment}
use zed_sync.Hlc.Encode.{encode_hlc}
use zed_sync.Radix.{to_radix}
use zed_sync.Hlc.Monotone.{
  ClockCall, ticked, observed, stamps, after, IsIncreasing, stamps-IsIncreasing, after-wall-le,
}
use zed_sync.Core.{upsert, ChangeEvent, LocalRow, QueuedWrite, WriteAck}

abbrev pub at : ℕ → ℕ → Hlc
at wall_ms counter = record { wall_ms = wall_ms; counter = counter; actor = codes "phone" }

abbrev phone : Clock
phone = record { actor = codes "phone"; wall_ms = 100; counter = 2 }

-- A wall clock that jumps back, and a remote stamp six minutes ahead.
abbrev calls : List ClockCall
calls = ticked 90 ∷ observed (at 400000 0) 95 ∷ ticked 101 ∷ []

stamps_test : stamps phone calls ≡ at 100 3 ∷ at 100 4 ∷ at 101 0 ∷ []
unfolding stamps tick observe increment
stamps_test = refl

stamps-IsIncreasing_example : IsIncreasing (stamps phone calls)
stamps-IsIncreasing_example =
    stamps-IsIncreasing phone calls 2 (omega arith) (omega arith) (tt, (omega arith, (tt, tt)))

after-wall-le_example : (after phone calls).wall_ms ≤ 101 + max_drift_ms
after-wall-le_example = after-wall-le phone calls 101 (omega arith) (omega arith)

abbrev pub change_to : Hlc → ChangeEvent
change_to v = record {
  table = codes "notes";
  op = upsert;
  id = codes "n1";
  version = v;
  row = Value.number 7;
  at_ms = 0;
  write_key = some (codes "k1");
  sync_sequence = none;
}

abbrev queued_note : QueuedWrite
queued_note = record {
  table = codes "notes";
  id = codes "n1";
  op = upsert;
  payload = Value.number 7;
  base_version = at 100 2;
  key = codes "k1";
  seq = 1;
}

abbrev dirty_note : LocalRow
dirty_note = record { version = at 100 2; dirty = true }

abbrev note_ack : WriteAck
note_ack = record { id = codes "n1"; committed_version = at 150 0 }

-- The example of the source's comment.
encode_hlc_test : encode_hlc (at 1752140268753 3) ≡ codes "0197f3b2c4d1-0003"
unfolding encode_hlc to_radix
encode_hlc_test = refl
