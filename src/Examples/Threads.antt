-- ===== src/Examples/Threads.antt =====
-- Keys, encodings and interleaved calls at concrete inputs.
use zed_sync.Prelude.{
  ℕ, false, ◌||◌, ◌&&◌, ◌==◌, ltb, some, [], ◌∷◌, codes, str_eq, str_lt, ◌≡◌, ◌≢◌, ap, refl, arith,
}
use zed_sync.Result.{ok, Result}
use zed_sync.Json.{Value}
use zed_sync.Hlc.{compare_hlc, tick}
use zed_sync.Policy.{optimistic_queue, emit_only}
use zed_sync.Hlc.Encode.{encode_hlc}
use zed_sync.Hlc.Sorts.{encode_hlc-str_lt}
use zed_sync.Dict.{lookup}
use zed_sync.Core.{upsert, ChangeEvent}
use zed_sync.Store.{StoredRow, row_key, get_row}
use zed_sync.Store.Settle.{adopted_meta}
use zed_sync.Store.Rows.{no_nul}
use zed_sync.Client.{Client, key_of}
use zed_sync.Client.Incoming.{apply_all, allows}
use zed_sync.Client.Slots.{admits}
use zed_sync.Client.Drafts.{draft, Draft, no_options}
use zed_sync.Client.Views.{view, view_after, taken}
use zed_sync.Client.Keys.{read_key, read_key-key_of, drafts_have_different_keys}
use zed_sync.Client.Threads.{begins, resumes, run_turns}
use zed_sync.Client.Threads.Race.{in_turns, interleaved_changes_regress}
use zed_sync.Client.Threads.Lone.{first_turns, lone_change-view}
use zed_sync.Examples.Clocks.{at, change_to}
use zed_sync.Examples.Clients.{client}
use zed_sync.Examples.Stores.{one_note}

read_key-key_of_example :
    read_key (key_of (codes "my-phone") 1752140268753 37)
    ≡ some (codes "my-phone", 1752140268753, 37)
read_key-key_of_example = read_key-key_of (codes "my-phone") 1752140268753 37

-- Two writes in one millisecond.
abbrev draft_of : ℕ → ℕ → Draft
draft_of counter seq = record {
  table = codes "notes";
  id = codes "n1";
  row = Value.number 7;
  op = upsert;
  merge = false;
  mode = optimistic_queue;
  policy = emit_only;
  version = at 200 counter;
  key = key_of (codes "phone") 200 seq;
}

abbrev drafting : Client → Result Draft × Client
drafting c = draft (codes "notes") (codes "n1") (Value.number 7) no_options c

abbrev once : Client
once = (drafting client).1

drafted : (drafting client).0 ≡ ok (draft_of 0 1)
unfolding draft tick
drafted = refl

drafted_again : (drafting once).0 ≡ ok (draft_of 1 2)
unfolding draft tick
drafted_again = refl

drafts_have_different_keys_example : key_of (codes "phone") 200 1 ≢ key_of (codes "phone") 200 2
drafts_have_different_keys_example =
    drafts_have_different_keys (codes "notes") (codes "n1") (codes "notes") (codes "n1")
      (Value.number 7) (Value.number 7) no_options no_options client once once (drafting once).1
      (draft_of 0 1) (draft_of 1 2) (ap (λ x. (x, once)) drafted) (omega arith)
      (ap (λ x. (x, (drafting once).1)) drafted_again)

encode_hlc-str_lt_example :
    str_lt (encode_hlc (at 255 9)) (encode_hlc (at 256 0))
    ≡ (ltb 255 256 || (255 == 256 && ltb 9 0))
encode_hlc-str_lt_example =
    encode_hlc-str_lt (at 255 9) (at 256 0) (omega arith, omega arith) (omega arith, omega arith)

-- The row of the store, clean.
abbrev clean_note : StoredRow
clean_note = record { row = Value.number 1; meta = adopted_meta (at 100 1) 100 }

abbrev clean_client : Client
clean_client = record client {
  store = record one_note {
    rows = (row_key (codes "notes") (codes "n1"), clean_note) ∷ [];
    queue = [];
  };
}

interleaved_changes_regress_example :
    (view (
        get_row
          (run_turns in_turns
            (begins (change_to (at 102 0)) ∷ begins (change_to (at 101 0)) ∷ [])
            clean_client).1.store
          (codes "notes")
          (codes "n1"))
      ≡ some (taken (change_to (at 101 0))))
    × (view (
          get_row
            (apply_all (change_to (at 102 0) ∷ change_to (at 101 0) ∷ []) clean_client).1.store
            (codes "notes")
            (codes "n1"))
        ≡ some (taken (change_to (at 102 0))))
unfolding admits allows no_nul str_eq get_row lookup compare_hlc
interleaved_changes_regress_example =
    interleaved_changes_regress clean_client (change_to (at 102 0)) (change_to (at 101 0))
      clean_note (refl, refl) (refl, refl) refl refl refl refl refl refl

abbrev other_note : ChangeEvent
other_note = record (change_to (at 300 0)) { id = codes "n2" }

lone_change-view_example :
    view (
      get_row
        (run_turns
          (resumes 0 ∷ resumes 1 ∷ resumes 1 ∷ resumes 0 ∷ [])
          (begins (change_to (at 101 0)) ∷ begins other_note ∷ [])
          client).1.store
        (codes "notes")
        (codes "n1"))
    ≡ view_after (view (get_row one_note (codes "notes") (codes "n1"))) (change_to (at 101 0))
unfolding admits allows no_nul str_eq first_turns
lone_change-view_example =
    lone_change-view (change_to (at 101 0)) (resumes 0 ∷ resumes 1 ∷ resumes 1 ∷ resumes 0 ∷ [])
      (begins other_note ∷ []) client (refl, refl) (tt, (tt, (tt, (tt, tt)))) ((refl, refl), tt)
      (omega arith)
