-- ===== src/Examples/Clients.antt =====
-- Incoming changes at concrete clients.
use mathlib.Core.List.{Permᴰ}
use zed_sync.Prelude.{false, some, none, [], ◌∷◌, codes, str_eq, ◌≡◌, refl, inl}
use zed_sync.Json.{Value, null}
use zed_sync.Hlc.{Hlc, compare_hlc}
use zed_sync.Dict.{lookup}
use zed_sync.Policy.{optimistic_queue, emit_only, last_write_wins, server_wins}
use zed_sync.Core.{upsert, delete, ChangeEvent}
use zed_sync.Store.{get_row}
use zed_sync.Store.Rows.{no_nul}
use zed_sync.Client.{Client}
use zed_sync.Client.Incoming.{receive, apply_all, allows}
use zed_sync.Client.Slots.{slot_after, admits, receive-rows}
use zed_sync.Client.Converge.{Guarded, replicas_converge, late_upsert_revives}
use zed_sync.Client.Views.{view}
use zed_sync.Examples.Clocks.{at, change_to}
use zed_sync.Examples.Stores.{one_note}

abbrev pub client : Client
client = record {
  store = one_note;
  actor = codes "phone";
  write_mode = optimistic_queue;
  error_policy = emit_only;
  conflict_resolution = server_wins;
  tables = some (codes "notes" ∷ []);
  lifecycle = none;
  clock = record { actor = codes "phone"; wall_ms = 100; counter = 1 };
  key_seq = 1;
  now = 200;
  telemetry = [];
  errors = [];
}

abbrev other : Client
other = record client { conflict_resolution = last_write_wins; now = 900 }

admitted : (v : Hlc) → Guarded client (change_to v)
unfolding admits allows no_nul str_eq
admitted v = (refl, refl)

admitted_other : (v : Hlc) → Guarded other (change_to v)
unfolding admits allows no_nul str_eq
admitted_other v = (refl, refl)

receive-rows_example :
    get_row (receive (change_to (at 101 0)) client).1.store (codes "notes") (codes "n1")
    ≡ slot_after (get_row one_note (codes "notes") (codes "n1")) (change_to (at 101 0)) 200
unfolding no_nul str_eq
receive-rows_example =
    receive-rows (change_to (at 101 0)) (codes "notes") (codes "n1") refl refl client

held : ¬ (view (get_row one_note (codes "notes") (codes "n1")) ≡ none)
unfolding view get_row lookup str_eq
held e = cc

-- One replica receives two changes in order and resolves conflicts by "server wins"; the other
-- receives them the other way round, later, and resolves by "last write wins".
replicas_converge_example :
    view (
      get_row
        (apply_all (change_to (at 101 0) ∷ change_to (at 102 0) ∷ []) client).1.store
        (codes "notes")
        (codes "n1"))
    ≡ view (
        get_row
          (apply_all (change_to (at 102 0) ∷ change_to (at 101 0) ∷ []) other).1.store
          (codes "notes")
          (codes "n1"))
unfolding no_nul
replicas_converge_example =
    replicas_converge (λ t i v. (upsert, Value.number 7)) (codes "notes") (codes "n1") client other
      (Permᴰ.swap {a = change_to (at 101 0)} {b = change_to (at 102 0)} refl refl) refl
      (admitted (at 101 0), (admitted (at 102 0), tt))
      (admitted_other (at 102 0), (admitted_other (at 101 0), tt)) (refl, (refl, tt))
      (inl held, (inl held, tt)) refl

abbrev other_note : Hlc → ChangeEvent
other_note v = record (change_to v) { id = codes "n2" }

abbrev removal : ChangeEvent
removal = record (other_note (at 102 0)) { op = delete; row = null }

late_upsert_revives_example :
    (view (
        get_row
          (apply_all (other_note (at 101 0) ∷ removal ∷ []) client).1.store
          (codes "notes")
          (codes "n2"))
      ≡ some (record { row = null; version = at 102 0; dirty = false }))
    × (view (
          get_row
            (apply_all (removal ∷ other_note (at 101 0) ∷ []) client).1.store
            (codes "notes")
            (codes "n2"))
        ≡ some (record { row = Value.number 7; version = at 101 0; dirty = false }))
unfolding compare_hlc get_row lookup str_eq admits allows no_nul
late_upsert_revives_example =
    late_upsert_revives client (other_note (at 101 0)) removal (refl, refl) (refl, refl) refl refl
      refl refl refl refl
