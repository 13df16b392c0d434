-- ===== src/Client/Views.antt =====
-- What two clients of sdk/src/client.mjs can tell of a stored row.
use zed_sync.Prelude.{ℕ, Bool, false, if◌then◌else◌, Option, none, some, ◌≡◌, arith}
use zed_sync.Json.{Value, null}
use zed_sync.Hlc.{Hlc, compare_hlc}
use zed_sync.Core.{upsert, delete, ChangeEvent}
use zed_sync.Store.{StoredRow}
use zed_sync.Client.Slots.{slot_after, adopted_row, adopts_over}

-- What a client can tell of a stored row: all but the local time of its last synchronisation.
pub record RowView : Type 0 where
  pub row : Value
  pub version : Hlc
  pub dirty : Bool

unfoldable pub view : Option StoredRow → Option RowView
view none = none
view (some r) = some (record { row = r.row; version = r.meta.version; dirty = r.meta.dirty })

-- The view of an adopted change.
unfoldable pub taken : ChangeEvent → RowView
taken e = record {
  row = elim e.op [ upsert ↦ e.row | delete ↦ null ];
  version = e.version;
  dirty = false;
}

unfoldable pub view_after : Option RowView → ChangeEvent → Option RowView
view_after none e = elim e.op [ upsert ↦ some (taken e) | delete ↦ none ]
view_after (some r) e =
    if adopts_over (compare_hlc e.version r.version) r.dirty then some (taken e) else some r

pub view-slot_after :
    (o : Option StoredRow) (e : ChangeEvent) (now : ℕ)
    → view (slot_after o e now) ≡ view_after (view o) e
unfolding view slot_after view_after adopted_row taken
view-slot_after none e now = ground arith
view-slot_after (some r) e now = ground arith
