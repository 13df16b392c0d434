-- ===== src/Decode.antt =====
-- sdk/src/transports/decode.mjs: from payloads of the transports to changes. The payloads are what
-- JSON.parse gives, so no object in them is `foreign`. `String(...)` and `Date.parse(...)` are
-- parameters; the latter is none for NaN, and dates before 1970 are left out.
pub mod Changes
use zed_sync.Prelude.{
  ℕ, Bool, true, false, not, ◌&&◌, ◌||◌, ◌==◌, if◌then◌else◌, Option, none, some, JsString, codes,
  str_eq,
}
use zed_sync.Json.{
  Value, Items, Fields, undefined, null, boolean, number, string, array, object, foreign, nil, cons,
  get, truthy,
}
use zed_sync.Core.{Op, upsert, delete}

-- A stamp as it is decoded; the counter is not checked.
pub record WireHlc : Type 0 where
  pub wall_ms : ℕ
  pub counter : Value
  pub actor : JsString

-- `value ?? default`
unfoldable pub or_default : Value → Value → Value
or_default undefined default = default
or_default null default = default
or_default value default = value

-- `value.key` on what is not nullish.
unfoldable pub member : JsString → Value → Value
member k (object fs) = get k fs
member k value = undefined

-- `value == null`
unfoldable pub is_nullish : Value → Bool
is_nullish undefined = true
is_nullish null = true
is_nullish value = false

-- `value === s`
unfoldable pub is_string : Value → JsString → Bool
is_string (string t) s = str_eq t s
is_string value s = false

pub record Decoded : Type 0 where
  pub table : Value
  pub op : Op
  pub id : JsString
  pub version : WireHlc
  pub row : Value
  pub at_ms : ℕ
  pub write_key : Value

unfoldable pub is_delete : Value → Bool
unfolding is_string
is_delete payload = is_string (member (codes "eventType") payload) (codes "DELETE")

-- The row that the payload is about.
unfoldable pub record_of : Value → Value
unfolding is_delete
record_of payload =
    if is_delete payload then member (codes "old") payload else member (codes "new") payload

module _ (to_string : Value → JsString) where
  unfoldable pub hlc_at : Value → Value → Option WireHlc
  unfolding member or_default
  hlc_at value (number wall_ms) = some (record {
    wall_ms = wall_ms;
    counter = or_default (member (codes "counter") value) (number 0);
    actor = to_string (or_default (member (codes "actor") value) (string (codes "srv")));
  })
  hlc_at value wall_ms = none

  -- `toHlc(value)`
  unfoldable pub to_hlc : Value → Option WireHlc
  unfolding hlc_at
  to_hlc value = hlc_at value (member (codes "wall_ms") value)

  unfoldable pub is_usable : Value → Bool
  unfolding to_hlc
  is_usable change = elim (to_hlc (member (codes "version") change)) [
    | none ↦ false
    | some v ↦ true
  ]

  unfoldable pub usable_changes : Items → Items
  unfolding is_usable
  usable_changes nil = nil
  usable_changes (cons change changes) =
      let rest = usable_changes changes in if is_usable change then cons change rest else rest

  unfoldable pub changes_of : Value → Items
  unfolding usable_changes
  changes_of (array changes) = usable_changes changes
  changes_of value = nil

  unfoldable pub decode_backend_frame : Value → Items
  unfolding changes_of is_string
  decode_backend_frame frame =
      if is_string (member (codes "event") frame) (codes "zed:sync")
      then changes_of (member (codes "changes") frame)
      else nil

  module _ (parse_date : Value → Option ℕ) where
    -- `Date.parse(updated_at ?? "") || Date.now()`
    unfoldable pub change_time : Value → ℕ → ℕ
    unfolding or_default
    change_time updated_at now = elim (parse_date (or_default updated_at (string (codes "")))) [
      | none ↦ now
      | some at ↦ if at == 0 then now else at
    ]

    -- The change, once its version is known.
    unfoldable pub decoded : Value → ℕ → WireHlc → Decoded
    unfolding is_delete record_of change_time
    decoded payload now version = record {
      table = member (codes "table") payload;
      op = if is_delete payload then delete else upsert;
      id = to_string (member (codes "id") (record_of payload));
      version = version;
      row = if is_delete payload then null else record_of payload;
      at_ms = change_time (member (codes "updated_at") (record_of payload)) now;
      write_key = or_default (member (codes "write_key") (record_of payload)) undefined;
    }

    unfoldable pub decode_supabase_change : Value → ℕ → Option Decoded
    unfolding decoded is_nullish
    decode_supabase_change payload now =
        let version = to_hlc (member (codes "sync_version") (record_of payload)) in
        if not (truthy (member (codes "table") payload))
          || not (truthy (record_of payload))
          || is_nullish (member (codes "id") (record_of payload))
        then none
        else elim version [ none ↦ none | some v ↦ some (decoded payload now v) ]
