-- ===== src/Examples/Payloads.antt =====
-- A realtime payload at a concrete input.
use zed_sync.Prelude.{ℕ, Option, none, some, JsString, codes, str_eq, ◌≡◌, ◌↔◌, refl}
use zed_sync.Json.{Value, end, field, object, string, number, null, undefined, get, truthy}
use zed_sync.Core.{delete}
use zed_sync.Decode.{
  decoded, change_time, or_default, WireHlc, Decoded, member, to_hlc, is_nullish, record_of,
  decode_supabase_change,
}
use zed_sync.Decode.Changes.{Describes, decode_supabase_change_iff}

-- `String(...)` on strings, and dates that never parse.
abbrev show : Value → JsString
show (string s) = s
show value = codes "?"

abbrev no_date : Value → Option ℕ
no_date value = none

abbrev note_row : Value
note_row = object (
    field (codes "id") (string (codes "n1"))
      (field (codes "sync_version") (object (field (codes "wall_ms") (number 100) end)) end))

abbrev deleted_note : Value
deleted_note = object (
    field (codes "table") (string (codes "notes"))
      (field (codes "eventType") (string (codes "DELETE")) (field (codes "old") note_row end)))

abbrev wire_version : WireHlc
wire_version = record { wall_ms = 100; counter = number 0; actor = codes "srv" }

abbrev deletion : Decoded
deletion = record {
  table = string (codes "notes");
  op = delete;
  id = codes "n1";
  version = wire_version;
  row = null;
  at_ms = 5;
  write_key = undefined;
}

decode_supabase_change_iff_example :
    (decode_supabase_change show no_date deleted_note 5 ≡ some deletion)
    ↔ Describes show no_date 5 deleted_note deletion
decode_supabase_change_iff_example = decode_supabase_change_iff show no_date deleted_note 5 deletion

deletion_test : decode_supabase_change show no_date deleted_note 5 ≡ some deletion
unfolding decode_supabase_change decoded change_time or_default to_hlc member record_of get str_eq
    truthy is_nullish
deletion_test = refl

decoded_test :
    to_hlc show (member (codes "sync_version") (record_of deleted_note)) ≡ some wire_version
unfolding to_hlc member record_of get str_eq
decoded_test = refl
