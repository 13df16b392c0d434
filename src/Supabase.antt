-- ===== src/Supabase.antt =====
-- sdk/src/transports/supabase.mjs: the realtime subscription of a client. The Supabase client is a
-- third party's: its calls are parameters, which may throw and change what the host keeps.
pub mod Registers
use zed_sync.Prelude.{
  ℕ, Bool, true, false, not, if◌then◌else◌, Option, none, some, List, [], ◌∷◌, ◌++◌, JsString,
  codes, str_eq,
}
use zed_sync.Result.{Result, ok, err}
use zed_sync.Json.{Value}
use zed_sync.Decode.{Decoded, decode_supabase_change}

-- The filter of `postgres_changes`, for every kind of event.
pub record TableFilter : Type 0 where
  pub schema : JsString
  pub table : JsString
  pub row_filter : Option JsString

-- A channel is an object of the client's, told from others by a number.
pub record SupabaseLike {ℓ} (W : Type ℓ) : Type ℓ where
  pub make_channel : JsString → W → Result ℕ × W
  pub on_changes : ℕ → TableFilter → W → Result (Unit {0}) × W
  pub subscribe_channel : ℕ → W → Result (Unit {0}) × W
  pub remove_channel : ℕ → W → W

pub record SupabaseOptions : Type 0 where
  pub tables : List JsString
  pub schema : Option JsString
  pub filter : Option JsString

-- `tables.join("-")`
unfoldable pub join_tables : List JsString → JsString
join_tables [] = []
join_tables (t ∷ []) = t
join_tables (t ∷ ts) = t ++ 45 ∷ join_tables ts

unfoldable pub channel_name : SupabaseOptions → JsString
unfolding join_tables
channel_name o = codes "zed-sync-" ++ join_tables o.tables

abbrev pub schema_of : Option JsString → JsString
schema_of none = codes "public"
schema_of (some s) = s

-- `...(filter ? { filter } : {})`
unfoldable pub given_filter : Option JsString → Option JsString
given_filter none = none
given_filter (some f) = if str_eq f [] then none else some f

unfoldable pub filter_for : SupabaseOptions → JsString → TableFilter
unfolding given_filter
filter_for o table = record {
  schema = schema_of o.schema;
  table = table;
  row_filter = given_filter o.filter;
}

-- What follows on a call that did not throw.
abbrev pub after_call {ℓ κ} :
    {A : Type ℓ} {W : Type κ} → Result (Unit {0}) × W → (W → Result A × W) → Result A × W
after_call (ok u, w) f = f w
after_call (err e, w) f = (err e, w)

-- The loop over the tables, and what comes after it.
unfoldable pub on_tables {ℓ} :
    {W : Type ℓ} → SupabaseLike W → SupabaseOptions → ℕ → List JsString → W → Result ℕ × W
unfolding filter_for
on_tables client o channel [] w =
    after_call (client.subscribe_channel channel w) (λ w'. (ok channel, w'))
on_tables client o channel (t ∷ ts) w =
    after_call (client.on_changes channel (filter_for o t) w) (on_tables client o channel ts)

unfoldable pub on_channel {ℓ} :
    {W : Type ℓ} → SupabaseLike W → SupabaseOptions → Result ℕ × W → Result ℕ × W
unfolding on_tables
on_channel client o (ok channel, w) = on_tables client o channel o.tables w
on_channel client o (err e, w) = (err e, w)

-- `startSupabase`, with the channel that its `stop` removes.
unfoldable pub start_supabase {ℓ} :
    {W : Type ℓ} → SupabaseLike W → SupabaseOptions → W → Result ℕ × W
unfolding on_channel channel_name
start_supabase client o w = on_channel client o (client.make_channel (channel_name o) w)

-- `stop`
unfoldable pub stop_supabase {ℓ} : {W : Type ℓ} → SupabaseLike W → ℕ → W → W
stop_supabase client channel w = client.remove_channel channel w

abbrev pub prepend {ℓ} : {A : Type ℓ} → Option A → List A → List A
prepend none xs = xs
prepend (some x) xs = x ∷ xs

-- The changes that the handler of a table gives to `applyChange`, for payloads that arrive at the
-- times with them.
unfoldable pub handed_on : (Value → JsString) → (Value → Option ℕ) → List (Value × ℕ) → List Decoded
unfolding decode_supabase_change
handed_on to_string parse_date [] = []
handed_on to_string parse_date ((payload, now) ∷ ps) =
    prepend (decode_supabase_change to_string parse_date payload now)
      (handed_on to_string parse_date ps)
