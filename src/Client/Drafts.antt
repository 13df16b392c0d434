-- ===== src/Client/Drafts.antt =====
-- `SyncClient` of sdk/src/client.mjs: what a write is before it is made (the head of `write`), its
-- request, and the transport. `send` is the environment's: called with a request it answers with the
-- committed version, if the response has one, or rejects, and the state that it gives back is that
-- after whatever else ran while the request was under way.
use zed_sync.Prelude.{Bool, false, Option, none, some, JsString}
use zed_sync.Result.{Result, ok, no_transport}
use zed_sync.Hlc.{Hlc, tick}
use zed_sync.Json.{Value, null}
use zed_sync.Policy.{WriteMode, ErrorPolicy, assert_write_mode, assert_error_policy}
use zed_sync.Core.{Op, upsert, delete}
use zed_sync.Client.{
  Exec, ◌>>=◌, ◌>>◌, pure, raise, lift, gets, emit, next_key, Context, write_start,
}

pub record Request : Type 0 where
  pub table : JsString
  pub op : Op
  pub id : JsString
  pub row : Value
  pub version : Hlc
  pub write_key : JsString

-- The answer is `ack?.committed_version`.
abbrev pub Send : Type 0
Send = Request → Exec (Option Hlc)

-- `#doSend`
unfoldable pub do_send : Option Send → Request → Exec (Option Hlc)
do_send none r = raise no_transport
do_send (some send) r = send r

-- `ack?.committed_version ?? version`
abbrev pub committed_or : Option Hlc → Hlc → Hlc
committed_or none version = version
committed_or (some v) version = v

pub record Options : Type 0 where
  pub op : Option Op
  pub merge : Bool
  pub mode : Option JsString
  pub error_policy : Option JsString

abbrev pub no_options : Options
no_options = record { op = none; merge = false; mode = none; error_policy = none }

pub data Status : Type 0 where
  acked failed on_device queued : Status

pub record WriteResult : Type 0 where
  pub status : Status
  pub version : Hlc

-- A write whose options are resolved and whose version and key are drawn.
pub record Draft : Type 0 where
  pub table : JsString
  pub id : JsString
  pub row : Value
  pub op : Op
  pub merge : Bool
  pub mode : WriteMode
  pub policy : ErrorPolicy
  pub version : Hlc
  pub key : JsString

abbrev pub context : Draft → Context
context d = record { table = d.table; id = d.id; op = some d.op; mode = some d.mode }

abbrev pub request : Draft → Value → Request
request d row = record {
  table = d.table;
  op = d.op;
  id = d.id;
  row = row;
  version = d.version;
  write_key = d.key;
}

-- `opts.op ?? (row === null ? "delete" : "upsert")`
unfoldable pub op_of : Option Op → Value → Op
op_of (some op) row = op
op_of none null = delete
op_of none _ = upsert

unfoldable pub mode_of : Option JsString → WriteMode → Result WriteMode
mode_of none default = ok default
mode_of (some s) default = assert_write_mode s

unfoldable pub policy_of : Option JsString → ErrorPolicy → Result ErrorPolicy
policy_of none default = ok default
policy_of (some s) default = assert_error_policy s

-- `clock.tick()`
unfoldable pub tick_clock : Exec Hlc
tick_clock c = let (clock, v) = tick c.clock c.now in (ok v, record c { clock = clock })

-- The head of `write`, up to the start event.
unfoldable pub draft : JsString → JsString → Value → Options → Exec Draft
unfolding op_of mode_of policy_of tick_clock next_key emit
draft table id row o = do
  default_mode ← gets (λ c. c.write_mode)
  default_policy ← gets (λ c. c.error_policy)
  mode ← lift (mode_of o.mode default_mode)
  policy ← lift (policy_of o.error_policy default_policy)
  version ← tick_clock
  key ← next_key
  let d : Draft = record {
    table = table;
    id = id;
    row = row;
    op = op_of o.op row;
    merge = o.merge;
    mode = mode;
    policy = policy;
    version = version;
    key = key;
  }
  emit (write_start (context d))
  pure d
