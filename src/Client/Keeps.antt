-- ===== src/Client/Keeps.antt =====
-- Every method of `SyncClient` of sdk/src/client.mjs keeps the write queue well formed, whether it
-- returns or throws, if the environment does while a request is under way.
pub mod Incoming
pub mod Outgoing
use zed_sync.Prelude.{
  ℕ, ◌+◌, Bool, true, false, not, if◌then◌else◌, Option, none, some, List, [], ◌∷◌, JsString, ◌≡◌,
  refl, arith,
}
use zed_sync.Result.{JsError, Result, ok, err}
use zed_sync.Hlc.{Hlc}
use zed_sync.Json.{Value}
use zed_sync.Policy.{
  WriteMode, local_only, optimistic_queue, optimistic_await_ack, server_first, server_only,
  ErrorPolicy,
}
use zed_sync.Core.{
  Op, upsert, delete, ChangeEvent, QueuedWrite, Reconcile, apply, ignore_stale,
  ignore_already_applied, conflict, reconcile,
}
use zed_sync.Store.{
  Store, StoredRow, RowMeta, Write, retire, same_row, put_row, remove_row, enqueue,
}
use zed_sync.Store.Settle.{AckOptions, settle_ack}
use zed_sync.Store.Queue.{IsValid}
use zed_sync.Store.Enqueue.{enqueue-IsValid}
use zed_sync.Store.Removal.{retire-IsValid}
use zed_sync.Store.Ack.{settle_ack-IsValid, put_row-IsValid}
use zed_sync.Client.{
  Client, Exec, continue, ◌>>=◌, ◌>>◌, pure, raise, lift, gets, recover, catch, emit, report,
  surface, modify_store, next_key, require_capability, Capability, TelemetryEvent, Context,
  ChangeOutcome,
}
use zed_sync.Client.Incoming.{
  adopt, adopt_change, drop_queued_for, retire_all, adopt_as, observe_version, done, resolved,
  on_decision, receive, apply_change, apply_all,
}
use zed_sync.Client.Outgoing.{
  store_acked, write_server, put_local, put_as, store_acked_as, overflow, enqueue_write,
  settle_write, send_now, write_locally, write_optimistic, write_draft, write,
}
use zed_sync.Client.Drafts.{Send, Request, do_send, Options, WriteResult, Draft, draft, tick_clock}
use zed_sync.Client.Flush.{flush_one, flush_stopped, flush_loop, flush_queue}

pub record Keeps {A : Type 0} (m : Exec A) : Type 0 where
  pub at : (c : Client) → IsValid c.store → IsValid (m c).1.store

module _ {A B : Type 0} where
  Keeps-continue :
      (r : Result A) (f : A → Exec B) (c : Client)
      → ((a : A) → Keeps (f a))
      → IsValid c.store
      → IsValid (continue r f c).1.store
  Keeps-continue (ok a) f c k v = (k a).at c v
  Keeps-continue (err e) f c k v = v

  pub Keeps-bind :
      (m : Exec A) (f : A → Exec B) → Keeps m → ((a : A) → Keeps (f a)) → Keeps (m >>= f)
  Keeps-bind m f km kf = record { at = λ c v. Keeps-continue (m c).0 f (m c).1 kf (km.at c v) }

  pub Keeps-then : (m : Exec A) (n : Exec B) → Keeps m → Keeps n → Keeps (m >> n)
  Keeps-then m n km kn = Keeps-bind m (λ _. n) km (λ _. kn)

module _ {A : Type 0} where
  pub Keeps-pure : (a : A) → Keeps (pure a)
  Keeps-pure a = record { at = λ c v. v }

  pub Keeps-raise : (e : JsError) → Keeps (raise {A = A} e)
  Keeps-raise e = record { at = λ c v. v }

  pub Keeps-lift : (r : Result A) → Keeps (lift r)
  Keeps-lift r = record { at = λ c v. v }

  pub Keeps-gets : (f : Client → A) → Keeps (gets f)
  Keeps-gets f = record { at = λ c v. v }

  pub Keeps-if : (b : Bool) (m n : Exec A) → Keeps m → Keeps n → Keeps (if b then m else n)
  Keeps-if true m n km kn = km
  Keeps-if false m n km kn = kn

  Keeps-recover :
      (r : Result A) (h : JsError → Exec A) (c : Client)
      → ((e : JsError) → Keeps (h e))
      → IsValid c.store
      → IsValid (recover r h c).1.store
  Keeps-recover (ok a) h c k v = v
  Keeps-recover (err e) h c k v = (k e).at c v

  pub Keeps-catch :
      (m : Exec A) (h : JsError → Exec A)
      → Keeps m
      → ((e : JsError) → Keeps (h e))
      → Keeps (catch m h)
  Keeps-catch m h km kh = record { at = λ c v. Keeps-recover (m c).0 h (m c).1 kh (km.at c v) }

pub Keeps-emit : (e : TelemetryEvent) → Keeps (emit e)
unfolding emit
Keeps-emit e = record { at = λ c v. v }

pub Keeps-report : (e : JsError) (ctx : Context) → Keeps (report e ctx)
unfolding report
Keeps-report e ctx = record { at = λ c v. v }

pub Keeps-next_key : Keeps next_key
unfolding next_key
Keeps-next_key = record { at = λ c v. v }

pub Keeps-tick_clock : Keeps tick_clock
unfolding tick_clock
Keeps-tick_clock = record { at = λ c v. v }

pub Keeps-observe_version : (v : Hlc) → Keeps (observe_version v)
unfolding observe_version
Keeps-observe_version v = record { at = λ c k. k }

pub Keeps-modify :
    (f : Store → Store) → ((s : Store) → IsValid s → IsValid (f s)) → Keeps (modify_store f)
unfolding modify_store
Keeps-modify f k = record { at = λ c v. k c.store v }

pub ruleset keeps_rules = (
  Keeps-bind, Keeps-then, Keeps-pure, Keeps-raise, Keeps-lift, Keeps-gets, Keeps-if, Keeps-catch,
  Keeps-emit, Keeps-report, Keeps-next_key, Keeps-tick_clock, Keeps-observe_version,
)

pub Keeps-surface : (e : JsError) (ctx : Context) (p : ErrorPolicy) → Keeps (surface e ctx p)
unfolding surface
Keeps-surface e ctx p = search keeps_rules

pub Keeps-require : (k : Capability) (o : JsString) → Keeps (require_capability k o)
unfolding require_capability
Keeps-require k o = record { at = λ c v. ground arith }
