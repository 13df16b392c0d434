-- ===== src/Lease.antt =====
-- sdk/src/lease.mjs: `SyncLease`, a single-flusher lease over an injected lock client. What the
-- lock client answers, and when, is the environment's: an await ends the one function here and
-- another goes on with the answer. A handle is an object of the lock client, told from others by
-- `ident`.
pub mod Acquire
pub mod Beats
pub mod Failures
pub mod Wait
pub mod Scoped
use zed_sync.Prelude.{
  ℕ, ◌+◌, ◌/◌, max, Bool, true, false, not, ◌&&◌, ◌||◌, ltb, leb, ◌==◌, if◌then◌else◌, Option, none,
  some, List, [], ◌∷◌, ◌++◌, JsString, codes, str_eq,
}
use zed_sync.Result.{Result, ok, err, range_error, type_error}

abbrev pub default_lease_ttl_ms : ℕ
default_lease_ttl_ms = 30000

abbrev pub attempt_wait_ms : ℕ
attempt_wait_ms = 30000

abbrev pub retry_floor_ms : ℕ
retry_floor_ms = 250

-- `flusherLeaseKey(dbName, actor)`
unfoldable pub flusher_lease_key : JsString → JsString → Result JsString
flusher_lease_key db_name actor =
    if str_eq db_name [] || str_eq actor []
    then err type_error
    else ok (codes "zed-sync/flusher/" ++ (db_name ++ 47 ∷ actor))

pub record Handle : Type 0 where
  pub ident : ℕ
  pub fencing_token : ℕ
  pub lease_expires_ms : Option ℕ

-- The fields of a `SyncLease`, and the calls of its callbacks so far.
pub record Lease : Type 0 where
  pub key : JsString
  pub ttl_ms : ℕ
  pub renew_interval_ms : ℕ
  pub renew_failure_limit : ℕ
  pub handle : Option Handle
  -- `_timer`, with the delay that it was set to.
  pub timer : Option ℕ
  pub failures : ℕ
  pub acquiring : Bool
  pub lost_calls : ℕ
  -- The counts that `onRenewError` was called with.
  pub renew_errors : List ℕ

abbrev pub or_else : Option ℕ → ℕ → ℕ
or_else none default = default
or_else (some n) default = n

-- The constructor, on a client that has both lock functions.
unfoldable pub new_lease : JsString → Option ℕ → Option ℕ → Option ℕ → Result Lease
new_lease key ttl interval limit =
    let ttl_ms = or_else ttl default_lease_ttl_ms in
    let renew_interval_ms = or_else interval (ttl_ms / 3) in
    if str_eq key []
    then err type_error
    else if not (ltb 0 ttl_ms) || not (ltb 0 renew_interval_ms) || leb ttl_ms renew_interval_ms
    then err range_error
    else ok (record {
      key = key;
      ttl_ms = ttl_ms;
      renew_interval_ms = renew_interval_ms;
      renew_failure_limit = or_else limit 3;
      handle = none;
      timer = none;
      failures = 0;
      acquiring = false;
      lost_calls = 0;
      renew_errors = [];
    })

-- `get held`
unfoldable pub held : Lease → Bool
held l = elim l.handle [ none ↦ false | some h ↦ true ]

-- `get fencingToken`
unfoldable pub fencing_token_of : Lease → Option ℕ
fencing_token_of l = elim l.handle [ none ↦ none | some h ↦ some h.fencing_token ]

unfoldable pub stop_heartbeat : Lease → Lease
stop_heartbeat l = record l { timer = none }

unfoldable pub schedule : ℕ → Lease → Lease
unfolding stop_heartbeat
schedule ms l = record (stop_heartbeat l) { timer = some ms }

-- `_adopt`
unfoldable pub adopt_handle : Handle → Lease → Lease
unfolding schedule
adopt_handle h l = schedule l.renew_interval_ms (record l { handle = some h; failures = 0 })

-- `release`, up to the call of `handle.release()`, whose failure is swallowed.
unfoldable pub release : Lease → Lease
unfolding stop_heartbeat
release l = stop_heartbeat (record l { handle = none })

unfoldable pub mark_lost : Lease → Lease
unfolding stop_heartbeat
mark_lost l = elim l.handle [
  | none ↦ l
  | some h ↦ record (stop_heartbeat (record l { handle = none })) { lost_calls = l.lost_calls + 1 }
]

-- `this._handle === handle`
unfoldable pub owns : Lease → Handle → Bool
owns l h = elim l.handle [ none ↦ false | some k ↦ k.ident == h.ident ]

-- The rest of `_beat` once `handle.renew` has resolved.
unfoldable pub beat_renewed : Handle → Lease → Lease
unfolding owns schedule
beat_renewed h l =
    if not (owns l h) then l else schedule l.renew_interval_ms (record l { failures = 0 })

-- Lower case of an ASCII letter.
unfoldable pub fold_case : ℕ → ℕ
fold_case c = if leb 65 c && leb c 90 then c + 32 else c

unfoldable pub starts_with : JsString → JsString → Bool
unfolding fold_case
starts_with [] s = true
starts_with (p ∷ ps) [] = false
starts_with (p ∷ ps) (c ∷ s) = p == fold_case c && starts_with ps s

unfoldable pub contains : JsString → JsString → Bool
unfolding starts_with
contains p [] = starts_with p []
contains p (c ∷ s) = starts_with p (c ∷ s) || contains p s

-- `AUTHORITY_LOST_RE.test(message)`
unfoldable pub authority_lost : JsString → Bool
unfolding contains
authority_lost message =
    contains (codes "lost fenced authority") message
    || contains (codes "not_holder") message
    || contains (codes "not_found") message

-- `leaseExpiresMs !== null && Date.now() >= leaseExpiresMs`
unfoldable pub is_expired : Lease → ℕ → Bool
is_expired l now = elim l.handle [
  | none ↦ false
  | some h ↦ elim h.lease_expires_ms [ none ↦ false | some at ↦ leb at now ]
]

-- The delay of the retry after a transient failure.
unfoldable pub retry_delay : Lease → ℕ
retry_delay l = max retry_floor_ms (l.renew_interval_ms / 2)

unfoldable pub count_failure : Lease → Lease
count_failure l = record l {
  failures = l.failures + 1;
  renew_errors = l.renew_errors ++ (l.failures + 1) ∷ [];
}

-- Whether a counted failure costs the lease.
unfoldable pub gives_up : JsString → ℕ → Lease → Bool
unfolding authority_lost is_expired
gives_up message now l =
    authority_lost message || is_expired l now || leb l.renew_failure_limit l.failures

-- A call that `onRenewError` makes of the lease, up to its first await: `release()`, or
-- `acquire()`, which starts to ask for a grant unless there is one.
pub data RenewAct : Type 0 where
  gives_back asks_again : RenewAct

unfoldable pub renew_act : RenewAct → Lease → Lease
unfolding release
renew_act gives_back l = release l
renew_act asks_again l = elim l.handle [ none ↦ record l { acquiring = true } | some h ↦ l ]

-- `onRenewError(err, failures)`, which makes these calls and does not throw.
unfoldable pub renew_acts : List RenewAct → Lease → Lease
unfolding renew_act
renew_acts [] l = l
renew_acts (a ∷ acts) l = renew_acts acts (renew_act a l)

-- The rest of `_beat` once `handle.renew` has rejected with the message, at the time `now`. What is
-- decided after the callback is not whether the grant is still there.
unfoldable pub beat_failed : Handle → JsString → List RenewAct → ℕ → Lease → Lease
unfolding owns count_failure renew_acts gives_up mark_lost schedule retry_delay
beat_failed h message acts now l =
    let l' = renew_acts acts (count_failure l) in
    if not (owns l h)
    then l
    else if gives_up message now l'
    then mark_lost l'
    else schedule (retry_delay l') l'
