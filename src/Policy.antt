-- ===== src/Policy.antt =====
-- sdk/src/policy.mjs: the three enumerations, their wire values and the tests on them. `assert...`
-- returns the enumerator that the string names, or the RangeError.
use zed_sync.Prelude.{Bool, true, false, ◌||◌, if◌then◌else◌, JsString, codes, str_eq}
pub mod Wire
use zed_sync.Result.{Result, ok, err, range_error}

pub data WriteMode : Type 0 where
  local_only optimistic_queue optimistic_await_ack server_first server_only : WriteMode

pub data ErrorPolicy : Type 0 where
  throw_only emit_only throw_and_emit silent : ErrorPolicy

pub data ConflictResolution : Type 0 where
  server_wins last_write_wins : ConflictResolution

-- The values of the frozen objects.
unfoldable pub write_mode : WriteMode → JsString
write_mode local_only = codes "local_only"
write_mode optimistic_queue = codes "optimistic_queue"
write_mode optimistic_await_ack = codes "optimistic_await_ack"
write_mode server_first = codes "server_first"
write_mode server_only = codes "server_only"

unfoldable pub error_policy : ErrorPolicy → JsString
error_policy throw_only = codes "throw_only"
error_policy emit_only = codes "emit_only"
error_policy throw_and_emit = codes "throw_and_emit"
error_policy silent = codes "silent"

unfoldable pub conflict_resolution : ConflictResolution → JsString
conflict_resolution server_wins = codes "server_wins"
conflict_resolution last_write_wins = codes "last_write_wins"

unfoldable pub assert_write_mode : JsString → Result WriteMode
unfolding write_mode
assert_write_mode mode =
    if str_eq mode (write_mode local_only)
    then ok local_only
    else if str_eq mode (write_mode optimistic_queue)
    then ok optimistic_queue
    else if str_eq mode (write_mode optimistic_await_ack)
    then ok optimistic_await_ack
    else if str_eq mode (write_mode server_first)
    then ok server_first
    else if str_eq mode (write_mode server_only)
    then ok server_only
    else err range_error

unfoldable pub assert_error_policy : JsString → Result ErrorPolicy
unfolding error_policy
assert_error_policy policy =
    if str_eq policy (error_policy throw_only)
    then ok throw_only
    else if str_eq policy (error_policy emit_only)
    then ok emit_only
    else if str_eq policy (error_policy throw_and_emit)
    then ok throw_and_emit
    else if str_eq policy (error_policy silent)
    then ok silent
    else err range_error

unfoldable pub assert_conflict_resolution : JsString → Result ConflictResolution
unfolding conflict_resolution
assert_conflict_resolution resolution =
    if str_eq resolution (conflict_resolution server_wins)
    then ok server_wins
    else if str_eq resolution (conflict_resolution last_write_wins)
    then ok last_write_wins
    else err range_error

unfoldable pub should_throw : ErrorPolicy → Bool
should_throw throw_only = true
should_throw throw_and_emit = true
should_throw _ = false

unfoldable pub should_emit : ErrorPolicy → Bool
should_emit emit_only = true
should_emit throw_and_emit = true
should_emit _ = false
