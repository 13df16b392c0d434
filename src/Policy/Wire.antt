-- ===== src/Policy/Wire.antt =====
-- The wire values of sdk/src/policy.mjs name the enumerators one to one.
use zed_sync.Prelude.{JsString, str_eq, str_eq_iff, ◌≡◌, ◌↔◌, refl, arith}
use zed_sync.Result.{ok}
use zed_sync.Policy.{
  WriteMode, local_only, optimistic_queue, optimistic_await_ack, server_first, server_only,
  ErrorPolicy, throw_only, emit_only, throw_and_emit, silent, ConflictResolution, server_wins,
  last_write_wins, write_mode, error_policy, conflict_resolution, assert_write_mode,
  assert_error_policy, assert_conflict_resolution,
}

assert_own : (m : WriteMode) → assert_write_mode (write_mode m) ≡ ok m
unfolding assert_write_mode str_eq
assert_own local_only = refl
assert_own optimistic_queue = refl
assert_own optimistic_await_ack = refl
assert_own server_first = refl
assert_own server_only = refl

assert_only : (s : JsString) (m : WriteMode) → assert_write_mode s ≡ ok m → s ≡ write_mode m
unfolding assert_write_mode
assert_only s m h = ground (
  arith,
  str_eq_iff s (write_mode local_only),
  str_eq_iff s (write_mode optimistic_queue),
  str_eq_iff s (write_mode optimistic_await_ack),
  str_eq_iff s (write_mode server_first),
  str_eq_iff s (write_mode server_only),
)

-- `assertWriteMode` accepts a string as a mode exactly if it is that mode's wire value.
pub assert_write_mode_iff :
    (s : JsString) (m : WriteMode) → (assert_write_mode s ≡ ok m) ↔ (s ≡ write_mode m)
assert_write_mode_iff s m = (assert_only s m, λ e. rw e (assert_own m))

policy_own : (p : ErrorPolicy) → assert_error_policy (error_policy p) ≡ ok p
unfolding assert_error_policy str_eq
policy_own throw_only = refl
policy_own emit_only = refl
policy_own throw_and_emit = refl
policy_own silent = refl

policy_only : (s : JsString) (p : ErrorPolicy) → assert_error_policy s ≡ ok p → s ≡ error_policy p
unfolding assert_error_policy
policy_only s p h = ground (
  arith,
  str_eq_iff s (error_policy throw_only),
  str_eq_iff s (error_policy emit_only),
  str_eq_iff s (error_policy throw_and_emit),
  str_eq_iff s (error_policy silent),
)

-- The same for `assertErrorPolicy`.
pub assert_error_policy_iff :
    (s : JsString) (p : ErrorPolicy) → (assert_error_policy s ≡ ok p) ↔ (s ≡ error_policy p)
assert_error_policy_iff s p = (policy_only s p, λ e. rw e (policy_own p))

resolution_own :
    (c : ConflictResolution) → assert_conflict_resolution (conflict_resolution c) ≡ ok c
unfolding assert_conflict_resolution str_eq
resolution_own server_wins = refl
resolution_own last_write_wins = refl

resolution_only :
    (s : JsString) (c : ConflictResolution)
    → assert_conflict_resolution s ≡ ok c
    → s ≡ conflict_resolution c
unfolding assert_conflict_resolution
resolution_only s c h = ground (
  arith,
  str_eq_iff s (conflict_resolution server_wins),
  str_eq_iff s (conflict_resolution last_write_wins),
)

-- The same for `assertConflictResolution`.
pub assert_conflict_resolution_iff :
    (s : JsString) (c : ConflictResolution)
    → (assert_conflict_resolution s ≡ ok c) ↔ (s ≡ conflict_resolution c)
assert_conflict_resolution_iff s c = (resolution_only s c, λ e. rw e (resolution_own c))
