-- ===== src/Lease/Acquire.antt =====
-- `acquire` and `tryAcquire` of sdk/src/lease.mjs.
use zed_sync.Prelude.{
  ℕ, ◌+◌, ◌-◌, min, Bool, true, false, ltb, leb, if◌then◌else◌, Option, none, some, List, [], ◌∷◌,
}
use zed_sync.Result.{JsError}
use zed_sync.Lease.{Lease, Handle, attempt_wait_ms, retry_floor_ms, adopt_handle, held}

pub data Answer : Type 0 where
  granted : Handle → Answer
  -- A `LockTimeoutError`, with the signal not aborted.
  lock_timeout : Answer
  refused : JsError → Answer

-- One call of `client.lock`: what it answered, how long it took, and by how much the pause after a
-- timeout overslept.
pub record Attempt : Type 0 where
  pub answer : Answer
  pub takes : ℕ
  pub oversleeps : ℕ

pub data Waited : Type 0 where
  acquired : Handle → Waited
  -- `LeaseTimeoutError`, with the time that was waited.
  lease_timeout : ℕ → Waited
  threw : JsError → Waited
  still_waiting : Waited

-- The time that is left of a deadline, at least 0; no deadline leaves any time.
unfoldable pub is_over : Option ℕ → ℕ → Bool
is_over none now = false
is_over (some deadline) now = leb deadline now

-- `maxWaitTime` of an attempt.
unfoldable pub attempt_budget : Option ℕ → ℕ → ℕ
attempt_budget none now = min attempt_wait_ms attempt_wait_ms
attempt_budget (some deadline) now = min (deadline - now) attempt_wait_ms

-- The pause after an attempt that timed out suspiciously fast.
unfoldable pub pause_after : Option ℕ → ℕ → ℕ → ℕ
pause_after none now takes = if ltb takes retry_floor_ms then retry_floor_ms - takes else 0
pause_after (some deadline) now takes =
    if ltb takes retry_floor_ms then min (retry_floor_ms - takes) (deadline - now) else 0

-- The time at which the next round starts.
unfoldable pub next_round : Option ℕ → ℕ → Attempt → ℕ
unfolding pause_after
next_round deadline now a =
    let back = now + a.takes in
    let pause = pause_after deadline back a.takes in
    if ltb 0 pause then back + pause + a.oversleeps else back

-- The lock client's answer to a call with a `maxWaitTime`.
abbrev pub Ask : Type 0
Ask = ℕ → Attempt

-- The loop of `acquire`, which began at `started`, against the answers that the lock client gives
-- to one call after the other.
unfoldable pub acquire_loop : Option ℕ → ℕ → ℕ → List Ask → Waited
unfolding is_over next_round attempt_budget
acquire_loop deadline started now [] =
    if is_over deadline now then lease_timeout (now - started) else still_waiting
acquire_loop deadline started now (ask ∷ asks) =
    let a = ask (attempt_budget deadline now) in
    let rest = acquire_loop deadline started (next_round deadline now a) asks in
    if is_over deadline now
    then lease_timeout (now - started)
    else elim a.answer [ granted h ↦ acquired h | lock_timeout ↦ rest | refused e ↦ threw e ]

-- The deadline of a finite `maxWaitMs`.
unfoldable pub deadline_of : Option ℕ → ℕ → Option ℕ
deadline_of none started = none
deadline_of (some max_wait_ms) started = some (started + max_wait_ms)

unfoldable pub wait_for_lease : Option ℕ → ℕ → List Ask → Waited
unfolding acquire_loop deadline_of
wait_for_lease max_wait_ms started = acquire_loop (deadline_of max_wait_ms started) started started

-- What `acquire` and `tryAcquire` do before they ask the lock client.
pub data Entry : Type 0 where
  already_held in_progress may_ask : Entry

unfoldable pub begin_acquire : Lease → Entry × Lease
unfolding held
begin_acquire l =
    if held l
    then (already_held, l)
    else if l.acquiring
    then (in_progress, l)
    else (may_ask, record l { acquiring = true })

unfoldable pub adopt_waited : Waited → Lease → Lease
unfolding adopt_handle
adopt_waited (acquired h) l = adopt_handle h l
adopt_waited _ l = l

-- The end of `acquire`, its `finally` included.
unfoldable pub end_acquire : Waited → Lease → Lease
unfolding adopt_waited
end_acquire w l = record (adopt_waited w l) { acquiring = false }

-- The end of `tryAcquire`; a lease that is taken gives no handle.
unfoldable pub end_try : Option Handle → Lease → Bool × Lease
unfolding adopt_handle
end_try none l = (false, record l { acquiring = false })
end_try (some h) l = (true, record (adopt_handle h l) { acquiring = false })
