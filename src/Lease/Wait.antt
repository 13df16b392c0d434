-- ===== src/Lease/Wait.antt =====
-- The loop of `acquire` of sdk/src/lease.mjs cannot spin: it meets its deadline.
use zed_sync.Prelude.{ℕ, ◌+◌, ◌*◌, ◌≤◌, min, length, List, [], ◌∷◌, some, ◌≢◌, arith}
use zed_sync.Lease.{retry_floor_ms}
use zed_sync.Lease.Acquire.{
  Attempt, Ask, attempt_budget, still_waiting, next_round, acquire_loop, wait_for_lease,
  deadline_of, is_over,
}

-- A round takes the floor, or reaches the deadline.
next_round-le :
    (deadline now : ℕ) (a : Attempt)
    → min deadline (now + retry_floor_ms) ≤ next_round (some deadline) now a
unfolding next_round
next_round-le deadline now a = ground arith

acquire_loop_ends :
    (deadline started now : ℕ) (asks : List Ask)
    → deadline ≤ now + length asks * retry_floor_ms
    → acquire_loop (some deadline) started now asks ≢ still_waiting
unfolding acquire_loop is_over
acquire_loop_ends deadline started now [] h e = ground arith
acquire_loop_ends deadline started now (ask ∷ asks) h e =
    let a = ask (attempt_budget (some deadline) now) in
    let k = acquire_loop_ends deadline started (next_round (some deadline) now a) asks in
    ground (arith, k, next_round-le deadline now a)

-- With a wait limit, `acquire` ends: whatever the lock client answers and however fast, it has
-- returned or thrown once it was given as many answers as there are retry floors in the limit.
pub wait_for_lease_ends :
    (max_wait_ms started : ℕ) (asks : List Ask)
    → max_wait_ms ≤ length asks * retry_floor_ms
    → wait_for_lease (some max_wait_ms) started asks ≢ still_waiting
unfolding wait_for_lease deadline_of
wait_for_lease_ends max_wait_ms started asks h =
    acquire_loop_ends (started + max_wait_ms) started started asks (omega arith)
