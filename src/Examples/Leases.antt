-- ===== src/Examples/Leases.antt =====
-- Leases at concrete inputs.
use zed_sync.Prelude.{
  ◌⊎◌, max, ◌/◌, true, ℕ, str_eq, false, none, some, List, [], ◌∷◌, codes, ◌≡◌, ◌≢◌, refl, arith,
}
use zed_sync.Result.{Result, err, type_error}
use zed_sync.Lease.Scoped.{
  ScopeOptions, ran, with_sync_lease, with_lease, acquire_and_use, use_lease, LetsGo, made_of,
  late_renewed, with_sync_lease-LetsGo,
}
use zed_sync.Lease.{
  Lease, Handle, asks_again, authority_lost, new_lease, held, adopt_handle, schedule,
  stop_heartbeat, beat_renewed, owns, release,
}
use zed_sync.Lease.Acquire.{
  acquire_loop, deadline_of, is_over, attempt_budget, end_acquire, begin_acquire, adopt_waited,
  granted, Ask, lock_timeout, acquired, still_waiting, wait_for_lease,
}
use zed_sync.Lease.{
  gives_back, renew_acts, beat_failed, count_failure, gives_up, contains, starts_with, fold_case,
  mark_lost,
}
use zed_sync.Lease.Failures.{
  IsRefusal, IsFatal, forfeited, retrying, IsRefusal-authority_lost, failed_renewal_cases,
  released_in_callback_leaks,
}
use zed_sync.Lease.Wait.{wait_for_lease_ends}
use zed_sync.Lease.Beats.{
  LeaseEvent, asked, answered, released, renewed, renew_failed, lease_run, IsSound,
  lease_run-IsSound, lease_step,
}

abbrev grant : Handle
grant = record { ident = 1; fencing_token = 7; lease_expires_ms = some 90000 }

abbrev idle : Lease
idle = record {
  key = codes "zed-sync/flusher/db/phone";
  ttl_ms = 30000;
  renew_interval_ms = 10000;
  renew_failure_limit = 3;
  handle = none;
  timer = none;
  failures = 0;
  acquiring = false;
  lost_calls = 0;
  renew_errors = [];
}

abbrev holding : Lease
holding = record idle { handle = some grant; timer = some 10000 }

-- A renewal fails after the lease was given back and acquired again.
abbrev lease_events : List LeaseEvent
lease_events =
    asked
    ∷ answered (acquired grant)
    ∷ renew_failed grant (codes "socket closed") (asks_again ∷ []) 5000
    ∷ released
    ∷ renewed grant
    ∷ answered (acquired (record grant { ident = 2 }))
    ∷ renew_failed grant (codes "NOT_HOLDER") [] 6000
    ∷ []

authority_lost_test : authority_lost (codes "lease: Not_Found") ≡ true
unfolding authority_lost
authority_lost_test = refl

lease_run-IsSound_example : IsSound (lease_run lease_events idle)
lease_run-IsSound_example =
    lease_run-IsSound lease_events idle (tt, (tt, ((refl, tt), (tt, (tt, (tt, (tt, tt))))))) refl

-- The message of a lock client that names the reason in capitals.
failed_renewal_cases_example :
    (IsFatal (codes "lease NOT_HOLDER") 6000 grant holding
      × (beat_failed grant (codes "lease NOT_HOLDER") (asks_again ∷ []) 6000 holding
          ≡ forfeited holding))
    ⊎ (¬ (IsFatal (codes "lease NOT_HOLDER") 6000 grant holding)
        × (beat_failed grant (codes "lease NOT_HOLDER") (asks_again ∷ []) 6000 holding
            ≡ retrying holding))
failed_renewal_cases_example =
    failed_renewal_cases holding grant (codes "lease NOT_HOLDER") 6000 refl (asks_again ∷ [])
      (refl, tt)

failed_renewal_test :
    beat_failed grant (codes "lease NOT_HOLDER") [] 6000 holding ≡ forfeited holding
unfolding beat_failed renew_acts owns count_failure gives_up authority_lost contains starts_with
    fold_case mark_lost stop_heartbeat
failed_renewal_test = refl

-- A message that is no refusal.
timeout-unrefused : ¬ (IsRefusal (codes "timeout"))
unfolding authority_lost contains starts_with fold_case
timeout-unrefused r = let e = IsRefusal-authority_lost (codes "timeout") r in cc

released_in_callback_leaks_example :
    ((beat_failed grant (codes "timeout") (gives_back ∷ []) 6000 holding).handle ≡ none)
    × ((beat_failed grant (codes "timeout") (gives_back ∷ []) 6000 holding).timer
        ≡ some (max 250 (10000 / 2)))
released_in_callback_leaks_example =
    released_in_callback_leaks holding grant (codes "timeout") 6000 refl [] timeout-unrefused
      (omega arith)

-- The lock client times out at once, twice, within a limit of half a second.
abbrev fast : Ask
fast budget = record { answer = lock_timeout; takes = 0; oversleeps = 3 }

wait_for_lease_ends_example : wait_for_lease (some 500) 1000 (fast ∷ fast ∷ []) ≢ still_waiting
wait_for_lease_ends_example = wait_for_lease_ends 500 1000 (fast ∷ fast ∷ []) (omega arith)

-- The lock client grants the lease at once, and `fn` throws while the lease is held.
abbrev grants_at_once : Ask
grants_at_once budget = record { answer = granted grant; takes = 5; oversleeps = 0 }

abbrev scope_options : ScopeOptions
scope_options = record {
  key = codes "zed-sync/flusher/db/phone";
  ttl_ms = none;
  renew_interval_ms = none;
  renew_failure_limit = none;
  max_wait_ms = some 500;
}

abbrev throwing : Lease → Result ℕ × List LeaseEvent
throwing l = (err type_error, renewed grant ∷ [])

with_sync_lease_test :
    with_sync_lease scope_options 1000 (grants_at_once ∷ []) throwing
    ≡ ran (err type_error) (some grant) idle
unfolding with_sync_lease with_lease acquire_and_use use_lease wait_for_lease acquire_loop
    deadline_of is_over attempt_budget new_lease str_eq end_acquire begin_acquire held adopt_waited
    adopt_handle schedule stop_heartbeat lease_run lease_step beat_renewed owns release
with_sync_lease_test = refl

with_sync_lease-LetsGo_example :
    LetsGo
      (made_of scope_options)
      (wait_for_lease (some 500) 1000 (grants_at_once ∷ grants_at_once ∷ []))
      throwing
      (late_renewed grant ∷ [])
      (with_sync_lease scope_options 1000 (grants_at_once ∷ grants_at_once ∷ []) throwing)
with_sync_lease-LetsGo_example =
    with_sync_lease-LetsGo scope_options 500 1000 (grants_at_once ∷ grants_at_once ∷ []) throwing
      (late_renewed grant ∷ []) refl (omega arith)
