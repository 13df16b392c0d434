-- ===== src/Examples/Lifecycles.antt =====
-- The lifecycle at concrete snapshots.
use zed_sync.Prelude.{true, some, none, [], ◌∷◌, ◌≡◌, refl, arith}
use zed_sync.Result.{ok}
use zed_sync.Json.{boolean}
use zed_sync.Lifecycle.{
  Snapshot, integer, stale, online, none_running, start_requested, stop_requested, start_succeeded,
  connectivity_changed, stop_succeeded, assert_app_lifecycle_invariant,
}
use zed_sync.Lifecycle.Dispatch.{dispatch}
use zed_sync.Lifecycle.Coherent.{IsCoherent, run, run-IsCoherent}
use zed_sync.Lifecycle.Tokens.{carries_start_succeeded, overtaken_stays_stale}

-- A session on the air under its third token.
abbrev pub on_air : Snapshot
on_air = record {
  phase = online;
  operation = none_running;
  generation = 3;
  active_token = some 3;
  desired_running = true;
  is_online = true;
  failure = none;
}

pub on_air-IsCoherent : IsCoherent on_air
unfolding assert_app_lifecycle_invariant
on_air-IsCoherent = refl

run-IsCoherent_example :
    (t : Snapshot) × (run on_air
        (stop_requested ∷ stop_succeeded (integer 4) ∷ start_requested ∷ [])
      ≡ ok t)
    × IsCoherent t
run-IsCoherent_example =
    run-IsCoherent on_air (stop_requested ∷ stop_succeeded (integer 4) ∷ start_requested ∷ [])
      on_air-IsCoherent

-- After a restart the completion of the first start is stale.
abbrev restarted : Snapshot
restarted = record on_air { generation = 5; active_token = some 5 }

restarted-run :
    run on_air (
      stop_requested
      ∷ stop_succeeded (integer 4)
      ∷ start_requested
      ∷ start_succeeded (integer 5)
      ∷ connectivity_changed (integer 5) (boolean true)
      ∷ [])
    ≡ ok restarted
unfolding run dispatch assert_app_lifecycle_invariant
restarted-run = refl

overtaken_stays_stale_example :
    dispatch restarted (start_succeeded (integer 2)) ≡ ok (restarted, stale)
overtaken_stays_stale_example =
    overtaken_stays_stale 2 on_air
      (stop_requested
        ∷ stop_succeeded (integer 4)
        ∷ start_requested
        ∷ start_succeeded (integer 5)
        ∷ connectivity_changed (integer 5) (boolean true)
        ∷ [])
      on_air-IsCoherent (ground arith) restarted-run carries_start_succeeded
