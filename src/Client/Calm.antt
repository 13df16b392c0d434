-- ===== src/Client/Calm.antt =====
-- The decision of `applyChange` of sdk/src/client.mjs leaves all but the store and the telemetry alone.
use zed_sync.Prelude.{Bool, true, false, if◌then◌else◌, Option, ◌≡◌, refl}
use zed_sync.Result.{ok}
use zed_sync.Core.{ChangeEvent, Reconcile, apply, ignore_stale, ignore_already_applied, conflict}
use zed_sync.Store.{StoredRow}
use zed_sync.Client.{
  Client, Exec, ◌>>◌, ChangeOutcome, applied, ignored, conflict_resolved, refreshed,
}
use zed_sync.Client.Incoming.{adopt, done, resolved, on_decision, is_clean, conflict_adopts}

-- What handling a change leaves alone, and that it never throws.
pub record Calm (c : Client) (m : Exec ChangeOutcome) : Type 0 where
  pub outcome : ChangeOutcome
  pub returns : (m c).0 ≡ ok outcome
  pub lifecycle : (m c).1.lifecycle ≡ c.lifecycle
  pub tables : (m c).1.tables ≡ c.tables
  pub now : (m c).1.now ≡ c.now
  pub clock : (m c).1.clock ≡ c.clock

resolved-Calm : (e : ChangeEvent) (adopts : Bool) (c : Client) → Calm c (resolved e adopts)
unfolding resolved
resolved-Calm e true c = record {
  outcome = conflict_resolved;
  returns = refl;
  lifecycle = refl;
  tables = refl;
  now = refl;
  clock = refl;
}
resolved-Calm e false c = record {
  outcome = ignored;
  returns = refl;
  lifecycle = refl;
  tables = refl;
  now = refl;
  clock = refl;
}

refresh-Calm :
    (e : ChangeEvent) (clean : Bool) (c : Client)
    → Calm c (if clean then (do adopt e; done e refreshed) else done e ignored)
unfolding adopt done
refresh-Calm e true c = record {
  outcome = refreshed;
  returns = refl;
  lifecycle = refl;
  tables = refl;
  now = refl;
  clock = refl;
}
refresh-Calm e false c = record {
  outcome = ignored;
  returns = refl;
  lifecycle = refl;
  tables = refl;
  now = refl;
  clock = refl;
}

pub on_decision-Calm :
    (e : ChangeEvent) (existing : Option StoredRow) (d : Reconcile) (c : Client)
    → Calm c (on_decision e existing d)
unfolding on_decision
on_decision-Calm e existing apply c = record {
  outcome = applied;
  returns = refl;
  lifecycle = refl;
  tables = refl;
  now = refl;
  clock = refl;
}
on_decision-Calm e existing conflict c =
    let r = resolved-Calm e (conflict_adopts c existing e) c in
    record {
      outcome = r.outcome;
      returns = r.returns;
      lifecycle = r.lifecycle;
      tables = r.tables;
      now = r.now;
      clock = r.clock;
    }
on_decision-Calm e existing ignore_already_applied c = refresh-Calm e (is_clean existing) c
on_decision-Calm e existing ignore_stale c = record {
  outcome = ignored;
  returns = refl;
  lifecycle = refl;
  tables = refl;
  now = refl;
  clock = refl;
}
