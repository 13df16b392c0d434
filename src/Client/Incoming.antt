-- ===== src/Client/Incoming.antt =====
-- `SyncClient` of sdk/src/client.mjs, incoming side: `applyChange`, `hydrate` and `isEcho`.
use zed_sync.Prelude.{
  ℕ, Bool, true, false, not, ◌||◌, if◌then◌else◌, length, Option, none, some, List, [], ◌∷◌,
  JsString, codes, str_eq,
}
use zed_sync.Result.{ok}
use zed_sync.Hlc.{Hlc, observe}
use zed_sync.Core.{
  Op, upsert, delete, ChangeEvent, LocalRow, QueuedWrite, Reconcile, apply, ignore_stale,
  ignore_already_applied, conflict, reconcile, resolve_conflict, is_own_echo,
}
use zed_sync.Store.{Store, StoredRow, get_row, put_row, remove_row, pending, retire, same_row}
use zed_sync.Store.Settle.{adopted_meta}
use zed_sync.Client.{
  Client, Exec, ◌>>=◌, ◌>>◌, pure, gets, emit, modify_store, require_capability,
  may_receive_changes, ChangeOutcome, applied, ignored, conflict_resolved, refreshed, change,
  change_rejected, hydrate_start,
}

-- `this.tables.has(table)`
unfoldable pub includes : JsString → List JsString → Bool
includes t [] = false
includes t (x ∷ xs) = str_eq x t || includes t xs

-- Whether the allowlist lets the table through.
unfoldable pub allows : Option (List JsString) → JsString → Bool
unfolding includes
allows none table = true
allows (some tables) table = includes table tables

-- `#adopt` on the store.
unfoldable pub adopt_as : Op → ChangeEvent → ℕ → Store → Store
adopt_as delete e now s = remove_row s e.table e.id (adopted_meta e.version now)
adopt_as upsert e now s = put_row s e.table e.id e.row (adopted_meta e.version now)

unfoldable pub adopt_change : ChangeEvent → ℕ → Store → Store
unfolding adopt_as
adopt_change e now s = adopt_as e.op e now s

unfoldable pub adopt : ChangeEvent → Exec (Unit {0})
unfolding modify_store adopt_change
adopt e c = modify_store (adopt_change e c.now) c

-- The loop of `#dropQueuedFor` over the entries that `pending` gave.
unfoldable pub retire_all : JsString → JsString → List QueuedWrite → Store → Store
retire_all table id [] s = s
retire_all table id (w ∷ ws) s =
    retire_all table id ws (if same_row table id w then retire s w.seq else s)

unfoldable pub drop_queued_for : JsString → JsString → Exec (Unit {0})
unfolding modify_store retire_all pending
drop_queued_for table id = modify_store (λ s. retire_all table id (pending s) s)

-- `clock.observe(version)`
unfoldable pub observe_version : Hlc → Exec (Unit {0})
observe_version v c = (ok tt, record c { clock = (observe c.clock v c.now).0 })

unfoldable pub done : ChangeEvent → ChangeOutcome → Exec ChangeOutcome
unfolding emit
done e outcome = do emit (change e.table e.id outcome); pure outcome

abbrev pub local_of : Option StoredRow → Option LocalRow
local_of none = none
local_of (some r) = some (record { version = r.meta.version; dirty = r.meta.dirty })

-- The row is held and clean.
abbrev pub is_clean : Option StoredRow → Bool
is_clean none = false
is_clean (some r) = not r.meta.dirty

-- Whether the conflict adopts the change; `reconcile` finds conflicts only with a row that is held.
unfoldable pub conflict_adopts : Client → Option StoredRow → ChangeEvent → Bool
unfolding resolve_conflict
conflict_adopts c none e = false
conflict_adopts c (some r) e =
    resolve_conflict c.conflict_resolution
      (record { version = r.meta.version; dirty = r.meta.dirty }) e

-- The two ends of a conflict.
unfoldable pub resolved : ChangeEvent → Bool → Exec ChangeOutcome
unfolding adopt drop_queued_for done
resolved e true = do adopt e; drop_queued_for e.table e.id; done e conflict_resolved
resolved e false = done e ignored

-- What follows on the decision of `reconcile`.
unfoldable pub on_decision : ChangeEvent → Option StoredRow → Reconcile → Exec ChangeOutcome
unfolding adopt done resolved
on_decision e existing apply = do adopt e; done e applied
on_decision e existing conflict = do
  adopts ← gets (λ c. conflict_adopts c existing e)
  resolved e adopts
on_decision e existing ignore_already_applied =
    if is_clean existing then (do adopt e; done e refreshed) else done e ignored
on_decision e existing ignore_stale = done e ignored

-- `applyChange` behind its two guards.
unfoldable pub receive : ChangeEvent → Exec ChangeOutcome
unfolding observe_version on_decision
receive e = do
  observe_version e.version
  existing ← gets (λ c. get_row c.store e.table e.id)
  on_decision e existing (reconcile (local_of existing) e)

unfoldable pub apply_change : ChangeEvent → Exec ChangeOutcome
unfolding require_capability receive
apply_change e = do
  require_capability may_receive_changes (codes "receive changes")
  allowed ← gets (λ c. allows c.tables e.table)
  (if not allowed then (do emit (change_rejected e.table e.id); pure ignored) else receive e)

-- The loop of `hydrate`.
unfoldable pub apply_all : List ChangeEvent → Exec (Unit {0})
unfolding apply_change
apply_all [] = pure tt
apply_all (e ∷ es) = do apply_change e; apply_all es

unfoldable pub hydrate : List ChangeEvent → Exec (Unit {0})
unfolding apply_all emit
hydrate changes = do emit (hydrate_start (length changes)); apply_all changes

unfoldable pub any_echo : ChangeEvent → List QueuedWrite → Bool
unfolding is_own_echo
any_echo e [] = false
any_echo e (w ∷ ws) = is_own_echo w e || any_echo e ws

unfoldable pub is_echo : ChangeEvent → Exec Bool
unfolding any_echo pending
is_echo e = gets (λ c. any_echo e (pending c.store))
