-- ===== src/Client/Slots.antt =====
-- What `applyChange` of sdk/src/client.mjs does to the stored rows, one row at a time.
use zed_sync.Prelude.{
  ℕ, Ordering, Bool, true, false, not, ◌&&◌, if◌then◌else◌, Option, none, some, List, [], ◌∷◌,
  JsString, str_eq, str_eq_iff, ◌≡◌, refl, arith,
}
use zed_sync.Result.{ok}
use zed_sync.Json.{null}
use zed_sync.Hlc.{compare_hlc, observe}
use zed_sync.Core.{
  upsert, delete, ChangeEvent, QueuedWrite, Reconcile, apply, ignore_stale, ignore_already_applied,
  conflict, reconcile, resolve_conflict,
}
use zed_sync.Lifecycle.Capabilities.{app_capabilities}
use zed_sync.Store.{Store, StoredRow, same_row, get_row, retire}
use zed_sync.Store.Settle.{adopted_meta}
use zed_sync.Store.Rows.{no_nul, get_row-put_row, get_row-remove_row}
use zed_sync.Client.{Client, ChangeOutcome}
use zed_sync.Client.Incoming.{
  allows, adopt_change, retire_all, receive, resolved, on_decision, local_of, is_clean,
  conflict_adopts, apply_change,
}
use zed_sync.Client.Calm.{on_decision-Calm}

-- The row that an adopted change stores.
unfoldable pub adopted_row : ChangeEvent → ℕ → StoredRow
adopted_row e now = record {
  row = elim e.op [ upsert ↦ e.row | delete ↦ null ];
  meta = adopted_meta e.version now;
}

unfoldable pub adopts_over : Ordering → Bool → Bool
adopts_over Ordering.gt dirty = true
adopts_over Ordering.eq dirty = not dirty
adopts_over Ordering.lt dirty = false

-- One row under one change: it takes the change if the row is not held and the change is an upsert,
-- if the change is newer, or if the versions are equal and the row is clean.
unfoldable pub slot_after : Option StoredRow → ChangeEvent → ℕ → Option StoredRow
slot_after none e now = elim e.op [ upsert ↦ some (adopted_row e now) | delete ↦ none ]
slot_after (some r) e now =
    if adopts_over (compare_hlc e.version r.meta.version) r.meta.dirty
    then some (adopted_row e now)
    else some r

module _ (s : Store) (e : ChangeEvent) (now : ℕ) (u j : JsString) (ht : no_nul e.table ≡ true)
    (hu : no_nul u ≡ true) where
  pub get_row-adopt :
      get_row (adopt_change e now s) u j
      ≡ (if str_eq e.table u && str_eq e.id j then some (adopted_row e now) else get_row s u j)
  unfolding adopt_change adopted_row
  get_row-adopt = ground (
    arith,
    get_row-put_row s e.table e.id u j (adopted_meta e.version now) ht hu e.row,
    get_row-remove_row s e.table e.id u j (adopted_meta e.version now) ht hu,
  )

pub get_row-retire_all :
    (t i u j : JsString) (ws : List QueuedWrite) (s : Store)
    → get_row (retire_all t i ws s) u j ≡ get_row s u j
unfolding retire_all retire get_row
get_row-retire_all t i u j [] s = refl
get_row-retire_all t i u j (w ∷ ws) s =
    ground (arith, get_row-retire_all t i u j ws (if same_row t i w then retire s w.seq else s))

-- The rows after the decision on `e`, if `taken` says that it is adopted.
abbrev pub Took : ChangeEvent → Bool → Store → Store → ℕ → JsString → JsString → Type 0
Took e taken s s' now u j = get_row s' u j ≡ (
    if taken && (str_eq e.table u && str_eq e.id j)
    then some (adopted_row e now)
    else get_row s u j)

-- Whether the decision adopts the change.
unfoldable pub takes : Client → Option StoredRow → ChangeEvent → Reconcile → Bool
takes c existing e apply = true
takes c existing e conflict = conflict_adopts c existing e
takes c existing e ignore_already_applied = is_clean existing
takes c existing e ignore_stale = false

pub takes-slot :
    (e : ChangeEvent) (c : Client) (existing : Option StoredRow)
    → (if takes c existing e (reconcile (local_of existing) e)
        then some (adopted_row e c.now)
        else existing)
      ≡ slot_after existing e c.now
unfolding takes slot_after reconcile adopts_over conflict_adopts resolve_conflict
takes-slot e c none = ground arith
takes-slot e c (some r) = ground (arith)

module _ (e : ChangeEvent) (u j : JsString) (ht : no_nul e.table ≡ true)
    (hu : no_nul u ≡ true) where
  resolved-rows :
      (adopts : Bool) (c : Client) → Took e adopts c.store (resolved e adopts c).1.store c.now u j
  unfolding resolved
  resolved-rows true c = ground (
    arith,
    get_row-adopt c.store e c.now u j ht hu,
    get_row-retire_all e.table e.id u j (adopt_change e c.now c.store).queue
        (adopt_change e c.now c.store),
  )
  resolved-rows false c = ground arith

  on_decision-rows :
      (existing : Option StoredRow) (d : Reconcile) (c : Client)
      → Took e (takes c existing e d) c.store (on_decision e existing d c).1.store c.now u j
  unfolding on_decision takes
  on_decision-rows existing apply c = ground (arith, get_row-adopt c.store e c.now u j ht hu)
  on_decision-rows existing conflict c = resolved-rows (conflict_adopts c existing e) c
  on_decision-rows existing ignore_already_applied c =
      ground (arith, get_row-adopt c.store e c.now u j ht hu)
  on_decision-rows existing ignore_stale c = ground arith

  -- With no U+0000 in the table names, an incoming change that passes the guards changes its own
  -- row as `slot_after` says, under both conflict resolutions, and no other row.
  pub receive-rows :
      (c : Client)
      → get_row (receive e c).1.store u j ≡ (
          if str_eq e.table u && str_eq e.id j
          then slot_after (get_row c.store e.table e.id) e c.now
          else get_row c.store u j)
  unfolding receive
  receive-rows c =
      let existing = get_row c.store e.table e.id in
      let c' = record c { clock = (observe c.clock e.version c.now).0 } in
      ground (
        arith,
        on_decision-rows existing (reconcile (local_of existing) e) c',
        takes-slot e c' existing,
        str_eq_iff e.table u,
        str_eq_iff e.id j,
      )

-- Whether the guards of `applyChange` let a change through: the lifecycle's capability, if there is
-- a lifecycle, and the table allowlist, if there is one.
unfoldable pub admits : Client → ChangeEvent → Bool
admits c e =
    elim c.lifecycle [ none ↦ true | some s ↦ (app_capabilities s).can_receive_changes ]
    && allows c.tables e.table

pub apply_change-receive :
    (c : Client) (e : ChangeEvent) → admits c e ≡ true → apply_change e c ≡ receive e c
unfolding apply_change admits
apply_change-receive c e h = ground arith

-- A change that a guard stops, be it the lifecycle or the table allowlist, leaves the store and the
-- clock as they were.
pub apply_change_refused :
    (c : Client) (e : ChangeEvent)
    → admits c e ≡ false
    → ((apply_change e c).1.store ≡ c.store) × ((apply_change e c).1.clock ≡ c.clock)
unfolding apply_change admits
apply_change_refused c e h = ground arith

-- A change that the guards let through is answered without an exception, leaves the guards as they
-- are, and moves the clock as `observe` does, whatever is decided about the row.
pub receive_frame :
    (c : Client) (e : ChangeEvent)
    → (o : ChangeOutcome) × ((receive e c).0 ≡ ok o)
      × ((receive e c).1.lifecycle ≡ c.lifecycle)
      × ((receive e c).1.tables ≡ c.tables)
      × ((receive e c).1.clock ≡ (observe c.clock e.version c.now).0)
unfolding receive
receive_frame c e =
    let existing = get_row c.store e.table e.id in
    let c' = record c { clock = (observe c.clock e.version c.now).0 } in
    let r = on_decision-Calm e existing (reconcile (local_of existing) e) c' in
    (r.outcome, r.returns, r.lifecycle, r.tables, r.clock)

pub admits-receive : (c : Client) (e f : ChangeEvent) → admits (receive e c).1 f ≡ admits c f
unfolding admits
admits-receive c e f = let (o, r, l, t, k) = receive_frame c e in rw (l, t) refl
