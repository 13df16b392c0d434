-- ===== src/Core/Decide.antt =====
-- Which incoming changes sdk/src/core.mjs lets through.
use zed_sync.Prelude.{true, ◌≡◌, ◌↔◌, ◌⊎◌, Option, some, none, arith, JsString, str_eq_iff}
use zed_sync.Hlc.Order.{compare_hlc-flip}
use zed_sync.Hlc.Monotone.{IsNewer}
use zed_sync.Policy.{ConflictResolution, server_wins, last_write_wins}
use zed_sync.Core.{
  Op, op_eq, ChangeEvent, LocalRow, QueuedWrite, apply, conflict, reconcile, resolve_conflict,
  key_is, is_own_echo,
}

-- Whether the decision, with a conflict resolved, adopts the change.
abbrev pub Adopts : ConflictResolution → LocalRow → ChangeEvent → Type 0
Adopts c local e =
    (reconcile (some local) e ≡ apply)
    ⊎ ((reconcile (some local) e ≡ conflict) × (resolve_conflict c local e ≡ true))

-- Over a row that is held, a change is adopted exactly if it is strictly newer, whether the row is
-- dirty or clean and whichever conflict resolution is chosen.
pub Adopts-iff_IsNewer :
    (c : ConflictResolution) (local : LocalRow) (e : ChangeEvent)
    → Adopts c local e ↔ IsNewer local.version e.version
unfolding reconcile resolve_conflict
Adopts-iff_IsNewer server_wins local e = (
  λ h. ground (arith, compare_hlc-flip e.version local.version),
  λ h. ground (arith, compare_hlc-flip e.version local.version),
)
Adopts-iff_IsNewer last_write_wins local e = (
  λ h. ground (arith, compare_hlc-flip e.version local.version),
  λ h. ground (arith, compare_hlc-flip e.version local.version),
)

op_eq_iff : (a b : Op) → (op_eq a b ≡ true) ↔ (a ≡ b)
unfolding op_eq
op_eq_iff a b = (λ h. ground arith, λ h. ground arith)

key_is_iff : (k : Option JsString) (j : JsString) → (key_is k j ≡ true) ↔ (k ≡ some j)
unfolding key_is
key_is_iff none j = (λ h. cc, λ h. cc)
key_is_iff (some k) j = (λ h. ground (arith, str_eq_iff k j), λ h. ground (arith, str_eq_iff k j))

-- An incoming change is the echo of a queued write exactly if table, id, operation and key agree.
pub is_own_echo_iff :
    (q : QueuedWrite) (e : ChangeEvent)
    → (is_own_echo q e ≡ true)
      ↔ ((e.table ≡ q.table) × (e.id ≡ q.id) × (e.op ≡ q.op) × (e.write_key ≡ some q.key))
unfolding is_own_echo
is_own_echo_iff q e = (
  λ h. ground (
    arith,
    str_eq_iff e.table q.table,
    str_eq_iff e.id q.id,
    op_eq_iff e.op q.op,
    key_is_iff e.write_key q.key,
  ),
  λ h. ground (
    arith,
    str_eq_iff e.table q.table,
    str_eq_iff e.id q.id,
    op_eq_iff e.op q.op,
    key_is_iff e.write_key q.key,
  ),
)
