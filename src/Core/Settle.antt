-- ===== src/Core/Settle.antt =====
-- When an acknowledgement retires its queued write, in sdk/src/core.mjs.
use zed_sync.Prelude.{Ordering, true, ◌≡◌, ◌≢◌, ◌↔◌, some, arith, JsString, str_eq_iff}
use zed_sync.Hlc.{Hlc, compare_hlc}
use zed_sync.Hlc.Order.{compare_hlc-eq_iff}
use zed_sync.Core.{LocalRow, WriteAck, QueuedWrite, settle_queued_ack}

-- An ack retires its slot exactly if the slot still holds the same id and key, the local row is
-- still at the write's base version, and that version is not past the committed one.
pub settle_iff :
    (l : LocalRow) (q : QueuedWrite) (key : JsString) (base : Hlc) (ack : WriteAck)
    → ((settle_queued_ack l q key base ack).retire_current_slot ≡ true) ↔ (
        (q.id ≡ ack.id)
        × (q.key ≡ key)
        × (l.version ≡ base)
        × (compare_hlc base ack.committed_version ≢ Ordering.gt))
unfolding settle_queued_ack
settle_iff l q key base ack = (
  λ h.
      ground
        (arith, str_eq_iff q.id ack.id, str_eq_iff q.key key, compare_hlc-eq_iff l.version base),
  λ h.
      ground
        (arith, str_eq_iff q.id ack.id, str_eq_iff q.key key, compare_hlc-eq_iff l.version base),
)

-- What is adopted is the committed version, and it is adopted exactly when the slot is retired.
pub settle-adopt :
    (l : LocalRow) (q : QueuedWrite) (key : JsString) (base : Hlc) (ack : WriteAck) (v : Hlc)
    → ((settle_queued_ack l q key base ack).adopt ≡ some v) ↔ (
        ((settle_queued_ack l q key base ack).retire_current_slot ≡ true)
        × (v ≡ ack.committed_version))
unfolding settle_queued_ack
settle-adopt l q key base ack v = (λ h. ground arith, λ h. ground arith)
