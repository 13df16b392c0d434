-- ===== src/Store/Settle.antt =====
-- `settleAck` of the in-memory store of sdk/src/store.mjs.
use zed_sync.Prelude.{ℕ, Bool, true, false, not, if◌then◌else◌, Option, none, some, JsString}
use zed_sync.Hlc.{Hlc}
use zed_sync.Core.{QueuedWrite, settle_queued_ack}
use zed_sync.Store.{Store, StoredRow, RowMeta, get_row, put_row, find_seq, splice_seq, detach_seq}

pub record AckOptions : Type 0 where
  pub table : JsString
  pub id : JsString
  pub seq : ℕ
  pub write_key : JsString
  pub base_version : Hlc
  pub committed_version : Hlc
  pub at : ℕ

pub record AckOutcome : Type 0 where
  pub retired : Bool
  pub adopted : Bool

abbrev pub unsettled : AckOutcome
unsettled = record { retired = false; adopted = false }

-- The metadata that an adopted version is stored with.
abbrev pub adopted_meta : Hlc → ℕ → RowMeta
adopted_meta v at = record { version = v; dirty = false; synced_at_ms = some at }

unfoldable pub settle_adopt : Store → AckOptions → StoredRow → Option Hlc → Store × AckOutcome
settle_adopt s o current none = (s, record { retired = true; adopted = false })
settle_adopt s o current (some v) = (
  put_row s o.table o.id current.row (adopted_meta v o.at),
  record { retired = true; adopted = true },
)

-- `settleAck` on the queue entry and the row that it found.
unfoldable pub settle_found : Store → AckOptions → QueuedWrite → StoredRow → Store × AckOutcome
unfolding settle_adopt
settle_found s o queued current =
    let settlement =
      (settle_queued_ack (record { version = current.meta.version; dirty = current.meta.dirty })
        queued o.write_key o.base_version
        (record { id = o.id; committed_version = o.committed_version })) in
    if not settlement.retire_current_slot
    then (s, unsettled)
    else settle_adopt (record s { queue = splice_seq o.seq s.queue; detached = detach_seq o.seq s })
        o current settlement.adopt

unfoldable pub settle_ack : Store → AckOptions → Store × AckOutcome
unfolding settle_found
settle_ack s o = elim (find_seq o.seq s.queue) [
  | none ↦ (s, unsettled)
  | some queued ↦ elim (get_row s o.table o.id) [
    | none ↦ (s, unsettled)
    | some current ↦ settle_found s o queued current
  ]
]
