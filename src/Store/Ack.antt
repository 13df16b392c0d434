-- ===== src/Store/Ack.antt =====
-- `settleAck` of sdk/src/store.mjs: when an acknowledgement settles, and what it then changes.
use zed_sync.Prelude.{
  Ordering, true, false, Bool-cases, Option-cases, some, JsString, ◌≡◌, ◌≢◌, ◌⊎◌, inl, inr, refl,
}
use zed_sync.Hlc.{compare_hlc}
use zed_sync.Json.{Value}
use zed_sync.Core.{QueuedWrite, LocalRow, WriteAck, Settlement, settle_queued_ack}
use zed_sync.Core.Settle.{settle_iff, settle-adopt}
use zed_sync.Store.{Store, StoredRow, RowMeta, find_seq, retire, get_row, put_row}
use zed_sync.Store.Settle.{AckOptions, unsettled, adopted_meta, settle_found, settle_ack}
use zed_sync.Store.Queue.{IsAscending, IsValid}
use zed_sync.Store.Removal.{retire-IsValid, splice-without}

-- What an acknowledgement needs in order to settle: the entry with its number is still for the same
-- id under the same key, and the row is still at the version that was sent, which is not past the
-- committed one.
pub record Matches (s : Store) (o : AckOptions) (queued : QueuedWrite) (current : StoredRow)
    : Type 0 where
  pub found : find_seq o.seq s.queue ≡ some queued
  pub stored : get_row s o.table o.id ≡ some current
  pub same_id : queued.id ≡ o.id
  pub same_key : queued.key ≡ o.write_key
  pub same_base : current.meta.version ≡ o.base_version
  pub not_past : compare_hlc o.base_version o.committed_version ≢ Ordering.gt

-- The store after a settlement: the entry is gone, and the row has the committed version and is
-- clean, with the payload that it had.
abbrev pub settled : Store → AckOptions → StoredRow → Store
settled s o current =
    put_row (retire s o.seq) o.table o.id current.row (adopted_meta o.committed_version o.at)

abbrev local_of : StoredRow → LocalRow
local_of current = record { version = current.meta.version; dirty = current.meta.dirty }

abbrev ack_of : AckOptions → WriteAck
ack_of o = record { id = o.id; committed_version = o.committed_version }

abbrev decision : AckOptions → QueuedWrite → StoredRow → Settlement
decision o queued current =
    settle_queued_ack (local_of current) queued o.write_key o.base_version (ack_of o)

settle_found_matches :
    (s : Store) (o : AckOptions) (queued : QueuedWrite) (current : StoredRow)
    → IsAscending s.queue
    → (decision o queued current).retire_current_slot ≡ true
    → settle_found s o queued current
      ≡ (settled s o current, record { retired = true; adopted = true })
unfolding settle_found retire
settle_found_matches s o queued current a h =
    let e : (decision o queued current).adopt ≡ some o.committed_version =
      (settle-adopt (local_of current) queued o.write_key o.base_version (ack_of o)
          o.committed_version).1
        (h, refl) in
    rw (h, e, splice-without o.seq s.queue a)

settle_found_differs :
    (s : Store) (o : AckOptions) (queued : QueuedWrite) (current : StoredRow)
    → (decision o queued current).retire_current_slot ≡ false
    → settle_found s o queued current ≡ (s, unsettled)
unfolding settle_found
settle_found_differs s o queued current h = rw h

-- `settleAck` on a matching acknowledgement.
pub settle_ack-Matches :
    (s : Store) (o : AckOptions) (queued : QueuedWrite) (current : StoredRow)
    → IsAscending s.queue
    → Matches s o queued current
    → settle_ack s o ≡ (settled s o current, record { retired = true; adopted = true })
unfolding settle_ack
settle_ack-Matches s o queued current a m =
    rw (m.found, m.stored, settle_ack)
      (settle_found_matches s o queued current a (
        (settle_iff (local_of current) queued o.write_key o.base_version (ack_of o)).1
          (m.same_id, m.same_key, m.same_base, m.not_past)))

Matches-retires :
    (s : Store) (o : AckOptions) (queued : QueuedWrite) (current : StoredRow)
    → Matches s o queued current
    → (decision o queued current).retire_current_slot ≡ true
Matches-retires s o queued current m =
    (settle_iff (local_of current) queued o.write_key o.base_version (ack_of o)).1
      (m.same_id, m.same_key, m.same_base, m.not_past)

-- What `settleAck` does when nothing matches.
abbrev pub Unmatched : Store → AckOptions → Type 0
Unmatched s o =
    (settle_ack s o ≡ (s, unsettled))
    × ((queued : QueuedWrite) (current : StoredRow) → ¬ Matches s o queued current)

abbrev pub Matched : Store → AckOptions → Type 0
Matched s o =
    (queued : QueuedWrite) × (current : StoredRow) × Matches s o queued current
    × (settle_ack s o ≡ (settled s o current, record { retired = true; adopted = true }))

Matched-or_not :
    (s : Store) (o : AckOptions) (queued : QueuedWrite) (current : StoredRow)
    → IsAscending s.queue
    → find_seq o.seq s.queue ≡ some queued
    → get_row s o.table o.id ≡ some current
    → Unmatched s o ⊎ Matched s o
unfolding settle_ack
Matched-or_not s o queued current a f g =
    elim (Bool-cases (decision o queued current).retire_current_slot) [
      | inl e ↦
          let (i, k, b, n) =
            (settle_iff (local_of current) queued o.write_key o.base_version (ack_of o)).0 e in
          let m : Matches s o queued current = record {
            found = f;
            stored = g;
            same_id = i;
            same_key = k;
            same_base = b;
            not_past = n;
          } in
          inr (queued, current, m, settle_ack-Matches s o queued current a m)
      | inr e ↦ inl (
        rw (f, g, settle_ack) (settle_found_differs s o queued current e),
        λ q c m.
            let same : decision o q c ≡ decision o queued current = cc (f, g, m.found, m.stored) in
            cc (Matches-retires s o q c m, same, e),
      )
    ]

-- On a queue in ascending order, `settleAck` either finds nothing that matches and leaves the store
-- exactly as it was, or settles the one matching entry: it leaves the queue, and its row becomes
-- clean at the committed version with its payload kept.
pub settle_ack_cases :
    (s : Store) (o : AckOptions) → IsAscending s.queue → Unmatched s o ⊎ Matched s o
unfolding settle_ack
settle_ack_cases s o a = elim (Option-cases (find_seq o.seq s.queue)) [
  | inl e ↦ inl (rw (e, settle_ack), λ q c m. cc (m.found, e))
  | inr (queued, f) ↦ elim (Option-cases (get_row s o.table o.id)) [
    | inl e ↦ inl (rw (f, e, settle_ack), λ q c m. cc (m.stored, e))
    | inr (current, g) ↦ Matched-or_not s o queued current a f g
  ]
]

pub put_row-IsValid :
    (s : Store) (t i : JsString) (v : Value) (m : RowMeta) → IsValid s → IsValid (put_row s t i v m)
unfolding put_row
put_row-IsValid s t i v m h = record {
  below = h.below;
  ascending = h.ascending;
  one_slot = h.one_slot;
  bounded = h.bounded;
}

-- Settling keeps the queue well formed.
pub settle_ack-IsValid : (s : Store) (o : AckOptions) → IsValid s → IsValid (settle_ack s o).0
settle_ack-IsValid s o v = elim (settle_ack_cases s o v.ascending) [
  | inl u ↦ rw u.0 v
  | inr (q, c, m, e) ↦ rw e (
      put_row-IsValid (retire s o.seq) o.table o.id c.row (adopted_meta o.committed_version o.at)
        (retire-IsValid s o.seq v))
]
