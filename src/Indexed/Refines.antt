-- ===== src/Indexed/Refines.antt =====
-- `IndexedDbStore` and `MemoryStore` of sdk/src/store.mjs keep the same contract.
use zed_sync.Prelude.{
  true, false, Bool, if◌then◌else◌, str_eq, sym, ℕ, ◌+◌, ◌≤◌, Option, Option-cases, Bool-cases,
  none, some, [], ◌∷◌, ◌++◌, JsString, ◌≡◌, refl, arith, ap, ◌∙◌, inl, inr,
}
use zed_sync.Dict.{lookup, lookup-insert}
use zed_sync.Json.{Value, is_plain}
use zed_sync.Hlc.{Hlc}
use zed_sync.Core.{Settlement, settle_queued_ack, QueuedWrite}
use zed_sync.Store.{
  get_cursor, Store, StoredRow, Write, with_seq, find_row, find_seq, without_seq, splice_seq,
  enqueue, enqueue_new, retire, row_key, RowMeta, detach_seq, get_row, put_row,
}
use zed_sync.Store.Settle.{
  AckOptions, AckOutcome, adopted_meta, settle_ack, settle_found, settle_adopt,
}
use zed_sync.Store.Queue.{IsAscending, IsValid}
use zed_sync.Store.Removal.{splice-without}
use zed_sync.Indexed.{
  idb_get_cursor, QueueStore, RowStore, CursorStore, IndexedDb, replace_seq, overflowing,
  idb_get_row, idb_put_row, idb_enqueue, delete_dropped, idb_retire, idb_adopt, idb_settle_found,
  idb_settle_ack,
}
use zed_sync.Indexed.Queues.{All-IsBelow, coalesce-replace, find_row-seq, overflow-trim, removed}

pub plain_of :
    (b : Bool) (y : StoredRow) (o : Option StoredRow) (x : StoredRow)
    → is_plain y.row ≡ true
    → ((z : StoredRow) → o ≡ some z → is_plain z.row ≡ true)
    → (if b then some y else o) ≡ some x
    → is_plain x.row ≡ true
plain_of true y o x p r e = cc
plain_of false y o x p r e = r x e

module _ (Q : QueueStore) (R : RowStore) (C : CursorStore) where
  -- The database shows what the in-memory store holds.
  pub record Refines (d : IndexedDb Q R C) (s : Store) : Type 0 where
    pub queue : Q.get_all d.queue ≡ s.queue
    pub last_key : Q.last_key d.queue ≡ s.seq
    pub max_length : d.max_length ≡ s.max_queue_length
    pub rows : (t i : JsString) → idb_get_row Q R C d t i ≡ get_row s t i
    pub cursors : (scope : JsString) → idb_get_cursor Q R C d scope ≡ get_cursor s scope
    -- No row has a `foreign` value in it.
    pub plain : (t i : JsString) (x : StoredRow) → get_row s t i ≡ some x → is_plain x.row ≡ true

  pub Refines-idb_put_row :
      (d : IndexedDb Q R C) (s : Store) (t i : JsString) (v : Value) (m : RowMeta)
      → is_plain v ≡ true
      → Refines d s
      → Refines (idb_put_row Q R C d t i v m) (put_row s t i v m)
  unfolding idb_put_row put_row idb_get_row get_row idb_get_cursor get_cursor
  Refines-idb_put_row d s t i v m p r = record {
    queue = r.queue;
    last_key = r.last_key;
    max_length = r.max_length;
    rows = λ u j. ground (
      arith,
      R.put_law (row_key t i) (row_key u j) (record { row = v; meta = m }) d.rows p,
      lookup-insert (row_key t i) (row_key u j) (record { row = v; meta = m }) s.rows,
      r.rows u j,
    );
    cursors = r.cursors;
    plain = λ u j x e.
        plain_of (str_eq (row_key t i) (row_key u j)) (record { row = v; meta = m })
          (lookup (row_key u j) s.rows) x p (r.plain u j)
          (sym (lookup-insert (row_key t i) (row_key u j) (record { row = v; meta = m }) s.rows)
            ∙ e);
  }

  pub Refines-idb_retire :
      (d : IndexedDb Q R C) (s : Store) (n : ℕ)
      → Refines d s
      → Refines (idb_retire Q R C d n) (retire s n)
  unfolding idb_retire retire idb_get_row get_row idb_get_cursor get_cursor
  Refines-idb_retire d s n r = record {
    queue = (Q.delete_law n d.queue).0 ∙ ap (without_seq n) r.queue;
    last_key = (Q.delete_law n d.queue).1 ∙ r.last_key;
    max_length = r.max_length;
    rows = r.rows;
    cursors = r.cursors;
    plain = r.plain;
  }

  all-delete_dropped :
      (x : Option QueuedWrite) (t : Q.State)
      → (Q.get_all (delete_dropped Q R C x t) ≡ removed x (Q.get_all t))
        × (Q.last_key (delete_dropped Q R C x t) ≡ Q.last_key t)
  unfolding delete_dropped
  all-delete_dropped none t = (refl, refl)
  all-delete_dropped (some q) t = Q.delete_law q.seq t

  -- Both stores answer an `enqueue` alike.
  abbrev pub SameEnqueue : IndexedDb Q R C → Store → Write → Type 0
  SameEnqueue d s w =
      Refines (idb_enqueue Q R C d w).db (enqueue s w).store
      × ((idb_enqueue Q R C d w).seq ≡ (enqueue s w).seq)
      × ((idb_enqueue Q R C d w).dropped ≡ (enqueue s w).dropped)

  module _ (d : IndexedDb Q R C) (s : Store) (w : Write) (r : Refines d s) (v : IsValid s)
      (p : is_plain w.payload ≡ true) where
    enqueue_old : (q : QueuedWrite) → find_row w.table w.id s.queue ≡ some q → SameEnqueue d s w
    unfolding idb_enqueue enqueue idb_get_row get_row idb_get_cursor get_cursor with_seq
    enqueue_old q f =
        let h : find_seq q.seq (Q.get_all d.queue) ≡ some q =
          rw r.queue (find_row-seq w.table w.id s.queue q v.ascending f) in
        let (g, k) = Q.put_law (with_seq w q.seq) q d.queue p h in
        rw (r.queue, f, idb_enqueue, enqueue)
          (
            record {
              queue =
                  g
                  ∙ ap (replace_seq (with_seq w q.seq)) r.queue
                  ∙ coalesce-replace w s.queue q v.ascending f;
              last_key = k ∙ r.last_key;
              max_length = r.max_length;
              rows = r.rows;
              cursors = r.cursors;
              plain = r.plain;
            },
            refl,
            refl,
          )

    enqueue_fresh :
        1 ≤ s.max_queue_length → find_row w.table w.id s.queue ≡ none → SameEnqueue d s w
    unfolding idb_enqueue enqueue enqueue_new idb_get_row get_row idb_get_cursor get_cursor with_seq
    enqueue_fresh c f =
        let x : QueuedWrite = with_seq w (s.seq + 1) in
        let (a, q, k) = Q.add_law w d.queue p in
        let same : Q.get_all (Q.add w d.queue).0 ≡ s.queue ++ x ∷ [] =
          cc (q, r.queue, r.last_key) in
        let (o, t) =
          overflow-trim s.max_queue_length s.queue x c v.ascending
            (All-IsBelow s.seq (s.seq + 1) s.queue v.below (omega arith)) in
        let (g, n) =
          all-delete_dropped (overflowing s.max_queue_length s.queue) (Q.add w d.queue).0 in
        rw (r.queue, f, idb_enqueue, enqueue, enqueue_new, r.queue, r.max_length)
          (
            record {
              queue = g ∙ ap (removed (overflowing s.max_queue_length s.queue)) same ∙ t;
              last_key = n ∙ k ∙ ap (λ m. m + 1) r.last_key;
              max_length = refl;
              rows = r.rows;
              cursors = r.cursors;
              plain = r.plain;
            },
            a ∙ ap (λ m. m + 1) r.last_key,
            o,
          )

    -- On a well-formed queue with a cap of at least one, and a payload without `foreign` values, the IndexedDB store answers an `enqueue`
    -- as the in-memory store does, coalescing, sequence number and overflow included, and shows the
    -- same queue and rows afterwards.
    pub idb_enqueue-Refines : 1 ≤ s.max_queue_length → SameEnqueue d s w
    idb_enqueue-Refines c = elim (Option-cases (find_row w.table w.id s.queue)) [
      | inl e ↦ enqueue_fresh c e
      | inr (q, f) ↦ enqueue_old q f
    ]

  -- Both stores answer a settlement alike.
  abbrev pub SameAck : IndexedDb Q R C × AckOutcome → Store × AckOutcome → Type 0
  SameAck a b = Refines a.0 b.0 × (a.1 ≡ b.1)

  module _ (d : IndexedDb Q R C) (s : Store) (o : AckOptions) (r : Refines d s) where
    adopt_same :
        (current : StoredRow) (v : Option Hlc)
        → is_plain current.row ≡ true
        → SameAck (idb_adopt Q R C d o current v) (settle_adopt s o current v)
    unfolding idb_adopt settle_adopt
    adopt_same current none p = (r, refl)
    adopt_same current (some v) p =
        (Refines-idb_put_row d s o.table o.id current.row (adopted_meta v o.at) p r, refl)

  module _ (d : IndexedDb Q R C) (s : Store) (o : AckOptions) (r : Refines d s)
      (a : IsAscending s.queue) where
    spliced :
        record s { queue = splice_seq o.seq s.queue; detached = detach_seq o.seq s }
        ≡ retire s o.seq
    unfolding retire
    spliced =
        ap (λ q. record s { queue = q; detached = detach_seq o.seq s })
          (splice-without o.seq s.queue a)

    found_same :
        (q : QueuedWrite) (x : StoredRow)
        → is_plain x.row ≡ true
        → SameAck (idb_settle_found Q R C d o q x) (settle_found s o q x)
    unfolding idb_settle_found settle_found
    found_same q x p =
        let z : Settlement =
          (settle_queued_ack (record { version = x.meta.version; dirty = x.meta.dirty }) q
            o.write_key o.base_version
            (record { id = o.id; committed_version = o.committed_version })) in
        let k =
          adopt_same (idb_retire Q R C d o.seq) (retire s o.seq) o (Refines-idb_retire d s o.seq r)
            x z.adopt p in
        elim (Bool-cases z.retire_current_slot) [
          | inl e ↦ rw (e, idb_settle_found, settle_found, spliced) k
          | inr e ↦ rw (e, idb_settle_found, settle_found) (r, refl)
        ]

    -- On a queue in ascending order the IndexedDB store answers a `settleAck` as the in-memory
    -- store does, and shows the same queue and rows afterwards.
    pub idb_settle_ack-Refines : SameAck (idb_settle_ack Q R C d o) (settle_ack s o)
    unfolding idb_settle_ack settle_ack
    idb_settle_ack-Refines =
        let g : Q.get o.seq d.queue ≡ find_seq o.seq s.queue =
          Q.get_law o.seq d.queue ∙ ap (find_seq o.seq) r.queue in
        elim (Option-cases (find_seq o.seq s.queue)) [
          | inl e ↦ rw (g, e, idb_settle_ack, settle_ack) (r, refl)
          | inr (q, f) ↦ elim (Option-cases (get_row s o.table o.id)) [
            | inl e ↦ rw (g, f, r.rows o.table o.id, e, idb_settle_ack, settle_ack) (r, refl)
            | inr (x, e) ↦
                rw (g, f, r.rows o.table o.id, e, idb_settle_ack, settle_ack)
                  (found_same q x (r.plain o.table o.id x e))
          ]
        ]
