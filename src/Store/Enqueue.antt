-- ===== src/Store/Enqueue.antt =====
-- `enqueue` of sdk/src/store.mjs keeps the queue well formed, and what it stores can be found.
use zed_sync.Prelude.{
  ℕ, ◌+◌, ◌≤◌, ◌<◌, ◌&&◌, if◌then◌else◌, Option, Option-cases, none, some, List, [], ◌∷◌, ◌++◌,
  length, length-append, JsString, str_eq, str_eq_iff, ◌≡◌, inl, inr, refl, arith,
}
use zed_sync.Core.{QueuedWrite}
use zed_sync.Store.{
  Store, Write, with_seq, same_row, find_row, coalesce, shift, trim, enqueue, enqueue_new,
}
use zed_sync.Store.Queue.{
  IsBelow, IsAscending, HasOneSlot, IsValid, All-coalesce, IsAscending-coalesce, length-coalesce,
  find-coalesce_same, find-coalesce_other, HasOneSlot-coalesce, IsBelow-suc, IsAscending-append,
  find-append, HasOneSlot-append, All-append,
}

-- What `trim` may take away is the head.
trim-keeps :
    (cap : ℕ) (queue : List QueuedWrite) (n : ℕ)
    → IsBelow n queue × IsAscending queue × HasOneSlot queue
    → IsBelow n (trim cap queue).0 × IsAscending (trim cap queue).0 × HasOneSlot (trim cap queue).0
unfolding trim shift
trim-keeps cap [] n h = ground arith
trim-keeps cap (q ∷ queue) n h = ground arith

length-trim :
    (cap : ℕ) (queue : List QueuedWrite) → length queue ≤ cap + 1 → length (trim cap queue).0 ≤ cap
unfolding trim shift
length-trim cap [] h = ground arith
length-trim cap (q ∷ queue) h = ground arith

-- The queue with the new entry, before it is trimmed.
abbrev pushed : Store → Write → List QueuedWrite
pushed s w = s.queue ++ with_seq w (s.seq + 1) ∷ []

module _ (s : Store) (w : Write) (v : IsValid s) where
  enqueue_old-IsValid :
      (q : QueuedWrite) → find_row w.table w.id s.queue ≡ some q → IsValid (enqueue s w).store
  unfolding enqueue
  enqueue_old-IsValid q e =
      rw (e, enqueue)
        (record {
          below = All-coalesce (λ n. n ≤ s.seq) w s.queue v.below;
          ascending = IsAscending-coalesce w s.queue v.ascending;
          one_slot = HasOneSlot-coalesce w s.queue v.one_slot;
          bounded = omega (arith, length-coalesce w s.queue, v.bounded);
        })

  pushed_keeps :
      find_row w.table w.id s.queue ≡ none
      → IsBelow (s.seq + 1) (pushed s w) × IsAscending (pushed s w) × HasOneSlot (pushed s w)
  unfolding with_seq
  pushed_keeps e = (
    All-append (λ q. q.seq ≤ s.seq + 1) s.queue (with_seq w (s.seq + 1))
        (IsBelow-suc s.seq s.queue v.below) (omega arith),
    IsAscending-append s.seq s.queue (with_seq w (s.seq + 1)) v.below v.ascending refl,
    HasOneSlot-append s.queue (with_seq w (s.seq + 1)) v.one_slot e,
  )

  enqueue_new-IsValid : find_row w.table w.id s.queue ≡ none → IsValid (enqueue_new s w).store
  unfolding enqueue_new
  enqueue_new-IsValid e =
      let (b, a, o) = trim-keeps s.max_queue_length (pushed s w) (s.seq + 1) (pushed_keeps e) in
      record {
        below = b;
        ascending = a;
        one_slot = o;
        bounded =
            length-trim s.max_queue_length (pushed s w)
              (omega (arith, length-append s.queue (with_seq w (s.seq + 1) ∷ []), v.bounded));
      }

  -- Enqueuing keeps a well-formed queue well formed: ascending sequence numbers, one slot for each
  -- row, and a length within the cap.
  pub enqueue-IsValid : IsValid (enqueue s w).store
  unfolding enqueue
  enqueue-IsValid = elim (Option-cases (find_row w.table w.id s.queue)) [
    | inl e ↦ rw (e, enqueue) (enqueue_new-IsValid e)
    | inr (q, e) ↦ enqueue_old-IsValid q e
  ]

trim-none :
    (cap : ℕ) (queue : List QueuedWrite) → (trim cap queue).1 ≡ none → (trim cap queue).0 ≡ queue
unfolding trim shift
trim-none cap [] h = ground arith
trim-none cap (q ∷ queue) h = ground arith

trim-some :
    (cap : ℕ) (queue : List QueuedWrite) (d : QueuedWrite)
    → (trim cap queue).1 ≡ some d
    → (cap < length queue) × (d ∷ (trim cap queue).0 ≡ queue)
unfolding trim shift
trim-some cap [] d h = ground arith
trim-some cap (q ∷ queue) d h = ground arith

module _ (s : Store) (w : Write) where
  find_new :
      (table id : JsString)
      → find_row w.table w.id s.queue ≡ none
      → (enqueue_new s w).dropped ≡ none
      → find_row table id (enqueue_new s w).store.queue ≡ (
          if str_eq w.table table && str_eq w.id id
          then some (with_seq w (enqueue_new s w).seq)
          else find_row table id s.queue)
  unfolding enqueue_new same_row
  find_new table id e d = rw (trim-none s.max_queue_length (pushed s w) d) (
      ground (
        arith,
        find-append table id s.queue (with_seq w (s.seq + 1)),
        str_eq_iff w.table table,
        str_eq_iff w.id id,
      ))

  find_old :
      (table id : JsString) (q : QueuedWrite)
      → find_row w.table w.id s.queue ≡ some q
      → find_row table id (coalesce w s.queue) ≡ (
          if str_eq w.table table && str_eq w.id id
          then some (with_seq w q.seq)
          else find_row table id s.queue)
  find_old table id q e = ground (
    arith,
    find-coalesce_same w s.queue q e,
    find-coalesce_other w table id s.queue,
    str_eq_iff w.table table,
    str_eq_iff w.id id,
  )

  -- If nothing was dropped, the row of the write has exactly the new write in its slot, under the
  -- sequence number that was returned, and the slot of every other row is unchanged.
  pub find-enqueue :
      (table id : JsString)
      → (enqueue s w).dropped ≡ none
      → find_row table id (enqueue s w).store.queue ≡ (
          if str_eq w.table table && str_eq w.id id
          then some (with_seq w (enqueue s w).seq)
          else find_row table id s.queue)
  unfolding enqueue
  find-enqueue table id d = elim (Option-cases (find_row w.table w.id s.queue)) [
    | inl e ↦ rw (e, enqueue) (find_new table id e (rw (e, enqueue) at d))
    | inr (q, e) ↦ rw (e, enqueue) (find_old table id q e)
  ]

  dropped_new :
      (d : QueuedWrite)
      → find_row w.table w.id s.queue ≡ none
      → (enqueue_new s w).dropped ≡ some d
      → (s.max_queue_length ≤ length s.queue)
        × (◌≡◌ {A = Option QueuedWrite} none none)
        × (d ∷ (enqueue_new s w).store.queue ≡ s.queue ++ with_seq w (enqueue_new s w).seq ∷ [])
  unfolding enqueue_new
  dropped_new d e h =
      let (long, eq) = trim-some s.max_queue_length (pushed s w) d h in
      (omega (arith, length-append s.queue (with_seq w (s.seq + 1) ∷ [])), refl, eq)

  -- A write is dropped only when the queue is full and has no slot for the row; it is the oldest,
  -- and all the others stay in order, followed by the new write.
  pub enqueue-dropped :
      (d : QueuedWrite)
      → (enqueue s w).dropped ≡ some d
      → (s.max_queue_length ≤ length s.queue)
        × (find_row w.table w.id s.queue ≡ none)
        × (d ∷ (enqueue s w).store.queue ≡ s.queue ++ with_seq w (enqueue s w).seq ∷ [])
  unfolding enqueue
  enqueue-dropped d h = elim (Option-cases (find_row w.table w.id s.queue)) [
    | inl e ↦ rw (e, enqueue) (dropped_new d e (rw (e, enqueue) at h))
    | inr (q, e) ↦ absurd (ground arith)
  ]

  -- A write for a row that already has a slot takes the slot over: the queue does not grow, nothing
  -- is dropped, and the sequence number is the old one.
  pub enqueue_coalesces :
      (q : QueuedWrite)
      → find_row w.table w.id s.queue ≡ some q
      → ((enqueue s w).seq ≡ q.seq)
        × ((enqueue s w).dropped ≡ none)
        × (length (enqueue s w).store.queue ≡ length s.queue)
  unfolding enqueue
  enqueue_coalesces q e = ground (arith, length-coalesce w s.queue)
