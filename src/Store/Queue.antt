-- ===== src/Store/Queue.antt =====
-- The write queue of sdk/src/store.mjs: one slot for each row, in order of sequence numbers, and
-- never longer than its cap.
use zed_sync.Prelude.{
  ℕ, ◌+◌, ◌≤◌, ◌<◌, false, ◌&&◌, if◌then◌else◌, none, some, List, [], ◌∷◌, ◌++◌, length, All,
  JsString, str_eq, str_eq_iff, ◌≡◌, refl, arith,
}
use zed_sync.Core.{QueuedWrite}
use zed_sync.Store.{Store, Write, with_seq, same_row, find_row, coalesce}

abbrev pub IsBelow : ℕ → List QueuedWrite → Type 0
IsBelow n = All (λ q. q.seq ≤ n)

abbrev pub IsAscending : List QueuedWrite → Type 0
IsAscending [] = Unit
IsAscending (q ∷ queue) = All (λ x. q.seq < x.seq) queue × IsAscending queue

-- No two entries are for one row.
abbrev pub HasOneSlot : List QueuedWrite → Type 0
HasOneSlot [] = Unit
HasOneSlot (q ∷ queue) = (find_row q.table q.id queue ≡ none) × HasOneSlot queue

pub record IsValid (s : Store) : Type 0 where
  pub below : IsBelow s.seq s.queue
  pub ascending : IsAscending s.queue
  pub one_slot : HasOneSlot s.queue
  pub bounded : length s.queue ≤ s.max_queue_length

-- What coalescing keeps: the sequence numbers, the length, and the rows that have a slot.
pub All-coalesce {ℓ} :
    (P : ℕ → Type ℓ) (w : Write) (queue : List QueuedWrite)
    → All (λ q. P q.seq) queue
    → All (λ q. P q.seq) (coalesce w queue)
unfolding coalesce with_seq
All-coalesce P w [] h = h
All-coalesce P w (q ∷ queue) h = ground (arith, All-coalesce P w queue h.1)

pub IsAscending-coalesce :
    (w : Write) (queue : List QueuedWrite) → IsAscending queue → IsAscending (coalesce w queue)
unfolding coalesce with_seq
IsAscending-coalesce w [] h = h
IsAscending-coalesce w (q ∷ queue) h =
    ground (arith, IsAscending-coalesce w queue h.1, All-coalesce (λ n. q.seq < n) w queue h.0)

pub length-coalesce :
    (w : Write) (queue : List QueuedWrite) → length (coalesce w queue) ≡ length queue
unfolding coalesce
length-coalesce w [] = refl
length-coalesce w (q ∷ queue) = ground (arith, length-coalesce w queue)

-- The slot that coalescing rewrites holds the new write under its old sequence number.
pub find-coalesce_same :
    (w : Write) (queue : List QueuedWrite) (q : QueuedWrite)
    → find_row w.table w.id queue ≡ some q
    → find_row w.table w.id (coalesce w queue) ≡ some (with_seq w q.seq)
unfolding find_row coalesce same_row with_seq
find-coalesce_same w [] q h = cc
find-coalesce_same w (x ∷ queue) q h =
    ground (arith, find-coalesce_same w queue q, str_eq_iff w.table w.table, str_eq_iff w.id w.id)

-- The slots of other rows stay as they are.
pub find-coalesce_other :
    (w : Write) (table id : JsString) (queue : List QueuedWrite)
    → (str_eq w.table table && str_eq w.id id) ≡ false
    → find_row table id (coalesce w queue) ≡ find_row table id queue
unfolding find_row coalesce same_row with_seq
find-coalesce_other w table id [] h = refl
find-coalesce_other w table id (x ∷ queue) h =
    ground (
      arith,
      find-coalesce_other w table id queue,
      str_eq_iff x.table w.table,
      str_eq_iff x.id w.id,
    )

find-coalesce-none :
    (w : Write) (table id : JsString) (queue : List QueuedWrite)
    → find_row table id queue ≡ none
    → find_row table id (coalesce w queue) ≡ none
unfolding find_row coalesce same_row with_seq
find-coalesce-none w table id [] h = refl
find-coalesce-none w table id (x ∷ queue) h =
    ground
      (arith, find-coalesce-none w table id queue, str_eq_iff x.table w.table, str_eq_iff x.id w.id)

pub HasOneSlot-coalesce :
    (w : Write) (queue : List QueuedWrite) → HasOneSlot queue → HasOneSlot (coalesce w queue)
unfolding coalesce same_row with_seq
HasOneSlot-coalesce w [] h = h
HasOneSlot-coalesce w (x ∷ queue) h = ground (
  arith,
  HasOneSlot-coalesce w queue h.1,
  find-coalesce-none w x.table x.id queue h.0,
  str_eq_iff x.table w.table,
  str_eq_iff x.id w.id,
)

pub All-append {ℓ} :
    (P : QueuedWrite → Type ℓ) (queue : List QueuedWrite) (x : QueuedWrite)
    → All P queue
    → P x
    → All P (queue ++ x ∷ [])
All-append P [] x h p = (p, tt)
All-append P (q ∷ queue) x h p = (h.0, All-append P queue x h.1 p)

pub IsBelow-suc : (n : ℕ) (queue : List QueuedWrite) → IsBelow n queue → IsBelow (n + 1) queue
IsBelow-suc n [] h = tt
IsBelow-suc n (q ∷ queue) h = (omega arith, IsBelow-suc n queue h.1)

pub IsAscending-append :
    (n : ℕ) (queue : List QueuedWrite) (x : QueuedWrite)
    → IsBelow n queue
    → IsAscending queue
    → x.seq ≡ n + 1
    → IsAscending (queue ++ x ∷ [])
IsAscending-append n [] x b h e = (tt, tt)
IsAscending-append n (q ∷ queue) x b h e = (
  All-append (λ y. q.seq < y.seq) queue x h.0 (omega arith),
  IsAscending-append n queue x b.1 h.1 e,
)

pub find-append :
    (table id : JsString) (queue : List QueuedWrite) (x : QueuedWrite)
    → find_row table id (queue ++ x ∷ []) ≡ elim (find_row table id queue) [
      | some q ↦ some q
      | none ↦ if same_row table id x then some x else none
    ]
unfolding find_row
find-append table id [] x = ground arith
find-append table id (q ∷ queue) x = ground (arith, find-append table id queue x)

pub HasOneSlot-append :
    (queue : List QueuedWrite) (x : QueuedWrite)
    → HasOneSlot queue
    → find_row x.table x.id queue ≡ none
    → HasOneSlot (queue ++ x ∷ [])
unfolding find_row same_row
HasOneSlot-append [] x h n = (refl, tt)
HasOneSlot-append (q ∷ queue) x h n = (
  ground (
    arith,
    find-append q.table q.id queue x,
    str_eq_iff q.table x.table,
    str_eq_iff q.id x.id,
    str_eq_iff x.table q.table,
    str_eq_iff x.id q.id,
  ),
  HasOneSlot-append queue x h.1 (ground arith),
)
