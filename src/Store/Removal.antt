-- ===== src/Store/Removal.antt =====
-- Taking entries out of the queue of sdk/src/store.mjs: `retire`, and the splice of `settleAck`.
use zed_sync.Prelude.{
  ℕ, ◌≤◌, ◌<◌, ◌==◌, if◌then◌else◌, none, some, List, [], ◌∷◌, length, All, JsString, str_eq_iff,
  ◌≡◌, refl, arith,
}
use zed_sync.Core.{QueuedWrite}
use zed_sync.Store.{Store, find_row, find_seq, without_seq, splice_seq, retire, same_row}
use zed_sync.Store.Queue.{IsAscending, HasOneSlot, IsValid}

All-without {ℓ} :
    (P : QueuedWrite → Type ℓ) (n : ℕ) (queue : List QueuedWrite)
    → All P queue
    → All P (without_seq n queue)
unfolding without_seq
All-without P n [] h = h
All-without P n (q ∷ queue) h = ground (arith, All-without P n queue h.1)

length-without-le : (n : ℕ) (queue : List QueuedWrite) → length (without_seq n queue) ≤ length queue
unfolding without_seq
length-without-le n [] = omega arith
length-without-le n (q ∷ queue) = ground (arith, length-without-le n queue)

IsAscending-without :
    (n : ℕ) (queue : List QueuedWrite) → IsAscending queue → IsAscending (without_seq n queue)
unfolding without_seq
IsAscending-without n [] h = h
IsAscending-without n (q ∷ queue) h =
    ground (arith, IsAscending-without n queue h.1, All-without (λ x. q.seq < x.seq) n queue h.0)

find-without_none :
    (table id : JsString) (n : ℕ) (queue : List QueuedWrite)
    → find_row table id queue ≡ none
    → find_row table id (without_seq n queue) ≡ none
unfolding find_row without_seq
find-without_none table id n [] h = refl
find-without_none table id n (q ∷ queue) h = ground (arith, find-without_none table id n queue)

HasOneSlot-without :
    (n : ℕ) (queue : List QueuedWrite) → HasOneSlot queue → HasOneSlot (without_seq n queue)
unfolding without_seq
HasOneSlot-without n [] h = h
HasOneSlot-without n (q ∷ queue) h =
    ground (arith, HasOneSlot-without n queue h.1, find-without_none q.table q.id n queue h.0)

-- Retiring an entry keeps the queue well formed.
pub retire-IsValid : (s : Store) (n : ℕ) → IsValid s → IsValid (retire s n)
unfolding retire
retire-IsValid s n v = record {
  below = All-without (λ q. q.seq ≤ s.seq) n s.queue v.below;
  ascending = IsAscending-without n s.queue v.ascending;
  one_slot = HasOneSlot-without n s.queue v.one_slot;
  bounded = omega (arith, length-without-le n s.queue, v.bounded);
}

-- The entry that `find` returns has the number that was asked for.
pub find_seq-seq :
    (n : ℕ) (queue : List QueuedWrite) (q : QueuedWrite) → find_seq n queue ≡ some q → q.seq ≡ n
unfolding find_seq
find_seq-seq n [] q h = cc
find_seq-seq n (x ∷ queue) q h = ground (arith, find_seq-seq n queue q)

pub without_later :
    (n : ℕ) (queue : List QueuedWrite) → All (λ x. n < x.seq) queue → without_seq n queue ≡ queue
unfolding without_seq
without_later n [] h = refl
without_later n (q ∷ queue) h = ground (arith, without_later n queue h.1)

-- With ascending numbers, splicing the entry out removes what filtering by its number does.
pub splice-without :
    (n : ℕ) (queue : List QueuedWrite)
    → IsAscending queue
    → splice_seq n queue ≡ without_seq n queue
unfolding splice_seq without_seq
splice-without n [] h = refl
splice-without n (q ∷ queue) h =
    ground (arith, splice-without n queue h.1, without_later q.seq queue h.0)

-- After a removal no entry has the number, and every other entry is found as before.
pub find_seq-without :
    (n m : ℕ) (queue : List QueuedWrite)
    → find_seq m (without_seq n queue) ≡ (if n == m then none else find_seq m queue)
unfolding find_seq without_seq
find_seq-without n m [] = ground arith
find_seq-without n m (q ∷ queue) = ground (arith, find_seq-without n m queue)

find_row-later :
    (table id : JsString) (n : ℕ) (queue : List QueuedWrite) (x : QueuedWrite)
    → All (λ y. n < y.seq) queue
    → find_row table id queue ≡ some x
    → n < x.seq
unfolding find_row
find_row-later table id n [] x h e = cc
find_row-later table id n (q ∷ queue) x h e = ground (arith, find_row-later table id n queue x h.1)

-- The slot of a row is emptied by the removal of its own entry, and by no other.
pub find_row-without :
    (table id : JsString) (n : ℕ) (queue : List QueuedWrite)
    → IsAscending queue
    → HasOneSlot queue
    → find_row table id (without_seq n queue) ≡ elim (find_row table id queue) [
      | none ↦ none
      | some q ↦ if q.seq == n then none else some q
    ]
unfolding find_row without_seq same_row
find_row-without table id n [] a o = refl
find_row-without table id n (q ∷ queue) a o = ground (
  arith,
  find_row-without table id n queue a.1 o.1,
  find-without_none q.table q.id n queue o.0,
  str_eq_iff q.table table,
  str_eq_iff q.id id,
)

-- The slot of a row is also found under its sequence number.
pub find_seq-find_row :
    (table id : JsString) (queue : List QueuedWrite) (q : QueuedWrite)
    → IsAscending queue
    → find_row table id queue ≡ some q
    → find_seq q.seq queue ≡ some q
unfolding find_row find_seq
find_seq-find_row table id [] q a h = cc
find_seq-find_row table id (x ∷ queue) q a h =
    ground
      (arith, find_seq-find_row table id queue q a.1, find_row-later table id x.seq queue q a.0)
