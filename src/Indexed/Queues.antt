-- ===== src/Indexed/Queues.antt =====
-- Queues in ascending order under the operations of `IndexedDbStore` and of `MemoryStore`
-- (sdk/src/store.mjs).
use zed_sync.Prelude.{
  ℕ, ◌≤◌, ◌<◌, length-append, All, Option, none, some, List, [], ◌∷◌, ◌++◌, JsString, ◌≡◌, refl,
  arith,
}
use zed_sync.Core.{QueuedWrite}
use zed_sync.Store.{Write, with_seq, find_row, find_seq, coalesce, shift, trim, without_seq}
use zed_sync.Store.Queue.{IsBelow, IsAscending}
use zed_sync.Indexed.{replace_seq, oldest, overflowing}

find_row-after :
    (n : ℕ) (t i : JsString) (queue : List QueuedWrite) (q : QueuedWrite)
    → All (λ x. n < x.seq) queue
    → find_row t i queue ≡ some q
    → n < q.seq
unfolding find_row
find_row-after n t i [] q a f = cc
find_row-after n t i (x ∷ queue) q a f = ground (arith, find_row-after n t i queue q a.1)

pub coalesce-replace :
    (w : Write) (queue : List QueuedWrite) (q : QueuedWrite)
    → IsAscending queue
    → find_row w.table w.id queue ≡ some q
    → replace_seq (with_seq w q.seq) queue ≡ coalesce w queue
unfolding find_row coalesce replace_seq with_seq
coalesce-replace w [] q a f = cc
coalesce-replace w (x ∷ queue) q a f =
    ground (arith, coalesce-replace w queue q a.1, find_row-after x.seq w.table w.id queue q a.0)

pub find_row-seq :
    (t i : JsString) (queue : List QueuedWrite) (q : QueuedWrite)
    → IsAscending queue
    → find_row t i queue ≡ some q
    → find_seq q.seq queue ≡ some q
unfolding find_row find_seq
find_row-seq t i [] q a f = cc
find_row-seq t i (x ∷ queue) q a f =
    ground (arith, find_row-seq t i queue q a.1, find_row-after x.seq t i queue q a.0)

oldest-first :
    (x : QueuedWrite) (queue : List QueuedWrite)
    → All (λ y. x.seq < y.seq) queue
    → oldest x queue ≡ x
unfolding oldest
oldest-first x [] a = refl
oldest-first x (y ∷ queue) a = ground (arith, oldest-first x queue a.1)

without_append :
    (n : ℕ) (queue : List QueuedWrite) (x : QueuedWrite)
    → All (λ y. n < y.seq) queue
    → n < x.seq
    → without_seq n (queue ++ x ∷ []) ≡ queue ++ x ∷ []
unfolding without_seq
without_append n [] x a b = ground arith
without_append n (y ∷ queue) x a b = ground (arith, without_append n queue x a.1 b)

-- The queue after the removal of what overflows.
abbrev pub removed : Option QueuedWrite → List QueuedWrite → List QueuedWrite
removed none queue = queue
removed (some q) queue = without_seq q.seq queue

pub overflow-trim :
    (cap : ℕ) (queue : List QueuedWrite) (x : QueuedWrite)
    → 1 ≤ cap
    → IsAscending queue
    → All (λ y. y.seq < x.seq) queue
    → (overflowing cap queue ≡ (trim cap (queue ++ x ∷ [])).1)
      × (removed (overflowing cap queue) (queue ++ x ∷ []) ≡ (trim cap (queue ++ x ∷ [])).0)
unfolding overflowing trim shift oldest without_seq
overflow-trim cap [] x c a b = ground arith
overflow-trim cap (q ∷ queue) x c a b = ground (
  arith,
  oldest-first q queue a.0,
  without_append q.seq queue x a.0 b.0,
  length-append queue (x ∷ []),
)

pub All-IsBelow :
    (n m : ℕ) (queue : List QueuedWrite) → IsBelow n queue → n < m → All (λ y. y.seq < m) queue
All-IsBelow n m [] b h = tt
All-IsBelow n m (q ∷ queue) b h = (omega arith, All-IsBelow n m queue b.1 h)
