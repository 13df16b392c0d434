-- ===== src/Client/Threads/Alone.antt =====
-- A call of `applyChange` of sdk/src/client.mjs that nothing interrupts.
use zed_sync.Prelude.{
  ℕ, zero, suc, ◌+◌, ◌≤◌, Bool, true, false, length, Option, List, [], ◌∷◌, ◌≡◌, refl, arith,
  Bool-cases, inl, inr,
}
use zed_sync.Result.{Result, ok}
use zed_sync.Core.{
  Op, upsert, delete, ChangeEvent, QueuedWrite, Reconcile, apply, ignore_stale,
  ignore_already_applied, conflict, reconcile,
}
use zed_sync.Store.{Store, StoredRow, get_row, retire, same_row, put_row, remove_row}
use zed_sync.Client.{Client, ChangeOutcome, conflict_resolved, applied, ignored, refreshed, ◌>>◌}
use zed_sync.Client.Slots.{admits, apply_change-receive}
use zed_sync.Client.Incoming.{
  apply_change, receive, on_decision, resolved, retire_all, is_clean, conflict_adopts, local_of,
  adopt, adopt_as, adopt_change, done, observe_version, drop_queued_for,
}
use zed_sync.Client.Threads.{
  Thread, begins, decides, drops, retires, announces, ended, begin_change, decide_change,
  resolve_change, retire_next, end_with, segment, resume_times, next_of,
}

resume_times-ended :
    (n : ℕ) (r : Result ChangeOutcome) (c : Client) → resume_times n (ended r) c ≡ (ended r, c)
unfolding resume_times segment
resume_times-ended zero r c = refl
resume_times-ended (suc n) r c = resume_times-ended n r c

resume_times-announces :
    (n : ℕ) (e : ChangeEvent) (o : ChangeOutcome) (c : Client)
    → 1 ≤ n
    → resume_times n (announces e o) c ≡ (ended (ok o), (done e o c).1)
unfolding resume_times segment end_with done
resume_times-announces zero e o c h = absurd (omega arith)
resume_times-announces (suc n) e o c h = resume_times-ended n (ok o) _

-- The loop of `#dropQueuedFor` to its end.
retired : ChangeEvent → List QueuedWrite → Client → Client
retired e ws c = record c { store = retire_all e.table e.id ws c.store }

resume_times-retires :
    (ws : List QueuedWrite) (n : ℕ) (e : ChangeEvent) (c : Client)
    → length ws + 2 ≤ n
    → resume_times n (retires e ws) c
      ≡ (ended (ok conflict_resolved), (done e conflict_resolved (retired e ws c)).1)
unfolding resume_times segment retire_next retire_all retired
resume_times-retires [] zero e c h = absurd (omega arith)
resume_times-retires [] (suc zero) e c h = absurd (omega arith)
resume_times-retires [] (suc (suc n)) e c h =
    resume_times-announces (suc n) e conflict_resolved c (omega arith)
resume_times-retires (w ∷ ws) zero e c h = absurd (omega arith)
resume_times-retires (w ∷ ws) (suc n) e c h = elim (Bool-cases (same_row e.table e.id w)) [
  | inl p ↦
      rw p (resume_times-retires ws n e (record c { store = retire c.store w.seq }) (omega arith))
  | inr p ↦ rw p (resume_times-retires ws (suc n) e c (omega arith))
]

-- The result of a method as a call that has ended with it.
settled : Result ChangeOutcome × Client → Thread × Client
settled (r, c) = (ended r, c)

resume_times-settled :
    (n : ℕ) (r : Result ChangeOutcome × Client) → resume_times n (ended r.0) r.1 ≡ settled r
unfolding settled
resume_times-settled n (r, c) = resume_times-ended n r c

adopt_as_queue :
    (o : Op) (e : ChangeEvent) (now : ℕ) (s : Store) → (adopt_as o e now s).queue ≡ s.queue
unfolding adopt_as put_row remove_row
adopt_as_queue upsert e now s = refl
adopt_as_queue delete e now s = refl

adopt_queue : (e : ChangeEvent) (c : Client) → (adopt e c).1.store.queue ≡ c.store.queue
unfolding adopt adopt_change
adopt_queue e c = adopt_as_queue e.op e c.now c.store

resume_times-drops :
    (n : ℕ) (e : ChangeEvent) (c : Client)
    → length c.store.queue + 3 ≤ n
    → resume_times n (drops e) c
      ≡ settled ((drop_queued_for e.table e.id >> done e conflict_resolved) c)
unfolding resume_times segment drop_queued_for retired settled
resume_times-drops zero e c h = absurd (omega arith)
resume_times-drops (suc n) e c h = resume_times-retires c.store.queue n e c (omega arith)

-- The rest of a call from a step that the loop took.
from : ℕ → Result Thread × Client → Thread × Client
from n (r, c) = resume_times n (next_of r) c

module _ (n : ℕ) (e : ChangeEvent) (c : Client) (h : length c.store.queue + 3 ≤ n) where
  from-announces : (o : ChangeOutcome) → from n (ok (announces e o), c) ≡ settled (done e o c)
  unfolding from settled done next_of
  from-announces o = resume_times-announces n e o c (omega arith)

  from-end_with : (o : ChangeOutcome) → from n (end_with e o c) ≡ settled (done e o c)
  unfolding from settled end_with done resume_times
  from-end_with o = resume_times-ended n (ok o) _

from-resolve_change :
    (n : ℕ) (e : ChangeEvent) (b : Bool) (c : Client)
    → length c.store.queue + 3 ≤ n
    → from n (resolve_change e b c) ≡ settled (resolved e b c)
unfolding resolve_change resolved from resume_times
from-resolve_change n e true c h = resume_times-drops n e (adopt e c).1 (rw (adopt_queue e c) h)
from-resolve_change n e false c h = from-end_with n e c h ignored

from-decide_change :
    (n : ℕ) (e : ChangeEvent) (existing : Option StoredRow) (d : Reconcile) (c : Client)
    → length c.store.queue + 3 ≤ n
    → from n (decide_change e existing d c) ≡ settled (on_decision e existing d c)
unfolding decide_change on_decision from resume_times
from-decide_change n e existing apply c h =
    from-announces n e (adopt e c).1 (rw (adopt_queue e c) h) applied
from-decide_change n e existing conflict c h =
    from-resolve_change n e (conflict_adopts c existing e) c h
from-decide_change n e existing ignore_already_applied c h = elim (Bool-cases (is_clean existing)) [
  | inl p ↦ rw p (from-announces n e (adopt e c).1 (rw (adopt_queue e c) h) refreshed)
  | inr p ↦ rw p (from-end_with n e c h ignored)
]
from-decide_change n e existing ignore_stale c h = from-end_with n e c h ignored

pub begin_change-admitted :
    (e : ChangeEvent) (c : Client)
    → admits c e ≡ true
    → begin_change e c
      ≡ (ok (decides e (get_row c.store e.table e.id)), (observe_version e.version c).1)
unfolding begin_change admits
begin_change-admitted e c h = ground arith

module _ (e : ChangeEvent) (c : Client) (h : admits c e ≡ false) where
  pub begin_change-next : next_of (begin_change e c).0 ≡ ended (apply_change e c).0
  unfolding begin_change admits apply_change next_of
  begin_change-next = ground arith

  begin_change-client : (begin_change e c).1 ≡ (apply_change e c).1
  unfolding begin_change admits apply_change
  begin_change-client = ground arith

  begin_change-refused : (n : ℕ) → from n (begin_change e c) ≡ settled (apply_change e c)
  unfolding from settled
  begin_change-refused n =
      rw (begin_change-next, begin_change-client)
        (resume_times-ended n (apply_change e c).0 (apply_change e c).1)

-- A call of `applyChange` that nothing else runs in between of is `apply_change`: within as many
-- segments as the queue has writes, and five, it has ended with its outcome and left its effects.
pub resume_times-apply_change :
    (n : ℕ) (e : ChangeEvent) (c : Client)
    → length c.store.queue + 5 ≤ n
    → resume_times n (begins e) c ≡ (ended (apply_change e c).0, (apply_change e c).1)
unfolding resume_times segment settled from receive
resume_times-apply_change zero e c h = absurd (omega arith)
resume_times-apply_change (suc zero) e c h = absurd (omega arith)
resume_times-apply_change (suc (suc n)) e c h = elim (Bool-cases (admits c e)) [
  | inl p ↦
      let existing = get_row c.store e.table e.id in
      rw (apply_change-receive c e p, begin_change-admitted e c p)
        (from-decide_change n e existing (reconcile (local_of existing) e)
          (observe_version e.version c).1 (omega arith))
  | inr p ↦ begin_change-refused e c p (suc n)
]
