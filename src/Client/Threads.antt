-- ===== src/Client/Threads.antt =====
-- `applyChange` of sdk/src/client.mjs as the event loop runs it: it gives way at each `await`, and
-- startBackendStream (sdk/src/transports/backend.mjs) starts one call per change of a frame without
-- waiting for the one before. A method of the in-memory store does its work when it is called.
pub mod Alone
pub mod Race
pub mod Rows
pub mod Apart
pub mod Lone
use zed_sync.Prelude.{
  ℕ, zero, suc, Bool, true, false, not, if◌then◌else◌, Option, none, some, List, [], ◌∷◌, JsString,
  codes,
}
use zed_sync.Result.{Result, ok, err}
use zed_sync.Core.{
  ChangeEvent, QueuedWrite, Reconcile, apply, ignore_stale, ignore_already_applied, conflict,
  reconcile,
}
use zed_sync.Store.{StoredRow, get_row, pending, retire, same_row}
use zed_sync.Client.{
  Client, Exec, ◌>>=◌, ◌>>◌, pure, gets, emit, modify_store, require_capability,
  may_receive_changes, ChangeOutcome, applied, ignored, conflict_resolved, refreshed,
  change_rejected,
}
use zed_sync.Client.Incoming.{
  allows, adopt, observe_version, done, local_of, is_clean, conflict_adopts,
}

-- One call of `applyChange`, by the `await` that it stands at.
pub data Thread : Type 0 where
  -- It has not begun.
  begins : ChangeEvent → Thread
  -- `await this.store.getRow(…)`, which has read the row.
  decides : ChangeEvent → Option StoredRow → Thread
  -- `await this.#adopt(incoming)` of a conflict.
  drops : ChangeEvent → Thread
  -- In the loop of `#dropQueuedFor`, with the writes it has yet to look at.
  retires : ChangeEvent → List QueuedWrite → Thread
  -- The last `await` before the outcome is reported.
  announces : ChangeEvent → ChangeOutcome → Thread
  ended : Result ChangeOutcome → Thread

-- Up to the read of the row.
unfoldable pub begin_change : ChangeEvent → Exec Thread
unfolding require_capability allows emit observe_version
begin_change e = do
  require_capability may_receive_changes (codes "receive changes")
  allowed ← gets (λ c. allows c.tables e.table)
  (if not allowed then (do emit (change_rejected e.table e.id); pure (ended (ok ignored))) else (do
    observe_version e.version
    existing ← gets (λ c. get_row c.store e.table e.id)
    pure (decides e existing)))

unfoldable pub end_with : ChangeEvent → ChangeOutcome → Exec Thread
unfolding done
end_with e outcome = do o ← done e outcome; pure (ended (ok o))

-- A conflict, by whether the change is adopted.
unfoldable pub resolve_change : ChangeEvent → Bool → Exec Thread
unfolding adopt end_with
resolve_change e true = do adopt e; pure (drops e)
resolve_change e false = end_with e ignored

-- From the row as it was read to the next `await`.
unfoldable pub decide_change : ChangeEvent → Option StoredRow → Reconcile → Exec Thread
unfolding adopt end_with resolve_change
decide_change e existing apply = do adopt e; pure (announces e applied)
decide_change e existing conflict = do
  adopts ← gets (λ c. conflict_adopts c existing e)
  resolve_change e adopts
decide_change e existing ignore_already_applied =
    if is_clean existing then (do adopt e; pure (announces e refreshed)) else end_with e ignored
decide_change e existing ignore_stale = end_with e ignored

-- From one retired write of `#dropQueuedFor` to the next.
unfoldable pub retire_next : ChangeEvent → List QueuedWrite → Exec Thread
unfolding modify_store
retire_next e [] = pure (announces e conflict_resolved)
retire_next e (w ∷ ws) =
    let rest = retire_next e ws in
    if same_row e.table e.id w
    then (do modify_store (λ s. retire s w.seq); pure (retires e ws))
    else rest

unfoldable pub segment : Thread → Exec Thread
unfolding begin_change decide_change retire_next end_with
segment (begins e) = begin_change e
segment (decides e existing) = decide_change e existing (reconcile (local_of existing) e)
segment (drops e) = gets (λ c. retires e (pending c.store))
segment (retires e ws) = retire_next e ws
segment (announces e outcome) = end_with e outcome
segment (ended r) = pure (ended r)

-- What is thrown ends the call.
unfoldable pub next_of : Result Thread → Thread
next_of (ok t) = t
next_of (err x) = ended (err x)

unfoldable pub resume : Thread → Client → Thread × Client
unfolding next_of segment
resume t c = let (r, c') = segment t c in (next_of r, c')

-- A number of segments of one call with nothing in between.
unfoldable pub resume_times : ℕ → Thread → Client → Thread × Client
unfolding resume
resume_times zero t c = (t, c)
resume_times (suc n) t c = let (t', c') = resume t c in resume_times n t' c'

-- What the event loop runs next: the call at an index, or something else.
pub data Turn : Type 0 where
  resumes : ℕ → Turn
  meanwhile : (Client → Client) → Turn

unfoldable pub resume_at : ℕ → List Thread → Client → List Thread × Client
unfolding resume
resume_at i [] c = ([], c)
resume_at zero (t ∷ ts) c = let (t', c') = resume t c in (t' ∷ ts, c')
resume_at (suc i) (t ∷ ts) c = let (ts', c') = resume_at i ts c in (t ∷ ts', c')

unfoldable pub turn : Turn → List Thread → Client → List Thread × Client
unfolding resume_at
turn (resumes i) ts c = resume_at i ts c
turn (meanwhile f) ts c = (ts, f c)

unfoldable pub run_turns : List Turn → List Thread → Client → List Thread × Client
unfolding turn
run_turns [] ts c = (ts, c)
run_turns (m ∷ ms) ts c = let (ts', c') = turn m ts c in run_turns ms ts' c'
