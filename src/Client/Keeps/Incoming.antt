-- ===== src/Client/Keeps/Incoming.antt =====
-- `applyChange` of sdk/src/client.mjs keeps the write queue well formed.
use zed_sync.Prelude.{ℕ, Bool, true, false, if◌then◌else◌, Option, List, [], ◌∷◌, JsString}
use zed_sync.Core.{
  Op, upsert, delete, ChangeEvent, QueuedWrite, Reconcile, apply, ignore_stale,
  ignore_already_applied, conflict,
}
use zed_sync.Store.{Store, StoredRow, RowMeta, retire, same_row, remove_row}
use zed_sync.Store.Queue.{IsValid}
use zed_sync.Store.Removal.{retire-IsValid}
use zed_sync.Store.Ack.{put_row-IsValid}
use zed_sync.Client.{Client, ChangeOutcome}
use zed_sync.Client.Incoming.{
  adopt, adopt_change, drop_queued_for, retire_all, adopt_as, done, resolved, on_decision, receive,
  apply_change,
}
use zed_sync.Client.Keeps.{Keeps, Keeps-require, keeps_rules}

pub remove_row-IsValid :
    (s : Store) (t i : JsString) (m : RowMeta) → IsValid s → IsValid (remove_row s t i m)
unfolding remove_row
remove_row-IsValid s t i m h = record {
  below = h.below;
  ascending = h.ascending;
  one_slot = h.one_slot;
  bounded = h.bounded;
}

adopt_as-IsValid :
    (o : Op) (e : ChangeEvent) (now : ℕ) (s : Store) → IsValid s → IsValid (adopt_as o e now s)
unfolding adopt_as
adopt_as-IsValid delete e now s v = remove_row-IsValid s e.table e.id _ v
adopt_as-IsValid upsert e now s v = put_row-IsValid s e.table e.id e.row _ v

if-IsValid : (b : Bool) (s s' : Store) → IsValid s → IsValid s' → IsValid (if b then s else s')
if-IsValid true s s' v v' = v
if-IsValid false s s' v v' = v'

retire_all-IsValid :
    (t i : JsString) (ws : List QueuedWrite) (s : Store) → IsValid s → IsValid (retire_all t i ws s)
unfolding retire_all
retire_all-IsValid t i [] s v = v
retire_all-IsValid t i (w ∷ ws) s v =
    retire_all-IsValid t i ws _
      (if-IsValid (same_row t i w) (retire s w.seq) s (retire-IsValid s w.seq v) v)

pub Keeps-adopt : (e : ChangeEvent) → Keeps (adopt e)
unfolding adopt adopt_change
Keeps-adopt e = record { at = λ c v. adopt_as-IsValid e.op e c.now c.store v }

pub Keeps-drop : (t i : JsString) → Keeps (drop_queued_for t i)
unfolding drop_queued_for
Keeps-drop t i = record { at = λ c v. retire_all-IsValid t i c.store.queue c.store v }

pub Keeps-done : (e : ChangeEvent) (o : ChangeOutcome) → Keeps (done e o)
unfolding done
Keeps-done e o = search keeps_rules

pub ruleset incoming_rules = (keeps_rules, Keeps-adopt, Keeps-drop, Keeps-done, Keeps-require)

Keeps-resolved : (e : ChangeEvent) (b : Bool) → Keeps (resolved e b)
unfolding resolved
Keeps-resolved e true = search incoming_rules
Keeps-resolved e false = search incoming_rules

Keeps-on_decision :
    (e : ChangeEvent) (existing : Option StoredRow) (d : Reconcile)
    → Keeps (on_decision e existing d)
unfolding on_decision
Keeps-on_decision e existing apply = search incoming_rules
Keeps-on_decision e existing conflict = search (incoming_rules, Keeps-resolved)
Keeps-on_decision e existing ignore_already_applied = search incoming_rules
Keeps-on_decision e existing ignore_stale = search incoming_rules

Keeps-receive : (e : ChangeEvent) → Keeps (receive e)
unfolding receive
Keeps-receive e = search (incoming_rules, Keeps-on_decision)

pub Keeps-apply_change : (e : ChangeEvent) → Keeps (apply_change e)
unfolding apply_change
Keeps-apply_change e = search (incoming_rules, Keeps-receive)

-- An incoming change, from any transport and in any state of the client, keeps the write queue well
-- formed.
pub apply_change-IsValid :
    (e : ChangeEvent) (c : Client) → IsValid c.store → IsValid (apply_change e c).1.store
apply_change-IsValid e c v = (Keeps-apply_change e).at c v
