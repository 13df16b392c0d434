-- ===== src/Client/Converge.antt =====
-- Replicas of sdk/src/client.mjs that receive the same changes in different orders.
use mathlib.Core.List.{Permᴰ}
use zed_sync.Prelude.{
  Ordering, true, false, none, some, List, [], ◌∷◌, All, JsString, str_eq_iff, ◌≡◌, refl, arith,
  ◌∙◌, ap, sym,
}
use zed_sync.Json.{null}
use zed_sync.Hlc.{compare_hlc}
use zed_sync.Core.{upsert, delete, ChangeEvent}
use zed_sync.Store.{get_row}
use zed_sync.Store.Rows.{no_nul}
use zed_sync.Client.{Client}
use zed_sync.Client.Incoming.{apply_all, receive}
use zed_sync.Client.Slots.{
  adopts_over, receive-rows, receive_frame, admits-receive, admits, apply_change-receive,
}
use zed_sync.Client.Views.{taken, view, view-slot_after, view_after}
use zed_sync.Client.Orders.{Content, IsGrounded, Tells, deliver, deliver-perm, step}

abbrev pub Guarded : Client → ChangeEvent → Type 0
Guarded c e = (admits c e ≡ true) × (no_nul e.table ≡ true)

All-Guarded :
    (c : Client) (e : ChangeEvent) (es : List ChangeEvent)
    → All (Guarded c) es
    → All (Guarded (receive e c).1) es
All-Guarded c e [] g = tt
All-Guarded c e (f ∷ es) g = ((admits-receive c e f ∙ g.0.0, g.0.1), All-Guarded c e es g.1)

receive-step :
    (t i : JsString) (c : Client) (e : ChangeEvent)
    → no_nul t ≡ true
    → no_nul e.table ≡ true
    → view (get_row (receive e c).1.store t i) ≡ step t i (view (get_row c.store t i)) e
unfolding step
receive-step t i c e n ne = ground (
  arith,
  receive-rows e t i ne n c,
  view-slot_after (get_row c.store e.table e.id) e c.now,
  str_eq_iff e.table t,
  str_eq_iff e.id i,
)

apply_all-deliver :
    (t i : JsString) (c : Client) (es : List ChangeEvent)
    → no_nul t ≡ true
    → All (Guarded c) es
    → view (get_row (apply_all es c).1.store t i) ≡ deliver t i (view (get_row c.store t i)) es
unfolding apply_all deliver
apply_all-deliver t i c [] n g = refl
apply_all-deliver t i c (e ∷ es) n g =
    let (o, r, l, t', k) = receive_frame c e in
    let c' = (receive e c).1 in
    rw (apply_change-receive c e g.0.0, r)
      (apply_all-deliver t i c' es n (All-Guarded c e es g.1)
        ∙ ap (λ v. deliver t i v es) (receive-step t i c e n g.0.1))

-- Two replicas that see a row alike, and receive the same changes in any two orders (what one of
-- them received as a push the other may have fetched), see the row alike afterwards. The
-- conditions: each row's version tells its content, the guards let the changes through, and a row
-- that is not held receives no delete.
pub replicas_converge :
    (content : Content) (t i : JsString) (c d : Client) {es fs : List ChangeEvent}
    → Permᴰ es fs
    → no_nul t ≡ true
    → All (Guarded c) es
    → All (Guarded d) fs
    → All (Tells content) es
    → All (IsGrounded (view (get_row c.store t i))) es
    → view (get_row c.store t i) ≡ view (get_row d.store t i)
    → view (get_row (apply_all es c).1.store t i) ≡ view (get_row (apply_all fs d).1.store t i)
replicas_converge content t i c d {es} {fs} p n gc gd te gr same =
    apply_all-deliver t i c es n gc
    ∙ deliver-perm content t i (view (get_row c.store t i)) p te gr
    ∙ ap (λ v. deliver t i v fs) same
    ∙ sym (apply_all-deliver t i d fs n gd)

-- The view of a row after two changes to it.
pub two_delivered :
    (c : Client) (e f : ChangeEvent)
    → Guarded c e
    → Guarded c f
    → f.table ≡ e.table
    → f.id ≡ e.id
    → view (get_row (apply_all (e ∷ f ∷ []) c).1.store e.table e.id)
      ≡ view_after (view_after (view (get_row c.store e.table e.id)) e) f
unfolding deliver step
two_delivered c e f ge gf t i = ground (
  arith,
  apply_all-deliver e.table e.id c (e ∷ f ∷ []) ge.1 (ge, (gf, tt)),
  str_eq_iff e.table e.table,
  str_eq_iff e.id e.id,
  str_eq_iff f.table e.table,
  str_eq_iff f.id e.id,
)

-- For a row that is not held, the order of an upsert and a newer delete, both let through, decides:
-- in order the row ends as a tombstone at the delete's version, the other way round the deleted row
-- is live again.
pub late_upsert_revives :
    (c : Client) (e d : ChangeEvent)
    → Guarded c e
    → Guarded c d
    → d.table ≡ e.table
    → d.id ≡ e.id
    → e.op ≡ upsert
    → d.op ≡ delete
    → compare_hlc d.version e.version ≡ Ordering.gt
    → get_row c.store e.table e.id ≡ none
    → (view (get_row (apply_all (e ∷ d ∷ []) c).1.store e.table e.id)
        ≡ some (record { row = null; version = d.version; dirty = false }))
      × (view (get_row (apply_all (d ∷ e ∷ []) c).1.store e.table e.id)
          ≡ some (record { row = e.row; version = e.version; dirty = false }))
unfolding view view_after adopts_over taken
late_upsert_revives c e d ge gd t i u k n h = (
  ground (arith, two_delivered c e d ge gd t i),
  ground (arith, two_delivered c d e gd ge (sym t) (sym i)),
)
