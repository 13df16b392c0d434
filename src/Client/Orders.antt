-- ===== src/Client/Orders.antt =====
-- The view of a row of sdk/src/client.mjs after the same changes in different orders.
use mathlib.Core.Path.{ap₂}
use mathlib.Core.List.{Permᴰ}
use zed_sync.Prelude.{
  Bool-cases, ◌&&◌, if◌then◌else◌, Option, none, some, List, [], ◌∷◌, All, JsString, str_eq,
  str_eq_iff, ◌≡◌, ◌≢◌, ◌⊎◌, inl, inr, refl, arith, ◌∙◌, ap, subst,
}
use zed_sync.Json.{Value}
use zed_sync.Hlc.{Hlc}
use zed_sync.Hlc.Order.{compare_hlc-flip, compare_hlc-eq_iff, compare_hlc_trans}
use zed_sync.Core.{Op, upsert, ChangeEvent}
use zed_sync.Client.Slots.{adopts_over}
use zed_sync.Client.Views.{RowView, taken, view_after}

-- The view of the row `t`, `i` after one change, and after a list of them.
unfoldable pub step : JsString → JsString → Option RowView → ChangeEvent → Option RowView
step t i v e = if str_eq e.table t && str_eq e.id i then view_after v e else v

unfoldable pub deliver : JsString → JsString → Option RowView → List ChangeEvent → Option RowView
deliver t i v [] = v
deliver t i v (e ∷ es) = deliver t i (step t i v e) es

-- The version of a row's change tells its content.
abbrev pub Content : Type 0
Content = JsString → JsString → Hlc → Op × Value

abbrev pub Tells : Content → ChangeEvent → Type 0
Tells content e = content e.table e.id e.version ≡ (e.op, e.row)

-- The row is held, or the change is no delete.
abbrev pub IsGrounded : Option RowView → ChangeEvent → Type 0
IsGrounded v e = (v ≢ none) ⊎ (e.op ≡ upsert)

step-IsGrounded :
    (t i : JsString) (v : Option RowView) (a e : ChangeEvent)
    → IsGrounded v e
    → IsGrounded (step t i v a) e
unfolding step view_after
step-IsGrounded t i none a e h = elim h [ inl n ↦ absurd (n refl) | inr u ↦ inr u ]
step-IsGrounded t i (some r) a e h = inl (λ k. ground arith)

taken_same :
    (content : Content) (a b : ChangeEvent)
    → Tells content a
    → Tells content b
    → a.table ≡ b.table
    → a.id ≡ b.id
    → a.version ≡ b.version
    → taken a ≡ taken b
unfolding taken
taken_same content a b ha hb t i v = cc

-- The order of a change over a held row, seen from a third version.
module _ (a b : ChangeEvent) (same : a.version ≡ b.version → taken a ≡ taken b) where
  some_commutes :
      (r : RowView) → view_after (view_after (some r) a) b ≡ view_after (view_after (some r) b) a
  unfolding view_after adopts_over taken
  some_commutes r = ground (
    arith,
    compare_hlc-flip a.version b.version,
    compare_hlc-flip a.version r.version,
    compare_hlc-flip b.version r.version,
    compare_hlc-eq_iff a.version b.version,
    compare_hlc-eq_iff a.version r.version,
    compare_hlc-eq_iff b.version r.version,
    compare_hlc_trans a.version r.version b.version,
    compare_hlc_trans b.version r.version a.version,
  )

  none_commutes :
      a.op ≡ upsert
      → b.op ≡ upsert
      → view_after (view_after none a) b ≡ view_after (view_after none b) a
  unfolding view_after adopts_over taken
  none_commutes ha hb =
      ground (arith, compare_hlc-flip a.version b.version, compare_hlc-eq_iff a.version b.version)

view_commutes :
    (a b : ChangeEvent) (v : Option RowView)
    → (a.version ≡ b.version → taken a ≡ taken b)
    → IsGrounded v a
    → IsGrounded v b
    → view_after (view_after v a) b ≡ view_after (view_after v b) a
view_commutes a b (some r) same ga gb = some_commutes a b same r
view_commutes a b none same (inl n) gb = absurd (n refl)
view_commutes a b none same (inr u) (inl n) = absurd (n refl)
view_commutes a b none same (inr u) (inr w) = none_commutes a b same u w

step_commutes :
    (content : Content) (t i : JsString) (v : Option RowView) (a b : ChangeEvent)
    → Tells content a × Tells content b
    → IsGrounded v a × IsGrounded v b
    → step t i (step t i v a) b ≡ step t i (step t i v b) a
unfolding step
step_commutes content t i v a b (ca, cb) (ga, gb) =
    elim (Bool-cases (str_eq a.table t && str_eq a.id i)) [
      | inr p ↦ rw p refl
      | inl p ↦ elim (Bool-cases (str_eq b.table t && str_eq b.id i)) [
        | inr q ↦ rw (q, p) refl
        | inl q ↦
            rw (p, q)
              (view_commutes a b v
                (λ e.
                  taken_same content a b ca cb
                    (ground (arith, str_eq_iff a.table t, str_eq_iff b.table t))
                    (ground (arith, str_eq_iff a.id i, str_eq_iff b.id i)) e)
                ga gb)
      ]
    ]

All-perm {ℓ} :
    (P : ChangeEvent → Type ℓ) {xs ys : List ChangeEvent} → Permᴰ xs ys → All P xs → All P ys
All-perm P Permᴰ.nil h = h
All-perm P (Permᴰ.cons e p) h = (subst P e h.0, All-perm P p h.1)
All-perm P (Permᴰ.swap e f) h = (subst P f h.1.0, (subst P e h.0, h.1.1))
All-perm P (Permᴰ.trans p q) h = All-perm P q (All-perm P p h)

All-step :
    (t i : JsString) (v : Option RowView) (a : ChangeEvent) (es : List ChangeEvent)
    → All (IsGrounded v) es
    → All (IsGrounded (step t i v a)) es
All-step t i v a [] h = tt
All-step t i v a (e ∷ es) h = (step-IsGrounded t i v a e h.0, All-step t i v a es h.1)

pub deliver-perm :
    (content : Content) (t i : JsString) (v : Option RowView) {xs ys : List ChangeEvent}
    → Permᴰ xs ys
    → All (Tells content) xs
    → All (IsGrounded v) xs
    → deliver t i v xs ≡ deliver t i v ys
unfolding deliver
deliver-perm content t i v Permᴰ.nil c g = refl
deliver-perm content t i v (Permᴰ.cons {a = a} {l₁ = xs} {l₂ = ys} e p) c g =
    deliver-perm content t i (step t i v a) p c.1 (All-step t i v a xs g.1)
    ∙ ap (λ x. deliver t i (step t i v x) ys) e
deliver-perm content t i v (Permᴰ.swap {a = a} {b = b} {l = l} e f) c g =
    ap (λ w. deliver t i w l) (step_commutes content t i v a b (c.0, c.1.0) (g.0, g.1.0))
    ∙ ap₂ (λ x y. deliver t i (step t i (step t i v x) y) l) f e
deliver-perm content t i v (Permᴰ.trans p q) c g =
    deliver-perm content t i v p c g
    ∙ deliver-perm content t i v q (All-perm (Tells content) p c) (All-perm (IsGrounded v) p g)
