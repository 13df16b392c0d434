-- ===== src/Hlc/Order.antt =====
-- `compareHlc` of sdk/src/hlc.mjs is a strict total order.
use zed_sync.Prelude.{
  Ordering, ◌≡◌, ◌↔◌, refl, str_eq_iff, str_lt_irrefl, str_lt_trans, str_lt_flip, arith,
}
use zed_sync.Hlc.{Hlc, compare_hlc}

-- The outcome with the arguments exchanged.
abbrev pub flip : Ordering → Ordering
flip Ordering.lt = Ordering.gt
flip Ordering.eq = Ordering.eq
flip Ordering.gt = Ordering.lt

-- `compareHlc` answers 0 exactly on equal stamps.
pub compare_hlc-eq_iff : (a b : Hlc) → (compare_hlc a b ≡ Ordering.eq) ↔ (a ≡ b)
unfolding compare_hlc
compare_hlc-eq_iff a b = (
  λ h. ground (arith, str_eq_iff a.actor b.actor),
  λ e. ground (arith, str_eq_iff a.actor b.actor),
)

pub compare_hlc_refl : (a : Hlc) → compare_hlc a a ≡ Ordering.eq
compare_hlc_refl a = (compare_hlc-eq_iff a a).1 refl

-- Exchanging the arguments turns the answer round.
pub compare_hlc-flip : (a b : Hlc) → compare_hlc b a ≡ flip (compare_hlc a b)
unfolding compare_hlc
compare_hlc-flip a b =
    ground
      (arith, str_lt_flip a.actor b.actor, str_eq_iff a.actor b.actor, str_eq_iff b.actor a.actor)

-- Older than is transitive.
pub compare_hlc_trans :
    (a b c : Hlc)
    → compare_hlc a b ≡ Ordering.lt
    → compare_hlc b c ≡ Ordering.lt
    → compare_hlc a c ≡ Ordering.lt
unfolding compare_hlc
compare_hlc_trans a b c h k = ground (
  arith,
  str_lt_irrefl a.actor,
  str_lt_trans a.actor b.actor c.actor,
  str_eq_iff a.actor b.actor,
  str_eq_iff b.actor c.actor,
  str_eq_iff a.actor c.actor,
)
