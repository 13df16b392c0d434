-- ===== src/Prelude/Strings.antt =====
-- JavaScript strings: sequences of UTF-16 code units, compared and ordered unit by unit.
use Prim.Native.Char.{code}
use Prim.Native.String.{String}
use Prim.Native.Nat.{ℕ}
use mathlib.Core.Path.{◌≡◌, refl}
use mathlib.Core.Logic.{◌↔◌}
use mathlib.Core.Bool.{Bool, true, false, not, ◌&&◌, ◌||◌}
use mathlib.Core.List.{List, [], ◌∷◌}
use native.Mathlib.Omega.{arith}
use zed_sync.Prelude.Tests.{◌==◌, ltb}

abbrev pub JsString : Type 0
JsString = List ℕ

-- The code units of an ASCII literal.
abbrev pub codes : String → JsString
codes String.[] = []
codes (String.◌∷◌ c s) = code c ∷ codes s

-- `a === b`
unfoldable pub str_eq : JsString → JsString → Bool
str_eq [] [] = true
str_eq (x ∷ a) (y ∷ b) = x == y && str_eq a b
str_eq _ _ = false

-- `a < b`
unfoldable pub str_lt : JsString → JsString → Bool
str_lt [] [] = false
str_lt [] (y ∷ b) = true
str_lt (x ∷ a) [] = false
str_lt (x ∷ a) (y ∷ b) = ltb x y || (x == y && str_lt a b)

pub str_eq_iff : (a b : JsString) → (str_eq a b ≡ true) ↔ (a ≡ b)
unfolding str_eq
str_eq_iff [] [] = (λ _. refl, λ _. refl)
str_eq_iff (x ∷ a) (y ∷ b) = ground (arith, str_eq_iff a b)
str_eq_iff [] (y ∷ b) = (λ h. cc, λ h. cc)
str_eq_iff (x ∷ a) [] = (λ h. cc, λ h. cc)

pub str_eq_refl : (a : JsString) → str_eq a a ≡ true
str_eq_refl a = (str_eq_iff a a).1 refl

pub str_lt_irrefl : (a : JsString) → str_lt a a ≡ false
unfolding str_lt
str_lt_irrefl [] = refl
str_lt_irrefl (x ∷ a) = ground (arith, str_lt_irrefl a)

pub str_lt_trans : (a b c : JsString) → str_lt a b ≡ true → str_lt b c ≡ true → str_lt a c ≡ true
unfolding str_lt
str_lt_trans [] [] c h k = cc
str_lt_trans [] (y ∷ b) [] h k = cc
str_lt_trans [] (y ∷ b) (z ∷ c) h k = refl
str_lt_trans (x ∷ a) [] c h k = cc
str_lt_trans (x ∷ a) (y ∷ b) [] h k = cc
str_lt_trans (x ∷ a) (y ∷ b) (z ∷ c) h k = ground (arith, str_lt_trans a b c)

-- Exactly one of `a < b`, `a === b`, `b < a` holds.
pub str_lt_flip : (a b : JsString) → str_eq a b ≡ false → str_lt b a ≡ not (str_lt a b)
unfolding str_lt str_eq
str_lt_flip [] [] h = cc
str_lt_flip [] (y ∷ b) h = refl
str_lt_flip (x ∷ a) [] h = refl
str_lt_flip (x ∷ a) (y ∷ b) h = ground (arith, str_lt_flip a b)
