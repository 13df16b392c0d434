-- ===== src/Radix/RoundTrip.antt =====
-- Reading back what `toString(radix)` wrote, for the radices that it takes.
use zed_sync.Prelude.{
  ℕ, zero, suc, ◌+◌, ◌*◌, ◌-◌, ◌/◌, ◌%◌, ◌≤◌, ◌<◌, ltb, if◌then◌else◌, [], ◌∷◌, JsString, All, ◌≡◌,
  ◌≢◌, arith,
}
use zed_sync.Radix.{digit, radix_digits, to_radix}
use native.Mathlib.Nat.{div-add-mod}

-- The number that a digit stands for.
unfoldable pub digit_value : ℕ → ℕ
digit_value c = if ltb c 58 then c - 48 else c - 87

-- The number that a string of digits stands for, read after `acc`.
unfoldable pub read_digits : ℕ → ℕ → JsString → ℕ
unfolding digit_value
read_digits b acc [] = acc
read_digits b acc (c ∷ s) = read_digits b (acc * b + digit_value c) s

pub digit_value-digit : (d : ℕ) → d < 36 → digit_value (digit d) ≡ d
unfolding digit_value digit
digit_value-digit d h = ground arith

quotient_fits : (b n fuel : ℕ) → 2 ≤ b → b ≤ n → n < suc fuel → n / b < fuel
quotient_fits b n fuel h k f = grind arith

read_digits-radix_digits :
    (b fuel n : ℕ) (acc : JsString)
    → 2 ≤ b
    → b ≤ 36
    → n < fuel
    → read_digits b 0 (radix_digits b fuel n acc) ≡ read_digits b n acc
unfolding read_digits radix_digits
read_digits-radix_digits b zero n acc h k f = absurd (omega arith)
read_digits-radix_digits b (suc fuel) n acc h k f = ground (
  arith,
  digit_value-digit n,
  digit_value-digit (n % b),
  div-add-mod n b,
  quotient_fits b n fuel,
  read_digits-radix_digits b fuel (n / b) (digit (n % b) ∷ acc),
)

-- Reading the digits of a number gives the number.
pub read_digits-to_radix : (b n : ℕ) → 2 ≤ b → b ≤ 36 → read_digits b 0 (to_radix b n) ≡ n
unfolding to_radix read_digits
read_digits-to_radix b n h k = read_digits-radix_digits b (n + 1) n [] h k (omega arith)

-- A digit is no dash.
digit-ne_dash : (d : ℕ) → digit d ≢ 45
unfolding digit
digit-ne_dash d e = ground arith

All-radix_digits :
    (b fuel n : ℕ) (acc : JsString)
    → All (λ c. c ≢ 45) acc
    → All (λ c. c ≢ 45) (radix_digits b fuel n acc)
unfolding radix_digits
All-radix_digits b zero n acc h = h
All-radix_digits b (suc fuel) n acc h = ground (
  arith,
  digit-ne_dash n,
  All-radix_digits b fuel (n / b) (digit (n % b) ∷ acc) (digit-ne_dash (n % b), h),
)

pub All-to_radix : (b n : ℕ) → All (λ c. c ≢ 45) (to_radix b n)
unfolding to_radix
All-to_radix b n = All-radix_digits b (n + 1) n [] tt
