-- ===== src/Radix.antt =====
-- `Number.prototype.toString(radix)` on naturals, which sdk/src/hlc.mjs (radix 16) and
-- sdk/src/client.mjs (radix 36) use.
pub mod RoundTrip
use zed_sync.Prelude.{ℕ, zero, suc, ◌+◌, ◌/◌, ◌%◌, ltb, if◌then◌else◌, [], ◌∷◌, JsString}

-- '0' to '9', then 'a' to 'z'.
unfoldable pub digit : ℕ → ℕ
digit d = if ltb d 10 then d + 48 else d + 87

-- The digits of `n` before `acc`; one round of fuel for each digit.
unfoldable pub radix_digits : ℕ → ℕ → ℕ → JsString → JsString
unfolding digit
radix_digits b zero n acc = acc
radix_digits b (suc fuel) n acc =
    let rest = radix_digits b fuel (n / b) (digit (n % b) ∷ acc) in
    if ltb n b then digit n ∷ acc else rest

-- A number has fewer digits than its successor counts.
unfoldable pub to_radix : ℕ → ℕ → JsString
unfolding radix_digits
to_radix b n = radix_digits b (n + 1) n []
