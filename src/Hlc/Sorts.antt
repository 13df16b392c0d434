-- ===== src/Hlc/Sorts.antt =====
-- `encodeHlc` of sdk/src/hlc.mjs sorts as the stamps do.
use zed_sync.Prelude.{
  ℕ, zero, suc, ◌+◌, ◌-◌, ◌*◌, ◌/◌, ◌%◌, ◌^◌, ◌<◌, ◌&&◌, ◌||◌, ltb, ◌==◌, if◌then◌else◌, length, [],
  ◌∷◌, ◌++◌, JsString, str_lt, ◌≡◌, refl, arith, sym, ◌∙◌,
}
use zed_sync.Radix.{digit, radix_digits, to_radix}
use zed_sync.Hlc.{Hlc}
use zed_sync.Hlc.Encode.{zeros, pad_start, encode_hlc}

-- `k` digits in radix 16, before `acc`.
unfoldable pub fixed_digits : ℕ → ℕ → JsString → JsString
fixed_digits zero n acc = acc
fixed_digits (suc k) n acc = fixed_digits k (n / 16) (digit (n % 16) ∷ acc)

zeros_inside : (k : ℕ) (s : JsString) → zeros k (48 ∷ s) ≡ 48 ∷ zeros k s
unfolding zeros
zeros_inside zero s = refl
zeros_inside (suc k) s = rw (zeros_inside k s)

fixed_digits_zero : (k : ℕ) (acc : JsString) → fixed_digits k 0 acc ≡ zeros k acc
unfolding fixed_digits zeros digit
fixed_digits_zero zero acc = refl
fixed_digits_zero (suc k) acc = fixed_digits_zero k (48 ∷ acc) ∙ zeros_inside k acc

-- How many digits are written.
digit_count : ℕ → ℕ → ℕ
digit_count zero n = 0
digit_count (suc fuel) n = let rest = digit_count fuel (n / 16) in if ltb n 16 then 1 else suc rest

length-radix_digits :
    (fuel n : ℕ) (acc : JsString)
    → length (radix_digits 16 fuel n acc) ≡ digit_count fuel n + length acc
unfolding radix_digits digit_count
length-radix_digits zero n acc = omega arith
length-radix_digits (suc fuel) n acc =
    ground (arith, length-radix_digits fuel (n / 16) (digit (n % 16) ∷ acc))

zeros-short :
    (k n : ℕ) (acc : JsString)
    → n < 16
    → zeros k (digit n ∷ acc) ≡ fixed_digits k (n / 16) (digit (n % 16) ∷ acc)
zeros-short k n acc h =
    let a : n / 16 ≡ 0 = omega arith in
    let b : n % 16 ≡ n = omega arith in rw (a, b) (sym (fixed_digits_zero k (digit n ∷ acc)))

power : (k : ℕ) → 16 ^ suc (suc k) ≡ 16 * 16 ^ suc k
power k = omega arith

zeros-radix_digits :
    (k fuel n : ℕ) (acc : JsString)
    → n < 16 ^ suc k
    → n < fuel
    → zeros (suc k - digit_count fuel n) (radix_digits 16 fuel n acc) ≡ fixed_digits (suc k) n acc
unfolding radix_digits fixed_digits digit_count zeros
zeros-radix_digits k zero n acc h f = absurd (omega arith)
zeros-radix_digits zero (suc fuel) n acc h f = ground (arith, zeros-short 0 n acc)
zeros-radix_digits (suc k) (suc fuel) n acc h f = ground (
  arith,
  zeros-short (suc k) n acc,
  zeros-radix_digits k fuel (n / 16) (digit (n % 16) ∷ acc),
  power k,
)

-- Padded to a width that fits, a number has that many digits.
pad_start-to_radix :
    (k n : ℕ) → n < 16 ^ suc k → pad_start (suc k) (to_radix 16 n) ≡ fixed_digits (suc k) n []
unfolding pad_start to_radix
pad_start-to_radix k n h =
    rw (length-radix_digits (n + 1) n []) (ground (arith, zeros-radix_digits k (n + 1) n []))

digit-le : (a b : ℕ) → a < 16 → b < 16 → ltb (digit a) (digit b) ≡ ltb a b
unfolding digit
digit-le a b h k = ground arith

digit-eq : (a b : ℕ) → a < 16 → b < 16 → (digit a == digit b) ≡ (a == b)
unfolding digit
digit-eq a b h k = ground arith

-- Numbers of one width compare as what follows them, if they are equal.
str_lt-fixed_digits :
    (k n m : ℕ) (x y : JsString)
    → n < 16 ^ k
    → m < 16 ^ k
    → str_lt (fixed_digits k n x) (fixed_digits k m y) ≡ (ltb n m || (n == m && str_lt x y))
unfolding fixed_digits str_lt
str_lt-fixed_digits zero n m x y h j = ground arith
str_lt-fixed_digits (suc k) n m x y h j = ground (
  arith,
  digit-le (n % 16) (m % 16),
  digit-eq (n % 16) (m % 16),
  str_lt-fixed_digits k (n / 16) (m / 16) (digit (n % 16) ∷ x) (digit (m % 16) ∷ y),
)

fixed_digits-append :
    (k n : ℕ) (x y : JsString) → fixed_digits k n x ++ y ≡ fixed_digits k n (x ++ y)
unfolding fixed_digits
fixed_digits-append zero n x y = refl
fixed_digits-append (suc k) n x y = fixed_digits-append k (n / 16) (digit (n % 16) ∷ x) y

-- A stamp that fits in its fields: 48 bits of milliseconds and 16 of the counter.
abbrev pub FitsEncoding : Hlc → Type 0
FitsEncoding h = (h.wall_ms < 2 ^ 48) × (h.counter < 2 ^ 16)

encode_hlc-fixed_digits :
    (h : Hlc)
    → FitsEncoding h
    → encode_hlc h ≡ fixed_digits 12 h.wall_ms (45 ∷ fixed_digits 4 h.counter [])
unfolding encode_hlc
encode_hlc-fixed_digits h (w, c) =
    let a : h.wall_ms % 2 ^ 48 ≡ h.wall_ms = omega arith in
    let b : h.counter % 2 ^ 16 ≡ h.counter = omega arith in
    rw (a, b, pad_start-to_radix 11 h.wall_ms w, pad_start-to_radix 3 h.counter c)
      (fixed_digits-append 12 h.wall_ms [] (45 ∷ fixed_digits 4 h.counter []))

-- The encodings of two stamps that fit compare as strings exactly as the stamps compare by wall time
-- and then by counter.
pub encode_hlc-str_lt :
    (a b : Hlc)
    → FitsEncoding a
    → FitsEncoding b
    → str_lt (encode_hlc a) (encode_hlc b)
      ≡ (ltb a.wall_ms b.wall_ms || (a.wall_ms == b.wall_ms && ltb a.counter b.counter))
unfolding str_lt
encode_hlc-str_lt a b f g =
    rw (encode_hlc-fixed_digits a f, encode_hlc-fixed_digits b g)
      (ground (
        arith,
        str_lt-fixed_digits 12 a.wall_ms b.wall_ms (45 ∷ fixed_digits 4 a.counter [])
            (45 ∷ fixed_digits 4 b.counter []),
        str_lt-fixed_digits 4 a.counter b.counter [] [],
      ))
