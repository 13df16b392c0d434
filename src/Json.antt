-- ===== src/Json.antt =====
-- The JavaScript values that rows hold. `object` is a plain object (its prototype is
-- `Object.prototype` or null) with its own keys in order of insertion; `foreign` stands for any
-- other object (a Date, a class instance, a function), known by its identity only.
use zed_sync.Prelude.{
  ℕ, Bool, true, false, not, ◌&&◌, ◌||◌, ◌==◌, ◌≡◌, refl, arith, codes, JsString, str_eq,
  str_eq_iff, if◌then◌else◌,
}

mutual
  pub data Value : Type 0 where
    undefined : Value
    null : Value
    boolean : Bool → Value
    number : ℕ → Value
    string : JsString → Value
    array : Items → Value
    object : Fields → Value
    foreign : ℕ → Value

  pub data Items : Type 0 where
    nil : Items
    cons : Value → Items → Items

  pub data Fields : Type 0 where
    end : Fields
    field : JsString → Value → Fields → Fields

-- Whether a value counts as true in a condition.
unfoldable pub truthy : Value → Bool
truthy undefined = false
truthy null = false
truthy (boolean b) = b
truthy (number n) = not (n == 0)
truthy (string s) = not (str_eq s (codes ""))
truthy _ = true

-- Whether there is no `foreign` in a value, at any depth.
unfoldable mutual
  pub is_plain : Value → Bool
  is_plain (array xs) = are_plain xs
  is_plain (object fs) = has_plain fs
  is_plain (foreign n) = false
  is_plain _ = true

  pub are_plain : Items → Bool
  are_plain nil = true
  are_plain (cons v xs) = is_plain v && are_plain xs

  pub has_plain : Fields → Bool
  has_plain end = true
  has_plain (field k v fs) = is_plain v && has_plain fs

-- `o[key]`, `undefined` on a missing key.
unfoldable pub get : JsString → Fields → Value
get k end = undefined
get k (field j v fs) = if str_eq j k then v else get k fs

-- `o[key] = v`: an own key keeps its place, a new one is appended.
unfoldable pub set : JsString → Value → Fields → Fields
set k v end = field k v end
set k v (field j w fs) = if str_eq j k then field j v fs else field j w (set k v fs)

-- `Object.keys(o).includes(key)`
unfoldable pub has : JsString → Fields → Bool
has k end = false
has k (field j v fs) = str_eq j k || has k fs

-- No key twice, as in every JavaScript object.
unfoldable pub unique : Fields → Bool
unique end = true
unique (field k v fs) = not (has k fs) && unique fs

-- `o === undefined`
unfoldable pub is_undefined : Value → Bool
is_undefined undefined = true
is_undefined _ = false

pub get-set :
    (k j : JsString) (v : Value) (fs : Fields)
    → get j (set k v fs) ≡ (if str_eq k j then v else get j fs)
unfolding get set
get-set k j v end = refl
get-set k j v (field i w fs) =
    ground (arith, str_eq_iff k j, str_eq_iff i k, str_eq_iff i j, get-set k j v fs)

-- Writing back what is there changes nothing.
pub set-get_self : (k : JsString) (fs : Fields) → has k fs ≡ true → set k (get k fs) fs ≡ fs
unfolding get set has
set-get_self k end h = cc
set-get_self k (field j v fs) h = ground (arith, set-get_self k fs)

pub has-set :
    (k j : JsString) (v : Value) (fs : Fields) → has j (set k v fs) ≡ (str_eq k j || has j fs)
unfolding has set
has-set k j v end = ground arith
has-set k j v (field i w fs) =
    ground (arith, str_eq_iff k j, str_eq_iff i k, str_eq_iff i j, has-set k j v fs)

pub get_absent : (k : JsString) (fs : Fields) → has k fs ≡ false → get k fs ≡ undefined
unfolding get has
get_absent k end h = refl
get_absent k (field j v fs) h = ground (arith, get_absent k fs)
