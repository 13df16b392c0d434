-- ===== src/Dict.antt =====
-- A JavaScript `Map` with string keys. The program never iterates over one, so the order of the
-- entries is not modelled.
use zed_sync.Prelude.{
  Option, none, some, List, [], ◌∷◌, JsString, str_eq, str_eq_iff, str_eq_refl, if◌then◌else◌, ◌≡◌,
  refl, arith,
}

abbrev pub Dict {ℓ} : Type ℓ → Type ℓ
Dict V = List (JsString × V)

module _ {ℓ} {V : Type ℓ} where
  -- `map.get(key)`
  unfoldable pub lookup : JsString → Dict V → Option V
  lookup k [] = none
  lookup k ((j, v) ∷ m) = if str_eq j k then some v else lookup k m

  -- `map.set(key, value)`
  unfoldable pub insert : JsString → V → Dict V → Dict V
  insert k v [] = (k, v) ∷ []
  insert k v ((j, w) ∷ m) = if str_eq j k then (k, v) ∷ m else (j, w) ∷ insert k v m

  pub lookup-insert :
      (k j : JsString) (v : V) (m : Dict V)
      → lookup j (insert k v m) ≡ (if str_eq k j then some v else lookup j m)
  unfolding lookup insert
  lookup-insert k j v [] = refl
  lookup-insert k j v ((i, w) ∷ m) =
      ground (arith, str_eq_iff k j, str_eq_iff i k, str_eq_iff i j, lookup-insert k j v m)

  pub lookup-insert_self : (k : JsString) (v : V) (m : Dict V) → lookup k (insert k v m) ≡ some v
  lookup-insert_self k v m = rw (lookup-insert, str_eq_refl k)

pub lookup_empty {ℓ} : {V : Type ℓ} (k : JsString) → lookup {V = V} k [] ≡ none
unfolding lookup
lookup_empty k = refl
