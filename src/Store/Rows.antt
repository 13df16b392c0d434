-- ===== src/Store/Rows.antt =====
-- Rows of sdk/src/store.mjs are stored under `table`, U+0000, `id`.
use zed_sync.Prelude.{
  Bool, true, not, ◌&&◌, ◌==◌, if◌then◌else◌, some, [], ◌∷◌, JsString, str_eq, ◌≡◌, refl, arith,
}
use zed_sync.Json.{Value, null}
use zed_sync.Dict.{lookup-insert}
use zed_sync.Store.{Store, RowMeta, row_key, get_row, put_row, remove_row}

-- The string has no U+0000.
unfoldable pub no_nul : JsString → Bool
no_nul [] = true
no_nul (c ∷ s) = not (c == 0) && no_nul s

-- Table names without U+0000 keep the keys of two rows apart, whatever the ids are.
row_key_injective :
    (t u i j : JsString)
    → no_nul t ≡ true
    → no_nul u ≡ true
    → str_eq (row_key t i) (row_key u j) ≡ (str_eq t u && str_eq i j)
unfolding no_nul str_eq
row_key_injective [] [] i j h k = refl
row_key_injective [] (y ∷ u) i j h k = ground arith
row_key_injective (x ∷ t) [] i j h k = ground arith
row_key_injective (x ∷ t) (y ∷ u) i j h k = ground (arith, row_key_injective t u i j)

module _ (s : Store) (t i u j : JsString) (m : RowMeta) (ht : no_nul t ≡ true)
    (hu : no_nul u ≡ true) where
  -- With no U+0000 in the table names, a stored row is read back under its table and id, and no
  -- other row changes.
  pub get_row-put_row :
      (v : Value)
      → get_row (put_row s t i v m) u j
        ≡ (if str_eq t u && str_eq i j then some (record { row = v; meta = m }) else get_row s u j)
  unfolding get_row put_row
  get_row-put_row v = rw (lookup-insert, row_key_injective t u i j ht hu)

  -- A removed row is read back as a tombstone that keeps its metadata.
  pub get_row-remove_row :
      get_row (remove_row s t i m) u j
      ≡ (if str_eq t u && str_eq i j then some (record { row = null; meta = m }) else get_row s u j)
  unfolding get_row remove_row
  get_row-remove_row = rw (lookup-insert, row_key_injective t u i j ht hu)
