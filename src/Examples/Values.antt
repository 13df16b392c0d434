-- ===== src/Examples/Values.antt =====
-- `deepMerge` at concrete inputs.
use zed_sync.Prelude.{codes, str_eq, ◌≡◌, refl}
use zed_sync.Json.{Fields, undefined, null, number, object, end, field, get, set, has, is_undefined}
use zed_sync.Merge.{polluting, replace, deep_merge}
use zed_sync.Merge.Idem.{well_formed, deep_merge_idem}

abbrev prefs : Fields
prefs = field (codes "dark") (number 1) (field (codes "size") (number 12) end)

abbrev base : Fields
base = field (codes "name") (number 5) (field (codes "prefs") (object prefs) end)

abbrev patch : Fields
patch = field (codes "prefs") (object (field (codes "size") (number 14) end)) (
    field (codes "__proto__") (number 9)
      (field (codes "name") undefined (field (codes "note") null end)))

-- Siblings are kept, `__proto__` and `undefined` are skipped, and `null` is written.
merge_test :
    deep_merge (object base) (object patch) 0
    ≡ object (
        field (codes "name") (number 5) (
          field
            (codes "prefs")
            (object (field (codes "dark") (number 1) (field (codes "size") (number 14) end)))
            (field (codes "note") null end)))
unfolding deep_merge polluting is_undefined replace get set str_eq
merge_test = refl

deep_merge_idem_example :
    deep_merge (deep_merge (object base) (object patch) 0) (object patch) 0
    ≡ deep_merge (object base) (object patch) 0
unfolding well_formed has str_eq
deep_merge_idem_example = deep_merge_idem (object base) (object patch) 0 refl
