-- ===== src/Merge.antt =====
-- sdk/src/merge.mjs: `deepMerge` of a partial write into the row held locally.
pub mod Frame
pub mod Idem
use zed_sync.Prelude.{
  ℕ, suc, ◌+◌, Bool, true, false, ◌&&◌, ◌||◌, leb, if◌then◌else◌, codes, JsString, str_eq,
}
use zed_sync.Json.{
  Value, Fields, undefined, null, boolean, number, string, array, object, foreign, end, field, get,
  set, is_undefined,
}

-- `POLLUTING_KEYS.has(key)`
unfoldable pub polluting : JsString → Bool
polluting k =
    str_eq k (codes "__proto__") || str_eq k (codes "constructor") || str_eq k (codes "prototype")

abbrev pub max_depth : ℕ
max_depth = 64

unfoldable pub is_plain_object : Value → Bool
is_plain_object (object fs) = true
is_plain_object _ = false

-- The value of the early return: `undefined` never replaces.
unfoldable pub replace : Value → Value → Value
unfolding is_undefined
replace base patch = if is_undefined patch then base else patch

unfoldable mutual
  -- `deepMerge(base, patch, depth)`. Where a side is no plain object or the depth is at the cap,
  -- the patch replaces the base.
  pub deep_merge : Value → Value → ℕ → Value
  deep_merge (object base) (object patch) depth =
      let merged = object (merge_fields base patch depth) in
      if leb max_depth depth then object patch else merged
  deep_merge base patch depth = replace base patch

  -- The loop over `Object.keys(patch)`, which writes to the copy `out` of the base.
  pub merge_fields : Fields → Fields → ℕ → Fields
  merge_fields out end depth = out
  merge_fields out (field key value rest) depth =
      let out' = set key (deep_merge (get key out) value (depth + 1)) out in
      merge_fields (if polluting key || is_undefined value then out else out') rest depth
