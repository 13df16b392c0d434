-- ===== src/Merge/Frame.antt =====
-- What `deepMerge` of sdk/src/merge.mjs writes under each key.
use zed_sync.Prelude.{
  ℕ, ◌+◌, Bool, true, false, not, ◌||◌, ◌≡◌, refl, arith, if◌then◌else◌, JsString, str_eq_iff,
}
use zed_sync.Json.{Value, Fields, end, field, get, set, has, is_undefined, get-set, has-set, unique}
use zed_sync.Merge.{polluting, deep_merge, merge_fields}

-- Whether the loop passes a key of the patch over.
abbrev pub skips : JsString → Value → Bool
skips k v = polluting k || is_undefined v

-- A key that the patch lacks keeps its value.
get-merge_absent :
    (k : JsString) (out patch : Fields) (d : ℕ)
    → has k patch ≡ false
    → get k (merge_fields out patch d) ≡ get k out
unfolding merge_fields has
get-merge_absent k out end d h = refl
get-merge_absent k out (field j v rest) d h =
    let w = deep_merge (get j out) v (d + 1) in
    let out' = if skips j v then out else set j w out in
    ground (arith, get-merge_absent k out' rest d, get-set j k w out)

skips_absent : (k : JsString) (fs : Fields) → has k fs ≡ false → skips k (get k fs) ≡ true
unfolding get is_undefined has
skips_absent k end h = ground arith
skips_absent k (field j v fs) h = ground (arith, skips_absent k fs)

-- The merged object under every key, for a patch without a key twice: a skipped key, or one that
-- the patch lacks, keeps the base's value; any other holds the merge, one level deeper, of the two
-- values.
pub get-merge :
    (k : JsString) (out patch : Fields) (d : ℕ)
    → unique patch ≡ true
    → get k (merge_fields out patch d)
      ≡ (if skips k (get k patch) then get k out else deep_merge (get k out) (get k patch) (d + 1))
unfolding merge_fields get has unique
get-merge k out end d h = ground (arith, skips_absent k end)
get-merge k out (field j v rest) d h =
    let w = deep_merge (get j out) v (d + 1) in
    let out' = if skips j v then out else set j w out in
    ground (
      arith,
      get-merge k out' rest d,
      get-merge_absent k out' rest d,
      skips_absent k rest,
      get-set j k w out,
      str_eq_iff j k,
    )

pub has-merge :
    (k : JsString) (out patch : Fields) (d : ℕ)
    → unique patch ≡ true
    → has k (merge_fields out patch d) ≡ (has k out || not (skips k (get k patch)))
unfolding merge_fields get has unique
has-merge k out end d h = ground (arith, skips_absent k end)
has-merge k out (field j v rest) d h =
    let w = deep_merge (get j out) v (d + 1) in
    let out' = if skips j v then out else set j w out in
    ground (arith, skips_absent k rest, has-merge k out' rest d, has-set j k w out, str_eq_iff j k)
