-- ===== src/Merge/Idem.antt =====
-- Merging the same patch twice, as a retried optimistic write does, is merging it once.
use zed_sync.Prelude.{
  ℕ, ◌+◌, ◌⊎◌, inl, inr, Bool, true, false, ◌&&◌, ◌≡◌, refl, arith, if◌then◌else◌, leb, JsString,
  str_eq_iff, Bool-cases, &&-true,
}
use zed_sync.Json.{Value, Fields, object, end, field, get, has, is_undefined, set-get_self, unique}
use zed_sync.Merge.{max_depth, deep_merge, merge_fields, replace, is_plain_object}
use zed_sync.Merge.Frame.{skips, get-merge, has-merge}

-- No object within the value has a key twice.
unfoldable mutual
  unfolding unique

  pub well_formed : Value → Bool
  well_formed (object fs) = unique fs && well_formed_fields fs
  well_formed _ = true

  pub well_formed_fields : Fields → Bool
  well_formed_fields end = true
  well_formed_fields (field k v fs) = well_formed v && well_formed_fields fs

-- Each key of the patch is skipped, or merging its value again changes nothing.
Settled : Fields → Fields → ℕ → Type 0
Settled out end d = Unit
Settled out (field k v rest) d =
    ((skips k v ≡ true) ⊎ ((has k out ≡ true) × (deep_merge (get k out) v (d + 1) ≡ get k out)))
    × Settled out rest d

merge-Settled : (out patch : Fields) (d : ℕ) → Settled out patch d → merge_fields out patch d ≡ out
unfolding merge_fields Settled
merge-Settled out end d h = refl
merge-Settled out (field k v rest) d h = elim (Bool-cases (skips k v)) [
  | inl e ↦ rw e (merge-Settled out rest d h.1)
  | inr e ↦ elim (h.0) [
    | inl e' ↦ absurd (cc)
    | inr (a, b) ↦ rw (e, b, set-get_self k out a) (merge-Settled out rest d h.1)
  ]
]

-- The fields of `part` are fields of `whole`.
Within : Fields → Fields → Type 0
Within whole end = Unit
Within whole (field k v rest) = (get k whole ≡ v) × (has k whole ≡ true) × Within whole rest

Within-field :
    (whole part : Fields) (j : JsString) (w : Value)
    → has j part ≡ false
    → Within whole part
    → Within (field j w whole) part
unfolding Within get has
Within-field whole end j w a h = tt
Within-field whole (field k v rest) j w a h = (
  ground (arith, str_eq_iff j k, str_eq_iff k j),
  ground arith,
  Within-field whole rest j w (ground arith) h.2,
)

Within-self : (fs : Fields) → unique fs ≡ true → Within fs fs
unfolding Within unique get has
Within-self end h = tt
Within-self (field k v rest) h = (
  ground (arith, str_eq_iff k k),
  ground (arith, str_eq_iff k k),
  Within-field rest rest k v (ground arith) (Within-self rest (ground arith)),
)

replace_idem : (base patch : Value) → replace (replace base patch) patch ≡ replace base patch
unfolding replace is_undefined
replace_idem base patch = ground arith

settle_field :
    (k : JsString) (v : Value) (base whole : Fields) (d : ℕ)
    → unique whole ≡ true
    → get k whole ≡ v
    → deep_merge (deep_merge (get k base) v (d + 1)) v (d + 1) ≡ deep_merge (get k base) v (d + 1)
    → (skips k v ≡ true)
      ⊎ ((has k (merge_fields base whole d) ≡ true)
          × (deep_merge (get k (merge_fields base whole d)) v (d + 1)
              ≡ get k (merge_fields base whole d)))
settle_field k v base whole d u e ih = elim (Bool-cases (skips k v)) [
  | inl s ↦ inl s
  | inr s ↦ inr (ground (arith, has-merge k base whole d), rw (get-merge k base whole d u, e, s) ih)
]

-- A patch that is no plain object replaces the base, unless it is undefined.
deep_merge-replace :
    (patch base : Value) (d : ℕ)
    → is_plain_object patch ≡ false
    → deep_merge base patch d ≡ replace base patch
unfolding deep_merge is_plain_object
deep_merge-replace (object patch) base d h = cc
deep_merge-replace patch (object base) d h = refl
deep_merge-replace patch base d h = refl

replace_twice :
    (patch base : Value) (d : ℕ)
    → is_plain_object patch ≡ false
    → deep_merge (deep_merge base patch d) patch d ≡ deep_merge base patch d
replace_twice patch base d h =
    simp (deep_merge-replace patch base d h, deep_merge-replace patch (replace base patch) d h)
      (replace_idem base patch)

-- Two plain objects merge to the patch at the cap, and key by key below it.
deep_merge-object :
    (base patch : Fields) (d : ℕ)
    → deep_merge (object base) (object patch) d
      ≡ (if leb max_depth d then object patch else object (merge_fields base patch d))
unfolding deep_merge
deep_merge-object base patch d = refl

mutual
  unfolding deep_merge well_formed Settled Within replace is_undefined

  deep_merge_same : (v : Value) (d : ℕ) → well_formed v ≡ true → deep_merge v v d ≡ v
  deep_merge_same (object fs) d h =
      let (hu, hf) = &&-true (unique fs) (well_formed_fields fs) h in
      rw (merge-Settled fs fs d (settles_same fs fs d hf (Within-self fs hu))) (ground arith)
  deep_merge_same v d h = refl

  settles_same :
      (part whole : Fields) (d : ℕ)
      → well_formed_fields part ≡ true
      → Within whole part
      → Settled whole part d
  settles_same end whole d h w = tt
  settles_same (field k v rest) whole d h w =
      let (hv, hr) = &&-true (well_formed v) (well_formed_fields rest) h in
      (inr (w.1, rw w.0 (deep_merge_same v (d + 1) hv)), settles_same rest whole d hr w.2)

-- Where the patch replaces the base, it is merged into itself the second time.
twice_replaced :
    (patch base : Value) (d : ℕ)
    → well_formed patch ≡ true
    → deep_merge base patch d ≡ patch
    → deep_merge (deep_merge base patch d) patch d ≡ deep_merge base patch d
twice_replaced patch base d h e = rw e (deep_merge_same patch d h)

mutual
  unfolding deep_merge well_formed Settled Within is_plain_object replace is_undefined

  deep_merge_twice :
      (patch base : Value) (d : ℕ)
      → well_formed patch ≡ true
      → deep_merge (deep_merge base patch d) patch d ≡ deep_merge base patch d
  deep_merge_twice (object patch) (object base) d h = elim (Bool-cases (leb max_depth d)) [
    | inl e ↦ twice_replaced (object patch) (object base) d h (ground arith)
    | inr e ↦
        let (hu, hf) = &&-true (unique patch) (well_formed_fields patch) h in
        let s = settles patch patch base d hu hf (Within-self patch hu) in
        ground (arith, merge-Settled (merge_fields base patch d) patch d s)
  ]
  deep_merge_twice (object patch) base d h = deep_merge_same (object patch) d h
  deep_merge_twice patch base d h = replace_twice patch base d refl

  settles :
      (part whole base : Fields) (d : ℕ)
      → unique whole ≡ true
      → well_formed_fields part ≡ true
      → Within whole part
      → Settled (merge_fields base whole d) part d
  settles end whole base d u h w = tt
  settles (field k v rest) whole base d u h w =
      let (hv, hr) = &&-true (well_formed v) (well_formed_fields rest) h in
      (
        settle_field k v base whole d u w.0 (deep_merge_twice v (get k base) (d + 1) hv),
        settles rest whole base d u hr w.2,
      )

-- Merging a patch in which no object has a key twice a second time changes nothing, at every depth
-- and for every base.
pub deep_merge_idem :
    (base patch : Value) (d : ℕ)
    → well_formed patch ≡ true
    → deep_merge (deep_merge base patch d) patch d ≡ deep_merge base patch d
deep_merge_idem base patch d h = deep_merge_twice patch base d h
