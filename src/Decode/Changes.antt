-- ===== src/Decode/Changes.antt =====
-- What `decodeSupabaseChange` of sdk/src/transports/decode.mjs makes of a payload, told of the
-- payload's own keys.
use zed_sync.Prelude.{
  ℕ, true, false, if◌then◌else◌, Option, none, some, JsString, codes, str_eq_iff, ◌≡◌, ◌≢◌, ◌⊎◌,
  ◌∙◌, sym, subst, ◌↔◌, ap, refl, arith,
}
use zed_sync.Json.{Value, Fields, undefined, null, string, number, object, get, truthy}
use zed_sync.Core.{upsert, delete}
use zed_sync.Decode.{
  WireHlc, Decoded, or_default, member, to_hlc, hlc_at, is_nullish, is_string, is_delete, record_of,
  change_time, decoded, decode_supabase_change,
}

-- Neither `undefined` nor `null`.
abbrev pub IsPresent : Value → Type 0
IsPresent v = (v ≢ undefined) × (v ≢ null)

-- `r` is `v`, or `d` where `v` is absent.
abbrev pub IsDefaulted : Value → Value → Value → Type 0
IsDefaulted v d r = (IsPresent v × (r ≡ v)) ⊎ (((v ≡ undefined) ⊎ (v ≡ null)) × (r ≡ d))

-- `at` is the date that `v` stands for, or `now` where there is none or it is 0.
abbrev pub IsTime : (Value → Option ℕ) → ℕ → Value → ℕ → Type 0
IsTime parse_date now v at =
    ((parse_date v ≡ some at) × (at ≢ 0))
    ⊎ (((parse_date v ≡ none) ⊎ (parse_date v ≡ some 0)) × (at ≡ now))

-- The value is an object with a numeric `wall_ms`, and `h` is the stamp that its keys give.
pub record IsStamp (to_string : Value → JsString) (v : Value) (h : WireHlc) : Type 0 where
  pub keys : Fields
  pub actor : Value
  pub is_object : v ≡ object keys
  pub wall_ms_is : get (codes "wall_ms") keys ≡ number h.wall_ms
  pub counter_is : IsDefaulted (get (codes "counter") keys) (number 0) h.counter
  pub actor_is : IsDefaulted (get (codes "actor") keys) (string (codes "srv")) actor
  pub actor_text : h.actor ≡ to_string actor

-- The change of a delete or of an upsert, whose row is the payload's `old` or `new`.
abbrev pub IsAbout : Fields → Fields → Decoded → Type 0
IsAbout payload row e =
    ((get (codes "eventType") payload ≡ string (codes "DELETE"))
      × (get (codes "old") payload ≡ object row)
      × (e.op ≡ delete)
      × (e.row ≡ null))
    ⊎ ((get (codes "eventType") payload ≢ string (codes "DELETE"))
        × (get (codes "new") payload ≡ object row)
        × (e.op ≡ upsert)
        × (e.row ≡ object row))

-- The payload is an object that names a table and holds a row with an id and a stamp, and `e` is
-- what its keys say.
pub record Describes (to_string : Value → JsString) (parse_date : Value → Option ℕ) (now : ℕ)
    (v : Value) (e : Decoded) : Type 0 where
  pub payload : Fields
  pub row : Fields
  pub updated_at : Value
  pub is_object : v ≡ object payload
  pub named : truthy (get (codes "table") payload) ≡ true
  pub table_is : e.table ≡ get (codes "table") payload
  pub about : IsAbout payload row e
  pub has_id : IsPresent (get (codes "id") row)
  pub id_is : e.id ≡ to_string (get (codes "id") row)
  pub version_is : IsStamp to_string (get (codes "sync_version") row) e.version
  pub updated_is : IsDefaulted (get (codes "updated_at") row) (string (codes "")) updated_at
  pub at_is : IsTime parse_date now updated_at e.at_ms
  pub write_key_is : IsDefaulted (get (codes "write_key") row) undefined e.write_key

or_default-IsDefaulted : (v d : Value) → IsDefaulted v d (or_default v d)
unfolding or_default
or_default-IsDefaulted v d = ground arith

IsDefaulted-or_default : (v d r : Value) → IsDefaulted v d r → r ≡ or_default v d
unfolding or_default
IsDefaulted-or_default v d r h = ground arith

is_nullish-IsPresent : (v : Value) → is_nullish v ≡ false → IsPresent v
unfolding is_nullish
is_nullish-IsPresent v h = ground arith

IsPresent-is_nullish : (v : Value) → IsPresent v → is_nullish v ≡ false
unfolding is_nullish
IsPresent-is_nullish v h = ground arith

truthy-IsPresent : (v : Value) → truthy v ≡ true → IsPresent v
unfolding truthy
truthy-IsPresent v h = ground arith

-- Only an object has a key that is present.
member_present :
    (k : JsString) (v : Value) → IsPresent (member k v) → (fs : Fields) × (v ≡ object fs)
unfolding member
member_present k (object fs) h = (fs, refl)
member_present k undefined h = absurd (h.0 refl)
member_present k null h = absurd (h.0 refl)
member_present k (Value.boolean b) h = absurd (h.0 refl)
member_present k (number n) h = absurd (h.0 refl)
member_present k (string s) h = absurd (h.0 refl)
member_present k (Value.array xs) h = absurd (h.0 refl)
member_present k (Value.foreign n) h = absurd (h.0 refl)

is_string_iff : (v : Value) (s : JsString) → (is_string v s ≡ true) ↔ (v ≡ string s)
unfolding is_string
is_string_iff (string t) s = ground (arith, str_eq_iff t s)
is_string_iff undefined s = ground arith
is_string_iff null s = ground arith
is_string_iff (Value.boolean b) s = ground arith
is_string_iff (number n) s = ground arith
is_string_iff (Value.array xs) s = ground arith
is_string_iff (object fs) s = ground arith
is_string_iff (Value.foreign n) s = ground arith

is_delete_iff :
    (fs : Fields)
    → (is_delete (object fs) ≡ true) ↔ (get (codes "eventType") fs ≡ string (codes "DELETE"))
unfolding is_delete member
is_delete_iff fs = is_string_iff (get (codes "eventType") fs) (codes "DELETE")

module _ (to_string : Value → JsString) where
  hlc_at-number :
      (v w : Value) (h : WireHlc)
      → hlc_at to_string v w ≡ some h
      → (w ≡ number h.wall_ms)
        × (h.counter ≡ or_default (member (codes "counter") v) (number 0))
        × (h.actor ≡ to_string (or_default (member (codes "actor") v) (string (codes "srv"))))
  unfolding hlc_at
  hlc_at-number v w h e = ground arith

  IsStamp-of_object :
      (v : Value) (fs : Fields) (h : WireHlc)
      → v ≡ object fs
      → (member (codes "wall_ms") v ≡ number h.wall_ms)
      → (h.counter ≡ or_default (member (codes "counter") v) (number 0))
      → (h.actor ≡ to_string (or_default (member (codes "actor") v) (string (codes "srv"))))
      → IsStamp to_string v h
  unfolding member
  IsStamp-of_object v fs h o w c a =
      let counter = get (codes "counter") fs in
      let actor = get (codes "actor") fs in
      record {
        keys = fs;
        actor = or_default actor (string (codes "srv"));
        is_object = o;
        wall_ms_is = ap (member (codes "wall_ms")) (sym o) ∙ w;
        counter_is = rw (c, o) (or_default-IsDefaulted counter (number 0));
        actor_is = or_default-IsDefaulted actor (string (codes "srv"));
        actor_text =
            a
            ∙ ap (λ x. to_string (or_default (member (codes "actor") x) (string (codes "srv")))) o;
      }

  to_hlc-IsStamp : (v : Value) (h : WireHlc) → to_hlc to_string v ≡ some h → IsStamp to_string v h
  unfolding to_hlc
  to_hlc-IsStamp v h e =
      let (w, c, a) = hlc_at-number v (member (codes "wall_ms") v) h e in
      let (fs, o) = member_present (codes "wall_ms") v (ground (arith, w)) in
      IsStamp-of_object v fs h o w c a

  hlc_at_object :
      (fs : Fields) (h : WireHlc)
      → get (codes "wall_ms") fs ≡ number h.wall_ms
      → (h.counter ≡ or_default (get (codes "counter") fs) (number 0))
      → (h.actor ≡ to_string (or_default (get (codes "actor") fs) (string (codes "srv"))))
      → to_hlc to_string (object fs) ≡ some h
  unfolding to_hlc hlc_at member
  hlc_at_object fs h w c a =
      rw w (ap some (λ i. record { wall_ms = h.wall_ms; counter = sym c i; actor = sym a i }))

  IsStamp-to_hlc : (v : Value) (h : WireHlc) → IsStamp to_string v h → to_hlc to_string v ≡ some h
  IsStamp-to_hlc v h s =
      let counter = get (codes "counter") s.keys in
      let actor = get (codes "actor") s.keys in
      let c = IsDefaulted-or_default counter (number 0) h.counter s.counter_is in
      let a = IsDefaulted-or_default actor (string (codes "srv")) s.actor s.actor_is in
      ap (to_hlc to_string) s.is_object
      ∙ hlc_at_object s.keys h s.wall_ms_is c (s.actor_text ∙ ap to_string a)

  module _ (parse_date : Value → Option ℕ) where
    change_time-IsTime :
        (v : Value) (now : ℕ)
        → IsTime parse_date now
            (or_default v (string (codes "")))
            (change_time to_string parse_date v now)
    unfolding change_time
    change_time-IsTime v now = ground arith

    IsTime-change_time :
        (v : Value) (now at : ℕ)
        → IsTime parse_date now (or_default v (string (codes ""))) at
        → at ≡ change_time to_string parse_date v now
    unfolding change_time
    IsTime-change_time v now at h = ground arith

    change_time-of :
        (now : ℕ) (e : Decoded) (a : Value) (r : Fields)
        → IsDefaulted (get (codes "updated_at") r) (string (codes "")) a
        → IsTime parse_date now a e.at_ms
        → e.at_ms ≡ change_time to_string parse_date (get (codes "updated_at") r) now
    change_time-of now e a r d t =
        let updated = get (codes "updated_at") r in
        IsTime-change_time updated now e.at_ms (
          subst (λ x. IsTime parse_date now x e.at_ms)
            (IsDefaulted-or_default updated (string (codes "")) a d) t)

    record_of-IsAbout :
        (p r : Fields) (now : ℕ) (h : WireHlc)
        → record_of (object p) ≡ object r
        → IsAbout p r (decoded to_string parse_date (object p) now h)
    unfolding record_of decoded member
    record_of-IsAbout p r now h e = ground (arith, is_delete_iff p)

    IsAbout-record_of :
        (p r : Fields) (e : Decoded)
        → IsAbout p r e
        → (record_of (object p) ≡ object r)
          × (e.op ≡ (if is_delete (object p) then delete else upsert))
          × (e.row ≡ (if is_delete (object p) then null else record_of (object p)))
    unfolding record_of member
    IsAbout-record_of p r e a = ground (arith, is_delete_iff p)

    accepted :
        (payload : Value) (now : ℕ) (e : Decoded)
        → decode_supabase_change to_string parse_date payload now ≡ some e
        → (truthy (member (codes "table") payload) ≡ true)
          × (is_nullish (member (codes "id") (record_of payload)) ≡ false)
          × (h : WireHlc) × (to_hlc to_string (member (codes "sync_version") (record_of payload))
              ≡ some h)
          × (e ≡ decoded to_string parse_date payload now h)
    unfolding decode_supabase_change
    accepted payload now e d = ground arith

    Decoded_eq :
        (d e : Decoded)
        → d.table ≡ e.table
        → d.op ≡ e.op
        → d.id ≡ e.id
        → d.version ≡ e.version
        → d.row ≡ e.row
        → d.at_ms ≡ e.at_ms
        → d.write_key ≡ e.write_key
        → d ≡ e
    Decoded_eq d e a b c f g h k = λ i. record {
      table = a i;
      op = b i;
      id = c i;
      version = f i;
      row = g i;
      at_ms = h i;
      write_key = k i;
    }

    Describes-decoded :
        (p r : Fields) (now : ℕ) (h : WireHlc)
        → record_of (object p) ≡ object r
        → truthy (get (codes "table") p) ≡ true
        → is_nullish (get (codes "id") r) ≡ false
        → to_hlc to_string (get (codes "sync_version") r) ≡ some h
        → Describes to_string parse_date now
            (object p)
            (decoded to_string parse_date (object p) now h)
    unfolding decoded member
    Describes-decoded p r now h q t n v = record {
      payload = p;
      row = r;
      updated_at = or_default (get (codes "updated_at") r) (string (codes ""));
      is_object = refl;
      named = t;
      table_is = refl;
      about = record_of-IsAbout p r now h q;
      has_id = is_nullish-IsPresent (get (codes "id") r) n;
      id_is = ap (λ x. to_string (member (codes "id") x)) q;
      version_is = to_hlc-IsStamp (get (codes "sync_version") r) h v;
      updated_is = or_default-IsDefaulted (get (codes "updated_at") r) (string (codes ""));
      at_is = rw q (change_time-IsTime (get (codes "updated_at") r) now);
      write_key_is = rw q (or_default-IsDefaulted (get (codes "write_key") r) undefined);
    }

    decode-Describes :
        (v : Value) (now : ℕ) (e : Decoded)
        → decode_supabase_change to_string parse_date v now ≡ some e
        → Describes to_string parse_date now v e
    unfolding get member
    decode-Describes v now e d =
        let (t, n, h, s, q) = accepted v now e d in
        let row = record_of v in
        let (p, o) =
          member_present (codes "table") v (truthy-IsPresent (member (codes "table") v) t) in
        let (r, k) =
          member_present (codes "id") row (is_nullish-IsPresent (member (codes "id") row) n) in
        let k' = ap record_of (sym o) ∙ k in
        let t' = ap (λ x. truthy (member (codes "table") x)) (sym o) ∙ t in
        let n' = ap (λ x. is_nullish (member (codes "id") x)) (sym k) ∙ n in
        let s' = ap (λ x. to_hlc to_string (member (codes "sync_version") x)) (sym k) ∙ s in
        subst (λ y. Describes to_string parse_date now v y) (sym q)
          (subst (λ x. Describes to_string parse_date now x (decoded to_string parse_date x now h))
            (sym o) (Describes-decoded p r now h k' t' n' s'))

    decode_object :
        (p r : Fields) (now : ℕ) (h : WireHlc)
        → record_of (object p) ≡ object r
        → truthy (get (codes "table") p) ≡ true
        → is_nullish (get (codes "id") r) ≡ false
        → to_hlc to_string (get (codes "sync_version") r) ≡ some h
        → decode_supabase_change to_string parse_date (object p) now
          ≡ some (decoded to_string parse_date (object p) now h)
    unfolding decode_supabase_change member truthy
    decode_object p r now h q t n s = ground (arith, q, t, n, s)

    Describes-fields :
        (v : Value) (now : ℕ) (e : Decoded)
        → (d : Describes to_string parse_date now v e)
        → decoded to_string parse_date (object d.payload) now e.version ≡ e
    unfolding decoded member
    Describes-fields v now e d =
        let (q, op, row) = IsAbout-record_of d.payload d.row e d.about in
        let at = change_time-of now e d.updated_at d.row d.updated_is d.at_is in
        let key =
          IsDefaulted-or_default (get (codes "write_key") d.row) undefined e.write_key
            d.write_key_is in
        Decoded_eq (decoded to_string parse_date (object d.payload) now e.version) e
          (sym d.table_is) (sym op) (ap (λ x. to_string (member (codes "id") x)) q ∙ sym d.id_is)
          refl (sym row)
          (ap (λ x. change_time to_string parse_date (member (codes "updated_at") x) now) q
            ∙ sym at)
          (ap (λ x. or_default (member (codes "write_key") x) undefined) q ∙ sym key)

    Describes-decode :
        (v : Value) (now : ℕ) (e : Decoded)
        → Describes to_string parse_date now v e
        → decode_supabase_change to_string parse_date v now ≡ some e
    Describes-decode v now e d =
        let (q, op, row) = IsAbout-record_of d.payload d.row e d.about in
        let n = IsPresent-is_nullish (get (codes "id") d.row) d.has_id in
        let s = IsStamp-to_hlc (get (codes "sync_version") d.row) e.version d.version_is in
        ap (λ x. decode_supabase_change to_string parse_date x now) d.is_object
        ∙ decode_object d.payload d.row now e.version q d.named n s
        ∙ ap some (Describes-fields v now e d)

    -- A realtime payload becomes a change exactly if the payload's keys describe that change: it is
    -- an object that names a table, with a row (`old` of a delete, else `new`) that has an id and a
    -- stamp with a numeric `wall_ms`; and the change has that table, that operation, that id, the
    -- stamp with the counter 0 and the actor "srv" where they are absent, the row or none if it is a
    -- delete, the date of `updated_at` or else now, and the row's write key.
    pub decode_supabase_change_iff :
        (payload : Value) (now : ℕ) (e : Decoded)
        → (decode_supabase_change to_string parse_date payload now ≡ some e)
          ↔ Describes to_string parse_date now payload e
    decode_supabase_change_iff payload now e =
        (decode-Describes payload now e, Describes-decode payload now e)
