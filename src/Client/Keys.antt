-- ===== src/Client/Keys.antt =====
-- The write keys of sdk/src/client.mjs: `nextKey`, read back and told apart.
use zed_sync.Prelude.{
  ℕ, ◌+◌, ◌≤◌, ◌==◌, if◌then◌else◌, Option, some, none, [], ◌∷◌, ◌++◌, JsString, All, ◌≡◌, ◌≢◌,
  refl, arith, ap, sym,
}
use mathlib.Core.List.{append_assoc}
use zed_sync.Result.{ok}
use zed_sync.Json.{Value}
use zed_sync.Radix.{to_radix}
use zed_sync.Radix.RoundTrip.{read_digits, read_digits-to_radix, All-to_radix}
use zed_sync.Client.{Client, key_of}
use zed_sync.Client.Drafts.{Options, Draft, draft}

-- The parts before and after the last dash.
unfoldable pub split_last : JsString → Option (JsString × JsString)
split_last [] = none
split_last (c ∷ s) = elim (split_last s) [
  | some (p, q) ↦ some (c ∷ p, q)
  | none ↦ if c == 45 then some ([], s) else none
]

split_last-none : (s : JsString) → All (λ c. c ≢ 45) s → split_last s ≡ none
unfolding split_last
split_last-none [] h = refl
split_last-none (c ∷ s) h = ground (arith, split_last-none s h.1)

split_last-append : (p s : JsString) → All (λ c. c ≢ 45) s → split_last (p ++ 45 ∷ s) ≡ some (p, s)
unfolding split_last
split_last-append [] s h = ground (arith, split_last-none s h)
split_last-append (c ∷ p) s h = ground (arith, split_last-append p s h)

-- A key taken apart: the actor, the time and the counter.
unfoldable pub read_front : Option (JsString × JsString) → JsString → Option (JsString × ℕ × ℕ)
read_front none counter = none
read_front (some (actor, now)) counter =
    some (actor, read_digits 36 0 now, read_digits 36 0 counter)

unfoldable pub read_back : Option (JsString × JsString) → Option (JsString × ℕ × ℕ)
unfolding read_front
read_back none = none
read_back (some (front, counter)) = read_front (split_last front) counter

unfoldable pub read_key : JsString → Option (JsString × ℕ × ℕ)
unfolding read_back
read_key key = read_back (split_last key)

-- A write key gives back the actor, the time and the counter that it was made of, also if the actor
-- has dashes of its own. So keys of different parts are different.
pub read_key-key_of :
    (actor : JsString) (now seq : ℕ) → read_key (key_of actor now seq) ≡ some (actor, now, seq)
unfolding read_key key_of
read_key-key_of actor now seq =
    rw
      (
        sym (append_assoc actor (45 ∷ to_radix 36 now) (45 ∷ to_radix 36 seq)),
        split_last-append (actor ++ 45 ∷ to_radix 36 now) (to_radix 36 seq) (All-to_radix 36 seq),
        read_back,
        split_last-append actor (to_radix 36 now) (All-to_radix 36 now),
        read_front,
        read_digits-to_radix 36 now (omega arith) (omega arith),
        read_digits-to_radix 36 seq (omega arith) (omega arith),
      )
      refl

draft-key :
    (t i : JsString) (v : Value) (o : Options) (c c' : Client) (d : Draft)
    → draft t i v o c ≡ (ok d, c')
    → (d.key ≡ key_of c.actor c.now c.key_seq) × (c'.key_seq ≡ c.key_seq + 1)
unfolding draft
draft-key t i v o c c' d h = ground arith

-- Two writes that draw their keys one after the other, the counter not going back in between, have
-- different keys, whatever their tables, rows and options are and whatever the clock reads.
pub drafts_have_different_keys :
    (t i u j : JsString) (v w : Value) (o p : Options) (c c' e e' : Client) (d f : Draft)
    → draft t i v o c ≡ (ok d, c')
    → c'.key_seq ≤ e.key_seq
    → draft u j w p e ≡ (ok f, e')
    → d.key ≢ f.key
drafts_have_different_keys t i u j v w o p c c' e e' d f h le k same =
    let (a, n) = draft-key t i v o c c' d h in
    let (b, m) = draft-key u j w p e e' f k in
    ground (
      arith,
      read_key-key_of c.actor c.now c.key_seq,
      read_key-key_of e.actor e.now e.key_seq,
      ap read_key same,
    )
