-- ===== src/Supabase/Registers.antt =====
-- What `startSupabase` of sdk/src/transports/supabase.mjs leaves with its client.
use mathlib.Core.List.{append-nil, append_assoc}
use zed_sync.Prelude.{ℕ, List, [], ◌∷◌, ◌++◌, map, JsString, ◌≡◌, refl, sym, ap, ◌∙◌, subst}
use zed_sync.Result.{Result, ok, err}
use zed_sync.Supabase.{
  SupabaseLike, SupabaseOptions, TableFilter, channel_name, filter_for, after_call, on_tables,
  on_channel, start_supabase, stop_supabase,
}

-- The handlers that a host keeps for each channel, and what the calls of a client do to them if
-- they do not throw.
pub record IsClient {ℓ} {W : Type ℓ} (client : SupabaseLike W) : Type ℓ where
  pub handlers : ℕ → W → List TableFilter
  pub next_channel : W → ℕ
  pub made : (n : JsString) (w : W) → (client.make_channel n w).0 ≡ ok (next_channel w)
  pub made_empty :
      (n : JsString) (w : W) → handlers (next_channel w) (client.make_channel n w).1 ≡ []
  pub registered : (c : ℕ) (f : TableFilter) (w : W) → (client.on_changes c f w).0 ≡ ok tt
  pub registers :
      (c : ℕ) (f : TableFilter) (w : W)
      → handlers c (client.on_changes c f w).1 ≡ handlers c w ++ f ∷ []
  pub subscribed : (c : ℕ) (w : W) → (client.subscribe_channel c w).0 ≡ ok tt
  pub subscribes : (c : ℕ) (w : W) → handlers c (client.subscribe_channel c w).1 ≡ handlers c w
  pub removes : (c : ℕ) (w : W) → handlers c (client.remove_channel c w) ≡ []

ok-inj : (a b : ℕ) → ok a ≡ ok b → a ≡ b
ok-inj a b e = cc

after_call-ok {ℓ κ} :
    {A : Type ℓ} {W : Type κ} (p : Result (Unit {0}) × W) (f : W → Result A × W)
    → p.0 ≡ ok tt
    → after_call p f ≡ f p.1
after_call-ok (ok u, w) f h = refl
after_call-ok (err e, w) f h = cc

module _ {ℓ} {W : Type ℓ} (client : SupabaseLike W) (law : IsClient client)
    (o : SupabaseOptions) where
  on_tables-registers :
      (c : ℕ) (ts : List JsString) (w : W)
      → ((on_tables client o c ts w).0 ≡ ok c)
        × (law.handlers c (on_tables client o c ts w).1 ≡ law.handlers c w ++ map (filter_for o) ts)
  unfolding on_tables
  on_tables-registers c [] w =
      subst (λ (p : Result ℕ × W). (p.0 ≡ ok c) × (law.handlers c p.1 ≡ law.handlers c w ++ []))
        (sym (after_call-ok (client.subscribe_channel c w) (λ x. (ok c, x)) (law.subscribed c w)))
        (refl, law.subscribes c w ∙ sym (append-nil (law.handlers c w)))
  on_tables-registers c (t ∷ ts) w =
      let w' = (client.on_changes c (filter_for o t) w).1 in
      let (e, h) = on_tables-registers c ts w' in
      subst
        (λ (p : Result ℕ × W).
          (p.0 ≡ ok c)
          × (law.handlers c p.1 ≡ law.handlers c w ++ filter_for o t ∷ map (filter_for o) ts))
        (sym (
          after_call-ok (client.on_changes c (filter_for o t) w) (on_tables client o c ts)
            (law.registered c (filter_for o t) w)))
        (
          e,
          h
              ∙ (ap (λ fs. fs ++ map (filter_for o) ts) (law.registers c (filter_for o t) w)
                  ∙ append_assoc (law.handlers c w) (filter_for o t ∷ []) (map (filter_for o) ts)),
        )

on_channel-ok {ℓ} :
    {W : Type ℓ} (client : SupabaseLike W) (o : SupabaseOptions) (p : Result ℕ × W) (c : ℕ)
    → p.0 ≡ ok c
    → on_channel client o p ≡ on_tables client o c o.tables p.1
unfolding on_channel
on_channel-ok client o (ok c', w) c h = ap (λ n. on_tables client o n o.tables w) (ok-inj c' c h)
on_channel-ok client o (err e, w) c h = cc

-- With a client whose calls do not throw and do what is documented, `startSupabase` leaves a new
-- channel that has one handler for each table, in order, with the schema and the filter of the
-- options, and `stop` leaves it with none, whatever it is called on.
pub start_supabase-registers {ℓ} :
    {W : Type ℓ} (client : SupabaseLike W) (law : IsClient client) (o : SupabaseOptions) (w w' : W)
    → ((start_supabase client o w).0 ≡ ok (law.next_channel w))
      × (law.handlers (law.next_channel w) (start_supabase client o w).1
          ≡ map (filter_for o) o.tables)
      × (law.handlers (law.next_channel w) (stop_supabase client (law.next_channel w) w') ≡ [])
unfolding start_supabase stop_supabase
start_supabase-registers {W = W} client law o w w' =
    let n = channel_name o in
    let c = law.next_channel w in
    let (e, h) = on_tables-registers client law o c o.tables (client.make_channel n w).1 in
    let k = on_channel-ok client o (client.make_channel n w) c (law.made n w) in
    (
      ap (λ (p : Result ℕ × W). p.0) k ∙ e,
      ap (λ (p : Result ℕ × W). law.handlers c p.1) k
          ∙ (h ∙ ap (λ fs. fs ++ map (filter_for o) o.tables) (law.made_empty n w)),
      law.removes c w',
    )
