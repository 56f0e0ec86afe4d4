-- ===== src/Engine/Fallback.antt =====
-- src/polymaker/engine.py: what the startup does with a market that only the cache knows.
use polymaker.Prelude.{
  ◌≡◌, refl, sym, ◌∙◌, ap, subst, ℕ, String, Bool-cases, Option-cases, inl, inr, Option, none, some,
  List, [], ◌∷◌, Some, here, there, ◌==◌, ◌>>=◌, Dict, lookup, some_inj, bind_some, arith,
}
use polymaker.Float.{Float}
use polymaker.Domain.{MarketMeta}
use polymaker.Config.Entries.{MarketEntry, Config, Pydantic, enabled_markets, profile_for}
use polymaker.Wire.{Json, Python}
use polymaker.Catalog.Gamma.{Parsed, usable, unusable, escaped}
use polymaker.Catalog.Store.{
  Row, CatalogStore, Known, get, row_meta, slug_row, upsert_market, slot_value, load_meta,
}
use polymaker.Catalog.Swept.{upsert_market-get}
use polymaker.Engine.{Engine}
use polymaker.Engine.Resolve.{
  GammaClient, given_text, live_market, cached_meta, parsed_row, use_live, use_cached, register_as,
  first_known, resolve_entries, resolve_markets,
}

module _ {F : Type 0} where
  -- A market that was read from the cache has no member for its version.
  IsPlain : Option (Known F) → Type 0
  IsPlain none = Unit
  IsPlain (some k) = slot_value k.version ≡ none

  slug_row-IsPlain : (slug : String) (rows : List (Row F)) → IsPlain (slug_row slug rows)
  unfolding slug_row IsPlain
  slug_row-IsPlain slug [] = tt
  slug_row-IsPlain slug (row ∷ rows) = elim (Bool-cases (row.slug == slug)) [
    | inl e ↦ rw e refl
    | inr e ↦ rw e (slug_row-IsPlain slug rows)
  ]

  row_meta-IsPlain : (o : Option (Row F)) → IsPlain (row_meta o)
  unfolding IsPlain
  row_meta-IsPlain none = tt
  row_meta-IsPlain (some row) = refl

  get-IsPlain : (cid : String) (catalog : CatalogStore F) → IsPlain (get cid catalog)
  unfolding get
  get-IsPlain cid catalog = row_meta-IsPlain (lookup cid catalog.markets)

  chain-IsPlain :
      (o : Option String) (f : String → Option (Known F))
      → ((t : String) → IsPlain (f t))
      → IsPlain (o >>= f)
  unfolding IsPlain
  chain-IsPlain none f h = tt
  chain-IsPlain (some t) f h = h t

  first_known-IsPlain : (a b : Option (Known F)) → IsPlain a → IsPlain b → IsPlain (first_known a b)
  unfolding IsPlain
  first_known-IsPlain none b p q = q
  first_known-IsPlain (some k) b p q = p

  cached_meta-IsPlain :
      (e : MarketEntry F) (catalog : CatalogStore F) → IsPlain (cached_meta e catalog)
  unfolding cached_meta
  cached_meta-IsPlain e catalog =
      first_known-IsPlain _ _ (chain-IsPlain (given_text e.slug) _ (λ s. slug_row-IsPlain s _))
        (chain-IsPlain (given_text e.condition_id) _ (λ c. get-IsPlain c catalog))

  -- A market of the cache is found by its condition id, if not by the slug.
  first_known_found :
      (a b : Option (Known F)) (k : Known F)
      → b ≡ some k
      → (j : Known F) × (first_known a b ≡ some j)
  first_known_found none b k h = (k, h)
  first_known_found (some j) b k h = (j, refl)

  cached_meta_found :
      (e : MarketEntry F) (catalog : CatalogStore F) (cid : String) (k : Known F)
      → given_text e.condition_id ≡ some cid
      → get cid catalog ≡ some k
      → (j : Known F) × (cached_meta e catalog ≡ some j)
  unfolding cached_meta
  cached_meta_found e catalog cid k h g =
      let found : (given_text e.condition_id >>= (λ c. get c catalog)) ≡ some k = rw h g in
      first_known_found _ _ k found

module _ {F : Type 0} ⦃fl : Float F⦄ where
  upsert_market_keeps :
      (now : F) (m : MarketMeta F) (catalog : CatalogStore F) (cid : String) (k : Known F)
      → get cid catalog ≡ some k
      → (j : Known F) × (get cid (upsert_market now m none catalog) ≡ some j)
  upsert_market_keeps now m catalog cid k h = elim (Bool-cases (m.condition_id == cid)) [
    | inl e ↦ (load_meta m, upsert_market-get now m none catalog cid ∙ rw e refl)
    | inr e ↦ (k, upsert_market-get now m none catalog cid ∙ rw e h)
  ]

module _ {D F : Type 0} ⦃fl : Float F⦄ (py : Python F) (loads : String → Option (Json F))
    (decimals int_round : F → ℕ) (now : F) (pyd : Pydantic F) (cfg : Config F)
    (gamma : GammaClient F) where
  use_cached_raises :
      (entry : MarketEntry F) (o : Option (Known F)) (j : Known F) (s : CatalogStore F × Engine D F)
      → o ≡ some j
      → IsPlain o
      → use_cached py loads decimals int_round now pyd cfg gamma entry o s ≡ none
  unfolding IsPlain
  use_cached_raises entry none j s h p = ground arith
  use_cached_raises entry (some k) j s h p = rw p refl

  use_cached_keeps :
      (entry : MarketEntry F) (o : Option (Known F)) (s t : CatalogStore F × Engine D F)
      → IsPlain o
      → use_cached py loads decimals int_round now pyd cfg gamma entry o s ≡ some t
      → s.0 ≡ t.0
  unfolding IsPlain
  use_cached_keeps entry none s t p h = ap (λ x. x.0) (some_inj s t h)
  use_cached_keeps entry (some k) s t p h =
      ground (arith, sym (use_cached_raises entry (some k) k s refl p) ∙ h)

  use_live_keeps :
      (entry : MarketEntry F) (p : Parsed (MarketMeta F)) (s t : CatalogStore F × Engine D F)
      (cid : String) (k : Known F)
      → use_live py loads decimals int_round now pyd cfg gamma entry p s ≡ some t
      → get cid s.0 ≡ some k
      → (j : Known F) × (get cid t.0 ≡ some j)
  use_live_keeps entry (usable m) s t cid k h g =
      let (e', registered, out) =
        bind_some
          (register_as py loads decimals int_round now pyd cfg gamma m (profile_for pyd cfg entry)
            s.1)
          (λ x. some (upsert_market now m none s.0, x)) t h in
      subst (λ (x : CatalogStore F × Engine D F). (j : Known F) × (get cid x.0 ≡ some j))
        (some_inj _ t out) (upsert_market_keeps now m s.0 cid k g)
  use_live_keeps entry unusable s t cid k h g =
      (k, rw (← use_cached_keeps entry _ s t (cached_meta-IsPlain entry s.0) h) g)
  use_live_keeps entry escaped s t cid k h g = ground arith

  use_live_raises :
      (entry : MarketEntry F) (p : Parsed (MarketMeta F)) (s : CatalogStore F × Engine D F)
      (cid : String) (k : Known F)
      → p ≡ unusable
      → given_text entry.condition_id ≡ some cid
      → get cid s.0 ≡ some k
      → use_live py loads decimals int_round now pyd cfg gamma entry p s ≡ none
  use_live_raises entry p s cid k e h g =
      let (j, c) = cached_meta_found entry s.0 cid k h g in
      rw e (use_cached_raises entry _ j s c (cached_meta-IsPlain entry s.0))

  resolve_entries_raises :
      (rates : Dict F) (entry : MarketEntry F) (entries : List (MarketEntry F))
      (s : CatalogStore F × Engine D F) (cid : String) (k : Known F)
      → Some (λ x. x ≡ entry) entries
      → parsed_row py loads decimals int_round now rates (live_market gamma entry) ≡ unusable
      → given_text entry.condition_id ≡ some cid
      → get cid s.0 ≡ some k
      → resolve_entries py loads decimals int_round now pyd cfg gamma (some rates) entries s ≡ none
  unfolding resolve_entries
  resolve_entries_raises rates entry _ s cid k (here x xs e) u h g =
      let raised =
        use_live_raises x (parsed_row py loads decimals int_round now rates (live_market gamma x)) s
          cid k (rw e u) (rw e h) g in
      rw raised refl
  resolve_entries_raises rates entry _ s cid k (there x xs i) u h g =
      elim (Option-cases (
        use_live py loads decimals int_round now pyd cfg gamma x
          (parsed_row py loads decimals int_round now rates (live_market gamma x)) s)) [
            | inl n ↦ rw n refl
            | inr (t, n) ↦
                let (j, c) = use_live_keeps x _ s t cid k n g in
                rw n (resolve_entries_raises rates entry xs t cid j i u h c)
          ]

  -- If Gamma has no usable row for an enabled market and the cache holds the market under its condition
  -- id, then the startup raises, whatever the other markets are: the fallback to the cached row is
  -- never taken.
  pub resolve_markets_raises :
      (rates : Dict F) (entry : MarketEntry F) (s : CatalogStore F × Engine D F) (cid : String)
      (k : Known F)
      → Some (λ x. x ≡ entry) (enabled_markets cfg)
      → parsed_row py loads decimals int_round now rates (live_market gamma entry) ≡ unusable
      → given_text entry.condition_id ≡ some cid
      → get cid s.0 ≡ some k
      → resolve_markets py loads decimals int_round now pyd cfg gamma (some rates) s ≡ none
  unfolding resolve_markets
  resolve_markets_raises rates entry s cid k i u h g =
      resolve_entries_raises rates entry (enabled_markets cfg) s cid k i u h g
