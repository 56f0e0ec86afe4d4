-- ===== src/Engine/Registered.antt =====
-- src/polymaker/engine.py: a startup that finds every market live registers every market.
use polymaker.Prelude.{
  ◌≡◌, refl, ◌∙◌, ℕ, String, false, Option, none, some, List, [], ◌∷◌, All, ◌==◌, ==_refl, Dict,
  lookup, insert, lookup-insert, arith,
}
use polymaker.Float.{Float}
use polymaker.Domain.{MarketMeta}
use polymaker.Config.{StrategyProfile}
use polymaker.Config.Entries.{MarketEntry, Config, Pydantic, ready, profile_for, enabled_markets}
use polymaker.Estimators.{MarketEstimators}
use polymaker.Regime.{new_machine}
use polymaker.Wire.{Json, Python}
use polymaker.Catalog.Gamma.{usable}
use polymaker.Catalog.Store.{CatalogStore, upsert_market}
use polymaker.Engine.{Engine, register_market}
use polymaker.Engine.Resolve.{
  GammaClient, live_market, parsed_row, make_estimators, use_live, resolve_entries, resolve_markets,
}

module _ {V : Type 0} where
  lookup-inserted : (k : String) (v : V) (d : Dict V) → lookup k (insert k v d) ≡ some v
  lookup-inserted k v d = lookup-insert k k v d ∙ rw (==_refl k) refl

  lookup-other :
      (k j : String) (v : V) (o : Option V) (d : Dict V)
      → (k == j) ≡ false
      → lookup j d ≡ o
      → lookup j (insert k v d) ≡ o
  lookup-other k j v o d h e = lookup-insert k j v d ∙ rw h e

module _ {F : Type 0} where
  -- Two markets with different ids and no token in common.
  pub record IsApart (m n : MarketMeta F) : Type 0 where
    pub ids : (m.condition_id == n.condition_id) ≡ false
    pub yes_yes : (m.yes_token.token_id == n.yes_token.token_id) ≡ false
    pub yes_no : (m.yes_token.token_id == n.no_token.token_id) ≡ false
    pub no_yes : (m.no_token.token_id == n.yes_token.token_id) ≡ false
    pub no_no : (m.no_token.token_id == n.no_token.token_id) ≡ false

  abbrev pub AllApart : List (MarketMeta F) → Type 0
  AllApart [] = Unit {0}
  AllApart (m ∷ ms) = All (λ n. IsApart n m) ms × AllApart ms

module _ {D F : Type 0} ⦃fl : Float F⦄ where
  -- The market is registered: the engine has it under its id, with its profile, fresh estimators and a
  -- fresh machine, and knows its market by each of its tokens.
  pub record IsRegistered (e : Engine D F) (m : MarketMeta F) (p : StrategyProfile F) : Type 0 where
    pub est : MarketEstimators F
    pub has_estimators : make_estimators p ≡ some est
    pub market :
        lookup m.condition_id e.markets
        ≡ some (record { meta = m; profile = p; est = est; regime_m = new_machine; dirty = false })
    pub yes_token : lookup m.yes_token.token_id e.token_cid ≡ some m.condition_id
    pub no_token : lookup m.no_token.token_id e.token_cid ≡ some m.condition_id

  register-IsRegistered :
      (m : MarketMeta F) (p : StrategyProfile F) (est : MarketEstimators F) (e : Engine D F)
      → make_estimators p ≡ some est
      → IsRegistered (register_market m p est new_machine e) m p
  unfolding register_market
  register-IsRegistered m p est e h = record {
    est = est;
    has_estimators = h;
    market = lookup-inserted m.condition_id _ e.markets;
    yes_token =
        lookup-insert m.no_token.token_id m.yes_token.token_id m.condition_id
          (insert m.yes_token.token_id m.condition_id e.token_cid)
        ∙ ground (arith, lookup-inserted m.yes_token.token_id m.condition_id e.token_cid);
    no_token = lookup-inserted m.no_token.token_id m.condition_id _;
  }

  register_keeps :
      (m n : MarketMeta F) (p q : StrategyProfile F) (est : MarketEstimators F) (e : Engine D F)
      → IsApart m n
      → IsRegistered e n q
      → IsRegistered (register_market m p est new_machine e) n q
  unfolding register_market
  register_keeps m n p q est e a h = record {
    est = h.est;
    has_estimators = h.has_estimators;
    market = lookup-other m.condition_id n.condition_id _ _ e.markets a.ids h.market;
    yes_token = lookup-other m.no_token.token_id n.yes_token.token_id m.condition_id _ _ a.no_yes (
        lookup-other m.yes_token.token_id n.yes_token.token_id m.condition_id _ e.token_cid
          a.yes_yes h.yes_token);
    no_token = lookup-other m.no_token.token_id n.no_token.token_id m.condition_id _ _ a.no_no (
        lookup-other m.yes_token.token_id n.no_token.token_id m.condition_id _ e.token_cid a.yes_no
          h.no_token);
  }

module _ {F : Type 0} ⦃fl : Float F⦄ (py : Python F) (loads : String → Option (Json F))
    (decimals int_round : F → ℕ) (now : F) (pyd : Pydantic F) (cfg : Config F)
    (gamma : GammaClient F) (rates : Dict F) where
  -- An entry whose market Gamma lists as usable, and whose profile is found and has half-lives above 0.
  pub record IsLive (entry : MarketEntry F) : Type 0 where
    pub listed_as : MarketMeta F
    pub is_listed :
        parsed_row py loads decimals int_round now rates (live_market gamma entry)
        ≡ usable listed_as
    pub profile : StrategyProfile F
    pub has_profile : profile_for pyd cfg entry ≡ ready profile
    pub estimators : MarketEstimators F
    pub has_estimators : make_estimators profile ≡ some estimators

  -- The markets that Gamma lists for the entries.
  unfoldable pub listed_markets :
      (entries : List (MarketEntry F)) → All IsLive entries → List (MarketMeta F)
  listed_markets [] h = []
  listed_markets (entry ∷ entries) h = h.0.listed_as ∷ listed_markets entries h.1

module _ {D F : Type 0} ⦃fl : Float F⦄ (py : Python F) (loads : String → Option (Json F))
    (decimals int_round : F → ℕ) (now : F) (pyd : Pydantic F) (cfg : Config F)
    (gamma : GammaClient F) (rates : Dict F) where
  -- What a startup leaves of an entry: the market that Gamma lists, with the entry's profile.
  pub record IsResolved (e : Engine D F) (entry : MarketEntry F) : Type 0 where
    pub meta : MarketMeta F
    pub is_listed :
        parsed_row py loads decimals int_round now rates (live_market gamma entry) ≡ usable meta
    pub profile : StrategyProfile F
    pub has_profile : profile_for pyd cfg entry ≡ ready profile
    pub is_registered : IsRegistered e meta profile

  -- What a startup leaves: what was registered of other markets, and the market of each entry.
  record Registers (entries : List (MarketEntry F)) (ms : List (MarketMeta F))
      (s t : CatalogStore F × Engine D F) : Type 0 where
    keeps :
        (n : MarketMeta F) (q : StrategyProfile F)
        → All (λ m. IsApart m n) ms
        → IsRegistered s.1 n q
        → IsRegistered t.1 n q
    each : All (IsResolved t.1) entries

  use_live-IsLive :
      (entry : MarketEntry F) (s : CatalogStore F × Engine D F)
      (h : IsLive py loads decimals int_round now pyd cfg gamma rates entry)
      → use_live py loads decimals int_round now pyd cfg gamma entry
          (parsed_row py loads decimals int_round now rates (live_market gamma entry))
          s
        ≡ some (
          upsert_market now h.listed_as none s.0,
          register_market h.listed_as h.profile h.estimators new_machine s.1,
        )
  use_live-IsLive entry s h = rw (h.is_listed, h.has_profile, h.has_estimators) refl

  resolve_entries-Registers :
      (entries : List (MarketEntry F)) (s : CatalogStore F × Engine D F)
      (h : All (IsLive py loads decimals int_round now pyd cfg gamma rates) entries)
      → AllApart (listed_markets py loads decimals int_round now pyd cfg gamma rates entries h)
      → (t : CatalogStore F × Engine D F) × (resolve_entries py loads decimals int_round now pyd cfg
            gamma
            (some rates)
            entries
            s
          ≡ some t)
        × Registers entries
            (listed_markets py loads decimals int_round now pyd cfg gamma rates entries h)
            s
            t
  unfolding resolve_entries listed_markets
  resolve_entries-Registers [] s h a = (s, refl, record { keeps = λ n q k r. r; each = tt })
  resolve_entries-Registers (entry ∷ entries) s h a =
      let l = h.0 in
      let (t, e, r) =
        resolve_entries-Registers entries
          (
            upsert_market now l.listed_as none s.0,
            register_market l.listed_as l.profile l.estimators new_machine s.1,
          )
          h.1 a.1 in
      (
        t,
        rw (use_live-IsLive entry s l) e,
        record {
          keeps = λ n q k g.
              r.keeps n q k.1 (register_keeps l.listed_as n l.profile q l.estimators s.1 k.0 g);
          each = (
            record {
              meta = l.listed_as;
              is_listed = l.is_listed;
              profile = l.profile;
              has_profile = l.has_profile;
              is_registered =
                  r.keeps l.listed_as l.profile a.0
                    (register-IsRegistered l.listed_as l.profile l.estimators s.1 l.has_estimators);
            },
            r.each,
          );
        },
      )

  -- If Gamma lists a usable market for every enabled entry, with different ids and no token in common, and
  -- the profile of each is found with half-lives above 0, then the startup ends without raising, and
  -- the engine has the market of every entry under its id, with the entry's profile, fresh
  -- estimators and a fresh machine, and each of its two tokens leads to that id.
  pub resolve_markets-IsRegistered :
      (s : CatalogStore F × Engine D F)
      (h : All (IsLive py loads decimals int_round now pyd cfg gamma rates) (enabled_markets cfg))
      → AllApart (
          listed_markets py loads decimals int_round now pyd cfg gamma rates
            (enabled_markets cfg)
            h)
      → (t : CatalogStore F × Engine D F) × (resolve_markets py loads decimals int_round now pyd cfg
            gamma
            (some rates)
            s
          ≡ some t)
        × All (IsResolved t.1) (enabled_markets cfg)
  unfolding resolve_markets
  resolve_markets-IsRegistered s h a =
      let (t, e, r) = resolve_entries-Registers (enabled_markets cfg) s h a in (t, e, r.each)
