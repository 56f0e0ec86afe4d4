-- ===== src/Config/Preflight.antt =====
-- src/polymaker/config.py: what a clean preflight promises, and what an override changes.
use polymaker.Prelude.{
  ◌≡◌, refl, ◌≢◌, ◌↔◌, Bool, true, false, Option-cases, inl, inr, Option, none, some, List, [], ◌∷◌,
  ◌++◌, All, Dict, lookup, contains, is_some, arith,
}
use polymaker.Wire.{Json}
use polymaker.Config.{StrategyProfile}
use polymaker.Config.Entries.{
  MarketEntry, Config, Pydantic, Looked, ready, unknown, invalid, Issue, unknown_profiles,
  preflight, profile_for, with_overrides, override, enabled_markets, none_enabled, proxy_issue,
  profile_from, overrides,
}

module _ {F : Type 0} where
  -- Whether profile_for raised no KeyError.
  abbrev pub found : Looked F → Bool
  found (ready p) = true
  found (unknown name) = false
  found invalid = true

  with_overrides-found :
      (py : Pydantic F) (os : Dict (Json F)) (p : StrategyProfile F)
      → found (with_overrides py os p) ≡ true
  unfolding with_overrides
  with_overrides-found py [] p = refl
  with_overrides-found py (o ∷ os) p =
      elim (Option-cases (py.build (override (o ∷ os) (py.model_dump p)))) [
        | inl e ↦ rw e refl
        | inr (q, e) ↦ rw e refl
      ]

  profile_for-found :
      (py : Pydantic F) (c : Config F) (e : MarketEntry F)
      → found (profile_for py c e) ≡ contains e.profile c.profiles
  unfolding profile_for
  profile_for-found py c e = go (lookup e.profile c.profiles)
    where
      go : (o : Option (StrategyProfile F)) → found (profile_from py e o) ≡ is_some o
      go none = refl
      go (some p) = with_overrides-found py (overrides e) p

  unknown_profiles-nil :
      (py : Pydantic F) (c : Config F) (es : List (MarketEntry F))
      → (unknown_profiles c es ≡ []) ↔ All (λ e. found (profile_for py c e) ≡ true) es
  unfolding unknown_profiles
  unknown_profiles-nil py c [] = (λ h. tt, λ h. refl)
  unknown_profiles-nil py c (e ∷ es) =
      ground (arith, profile_for-found py c e, unknown_profiles-nil py c es)

  clean_lem :
      (us : List Issue) (es : List (MarketEntry F)) (proxy_ok : Bool)
      → (us ++ (none_enabled es ++ proxy_issue proxy_ok) ≡ [])
        ↔ ((us ≡ []) × (es ≢ []) × (proxy_ok ≡ true))
  clean_lem (u ∷ us) es b = ground arith
  clean_lem [] [] b = (λ h. ground arith, λ h. absurd (h.1 refl))
  clean_lem [] (e ∷ es) true = ground arith
  clean_lem [] (e ∷ es) false = ground arith

  -- preflight reports nothing exactly when some market is enabled, the profile of every enabled market
  -- is found, so that profile_for raises no KeyError for it, and no configured proxy refuses the
  -- connection.
  pub preflight-nil :
      (py : Pydantic F) (proxy_ok : Bool) (c : Config F)
      → (preflight proxy_ok c ≡ []) ↔ (
          All (λ e. found (profile_for py c e) ≡ true) (enabled_markets c)
          × (enabled_markets c ≢ [])
          × (proxy_ok ≡ true))
  unfolding preflight
  preflight-nil py proxy_ok c =
      let (all_found, all_known) = unknown_profiles-nil py c (enabled_markets c) in
      let (clean, issues) =
        clean_lem (unknown_profiles c (enabled_markets c)) (enabled_markets c) proxy_ok in
      (λ h. let (u, n, p) = clean h in (all_found u, n, p), λ h. issues (all_known h.0, h.1, h.2))
