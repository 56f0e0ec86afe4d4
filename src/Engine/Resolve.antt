-- ===== src/Engine/Resolve.antt =====
-- src/polymaker/engine.py: the markets that the engine registers at its start. An answer of Gamma or of
-- the CLOB is its decoded JSON, none where the call failed; where the source raises, the result is none.
use polymaker.Prelude.{
  ℕ, String, Option, none, some, List, [], ◌∷◌, ◌==◌, ◌>>=◌, Dict, if◌then◌else◌,
}
use polymaker.Float.{Float, num}
use polymaker.Domain.{MarketMeta}
use polymaker.Config.{StrategyProfile}
use polymaker.Config.Entries.{
  MarketEntry, Config, Pydantic, Looked, ready, unknown, invalid, profile_for, enabled_markets,
}
use polymaker.Estimators.{MarketEstimators, new_ewma}
use polymaker.Regime.{new_machine}
use polymaker.Wire.{Json, Fields, Python, array, object, element, field, none_left}
use polymaker.Catalog.Gamma.{Parsed, usable, unusable, escaped, parse_market}
use polymaker.Catalog.Store.{CatalogStore, Known, get, get_by_slug, upsert_market, slot_value}
use polymaker.Engine.{Engine, register_market}

-- A lookup of one market by its slug, and by its condition id.
pub record GammaClient (F : Type 0) : Type 0 where
  pub by_slug : String → Option (Json F)
  pub by_condition_id : String → Option (Json F)

-- `x or None`, for a text that is used when it is not empty
abbrev pub given_text : Option String → Option String
given_text none = none
given_text (some t) = if t == "" then none else some t

module _ {F : Type 0} where
  -- GammaClient._one
  abbrev pub one : Option (Json F) → Option (Fields F)
  one (some (array (element (object row) rows))) = some row
  one _ = none

  abbrev first_row : Option (Fields F) → Option (Fields F) → Option (Fields F)
  first_row (some row) later = some row
  first_row none later = later

  -- _live_market
  unfoldable pub live_market : GammaClient F → MarketEntry F → Option (Fields F)
  live_market gamma e =
      first_row (given_text e.slug >>= (λ s. one (gamma.by_slug s)))
        (given_text e.condition_id >>= (λ c. one (gamma.by_condition_id c)))

  abbrev pub first_known : Option (Known F) → Option (Known F) → Option (Known F)
  first_known (some k) later = some k
  first_known none later = later

  -- _cached_meta
  unfoldable pub cached_meta : MarketEntry F → CatalogStore F → Option (Known F)
  cached_meta e catalog =
      first_known (given_text e.slug >>= (λ s. get_by_slug s catalog))
        (given_text e.condition_id >>= (λ c. get c catalog))

module _ {F : Type 0} ⦃fl : Float F⦄ where
  -- _make_estimators, with the defaults of MarkoutTracker; Ewma refuses a half-life that is not positive.
  unfoldable pub make_estimators : StrategyProfile F → Option (MarketEstimators F)
  make_estimators p = do
    short ← new_ewma p.vol_short_halflife_s
    long ← new_ewma p.vol_long_halflife_s
    signed ← new_ewma p.flow_ewma_halflife_s
    sq ← new_ewma p.flow_ewma_halflife_s
    markout ← new_ewma (num 1800)
    some (record {
      vol = record { short_ewma = short; long_ewma = long; last_fv = none; last_ts = num 0 };
      flow = record { signed_ewma = signed; sq_ewma = sq };
      markout = record {
        horizon_s = num 300;
        pending = [];
        markout_ewma = markout;
        samples = [];
        max_samples = 5000;
      };
      last_fv = none;
      last_fv_ts = num 0;
    })

module _ {F : Type 0} ⦃fl : Float F⦄ (py : Python F) (loads : String → Option (Json F))
    (decimals int_round : F → ℕ) (now : F) where
  -- `parse_market(raw, reward_rates) if raw else None`
  abbrev pub parsed_row : Dict F → Option (Fields F) → Parsed (MarketMeta F)
  parsed_row rates none = unusable
  parsed_row rates (some none_left) = unusable
  parsed_row rates (some (field k v raw)) =
      parse_market py loads decimals int_round now rates (field k v raw)

module _ {D F : Type 0} ⦃fl : Float F⦄ (py : Python F) (loads : String → Option (Json F))
    (decimals int_round : F → ℕ) (now : F) (pyd : Pydantic F) (cfg : Config F)
    (gamma : GammaClient F) where
  -- `_register_market`
  abbrev pub register_as : MarketMeta F → Looked F → Engine D F → Option (Engine D F)
  register_as m (ready p) e = do
    est ← make_estimators p
    some (register_market m p est new_machine e)
  register_as m (unknown name) e = none
  register_as m invalid e = none

  -- The cached market of an entry: logging `cached.version.value` comes before its registration.
  abbrev pub use_cached :
      MarketEntry F
      → Option (Known F)
      → CatalogStore F × Engine D F
      → Option (CatalogStore F × Engine D F)
  use_cached entry none (catalog, e) = some (catalog, e)
  use_cached entry (some k) (catalog, e) = do
    version ← slot_value k.version
    e' ← register_as k.meta (profile_for pyd cfg entry) e
    some (catalog, e')

  abbrev pub use_live :
      MarketEntry F
      → Parsed (MarketMeta F)
      → CatalogStore F × Engine D F
      → Option (CatalogStore F × Engine D F)
  use_live entry (usable m) (catalog, e) = do
    e' ← register_as m (profile_for pyd cfg entry) e
    some (upsert_market now m none catalog, e')
  use_live entry unusable (catalog, e) = use_cached entry (cached_meta entry catalog) (catalog, e)
  use_live entry escaped (catalog, e) = none

  -- The loop of `_resolve_markets`; the reward rates are read once, at the first entry.
  unfoldable pub resolve_entries :
      Option (Dict F)
      → List (MarketEntry F)
      → CatalogStore F × Engine D F
      → Option (CatalogStore F × Engine D F)
  unfolding cached_meta live_market make_estimators
  resolve_entries rates [] s = some s
  resolve_entries rates (entry ∷ entries) s = do
    read ← rates
    s' ←
        use_live entry (parsed_row py loads decimals int_round now read (live_market gamma entry)) s
    resolve_entries rates entries s'

  unfoldable pub resolve_markets :
      Option (Dict F) → CatalogStore F × Engine D F → Option (CatalogStore F × Engine D F)
  unfolding resolve_entries
  resolve_markets rates s = resolve_entries rates (enabled_markets cfg) s
