-- ===== src/Tests/Startup.antt =====
-- The theorems on the startup at concrete inputs: Gamma answers, and it does not.
use polymaker.Prelude.{◌≡◌, refl, false, some, none, [], ◌∷◌, All, here, Dict, lookup}
use polymaker.Prelude.Int.{ℤ}
use polymaker.Float.{nano}
use polymaker.Domain.Names.{parse_version}
use polymaker.Wire.{array, end, element, trimmed}
use polymaker.Catalog.Gamma.{◌>>=◌, outcome_ids, meta_of, parse_market}
use polymaker.Catalog.Store.{CatalogStore, load_meta, get}
use polymaker.Config.Entries.{with_overrides, profile_for, enabled_markets}
use polymaker.Engine.{Engine}
use polymaker.Engine.Resolve.{GammaClient, resolve_markets, make_estimators, live_market}
use polymaker.Engine.Registered.{IsLive, IsResolved, listed_markets, resolve_markets-IsRegistered}
use polymaker.Estimators.{Ewma, MarketEstimators, new_ewma}
use polymaker.Engine.Fallback.{resolve_markets_raises}
use polymaker.Tests.{units, sample_market, sample_profile}
use polymaker.Tests.Live.{closed}
use polymaker.Tests.Sorted.{Rows}
use polymaker.Tests.Cached.{
  catalog, python, loads, listing, settings, pydantic, swept_market, entry,
}

-- Gamma does not answer.
abbrev silent : GammaClient ℤ
silent = record { by_slug = λ s. none; by_condition_id = λ c. none }

resolve_markets_raises_example :
    resolve_markets python loads
      (λ x. 3)
      (λ x. 0)
      (units 5)
      pydantic
      settings
      silent
      (some [])
      (catalog, closed)
    ≡ none
unfolding live_market get lookup
resolve_markets_raises_example =
    resolve_markets_raises python loads (λ x. 3) (λ x. 0) (units 5) pydantic settings silent []
      entry (catalog, closed) "c1" (load_meta sample_market) (here entry [] refl) refl refl refl

-- Gamma lists the market.
abbrev live : GammaClient ℤ
live = record { by_slug = λ s. none; by_condition_id = λ c. some (array (element listing end)) }

abbrev rates : Dict ℤ
rates = ("c1", units 50) ∷ []

abbrev seed : ℤ → Ewma ℤ
seed halflife = record {
  halflife = halflife;
  value = units 0;
  last_ts = units 0;
  initialized = false;
  out_of_order = 0;
}

abbrev seeds : MarketEstimators ℤ
seeds = record {
  vol = record {
    short_ewma = seed (units 60);
    long_ewma = seed (units 600);
    last_fv = none;
    last_ts = units 0;
  };
  flow = record { signed_ewma = seed (units 60); sq_ewma = seed (units 60) };
  markout = record {
    horizon_s = units 300;
    pending = [];
    markout_ewma = seed (units 1800);
    samples = [];
    max_samples = 5000;
  };
  last_fv = none;
  last_fv_ts = units 0;
}

entry_live : IsLive python loads (λ x. 3) (λ x. 0) (units 5) pydantic settings live rates entry
unfolding live_market parse_market meta_of outcome_ids parse_version trimmed ◌>>=◌ profile_for
    with_overrides make_estimators new_ewma lookup nano
entry_live = record {
  listed_as = swept_market;
  is_listed = refl;
  profile = sample_profile;
  has_profile = refl;
  estimators = seeds;
  has_estimators = refl;
}

resolve_markets-IsRegistered_example :
    (t : CatalogStore ℤ × Engine Rows ℤ) × (resolve_markets python loads
        (λ x. 3)
        (λ x. 0)
        (units 5)
        pydantic
        settings
        live
        (some rates)
        (catalog, closed)
      ≡ some t)
    × All
        (IsResolved python loads (λ x. 3) (λ x. 0) (units 5) pydantic settings live rates t.1)
        (enabled_markets settings)
unfolding listed_markets
resolve_markets-IsRegistered_example =
    resolve_markets-IsRegistered python loads (λ x. 3) (λ x. 0) (units 5) pydantic settings live
      rates (catalog, closed) (entry_live, tt) (tt, tt)
