-- ===== src/Tests/Cached.antt =====
-- The theorems on the scan cache and the configuration at concrete inputs.
use polymaker.Prelude.{
  ℕ, ◌≡◌, ◌≢◌, ◌↔◌, refl, String, true, false, Option, some, none, [], ◌∷◌, All, Dict, lookup,
  insert, ◌==◌, if◌then◌else◌,
}
use polymaker.Prelude.Int.{ℤ, pos}
use polymaker.Float.{nano}
use polymaker.Domain.{MarketMeta, v2}
use polymaker.Domain.Names.{parse_version}
use polymaker.Wire.{
  Json, Python, text, boolean, array, object, end, element, none_left, field, trimmed, same_letters,
}
use polymaker.Catalog.Gamma.{◌>>=◌, outcome_ids, meta_of, parse_market}
use polymaker.Catalog.Store.{Row, CatalogStore, get}
use polymaker.Catalog.Sweep.{
  tag_of, ScanConfig, usdc_rate, add_rates, rate_pages, fetch_reward_rates, iter_markets, kept_of,
  scan_end, scan_with, run_scan,
}
use polymaker.Catalog.Swept.{IsKept, recorded, run_scan-recorded}
use polymaker.Config.Entries.{
  MarketEntry, Config, Pydantic, preflight, profile_for, enabled_markets,
}
use polymaker.Config.Preflight.{found, preflight-nil}
use polymaker.Tests.{units, sample_market, sample_profile}

abbrev row : ℤ → ℤ → Row ℤ
row score ts = record {
  slug = "rain";
  meta_json = sample_market;
  score = score;
  score_json = none;
  scanned_ts = ts;
}

abbrev pub catalog : CatalogStore ℤ
catalog = record {
  markets =
      ("c1", row (units 1) (units 9))
      ∷ ("c2", row (units 3) (units 9))
      ∷ ("c3", row (units 5) (units 1))
      ∷ [];
  tags = [];
}

abbrev pub python : Python ℤ
python = record {
  to_float = λ t. if t == "50" then some (units 50) else none;
  repr = λ v. "";
  equal = λ a b. true;
}

abbrev pub loads : String → Option (Json ℤ)
loads s = some (array (element (text "Yes") (element (text "No") end)))

abbrev pub listing : Json ℤ
listing = object (
    field "acceptingOrders" (boolean true) (
      field "version" (text "v2") (
        field "outcomes" (text "[\"Yes\", \"No\"]") (
          field "positionIds" (array (element (text "7001") (element (text "7002") end)))
            (field "conditionId" (text "c1") none_left)))))

abbrev rewards : Json ℤ
rewards = object (
    field "rates"
      (array (
        element
          (object (
            field "asset_address" (text "0x2791Bca1f2de4661ED88A30C99A7a9449Aa84174")
              (field "rewards_daily_rate" (text "50") none_left)))
          end))
      none_left)

abbrev rate_page : Json ℤ → Option (Json ℤ)
rate_page cursor = some (
    object (
      field "data"
        (array (
          element (object (field "condition_id" (text "c1") (field "rewards" rewards none_left)))
            end))
        none_left))

abbrev market_page : Option String → ℕ → Option (Json ℤ)
market_page tag offset = some (array (element listing end))

abbrev scan : ScanConfig
scan = record { tag_slug = "politics"; rewards_only = true; measure_books = false }

abbrev pub swept_market : MarketMeta ℤ
swept_market = record {
  condition_id = "c1";
  question = "";
  slug = "";
  yes_token = record { token_id = "7001"; outcome = "Yes" };
  no_token = record { token_id = "7002"; outcome = "No" };
  tick_size = pos 1_000_000;
  price_decimals = 3;
  neg_risk = false;
  min_order_size = units 5;
  rewards_min_size = units 0;
  rewards_max_spread = units 0;
  rewards_daily_rate = units 50;
  maker_fee_bps = 0;
  taker_fee_bps = 0;
  fees_enabled = false;
  end_date_iso = none;
  event_id = none;
  rebate_rate = units 0;
  best_bid = units 0;
  best_ask = units 0;
  liquidity_num = units 0;
  volume_num = units 0;
  volume_24hr = units 0;
  version = v2;
  scanned_ts = units 5;
  resolved = false;
}

scanned :
    (run_scan python loads
      (λ x. 3)
      (λ x. 0)
      (units 5)
      scan
      rate_page
      (some "21")
      market_page
      (λ t. none)
      catalog).1
    ≡ some (swept_market ∷ [])
unfolding run_scan scan_with scan_end kept_of iter_markets fetch_reward_rates rate_pages add_rates
    usdc_rate same_letters parse_market meta_of outcome_ids parse_version trimmed ◌>>=◌ lookup
    insert nano
scanned = refl

run_scan-recorded_example :
    (get "c1"
        (run_scan python loads
          (λ x. 3)
          (λ x. 0)
          (units 5)
          scan
          rate_page
          (some "21")
          market_page
          (λ t. none)
          catalog).0
      ≡ recorded "c1" (swept_market ∷ []) catalog)
    × ((rates : Dict ℤ) × (fetch_reward_rates python rate_page ≡ some rates)
        × All
            (IsKept python loads
              (λ x. 3)
              (λ x. 0)
              (units 5)
              scan
              (market_page
                (tag_of python loads (λ x. 3) (λ x. 0) (units 5) scan (some "21") catalog))
              rates)
            (swept_market ∷ []))
run_scan-recorded_example =
    run_scan-recorded python loads (λ x. 3) (λ x. 0) (units 5) scan rate_page (some "21")
      market_page (λ t. none) catalog (swept_market ∷ []) "c1" scanned

abbrev pub entry : MarketEntry ℤ
entry = record {
  slug = none;
  condition_id = some "c1";
  profile = "political-longdated";
  enabled = true;
  model_extra = [];
}

abbrev pub settings : Config ℤ
settings = record { profiles = ("political-longdated", sample_profile) ∷ []; markets = entry ∷ [] }

abbrev pub pydantic : Pydantic ℤ
pydantic = record { model_dump = λ p. []; build = λ d. none }

preflight-nil_example : (preflight true settings ≡ []) ↔ (
    All (λ e. found (profile_for pydantic settings e) ≡ true) (enabled_markets settings)
    × (enabled_markets settings ≢ [])
    × (true ≡ true))
preflight-nil_example = preflight-nil pydantic true settings
