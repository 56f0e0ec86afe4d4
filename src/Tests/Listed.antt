-- ===== src/Tests/Listed.antt =====
-- The theorems on the catalog at concrete inputs.
use polymaker.Prelude.{
  Some, ◌≡◌, refl, String, false, true, Option, some, none, List, [], ◌∷◌, All, Dict, lookup, ◌==◌,
  if◌then◌else◌,
}
use polymaker.Prelude.Int.{ℤ, pos, ◌-ℤ◌, ◌+ℤ◌}
use polymaker.Float.{nano, nano-IsFloat, mul_nano, div_nano}
use polymaker.Domain.{MarketMeta, v2}
use polymaker.Domain.Names.{parse_version}
use polymaker.Wire.{
  Json, Fields, Python, text, boolean, array, object, end, element, none_left, field, trimmed,
}
use polymaker.MarketStream.Parse.{levels_of}
use polymaker.Scoring.{BookStats}
use polymaker.Catalog.Gamma.{usable, ◌>>=◌, outcome_ids, meta_of, parse_market}
use polymaker.Catalog.Usable.{IsListed, parse_market-IsListed}
use polymaker.Catalog.Scan.{
  largest, smallest, weighted_from, thinnest, readings_of, fetch_book_stats,
}
use polymaker.Catalog.Thinnest.{IsAbove, IsSide, fetch_book_stats-thinnest}
use polymaker.Tests.{units, cents}

abbrev python : Python ℤ
python = record {
  to_float = λ t.
      if t == "0.40"
      then some (cents 40)
      else if t == "0.42"
      then some (cents 42)
      else if t == "50"
      then some (units 50)
      else if t == "80"
      then some (units 80)
      else none;
  repr = λ v. "";
  equal = λ a b. true;
}

abbrev price_level : String → String → Json ℤ
price_level price size = object (field "price" (text price) (field "size" (text size) none_left))

abbrev book_of : String → String → Json ℤ
book_of bid_size ask_size = object (
    field "bids" (array (element (price_level "0.40" bid_size) end))
      (field "asks" (array (element (price_level "0.42" ask_size) end)) none_left))

abbrev fetch : String → Option (Json ℤ)
fetch tid = some (if tid == "yes" then book_of "80" "80" else book_of "80" "50")

abbrev tids : List String
tids = "yes" ∷ "no" ∷ []

abbrev yes_stats : BookStats ℤ
yes_stats = record {
  weighted_shares = pos 12_500_000_000;
  one_minute_vol = units 0;
  mid = cents 41;
  spread = cents 2;
  touch_depth = units 0;
  our_distance_cents = units 1;
}

measured : fetch_book_stats python fetch (units 2) tids ≡ some yes_stats
unfolding fetch_book_stats readings_of levels_of largest smallest weighted_from thinnest nano ◌-ℤ◌
    ◌+ℤ◌ mul_nano div_nano
measured = refl

fetch_book_stats-thinnest_example :
    All (IsAbove nano-IsFloat python fetch (units 2) (pos 12_500_000_000)) tids
    × Some (IsSide nano-IsFloat python fetch (units 2) (pos 12_500_000_000) (units 1)) tids
fetch_book_stats-thinnest_example =
    fetch_book_stats-thinnest nano-IsFloat python fetch (units 2) tids yes_stats measured

abbrev loads : String → Option (Json ℤ)
loads s = some (array (element (text "Yes") (element (text "No") end)))

-- A V2 market that also carries V1 ids.
abbrev listing : Fields ℤ
listing = field "acceptingOrders" (boolean true) (
    field "version" (text "v2") (
      field "outcomes" (text "[\"Yes\", \"No\"]") (
        field "clobTokenIds" (text "[]") (
          field "positionIds" (array (element (text "7001") (element (text "7002") end)))
            (field "conditionId" (text "c1") (field "orderMinSize" (text "50") none_left))))))

abbrev listed_market : MarketMeta ℤ
listed_market = record {
  condition_id = "c1";
  question = "";
  slug = "";
  yes_token = record { token_id = "7001"; outcome = "Yes" };
  no_token = record { token_id = "7002"; outcome = "No" };
  tick_size = pos 1_000_000;
  price_decimals = 3;
  neg_risk = false;
  min_order_size = units 50;
  rewards_min_size = units 0;
  rewards_max_spread = units 0;
  rewards_daily_rate = units 9;
  maker_fee_bps = 0;
  taker_fee_bps = 0;
  fees_enabled = false;
  end_date_iso = none;
  event_id = none;
  rebate_rate = units 0;
  best_bid = units 0;
  best_ask = units 0;
  liquidity_num = units 0;
  volume_num = units 0;
  volume_24hr = units 0;
  version = v2;
  scanned_ts = units 5;
  resolved = false;
}

abbrev rates : Dict ℤ
rates = ("c1", units 9) ∷ []

parsed : parse_market python loads (λ x. 3) (λ x. 0) (units 5) rates listing ≡ usable listed_market
unfolding parse_market meta_of outcome_ids parse_version trimmed ◌>>=◌ lookup nano
parsed = refl

parse_market-IsListed_example :
    IsListed python loads (λ x. 3) (λ x. 0) (units 5) rates listing listed_market
parse_market-IsListed_example =
    parse_market-IsListed python loads (λ x. 3) (λ x. 0) (units 5) rates listing listed_market
      parsed
