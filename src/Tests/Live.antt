-- ===== src/Tests/Live.antt =====
-- The theorems on the engine and on merging at concrete inputs.
use polymaker.Prelude.{
  ◌≡◌, refl, ◌++◌, true, false, some, none, [], ◌∷◌, Dict, lookup, select, All, ◌==◌,
}
use polymaker.Prelude.Int.{ℤ}
use polymaker.Float.{nano, nano-IsFloat, num, ◌*◌}
use polymaker.Domain.{Fill, v1}
use polymaker.Estimators.{MarketEstimators, Ewma}
use polymaker.Risk.{new_manager}
use polymaker.Engine.{Market, Settings, Engine, blind_state}
use polymaker.Engine.Sync.{live_orders}
use polymaker.Engine.Requote.{Answers, recompute}
use polymaker.Engine.Halts.{cancel_all, recompute_stops}
use polymaker.Engine.Requests.{requests_of, recompute-requests_of}
use polymaker.Engine.Fills.{tracked, on_fills, note_fills, on_fills-note_fills}
use polymaker.Merger.{MergeConfig, can_merge}
use polymaker.Merger.Task.{int_of, held_pairs, merge_held}
use polymaker.Merger.Bounded.{AtMostOne, IsCovered, merge_held-IsCovered}
use polymaker.Tests.{units, sample_fill, sample_store, sample_market, sample_profile, sample_limits}
use polymaker.Tests.Sorted.{Rows, rows}

abbrev mean : Ewma ℤ
mean = record {
  halflife = units 60;
  value = units 0;
  last_ts = units 0;
  initialized = false;
  out_of_order = 0;
}

abbrev estimators : MarketEstimators ℤ
estimators = record {
  vol = record { short_ewma = mean; long_ewma = mean; last_fv = none; last_ts = units 0 };
  flow = record { signed_ewma = mean; sq_ewma = mean };
  markout = record {
    horizon_s = units 300;
    pending = [];
    markout_ewma = mean;
    samples = [];
    max_samples = 10;
  };
  last_fv = none;
  last_fv_ts = units 0;
}

abbrev pub sample : Market ℤ
sample = record {
  meta = sample_market;
  profile = sample_profile;
  est = estimators;
  regime_m = record { event_until = units 0 };
  dirty = false;
}

abbrev pub settings : Settings ℤ
settings = record {
  risk = sample_limits;
  paper = false;
  heartbeat = true;
  reconcile_interval_s = units 30;
}

-- An engine with one market that Gamma reported closed, and one order resting.
abbrev pub closed : Engine Rows ℤ
unfolding new_manager
closed = record {
  markets = ("c1", sample) ∷ [];
  token_cid = ("yes", "c1") ∷ ("no", "c1") ∷ [];
  sweep = [];
  merging = [];
  halted = "c1" ∷ [];
  last_quote_fv = [];
  position_since = [];
  book_unusable_since = [];
  store = sample_store;
  risk_manager = new_manager;
  books = [];
  market_link = record { connected = true; disconnected_since = units 0 };
  user_link = none;
  user_started = false;
  heartbeat_failures = 0;
  hb_was_down = true;
  reconcile_now = true;
  sent = [];
  merges = [];
}

abbrev answers : Answers ℤ
answers = record { cancel_ok = false; placed = λ qs. []; listed = none; order_pressure = units 0 }

-- The cancel of the resting order is asked for, and refused.
recompute_stops_example :
    (recompute rows settings (λ t. none) "c1" (units 20) answers closed).sent
    ≡ closed.sent ++ cancel_all (live_orders sample closed.store)
unfolding lookup nano closed blind_state
recompute_stops_example =
    recompute_stops rows settings (λ t. none) "c1" sample (units 20) answers closed refl refl

recompute-requests_of_example :
    (recompute rows settings (λ t. none) "c1" (units 20) answers closed).sent
    ≡ closed.sent ++ requests_of rows settings (λ t. none) "c1" sample (units 20) answers closed
unfolding lookup closed
recompute-requests_of_example =
    recompute-requests_of rows settings (λ t. none) "c1" sample (units 20) answers closed refl

abbrev manual : Fill ℤ
manual = record (sample_fill) { token_id = "other"; trade_id = "t2" }

on_fills-note_fills_example :
    (on_fills (λ id. id == "t1:reverse") (sample_fill ∷ manual ∷ []) closed).risk_manager
    ≡ note_fills (select (tracked closed) (sample_fill ∷ manual ∷ [])) closed.risk_manager
on_fills-note_fills_example =
    on_fills-note_fills (λ id. id == "t1:reverse") (sample_fill ∷ manual ∷ []) closed

abbrev safe_wallet : MergeConfig
safe_wallet = record {
  signature_type = 2;
  has_builder_creds = false;
  merge_v2_enabled = false;
  rpc_usable = true;
}

abbrev balances : Dict ℤ
balances = ("yes", units 40) ∷ ("no", units 25) ∷ []

merge_held-IsCovered_example :
    AtMostOne
      (can_merge safe_wallet)
      false
      v1
      (int_of (held_pairs sample_market (units 30) balances * num 1_000_000))
      (merge_held safe_wallet
        (λ sub. some (record { tx_hash = "0x1"; status = 1 }))
        (1 ∷ [])
        none
        sample_market
        (units 30)
        (some balances)).0
    × All
        (λ sub. IsCovered sample_market (units 30) balances sub.amount)
        (merge_held safe_wallet
          (λ sub. some (record { tx_hash = "0x1"; status = 1 }))
          (1 ∷ [])
          none
          sample_market
          (units 30)
          (some balances)).0
merge_held-IsCovered_example =
    merge_held-IsCovered nano-IsFloat safe_wallet
      (λ sub. some (record { tx_hash = "0x1"; status = 1 })) (1 ∷ []) none sample_market (units 30)
      balances
