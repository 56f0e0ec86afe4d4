-- ===== src/Tests.antt =====
-- Sample data for the examples: amounts in units of 10^-9, one market, one account.
pub mod Account
pub mod Sorted
pub mod Strategy
pub mod Limits
pub mod Live
pub mod Wired
pub mod Listed
pub mod Cached
pub mod Startup
pub mod Trades
pub mod Onchain
pub mod Streamed
use polymaker.Prelude.{ℕ, ◌*◌, String, Bool, true, false, none, List, [], ◌∷◌}
use polymaker.Prelude.Int.{ℤ, pos}
use polymaker.Domain.{
  Side, OrderState, ProtocolVersion, TradeState, MarketMeta, Position, OpenOrder, Fill, Quote,
}
use polymaker.Config.{StrategyProfile, RiskConfig}
use polymaker.Store.{StateStore, FillRow}
use polymaker.Tracker.{TradeEvent}

-- A number of whole units, and of hundredths.
abbrev pub units : ℕ → ℤ
units n = pos (n * 1_000_000_000)

abbrev pub cents : ℕ → ℤ
cents n = pos (n * 10_000_000)

abbrev pub sample_fill : Fill ℤ
sample_fill = record {
  token_id = "yes";
  side = Side.buy;
  price = cents 40;
  size = units 50;
  trade_id = "t1";
  ts = units 10;
  is_maker = true;
}

abbrev pub sample_row : FillRow ℤ
sample_row = record {
  token_id = "yes";
  side = Side.buy;
  price = cents 40;
  size = units 50;
  ts = units 10;
  is_maker = true;
  settled = false;
}

abbrev pub sample_order : OpenOrder ℤ
sample_order = record {
  order_id = "o1";
  token_id = "yes";
  side = Side.buy;
  price = cents 39;
  size = units 50;
  state = OrderState.live;
  created_ts = units 5;
}

abbrev pub sample_position : Position ℤ
sample_position = record { token_id = "yes"; size = units 50; avg_price = cents 40 }

-- A store after one fill, with one resting order and one guard.
abbrev pub sample_store : StateStore ℤ
sample_store = record {
  positions = ("yes", sample_position) ∷ [];
  orders = ("o1", sample_order) ∷ [];
  inflight_count = ("yes", 1) ∷ [];
  inflight_ts = ("yes", units 10) ∷ [];
  last_fill_ts = ("yes", units 10) ∷ [];
  fills = ("t1", sample_row) ∷ [];
  position_rows = ("yes", (units 50, cents 40)) ∷ [];
  order_log = ("o1", sample_order) ∷ [];
}

abbrev pub sample_event : TradeState → TradeEvent ℤ
sample_event status = record {
  token_id = "yes";
  our_side = Side.buy;
  price = cents 40;
  size = units 50;
  trade_id = "t1";
  status = status;
  ts = units 10;
}

abbrev pub sample_market : MarketMeta ℤ
sample_market = record {
  condition_id = "c1";
  question = "Will it rain?";
  slug = "rain";
  yes_token = record { token_id = "yes"; outcome = "Yes" };
  no_token = record { token_id = "no"; outcome = "No" };
  tick_size = cents 1;
  price_decimals = 2;
  neg_risk = false;
  min_order_size = units 5;
  rewards_min_size = units 20;
  rewards_max_spread = units 3;
  rewards_daily_rate = units 100;
  maker_fee_bps = 0;
  taker_fee_bps = 0;
  fees_enabled = false;
  end_date_iso = none;
  event_id = none;
  rebate_rate = units 0;
  best_bid = cents 49;
  best_ask = cents 51;
  liquidity_num = units 1000;
  volume_num = units 1000;
  volume_24hr = units 100;
  version = ProtocolVersion.v1;
  scanned_ts = units 0;
  resolved = false;
}

abbrev pub sample_profile : StrategyProfile ℤ
sample_profile = record {
  micro_levels = 3;
  flow_ewma_halflife_s = units 60;
  gamma = units 1;
  delta_min_ticks = 1;
  c_vol = units 1;
  c_tox = units 1;
  vol_short_halflife_s = units 60;
  vol_long_halflife_s = units 600;
  base_size_usdc = units 25;
  q_max_usdc = units 100;
  q_soft_frac = cents 60;
  layers = 1;
  layer_step_ticks = 1;
  reward_size_mult = units 1;
  reprice_ticks = 1;
  resize_frac = cents 20;
  min_edge_ticks = 1;
  event_cooloff_s = units 60;
  event_jump_ticks = 5;
  event_sweep_levels = 3;
  event_sweep_mult = units 3;
  event_sweep_frac = cents 50;
  trend_flow_z = cents 80;
  trend_vol_ratio = units 2;
  end_date_taper_days = units 7;
  reduce_only_hours = units 24;
  halt_before_hours = units 2;
  exit_urgency_s = units 600;
  merge_min_size = units 10;
}

abbrev pub sample_limits : RiskConfig ℤ
sample_limits = record {
  max_total_exposure_usdc = units 400;
  max_event_group_loss_usdc = units 150;
  max_market_notional_usdc = units 100;
  daily_loss_kill_usdc = units 25;
  ws_stale_halt_s = units 10;
  user_ws_blind_halt_s = units 30;
  heartbeat_halt_failures = 3;
  max_order_error_rate = cents 50;
}
