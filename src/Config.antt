-- ===== src/Config.antt =====
-- src/polymaker/config.py: the settings that the pure code reads. Counts of ticks, layers and
-- failures are natural numbers.
pub mod Entries
pub mod Preflight
use polymaker.Prelude.{ℕ}

pub record StrategyProfile (F : Type 0) : Type 0 where
  pub micro_levels : ℕ
  pub flow_ewma_halflife_s : F
  pub gamma : F
  pub delta_min_ticks : ℕ
  pub c_vol : F
  pub c_tox : F
  pub vol_short_halflife_s : F
  pub vol_long_halflife_s : F
  pub base_size_usdc : F
  pub q_max_usdc : F
  pub q_soft_frac : F
  pub layers : ℕ
  pub layer_step_ticks : ℕ
  pub reward_size_mult : F
  pub reprice_ticks : ℕ
  pub resize_frac : F
  pub min_edge_ticks : ℕ
  pub event_cooloff_s : F
  pub event_jump_ticks : ℕ
  pub event_sweep_levels : ℕ
  pub event_sweep_mult : F
  pub event_sweep_frac : F
  pub trend_flow_z : F
  pub trend_vol_ratio : F
  pub end_date_taper_days : F
  pub reduce_only_hours : F
  pub halt_before_hours : F
  pub exit_urgency_s : F
  pub merge_min_size : F

pub record RiskConfig (F : Type 0) : Type 0 where
  pub max_total_exposure_usdc : F
  pub max_event_group_loss_usdc : F
  pub max_market_notional_usdc : F
  pub daily_loss_kill_usdc : F
  pub ws_stale_halt_s : F
  pub user_ws_blind_halt_s : F
  pub heartbeat_halt_failures : ℕ
  pub max_order_error_rate : F
