-- ===== src/Risk.antt =====
-- src/polymaker/risk/manager.py: profit and loss, the error-rate breaker, the kill switches and the
-- per-market gate. The shared store and the settings are arguments, `time.time()` is `now`, and a
-- reason is a value where the source formats a text.
pub mod Limits
pub mod Window
use polymaker.Prelude.{
  ℕ, String, Bool, true, false, not, ◌&&◌, Option, none, some, List, [], ◌∷◌, ◌++◌, ltb, length,
  select, mem, Dict, insert, get_or, if◌then◌else◌,
}
use polymaker.Float.{Float, num, ◌+◌, ◌-◌, ◌*◌, ◌/◌, ◌<=◌, ◌<◌, abs, min, max}
use polymaker.Domain.{buy, sell, same_side, MarketMeta, Position, OpenOrder, Fill}
use polymaker.Config.{RiskConfig}
use polymaker.Store.{StateStore, position}

pub data Reason : Type 0 where
  no_reason manual_kill daily_loss error_rate_high stale_stream market_cap event_group_cap
        total_exposure_cap :
      Reason

pub record RiskDecision (F : Type 0) : Type 0 where
  pub halt : Bool
  pub reduce_only : Bool
  pub size_scale : F
  pub reason : Reason

-- The state of RiskManager, less its settings and store.
pub record RiskManager (F : Type 0) : Type 0 where
  pub marks : Dict F
  pub net_cash : F
  pub day_start_equity : F
  pub killed : Bool
  pub cash_adjustments : F
  pub recent_order_results : List (F × Bool)

module _ {F : Type 0} ⦃fl : Float F⦄ where
  unfoldable pub new_manager : RiskManager F
  new_manager = record {
    marks = [];
    net_cash = num 0;
    day_start_equity = num 0;
    killed = false;
    cash_adjustments = num 0;
    recent_order_results = [];
  }

  abbrev pub error_window_s : F
  error_window_s = num 300

  unfoldable pub note_fill : Fill F → RiskManager F → RiskManager F
  note_fill fill rm =
      let sign = if same_side fill.side sell then num 1 else fl.neg (num 1) in
      record rm { net_cash = rm.net_cash + fill.price * fill.size * sign }

  unfoldable pub update_mark : String → F → RiskManager F → RiskManager F
  update_mark token_id fv rm = record rm { marks = insert token_id fv rm.marks }

  -- The manager after, and the drift.
  unfoldable pub reconcile_cash : F → RiskManager F → RiskManager F × F
  reconcile_cash exchange_cash rm =
      let delta = exchange_cash - rm.net_cash in
      if abs delta < fl.lit 1 2 then (rm, num 0) else (
        record rm { net_cash = exchange_cash; cash_adjustments = rm.cash_adjustments + delta },
        delta,
      )

  -- `x or 0.5` on a price
  abbrev pub or_half : F → F
  or_half x = if (x <= num 0) && (num 0 <= x) then fl.lit 5 1 else x

  -- The loop of `_inventory_value`, from a running total.
  unfoldable pub add_values : Dict F → Dict (Position F) → F → F
  add_values marks [] total = total
  add_values marks ((tok, pos) ∷ ps) total =
      add_values marks ps
        (if num 0 < pos.size then total + pos.size * get_or pos.avg_price tok marks else total)

  unfoldable pub inventory_value : StateStore F → RiskManager F → F
  inventory_value s rm = add_values rm.marks s.positions (num 0)

  abbrev pub equity : StateStore F → RiskManager F → F
  equity s rm = rm.net_cash + inventory_value s rm

  abbrev pub daily_pnl : StateStore F → RiskManager F → F
  daily_pnl s rm = equity s rm - rm.day_start_equity

  unfoldable pub reset_day : StateStore F → RiskManager F → RiskManager F
  reset_day s rm = record rm { day_start_equity = equity s rm }

  -- `t >= cutoff`
  abbrev pub is_recent : F → F × Bool → Bool
  is_recent cutoff r = cutoff <= r.0

  unfoldable pub prune_results : F → List (F × Bool) → List (F × Bool)
  prune_results now [] = []
  prune_results now ((t, ok) ∷ rs) =
      let cutoff = now - error_window_s in
      if t < cutoff then select (is_recent cutoff) ((t, ok) ∷ rs) else (t, ok) ∷ rs

  -- _prune
  unfoldable pub prune : F → RiskManager F → RiskManager F
  prune now rm = record rm { recent_order_results = prune_results now rm.recent_order_results }

  unfoldable pub note_order_result : F → Bool → RiskManager F → RiskManager F
  note_order_result now ok rm =
      prune now (record rm { recent_order_results = rm.recent_order_results ++ (now, ok) ∷ [] })

  abbrev pub failures : List (F × Bool) → ℕ
  failures rs = length (select (λ r. not r.1) rs)

  -- The rate, and the manager after the window was pruned.
  unfoldable pub error_rate : F → RiskManager F → F × RiskManager F
  error_rate now rm =
      let rm' = prune now rm in
      let rs = rm'.recent_order_results in
      (if ltb (length rs) 20 then num 0 else num (failures rs) / num (length rs), rm')

  -- Whether everything halts, why, and the manager after.
  unfoldable pub global_halt :
      RiskConfig F → StateStore F → F → RiskManager F → Bool × Reason × RiskManager F
  global_halt cfg s now rm =
      let (rate, rm') = error_rate now rm in
      if rm.killed
      then (true, manual_kill, rm)
      else if daily_pnl s rm <= fl.neg cfg.daily_loss_kill_usdc
      then (true, daily_loss, rm)
      else if cfg.max_order_error_rate <= rate
      then (true, error_rate_high, rm')
      else (false, no_reason, rm')

  unfoldable pub kill : RiskManager F → RiskManager F
  kill rm = record rm { killed = true }

  -- _market_notional: only the imbalance of a YES/NO pair counts.
  unfoldable pub market_notional : MarketMeta F → StateStore F → RiskManager F → F
  market_notional meta s rm =
      let yes_pos = position s meta.yes_token.token_id in
      let no_pos = position s meta.no_token.token_id in
      let balanced = min yes_pos.size no_pos.size in
      let imbalance_yes = max (num 0) (yes_pos.size - balanced) in
      let imbalance_no = max (num 0) (no_pos.size - balanced) in
      imbalance_yes * get_or (or_half yes_pos.avg_price) meta.yes_token.token_id rm.marks
      + imbalance_no * get_or (or_half no_pos.avg_price) meta.no_token.token_id rm.marks

  -- The loop of `_total_exposure`, from a running total.
  unfoldable pub add_exposures : Dict F → Dict (Position F) → F → F
  add_exposures marks [] total = total
  add_exposures marks ((tok, pos) ∷ ps) total = add_exposures marks ps (
      if num 0 < pos.size
      then total + pos.size * get_or (or_half pos.avg_price) tok marks
      else total)

  unfoldable pub total_exposure : StateStore F → RiskManager F → F
  total_exposure s rm = add_exposures rm.marks s.positions (num 0)

  -- _headroom
  unfoldable pub headroom : F → F → F
  headroom current cap =
      let frac = current / cap in
      if cap <= num 0
      then num 1
      else if frac <= fl.lit 7 1
      then num 1
      else max (num 0) ((num 1 - frac) / fl.lit 3 1)

  -- The caps and the taper of `evaluate`, after the kill switches.
  unfoldable pub gate : RiskConfig F → F → F → F → F → F → RiskDecision F
  gate cfg filled_market filled_total resting global_resting event_group_cost =
      let capped : Reason → RiskDecision F =
        λ why. record { halt = false; reduce_only = true; size_scale = num 1; reason = why } in
      if cfg.max_market_notional_usdc <= filled_market + resting
      then capped market_cap
      else if cfg.max_event_group_loss_usdc <= event_group_cost
      then capped event_group_cap
      else if cfg.max_total_exposure_usdc <= filled_total + global_resting
      then capped total_exposure_cap
      else record {
        halt = false;
        reduce_only = false;
        size_scale =
            min
              (min (headroom filled_market cfg.max_market_notional_usdc)
                (headroom filled_total cfg.max_total_exposure_usdc))
              (headroom event_group_cost cfg.max_event_group_loss_usdc);
        reason = no_reason;
      }

  -- `resting`, and `global_resting` where the caller passes none.
  abbrev pub or_resting : Option F → F → F
  or_resting none resting = resting
  or_resting (some g) resting = max (num 0) g

  abbrev pub stopped : Reason → RiskDecision F
  stopped why = record { halt = true; reduce_only = false; size_scale = num 0; reason = why }

  unfoldable pub evaluate :
      RiskConfig F
      → MarketMeta F
      → StateStore F
      → F
      → Bool
      → F
      → F
      → Option F
      → RiskManager F
      → RiskDecision F × RiskManager F
  evaluate cfg meta s now ws_stale event_group_cost resting_buy_notional global_resting_buy_notional
        rm =
      let (halted, why, rm') = global_halt cfg s now rm in
      let resting = max (num 0) resting_buy_notional in
      if halted then (stopped why, rm') else if ws_stale then (stopped stale_stream, rm') else (
        gate cfg (market_notional meta s rm') (total_exposure s rm') resting
            (or_resting global_resting_buy_notional resting) event_group_cost,
        rm',
      )

  -- The loop of `resting_buy_notional`, from a running total.
  unfoldable pub add_resting : List String → List (OpenOrder F) → F → F
  add_resting market_tokens [] total = total
  add_resting market_tokens (o ∷ os) total = add_resting market_tokens os (
      if same_side o.side buy && mem o.token_id market_tokens
      then total + o.price * o.size
      else total)

  unfoldable pub resting_buy_notional : List (OpenOrder F) → List String → F
  resting_buy_notional orders market_tokens = add_resting market_tokens orders (num 0)
