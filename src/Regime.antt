-- ===== src/Regime.antt =====
-- src/polymaker/strategy/regime.py: the per-market regime decision and its EVENT cool-off.
pub mod Cooloff
use polymaker.Prelude.{Bool, true, false, ◌||◌, Option, none, some, if◌then◌else◌}
use polymaker.Float.{Float, num, ◌+◌, ◌-◌, ◌/◌, ◌<=◌, ◌<◌, abs, max}
use polymaker.Domain.{Regime, quiet, trending, event, reduce_only, halted}
use polymaker.Config.{StrategyProfile}

pub record RegimeInputs (F : Type 0) : Type 0 where
  pub now : F
  pub tick : F
  pub fv : F
  pub prev_fv : Option F
  pub vol_ratio : F
  pub flow_z : F
  pub inventory_util : F
  pub hours_to_end : Option F
  pub sweep_flagged : Bool
  pub market_resolved : Bool
  pub ws_stale : Bool
  pub risk_halt : Bool
  pub risk_reduce_only : Bool

pub record RegimeMachine (F : Type 0) : Type 0 where
  pub event_until : F

module _ {F : Type 0} ⦃fl : Float F⦄ where
  -- A fresh machine: `RegimeMachine()`.
  pub new_machine : RegimeMachine F
  new_machine = record { event_until = num 0 }

  -- `x is not None and x <= bound`
  abbrev pub within : Option F → F → Bool
  within none bound = false
  within (some h) bound = h <= bound

  abbrev pub jump_ticks : RegimeInputs F → F
  jump_ticks inp = elim (inp.prev_fv) [ none ↦ num 0 | some prev ↦ abs (inp.fv - prev) / inp.tick ]

  -- steps 3 to 5 of `decide`, which read no state
  unfoldable pub posture : RegimeInputs F → StrategyProfile F → Regime
  posture inp p =
      if inp.risk_reduce_only || (num 1 <= inp.inventory_util)
      then reduce_only
      else if within inp.hours_to_end p.reduce_only_hours
      then reduce_only
      else if (p.trend_flow_z <= abs inp.flow_z) || (p.trend_vol_ratio <= inp.vol_ratio)
      then trending
      else quiet

  -- The decision, and the machine after it.
  unfoldable pub decide :
      RegimeMachine F → RegimeInputs F → StrategyProfile F → Regime × RegimeMachine F
  unfolding posture
  decide rm inp p =
      if inp.risk_halt || (inp.ws_stale || inp.market_resolved)
      then (halted, rm)
      else if within inp.hours_to_end p.halt_before_hours
      then (halted, rm)
      else if inp.sweep_flagged || (num p.event_jump_ticks <= jump_ticks inp)
      then (event, record { event_until = inp.now + p.event_cooloff_s })
      else if inp.now < rm.event_until
      then (event, rm)
      else (posture inp p, rm)

  pub in_cooloff : RegimeMachine F → Bool
  in_cooloff rm = num 0 < rm.event_until

  -- Seconds until the cool-off expires, 0 if not cooling off.
  pub cooloff_remaining : RegimeMachine F → F → F
  cooloff_remaining rm now = max (num 0) (rm.event_until - now)
