-- ===== src/Domain.antt =====
-- src/polymaker/domain.py: the enums and dataclasses that the layers exchange, over an abstract
-- `float` F. Ids, slugs and outcomes are texts that are only compared. `price_decimals`, which the
-- source reads off the decimal text of the tick, is a field of the market here.
pub mod Names
use polymaker.Prelude.{ℕ, String, Bool, true, false, Option, List, ◌==◌, if◌then◌else◌}
use polymaker.Float.{Float, ◌*◌, ◌<=◌, num}

pub data Side : Type 0 where
  buy sell : Side

pub opposite : Side → Side
opposite Side.sell = Side.buy
opposite Side.buy = Side.sell

-- `a is b` on Side
abbrev pub same_side : Side → Side → Bool
same_side Side.buy Side.buy = true
same_side Side.sell Side.sell = true
same_side _ _ = false

pub data ProtocolVersion : Type 0 where
  v1 v2 : ProtocolVersion

abbrev pub is_ctf : ProtocolVersion → Bool
is_ctf v1 = true
is_ctf v2 = false

pub data Regime : Type 0 where
  quiet trending event reduce_only halted : Regime

pub data OrderState : Type 0 where
  draft posted live partially_filled canceled rejected done : OrderState

pub data TradeState : Type 0 where
  matched mined confirmed retrying failed : TradeState

pub record TokenMeta : Type 0 where
  pub token_id : String
  pub outcome : String

pub record MarketMeta (F : Type 0) : Type 0 where
  pub condition_id : String
  pub question : String
  pub slug : String
  pub yes_token : TokenMeta
  pub no_token : TokenMeta
  pub tick_size : F
  pub price_decimals : ℕ
  pub neg_risk : Bool
  pub min_order_size : F
  pub rewards_min_size : F
  pub rewards_max_spread : F
  pub rewards_daily_rate : F
  pub maker_fee_bps : ℕ
  pub taker_fee_bps : ℕ
  pub fees_enabled : Bool
  pub end_date_iso : Option String
  pub event_id : Option String
  pub rebate_rate : F
  pub best_bid : F
  pub best_ask : F
  pub liquidity_num : F
  pub volume_num : F
  pub volume_24hr : F
  pub version : ProtocolVersion
  pub scanned_ts : F
  pub resolved : Bool

module _ {F : Type 0} where
  pub is_v2 : MarketMeta F → Bool
  is_v2 m = elim (m.version) [ v1 ↦ false | v2 ↦ true ]

  pub other_token : MarketMeta F → String → String
  other_token m token_id =
      let a = m.yes_token.token_id in let b = m.no_token.token_id in if token_id == a then b else a

pub record Position (F : Type 0) : Type 0 where
  pub token_id : String
  pub size : F
  pub avg_price : F

pub record OpenOrder (F : Type 0) : Type 0 where
  pub order_id : String
  pub token_id : String
  pub side : Side
  pub price : F
  pub size : F
  pub state : OrderState
  pub created_ts : F

pub record Fill (F : Type 0) : Type 0 where
  pub token_id : String
  pub side : Side
  pub price : F
  pub size : F
  pub trade_id : String
  pub ts : F
  pub is_maker : Bool

pub record Quote (F : Type 0) : Type 0 where
  pub token_id : String
  pub side : Side
  pub price : F
  pub size : F

pub record TargetQuotes (F : Type 0) : Type 0 where
  pub condition_id : String
  pub regime : Regime
  pub quotes : List (Quote F)

module _ {F : Type 0} ⦃fl : Float F⦄ where
  pub is_flat : Position F → Bool
  is_flat p = p.size <= num 0

  pub notional : OpenOrder F → F
  notional o = o.price * o.size
