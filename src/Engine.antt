-- ===== src/Engine.antt =====
-- src/polymaker/engine.py: the state of the engine, its callbacks and its clocks.
-- The dicts `metas`, `profiles`, `est`, `regime_m`, `_dirty` and `_locks`, which `_register_market`
-- writes together and nothing shrinks, are one dict of markets. An asyncio.Event is its flag. The
-- markets' locks make a pass atomic, so a pass is a function. Requests to the exchange are logged in
-- `sent`, scheduled merges in `merges`; the journal and the alerts are output and left out.

pub mod Sync
pub mod Divergence
pub mod Inputs
pub mod Requote
pub mod Halts
pub mod Requests
pub mod Fills
pub mod Refresh
pub mod Resolve
pub mod Fallback
pub mod Registered
pub mod Unreadable
use polymaker.Prelude.{
  ℕ, String, Bool, true, false, not, ◌&&◌, ◌||◌, Option, none, some, List, [], ◌∷◌, ◌++◌, ◌==◌, leb,
  mem, is_some, or_else, Dict, lookup, contains, insert, erase, get_or, set_default, values,
  if◌then◌else◌,
}
use polymaker.Float.{Float, num, ◌+◌, ◌-◌, ◌*◌, ◌/◌, ◌<=◌, ◌<◌, min, max}
use polymaker.Domain.{
  Side, buy, same_side, MarketMeta, Position, OpenOrder, Fill, Quote, other_token,
}
use polymaker.Config.{StrategyProfile, RiskConfig}
use polymaker.Store.{StateStore, position}
use polymaker.Risk.{RiskManager, note_fill, global_halt}
use polymaker.Regime.{RegimeMachine, new_machine, cooloff_remaining}
use polymaker.Estimators.{MarketEstimators, flow_update, record_fill}
use polymaker.Orderbook.{SortedDict, OrderBook, best_bid, best_ask, depth_within}

-- What the engine keeps of a market it quotes; `dirty` is the wake-up event of its quoter.
pub record Market (F : Type 0) : Type 0 where
  pub meta : MarketMeta F
  pub profile : StrategyProfile F
  pub est : MarketEstimators F
  pub regime_m : RegimeMachine F
  pub dirty : Bool

-- A websocket's flag, and when it was lost.
pub record Link (F : Type 0) : Type 0 where
  pub connected : Bool
  pub disconnected_since : F

-- The settings of `cfg` that the engine reads, with its `paper` flag.
pub record Settings (F : Type 0) : Type 0 where
  pub risk : RiskConfig F
  pub paper : Bool
  pub heartbeat : Bool
  pub reconcile_interval_s : F

-- A call of the gateway that changes the exchange.
pub data Request (F : Type 0) : Type 0 where
  cancels : List String → Request F
  cancels_asset : String → Request F
  places : List (Quote F) → Request F

pub record Engine (D F : Type 0) : Type 0 where
  pub markets : Dict (Market F)
  pub token_cid : Dict String
  pub sweep : Dict Bool
  pub merging : List String
  pub halted : List String
  pub last_quote_fv : Dict F
  pub position_since : Dict F
  pub book_unusable_since : Dict F
  pub store : StateStore F
  pub risk_manager : RiskManager F
  pub books : Dict (OrderBook D F)
  pub market_link : Link F
  pub user_link : Option (Link F)
  pub user_started : Bool
  pub heartbeat_failures : ℕ
  pub hb_was_down : Bool
  pub reconcile_now : Bool
  pub sent : List (Request F)
  pub merges : List (String × F)

-- `TradePrint` of src/polymaker/marketdata/parse.py
pub record TradePrint (F : Type 0) : Type 0 where
  pub asset_id : String
  pub price : F
  pub size : F
  pub aggressor : Side
  pub ts : F

module _ {F : Type 0} where
  abbrev pub yes_id : Market F → String
  yes_id m = m.meta.yes_token.token_id

  abbrev pub no_id : Market F → String
  no_id m = m.meta.no_token.token_id

  -- The loop of `_wake_all` over the markets.
  unfoldable pub wake_markets : Dict (Market F) → Dict (Market F)
  wake_markets [] = []
  wake_markets ((cid, m) ∷ ms) = (cid, record m { dirty = true }) ∷ wake_markets ms

module _ {D F : Type 0} where
  unfoldable pub put_market : String → Market F → Engine D F → Engine D F
  put_market cid m e = record e { markets = insert cid m e.markets }

  unfoldable pub send : Request F → Engine D F → Engine D F
  send r e = record e { sent = e.sent ++ r ∷ [] }

  -- _on_dirty and _wake_cid
  unfoldable pub wake_cid : String → Engine D F → Engine D F
  unfolding put_market
  wake_cid cid e = elim (lookup cid e.markets) [
    | none ↦ e
    | some m ↦ put_market cid (record m { dirty = true }) e
  ]

  unfoldable pub wake_all : Engine D F → Engine D F
  unfolding wake_markets
  wake_all e = record e { markets = wake_markets e.markets }

  unfoldable pub on_user_reconnect : Engine D F → Engine D F
  on_user_reconnect e = record e { reconcile_now = true }

  -- `self._token_cid.get(token_id)`
  abbrev pub cid_of_token : String → Engine D F → Option String
  cid_of_token token_id e = lookup token_id e.token_cid

  -- The market of a token we trade.
  unfoldable pub market_of_token : String → Engine D F → Option (String × Market F)
  market_of_token token_id e =
      elim (lookup token_id e.token_cid) as (λ x. Option (String × Market F)) [
        | none ↦ none
        | some cid ↦ elim (lookup cid e.markets) as (λ x. Option (String × Market F)) [
          | none ↦ none
          | some m ↦ some (cid, m)
        ]
      ]

  -- _other_token
  unfoldable pub other_token_of : String → Engine D F → Option String
  unfolding market_of_token
  other_token_of token_id e = elim (market_of_token token_id e) as (λ x. Option String) [
    | none ↦ none
    | some (cid, m) ↦ some (other_token m.meta token_id)
  ]

  unfoldable pub register_market :
      MarketMeta F
      → StrategyProfile F
      → MarketEstimators F
      → RegimeMachine F
      → Engine D F
      → Engine D F
  register_market meta profile est machine e = record e {
    markets =
        insert meta.condition_id
          (record { meta = meta; profile = profile; est = est; regime_m = machine; dirty = false })
          e.markets;
    token_cid =
        insert meta.no_token.token_id meta.condition_id
          (insert meta.yes_token.token_id meta.condition_id e.token_cid);
  }

module _ {F : Type 0} ⦃fl : Float F⦄ where
  -- The loop of `_seed_position_clocks`.
  unfoldable pub seed_clocks : F → Dict (Position F) → Dict F → Dict F
  seed_clocks ts [] since = since
  seed_clocks ts ((token_id, pos) ∷ ps) since =
      seed_clocks ts ps (if num 0 < pos.size then set_default token_id ts since else since)

  -- The fair value of YES in the price space of a token of the market.
  abbrev pub token_space : Market F → F → String → F
  token_space m yes_fv token_id = if token_id == yes_id m then yes_fv else num 1 - yes_fv

  -- A link that has been down for longer than the limit.
  abbrev pub lost : F → F → Link F → Bool
  lost now limit l = not l.connected && (limit < now - l.disconnected_since)

module _ {D F : Type 0} ⦃fl : Float F⦄ where
  -- The depth that a print of the given side consumed.
  unfoldable pub consumed_depth : SortedDict D F → Side → F → F → OrderBook D F → F
  consumed_depth sd aggressor bid ask book =
      if same_side aggressor buy
      then depth_within sd Side.sell ask (ask + num 3 * book.tick_size) book
      else depth_within sd Side.buy (bid - num 3 * book.tick_size) bid book

  -- Whether a print of a market with profile p flags a sweep.
  unfoldable pub sweeps :
      SortedDict D F → StrategyProfile F → TradePrint F → Option (OrderBook D F) → Bool
  unfolding consumed_depth
  sweeps sd p tp none = false
  sweeps sd p tp (some book) = elim (best_bid sd book) [
    | none ↦ false
    | some bb ↦ elim (best_ask sd book) [
      | none ↦ false
      | some ba ↦
          let base = p.base_size_usdc / max tp.price (fl.lit 1 2) in
          let consumed = consumed_depth sd tp.aggressor bb.price ba.price book in
          not (tp.size < p.event_sweep_mult * base)
          && ((num 0 < consumed) && (p.event_sweep_frac * consumed <= tp.size))
    ]
  ]

  -- `_on_trade`; the scale of the flow estimator is its default, 1.
  unfoldable pub on_trade_print : SortedDict D F → TradePrint F → Engine D F → Engine D F
  unfolding market_of_token put_market sweeps
  on_trade_print sd tp e = elim (market_of_token tp.asset_id e) [
    | none ↦ e
    | some (cid, m) ↦
        let flow = flow_update tp.aggressor tp.size tp.ts (num 1) m.est.flow in
        let fed = put_market cid (record m { est = record (m.est) { flow = flow } }) e in
        if sweeps sd m.profile tp (lookup tp.asset_id e.books)
        then record fed { sweep = insert cid true fed.sweep }
        else fed
  ]

  -- `_sync_position_clock`
  unfoldable pub sync_position_clock : String → F → F → Engine D F → Engine D F
  sync_position_clock token_id size ts e = record e {
    position_since =
        if num 0 < size
        then set_default token_id ts e.position_since
        else erase token_id e.position_since;
  }

  unfoldable pub seed_position_clocks : F → Engine D F → Engine D F
  unfolding seed_clocks
  seed_position_clocks now e = record e {
    position_since = seed_clocks now e.store.positions e.position_since;
  }

  -- `_token_fv` without a market: a token we do not know keeps the value.
  unfoldable pub token_fv : Engine D F → F → String → F
  unfolding market_of_token
  token_fv e yes_fv token_id = elim (market_of_token token_id e) [
    | none ↦ yes_fv
    | some (cid, m) ↦ token_space m yes_fv token_id
  ]

  -- `_on_fill`, given the test that a trade id ends in ":reverse".
  unfoldable pub on_fill : (String → Bool) → Fill F → Engine D F → Engine D F
  unfolding market_of_token put_market sync_position_clock
  on_fill is_reversal fill e = elim (market_of_token fill.token_id e) [
    | none ↦ e
    | some (cid, m) ↦
        let counted = record e { risk_manager = note_fill fill e.risk_manager } in
        let clocked =
          sync_position_clock fill.token_id (position e.store fill.token_id).size fill.ts counted in
        let fv = or_else fill.price m.est.last_fv in
        let markout =
          record_fill fill.side (token_space m fv fill.token_id) fill.ts fill.token_id
            m.est.markout in
        if is_reversal fill.trade_id
        then counted
        else put_market cid (record m { est = record (m.est) { markout = markout } }) clocked
  ]

  -- `_next_wake_s`
  unfoldable pub next_wake_s : String → F → F → Engine D F → F
  next_wake_s cid base_tick now e = elim (lookup cid e.markets) [
    | none ↦ max (num 1) base_tick
    | some m ↦
        let cd = cooloff_remaining m.regime_m now in
        let cooled = if num 0 < cd then min base_tick (cd + fl.lit 5 1) else base_tick in
        let held = (position e.store (yes_id m)).size + (position e.store (no_id m)).size in
        max (num 1) (if m.meta.min_order_size <= held then min cooled (num 10) else cooled)
  ]

  abbrev pub market_stale : Settings F → F → Engine D F → Bool
  market_stale cfg now e =
      (num 0 < e.market_link.disconnected_since) && lost now cfg.risk.ws_stale_halt_s e.market_link

  abbrev pub user_blind : Settings F → F → Engine D F → Bool
  user_blind cfg now e =
      e.user_started
      && elim (e.user_link) [ none ↦ false | some l ↦ lost now cfg.risk.user_ws_blind_halt_s l ]

  abbrev pub hb_blind : Settings F → Engine D F → Bool
  hb_blind cfg e =
      not cfg.paper && (cfg.heartbeat && leb cfg.risk.heartbeat_halt_failures e.heartbeat_failures)

  -- The first component of `_blind_state`.
  unfoldable pub blind_state : Settings F → String → F → Engine D F → Bool
  blind_state cfg cid now e =
      market_stale cfg now e || (user_blind cfg now e || (hb_blind cfg e || mem cid e.halted))

  -- `_halted_or_blind`: the answer, and the risk manager after its error window was pruned.
  unfoldable pub halted_or_blind : Settings F → String → F → Engine D F → Bool × RiskManager F
  unfolding blind_state
  halted_or_blind cfg cid now e =
      let (stopped, why, rm) = global_halt cfg.risk e.store now e.risk_manager in
      if blind_state cfg cid now e then (true, e.risk_manager) else (stopped, rm)
