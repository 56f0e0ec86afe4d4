-- ===== src/Engine/Inputs.antt =====
-- src/polymaker/engine.py: what a pass of a market's quoter reads and decides on.
use polymaker.Prelude.{
  ℕ, String, false, ◌||◌, Option, none, some, List, [], ◌∷◌, ◌++◌, ◌==◌, mem, Dict, lookup, erase,
  get_or, if◌then◌else◌,
}
use polymaker.Float.{Float, num, ◌+◌, ◌-◌, ◌*◌, ◌/◌, ◌<=◌, ◌<◌, abs}
use polymaker.Domain.{MarketMeta, OpenOrder, Regime}
use polymaker.Store.{StateStore, orders_for, position}
use polymaker.Risk.{RiskDecision, RiskManager, update_mark, resting_buy_notional, evaluate}
use polymaker.Regime.{RegimeInputs}
use polymaker.Estimators.{flow_decay_to, flow_z, on_fair_value, vol_ratio, short_vol, toxicity}
use polymaker.Orderbook.{SortedDict, OrderBook, BookView, best_bid, best_ask, microprice, view}
use polymaker.Quoting.{QuoteInputs, compute_fair_value, exit_urgency}
use polymaker.Engine.{Market, Settings, Engine, yes_id, no_id, put_market, token_fv, blind_state}
use polymaker.Engine.Sync.{live_orders}

-- What a pass decides on: the fair value, the risk decision and the posture.
pub record Pass (F : Type 0) : Type 0 where
  pub now : F
  pub micro : F
  pub fv : F
  pub prev_fv : Option F
  pub hours_to_end : Option F

module _ {F : Type 0} where
  -- `{t for m in self.metas.values() for t in (...)}`
  unfoldable pub all_tokens : Dict (Market F) → List String
  all_tokens [] = []
  all_tokens ((cid, m) ∷ ms) =
      let rest = all_tokens ms in
      let more = if mem (no_id m) rest then rest else no_id m ∷ rest in
      if mem (yes_id m) more then more else yes_id m ∷ more

  unfoldable pub orders_of : List String → StateStore F → List (OpenOrder F)
  orders_of [] s = []
  orders_of (t ∷ ts) s = orders_for t s ++ orders_of ts s

module _ {F : Type 0} ⦃fl : Float F⦄ where
  -- `_hours_to_end`, given the reading of an ISO date: a date that is past counts as unknown.
  unfoldable pub hours_to_end : (String → Option F) → Option String → F → Option F
  hours_to_end timestamp none now = none
  hours_to_end timestamp (some text) now = elim (timestamp text) [
    | none ↦ none
    | some ts ↦
        let hrs = (ts - now) / num 3600 in
        if text == "" then none else if num 0 < hrs then some hrs else none
  ]

  -- `_empty_view()`
  abbrev pub empty_view : BookView F
  empty_view = record {
    best_bid = none;
    best_bid_size = num 0;
    best_ask = none;
    best_ask_size = num 0;
    second_bid = none;
    second_ask = none;
    bid_depth = num 0;
    ask_depth = num 0;
  }

  -- `book.view()` with its default band, or the empty view.
  abbrev pub view_of : {D : Type 0} → SortedDict D F → Option (OrderBook D F) → BookView F
  view_of sd none = empty_view
  view_of sd (some book) = view sd (fl.lit 5 2) (num 0) book

  abbrev pub add_cost : StateStore F → F → String → F
  add_cost s cost tok = let pos = position s tok in cost + pos.size * pos.avg_price

  -- The loop of `_event_group_cost`.
  unfoldable pub group_cost : String → StateStore F → Dict (Market F) → F → F
  group_cost event_id s [] cost = cost
  group_cost event_id s ((cid, m) ∷ ms) cost = group_cost event_id s ms (elim (m.meta.event_id) [
    | none ↦ cost
    | some id ↦ if id == event_id then add_cost s (add_cost s cost (yes_id m)) (no_id m) else cost
  ])

  unfoldable pub event_group_cost : MarketMeta F → StateStore F → Dict (Market F) → F
  unfolding group_cost
  event_group_cost meta s markets = elim (meta.event_id) [
    | none ↦ num 0
    | some id ↦ if id == "" then num 0 else group_cost id s markets (num 0)
  ]

module _ {D F : Type 0} ⦃fl : Float F⦄ where
  -- The microprice of a book that can be quoted on: both sides present and not crossed.
  unfoldable pub usable_micro : SortedDict D F → ℕ → Option (OrderBook D F) → Option F
  usable_micro sd levels none = none
  usable_micro sd levels (some book) = elim (best_bid sd book) as (λ x. Option F) [
    | none ↦ none
    | some bb ↦ elim (best_ask sd book) as (λ x. Option F) [
      | none ↦ none
      | some ba ↦ if ba.price <= bb.price then none else microprice sd levels book
    ]
  ]

  -- The estimators, the marks and the book flag of a healthy pass.
  unfoldable pub observe : String → Market F → F → F → Engine D F → Engine D F × Market F × F
  unfolding put_market
  observe cid m micro now e =
      let flow = flow_decay_to now m.est.flow in
      let fv = compute_fair_value micro (flow_z flow) m.meta.tick_size (fl.lit 5 1) in
      let (est, resolved) =
        on_fair_value fv now (some (yes_id m)) (some (token_fv e))
          (record (m.est) { flow = flow }) in
      let m' = record m { est = est } in
      let seen = put_market cid m' e in
      (
        record seen {
          book_unusable_since = erase cid e.book_unusable_since;
          risk_manager =
              update_mark (no_id m) (num 1 - fv) (update_mark (yes_id m) fv e.risk_manager);
        },
        m',
        fv,
      )

  -- `risk.evaluate` as the pass calls it.
  unfoldable pub assess :
      Settings F → String → Market F → F → Engine D F → RiskDecision F × RiskManager F
  unfolding all_tokens orders_of event_group_cost
  assess cfg cid m now e =
      let tokens = all_tokens e.markets in
      evaluate cfg.risk m.meta e.store now (blind_state cfg cid now e)
        (event_group_cost m.meta e.store e.markets)
        (resting_buy_notional (live_orders m e.store) (yes_id m ∷ no_id m ∷ []))
        (some (resting_buy_notional (orders_of tokens e.store) tokens)) e.risk_manager

  -- The inputs of the regime machine.
  abbrev pub regime_inputs :
      Settings F → String → Market F → Pass F → RiskDecision F → Engine D F → RegimeInputs F
  regime_inputs cfg cid m p rd e =
      let pos_yes = position e.store (yes_id m) in
      let pos_no = position e.store (no_id m) in
      let q_max = m.profile.q_max_usdc in
      record {
        now = p.now;
        tick = m.meta.tick_size;
        fv = p.fv;
        prev_fv = p.prev_fv;
        vol_ratio = vol_ratio m.est.vol;
        flow_z = flow_z m.est.flow;
        inventory_util =
            if num 0 < q_max then abs (pos_yes.size - pos_no.size) * p.fv / q_max else num 0;
        hours_to_end = p.hours_to_end;
        sweep_flagged = get_or false cid e.sweep;
        market_resolved = false;
        ws_stale = blind_state cfg cid p.now e;
        risk_halt = rd.halt;
        risk_reduce_only = rd.reduce_only;
      }

  abbrev pub urgency : Market F → Pass F → RiskDecision F → String → Engine D F → F
  urgency m p rd tok e =
      if rd.halt || rd.reduce_only
      then num 1
      else exit_urgency (p.now - get_or p.now tok e.position_since) m.profile.exit_urgency_s

  abbrev pub quote_inputs :
      SortedDict D F → Market F → Pass F → RiskDecision F → Regime → Engine D F → QuoteInputs F
  quote_inputs sd m p rd regime e = record {
    meta = m.meta;
    regime = regime;
    fv = p.fv;
    vol_short = short_vol m.est.vol;
    toxicity = toxicity m.est.markout;
    yes_view = view_of sd (lookup (yes_id m) e.books);
    no_view = view_of sd (lookup (no_id m) e.books);
    pos_yes = position e.store (yes_id m);
    pos_no = position e.store (no_id m);
    profile = m.profile;
    now = p.now;
    risk_size_scale = rd.size_scale;
    yes_exit_urgency = urgency m p rd (yes_id m) e;
    no_exit_urgency = urgency m p rd (no_id m) e;
    mid_price = p.micro;
  }
