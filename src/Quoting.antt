-- ===== src/Quoting.antt =====
-- src/polymaker/strategy/quoting.py: from market state, inventory and parameters to target quotes.
-- A helper that appends to the shared quote list returns what it appends, and `construct_quotes`
-- joins the pieces in the source's order. The keyword arguments are explicit arguments.
pub mod Safety
use polymaker.Prelude.{
  ℕ, zero, suc, ◌-◌ as sub_nat, ◌*◌ as mul_nat, String, Bool, true, false, not, ◌&&◌, ◌||◌, Option,
  none, some, List, [], ◌∷◌, ◌++◌, if◌then◌else◌, is_some,
}
use polymaker.Float.{Float, num, ◌+◌, ◌-◌, ◌*◌, ◌/◌, ◌<=◌, ◌<◌, abs, min, max}
use polymaker.Domain.{
  Side, buy, sell, Regime, quiet, trending, event, reduce_only, halted, MarketMeta, Position, Quote,
  TargetQuotes,
}
use polymaker.Config.{StrategyProfile}
use polymaker.Orderbook.{BookView}

pub record QuoteInputs (F : Type 0) : Type 0 where
  pub meta : MarketMeta F
  pub regime : Regime
  pub fv : F
  pub vol_short : F
  pub toxicity : F
  pub yes_view : BookView F
  pub no_view : BookView F
  pub pos_yes : Position F
  pub pos_no : Position F
  pub profile : StrategyProfile F
  pub now : F
  pub risk_size_scale : F
  pub yes_exit_urgency : F
  pub no_exit_urgency : F
  pub mid_price : F

-- `a == b` and `a is b` on Regime
unfoldable pub same_regime : Regime → Regime → Bool
same_regime quiet quiet = true
same_regime trending trending = true
same_regime event event = true
same_regime reduce_only reduce_only = true
same_regime halted halted = true
same_regime _ _ = false

module _ {F : Type 0} ⦃fl : Float F⦄ where
  -- _EPS = 1e-9
  abbrev pub tiny : F
  tiny = fl.lit 1 9

  abbrev pub half : F
  half = fl.lit 5 1

  unfoldable pub round_to_tick : F → F → ℕ → Bool → F
  round_to_tick price tick decimals up =
      let n = price / tick in
      let k = if up then fl.ceil (n - tiny) else fl.floor (n + tiny) in
      let p = fl.round_to (k * tick) decimals in min (max p tick) (num 1 - tick)

  unfoldable pub compute_fair_value : F → F → F → F → F
  compute_fair_value microprice flow_z tick weight =
      let fv = microprice + weight * flow_z * tick in min (max fv tick) (num 1 - tick)

  -- _clamp
  abbrev pub clamp : F → F → F → F
  clamp x lo hi = min (max x lo) hi

  -- `view.best_bid is not None and price >= view.best_bid`, for either touch
  abbrev pub reaches : F → Option F → Bool
  reaches price none = false
  reaches price (some touch) = touch <= price

  -- `mid is not None and reward_band > 0`
  abbrev pub banded : Option F → F → Bool
  banded mid reward_band = is_some mid && (num 0 < reward_band)

  abbrev or_else_float : Option F → F → F
  or_else_float none x = x
  or_else_float (some y) x = y

  -- _place_bid before the price is snapped to the grid
  unfoldable pub bid_price : F → BookView F → F → F → ℕ → Option F → F → F
  bid_price target view tick fv min_edge_ticks mid reward_band =
      let under = min target (fv - num min_edge_ticks * tick) in
      let capped =
        if banded mid reward_band
        then min under (or_else_float mid (num 0) + reward_band - tick)
        else under in
      let joined =
        if reaches capped view.best_bid then or_else_float view.best_bid capped else capped in
      if reaches joined view.best_ask then or_else_float view.best_ask joined - tick else joined

  -- _place_bid
  unfoldable pub place_bid : F → BookView F → F → ℕ → F → ℕ → Option F → F → Option F
  place_bid target view tick dec fv min_edge_ticks mid reward_band =
      let p =
        round_to_tick (bid_price target view tick fv min_edge_ticks mid reward_band) tick dec
          false in
      if (p <= num 0) || (num 1 <= p)
      then none
      else if reaches p view.best_ask
      then none
      else some p

  -- _size_shares
  unfoldable pub size_shares : F → F → F → MarketMeta F → F
  size_shares base_usdc price scale m =
      let shares = (base_usdc / max price m.tick_size) * max scale (num 0) in
      if num 0 < shares then fl.round_to shares 2 else num 0

  -- The `per` of _add_layers at n layers.
  abbrev pub per_layer : F → ℕ → F
  per_layer total_size n = fl.round_to (total_size / num n) 2

  -- A size that the loop of _add_layers consolidates.
  abbrev pub too_small : F → F → F → Bool
  too_small exchange_min reward_floor per =
      (per < exchange_min) || ((num 0 < reward_floor) && (per < reward_floor))

  -- The `while layers > 1` loop of _add_layers, counting the layers beyond the first.
  unfoldable pub consolidate : F → F → F → ℕ → ℕ
  consolidate total_size exchange_min reward_floor zero = zero
  consolidate total_size exchange_min reward_floor (suc k) =
      let fewer = consolidate total_size exchange_min reward_floor k in
      if too_small exchange_min reward_floor (per_layer total_size (suc (suc k)))
      then fewer
      else suc k

  -- `mid is not None and reward_band > 0 and abs(mid - price) > reward_band + _EPS`
  abbrev pub out_of_band : Option F → F → F → Bool
  out_of_band none reward_band price = false
  out_of_band (some mid) reward_band price =
      (num 0 < reward_band) && (reward_band + tiny < abs (mid - price))

  abbrev pub layer_price : F → F → ℕ → ℕ → Bool → ℕ → F
  layer_price top_price tick dec step_ticks down i =
      let offset = num (mul_nat i step_ticks) * tick in
      fl.round_to (if down then top_price - offset else top_price + offset) dec

  -- The `for i in range(layers)` loop of _add_layers: n levels from level i on.
  unfoldable pub layers_from :
      String → Side → F → F → ℕ → F → ℕ → Bool → Option F → F → ℕ → ℕ → List (Quote F)
  layers_from token_id side top_price tick dec per step_ticks down mid reward_band i zero = []
  layers_from token_id side top_price tick dec per step_ticks down mid reward_band i (suc n) =
      let price = layer_price top_price tick dec step_ticks down i in
      let rest =
        layers_from token_id side top_price tick dec per step_ticks down mid reward_band (suc i)
          n in
      if out_of_band mid reward_band price
      then []
      else if (num 0 < price) && (price < num 1)
      then record { token_id = token_id; side = side; price = price; size = per } ∷ rest
      else rest

  -- _add_layers
  unfoldable pub add_layers :
      String → Side → F → F → ℕ → F → ℕ → ℕ → Bool → F → F → Option F → F → List (Quote F)
  add_layers token_id side top_price tick dec total_size layers step_ticks down exchange_min
        reward_min mid reward_band =
      let reward_floor = max reward_min exchange_min in
      let n = suc (consolidate total_size exchange_min reward_floor (sub_nat layers 1)) in
      let per = per_layer total_size n in
      if total_size <= num 0
      then []
      else if (per < exchange_min) || (per <= num 0)
      then []
      else if (num 0 < reward_floor) && (per < reward_floor)
      then []
      else layers_from token_id side top_price tick dec per step_ticks down mid reward_band 0 n

  -- The price of _maybe_exit.
  unfoldable pub exit_price : F → F → BookView F → F → ℕ → F → Regime → F
  exit_price token_fv delta view tick dec urgency regime =
      let passive = token_fv + delta in
      let urgent = if same_regime regime reduce_only then max urgency half else urgency in
      let walk : F → F = λ lowest. passive * (num 1 - urgent) + lowest * urgent in
      let target = elim (view.best_bid) as (λ x. F) [
        | none ↦ walk passive
        | some bid ↦ max (walk (bid + tick)) (bid + tick)
      ] in
      round_to_tick target tick dec true

  -- _maybe_exit
  unfoldable pub maybe_exit :
      String → Position F → F → F → BookView F → F → ℕ → F → MarketMeta F → Regime → List (Quote F)
  maybe_exit token_id pos token_fv delta view tick dec urgency m regime =
      let price = exit_price token_fv delta view tick dec urgency regime in
      let size = fl.floor (pos.size * num 100) / num 100 in
      if pos.size < m.min_order_size
      then []
      else if ((num 0 < price) && (price < num 1)) && (m.min_order_size <= size)
      then record { token_id = token_id; side = sell; price = price; size = size } ∷ []
      else []

  -- exit_urgency
  unfoldable pub exit_urgency : F → F → F
  exit_urgency held_s half_life_s =
      let u = held_s / half_life_s in
      if half_life_s <= num 0 then num 1 else if u <= num 0 then num 0 else min (num 1) (u * u)

  -- u: inventory in YES-equivalent shares over the largest position, in [-1, 1]
  unfoldable pub inventory_share : QuoteInputs F → F
  inventory_share inp =
      let net_shares = inp.pos_yes.size - inp.pos_no.size in
      let q_max_shares = inp.profile.q_max_usdc / max inp.fv inp.meta.tick_size in
      if num 0 < q_max_shares
      then clamp (net_shares / q_max_shares) (fl.neg (num 1)) (num 1)
      else num 0

  abbrev pub quote_mid : QuoteInputs F → F
  quote_mid inp = if num 0 < inp.mid_price then inp.mid_price else inp.fv

  abbrev pub reward_band : QuoteInputs F → F
  reward_band inp = inp.meta.rewards_max_spread / num 100

  -- delta: the half-spread, kept inside the scoring band when QUIET
  unfoldable pub half_spread : QuoteInputs F → F
  half_spread inp =
      let p = inp.profile in
      let tick = inp.meta.tick_size in
      let base = num p.delta_min_ticks * tick in
      let delta = base + p.c_vol * inp.vol_short + p.c_tox * inp.toxicity in
      let room = reward_band inp - abs (inp.fv - quote_mid inp) - num p.min_edge_ticks * tick in
      let bounded =
        if same_regime inp.regime quiet && (num 0 < reward_band inp)
        then if base - tiny <= room then clamp delta base (max base room) else delta
        else delta in
      max bounded tick

  -- r: the reservation price
  abbrev pub reservation : QuoteInputs F → F
  reservation inp = inp.fv - inp.profile.gamma * inp.vol_short * inventory_share inp

  abbrev pub common_scale : QuoteInputs F → F
  common_scale inp =
      let regime_scale = if same_regime inp.regime trending then half else num 1 in
      let tox_scale = num 1 / (num 1 + inp.toxicity * num 10) in
      regime_scale * tox_scale * clamp inp.risk_size_scale (num 0) (num 1)

  -- One entry leg: its placed price, if any, and the layers below it.
  unfoldable pub entry_leg : QuoteInputs F → String → F → BookView F → F → F → F → List (Quote F)
  entry_leg inp token_id target view token_fv mid u =
      let m = inp.meta in
      let p = inp.profile in
      elim (place_bid target view m.tick_size m.price_decimals token_fv p.min_edge_ticks (some mid)
          (reward_band inp))
        as (λ x. List (Quote F)) [
          | none ↦ []
          | some price ↦
              add_layers token_id buy price m.tick_size m.price_decimals
                (size_shares p.base_size_usdc price (common_scale inp * (num 1 - max u (num 0))) m)
                p.layers p.layer_step_ticks true m.min_order_size
                (m.rewards_min_size * p.reward_size_mult) (some mid) (reward_band inp)
        ]

  abbrev pub add_yes : QuoteInputs F → Bool
  add_yes inp =
      not (same_regime inp.regime reduce_only) && (inventory_share inp < inp.profile.q_soft_frac)

  abbrev pub add_no : QuoteInputs F → Bool
  add_no inp =
      not (same_regime inp.regime reduce_only)
      && (fl.neg inp.profile.q_soft_frac < inventory_share inp)

  unfoldable pub yes_entry : QuoteInputs F → List (Quote F)
  yes_entry inp =
      let leg =
        entry_leg inp inp.meta.yes_token.token_id (reservation inp - half_spread inp) inp.yes_view
          inp.fv (quote_mid inp) (inventory_share inp) in
      if add_yes inp then leg else []

  unfoldable pub no_entry : QuoteInputs F → List (Quote F)
  no_entry inp =
      let leg =
        entry_leg inp inp.meta.no_token.token_id (num 1 - reservation inp - half_spread inp)
          inp.no_view (num 1 - inp.fv) (num 1 - quote_mid inp) (fl.neg (inventory_share inp)) in
      if add_no inp then leg else []

  abbrev pub yes_exit : QuoteInputs F → List (Quote F)
  yes_exit inp =
      maybe_exit inp.meta.yes_token.token_id inp.pos_yes inp.fv (half_spread inp) inp.yes_view
        inp.meta.tick_size inp.meta.price_decimals inp.yes_exit_urgency inp.meta inp.regime

  abbrev pub no_exit : QuoteInputs F → List (Quote F)
  no_exit inp =
      maybe_exit inp.meta.no_token.token_id inp.pos_no (num 1 - inp.fv) (half_spread inp)
        inp.no_view inp.meta.tick_size inp.meta.price_decimals inp.no_exit_urgency inp.meta
        inp.regime

  unfoldable pub construct_quotes : QuoteInputs F → TargetQuotes F
  construct_quotes inp =
      let active = yes_entry inp ++ no_entry inp ++ yes_exit inp ++ no_exit inp in
      record {
        condition_id = inp.meta.condition_id;
        regime = inp.regime;
        quotes =
            if same_regime inp.regime event || same_regime inp.regime halted then [] else active;
      }
