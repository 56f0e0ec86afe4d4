-- ===== src/Scoring.antt =====
-- src/polymaker/catalog/scoring.py: how attractive a market is to a small maker. `15.0 ** 0.5` is the
-- square root of 15.
pub mod Income
use polymaker.Prelude.{
  ℕ, leb, String, Bool, true, false, not, ◌&&◌, ◌||◌, Option, none, some, if◌then◌else◌,
}
use polymaker.Float.{Float, num, ◌+◌, ◌-◌, ◌*◌, ◌/◌, ◌<=◌, ◌<◌, abs, min, max}
use polymaker.Domain.{MarketMeta}

pub record BookStats (F : Type 0) : Type 0 where
  pub weighted_shares : F
  pub one_minute_vol : F
  pub mid : F
  pub spread : F
  pub touch_depth : F
  pub our_distance_cents : F

pub record MarketScore (F : Type 0) : Type 0 where
  pub condition_id : String
  pub reward_daily_income : F
  pub reward_yield_pct : F
  pub rebate_potential : F
  pub competition : F
  pub toxicity : F
  pub spread : F
  pub extremity : F
  pub capital_usdc : F
  pub score : F

module _ {F : Type 0} ⦃fl : Float F⦄ where
  abbrev quoted_mid : MarketMeta F → F
  quoted_mid m =
      if (num 0 < m.best_bid) && (num 0 < m.best_ask)
      then (m.best_bid + m.best_ask) / num 2
      else fl.lit 5 1

  -- _mid
  pub market_mid : MarketMeta F → Option (BookStats F) → F
  market_mid m none = quoted_mid m
  market_mid m (some book) =
      if (num 0 < book.mid) && (book.mid < num 1) then book.mid else quoted_mid m

  unfoldable pub reward_score_weight : F → F → F
  reward_score_weight distance_cents band_cents =
      let distance = if distance_cents < num 0 then num 0 else distance_cents in
      let ratio = (band_cents - distance) / band_cents in
      if band_cents <= num 0 then num 0 else if band_cents < distance then num 0 else ratio * ratio

  unfoldable pub min_qualifying_shares : MarketMeta F → F
  min_qualifying_shares m =
      if (m.rewards_daily_rate <= num 0) || (m.rewards_max_spread <= num 0)
      then num 0
      else max (max m.rewards_min_size m.min_order_size) (num 0)

  unfoldable pub capital_for_min_order : MarketMeta F → F
  capital_for_min_order m =
      let shares = min_qualifying_shares m in if shares <= num 0 then num 0 else shares

  -- `book.spread if (book is not None and book.spread > 0) else 0.0`
  abbrev measured_spread : Option (BookStats F) → F
  measured_spread none = num 0
  measured_spread (some book) = if num 0 < book.spread then book.spread else num 0

  pub band_reachable : MarketMeta F → Option (BookStats F) → Bool
  band_reachable m book =
      let band = m.rewards_max_spread / num 100 in
      let measured = measured_spread book in
      let spread =
        if (measured <= num 0) && ((num 0 < m.best_bid) && (num 0 < m.best_ask))
        then max (num 0) (m.best_ask - m.best_bid)
        else measured in
      if band <= num 0 then false else if spread <= num 0 then true else spread <= band

  unfoldable pub reward_daily_income : MarketMeta F → Option (BookStats F) → F
  reward_daily_income m none = num 0
  reward_daily_income m (some book) =
      let shares = min_qualifying_shares m in
      let existing = max book.weighted_shares (num 0) in
      let our_score = shares * reward_score_weight book.our_distance_cents m.rewards_max_spread in
      if shares <= num 0
      then num 0
      else if not (band_reachable m (some book))
      then num 0
      else if existing <= num 0
      then num 0
      else if our_score <= num 0
      then num 0
      else m.rewards_daily_rate * (our_score / (existing + our_score))

  pub reward_yield_pct : MarketMeta F → Option (BookStats F) → F
  reward_yield_pct m book =
      let capital = capital_for_min_order m in
      if capital <= num 0 then num 0 else reward_daily_income m book / capital * num 100

  pub competition : Option (BookStats F) → F
  competition none = num 0
  competition (some book) = max book.weighted_shares (num 0)

  abbrev measured_vol : Option (BookStats F) → Option F → F
  measured_vol book (some vol_1m) = vol_1m
  measured_vol none none = num 0
  measured_vol (some book) none = book.one_minute_vol

  unfoldable pub toxicity : MarketMeta F → Option (BookStats F) → Option F → F
  toxicity m book vol_1m =
      let band = m.rewards_max_spread / num 100 in
      let sigma = measured_vol book vol_1m in
      if (band <= num 0) || (sigma <= num 0)
      then num 0
      else min (num 1) (sigma * fl.sqrt (num 15) / band)

  pub rebate_potential : MarketMeta F → F
  rebate_potential m =
      let fee_rate = num m.taker_fee_bps / num 10000 in
      let daily_fees = m.volume_24hr * fee_rate * (num 1 - market_mid m none) in
      if not m.fees_enabled || ((m.rebate_rate <= num 0) || leb m.taker_fee_bps 0)
      then num 0
      else if m.volume_24hr <= num 0
      then num 0
      else fl.round_to (daily_fees * m.rebate_rate) 2

  unfoldable pub extremity : MarketMeta F → Option (BookStats F) → F
  extremity m book = min (num 1) (abs (market_mid m book - fl.lit 5 1) / fl.lit 5 1)

  -- A price that Python takes for true.
  abbrev given : F → Bool
  given x = not ((x <= num 0) && (num 0 <= x))

  pub score_market : MarketMeta F → Option (BookStats F) → Option F → MarketScore F
  score_market m book vol_1m =
      let yield_pct = reward_yield_pct m book in
      let tox = toxicity m book vol_1m in
      let ext = extremity m book in
      let spread =
        if given m.best_bid && given m.best_ask
        then max (num 0) (m.best_ask - m.best_bid)
        else num 1 in
      let risk_discount = (num 1 - fl.lit 7 1 * tox) * (num 1 - fl.lit 5 1 * ext) in
      record {
        condition_id = m.condition_id;
        reward_daily_income = fl.round_to (reward_daily_income m book) 4;
        reward_yield_pct = fl.round_to yield_pct 4;
        rebate_potential = fl.round_to (rebate_potential m) 2;
        competition = fl.round_to (competition book) 2;
        toxicity = fl.round_to tox 4;
        spread = fl.round_to spread 4;
        extremity = fl.round_to ext 4;
        capital_usdc = fl.round_to (capital_for_min_order m) 2;
        score = fl.round_to (yield_pct * max (num 0) risk_discount) 4;
      }
