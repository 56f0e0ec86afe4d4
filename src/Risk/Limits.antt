-- ===== src/Risk/Limits.antt =====
-- risk/manager.py: the hard caps, the size taper, and the cash ledger.
use polymaker.Prelude.{◌≡◌, refl, ap, inl, inr, Bool, true, false, Option, some, arith, Bool-cases}
use polymaker.Float.{
  abs_sub_self, Float, IsFloat, num, ◌+◌, ◌-◌, ◌/◌, ◌<=◌, ◌<◌, ◌≼◌, abs, min, max, max_left,
  max_right, max_least, min_left, min_greatest, not_le→lt, lt→le,
}
use polymaker.Domain.{MarketMeta}
use polymaker.Config.{RiskConfig}
use polymaker.Store.{StateStore, position}
use polymaker.Risk.{
  RiskManager, RiskDecision, Reason, evaluate, gate, headroom, global_halt, market_notional,
  reconcile_cash, stopped, or_resting, total_exposure,
}

module _ {F : Type 0} ⦃fl : Float F⦄ where
  one_nonneg : (ok : IsFloat fl) → fl.le (num 0) (num 1) ≡ true
  one_nonneg ok = lt→le ok (num 0) (num 1) ok.zero_lt_one

  headroom_bounds :
      (ok : IsFloat fl) (current cap : F)
      → ((x : F) → (fl.lit 7 1 < x) ≡ true → (num 1 - x) / fl.lit 3 1 ≼ num 1)
      → (num 0 ≼ headroom current cap) × (headroom current cap ≼ num 1)
  unfolding headroom
  headroom_bounds ok current cap tail =
      let frac = current / cap in
      let one = one_nonneg ok in
      elim (Bool-cases (cap <= num 0)) [
        | inl uncapped ↦ rw uncapped (one, ok.le_refl (num 1))
        | inr limited ↦ rw limited (elim (Bool-cases (frac <= fl.lit 7 1)) [
          | inl low ↦ rw low (one, ok.le_refl (num 1))
          | inr high ↦ rw high (
            max_left ok (num 0) ((num 1 - frac) / fl.lit 3 1),
            max_least ok (num 0) ((num 1 - frac) / fl.lit 3 1) (num 1) one
                (tail frac (not_le→lt ok (fl.lit 7 1) frac high)),
          )
        ])
      ]

  min_within :
      (ok : IsFloat fl) (x y : F)
      → (num 0 ≼ x) × (x ≼ num 1)
      → (num 0 ≼ y) × (y ≼ num 1)
      → (num 0 ≼ min x y) × (min x y ≼ num 1)
  min_within ok x y a b =
      (min_greatest ok x y (num 0) a.0 b.0, ok.le_trans (min x y) x (num 1) (min_left ok x y) a.1)

  gate_scale :
      (ok : IsFloat fl) (cfg : RiskConfig F) (fm ft r g ev : F)
      → ((x : F) → (fl.lit 7 1 < x) ≡ true → (num 1 - x) / fl.lit 3 1 ≼ num 1)
      → let d : RiskDecision F = gate cfg fm ft r g ev in
        (num 0 ≼ d.size_scale) × (d.size_scale ≼ num 1)
  unfolding gate
  gate_scale ok cfg fm ft r g ev tail =
      let one = one_nonneg ok in
      let taper =
        min_within ok _ _
          (min_within ok _ _ (headroom_bounds ok fm cfg.max_market_notional_usdc tail)
            (headroom_bounds ok ft cfg.max_total_exposure_usdc tail))
          (headroom_bounds ok ev cfg.max_event_group_loss_usdc tail) in
      elim (Bool-cases (cfg.max_market_notional_usdc <= fm + r)) [
        | inl c ↦ rw c (one, ok.le_refl (num 1))
        | inr c ↦ rw c (elim (Bool-cases (cfg.max_event_group_loss_usdc <= ev)) [
          | inl e ↦ rw e (one, ok.le_refl (num 1))
          | inr e ↦ rw e (elim (Bool-cases (cfg.max_total_exposure_usdc <= ft + g)) [
            | inl t ↦ rw t (one, ok.le_refl (num 1))
            | inr t ↦ rw t taper
          ])
        ])
      ]

  -- A decision of the gate, by what the kill switches and the feed say.
  evaluate_cases :
      (P : RiskDecision F → Type 0) (cfg : RiskConfig F) (meta : MarketMeta F) (s : StateStore F)
      (now : F) (ws_stale : Bool) (ev r : F) (g : Option F) (rm : RiskManager F)
      → ((why : Reason) → P (stopped why))
      → ((rm' : RiskManager F)
          → P (
              gate cfg
                (market_notional meta s rm')
                (total_exposure s rm')
                (max (num 0) r)
                (or_resting g (max (num 0) r))
                ev))
      → P (evaluate cfg meta s now ws_stale ev r g rm).0
  unfolding evaluate
  evaluate_cases P cfg meta s now ws_stale ev r g rm halts gates =
      elim (Bool-cases (global_halt cfg s now rm).0) [
        | inl h ↦ rw h (halts _)
        | inr h ↦
            rw h (elim (Bool-cases ws_stale) [ inl w ↦ rw w (halts _) | inr w ↦ rw w (gates _) ])
      ]

  -- The size scale of a decision always lies in [0, 1], where a fraction past 0.7 leaves a tail of at
  -- most 0.3 of the cap.
  evaluate_scale :
      (ok : IsFloat fl) (cfg : RiskConfig F) (meta : MarketMeta F) (s : StateStore F) (now : F)
      (ws_stale : Bool) (ev r : F) (g : Option F) (rm : RiskManager F)
      → ((x : F) → (fl.lit 7 1 < x) ≡ true → (num 1 - x) / fl.lit 3 1 ≼ num 1)
      → let d = (evaluate cfg meta s now ws_stale ev r g rm).0 in
        (num 0 ≼ d.size_scale) × (d.size_scale ≼ num 1)
  evaluate_scale ok cfg meta s now ws_stale ev r g rm tail =
      evaluate_cases (λ d. (num 0 ≼ d.size_scale) × (d.size_scale ≼ num 1)) cfg meta s now ws_stale
        ev r g rm (λ why. (ok.le_refl (num 0), one_nonneg ok))
        (λ rm'. gate_scale ok cfg _ _ _ _ ev tail)

  gate_taper :
      (cfg : RiskConfig F) (fm ft r r' g g' ev : F)
      → (gate cfg fm ft r g ev).reduce_only ≡ false
      → (gate cfg fm ft r' g' ev).reduce_only ≡ false
      → gate cfg fm ft r g ev ≡ gate cfg fm ft r' g' ev
  unfolding gate
  gate_taper cfg fm ft r r' g g' ev h h' = ground arith

  gate_caps :
      (ok : IsFloat fl) (cfg : RiskConfig F) (fm ft r r' g g' ev : F)
      → r ≼ r'
      → g ≼ g'
      → (gate cfg fm ft r g ev).reduce_only ≡ true
      → (gate cfg fm ft r' g' ev).reduce_only ≡ true
  unfolding gate
  gate_caps ok cfg fm ft r r' g g' ev hr hg h = ground (
    arith,
    ok.add_mono fm fm r r' (ok.le_refl fm) hr,
    ok.add_mono ft ft g g' (ok.le_refl ft) hg,
    ok.le_trans cfg.max_market_notional_usdc (fm + r) (fm + r'),
    ok.le_trans cfg.max_total_exposure_usdc (ft + g) (ft + g'),
  )

  max_mono : (ok : IsFloat fl) (x y y' : F) → y ≼ y' → max x y ≼ max x y'
  max_mono ok x y y' h =
      max_least ok x y (max x y') (max_left ok x y') (ok.le_trans y y' _ h (max_right ok x y'))

  -- The taper measures filled inventory only: two evaluations that differ in resting orders alone,
  -- and that no hard cap stops, give the same decision.
  evaluate_taper :
      (cfg : RiskConfig F) (meta : MarketMeta F) (s : StateStore F) (now : F) (ws_stale : Bool)
      (ev r r' : F) (g g' : Option F) (rm : RiskManager F)
      → (evaluate cfg meta s now ws_stale ev r g rm).0.reduce_only ≡ false
      → (evaluate cfg meta s now ws_stale ev r' g' rm).0.reduce_only ≡ false
      → evaluate cfg meta s now ws_stale ev r g rm ≡ evaluate cfg meta s now ws_stale ev r' g' rm
  unfolding evaluate
  evaluate_taper cfg meta s now ws_stale ev r r' g g' rm h h' =
      elim (Bool-cases (global_halt cfg s now rm).0) [
        | inl e ↦ rw e refl
        | inr e ↦ rw e (elim (Bool-cases ws_stale) [
          | inl w ↦ rw w refl
          | inr w ↦
              let rm' = (global_halt cfg s now rm).2 in
              rw w (
                ap (λ d. (d, rm'))
                  (gate_taper cfg (market_notional meta s rm') (total_exposure s rm') _ _ _ _ ev
                    (ground (arith, e, w, h)) (ground (arith, e, w, h'))))
        ])
      ]

  -- A hard cap that is reached stays reached when more is resting: where a market is in REDUCE_ONLY
  -- with some resting BUY notional, it is so with any larger one, in the market and in the account.
  evaluate_caps_resting :
      (ok : IsFloat fl) (cfg : RiskConfig F) (meta : MarketMeta F) (s : StateStore F) (now : F)
      (ws_stale : Bool) (ev r r' g g' : F) (rm : RiskManager F)
      → r ≼ r'
      → g ≼ g'
      → (evaluate cfg meta s now ws_stale ev r (some g) rm).0.reduce_only ≡ true
      → (evaluate cfg meta s now ws_stale ev r' (some g') rm).0.reduce_only ≡ true
  unfolding evaluate
  evaluate_caps_resting ok cfg meta s now ws_stale ev r r' g g' rm hr hg h =
      elim (Bool-cases (global_halt cfg s now rm).0) [
        | inl e ↦ ground (arith, e, h)
        | inr e ↦ rw e (elim (Bool-cases ws_stale) [
          | inl w ↦ ground (arith, e, w, h)
          | inr w ↦
              let rm' = (global_halt cfg s now rm).2 in
              rw w (
                gate_caps ok cfg (market_notional meta s rm') (total_exposure s rm') _ _ _ _ ev
                  (max_mono ok (num 0) r r' hr) (max_mono ok (num 0) g g' hg)
                  (ground (arith, e, w, h)))
        ])
      ]

  -- A balanced YES/NO pair carries no directional risk, at any marks.
  market_notional_balanced :
      (ok : IsFloat fl) (meta : MarketMeta F) (s : StateStore F) (rm : RiskManager F)
      → (position s meta.yes_token.token_id).size ≡ (position s meta.no_token.token_id).size
      → market_notional meta s rm ≡ num 0
  unfolding market_notional
  market_notional_balanced ok meta s rm same =
      let x = (position s meta.no_token.token_id).size in
      let even : min x x ≡ x = ground arith in
      let zero_left : max (num 0) (x - x) ≡ num 0 = rw (ok.sub_self x) (ground arith) in
      rw (same, even, zero_left, ok.zero_mul, ok.zero_mul, ok.add_zero) refl

  -- After an adjustment the ledger is the exchange's cash, the day's baseline is where it was, and a
  -- second reading of the same balance changes nothing.
  reconcile_cash_adjusts :
      (ok : IsFloat fl) (cash : F) (rm : RiskManager F)
      → (num 0 < fl.lit 1 2) ≡ true
      → (abs (cash - rm.net_cash) < fl.lit 1 2) ≡ false
      → let rm' : RiskManager F = (reconcile_cash cash rm).0 in
        (rm'.net_cash ≡ cash)
        × (rm'.day_start_equity ≡ rm.day_start_equity)
        × (reconcile_cash cash rm' ≡ (rm', num 0))
  unfolding reconcile_cash
  reconcile_cash_adjusts ok cash rm cent h = rw h (refl, refl, rw (abs_sub_self ok cash, cent) refl)
