-- ===== src/Regime/Cooloff.antt =====
-- strategy/regime.py: the EVENT cool-off over a run of decisions.
use polymaker.Prelude.{◌≡◌, refl, ◌⊎◌, inl, true, false, ◌||◌, List, [], ◌∷◌, All, arith}
use polymaker.Float.{Float, IsFloat, ◌+◌, ◌<◌, ◌≼◌, lt-lt_of_le}
use polymaker.Domain.{Regime, event, halted}
use polymaker.Config.{StrategyProfile}
use polymaker.Regime.{RegimeInputs, RegimeMachine, within, decide}

-- The regimes in which no quote rests.
abbrev pub Pulled : Regime → Type 0
Pulled r = (r ≡ event) ⊎ (r ≡ halted)

module _ {F : Type 0} ⦃fl : Float F⦄ (p : StrategyProfile F) where
  -- The decisions of one market in order, each from the machine that the last one left.
  pub decide_all : RegimeMachine F → List (RegimeInputs F) → List Regime
  decide_all rm [] = []
  decide_all rm (inp ∷ inps) = let (r, rm') = decide rm inp p in r ∷ decide_all rm' inps

  -- The time of a decision lies in the cool-off of an event at `t`.
  abbrev pub InCooloff : F → RegimeInputs F → Type 0
  InCooloff t inp = (t ≼ inp.now) × ((inp.now < t + p.event_cooloff_s) ≡ true)

  module _ (ok : IsFloat fl) (t : F) where
    decide-Pulled :
        (rm : RegimeMachine F) (inp : RegimeInputs F)
        → t + p.event_cooloff_s ≼ rm.event_until
        → InCooloff t inp
        → Pulled (decide rm inp p).0 × (t + p.event_cooloff_s ≼ (decide rm inp p).1.event_until)
    unfolding decide
    decide-Pulled rm inp h c =
        let later = ok.add_mono t inp.now p.event_cooloff_s p.event_cooloff_s c.0 (ok.le_refl _) in
        let cooling = lt-lt_of_le ok inp.now _ _ c.1 h in ground arith

    decide_all-Pulled :
        (rm : RegimeMachine F) (inps : List (RegimeInputs F))
        → t + p.event_cooloff_s ≼ rm.event_until
        → All (InCooloff t) inps
        → All Pulled (decide_all rm inps)
    unfolding decide_all
    decide_all-Pulled rm [] h c = tt
    decide_all-Pulled rm (inp ∷ inps) h c =
        let (pulled, h') = decide-Pulled rm inp h c.0 in
        (pulled, decide_all-Pulled (decide rm inp p).1 inps h' c.1)

-- Once a market that is not halted sees a sweep at time `now`, every decision in the following
-- `event_cooloff_s` seconds is EVENT or HALTED, whatever the later inputs are.
pub decide_all_cooloff :
    {F : Type 0} ⦃fl : Float F⦄ (ok : IsFloat fl) (p : StrategyProfile F) (rm : RegimeMachine F)
    (inp : RegimeInputs F) (inps : List (RegimeInputs F))
    → (inp.risk_halt || (inp.ws_stale || inp.market_resolved)) ≡ false
    → within inp.hours_to_end p.halt_before_hours ≡ false
    → inp.sweep_flagged ≡ true
    → All (InCooloff p inp.now) inps
    → All Pulled (decide_all p rm (inp ∷ inps))
unfolding decide_all
decide_all_cooloff ok p rm inp inps live far swept later =
    rw decided (inl refl, decide_all-Pulled p ok inp.now _ inps (ok.le_refl _) later)
  where
    decided : decide rm inp p ≡ (event, record { event_until = inp.now + p.event_cooloff_s })
    decided = unfold decide in ground arith
