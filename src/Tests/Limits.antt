-- ===== src/Tests/Limits.antt =====
-- The theorems on risk, regimes, estimators, scores and ids at concrete inputs.
use polymaker.Prelude.{
  arith, ◌≡◌, refl, ℕ, ◌+◌, ◌*◌, ◌≤◌, true, false, not, some, none, List, [], ◌∷◌, All, length,
  select, map,
}
use polymaker.Prelude.Int.{ℤ, ◌+ℤ◌}
use polymaker.Float.{nano, nano-IsFloat}
use polymaker.Domain.{Side}
use polymaker.Regime.{RegimeInputs, new_machine}
use polymaker.Regime.Cooloff.{decide_all_cooloff, decide_all, Pulled}
use polymaker.Estimators.{
  MarkoutTracker, PendingMarkout, Ewma, evaluate as evaluate_markouts, resolve,
}
use polymaker.Estimators.Markouts.{evaluate-splits, early}
use polymaker.Ledger.{v2_condition_id_bytes31, outcome_index_of}
use polymaker.Ledger.Bytes.{v2_condition_id_bytes31_exact, from_bytes}
use polymaker.Tests.{units, cents, sample_profile}

abbrev calm : RegimeInputs ℤ
calm = record {
  now = units 10;
  tick = cents 1;
  fv = cents 50;
  prev_fv = none;
  vol_ratio = units 1;
  flow_z = units 0;
  inventory_util = units 0;
  hours_to_end = none;
  sweep_flagged = false;
  market_resolved = false;
  ws_stale = false;
  risk_halt = false;
  risk_reduce_only = false;
}

decide_all_cooloff_example : All Pulled (
    decide_all sample_profile new_machine
      (record calm { sweep_flagged = true } ∷ record calm { now = units 40 } ∷ []))
unfolding nano ◌+ℤ◌
decide_all_cooloff_example =
    decide_all_cooloff nano-IsFloat sample_profile new_machine
      (record calm { sweep_flagged = true }) (record calm { now = units 40 } ∷ []) refl refl refl
      ((refl, refl), tt)

abbrev seeded : Ewma ℤ
seeded = record {
  halflife = units 60;
  value = units 0;
  last_ts = units 10;
  initialized = true;
  out_of_order = 0;
}

abbrev waiting : ℤ → PendingMarkout ℤ
waiting due = record {
  fv_at_fill = cents 40;
  side = Side.buy;
  due_ts = due;
  token_id = "yes";
  fill_ts = units 10;
}

abbrev tracker : MarkoutTracker ℤ
tracker = record {
  horizon_s = units 300;
  pending = waiting (units 310) ∷ waiting (units 900) ∷ [];
  markout_ewma = seeded;
  samples = [];
  max_samples = 1;
}

evaluate-splits_example :
    ((evaluate_markouts none (cents 45) (units 400) tracker).0.pending
      ≡ select (early (units 400)) tracker.pending)
    × ((evaluate_markouts none (cents 45) (units 400) tracker).1
        ≡ map
            (resolve none (units 300) (cents 45) (units 400))
            (select (λ p. not (early (units 400) p)) tracker.pending))
    × (length (evaluate_markouts none (cents 45) (units 400) tracker).0.samples ≤ 1)
evaluate-splits_example = evaluate-splits none (cents 45) (units 400) tracker refl (omega arith)

v2_condition_id_bytes31_exact_example :
    (bs : List ℕ) × (v2_condition_id_bytes31 513 ≡ some bs)
    × (length bs ≡ 31)
    × (from_bytes 0 bs * 256 + outcome_index_of 513 ≡ 513)
v2_condition_id_bytes31_exact_example = v2_condition_id_bytes31_exact 513 (omega arith)
