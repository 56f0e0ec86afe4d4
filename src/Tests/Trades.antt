-- ===== src/Tests/Trades.antt =====
-- The theorems on the live self-test at concrete inputs.
use polymaker.Prelude.{nat_eq, ◌≡◌, ◌≤◌, refl, String, true, some, [], ◌∷◌, length, if◌then◌else◌}
use polymaker.Prelude.Int.{◌-ℤ◌, ◌+ℤ◌, ℤ}
use polymaker.Float.{mul_nano, div_nano, nano}
use polymaker.Domain.{OpenOrder}
use polymaker.Wire.{null, number, Json, text, object, none_left, field}
use polymaker.Tests.{units, cents, sample_order, sample_market}
use polymaker.Quoting.{round_to_tick}
use polymaker.MoneyDoctor.{
  Replies, Touch, limit_step, confirm_limit, buy_step, sell_step, sell_with_retry, run_on,
}
use polymaker.MoneyDoctor.Flat.{IsFlat, run_on-IsFlat}
use polymaker.MoneyDoctor.Sales.{IsSized, sell_with_retry-IsSized}
use polymaker.Tests.Cached.{python}

abbrev resting : OpenOrder ℤ
resting = record sample_order { order_id = "o1" }

abbrev answer : String → Json ℤ → Json ℤ → Json ℤ
answer status making taking = object (
    field "status" (text status)
      (field "makingAmount" making (field "takingAmount" taking none_left)))

-- The first sale is refused, and the second is of what the chain shows.
abbrev trades : Replies ℤ
trades = record {
  collateral = some (units 100);
  placed = resting ∷ [];
  live = some (resting ∷ []);
  after_cancel = some [];
  before = some (units 0);
  bought = answer "matched" (number (units 4)) (number (units 8));
  settled = some (units 8);
  sold = λ k.
      if nat_eq k 0
      then answer "delayed" null null
      else answer "matched" (number (units 8)) (number (units 4));
  held = λ k. some (units 8);
  remaining = some (units 0);
}

abbrev touch : Touch ℤ
touch = record {
  best_bid = cents 49;
  best_ask = cents 51;
  ask_depth = units 50;
  bid_depth = units 50;
}

passed : (run_on python sample_market touch trades).ok ≡ true
unfolding run_on limit_step confirm_limit buy_step sell_step sell_with_retry round_to_tick nano ◌-ℤ◌
    ◌+ℤ◌ mul_nano div_nano
passed = refl

run_on-IsFlat_example : IsFlat python trades
run_on-IsFlat_example = run_on-IsFlat python sample_market touch trades passed

sell_with_retry-IsSized_example :
    (length (sell_with_retry python trades.sold trades.held (units 5) 5 0 (units 9)).1 ≤ 5)
    × IsSized python trades.sold trades.held
        (units 5)
        0
        (units 9)
        (sell_with_retry python trades.sold trades.held (units 5) 5 0 (units 9)).1
sell_with_retry-IsSized_example =
    sell_with_retry-IsSized python trades.sold trades.held (units 5) (units 9)
