-- ===== src/Tests/Strategy.antt =====
-- The theorems on quoting and reconciliation at concrete inputs.
use polymaker.Prelude.{◌≡◌, refl, true, false, some, none, [], ◌∷◌, All}
use polymaker.Prelude.Int.{ℤ}
use polymaker.Float.{nano, nano-IsFloat}
use polymaker.Domain.{TargetQuotes, quiet, event, halted, Side, OpenOrder, OrderState}
use polymaker.Orderbook.{BookView}
use polymaker.Quoting.{QuoteInputs, construct_quotes, same_regime}
use polymaker.Quoting.Safety.{construct_quotes-Admissible, Admissible}
use polymaker.Reconciler.{
  size_close, price_close, find_match, reconcile_loop, Tolerance, reconcile, is_noop,
}
use polymaker.Reconciler.Match.{reconcile-Served, Served}
use polymaker.Reconciler.Converge.{reconcile-is_noop, carry_out}
use polymaker.Reconciler.Converge.Steps.{Posted}
use polymaker.Tests.{units, cents, sample_market, sample_profile, sample_order, sample_position}

abbrev sample_view : BookView ℤ
sample_view = record {
  best_bid = some (cents 49);
  best_bid_size = units 100;
  best_ask = some (cents 51);
  best_ask_size = units 100;
  second_bid = none;
  second_ask = none;
  bid_depth = units 100;
  ask_depth = units 100;
}

abbrev sample_inputs : QuoteInputs ℤ
sample_inputs = record {
  meta = sample_market;
  regime = quiet;
  fv = cents 50;
  vol_short = units 0;
  toxicity = units 0;
  yes_view = sample_view;
  no_view = sample_view;
  pos_yes = sample_position;
  pos_no = record { token_id = "no"; size = units 0; avg_price = units 0 };
  profile = sample_profile;
  now = units 100;
  risk_size_scale = units 1;
  yes_exit_urgency = units 0;
  no_exit_urgency = units 0;
  mid_price = cents 50;
}

construct_quotes-Admissible_example :
    All
      (λ q.
        Admissible sample_inputs q
        × (same_regime quiet event ≡ false)
        × (same_regime quiet halted ≡ false))
      (construct_quotes sample_inputs).quotes
construct_quotes-Admissible_example = construct_quotes-Admissible nano-IsFloat sample_inputs

abbrev tolerance : Tolerance ℤ
tolerance = record { tick = cents 1; reprice_ticks = 1; resize_frac = cents 20 }

abbrev targets : TargetQuotes ℤ
targets = record {
  condition_id = "c1";
  regime = quiet;
  quotes = record { token_id = "no"; side = Side.buy; price = cents 48; size = units 50 } ∷ [];
}

abbrev posted_order : OpenOrder ℤ
posted_order = record {
  order_id = "o2";
  token_id = "no";
  side = Side.buy;
  price = cents 48;
  size = units 50;
  state = OrderState.live;
  created_ts = units 8;
}

reconcile-Served_example :
    All
      (Served tolerance (reconcile targets (sample_order ∷ []) tolerance) (sample_order ∷ []))
      targets.quotes
reconcile-Served_example = reconcile-Served tolerance targets (sample_order ∷ [])

-- What the plan asks to place is fulfilled by the posted order.
fulfilled : Posted (reconcile targets (sample_order ∷ []) tolerance).to_place (posted_order ∷ [])
unfolding reconcile reconcile_loop find_match price_close size_close
fulfilled = (record { key = refl; price = refl; size = refl }, tt)

reconcile-is_noop_example :
    is_noop (
      reconcile targets
        (carry_out
          (reconcile targets (sample_order ∷ []) tolerance)
          (sample_order ∷ [])
          (posted_order ∷ []))
        tolerance)
    ≡ true
unfolding nano
reconcile-is_noop_example =
    reconcile-is_noop nano-IsFloat tolerance refl refl (sample_order ∷ []) targets
      (posted_order ∷ []) fulfilled (refl, tt) (refl, tt)
