-- ===== src/Tests/Account.antt =====
-- The theorems on the account, its orders and its trades at concrete inputs.
use polymaker.Prelude.{
  suc, ℕ, arith, Dict, ◌≡◌, refl, ◌<◌, true, false, some, none, List, [], ◌∷◌, Distinct, lookup,
  insert, set_default, erase, String,
}
use polymaker.Prelude.Int.{ℤ, ◌-ℤ◌}
use polymaker.Float.{nano, nano-IsFloat, ◌<◌ as lt, ◌-◌ as minus}
use polymaker.Domain.{TradeState}
use polymaker.Store.{
  apply_fill, reverse_fill, mark_fill_settled, position, restart, replace_open_orders,
  reconcile_positions, guard_blocks, mark_inflight, inflight, expire_inflight, drop_guards,
  stale_guards,
}
use polymaker.Store.Calls.{Call, run, step, new_store, fills, restarts, marks}
use polymaker.Store.Positions.Invariant.{IsWellFormed}
use polymaker.Store.Positions.History.{run-new_store-IsWellFormed, restart-position}
use polymaker.Store.Positions.Fills.{apply_fill_once, reverse_fill_settled}
use polymaker.Store.Positions.Reconcile.{reconcile_positions-lookup, expected}
use polymaker.Store.Orders.{replace_open_orders-lookup, last_listed, survives}
use polymaker.Store.Guarded.{guard_after, expire_inflight_fresh}
use polymaker.Tracker.{on_trade, on_trades, new_processor, TradeEvent, Processor}
use polymaker.Tracker.Counted.{on_trades-Distinct, reported}
use polymaker.Tracker.Lifecycle.{on_failed_after_confirmed}
use polymaker.Tests.{units, cents, sample_fill, sample_store, sample_order, sample_event}

abbrev history : List (Call ℤ)
history = marks "yes" (units 10) ∷ restarts ∷ []

abbrev session : List (TradeEvent ℤ × String × ℤ)
session =
    (sample_event TradeState.matched, "c1", units 10)
    ∷ (sample_event TradeState.failed, "c1", units 20)
    ∷ (sample_event TradeState.matched, "c1", units 30)
    ∷ []

on_trades-Distinct_example : Distinct (reported (on_trades session (new_processor sample_store)))
on_trades-Distinct_example = on_trades-Distinct sample_store session

abbrev after_session : Processor ℤ
after_session =
    on_trades session
      (on_trade (sample_event TradeState.confirmed) "c1" (units 9) (new_processor sample_store))

on_failed_after_confirmed_example :
    ((on_trade (sample_event TradeState.failed) "c1" (units 40) after_session).store.positions
      ≡ after_session.store.positions)
    × ((on_trade (sample_event TradeState.failed) "c1" (units 40) after_session).filled
        ≡ after_session.filled)
unfolding lookup
on_failed_after_confirmed_example =
    on_failed_after_confirmed (sample_event TradeState.confirmed) (sample_event TradeState.failed)
      "c1" "c1" (units 9) (units 40) session (new_processor sample_store) refl refl refl refl

apply_fill_once_example :
    apply_fill sample_fill (run history (apply_fill sample_fill new_store).0)
    ≡ (run history (apply_fill sample_fill new_store).0, false)
apply_fill_once_example = apply_fill_once sample_fill sample_fill history new_store refl

reverse_fill_settled_example :
    reverse_fill "t1" (run history (mark_fill_settled "t1" sample_store))
    ≡ (run history (mark_fill_settled "t1" sample_store), none)
unfolding lookup
reverse_fill_settled_example = reverse_fill_settled "t1" history sample_store refl

run-new_store-IsWellFormed_example : IsWellFormed (run (fills sample_fill ∷ history) new_store)
run-new_store-IsWellFormed_example =
    run-new_store-IsWellFormed nano-IsFloat (fills sample_fill ∷ history)

restart-position_example :
    position (restart (run (fills sample_fill ∷ history) new_store)) "yes"
    ≡ position (run (fills sample_fill ∷ history) new_store) "yes"
restart-position_example = restart-position nano-IsFloat (fills sample_fill ∷ history) "yes"

replace_open_orders-lookup_example :
    lookup "o1"
      (replace_open_orders "yes" (sample_order ∷ []) (units 10) (units 20) sample_store).orders
    ≡ elim (last_listed "o1" (sample_order ∷ [])) [
      | some o ↦ some o
      | none ↦ survives "yes" (units 10) (units 20) (lookup "o1" sample_store.orders)
    ]
unfolding lookup
replace_open_orders-lookup_example =
    replace_open_orders-lookup "yes" (sample_order ∷ []) (units 10) (units 20) sample_store "o1"
      (refl, tt) (refl, tt)

abbrev api : Dict (ℤ × ℤ)
api = ("yes", (units 60, cents 41)) ∷ []

reconcile_positions-lookup_example :
    lookup "yes"
      (reconcile_positions api true (units 90) (run (fills sample_fill ∷ []) new_store)).0.positions
    ≡ expected "yes"
        (guard_blocks (run (fills sample_fill ∷ []) new_store) (units 90) "yes")
        true
        (lookup "yes" api)
        (lookup "yes" (run (fills sample_fill ∷ []) new_store).positions)
unfolding lookup
reconcile_positions-lookup_example =
    reconcile_positions-lookup nano-IsFloat (fills sample_fill ∷ []) api true (units 90) "yes"
      (refl, tt)

guarded :
    0
    < inflight
        (expire_inflight (units 60) (units 20) (run (marks "yes" (units 10) ∷ []) new_store)).0
        "yes"
unfolding run step new_store expire_inflight mark_inflight drop_guards stale_guards lookup insert
    set_default erase nano ◌-ℤ◌
guarded = omega arith

expire_inflight_fresh_example :
    (ts : ℤ) × (n : ℕ) × (guard_after "yes" (marks "yes" (units 10) ∷ []) none ≡ some (ts, n))
    × (inflight
          (expire_inflight (units 60) (units 20) (run (marks "yes" (units 10) ∷ []) new_store)).0
          "yes"
        ≡ suc n)
    × (lt (units 60) (minus (units 20) ts) ≡ false)
expire_inflight_fresh_example =
    expire_inflight_fresh (marks "yes" (units 10) ∷ []) (units 60) (units 20) "yes" guarded
