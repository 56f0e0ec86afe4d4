-- ===== src/Engine/Halts.antt =====
-- src/polymaker/engine.py: what a pass asks of the exchange when the market must not be quoted.
use polymaker.Prelude.{
  sym, subst, ◌∙◌, ◌≡◌, refl, inl, inr, Bool, true, ◌||◌, Bool-cases, Option-cases, Option, String,
  some, none, List, [], ◌∷◌, ◌++◌, append-nil, lookup, if◌then◌else◌, arith,
}
use polymaker.Float.{Float}
use polymaker.Domain.{OpenOrder, TargetQuotes, halted}
use polymaker.Risk.{update_mark, evaluate, global_halt, error_rate}
use polymaker.Regime.{RegimeMachine, RegimeInputs, decide}
use polymaker.Config.{StrategyProfile}
use polymaker.Orderbook.{SortedDict}
use polymaker.Quoting.{same_regime, QuoteInputs, construct_quotes}
use polymaker.Reconciler.{
  is_noop, reconcile, reconcile_loop, Tolerance, ReconcilePlan, to_cancel_of,
}
use polymaker.Engine.{
  Market, Settings, Request, cancels, Engine, send, wake_cid, put_market, blind_state,
  halted_or_blind, yes_id,
}
use polymaker.Engine.Sync.{ids_of, live_orders, refresh_token_orders}
use polymaker.Engine.Inputs.{assess, Pass, regime_inputs, observe, usable_micro}
use polymaker.Engine.Requote.{
  Answers, is_nil, pull_all_quotes, maybe_pull_on_bad_book, maybe_merge, place_quotes,
  carry_out_plan, requote, recompute_locked, recompute,
}

module _ {F : Type 0} where
  -- The cancel of every live order, and nothing where there is none.
  abbrev pub cancel_all : List (OpenOrder F) → List (Request F)
  cancel_all live = if is_nil live then [] else cancels (ids_of live) ∷ []

  to_cancel_of_none : (live : List (OpenOrder F)) → to_cancel_of [] live ≡ ids_of live
  to_cancel_of_none [] = refl
  to_cancel_of_none (o ∷ os) = rw (to_cancel_of_none os) refl

module _ {D F : Type 0} where
  pub wake_cid-sent : (cid : String) (e : Engine D F) → (wake_cid cid e).sent ≡ e.sent
  unfolding wake_cid put_market
  wake_cid-sent cid e = elim (Option-cases (lookup cid e.markets)) [
    | inl h ↦ rw (h, wake_cid) refl
    | inr (m, h) ↦ rw (h, wake_cid) refl
  ]

  pub wake_cid-store : (cid : String) (e : Engine D F) → (wake_cid cid e).store ≡ e.store
  unfolding wake_cid put_market
  wake_cid-store cid e = elim (Option-cases (lookup cid e.markets)) [
    | inl h ↦ rw (h, wake_cid) refl
    | inr (m, h) ↦ rw (h, wake_cid) refl
  ]

module _ {F : Type 0} ⦃fl : Float F⦄ where
  decide_halt :
      (rm : RegimeMachine F) (inp : RegimeInputs F) (p : StrategyProfile F)
      → inp.risk_halt ≡ true
      → decide rm inp p ≡ (halted, rm)
  unfolding decide
  decide_halt rm inp p h = rw h refl

  construct_quotes_halted :
      (inp : QuoteInputs F) → inp.regime ≡ halted → (construct_quotes inp).quotes ≡ []
  unfolding construct_quotes same_regime
  construct_quotes_halted inp h = rw h refl

  reconcile_nothing :
      (t : TargetQuotes F) (live : List (OpenOrder F)) (tol : Tolerance F)
      → t.quotes ≡ []
      → reconcile t live tol ≡ record { to_cancel = ids_of live; to_place = [] }
  unfolding reconcile reconcile_loop
  reconcile_nothing t live tol h = rw (h, to_cancel_of_none live) refl

module _ {D F : Type 0} ⦃fl : Float F⦄ where
  pub refresh-sent :
      (m : Market F) (grace now : F) (listed : Option (List (OpenOrder F))) (e : Engine D F)
      → (refresh_token_orders m grace now listed e).0.sent ≡ e.sent
  unfolding refresh_token_orders
  refresh-sent m grace now none e = refl
  refresh-sent m grace now (some live) e = refl

  pub merge-sent :
      (cfg : Settings F) (cid : String) (m : Market F) (y n : F) (e : Engine D F)
      → (maybe_merge cfg cid m y n e).sent ≡ e.sent
  unfolding maybe_merge
  merge-sent cfg cid m y n e = ground arith

  -- The market is blind or halted, or the operator has killed the process.
  abbrev pub must_stop : Settings F → String → F → Engine D F → Bool
  must_stop cfg cid now e = blind_state cfg cid now e || e.risk_manager.killed

  assess_stops :
      (cfg : Settings F) (cid : String) (m : Market F) (now : F) (e : Engine D F)
      → must_stop cfg cid now e ≡ true
      → (assess cfg cid m now e).0.halt ≡ true
  unfolding assess evaluate global_halt error_rate
  assess_stops cfg cid m now e h = ground arith

  halted_or_blind_stops :
      (cfg : Settings F) (cid : String) (now : F) (e : Engine D F)
      → must_stop cfg cid now e ≡ true
      → (halted_or_blind cfg cid now e).0 ≡ true
  unfolding halted_or_blind global_halt error_rate
  halted_or_blind_stops cfg cid now e h = ground arith

  pub pull_all_quotes-sent :
      (m : Market F) (ans : Answers F) (e : Engine D F)
      → (pull_all_quotes m ans e).sent ≡ e.sent ++ cancel_all (live_orders m e.store)
  unfolding pull_all_quotes send
  pull_all_quotes-sent m ans e = elim (Bool-cases (is_nil (live_orders m e.store))) [
    | inl h ↦ rw (h, append-nil e.sent) refl
    | inr h ↦ rw h (elim (Bool-cases ans.cancel_ok) [ inl k ↦ rw k refl | inr k ↦ rw k refl ])
  ]

  carry_out_cancels :
      (cfg : Settings F) (cid : String) (m : Market F) (p : Pass F) (ans : Answers F)
      (e : Engine D F) (live : List (OpenOrder F))
      → (carry_out_plan cfg cid m p halted
          (record { to_cancel = ids_of live; to_place = [] })
          ans
          e).sent
        ≡ e.sent ++ cancel_all live
  unfolding carry_out_plan place_quotes send is_noop
  carry_out_cancels cfg cid m p ans e [] = rw (append-nil e.sent) (merge-sent cfg cid m _ _ e)
  carry_out_cancels cfg cid m p ans e (o ∷ os) = elim (Bool-cases ans.cancel_ok) [
    | inl k ↦ rw k (merge-sent cfg cid m _ _ _)
    | inr k ↦ rw k (wake_cid-sent cid _ ∙ refresh-sent m _ _ _ _)
  ]

  carry_out_when :
      (cfg : Settings F) (cid : String) (m : Market F) (p : Pass F) (ans : Answers F)
      (e : Engine D F) (live : List (OpenOrder F)) (plan : ReconcilePlan F)
      → plan ≡ record { to_cancel = ids_of live; to_place = [] }
      → (carry_out_plan cfg cid m p halted plan ans e).sent ≡ e.sent ++ cancel_all live
  carry_out_when cfg cid m p ans e live plan h =
      subst (λ q. (carry_out_plan cfg cid m p halted q ans e).sent ≡ e.sent ++ cancel_all live)
        (sym h) (carry_out_cancels cfg cid m p ans e live)

  requote_halts :
      (sd : SortedDict D F) (cfg : Settings F) (cid : String) (m : Market F) (p : Pass F)
      (ans : Answers F) (e : Engine D F)
      → must_stop cfg cid p.now e ≡ true
      → (requote sd cfg cid m p ans e).sent ≡ e.sent ++ cancel_all (live_orders m e.store)
  unfolding requote put_market
  requote_halts sd cfg cid m p ans e h =
      rw
        (decide_halt m.regime_m (regime_inputs cfg cid m p (assess cfg cid m p.now e).0 e) m.profile
          (assess_stops cfg cid m p.now e h))
        (carry_out_when cfg cid m p ans _ (live_orders m e.store) _
          (reconcile_nothing _ (live_orders m e.store) _ (construct_quotes_halted _ refl)))

  -- In a pass for a market that is blind or halted, or after the operator's kill, whatever the book
  -- looks like and whatever the exchange answers, the pass asks for one thing: the cancel of every
  -- live order of the market. It asks for nothing when there is none, and it never places.
  pub recompute_stops :
      (sd : SortedDict D F) (cfg : Settings F) (timestamp : String → Option F) (cid : String)
      (m : Market F) (now : F) (ans : Answers F) (e : Engine D F)
      → lookup cid e.markets ≡ some m
      → must_stop cfg cid now e ≡ true
      → (recompute sd cfg timestamp cid now ans e).sent
        ≡ e.sent ++ cancel_all (live_orders m e.store)
  unfolding recompute recompute_locked maybe_pull_on_bad_book observe put_market update_mark
  recompute_stops sd cfg timestamp cid m now ans e found h =
      rw (found, recompute)
        (elim (Option-cases (usable_micro sd m.profile.micro_levels (lookup (yes_id m) e.books))) [
          | inl none_usable ↦
              rw (none_usable, recompute_locked)
                (rw (halted_or_blind_stops cfg cid now e h) (pull_all_quotes-sent m ans _))
          | inr (micro, usable) ↦
              rw (usable, recompute_locked)
                (requote_halts sd cfg cid (observe cid m micro now e).1 _ ans
                  (observe cid m micro now e).0 h)
        ])
