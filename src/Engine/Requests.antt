-- ===== src/Engine/Requests.antt =====
-- src/polymaker/engine.py: the requests that a pass of the quoter makes, in their order.
use polymaker.Prelude.{
  Bool, false, not, ◌&&◌, Option, none, erase, get_or, get_or, ◌≡◌, refl, sym, ◌∙◌, inl, inr, true,
  ◌||◌, ltb, length, Bool-cases, Option-cases, Option, String, some, List, [], ◌∷◌, ◌++◌,
  append-nil, append_assoc, lookup, if◌then◌else◌, arith,
}
use polymaker.Float.{num, Float, ◌<=◌, ◌<◌, ◌-◌}
use polymaker.Domain.{OpenOrder, Quote, Regime, quiet, trending, event, reduce_only, halted}
use polymaker.Regime.{decide}
use polymaker.Orderbook.{SortedDict}
use polymaker.Quoting.{construct_quotes, same_regime}
use polymaker.Reconciler.{ReconcilePlan, reconcile, is_noop}
use polymaker.Engine.{
  num, Market, Settings, Request, cancels, cancels_asset, places, Engine, send, put_market,
  halted_or_blind, yes_id, no_id,
}
use polymaker.Engine.Sync.{live_orders, quarantine, quarantine_token}
use polymaker.Engine.Inputs.{
  assess, regime_inputs, quote_inputs, hours_to_end, Pass, observe, usable_micro,
}
use polymaker.Engine.Requote.{
  Answers, is_nil, shed, maybe_pull_on_bad_book, place_quotes, carry_out_plan, requote,
  recompute_locked, recompute,
}
use polymaker.Engine.Halts.{
  wake_cid-sent, refresh-sent, merge-sent, pull_all_quotes-sent, cancel_all,
}

module _ {F : Type 0} ⦃fl : Float F⦄ where
  -- New quotes are shed above 85% of the rate budget, in the two regimes that quote.
  abbrev pub is_shed : Settings F → F → Regime → Bool
  is_shed cfg pressure quiet = not cfg.paper && (fl.lit 85 2 < pressure)
  is_shed cfg pressure trending = not cfg.paper && (fl.lit 85 2 < pressure)
  is_shed cfg pressure event = false
  is_shed cfg pressure reduce_only = false
  is_shed cfg pressure halted = false

  shed-is_shed :
      (cfg : Settings F) (pressure : F) (regime : Regime)
      → shed cfg pressure regime ≡ is_shed cfg pressure regime
  unfolding same_regime
  shed-is_shed cfg pressure quiet = ground arith
  shed-is_shed cfg pressure trending = ground arith
  shed-is_shed cfg pressure event = ground arith
  shed-is_shed cfg pressure reduce_only = ground arith
  shed-is_shed cfg pressure halted = ground arith

  -- The placing of a batch: an incomplete answer is followed by the cancel of both tokens.
  abbrev pub place_requests :
      Settings F → Market F → Regime → List (Quote F) → Answers F → List (Request F)
  place_requests cfg m regime to_place ans =
      let tail =
        if ltb (length (ans.placed to_place)) (length to_place)
        then cancels_asset (yes_id m) ∷ cancels_asset (no_id m) ∷ []
        else [] in
      if is_nil to_place || is_shed cfg ans.order_pressure regime
      then []
      else places to_place ∷ tail

  -- The cancels of a plan come first, and nothing follows a cancel that was refused.
  abbrev pub plan_requests :
      Settings F → Market F → Regime → ReconcilePlan F → Answers F → List (Request F)
  plan_requests cfg m regime plan ans =
      let placing = place_requests cfg m regime plan.to_place ans in
      if is_nil plan.to_cancel
      then placing
      else cancels plan.to_cancel ∷ (if ans.cancel_ok then placing else [])

  noop_requests :
      (cfg : Settings F) (m : Market F) (regime : Regime) (ids : List String)
      (quotes : List (Quote F)) (ans : Answers F)
      → is_noop (record { to_cancel = ids; to_place = quotes }) ≡ true
      → plan_requests cfg m regime (record { to_cancel = ids; to_place = quotes }) ans ≡ []
  unfolding is_noop
  noop_requests cfg m regime [] [] ans h = refl
  noop_requests cfg m regime [] (q ∷ qs) ans h = ground arith
  noop_requests cfg m regime (id ∷ ids) qs ans h = ground arith

module _ {D F : Type 0} ⦃fl : Float F⦄ where
  -- What a pass with a fair value asks for: the plan of the quotes it decides on, in the regime it
  -- decides on, against the market's live orders.
  pub quoting_requests :
      SortedDict D F
      → Settings F
      → String
      → Market F
      → Pass F
      → Answers F
      → Engine D F
      → List (Request F)
  quoting_requests sd cfg cid m p ans e =
      let (rd, rm) = assess cfg cid m p.now e in
      let (regime, machine) = decide m.regime_m (regime_inputs cfg cid m p rd e) m.profile in
      plan_requests cfg m regime
        (reconcile (construct_quotes (quote_inputs sd m p rd regime e)) (live_orders m e.store)
          (record {
            tick = m.meta.tick_size;
            reprice_ticks = m.profile.reprice_ticks;
            resize_frac = m.profile.resize_frac;
          }))
        ans

  -- What a pass asks for. Without a usable book: the cancel of all the market's orders, when it is blind
  -- or halted or the book has been unusable for three seconds.
  pub requests_of :
      SortedDict D F
      → Settings F
      → (String → Option F)
      → String
      → Market F
      → F
      → Answers F
      → Engine D F
      → List (Request F)
  requests_of sd cfg timestamp cid m now ans e =
      elim (usable_micro sd m.profile.micro_levels (lookup (yes_id m) e.books))
        as (λ x. List (Request F)) [
          | none ↦
              if (halted_or_blind cfg cid now e).0
                || (num 3 <= now - get_or now cid e.book_unusable_since)
              then cancel_all (live_orders m e.store)
              else []
          | some micro ↦
              let (seen, m', fv) = observe cid m micro now e in
              quoting_requests sd cfg cid m'
                (record {
                  now = now;
                  micro = micro;
                  fv = fv;
                  prev_fv = m.est.last_fv;
                  hours_to_end = hours_to_end timestamp m.meta.end_date_iso now;
                })
                ans seen
        ]

module _ {D F : Type 0} ⦃fl : Float F⦄ where
  quarantine-sent :
      (m : Market F) (now : F) (listed : Option (List (OpenOrder F))) (e : Engine D F)
      → (quarantine m now listed e).sent
        ≡ e.sent ++ (cancels_asset (yes_id m) ∷ cancels_asset (no_id m) ∷ [])
  unfolding quarantine quarantine_token send
  quarantine-sent m now listed e =
      refresh-sent m _ now listed _
      ∙ append_assoc e.sent (cancels_asset (yes_id m) ∷ []) (cancels_asset (no_id m) ∷ [])

  place_quotes-sent :
      (cfg : Settings F) (cid : String) (m : Market F) (now : F) (regime : Regime)
      (to_place : List (Quote F)) (ans : Answers F) (e : Engine D F)
      → (place_quotes cfg cid m now regime to_place ans e).sent
        ≡ e.sent ++ place_requests cfg m regime to_place ans
  unfolding place_quotes send
  place_quotes-sent cfg cid m now regime to_place ans e =
      rw (← shed-is_shed cfg ans.order_pressure regime) (elim (Bool-cases (is_nil to_place)) [
        | inl h ↦ rw (h, append-nil e.sent) refl
        | inr h ↦ rw h (elim (Bool-cases (shed cfg ans.order_pressure regime)) [
          | inl k ↦ rw (k, append-nil e.sent) (wake_cid-sent cid e)
          | inr k ↦ rw k (elim (Bool-cases (ltb (length (ans.placed to_place)) (length to_place))) [
            | inl f ↦ rw f (
                quarantine-sent m now ans.listed _
                ∙ append_assoc e.sent (places to_place ∷ [])
                    (cancels_asset (yes_id m) ∷ cancels_asset (no_id m) ∷ []))
            | inr f ↦ rw f refl
          ])
        ])
      ])

  pub carry_out_plan-sent :
      (cfg : Settings F) (cid : String) (m : Market F) (p : Pass F) (regime : Regime)
      (plan : ReconcilePlan F) (ans : Answers F) (e : Engine D F)
      → (carry_out_plan cfg cid m p regime plan ans e).sent
        ≡ e.sent ++ plan_requests cfg m regime plan ans
  unfolding carry_out_plan send
  carry_out_plan-sent cfg cid m p regime plan ans e = elim (Bool-cases (is_noop plan)) [
    | inl h ↦
        rw (h, noop_requests cfg m regime plan.to_cancel plan.to_place ans h, append-nil e.sent)
          (merge-sent cfg cid m _ _ e)
    | inr h ↦ rw h (elim (Bool-cases (is_nil plan.to_cancel)) [
      | inl k ↦ rw k (
          merge-sent cfg cid m _ _ _ ∙ place_quotes-sent cfg cid m p.now regime plan.to_place ans e)
      | inr k ↦ rw k (elim (Bool-cases ans.cancel_ok) [
        | inl f ↦ rw f (
            merge-sent cfg cid m _ _ _
            ∙ place_quotes-sent cfg cid m p.now regime plan.to_place ans _
            ∙ append_assoc e.sent (cancels plan.to_cancel ∷ []) _)
        | inr f ↦ rw f (wake_cid-sent cid _ ∙ refresh-sent m _ _ _ _)
      ])
    ])
  ]

  requote-sent :
      (sd : SortedDict D F) (cfg : Settings F) (cid : String) (m : Market F) (p : Pass F)
      (ans : Answers F) (e : Engine D F)
      → (requote sd cfg cid m p ans e).sent ≡ e.sent ++ quoting_requests sd cfg cid m p ans e
  unfolding requote put_market quoting_requests
  requote-sent sd cfg cid m p ans e =
      let (rd, rm) = assess cfg cid m p.now e in
      let (regime, machine) = decide m.regime_m (regime_inputs cfg cid m p rd e) m.profile in
      let m' = record m { regime_m = machine } in
      let decided = put_market cid m' (record e { risk_manager = rm; sweep = erase cid e.sweep }) in
      carry_out_plan-sent cfg cid m' p regime _ ans decided

  -- In any pass of a market the engine knows, with any book, settings and answers of the exchange, the
  -- requests made are exactly those that `requests_of` names, in its order. With a usable book they
  -- are those of the plan for the quotes and the regime of this pass: at most one cancel, which comes
  -- first; after a cancel that the exchange refuses nothing is placed; one batch of all new quotes,
  -- unless there are none or the regime quotes and over 85% of the rate budget is used; and the cancel of
  -- both tokens follows exactly when fewer orders were acknowledged than asked for. Without one they
  -- are the cancel of all the market's orders, when it is blind or halted or the book has been
  -- unusable for three seconds, and else none.
  pub recompute-requests_of :
      (sd : SortedDict D F) (cfg : Settings F) (timestamp : String → Option F) (cid : String)
      (m : Market F) (now : F) (ans : Answers F) (e : Engine D F)
      → lookup cid e.markets ≡ some m
      → (recompute sd cfg timestamp cid now ans e).sent
        ≡ e.sent ++ requests_of sd cfg timestamp cid m now ans e
  unfolding recompute recompute_locked maybe_pull_on_bad_book observe put_market requests_of
  recompute-requests_of sd cfg timestamp cid m now ans e found =
      rw (found, recompute)
        (elim (Option-cases (usable_micro sd m.profile.micro_levels (lookup (yes_id m) e.books))) [
          | inl none_usable ↦
              rw (none_usable, recompute_locked, requests_of)
                (elim (Bool-cases (halted_or_blind cfg cid now e).0) [
                  | inl stop ↦ rw stop (pull_all_quotes-sent m ans _)
                  | inr go ↦
                      rw go
                        (elim (Bool-cases (num 3 <= now - get_or now cid e.book_unusable_since)) [
                          | inl late ↦ rw late (pull_all_quotes-sent m ans _)
                          | inr early ↦ rw early (sym (append-nil e.sent))
                        ])
                ])
          | inr (micro, usable) ↦
              rw (usable, recompute_locked, requests_of)
                (requote-sent sd cfg cid (observe cid m micro now e).1 _ ans
                  (observe cid m micro now e).0)
        ])
