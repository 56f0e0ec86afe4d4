-- ===== src/Engine/Requote.antt =====
-- src/polymaker/engine.py: one pass of a market's quoter, from the book to the requests sent.
use polymaker.Prelude.{
  String, Bool, true, false, not, ◌&&◌, ◌||◌, Option, none, some, List, [], ◌∷◌, ◌++◌, nat_eq, ltb,
  mem, length, lookup, insert, erase, get_or, set_default, if◌then◌else◌,
}
use polymaker.Float.{Float, num, ◌-◌, ◌<=◌, ◌<◌, min}
use polymaker.Domain.{OpenOrder, Quote, Regime, quiet, trending}
use polymaker.Store.{StateStore, position, upsert_order}
use polymaker.Risk.{note_order_result}
use polymaker.Regime.{decide}
use polymaker.Orderbook.{SortedDict}
use polymaker.Quoting.{construct_quotes, same_regime}
use polymaker.Reconciler.{ReconcilePlan, reconcile, is_noop}
use polymaker.Engine.{
  Market, Settings, cancels, places, Engine, yes_id, no_id, put_market, send, wake_cid,
  halted_or_blind,
}
use polymaker.Engine.Inputs.{
  Pass, hours_to_end, usable_micro, observe, assess, regime_inputs, quote_inputs,
}
use polymaker.Engine.Sync.{ids_of, live_orders, remove_orders, refresh_token_orders, quarantine}

-- What the gateway answers in one pass.
pub record Answers (F : Type 0) : Type 0 where
  pub cancel_ok : Bool
  pub placed : List (Quote F) → List (OpenOrder F)
  pub listed : Option (List (OpenOrder F))
  pub order_pressure : F

abbrev pub is_nil {ℓ} : {A : Type ℓ} → List A → Bool
is_nil [] = true
is_nil (x ∷ xs) = false

module _ {F : Type 0} where
  unfoldable pub upsert_orders : List (OpenOrder F) → StateStore F → StateStore F
  upsert_orders [] s = s
  upsert_orders (o ∷ os) s = upsert_orders os (upsert_order o s)

module _ {F : Type 0} ⦃fl : Float F⦄ where
  -- The load shed of the placing step.
  abbrev pub shed : Settings F → F → Regime → Bool
  shed cfg pressure regime =
      not cfg.paper
      && ((fl.lit 85 2 < pressure) && (same_regime regime quiet || same_regime regime trending))

module _ {D F : Type 0} ⦃fl : Float F⦄ where
  -- `_pull_all_quotes`
  unfoldable pub pull_all_quotes : Market F → Answers F → Engine D F → Engine D F
  unfolding send remove_orders
  pull_all_quotes m ans e =
      let live = live_orders m e.store in
      let e' = send (cancels (ids_of live)) e in
      if is_nil live
      then e
      else if ans.cancel_ok
      then record e' { store = remove_orders (ids_of live) e'.store }
      else e'

  -- `_maybe_pull_on_bad_book`
  unfoldable pub maybe_pull_on_bad_book :
      Settings F → String → Market F → F → Answers F → Engine D F → Engine D F
  unfolding halted_or_blind pull_all_quotes
  maybe_pull_on_bad_book cfg cid m now ans e =
      let (stop, rm) = halted_or_blind cfg cid now e in
      let checked = record e { risk_manager = rm } in
      let since = get_or now cid e.book_unusable_since in
      let timed = record checked {
        book_unusable_since = set_default cid now e.book_unusable_since;
      } in
      let pulled = pull_all_quotes m ans timed in
      if stop
      then pull_all_quotes m ans
          (record checked { book_unusable_since = erase cid e.book_unusable_since })
      else if num 3 <= now - since
      then record pulled { sweep = erase cid pulled.sweep }
      else timed

  -- `_maybe_merge`: a merge task is scheduled unless one is running.
  unfoldable pub maybe_merge : Settings F → String → Market F → F → F → Engine D F → Engine D F
  maybe_merge cfg cid m yes_size no_size e =
      let amount = min yes_size no_size in
      if (amount < m.profile.merge_min_size) || (mem cid e.merging || cfg.paper)
      then e
      else record e { merging = cid ∷ e.merging; merges = e.merges ++ (cid, amount) ∷ [] }

  -- The placing step of a pass.
  unfoldable pub place_quotes :
      Settings F
      → String
      → Market F
      → F
      → Regime
      → List (Quote F)
      → Answers F
      → Engine D F
      → Engine D F
  unfolding send upsert_orders quarantine wake_cid
  place_quotes cfg cid m now regime to_place ans e =
      let placed = ans.placed to_place in
      let complete = nat_eq (length placed) (length to_place) in
      let e' = send (places to_place) e in
      let noted = record e' {
        risk_manager = note_order_result now complete e'.risk_manager;
        store = upsert_orders placed e'.store;
      } in
      if is_nil to_place
      then e
      else if shed cfg ans.order_pressure regime
      then wake_cid cid e
      else if ltb (length placed) (length to_place)
      then quarantine m now ans.listed noted
      else noted

  -- From the plan to the requests: cancel first, and place only if the cancel went through.
  unfoldable pub carry_out_plan :
      Settings F
      → String
      → Market F
      → Pass F
      → Regime
      → ReconcilePlan F
      → Answers F
      → Engine D F
      → Engine D F
  unfolding send remove_orders refresh_token_orders wake_cid place_quotes maybe_merge
  carry_out_plan cfg cid m p regime plan ans e =
      let yes_size = (position e.store (yes_id m)).size in
      let no_size = (position e.store (no_id m)).size in
      let asked = send (cancels plan.to_cancel) e in
      let cleared = record asked { store = remove_orders plan.to_cancel asked.store } in
      let resynced = wake_cid cid (refresh_token_orders m (num 10) p.now ans.listed asked).0 in
      let quote : Engine D F → Engine D F = λ s.
        let placed = place_quotes cfg cid m p.now regime plan.to_place ans s in
        maybe_merge cfg cid m yes_size no_size
          (record placed { last_quote_fv = insert cid p.fv placed.last_quote_fv }) in
      if is_noop plan
      then maybe_merge cfg cid m yes_size no_size e
      else if is_nil plan.to_cancel
      then quote e
      else if ans.cancel_ok
      then quote cleared
      else resynced

  -- The decisions of a pass that has a fair value, and their requests.
  unfoldable pub requote :
      SortedDict D F → Settings F → String → Market F → Pass F → Answers F → Engine D F → Engine D F
  unfolding assess put_market carry_out_plan
  requote sd cfg cid m p ans e =
      let (rd, rm) = assess cfg cid m p.now e in
      let (regime, machine) = decide m.regime_m (regime_inputs cfg cid m p rd e) m.profile in
      let m' = record m { regime_m = machine } in
      let decided = put_market cid m' (record e { risk_manager = rm; sweep = erase cid e.sweep }) in
      let targets = construct_quotes (quote_inputs sd m p rd regime e) in
      let plan = reconcile targets (live_orders m e.store) (record {
        tick = m.meta.tick_size;
        reprice_ticks = m.profile.reprice_ticks;
        resize_frac = m.profile.resize_frac;
      }) in
      carry_out_plan cfg cid m' p regime plan ans decided

  -- `_recompute_locked`, given the reading of an ISO date.
  unfoldable pub recompute_locked :
      SortedDict D F
      → Settings F
      → (String → Option F)
      → String
      → Market F
      → F
      → Answers F
      → Engine D F
      → Engine D F
  unfolding usable_micro maybe_pull_on_bad_book observe requote hours_to_end
  recompute_locked sd cfg timestamp cid m now ans e =
      elim (usable_micro sd m.profile.micro_levels (lookup (yes_id m) e.books)) [
        | none ↦ maybe_pull_on_bad_book cfg cid m now ans e
        | some micro ↦
            let (seen, m', fv) = observe cid m micro now e in
            requote sd cfg cid m'
              (record {
                now = now;
                micro = micro;
                fv = fv;
                prev_fv = m.est.last_fv;
                hours_to_end = hours_to_end timestamp m.meta.end_date_iso now;
              })
              ans seen
      ]

  -- `_recompute`
  unfoldable pub recompute :
      SortedDict D F
      → Settings F
      → (String → Option F)
      → String
      → F
      → Answers F
      → Engine D F
      → Engine D F
  unfolding recompute_locked
  recompute sd cfg timestamp cid now ans e = elim (lookup cid e.markets) [
    | none ↦ e
    | some m ↦ recompute_locked sd cfg timestamp cid m now ans e
  ]
