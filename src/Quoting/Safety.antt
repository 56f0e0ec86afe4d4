-- ===== src/Quoting/Safety.antt =====
-- strategy/quoting.py: what every quote that is constructed satisfies.
use polymaker.Prelude.{
  ◌≡◌, refl, inl, inr, Bool, true, false, ◌||◌, ◌&&◌, Option, some, List, [], ◌∷◌, ◌++◌, All,
  All-append, arith, Bool-cases, Option-cases, ℕ, zero, suc, String,
}
use polymaker.Float.{IsFloat, not_lt→le, ◌*◌, ◌-◌, ◌/◌, Float, ◌<=◌, ◌<◌, num, ◌≼◌, max}
use polymaker.Domain.{Side, buy, sell, event, halted, Quote, Position}
use polymaker.Orderbook.{BookView}
use polymaker.Quoting.{
  half_spread, add_no, add_yes, per_layer, sub_nat, exit_price, consolidate, layer_price,
  QuoteInputs, place_bid, add_layers, layers_from, maybe_exit, entry_leg, yes_entry, no_entry,
  yes_exit, no_exit, construct_quotes, out_of_band, same_regime, reward_band, quote_mid,
}

module _ {F : Type 0} ⦃fl : Float F⦄ where
  -- The smallest size of an entry: the reward size with its margin, or the exchange's minimum.
  abbrev pub reward_floor : QuoteInputs F → F
  reward_floor inp =
      max (inp.meta.rewards_min_size * inp.profile.reward_size_mult) inp.meta.min_order_size

  abbrev pub unscored : F → F → Bool
  unscored floor size = (num 0 < floor) && (size < floor)

  -- What the target quotes promise of one order.
  pub record IsSound (inp : QuoteInputs F) (q : Quote F) : Type 0 where
    pub positive : (num 0 < q.price) ≡ true
    pub below_one : (q.price < num 1) ≡ true
    pub large_enough : inp.meta.min_order_size ≼ q.size

  -- An entry is a BUY that would score: not in REDUCE_ONLY, at least the reward size, and inside the
  -- reward band around the midpoint of its token.
  pub record IsEntry (inp : QuoteInputs F) (token_id : String) (mid : F) (q : Quote F)
      : Type 0 where
    pub bought : q.side ≡ buy
    pub of_token : q.token_id ≡ token_id
    pub sound : IsSound inp q
    pub scores : unscored (reward_floor inp) q.size ≡ false
    pub in_band : out_of_band (some mid) (reward_band inp) q.price ≡ false

  layers_from_lem :
      (P : Quote F → Type 0) (t : String) (side : Side) (top tick : F) (dec : ℕ) (per : F)
      (steps : ℕ) (down : Bool) (mid : Option F) (band : F) (i n : ℕ)
      → ((price : F)
          → (num 0 < price) ≡ true
          → (price < num 1) ≡ true
          → out_of_band mid band price ≡ false
          → P (record { token_id = t; side = side; price = price; size = per }))
      → All P (layers_from t side top tick dec per steps down mid band i n)
  unfolding layers_from
  layers_from_lem P t side top tick dec per steps down mid band i zero each = tt
  layers_from_lem P t side top tick dec per steps down mid band i (suc n) each =
      let price = layer_price top tick dec steps down i in
      let rest = layers_from_lem P t side top tick dec per steps down mid band (suc i) n each in
      elim (Bool-cases (out_of_band mid band price)) [
        | inl out ↦ rw out tt
        | inr near ↦ rw near (elim (Bool-cases ((num 0 < price) && (price < num 1))) [
          | inl inside ↦ rw inside (each price (ground arith) (ground arith) near, rest)
          | inr outside ↦ rw outside rest
        ])
      ]

  add_layers_lem :
      (P : Quote F → Type 0) (t : String) (side : Side) (top tick : F) (dec : ℕ) (total : F)
      (layers steps : ℕ) (down : Bool) (exchange_min reward_min : F) (mid : Option F) (band : F)
      → ((price size : F)
          → (num 0 < price) ≡ true
          → (price < num 1) ≡ true
          → out_of_band mid band price ≡ false
          → (size < exchange_min) ≡ false
          → unscored (max reward_min exchange_min) size ≡ false
          → P (record { token_id = t; side = side; price = price; size = size }))
      → All P
          (add_layers t side top tick dec total layers steps down exchange_min reward_min mid band)
  unfolding add_layers
  add_layers_lem P t side top tick dec total layers steps down exchange_min reward_min mid band
        each =
      let floor = max reward_min exchange_min in
      let n = suc (consolidate total exchange_min floor (sub_nat layers 1)) in
      let per = per_layer total n in
      elim (Bool-cases (total <= num 0)) [
        | inl none_left ↦ rw none_left tt
        | inr some_left ↦ rw some_left (elim (Bool-cases ((per < exchange_min) || (per <= num 0))) [
          | inl small ↦ rw small tt
          | inr enough ↦ rw enough (elim (Bool-cases (unscored floor per)) [
            | inl low ↦ rw low tt
            | inr scoring ↦ rw scoring (
                layers_from_lem P t side top tick dec per steps down mid band 0 n
                  (λ price pos below near. each price per pos below near (ground arith) scoring))
          ])
        ])
      ]

  entry_leg_sound :
      (ok : IsFloat fl) (inp : QuoteInputs F) (t : String) (target : F) (view : BookView F)
      (token_fv mid u : F)
      → All (IsEntry inp t mid) (entry_leg inp t target view token_fv mid u)
  unfolding entry_leg
  entry_leg_sound ok inp t target view token_fv mid u =
      elim (Option-cases (
        place_bid target view inp.meta.tick_size inp.meta.price_decimals token_fv
          inp.profile.min_edge_ticks (some mid) (reward_band inp))) [
            | inl e ↦ rw (e, entry_leg) tt
            | inr (price, e) ↦
                rw (e, entry_leg)
                  (add_layers_lem (IsEntry inp t mid) t buy price inp.meta.tick_size
                    inp.meta.price_decimals _ inp.profile.layers inp.profile.layer_step_ticks true
                    inp.meta.min_order_size
                    (inp.meta.rewards_min_size * inp.profile.reward_size_mult) (some mid)
                    (reward_band inp)
                    (λ p size pos below near enough scoring. record {
                      bought = refl;
                      of_token = refl;
                      sound = record {
                        positive = pos;
                        below_one = below;
                        large_enough = not_lt→le ok size inp.meta.min_order_size enough;
                      };
                      scores = scoring;
                      in_band = near;
                    }))
          ]

  -- An exit is a SELL of a token of which at least the exchange's minimum is held.
  pub record IsExit (inp : QuoteInputs F) (pos : Position F) (token_id : String) (q : Quote F)
      : Type 0 where
    pub sold : q.side ≡ sell
    pub of_token : q.token_id ≡ token_id
    pub sound : IsSound inp q
    pub held : (pos.size < inp.meta.min_order_size) ≡ false

  maybe_exit_sound :
      (inp : QuoteInputs F) (t : String) (pos : Position F) (fv delta : F) (view : BookView F)
      (urgency : F)
      → All (IsExit inp pos t) (
          maybe_exit t pos fv delta view inp.meta.tick_size inp.meta.price_decimals urgency inp.meta
            inp.regime)
  unfolding maybe_exit
  maybe_exit_sound inp t pos fv delta view urgency =
      let price =
        exit_price fv delta view inp.meta.tick_size inp.meta.price_decimals urgency inp.regime in
      let size = fl.floor (pos.size * num 100) / num 100 in
      elim (Bool-cases (pos.size < inp.meta.min_order_size)) [
        | inl little ↦ rw little tt
        | inr enough ↦
            rw enough
              (elim (Bool-cases
                (((num 0 < price) && (price < num 1)) && (inp.meta.min_order_size <= size))) [
                  | inr unfit ↦ rw unfit tt
                  | inl fits ↦ rw fits (
                    record {
                      sold = refl;
                      of_token = refl;
                      sound = record {
                        positive = ground arith;
                        below_one = ground arith;
                        large_enough = ground arith;
                      };
                      held = enough;
                    },
                    tt,
                  )
                ])
      ]

  -- Why a quote may stand among the targets: an entry of a side that may add, or an exit.
  pub data Admissible (inp : QuoteInputs F) (q : Quote F) : Type 0 where
    enters_yes :
        add_yes inp ≡ true
        → IsEntry inp inp.meta.yes_token.token_id (quote_mid inp) q
        → Admissible inp q
    enters_no :
        add_no inp ≡ true
        → IsEntry inp inp.meta.no_token.token_id (num 1 - quote_mid inp) q
        → Admissible inp q
    leaves_yes : IsExit inp inp.pos_yes inp.meta.yes_token.token_id q → Admissible inp q
    leaves_no : IsExit inp inp.pos_no inp.meta.no_token.token_id q → Admissible inp q

  All-weaken :
      (P Q : Quote F → Type 0) (qs : List (Quote F))
      → ((q : Quote F) → P q → Q q)
      → All P qs
      → All Q qs
  All-weaken P Q [] f a = tt
  All-weaken P Q (q ∷ qs) f a = (f q a.0, All-weaken P Q qs f a.1)

  yes_entry_sound : (ok : IsFloat fl) (inp : QuoteInputs F) → All (Admissible inp) (yes_entry inp)
  unfolding yes_entry
  yes_entry_sound ok inp = elim (Bool-cases (add_yes inp)) [
    | inr pulled ↦ rw pulled tt
    | inl adding ↦ rw adding (
        All-weaken _ (Admissible inp) _ (λ q. enters_yes adding)
          (entry_leg_sound ok inp inp.meta.yes_token.token_id _ inp.yes_view inp.fv (quote_mid inp)
            _))
  ]

  no_entry_sound : (ok : IsFloat fl) (inp : QuoteInputs F) → All (Admissible inp) (no_entry inp)
  unfolding no_entry
  no_entry_sound ok inp = elim (Bool-cases (add_no inp)) [
    | inr pulled ↦ rw pulled tt
    | inl adding ↦ rw adding (
        All-weaken _ (Admissible inp) _ (λ q. enters_no adding)
          (entry_leg_sound ok inp inp.meta.no_token.token_id _ inp.no_view (num 1 - inp.fv)
            (num 1 - quote_mid inp) _))
  ]

  active_sound :
      (ok : IsFloat fl) (inp : QuoteInputs F)
      → All (Admissible inp) (yes_entry inp ++ no_entry inp ++ yes_exit inp ++ no_exit inp)
  active_sound ok inp =
      All-append (Admissible inp) (yes_entry inp ++ no_entry inp ++ yes_exit inp) (no_exit inp)
        (All-append (Admissible inp) (yes_entry inp ++ no_entry inp) (yes_exit inp)
          (All-append (Admissible inp) (yes_entry inp) (no_entry inp) (yes_entry_sound ok inp)
            (no_entry_sound ok inp))
          (All-weaken _ (Admissible inp) (yes_exit inp) (λ q. leaves_yes)
            (maybe_exit_sound inp inp.meta.yes_token.token_id inp.pos_yes inp.fv (half_spread inp)
              inp.yes_view inp.yes_exit_urgency)))
        (All-weaken _ (Admissible inp) (no_exit inp) (λ q. leaves_no)
          (maybe_exit_sound inp inp.meta.no_token.token_id inp.pos_no (num 1 - inp.fv)
            (half_spread inp) inp.no_view inp.no_exit_urgency))

  -- Every target quote is admissible: its price is strictly between 0 and 1 and its size at least the
  -- exchange minimum; a BUY belongs to a side that may still add (never in REDUCE_ONLY, and short of
  -- the soft inventory cap), reaches the reward size and lies in the reward band of its token; a SELL
  -- is of a token of which at least the exchange minimum is held. In EVENT and HALTED there is none.
  pub construct_quotes-Admissible :
      (ok : IsFloat fl) (inp : QuoteInputs F)
      → All
          (λ q.
            Admissible inp q
            × (same_regime inp.regime event ≡ false)
            × (same_regime inp.regime halted ≡ false))
          (construct_quotes inp).quotes
  unfolding construct_quotes
  construct_quotes-Admissible ok inp =
      elim (Bool-cases (same_regime inp.regime event || same_regime inp.regime halted)) [
        | inl pulled ↦ rw pulled tt
        | inr active ↦ rw active (
            All-weaken (Admissible inp) _
              (yes_entry inp ++ no_entry inp ++ yes_exit inp ++ no_exit inp)
              (λ q a. (a, ground arith, ground arith)) (active_sound ok inp))
      ]
