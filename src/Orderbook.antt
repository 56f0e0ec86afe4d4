-- ===== src/Orderbook.antt =====
-- src/polymaker/marketdata/orderbook.py: the YES-canonical book of one market and its views.
-- `sortedcontainers.SortedDict` is a parameter: its operations, and the laws that its documentation
-- states of them. `time.time()` is the argument `local`.
pub mod Touch
pub mod Depth
use polymaker.Prelude.{
  ℕ, zero, suc, String, Bool, true, false, not, ◌&&◌, ◌||◌, ◌≡◌, Option, none, some, List, [], ◌∷◌,
  ◌++◌, All, take, select, if◌then◌else◌,
}
use polymaker.Float.{Float, num, ◌+◌, ◌-◌, ◌*◌, ◌/◌, ◌<=◌, ◌<◌}
use polymaker.Domain.{Side, buy, same_side}

pub record BookLevel (F : Type 0) : Type 0 where
  pub price : F
  pub size : F

pub record BookView (F : Type 0) : Type 0 where
  pub best_bid : Option F
  pub best_bid_size : F
  pub best_ask : Option F
  pub best_ask_size : F
  pub second_bid : Option F
  pub second_ask : Option F
  pub bid_depth : F
  pub ask_depth : F

-- The operations of SortedDict[float, float] that the book uses; `items` is in ascending key order.
pub record SortedDict (D F : Type 0) : Type 0 where
  pub empty : D
  pub set_item : F → F → D → D
  pub pop : F → D → D
  pub items : D → List (F × F)

module _ {F : Type 0} ⦃fl : Float F⦄ where
  -- Strictly increasing keys.
  abbrev pub Ascending : List (F × F) → Type 0
  Ascending [] = Unit
  Ascending (l ∷ ls) = All (λ m. (l.0 < m.0) ≡ true) ls × Ascending ls

  -- The documented behaviour: a new dictionary is empty, items come in key order, an assignment adds
  -- nothing but the assigned item, and a removal adds nothing.
  pub record IsSortedDict {D : Type 0} (sd : SortedDict D F) : Type 0 where
    pub items_empty : sd.items sd.empty ≡ []
    pub items_Ascending : (d : D) → Ascending (sd.items d)
    pub items_set :
        (P : F × F → Bool) (p s : F) (d : D)
        → All (λ l. P l ≡ true) (sd.items d)
        → P (p, s) ≡ true
        → All (λ l. P l ≡ true) (sd.items (sd.set_item p s d))
    pub items_pop :
        (P : F × F → Bool) (p : F) (d : D)
        → All (λ l. P l ≡ true) (sd.items d)
        → All (λ l. P l ≡ true) (sd.items (sd.pop p d))

pub record OrderBook (D F : Type 0) : Type 0 where
  pub bids : D
  pub asks : D
  pub tick_size : F
  pub last_update_ts : F
  pub local_ts : F
  pub book_hash : Option String
  pub stale_snapshots : ℕ

module _ {F : Type 0} ⦃fl : Float F⦄ where
  -- BookView.mid
  pub view_mid : BookView F → Option F
  view_mid v = elim (v.best_bid) as (λ x. Option F) [
    | none ↦ none
    | some bid ↦ elim (v.best_ask) as (λ x. Option F) [
      | none ↦ none
      | some ask ↦ some ((bid + ask) / num 2)
    ]
  ]

  -- BookView.spread
  pub view_spread : BookView F → Option F
  view_spread v = elim (v.best_bid) as (λ x. Option F) [
    | none ↦ none
    | some bid ↦ elim (v.best_ask) as (λ x. Option F) [ none ↦ none | some ask ↦ some (ask - bid) ]
  ]

  -- BookView.imbalance
  pub view_imbalance : BookView F → F
  view_imbalance v =
      let total = v.bid_depth + v.ask_depth in
      if num 0 < total then (v.bid_depth - v.ask_depth) / total else num 0

  -- `reversed(...)`
  abbrev pub backward : List (F × F) → List (F × F)
  backward [] = []
  backward (l ∷ ls) = backward ls ++ l ∷ []

  -- `sum(...)` of the sizes, from a running total
  abbrev pub sum_sizes : F → List (F × F) → F
  sum_sizes total [] = total
  sum_sizes total (l ∷ ls) = sum_sizes (total + l.1) ls

  -- peekitem(-1)
  abbrev pub last_item : List (F × F) → Option (F × F)
  last_item [] = none
  last_item (l ∷ ls) = elim (last_item ls) as (λ x. Option (F × F)) [
    | none ↦ some l
    | some m ↦ some m
  ]

  -- peekitem(0)
  abbrev pub first_item : List (F × F) → Option (F × F)
  first_item [] = none
  first_item (l ∷ ls) = some l

  abbrev pub level : Option (F × F) → Option (BookLevel F)
  level none = none
  level (some l) = some (record { price = l.0; size = l.1 })

  -- The loop of _nth_bid and _nth_ask over the levels in their order.
  unfoldable pub nth_level : F → ℕ → List (F × F) → Option (F × F)
  nth_level min_size n [] = none
  nth_level min_size zero (l ∷ ls) =
      let rest = nth_level min_size zero ls in if min_size < l.1 then some l else rest
  nth_level min_size (suc n) (l ∷ ls) =
      let counted = nth_level min_size n ls in
      let rest = nth_level min_size (suc n) ls in if min_size < l.1 then counted else rest

  -- The loop of best_with_min_size: the level found, with the touch.
  pub first_large : F → Option F → List (F × F) → Option F × F × Option F
  first_large min_size top [] = (none, num 0, top)
  first_large min_size top (l ∷ ls) =
      let touch : Option F = elim top as (λ x. Option F) [ none ↦ some l.0 | some t ↦ some t ] in
      let rest = first_large min_size touch ls in
      if min_size < l.1 then (some l.0, l.1, touch) else rest

  module _ {D : Type 0} (sd : SortedDict D F) where
    unfoldable pub new_book : F → OrderBook D F
    new_book tick_size = record {
      bids = sd.empty;
      asks = sd.empty;
      tick_size = tick_size;
      last_update_ts = num 0;
      local_ts = num 0;
      book_hash = none;
      stale_snapshots = 0;
    }

    -- SortedDict({p: s for p, s in levels if s > 0})
    unfoldable pub from_levels : List (F × F) → D → D
    from_levels [] d = d
    from_levels (l ∷ ls) d = from_levels ls (if num 0 < l.1 then sd.set_item l.0 l.1 d else d)

    unfoldable pub apply_snapshot :
        List (F × F) → List (F × F) → F → Option String → F → OrderBook D F → OrderBook D F
    unfolding from_levels
    apply_snapshot bids asks ts book_hash local b =
        if (num 0 < ts) && ((num 0 < b.last_update_ts) && (ts < b.last_update_ts))
        then record b { stale_snapshots = suc b.stale_snapshots }
        else record b {
          bids = from_levels bids sd.empty;
          asks = from_levels asks sd.empty;
          last_update_ts = ts;
          local_ts = local;
          book_hash = book_hash;
        }

    -- The change of one side.
    unfoldable pub put_level : F → F → D → D
    put_level price size d = if size <= num 0 then sd.pop price d else sd.set_item price size d

    unfoldable pub apply_delta : Side → F → F → F → F → OrderBook D F → OrderBook D F
    unfolding put_level
    apply_delta side price size ts local b =
        if same_side side buy
        then record b { bids = put_level price size b.bids; last_update_ts = ts; local_ts = local }
        else record b { asks = put_level price size b.asks; last_update_ts = ts; local_ts = local }

    unfoldable pub set_tick_size : F → OrderBook D F → OrderBook D F
    set_tick_size tick_size b = record b { tick_size = tick_size }

    unfoldable pub best_bid : OrderBook D F → Option (BookLevel F)
    best_bid b = level (last_item (sd.items b.bids))

    unfoldable pub best_ask : OrderBook D F → Option (BookLevel F)
    best_ask b = level (first_item (sd.items b.asks))

    -- _top_size
    pub top_size : D → ℕ → Bool → F
    top_size book levels from_high =
        let ordered = if from_high then backward (sd.items book) else sd.items book in
        sum_sizes (num 0) (take levels ordered)

    pub microprice : ℕ → OrderBook D F → Option F
    microprice levels b = elim (best_bid b) as (λ x. Option F) [
      | none ↦ none
      | some bb ↦ elim (best_ask b) as (λ x. Option F) [
        | none ↦ none
        | some ba ↦
            let bid_sz = top_size b.bids levels true in
            let ask_sz = top_size b.asks levels false in
            let total = bid_sz + ask_sz in
            some (
              if total <= num 0
              then (bb.price + ba.price) / num 2
              else (ba.price * bid_sz + bb.price * ask_sz) / total)
      ]
    ]

    pub best_with_min_size : Side → F → OrderBook D F → Option F × F × Option F
    best_with_min_size side min_size b =
        first_large min_size none
          (if same_side side buy then backward (sd.items b.bids) else sd.items b.asks)

    unfoldable pub depth_within : Side → F → F → OrderBook D F → F
    depth_within side lo hi b =
        let book = if same_side side buy then b.bids else b.asks in
        sum_sizes (num 0) (select (λ l. (lo <= l.0) && (l.0 <= hi)) (sd.items book))

    -- _nth_bid
    abbrev nth_bid : ℕ → F → OrderBook D F → Option (BookLevel F)
    nth_bid n min_size b = level (nth_level min_size n (backward (sd.items b.bids)))

    -- _nth_ask
    abbrev nth_ask : ℕ → F → OrderBook D F → Option (BookLevel F)
    nth_ask n min_size b = level (nth_level min_size n (sd.items b.asks))

    abbrev price_of : Option (BookLevel F) → Option F
    price_of none = none
    price_of (some l) = some l.price

    abbrev size_of : Option (BookLevel F) → F
    size_of none = num 0
    size_of (some l) = l.size

    -- The depths of both sides, 0 where a side is empty.
    pub depths : F → Option (BookLevel F) → Option (BookLevel F) → OrderBook D F → F × F
    depths band_frac none ba b = (num 0, num 0)
    depths band_frac (some bb) none b = (num 0, num 0)
    depths band_frac (some bb) (some ba) b =
        let mid = (bb.price + ba.price) / num 2 in
        (
          depth_within Side.buy bb.price (mid * (num 1 + band_frac)) b,
          depth_within Side.sell (mid * (num 1 - band_frac)) ba.price b,
        )

    pub view : F → F → OrderBook D F → BookView F
    view band_frac min_size b =
        let bb = nth_bid 0 min_size b in
        let ba = nth_ask 0 min_size b in
        let (bid_depth, ask_depth) = depths band_frac bb ba b in
        record {
          best_bid = price_of bb;
          best_bid_size = size_of bb;
          best_ask = price_of ba;
          best_ask_size = size_of ba;
          second_bid = price_of (nth_bid 1 min_size b);
          second_ask = price_of (nth_ask 1 min_size b);
          bid_depth = bid_depth;
          ask_depth = ask_depth;
        }

  pub to_no_price : F → F
  to_no_price yes_price = num 1 - yes_price
