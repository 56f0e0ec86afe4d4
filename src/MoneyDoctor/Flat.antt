-- ===== src/MoneyDoctor/Flat.antt =====
-- src/polymaker/moneydoctor.py: what a run that reports success has seen.
use polymaker.Prelude.{
  ℕ, ◌<◌, ◌≡◌, refl, String, Bool, true, false, ◌&&◌, Option, none, some, List, [], ◌∷◌, arith,
}
use polymaker.Float.{Float, num, ◌+◌ as plus, ◌<=◌, ◌<◌ as lt}
use polymaker.Domain.{MarketMeta, buy, sell, OpenOrder}
use polymaker.Wire.{Python}
use polymaker.MoneyDoctor.{
  Touch, Replies, Report, fill_of, after_buy, was_filled, lists, confirm_limit, confirm_placed,
  limit_step, near_baseline, sell_step, buy_step, trade_from, run_from, run_on,
}
use polymaker.MoneyDoctor.Sales.{sold_within}

module _ {F : Type 0} ⦃fl : Float F⦄ (py : Python F) where
  -- What was seen of a run: the limit order was listed and then was not, the purchase was matched, one of at
  -- most five sales was matched, and the chain shows at most half a share more than before.
  pub record IsFlat (ans : Replies F) : Type 0 where
    pub order : OpenOrder F
    pub others : List (OpenOrder F)
    pub was_placed : ans.placed ≡ order ∷ others
    pub live : List (OpenOrder F)
    pub live_read : ans.live ≡ some live
    pub was_live : lists py order.order_id live ≡ true
    pub after : List (OpenOrder F)
    pub after_read : ans.after_cancel ≡ some after
    pub is_gone : lists py order.order_id after ≡ false
    pub was_bought : was_filled py ans.bought buy ≡ true
    pub attempt : ℕ
    pub in_time : attempt < 5
    pub was_sold : was_filled py (ans.sold attempt) sell ≡ true
    pub before : F
    pub before_read : ans.before ≡ some before
    pub remaining : F
    pub remaining_read : ans.remaining ≡ some remaining
    pub is_near : (remaining <= plus before (fl.lit 5 1)) ≡ true

  both : (p q : Bool) → (q && p) ≡ true → (p ≡ true) × (q ≡ true)
  both p q h = ground arith

  flat_read :
      (before : F) (remaining : Option F)
      → near_baseline py before remaining ≡ true
      → (x : F) × (remaining ≡ some x) × ((x <= plus before (fl.lit 5 1)) ≡ true)
  flat_read before none h = ground arith
  flat_read before (some x) h = (x, refl, h)

  -- What a limit order that passed its checks was seen to do.
  record WasResting (id : String) (live after : Option (List (OpenOrder F))) : Type 0 where
    listed_live : List (OpenOrder F)
    live_read : live ≡ some listed_live
    was_live : lists py id listed_live ≡ true
    listed_after : List (OpenOrder F)
    after_read : after ≡ some listed_after
    is_gone : lists py id listed_after ≡ false

  confirm_limit-WasResting :
      (id : String) (live after : Option (List (OpenOrder F))) (r : Report F)
      → (confirm_limit py id live after r).ok ≡ true
      → WasResting id live after
  unfolding confirm_limit
  confirm_limit-WasResting id none after r h = ground arith
  confirm_limit-WasResting id (some os) none r h = ground arith
  confirm_limit-WasResting id (some os) (some ps) r h = record {
    listed_live = os;
    live_read = refl;
    was_live = ground (arith, h);
    listed_after = ps;
    after_read = refl;
    is_gone = ground (arith, h);
  }

  -- A placed order that was seen on the book, and then was not.
  record WasPlaced (ans : Replies F) : Type 0 where
    order : OpenOrder F
    others : List (OpenOrder F)
    was_placed : ans.placed ≡ order ∷ others
    resting : WasResting order.order_id ans.live ans.after_cancel

  limit_step-WasPlaced :
      (m : MarketMeta F) (b : Touch F) (ans : Replies F) (r : Report F)
      → (limit_step py m b ans r).ok ≡ true
      → WasPlaced ans
  unfolding limit_step
  limit_step-WasPlaced m b ans r h = go ans.placed _ refl h
    where
      go :
          (l : List (OpenOrder F)) (r : Report F)
          → ans.placed ≡ l
          → (confirm_placed py l ans.live ans.after_cancel r).ok ≡ true
          → WasPlaced ans
      go [] r e h = ground arith
      go (o ∷ os) r e h = record {
        order = o;
        others = os;
        was_placed = e;
        resting = confirm_limit-WasResting o.order_id ans.live ans.after_cancel r h;
      }

  -- What a purchase and its sale that passed their checks were seen to do.
  record WasTraded (before : F) (ans : Replies F) : Type 0 where
    was_bought : was_filled py ans.bought buy ≡ true
    was_sold : (k : ℕ) × (k < 5) × (was_filled py (ans.sold k) sell ≡ true)
    flat_now : near_baseline py before ans.remaining ≡ true

  buy_step-WasTraded :
      (m : MarketMeta F) (b : Touch F) (before : F) (ans : Replies F) (r : Report F)
      → (buy_step py m b before ans r).ok ≡ true
      → WasTraded before ans × (r.ok ≡ true)
  unfolding buy_step sell_step
  buy_step-WasTraded m b before ans r h =
      let bought = (fill_of py ans.bought buy).0 in
      let (p, q) = both (was_filled py ans.bought buy) _ (kept bought (lt (num 0) bought) _ h) in
      let (f, s) = done bought (lt (num 0) bought) _ (ground (arith, p)) h in
      (record { was_bought = p; was_sold = s; flat_now = f }, q)
    where
      kept :
          (bought : F) (c : Bool) (s : Report F)
          → (after_buy py m before bought ans c s).ok ≡ true
          → s.ok ≡ true
      kept bought true s k =
          let (f, k1) = both (near_baseline py before ans.remaining) _ k in
          let (t, k2) = both _ _ k1 in let (g, k3) = both _ s.ok k2 in k3
      kept bought false s k = k

      done :
          (bought : F) (c : Bool) (s : Report F)
          → c ≡ true
          → (after_buy py m before bought ans c s).ok ≡ true
          → (near_baseline py before ans.remaining ≡ true)
            × ((k : ℕ) × (k < 5) × (was_filled py (ans.sold k) sell ≡ true))
      done bought true s e k =
          let (f, k1) = both (near_baseline py before ans.remaining) _ k in
          let (t, k2) = both _ _ k1 in
          (f, sold_within py ans.sold ans.held m.min_order_size 5 0 _ t)
      done bought false s e k = ground arith

  trade_from-IsFlat :
      (m : MarketMeta F) (b : Touch F) (ans : Replies F) (before : Option F) (r : Report F)
      → ans.before ≡ before
      → (trade_from py m b ans before (limit_step py m b ans r)).ok ≡ true
      → IsFlat ans
  trade_from-IsFlat m b ans none r e h = ground arith
  trade_from-IsFlat m b ans (some x) r e h =
      let (t, q) = buy_step-WasTraded m b x ans (limit_step py m b ans r) h in
      let w = limit_step-WasPlaced m b ans r q in
      let (left, read, near) = flat_read x ans.remaining t.flat_now in
      record {
        order = w.order;
        others = w.others;
        was_placed = w.was_placed;
        live = w.resting.listed_live;
        live_read = w.resting.live_read;
        was_live = w.resting.was_live;
        after = w.resting.listed_after;
        after_read = w.resting.after_read;
        is_gone = w.resting.is_gone;
        was_bought = t.was_bought;
        attempt = t.was_sold.0;
        in_time = t.was_sold.1;
        was_sold = t.was_sold.2;
        before = x;
        before_read = e;
        remaining = left;
        remaining_read = read;
        is_near = near;
      }

  -- A run that reports success saw its limit order rest on the book and then gone, its purchase and one of
  -- at most five sales matched, and on the chain, in a read that answered, at most half a share more
  -- than in the read before the purchase.
  pub run_on-IsFlat :
      (m : MarketMeta F) (b : Touch F) (ans : Replies F)
      → (run_on py m b ans).ok ≡ true
      → IsFlat ans
  unfolding run_on
  run_on-IsFlat m b ans h = go ans.collateral h
    where
      go :
          (c : Option F)
          → (run_from py m b ans c (record { ok = true; sent = [] })).ok ≡ true
          → IsFlat ans
      go none h = ground arith
      go (some bal0) h =
          trade_from-IsFlat m b ans ans.before (record { ok = true; sent = [] }) refl h
