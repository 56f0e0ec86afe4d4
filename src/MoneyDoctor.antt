-- ===== src/MoneyDoctor.antt =====
-- src/polymaker/moneydoctor.py: the self-test that trades for real, with the book it reads through
-- src/polymaker/execution/gateway.py. The answers of the exchange and of the chain are arguments, in
-- the order of the calls, and the orders sent are a log; a call that raises ends the run and is left
-- out. `check` is a conjunct of the result.
pub mod Flat
pub mod Sales
use polymaker.Prelude.{
  ℕ, zero, suc, String, Bool, true, false, not, ◌&&◌, ◌||◌, Option, none, some, List, [], ◌∷◌, ◌++◌,
  ◌==◌, or_else, map, mem, if◌then◌else◌,
}
use polymaker.Float.{Float, num, ◌+◌, ◌-◌, ◌*◌, ◌/◌, ◌<=◌, ◌<◌, max}
use polymaker.Domain.{Side, buy, sell, MarketMeta, OpenOrder, Quote}
use polymaker.Quoting.{round_to_tick}
use polymaker.Scoring.{MarketScore}
use polymaker.Wire.{
  Json, Fields, Python, text, number, boolean, array, object, end, item, get, get_default, str_of,
  float_of, iterated,
}
use polymaker.Catalog.Gamma.{Parsed, usable, unusable, escaped, ◌>>=◌, caught}
use polymaker.Catalog.Scan.{largest, smallest}
use polymaker.Catalog.Store.{CatalogStore, top}

pub record Touch (F : Type 0) : Type 0 where
  pub best_bid : F
  pub best_ask : F
  pub ask_depth : F
  pub bid_depth : F

pub data Order (F : Type 0) : Type 0 where
  limit_order : Quote F → Order F
  cancel_order : String → Order F
  market_order : Side → F → Order F

-- What the exchange and the chain answer in a run.
pub record Replies (F : Type 0) : Type 0 where
  pub collateral : Option F
  pub placed : List (OpenOrder F)
  pub live : Option (List (OpenOrder F))
  pub after_cancel : Option (List (OpenOrder F))
  pub before : Option F
  pub bought : Json F
  pub settled : Option F
  pub sold : ℕ → Json F
  pub held : ℕ → Option F
  pub remaining : Option F

-- The result so far, and the orders sent.
pub record Report (F : Type 0) : Type 0 where
  pub ok : Bool
  pub sent : List (Order F)

module _ {F : Type 0} ⦃fl : Float F⦄ (py : Python F) where
  -- `float(x)` where a ValueError is caught and a TypeError is not.
  abbrev strict_float : Json F → Parsed F
  strict_float (text s) = caught (py.to_float s)
  strict_float (number x) = usable x
  strict_float (boolean b) = caught (float_of py (boolean b))
  strict_float v = escaped

  abbrev strict_level : Json F → Parsed (F × F)
  strict_level (object d) = do
    p ← caught (item "price" d)
    price ← strict_float p
    s ← caught (item "size" d)
    size ← strict_float s
    usable (price, size)
  strict_level v = escaped

  unfoldable pub strict_levels : List (Json F) → Parsed (List (F × F))
  strict_levels [] = usable []
  strict_levels (x ∷ xs) = do l ← strict_level x; ls ← strict_levels xs; usable (l ∷ ls)

  abbrev entries : Json F → Parsed (List (Json F))
  entries v = elim (iterated v) as (λ x. Parsed (List (Json F))) [
    | none ↦ escaped
    | some xs ↦ usable xs
  ]

  -- `sum(s for p, s in levels if near(p))`
  unfoldable pub size_where : (F → Bool) → F → List (F × F) → F
  size_where near total [] = total
  size_where near total (l ∷ ls) = size_where near (if near l.0 then total + l.1 else total) ls

  abbrev best_or : F → (F × F → List (F × F) → F × F) → List (F × F) → F
  best_or d pick [] = d
  best_or d pick (l ∷ ls) = (pick l ls).0

  -- ExecutionGateway.get_book: unusable where it returns an empty dict.
  unfoldable pub get_book : Option (Json F) → Parsed (Touch F)
  unfolding strict_levels size_where largest smallest
  get_book none = unusable
  get_book (some (object b)) = do
    bid_rows ← entries (get_default (array end) "bids" b)
    bids ← strict_levels bid_rows
    ask_rows ← entries (get_default (array end) "asks" b)
    asks ← strict_levels ask_rows
    let bid = best_or (num 0) largest bids
    let ask = best_or (num 1) smallest asks
    usable (record {
      best_bid = bid;
      best_ask = ask;
      ask_depth = size_where (λ p. p <= ask + fl.lit 1 9) (num 0) asks;
      bid_depth = size_where (λ p. bid - fl.lit 1 9 <= p) (num 0) bids;
    })
  get_book (some v) = escaped

  abbrev is_zero : F → Bool
  is_zero x = (x <= num 0) && (num 0 <= x)

  abbrev catalog_mid : MarketMeta F → F
  catalog_mid m =
      if is_zero m.best_bid || is_zero m.best_ask then num 0 else (m.best_bid + m.best_ask) / num 2

  -- Whether a candidate's book is liquid and tight enough.
  abbrev suits : MarketMeta F → Touch F → Bool
  suits m b =
      not ((b.best_bid <= num 0) || (num 1 <= b.best_ask))
      && (m.min_order_size + num 4 <= b.ask_depth)
      && (m.min_order_size + num 4 <= b.bid_depth)
      && (b.best_ask - b.best_bid <= fl.lit 2 2)

  -- _pick_market, over the rows of the catalog; a book is asked for by token.
  unfoldable pub pick_market :
      (String → Option (Json F)) → List (MarketMeta F) → Parsed (MarketMeta F × Touch F)
  unfolding get_book
  pick_market fetch [] = unusable
  pick_market fetch (m ∷ ms) =
      let later = pick_market fetch ms in
      let mid = catalog_mid m in
      if (fl.lit 2 1 < mid) && (mid < fl.lit 6 1)
      then elim (get_book (fetch m.yes_token.token_id)) as (λ x. Parsed (MarketMeta F × Touch F)) [
        | usable b ↦ if suits m b then usable (m, b) else later
        | unusable ↦ later
        | escaped ↦ escaped
      ]
      else later

  -- `_f`
  abbrev number_or_zero : Json F → F
  number_or_zero v = or_else (num 0) (float_of py v)

  -- `_fill`: the shares, the dollars and the status of a market order's answer.
  abbrev pub fill_of : Json F → Side → F × F × String
  fill_of (object resp) side =
      let status = str_of py (get_default (text "") "status" resp) in
      let making = number_or_zero (get "makingAmount" resp) in
      let taking = number_or_zero (get "takingAmount" resp) in
      elim side [ buy ↦ (taking, making, status) | sell ↦ (making, taking, status) ]
  fill_of v side = (num 0, num 0, "?")

  abbrev pub was_filled : Json F → Side → Bool
  was_filled resp side = ((fill_of resp side).2 == "matched") && (num 0 < (fill_of resp side).0)

  -- `math.floor(x * 100) / 100`
  abbrev pub floor_cents : F → F
  floor_cents x = fl.floor (x * num 100) / num 100

  -- What follows a sale of `amount` that was not filled, by the balance that is read then.
  abbrev pub retry : F → F → Option F → (F → Bool × List F) → Bool × List F
  retry min_size amount none again = (false, amount ∷ [])
  retry min_size amount (some bal) again =
      let next = floor_cents (max (num 0) bal) in
      let rest = again next in
      if next < min_size then (false, amount ∷ []) else (rest.0, amount ∷ rest.1)

  -- The loop of _sell_with_retry: whether an order was filled, and the amounts that were sent.
  unfoldable pub sell_with_retry : (ℕ → Json F) → (ℕ → Option F) → F → ℕ → ℕ → F → Bool × List F
  sell_with_retry sold held min_size zero i amount = (false, [])
  sell_with_retry sold held min_size (suc n) i amount =
      if was_filled (sold i) sell
      then (true, amount ∷ [])
      else retry min_size amount (held i) (sell_with_retry sold held min_size n (suc i))

  -- `check(label, passed)`
  abbrev pub check : Bool → Report F → Report F
  check passed r = record r { ok = r.ok && passed }

  abbrev pub send_order : Order F → Report F → Report F
  send_order o r = record r { sent = r.sent ++ o ∷ [] }

  abbrev pub send_orders : List (Order F) → Report F → Report F
  send_orders os r = record r { sent = r.sent ++ os }

  abbrev pub lists : String → List (OpenOrder F) → Bool
  lists id os = mem id (map (λ o. o.order_id) os)

  -- The reads after the limit order was placed.
  unfoldable pub confirm_limit :
      String → Option (List (OpenOrder F)) → Option (List (OpenOrder F)) → Report F → Report F
  confirm_limit id none after r = check false r
  confirm_limit id (some live) none r =
      check false (send_order (cancel_order id) (check (lists id live) r))
  confirm_limit id (some live) (some after) r =
      check (not (lists id after)) (send_order (cancel_order id) (check (lists id live) r))

  abbrev pub confirm_placed :
      List (OpenOrder F)
      → Option (List (OpenOrder F))
      → Option (List (OpenOrder F))
      → Report F
      → Report F
  confirm_placed [] live after r = check false r
  confirm_placed (o ∷ os) live after r = confirm_limit o.order_id live after r

  -- 1. LIMIT
  unfoldable pub limit_step : MarketMeta F → Touch F → Replies F → Report F → Report F
  unfolding confirm_limit
  limit_step m b ans r =
      let q : Quote F = record {
        token_id = m.yes_token.token_id;
        side = buy;
        price = round_to_tick (b.best_bid - num 2 * m.tick_size) m.tick_size m.price_decimals false;
        size = max m.min_order_size (num 5);
      } in
      confirm_placed ans.placed ans.live ans.after_cancel (send_order (limit_order q) r)

  abbrev pub near_baseline : F → Option F → Bool
  near_baseline before none = false
  near_baseline before (some remaining) = remaining <= before + fl.lit 5 1

  -- 3. MARKET SELL of what was bought, and the last read of the chain.
  unfoldable pub sell_step : MarketMeta F → F → F → Replies F → Report F → Report F
  unfolding sell_with_retry
  sell_step m before bought ans r =
      let got = or_else before ans.settled - before in
      let amount = floor_cents (max got bought) in
      let sold = sell_with_retry ans.sold ans.held m.min_order_size 5 0 amount in
      check (near_baseline before ans.remaining)
        (check (sold.0) (send_orders (map (market_order sell) sold.1) (check (fl.lit 5 1 < got) r)))

  abbrev pub after_buy : MarketMeta F → F → F → Replies F → Bool → Report F → Report F
  after_buy m before bought ans true r = sell_step m before bought ans r
  after_buy m before bought ans false r = r

  -- 2. MARKET BUY, and the sale where it filled.
  unfoldable pub buy_step : MarketMeta F → Touch F → F → Replies F → Report F → Report F
  unfolding sell_step
  buy_step m b before ans r =
      let dollars = fl.round_to ((m.min_order_size + num 3) * b.best_ask * fl.lit 106 2) 2 in
      let bought = (fill_of ans.bought buy).0 in
      let done = check (was_filled ans.bought buy) (send_order (market_order buy dollars) r) in
      after_buy m before bought ans (num 0 < bought) done

  abbrev pub trade_from : MarketMeta F → Touch F → Replies F → Option F → Report F → Report F
  trade_from m b ans none r = check false r
  trade_from m b ans (some before) r = buy_step m b before ans r

  abbrev pub run_from : MarketMeta F → Touch F → Replies F → Option F → Report F → Report F
  run_from m b ans none r = check false r
  run_from m b ans (some bal0) r = trade_from m b ans ans.before (limit_step m b ans r)

  -- run_moneydoctor with a market that was picked; a missing balance ends it with False.
  unfoldable pub run_on : MarketMeta F → Touch F → Replies F → Report F
  unfolding limit_step buy_step
  run_on m b ans = run_from m b ans ans.collateral (record { ok = true; sent = [] })

  -- run_moneydoctor: False without a wallet or a suitable market of the 40 best.
  unfoldable pub run_moneydoctor :
      Bool → CatalogStore F → (String → Option (Json F)) → Replies F → Parsed (Report F)
  unfolding pick_market run_on
  run_moneydoctor has_wallet catalog fetch ans =
      let failed : Report F = record { ok = false; sent = [] } in
      if not has_wallet
      then usable failed
      else elim (pick_market fetch (map (λ row. row.0.meta) (top 40 (num 3600) catalog)))
          as (λ x. Parsed (Report F)) [
            | usable (m, b) ↦ usable (run_on m b ans)
            | unusable ↦ usable failed
            | escaped ↦ escaped
          ]
