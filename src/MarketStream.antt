-- ===== src/MarketStream.antt =====
-- The message handling of src/polymaker/marketdata/service.py: from the decoded frames of the market
-- websocket to the books. The callbacks are the lists of the calls made, latest last. `now` is
-- `time.time()`; an exception that leaves a handler is a flag.
pub mod Parse
pub mod Sound
use polymaker.Prelude.{
  String, true, false, ◌&&◌, Option, none, some, List, [], ◌∷◌, ◌++◌, ◌==◌, mem, Dict, lookup,
  contains, insert, set_default, if◌then◌else◌, ◌>>=◌,
}
use polymaker.Float.{Float, num, ◌<=◌}
use polymaker.Domain.{Side}
use polymaker.Domain.Names.{side_named}
use polymaker.Orderbook.{
  SortedDict, OrderBook, new_book, apply_snapshot, apply_delta, set_tick_size,
}
use polymaker.Engine.{TradePrint}
use polymaker.UserStream.{Outcome}
use polymaker.Wire.{
  Json, Fields, Python, null, text, array, object, end, item, get, get_default, str_of, is_text,
  float_of, elements, items_of, ts_of,
}
use polymaker.MarketStream.Parse.{
  PriceChange, parse_book, parse_price_changes, parse_last_trade, parse_tick_size_change,
}

-- The service's books and subscriptions, and the calls of `on_dirty` and `on_trade` made.
pub record MarketData (D F : Type 0) : Type 0 where
  pub books : Dict (OrderBook D F)
  pub token_condition : Dict String
  pub subs : List String
  pub dirtied : List (String × String)
  pub traded : List (TradePrint F)

-- The service before any market is set.
abbrev pub new_service : {D F : Type 0} → MarketData D F
new_service = record { books = []; token_condition = []; subs = []; dirtied = []; traded = [] }

module _ {D F : Type 0} ⦃fl : Float F⦄ (sd : SortedDict D F) where
  -- The tokens of one market in `set_markets`.
  unfoldable pub add_tokens : String → List String → MarketData D F → MarketData D F
  add_tokens cond [] s = s
  add_tokens cond (tok ∷ toks) s = add_tokens cond toks (record s {
    books = set_default tok (new_book sd (fl.lit 1 3)) s.books;
    token_condition = insert tok cond s.token_condition;
    subs = s.subs ++ tok ∷ [];
  })

  unfoldable pub add_markets : List (String × List String) → MarketData D F → MarketData D F
  unfolding add_tokens
  add_markets [] s = s
  add_markets ((cond, toks) ∷ ms) s = add_markets ms (add_tokens cond toks s)

  unfoldable pub set_markets : List (String × List String) → MarketData D F → MarketData D F
  unfolding add_markets
  set_markets ms s = add_markets ms (record s { subs = [] })

module _ {D F : Type 0} where
  -- `_wake`
  unfoldable pub wake : String → MarketData D F → MarketData D F
  wake token_id s = elim (lookup token_id s.token_condition) [
    | none ↦ s
    | some cond ↦
        if cond == "" then s else record s { dirtied = s.dirtied ++ (cond, token_id) ∷ [] }
  ]

  unfoldable pub wake_each : List String → MarketData D F → MarketData D F
  unfolding wake
  wake_each [] s = s
  wake_each (t ∷ ts) s = wake_each ts (wake t s)

  -- The condition `upd.tick_size` on an optional float: set and not 0.
  abbrev pub with_tick : ⦃fl : Float F⦄ → SortedDict D F → Option F → OrderBook D F → OrderBook D F
  with_tick sd none book = book
  with_tick sd (some t) book =
      if (t <= num 0) && (num 0 <= t) then book else set_tick_size sd t book

module _ {D F : Type 0} ⦃fl : Float F⦄ (sd : SortedDict D F) (py : Python F) where
  -- `_on_book`
  unfoldable pub on_book : Fields F → F → MarketData D F → MarketData D F
  unfolding parse_book wake
  on_book msg now s = elim (parse_book py msg) as (λ x. MarketData D F) [
    | none ↦ s
    | some upd ↦ elim (lookup upd.asset_id s.books) as (λ x. MarketData D F) [
      | none ↦ s
      | some book ↦
          let fed =
            apply_snapshot sd upd.bids upd.asks upd.ts upd.book_hash now
              (with_tick sd upd.tick_size book) in
          wake upd.asset_id (record s { books = insert upd.asset_id fed s.books })
    ]
  ]

  -- The loop of `_on_price_change` over the changes: the service after, and the tokens touched.
  unfoldable pub apply_changes :
      List (PriceChange F) → F → List String → MarketData D F → MarketData D F × List String
  apply_changes [] now touched s = (s, touched)
  apply_changes (ch ∷ chs) now touched s =
      elim (lookup ch.asset_id s.books) as (λ x. MarketData D F × List String) [
        | none ↦ apply_changes chs now touched s
        | some book ↦
            apply_changes chs now
              (if mem ch.asset_id touched then touched else touched ++ ch.asset_id ∷ [])
              (record s {
                books =
                    insert ch.asset_id (apply_delta sd ch.side ch.price ch.size ch.ts now book)
                      s.books;
              })
      ]

  -- `_on_last_trade`
  unfoldable pub on_last_trade : Fields F → MarketData D F → MarketData D F
  unfolding parse_last_trade
  on_last_trade msg s = elim (parse_last_trade py msg) as (λ x. MarketData D F) [
    | none ↦ s
    | some tp ↦
        if contains tp.asset_id s.books then record s { traded = s.traded ++ tp ∷ [] } else s
  ]

  -- `_on_tick_change`
  unfoldable pub on_tick_change : Fields F → MarketData D F → MarketData D F
  unfolding parse_tick_size_change
  on_tick_change msg s = elim (parse_tick_size_change py msg) as (λ x. MarketData D F) [
    | none ↦ s
    | some (asset, tick) ↦ elim (lookup asset s.books) as (λ x. MarketData D F) [
      | none ↦ s
      | some book ↦ record s { books = insert asset (set_tick_size sd tick book) s.books }
    ]
  ]

  -- `_dispatch` of a message, by its `event_type`.
  unfoldable pub dispatch : Fields F → F → MarketData D F → Outcome (MarketData D F)
  unfolding on_book apply_changes wake_each on_last_trade on_tick_change parse_price_changes
  dispatch msg now s =
      let et = get "event_type" msg in
      let done : MarketData D F → Outcome (MarketData D F) =
        λ t. record { state = t; raised = false } in
      if is_text et "book"
      then done (on_book msg now s)
      else if is_text et "price_change"
      then elim (parse_price_changes py msg) as (λ x. Outcome (MarketData D F)) [
        | none ↦ record { state = s; raised = true }
        | some changes ↦
            let (fed, touched) = apply_changes changes now [] s in done (wake_each touched fed)
      ]
      else if is_text et "last_trade_price"
      then done (on_last_trade msg s)
      else if is_text et "tick_size_change"
      then done (on_tick_change msg s)
      else done s

  -- The loop of `_handle`; what is no dict is skipped.
  unfoldable pub dispatch_all : List (Json F) → F → MarketData D F → Outcome (MarketData D F)
  unfolding dispatch
  dispatch_all [] now s = record { state = s; raised = false }
  dispatch_all (object msg ∷ msgs) now s =
      let step = dispatch msg now s in
      let rest = dispatch_all msgs now step.state in if step.raised then step else rest
  dispatch_all (_ ∷ msgs) now s = dispatch_all msgs now s

  -- `_handle`, given what `json.loads` made of the frame.
  unfoldable pub handle_frame : Option (Json F) → F → MarketData D F → Outcome (MarketData D F)
  unfolding dispatch_all
  handle_frame none now s = record { state = s; raised = false }
  handle_frame (some (array xs)) now s = dispatch_all (elements xs) now s
  handle_frame (some v) now s = dispatch_all (v ∷ []) now s

  -- The frames of the connections of `run`: a frame whose handling raises ends its connection, and the
  -- service goes on with the books it has.
  unfoldable pub handle_frames : List (Option (Json F) × F) → MarketData D F → MarketData D F
  unfolding handle_frame
  handle_frames [] s = s
  handle_frames ((frame, now) ∷ fs) s = handle_frames fs (handle_frame frame now s).state
