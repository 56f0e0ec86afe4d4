-- ===== src/MarketStream/Parse.antt =====
-- src/polymaker/marketdata/parse.py: the messages of the market websocket as updates.
use polymaker.Prelude.{String, Option, none, some, List, [], ◌∷◌, ◌>>=◌}
use polymaker.Float.{Float}
use polymaker.Domain.{Side}
use polymaker.Domain.Names.{side_named}
use polymaker.Engine.{TradePrint}
use polymaker.Wire.{
  Json, Fields, Python, null, text, array, object, end, item, get, get_default, str_of, float_of,
  items_of, ts_of,
}

pub record BookUpdate (F : Type 0) : Type 0 where
  pub asset_id : String
  pub bids : List (F × F)
  pub asks : List (F × F)
  pub ts : F
  pub book_hash : Option String
  pub tick_size : Option F

pub record PriceChange (F : Type 0) : Type 0 where
  pub asset_id : String
  pub side : Side
  pub price : F
  pub size : F
  pub ts : F

module _ {F : Type 0} ⦃fl : Float F⦄ (py : Python F) where
  -- `float(d[key])`, with none for a KeyError as well.
  abbrev pub float_at : String → Fields F → Option F
  float_at key d = item key d >>= float_of py

  -- A level of `_levels`; none where it is skipped.
  abbrev pub level_of : Json F → Option (F × F)
  level_of (object d) = do price ← float_at "price" d; size ← float_at "size" d; some (price, size)
  level_of _ = none

  -- The loop of `_levels`.
  unfoldable pub levels_of : List (Json F) → List (F × F)
  levels_of [] = []
  levels_of (x ∷ xs) =
      let rest = levels_of xs in
      elim (level_of x) as (λ y. List (F × F)) [ none ↦ rest | some l ↦ l ∷ rest ]

  -- `_levels`; a value that is no list raises a TypeError.
  abbrev pub levels : Json F → Option (List (F × F))
  levels v = items_of v >>= (λ xs. some (levels_of xs))

  abbrev pub optional_float : Json F → Option (Option F)
  optional_float null = some none
  optional_float v = float_of py v >>= (λ x. some (some x))

  abbrev pub hash_of : Json F → Option String
  hash_of (text s) = some s
  hash_of _ = none

  unfoldable pub parse_book : Fields F → Option (BookUpdate F)
  unfolding levels_of ts_of
  parse_book msg = do
    asset ← item "asset_id" msg
    bids ← levels (get "bids" msg)
    asks ← levels (get "asks" msg)
    tick ← optional_float (get "tick_size" msg)
    some (record {
      asset_id = str_of py asset;
      bids = bids;
      asks = asks;
      ts = ts_of py msg;
      book_hash = hash_of (get "hash" msg);
      tick_size = tick;
    })

  -- A change of `parse_price_changes`; none where it is skipped.
  abbrev pub change_of : F → Json F → Option (PriceChange F)
  change_of ts (object ch) = do
    asset ← item "asset_id" ch
    named ← item "side" ch
    side ← side_named py named
    price ← float_at "price" ch
    size ← float_at "size" ch
    some (record { asset_id = str_of py asset; side = side; price = price; size = size; ts = ts })
  change_of ts _ = none

  unfoldable pub changes_of : F → List (Json F) → List (PriceChange F)
  changes_of ts [] = []
  changes_of ts (x ∷ xs) =
      let rest = changes_of ts xs in
      elim (change_of ts x) as (λ y. List (PriceChange F)) [ none ↦ rest | some c ↦ c ∷ rest ]

  -- `parse_price_changes`; none where it raises.
  unfoldable pub parse_price_changes : Fields F → Option (List (PriceChange F))
  unfolding changes_of ts_of
  parse_price_changes msg =
      items_of (get_default (array end) "price_changes" msg)
      >>= (λ xs. some (changes_of (ts_of py msg) xs))

  unfoldable pub parse_last_trade : Fields F → Option (TradePrint F)
  unfolding ts_of
  parse_last_trade msg = do
    asset ← item "asset_id" msg
    side ← side_named py (get_default (text "BUY") "side" msg)
    price ← float_at "price" msg
    size ← float_at "size" msg
    some (record {
      asset_id = str_of py asset;
      price = price;
      size = size;
      aggressor = side;
      ts = ts_of py msg;
    })

  -- The asset and the new tick of a `tick_size_change`.
  unfoldable pub parse_tick_size_change : Fields F → Option (String × F)
  parse_tick_size_change msg = do
    tick ← float_of py (get_default (get "tick_size" msg) "new_tick_size" msg)
    asset ← item "asset_id" msg
    some (str_of py asset, tick)
