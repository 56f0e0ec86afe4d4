-- ===== src/Tests/Streamed.antt =====
-- The theorem on the market websocket at a concrete input.
use polymaker.Prelude.{
  ◌≡◌, refl, true, Option, some, none, List, [], ◌∷◌, mem, lookup, insert, set_default, or_else,
}
use polymaker.Prelude.Int.{ℤ}
use polymaker.Float.{nano, nano-IsFloat}
use polymaker.Wire.{Json, number, text, array, object, end, element, none_left, field}
use polymaker.Orderbook.{OrderBook, new_book, best_bid, best_ask}
use polymaker.Orderbook.Touch.{IsHighest, IsLowest}
use polymaker.MarketStream.Parse.{parse_book, levels_of}
use polymaker.MarketStream.{
  MarketData, new_service, set_markets, add_markets, add_tokens, handle_frames, handle_frame,
  dispatch_all, dispatch, on_book, wake,
}
use polymaker.MarketStream.Sound.{handle_frames-IsSound}
use polymaker.Tests.{units, cents}
use polymaker.Tests.Cached.{python}
use polymaker.Tests.Sorted.{Rows, rows, rows-IsSortedDict}

abbrev rung : ℤ → ℤ → Json ℤ
rung price size = object (field "price" (number price) (field "size" (number size) none_left))

abbrev snapshot_message : Json ℤ
snapshot_message = object (
    field "event_type" (text "book") (
      field "asset_id" (text "yes") (
        field "bids"
          (array (element (rung (cents 48) (units 100)) (element (rung (cents 49) (units 0)) end)))
          (field "asks" (array (element (rung (cents 51) (units 30)) end)) none_left))))

-- A book, a frame that is no JSON, and a frame of another service's token.
abbrev frames : List (Option (Json ℤ) × ℤ)
frames =
    (some snapshot_message, units 10)
    ∷ (none, units 11)
    ∷ (
      some (object (field "event_type" (text "book") (field "asset_id" (text "other") none_left))),
      units 12,
    )
    ∷ []

abbrev service : MarketData Rows ℤ
service = set_markets rows (("c1", "yes" ∷ "no" ∷ []) ∷ []) new_service

-- The book that the frames leave.
abbrev fed : OrderBook Rows ℤ
fed =
    or_else (new_book rows (cents 1))
      (lookup "yes" (handle_frames rows python frames service).books)

is_fed : lookup "yes" (handle_frames rows python frames service).books ≡ some fed
unfolding handle_frames handle_frame dispatch_all dispatch on_book set_markets add_markets
    add_tokens parse_book levels_of wake lookup insert set_default
is_fed = refl

handle_frames-IsSound_example :
    (mem "yes" service.subs ≡ true)
    × IsHighest (best_bid rows fed) (rows.items fed.bids)
    × IsLowest (best_ask rows fed) (rows.items fed.asks)
handle_frames-IsSound_example =
    handle_frames-IsSound rows python nano-IsFloat rows-IsSortedDict
      (("c1", "yes" ∷ "no" ∷ []) ∷ []) frames "yes" fed is_fed
