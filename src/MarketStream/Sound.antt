-- ===== src/MarketStream/Sound.antt =====
-- src/polymaker/marketdata/service.py: what the books hold after any frames of the market websocket.
use polymaker.Prelude.{
  String, ◌≡◌, sym, subst, true, ◌&&◌, Bool-cases, Option, none, some, Option-cases, inl, inr, List,
  [], ◌∷◌, ◌++◌, All, All-map, mem, mem-append_left, mem-append_last, lookup, insert, contains,
  set_default, lookup-All, insert-All, arith,
}
use polymaker.Float.{Float, IsFloat, num, ◌<=◌}
use polymaker.Wire.{Json, Fields, Python, elements, object, array, get, is_text}
use polymaker.Orderbook.{
  SortedDict, IsSortedDict, OrderBook, new_book, best_bid, best_ask, set_tick_size,
}
use polymaker.Orderbook.Touch.{
  snapshot, delta, apply_update, Sized, IsHighest, IsLowest, best_bid-IsHighest, best_ask-IsLowest,
  apply_update-Sized, new_book-Sized,
}
use polymaker.MarketStream.Parse.{
  PriceChange, parse_book, parse_price_changes, parse_last_trade, parse_tick_size_change,
}
use polymaker.MarketStream.{
  MarketData, new_service, add_tokens, add_markets, set_markets, wake, wake_each, with_tick,
  on_book, apply_changes, on_last_trade, on_tick_change, dispatch, dispatch_all, handle_frame,
  handle_frames,
}

module _ {D F : Type 0} ⦃fl : Float F⦄ (sd : SortedDict D F) (py : Python F) where
  -- A book of a subscribed token, every level of which has a size.
  abbrev IsKept : List String → String × OrderBook D F → Type 0
  IsKept subs e = (mem e.0 subs ≡ true) × (Sized sd e.1.bids × Sized sd e.1.asks)

  abbrev Kept : List String → MarketData D F → Type 0
  Kept subs s = All (IsKept subs) s.books

  wake-books : (t : String) (s : MarketData D F) → (wake t s).books ≡ s.books
  unfolding wake
  wake-books t s = ground arith

  wake-Kept :
      (subs : List String) (t : String) (s : MarketData D F) → Kept subs s → Kept subs (wake t s)
  wake-Kept subs t s k = subst (All (IsKept subs)) (sym (wake-books t s)) k

  wake_each-Kept :
      (subs ts : List String) (s : MarketData D F) → Kept subs s → Kept subs (wake_each ts s)
  unfolding wake_each
  wake_each-Kept subs [] s k = k
  wake_each-Kept subs (t ∷ ts) s k = wake_each-Kept subs ts (wake t s) (wake-Kept subs t s k)

  module _ (ok : IsFloat fl) (law : IsSortedDict sd) where
    -- A book that is put back with sized levels is kept.
    insert-Kept :
        (subs : List String) (t : String) (old b : OrderBook D F) (s : MarketData D F)
        → Kept subs s
        → lookup t s.books ≡ some old
        → (Sized sd old.bids × Sized sd old.asks → Sized sd b.bids × Sized sd b.asks)
        → Kept subs (record s { books = insert t b s.books })
    insert-Kept subs t old b s k h f =
        let p = lookup-All (IsKept subs) t old s.books h k in
        insert-All (IsKept subs) t b s.books (p.0, f p.1) k

    apply_changes-Kept :
        (subs : List String) (chs : List (PriceChange F)) (now : F) (touched : List String)
        (s : MarketData D F)
        → Kept subs s
        → Kept subs (apply_changes sd py chs now touched s).0
    unfolding apply_changes apply_update
    apply_changes-Kept subs [] now touched s k = k
    apply_changes-Kept subs (ch ∷ chs) now touched s k =
        elim (Option-cases (lookup ch.asset_id s.books)) [
          | inl e ↦ rw (e, apply_changes) (apply_changes-Kept subs chs now touched s k)
          | inr (book, e) ↦
              rw (e, apply_changes)
                (apply_changes-Kept subs chs now _ _ (
                  insert-Kept subs ch.asset_id book _ s k e
                    (apply_update-Sized sd ok law (delta ch.side ch.price ch.size ch.ts now) book)))
        ]

    with_tick-Sized :
        (t : Option F) (b : OrderBook D F)
        → Sized sd b.bids × Sized sd b.asks
        → Sized sd (with_tick sd t b).bids × Sized sd (with_tick sd t b).asks
    unfolding set_tick_size
    with_tick-Sized none b h = h
    with_tick-Sized (some t) b h = elim (Bool-cases ((t <= num 0) && (num 0 <= t))) [
      | inl e ↦ rw e h
      | inr e ↦ rw e h
    ]

    on_book-Kept :
        (subs : List String) (msg : Fields F) (now : F) (s : MarketData D F)
        → Kept subs s
        → Kept subs (on_book sd py msg now s)
    unfolding on_book apply_update
    on_book-Kept subs msg now s k = elim (Option-cases (parse_book py msg)) [
      | inl e ↦ rw (e, on_book) k
      | inr (upd, e) ↦
          rw (e, on_book)
            (elim (Option-cases (lookup upd.asset_id s.books)) [
              | inl f ↦ rw f k
              | inr (book, f) ↦ rw f (
                  wake-Kept subs upd.asset_id _ (
                    insert-Kept subs upd.asset_id book _ s k f (λ h.
                      apply_update-Sized sd ok law
                        (snapshot upd.bids upd.asks upd.ts upd.book_hash now) _
                        (with_tick-Sized upd.tick_size book h))))
            ])
    ]

    on_tick_change-Kept :
        (subs : List String) (msg : Fields F) (s : MarketData D F)
        → Kept subs s
        → Kept subs (on_tick_change sd py msg s)
    unfolding on_tick_change set_tick_size
    on_tick_change-Kept subs msg s k = elim (Option-cases (parse_tick_size_change py msg)) [
      | inl e ↦ rw (e, on_tick_change) k
      | inr (change, e) ↦
          rw (e, on_tick_change)
            (elim (Option-cases (lookup change.0 s.books)) [
              | inl f ↦ rw f k
              | inr (book, f) ↦
                  rw f
                    (insert-Kept subs change.0 book (set_tick_size sd change.1 book) s k f (λ h. h))
            ])
    ]

    on_last_trade-Kept :
        (subs : List String) (msg : Fields F) (s : MarketData D F)
        → Kept subs s
        → Kept subs (on_last_trade sd py msg s)
    unfolding on_last_trade
    on_last_trade-Kept subs msg s k = elim (Option-cases (parse_last_trade py msg)) [
      | inl e ↦ rw (e, on_last_trade) k
      | inr (tp, e) ↦
          rw (e, on_last_trade)
            (elim (Bool-cases (contains tp.asset_id s.books)) [ inl f ↦ rw f k | inr f ↦ rw f k ])
    ]

    dispatch-Kept :
        (subs : List String) (msg : Fields F) (now : F) (s : MarketData D F)
        → Kept subs s
        → Kept subs (dispatch sd py msg now s).state
    unfolding dispatch
    dispatch-Kept subs msg now s k = elim (Bool-cases (is_text (get "event_type" msg) "book")) [
      | inl e ↦ rw (e, dispatch) (on_book-Kept subs msg now s k)
      | inr e ↦ elim (Bool-cases (is_text (get "event_type" msg) "price_change")) [
        | inl f ↦ elim (Option-cases (parse_price_changes py msg)) [
          | inl g ↦ rw (e, f, g, dispatch) k
          | inr (chs, g) ↦
              rw (e, f, g, dispatch)
                (wake_each-Kept subs (apply_changes sd py chs now [] s).1 _
                  (apply_changes-Kept subs chs now [] s k))
        ]
        | inr f ↦ elim (Bool-cases (is_text (get "event_type" msg) "last_trade_price")) [
          | inl g ↦ rw (e, f, g, dispatch) (on_last_trade-Kept subs msg s k)
          | inr g ↦ elim (Bool-cases (is_text (get "event_type" msg) "tick_size_change")) [
            | inl h ↦ rw (e, f, g, h, dispatch) (on_tick_change-Kept subs msg s k)
            | inr h ↦ rw (e, f, g, h, dispatch) k
          ]
        ]
      ]
    ]

    dispatch_all-Kept :
        (subs : List String) (msgs : List (Json F)) (now : F) (s : MarketData D F)
        → Kept subs s
        → Kept subs (dispatch_all sd py msgs now s).state
    unfolding dispatch_all
    dispatch_all-Kept subs [] now s k = k
    dispatch_all-Kept subs (object msg ∷ msgs) now s k =
        let step = dispatch-Kept subs msg now s k in
        elim (Bool-cases (dispatch sd py msg now s).raised) [
          | inl e ↦ rw (e, dispatch_all) step
          | inr e ↦ rw (e, dispatch_all) (dispatch_all-Kept subs msgs now _ step)
        ]
    dispatch_all-Kept subs (m ∷ msgs) now s k = dispatch_all-Kept subs msgs now s k

    handle_frame-Kept :
        (subs : List String) (frame : Option (Json F)) (now : F) (s : MarketData D F)
        → Kept subs s
        → Kept subs (handle_frame sd py frame now s).state
    unfolding handle_frame
    handle_frame-Kept subs none now s k = k
    handle_frame-Kept subs (some (array xs)) now s k = dispatch_all-Kept subs (elements xs) now s k
    handle_frame-Kept subs (some v) now s k = dispatch_all-Kept subs (v ∷ []) now s k

    handle_frames-Kept :
        (subs : List String) (frames : List (Option (Json F) × F)) (s : MarketData D F)
        → Kept subs s
        → Kept subs (handle_frames sd py frames s)
    unfolding handle_frames
    handle_frames-Kept subs [] s k = k
    handle_frames-Kept subs ((frame, now) ∷ fs) s k =
        handle_frames-Kept subs fs _ (handle_frame-Kept subs frame now s k)

    set_default-Kept :
        (tok : String) (s : MarketData D F)
        → Kept s.subs s
        → All (IsKept (s.subs ++ tok ∷ [])) (set_default tok (new_book sd (fl.lit 1 3)) s.books)
    unfolding set_default
    set_default-Kept tok s k =
        let wide =
          All-map (IsKept s.subs) (IsKept (s.subs ++ tok ∷ [])) s.books
            (λ e h. (mem-append_left e.0 s.subs (tok ∷ []) h.0, h.1)) k in
        elim (Bool-cases (contains tok s.books)) [
          | inl e ↦ rw (e, set_default) wide
          | inr e ↦
              rw (e, set_default)
                (insert-All (IsKept (s.subs ++ tok ∷ [])) tok (new_book sd (fl.lit 1 3)) s.books
                  (mem-append_last tok s.subs, new_book-Sized sd ok law (fl.lit 1 3)) wide)
        ]

    add_tokens-Kept :
        (cond : String) (toks : List String) (s : MarketData D F)
        → Kept s.subs s
        → Kept (add_tokens sd cond toks s).subs (add_tokens sd cond toks s)
    unfolding add_tokens
    add_tokens-Kept cond [] s k = k
    add_tokens-Kept cond (tok ∷ toks) s k = add_tokens-Kept cond toks _ (set_default-Kept tok s k)

    add_markets-Kept :
        (ms : List (String × List String)) (s : MarketData D F)
        → Kept s.subs s
        → Kept (add_markets sd ms s).subs (add_markets sd ms s)
    unfolding add_markets
    add_markets-Kept [] s k = k
    add_markets-Kept ((cond, toks) ∷ ms) s k = add_markets-Kept ms _ (add_tokens-Kept cond toks s k)

    -- Provided that every price and size that is read is a number (the order of the floats is total, so
    -- none is NaN), whatever frames the market websocket delivers, the malformed ones and those whose
    -- handling raises included, the service holds books of the subscribed tokens only. In each of them a
    -- best bid has a positive size and no bid is priced above it, and there is none only if there is
    -- no bid; and the same holds of the best ask, with no ask priced below it.
    pub handle_frames-IsSound :
        (ms : List (String × List String)) (frames : List (Option (Json F) × F)) (tok : String)
        (b : OrderBook D F)
        → lookup tok (handle_frames sd py frames (set_markets sd ms new_service)).books ≡ some b
        → (mem tok (set_markets sd ms new_service).subs ≡ true)
          × IsHighest (best_bid sd b) (sd.items b.bids)
          × IsLowest (best_ask sd b) (sd.items b.asks)
    unfolding set_markets
    handle_frames-IsSound ms frames tok b h =
        let s = set_markets sd ms new_service in
        let k = handle_frames-Kept s.subs frames s (add_markets-Kept ms new_service tt) in
        let (known, sized) = lookup-All (IsKept s.subs) tok b _ h k in
        (known, best_bid-IsHighest sd ok law b sized.0, best_ask-IsLowest sd ok law b sized.1)
