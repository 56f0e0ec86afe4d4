-- ===== src/Engine/Refresh.antt =====
-- src/polymaker/engine.py: startup, the refresh of the markets' metadata from Gamma, and the refresh
-- of a book. A read is an argument; Gamma's row of a market is its decoded dict.
use polymaker.Prelude.{
  ℕ, String, Bool, true, false, not, ◌&&◌, ◌||◌, Option, none, some, List, [], ◌∷◌, ◌==◌, nat_eq,
  mem, is_some, or_else, Dict, lookup, contains, insert, keys, select, if◌then◌else◌,
}
use polymaker.Float.{Float, num, ◌-◌, ◌*◌, ◌<=◌, ◌<◌, abs, min, max}
use polymaker.Domain.{MarketMeta, OpenOrder, ProtocolVersion, v1, v2}
use polymaker.Domain.Names.{parse_version, same_version}
use polymaker.Store.{StateStore, replace_open_orders, reconcile_positions, drop_untracked_positions}
use polymaker.Orderbook.{
  SortedDict, OrderBook, BookLevel, best_bid, best_ask, apply_snapshot, set_tick_size,
}
use polymaker.Wire.{
  Json, Fields, Python, text, object, none_left, get, get_default, str_of, float_of, trimmed,
}
use polymaker.Wire.{truthy}
use polymaker.Engine.{
  Market, Engine, cancels_asset, yes_id, no_id, put_market, send, wake_cid, seed_position_clocks,
}
use polymaker.Engine.Sync.{of_token, only_traded, wake_tokens}

module _ {F : Type 0} ⦃fl : Float F⦄ where
  -- `replace_open_orders` without a grace, for each token.
  unfoldable pub replace_all : List String → List (OpenOrder F) → F → StateStore F → StateStore F
  replace_all [] live now s = s
  replace_all (t ∷ ts) live now s =
      replace_all ts live now (replace_open_orders t (of_token t live) (num 0) now s)

  -- `{o.token_id for o in leftover}`
  unfoldable pub tokens_of : List (OpenOrder F) → List String
  tokens_of [] = []
  tokens_of (o ∷ os) =
      let rest = tokens_of os in if mem o.token_id rest then rest else o.token_id ∷ rest

  -- `_fnum` of `raw.get(key)`; what `float` takes is what is no None, so None is none as well.
  abbrev pub fnum : Python F → String → Fields F → Option F
  fnum py key raw = float_of py (get key raw)

  -- `v is not None and old != v`
  abbrev pub differs : F → Option F → Bool
  differs old none = false
  differs old (some v) = not ((old <= v) && (v <= old))

  -- The fee dict: `raw.get("feeSchedule") or {}`.
  abbrev pub fee_schedule : Fields F → Fields F
  fee_schedule raw = elim (get "feeSchedule" raw) as (λ x. Fields F) [
    | object d ↦ d
    | _ ↦ none_left
  ]

  abbrev pub text_of : Json F → Option String
  text_of (text s) = some s
  text_of _ = none

  -- The new metadata of `_apply_meta_refresh`, with whether a field changed; `decimals` counts the decimals
  -- of a tick, as in the reading of a market.
  unfoldable pub refreshed :
      Python F → (F → ℕ) → (F → ℕ) → Fields F → MarketMeta F → MarketMeta F × Bool
  refreshed py decimals round_int raw old =
      let min_size = fnum py "rewardsMinSize" raw in
      let spread = fnum py "rewardsMaxSpread" raw in
      let rebate = fnum py "rebateRate" (fee_schedule raw) in
      let order_min = fnum py "orderMinSize" raw in
      let tick = fnum py "orderPriceMinTickSize" raw in
      let ended = text_of (get "endDate" raw) in
      let fee : ℕ = elim (fnum py "rate" (fee_schedule raw)) [
        | none ↦ old.taker_fee_bps
        | some rate ↦ round_int (rate * num 10000)
      ] in
      let new_end : Bool = elim ended [
        | none ↦ false
        | some e ↦ not (is_some old.end_date_iso && (or_else e old.end_date_iso == e))
      ] in
      (
        record old {
          rewards_min_size = or_else old.rewards_min_size min_size;
          rewards_max_spread = or_else old.rewards_max_spread spread;
          taker_fee_bps = fee;
          rebate_rate = or_else old.rebate_rate rebate;
          end_date_iso = if is_some ended then ended else old.end_date_iso;
          min_order_size = or_else old.min_order_size order_min;
          tick_size = or_else old.tick_size tick;
          price_decimals = decimals (or_else old.tick_size tick);
        },
        differs old.rewards_min_size min_size
            || (differs old.rewards_max_spread spread
                || (not (nat_eq old.taker_fee_bps fee)
                    || (differs old.rebate_rate rebate
                        || (new_end
                            || (differs old.min_order_size order_min
                                || differs old.tick_size tick))))),
      )

  -- `_is_resolved_raw`
  unfoldable pub is_resolved_raw : Python F → Fields F → ProtocolVersion → Bool
  unfolding trimmed
  is_resolved_raw py raw version =
      let field : String = elim version [ v1 ↦ "umaResolutionStatus" | v2 ↦ "resolutionStatus" ] in
      truthy (get field raw) && trimmed (str_of py (get field raw)) "resolved"

  -- Whether a price of the REST book and ours are apart, on one side.
  abbrev pub apart : F → Option (BookLevel F) → Option F → Bool
  apart tick none none = false
  apart tick none (some rest) = true
  apart tick (some cur) none = true
  apart tick (some cur) (some rest) = tick < abs (cur.price - rest)

  -- `max((p for p, _ in bids), default=None)`
  abbrev pub highest : List (F × F) → Option F
  highest [] = none
  highest (l ∷ ls) = elim (highest ls) as (λ x. Option F) [
    | none ↦ some l.0
    | some p ↦ some (max l.0 p)
  ]

  -- `min((p for p, _ in asks), default=None)`
  abbrev pub lowest : List (F × F) → Option F
  lowest [] = none
  lowest (l ∷ ls) = elim (lowest ls) as (λ x. Option F) [
    | none ↦ some l.0
    | some p ↦ some (min l.0 p)
  ]

module _ {D F : Type 0} ⦃fl : Float F⦄ where
  -- `cancel_asset` of the tokens in turn.
  unfoldable pub cancel_assets : List String → Engine D F → Engine D F
  unfolding send
  cancel_assets [] e = e
  cancel_assets (t ∷ ts) e = cancel_assets ts (send (cancels_asset t) e)

  -- The orders of `_startup_reconcile`: what `cancel_all` left, and the second read.
  unfoldable pub startup_orders :
      F → Option (List (OpenOrder F)) → Option (List (OpenOrder F)) → Engine D F → Engine D F
  unfolding cancel_assets replace_all tokens_of
  startup_orders now none still e = e
  startup_orders now (some []) still e = e
  startup_orders now (some (o ∷ os)) none e = cancel_assets (tokens_of (o ∷ os)) e
  startup_orders now (some (o ∷ os)) (some still) e =
      let asked = cancel_assets (tokens_of (o ∷ os)) e in
      record asked { store = replace_all (keys e.token_cid) still now asked.store }

  -- `_startup_reconcile`
  unfoldable pub startup_reconcile :
      F
      → Option (List (OpenOrder F))
      → Option (List (OpenOrder F))
      → Option (Dict (F × F))
      → Engine D F
      → Engine D F
  unfolding startup_orders
  startup_reconcile now leftover still read e =
      let wiped = startup_orders now leftover still e in
      let scoped = record wiped {
        store = (drop_untracked_positions (λ t. contains t e.token_cid) wiped.store).0;
      } in
      elim read as (λ x. Engine D F) [
        | none ↦ scoped
        | some positions ↦ seed_position_clocks now (record scoped {
          store =
              (reconcile_positions (only_traded e.token_cid positions) false now scoped.store).0;
        })
      ]

  -- A market that must not be quoted any more.
  unfoldable pub halt_market : String → Market F → Engine D F → Engine D F
  unfolding cancel_assets wake_cid
  halt_market cid m e =
      if mem cid e.halted
      then e
      else wake_cid cid
          (cancel_assets (yes_id m ∷ no_id m ∷ []) (record e { halted = cid ∷ e.halted }))

  -- `_apply_meta_refresh`
  unfoldable pub apply_meta_refresh :
      SortedDict D F
      → Python F
      → (F → ℕ)
      → (F → ℕ)
      → String
      → Market F
      → Fields F
      → Engine D F
      → Engine D F
  unfolding refreshed put_market wake_cid
  apply_meta_refresh sd py decimals round_int cid m raw e =
      let (meta, changed) = refreshed py decimals round_int raw m.meta in
      let books = elim (lookup (yes_id m) e.books) as (λ x. Dict (OrderBook D F)) [
        | none ↦ e.books
        | some book ↦
            if differs m.meta.tick_size (fnum py "orderPriceMinTickSize" raw)
            then insert (yes_id m) (set_tick_size sd meta.tick_size book) e.books
            else e.books
      ] in
      if changed
      then wake_cid cid (record (put_market cid (record m { meta = meta }) e) { books = books })
      else e

  -- The row of one market in `refresh_market_metadata`.
  unfoldable pub refresh_market :
      SortedDict D F
      → Python F
      → (F → ℕ)
      → (F → ℕ)
      → String
      → Market F
      → Fields F
      → Engine D F
      → Engine D F
  unfolding halt_market apply_meta_refresh is_resolved_raw
  refresh_market sd py decimals round_int cid m raw e =
      let moved : Bool = elim (parse_version py (get "version" raw)) [
        | none ↦ false
        | some version ↦ not (same_version version m.meta.version)
      ] in
      let accepting = truthy (get_default (Json.boolean true) "acceptingOrders" raw) in
      let closed = truthy (get "closed" raw) in
      if moved || (closed || (not accepting || is_resolved_raw py raw m.meta.version))
      then halt_market cid m e
      else apply_meta_refresh sd py decimals round_int cid m raw
          (record e { halted = select (λ c. not (c == cid)) e.halted })

  -- `refresh_market_metadata`, given the rows that Gamma returned.
  unfoldable pub refresh_market_metadata :
      SortedDict D F → Python F → (F → ℕ) → (F → ℕ) → Dict (Fields F) → Engine D F → Engine D F
  unfolding refresh_market
  refresh_market_metadata sd py decimals round_int [] e = e
  refresh_market_metadata sd py decimals round_int ((cid, raw) ∷ raws) e =
      refresh_market_metadata sd py decimals round_int raws (elim (lookup cid e.markets) [
        | none ↦ e
        | some m ↦ refresh_market sd py decimals round_int cid m raw e
      ])

  -- `_refresh_book`, given the levels and the hash that the gateway read; prices are not 0.
  unfoldable pub refresh_book :
      SortedDict D F
      → String
      → F
      → Option (List (F × F) × List (F × F) × Option String)
      → Engine D F
      → Engine D F
  unfolding wake_tokens
  refresh_book sd token_id now none e = e
  refresh_book sd token_id now (some (bids, asks, book_hash)) e =
      elim (lookup token_id e.books) as (λ x. Engine D F) [
        | none ↦ e
        | some book ↦
            let corrected = apply_snapshot sd bids asks now book_hash now book in
            if apart book.tick_size (best_bid sd book) (highest bids)
              || apart book.tick_size (best_ask sd book) (lowest asks)
            then wake_tokens (token_id ∷ [])
                (record e { books = insert token_id corrected e.books })
            else e
      ]
