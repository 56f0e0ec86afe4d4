-- ===== src/UserStream/Parse.antt =====
-- src/polymaker/userstream/parse.py: the messages of the user websocket as trade and order events. The
-- engine's callback is a parameter; an exception that leaves a parser is the result none.
use polymaker.Prelude.{
  ◌>>=◌, ℕ, suc, String, Bool, not, ◌||◌, Option, none, some, List, [], ◌∷◌, ◌++◌, ◌==◌, ltb,
  length, if◌then◌else◌,
}
use Prim.Native.String.{◌++◌ as join}
use polymaker.Float.{Float, num, ◌-◌, ◌<=◌}
use polymaker.Domain.{Side, opposite, TradeState, matched, mined, confirmed, retrying, failed}
use polymaker.Tracker.{TradeEvent, OrderEvent}
use polymaker.Wire.{
  Json, Elements, number, text, array, object, Fields, Python, item, get, get_default, str_of,
  is_text, float_of, items_of, ts_of, same_letters, decimal,
}

-- `_STATUS.get(text.upper())`
unfoldable pub status_of : String → Option TradeState
unfolding same_letters
status_of t =
    if same_letters t "MATCHED"
    then some matched
    else if same_letters t "MINED"
    then some mined
    else if same_letters t "CONFIRMED"
    then some confirmed
    else if same_letters t "RETRYING"
    then some retrying
    else if same_letters t "FAILED"
    then some failed
    else none

-- `a or b`, on texts
abbrev pub or_text : Option String → String → String
or_text none b = b
or_text (some a) b = if a == "" then b else a

module _ {F : Type 0} where
  -- `_side`
  unfoldable pub side_of : Python F → Json F → Side
  unfolding same_letters
  side_of py v = if same_letters (str_of py v) "SELL" then Side.sell else Side.buy

-- What all maker orders of a trade message share.
pub record TradeHead (F : Type 0) : Type 0 where
  pub status : TradeState
  pub taker_asset : String
  pub taker_side : Side
  pub taker_outcome : Json F
  pub ts : F
  pub trade_id : String
  pub several : Bool

module _ {F : Type 0} ⦃fl : Float F⦄ (py : Python F) where
  module _ (our_address : String) (other_token : String → Option String) where
    -- The event of our maker order number i.
    unfoldable pub maker_event : TradeHead F → ℕ → Fields F → F → F → TradeEvent F
    unfolding decimal
    maker_event h i mo size price =
        let same = py.equal (get "outcome" mo) h.taker_outcome in
        record {
          token_id =
              if same then h.taker_asset else or_text (other_token h.taker_asset) h.taker_asset;
          our_side = if same then opposite h.taker_side else h.taker_side;
          price = price;
          size = size;
          trade_id = if h.several then join (join h.trade_id ":") (decimal i) else h.trade_id;
          status = h.status;
          ts = h.ts;
        }

    -- A maker order that is an object: the events it adds.
    unfoldable pub order_events : TradeHead F → ℕ → Fields F → List (TradeEvent F)
    unfolding maker_event same_letters
    order_events h i mo =
        if not (same_letters (str_of py (get_default (text "") "maker_address" mo)) our_address)
        then []
        else elim (float_of py (get_default (number (num 0)) "matched_amount" mo))
            as (λ x. List (TradeEvent F)) [
              | none ↦ []
              | some size ↦
                  elim (float_of py (get_default (number (num 0)) "price" mo))
                    as (λ x. List (TradeEvent F)) [
                      | none ↦ []
                      | some price ↦
                          if size <= num 0 then [] else maker_event h i mo size price ∷ []
                    ]
            ]

    -- The loop over the maker orders from number i on; one that is no object raises.
    unfoldable pub maker_events : TradeHead F → ℕ → List (Json F) → Option (List (TradeEvent F))
    unfolding order_events
    maker_events h i [] = some []
    maker_events h i (object mo ∷ rest) =
        elim (maker_events h (suc i) rest) as (λ x. Option (List (TradeEvent F))) [
          | none ↦ none
          | some later ↦ some (order_events h i mo ++ later)
        ]
    maker_events h i (_ ∷ rest) = none

    unfoldable pub normalize_trade : Fields F → Option (List (TradeEvent F))
    unfolding maker_events status_of side_of ts_of
    normalize_trade msg =
        elim (status_of (str_of py (get_default (text "") "status" msg)))
          as (λ x. Option (List (TradeEvent F))) [
            | none ↦ some []
            | some status ↦
                elim (items_of (get_default (array Elements.end) "maker_orders" msg))
                  as (λ x. Option (List (TradeEvent F))) [
                    | none ↦ none
                    | some orders ↦
                        maker_events
                          (record {
                            status = status;
                            taker_asset = str_of py (get_default (text "") "asset_id" msg);
                            taker_side = side_of py (get "side" msg);
                            taker_outcome = get "outcome" msg;
                            ts = ts_of py msg;
                            trade_id = str_of py (get_default (text "") "id" msg);
                            several = ltb 1 (length orders);
                          })
                          0 orders
                  ]
          ]

  -- `status in ("CANCELED", "CANCELLED") or msg.get("type") == "CANCELLATION"`
  abbrev pub cancels_order : Fields F → Bool
  cancels_order msg =
      let status = str_of py (get_default (text "") "status" msg) in
      (same_letters status "CANCELED" || same_letters status "CANCELLED")
      || is_text (get "type" msg) "CANCELLATION"

  unfoldable pub normalize_order : Fields F → Option (OrderEvent F)
  unfolding side_of same_letters
  normalize_order msg = do
    asset ← item "asset_id" msg
    original ←
        float_of py (get_default (get_default (number (num 0)) "size" msg) "original_size" msg)
    size_matched ← float_of py (get_default (number (num 0)) "size_matched" msg)
    price ← float_of py (get_default (number (num 0)) "price" msg)
    some (record {
      order_id = str_of py (get_default (text "") "id" msg);
      token_id = str_of py asset;
      side = side_of py (get "side" msg);
      price = price;
      remaining_size = original - size_matched;
      is_cancel = cancels_order msg;
    })
