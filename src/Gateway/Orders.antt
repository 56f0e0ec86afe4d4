-- ===== src/Gateway/Orders.antt =====
-- src/polymaker/execution/gateway.py: posting quotes and reading the open orders. An answer of the
-- client is its decoded value, or none where the call raised.
use polymaker.Prelude.{
  ℕ, zero, suc, String, not, ◌&&◌, Option, none, some, List, [], ◌∷◌, ◌++◌, nat_eq, length, take,
  drop, or_else, if◌then◌else◌, ◌>>=◌,
}
use polymaker.Float.{Float, num, ◌-◌}
use polymaker.Domain.{OrderState, OpenOrder, Quote}
use polymaker.Domain.Names.{side_named}
use polymaker.Wire.{Json, Python, number, array, object, item, get_default, str_of, float_of}
use polymaker.Gateway.{first, rows_of}

abbrev pub id_keys : List String
id_keys = "orderID" ∷ "orderId" ∷ "order_id" ∷ "id" ∷ "hash" ∷ []

abbrev pub asset_keys : List String
asset_keys = "asset_id" ∷ "assetId" ∷ "token_id" ∷ "tokenId" ∷ "position_id" ∷ []

abbrev pub row_id_keys : List String
row_id_keys = "id" ∷ "orderID" ∷ "orderId" ∷ "order_id" ∷ "hash" ∷ []

module _ {F : Type 0} where
  -- The order that acknowledges a quote; its creation time is the time of the call.
  abbrev pub acknowledged : F → Quote F → String → OpenOrder F
  acknowledged now q id = record {
    order_id = id;
    token_id = q.token_id;
    side = q.side;
    price = q.price;
    size = q.size;
    state = OrderState.live;
    created_ts = now;
  }

module _ {F : Type 0} ⦃fl : Float F⦄ (py : Python F) where
  -- The loop of `_parse_place_response` over the quotes and the items in step.
  unfoldable pub bind_items : F → List (Quote F) → List (Json F) → List (OpenOrder F)
  bind_items now [] items = []
  bind_items now (q ∷ qs) [] = []
  bind_items now (q ∷ qs) (x ∷ items) =
      let rest = bind_items now qs items in
      elim (first x id_keys) [ none ↦ rest | some id ↦ acknowledged now q (str_of py id) ∷ rest ]

  -- `_parse_place_response` of a list or a dict.
  unfoldable pub bind_response : F → Json F → List (Quote F) → List (OpenOrder F)
  unfolding rows_of bind_items
  bind_response now resp quotes = elim (rows_of "orders" "data" resp) [
    | none ↦ []
    | some items ↦ if nat_eq (length items) (length quotes) then bind_items now quotes items else []
  ]

  -- `_parse_place_response`; none where it raises.
  unfoldable pub parse_place_response : F → Json F → List (Quote F) → Option (List (OpenOrder F))
  unfolding bind_response
  parse_place_response now (array xs) quotes = some (bind_response now (array xs) quotes)
  parse_place_response now (object d) quotes = some (bind_response now (object d) quotes)
  parse_place_response now _ quotes = none

  -- The loop of `place` over chunks of at most `cap` quotes, given fuel for the chunks; none where a
  -- post raised.
  unfoldable pub place_chunks :
      (List (Quote F) → Option (Json F)) → ℕ → F → ℕ → List (Quote F) → Option (List (OpenOrder F))
  unfolding parse_place_response
  place_chunks post cap now fuel [] = some []
  place_chunks post cap now zero (q ∷ qs) = none
  place_chunks post cap now (suc fuel) (q ∷ qs) =
      let rest = place_chunks post cap now fuel (drop cap (q ∷ qs)) in
      do
        resp ← post (take cap (q ∷ qs))
        placed ← parse_place_response now resp (take cap (q ∷ qs))
        orders ← rest
        some (placed ++ orders)

  -- `place` outside of paper mode.
  unfoldable pub place :
      (List (Quote F) → Option (Json F)) → ℕ → F → List (Quote F) → List (OpenOrder F)
  unfolding place_chunks
  place post max_orders_per_batch now quotes =
      let cap = if nat_eq max_orders_per_batch 0 then 1 else max_orders_per_batch in
      or_else [] (place_chunks post cap now (length quotes) quotes)

  -- A row of `open_orders`; none where it is skipped.
  unfoldable pub parse_row : F → Json F → Option (OpenOrder F)
  unfolding side_named
  parse_row now (object r) = do
    named ← item "side" r
    side ← side_named py named
    original ← float_of py (get_default (get_default (number (num 0)) "size" r) "original_size" r)
    matched ← float_of py (get_default (number (num 0)) "size_matched" r)
    asset ← first (object r) asset_keys
    oid ← first (object r) row_id_keys
    priced ← item "price" r
    price ← float_of py priced
    some (record {
      order_id = str_of py oid;
      token_id = str_of py asset;
      side = side;
      price = price;
      size = original - matched;
      state = OrderState.live;
      created_ts = now;
    })
  parse_row now _ = none

  -- The loop over the rows: the orders read, and how many rows were skipped.
  unfoldable pub parse_rows : F → List (Json F) → List (OpenOrder F) × ℕ
  unfolding parse_row
  parse_rows now [] = ([], 0)
  parse_rows now (r ∷ rs) =
      let (out, skipped) = parse_rows now rs in
      elim (parse_row now r) as (λ x. List (OpenOrder F) × ℕ) [
        | none ↦ (out, suc skipped)
        | some o ↦ (o ∷ out, skipped)
      ]

  -- `open_orders` of a live client, given the answer of `get_open_orders`.
  unfoldable pub open_orders : F → Option (Json F) → Option (List (OpenOrder F))
  unfolding rows_of parse_rows
  open_orders now answer = do
    raw ← answer
    rows ← rows_of "data" "orders" raw
    (let (out, skipped) = parse_rows now rows in
        if not (nat_eq skipped 0) && nat_eq (length out) 0 then none else some out)
