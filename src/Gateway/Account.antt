-- ===== src/Gateway/Account.antt =====
-- src/polymaker/execution/gateway.py: the reads of positions and balances.
use polymaker.Prelude.{
  ℕ, zero, suc, String, Bool, true, false, not, ◌&&◌, Option, none, some, List, [], ◌∷◌, nat_eq,
  or_else, Dict, insert, select, map, if◌then◌else◌, ◌>>=◌,
}
use polymaker.Float.{Float, num, ◌/◌, ◌<=◌}
use polymaker.Domain.{ProtocolVersion, v1, v2}
use polymaker.Wire.{
  Json, Fields, Python, null, object, none_left, field, item, get, str_of, float_of, iterated,
  same_letters,
}
use polymaker.Wire.{truthy}
use polymaker.Ledger.{ledger_for}

-- The `cursor` of a page of positions: the first page has none, and none follows the last.
pub data Cursor (F : Type 0) : Type 0 where
  no_cursor : Cursor F
  cursor : Json F → Cursor F

module _ {F : Type 0} ⦃fl : Float F⦄ (py : Python F) where
  -- `_as_float(value) or 0.0`
  abbrev or_zero : Option F → F
  or_zero none = num 0
  or_zero (some x) = x

  -- A row of a page: the token with its size and average price; none where the row is passed over.
  unfoldable pub position_row : Json F → Option (String × F × F)
  position_row (object p) = do
    size ← float_of py (get "current_size" p)
    elim (get "token_id" p) as (λ x. Option (String × F × F)) [
      | null ↦ none
      | tok ↦
          if size <= num 0
          then none
          else some (str_of py tok, size, or_zero (float_of py (get "avg_price" p)))
    ]
  position_row _ = none

  -- The loop over the rows of a page: what is read so far, and how many rows were.
  unfoldable pub add_rows : List (Json F) → Dict (F × F) → ℕ → Dict (F × F) × ℕ
  unfolding position_row
  add_rows [] out parsed = (out, parsed)
  add_rows (r ∷ rs) out parsed = elim (position_row r) as (λ x. Dict (F × F) × ℕ) [
    | none ↦ add_rows rs out parsed
    | some (tok, size, avg) ↦ add_rows rs (insert tok (size, avg) out) (suc parsed)
  ]

  -- `isinstance(value, dict)`
  abbrev pub dict_of : Json F → Option (Fields F)
  dict_of (object fs) = some fs
  dict_of _ = none

  -- `cursor = page.get("next_cursor")`, from the pagination object; none where there is no object.
  unfoldable pub cursor_of : Fields F → Option (Cursor F)
  cursor_of payload = do
    page ← dict_of (get "pagination" payload)
    some (if truthy (get "next_cursor" page) then cursor (get "next_cursor" page) else no_cursor)

  -- One page, from what is read so far: none where the read is given up.
  unfoldable pub read_page : Option (Json F) → Dict (F × F) → Option (Dict (F × F) × Cursor F)
  unfolding add_rows cursor_of
  read_page (some (object payload)) out = do
    rows ← iterated (get "data" payload)
    c ← cursor_of payload
    (let (more, parsed) = add_rows rows out 0 in
        if truthy (get "data" payload) && nat_eq parsed 0 then none else some (more, c))
  read_page _ out = none

  -- The loop of `positions` over at most that many pages; `fetch` gets a page by its cursor.
  unfoldable pub read_pages :
      (Cursor F → Option (Json F)) → ℕ → Cursor F → Dict (F × F) → Option (Dict (F × F))
  unfolding read_page
  read_pages fetch zero c out = none
  read_pages fetch (suc n) c out = elim (read_page (fetch c) out) as (λ x. Option (Dict (F × F))) [
    | none ↦ none
    | some (more, no_cursor) ↦ some more
    | some (more, cursor j) ↦ read_pages fetch n (cursor j) more
  ]

  abbrev pub max_position_pages : ℕ
  max_position_pages = 50

  -- `positions` of a wallet, from the first page on.
  unfoldable pub positions : (Cursor F → Option (Json F)) → Option (Dict (F × F))
  unfolding read_pages
  positions fetch = read_pages fetch max_position_pages no_cursor []

  -- 6 decimals: `_COLLATERAL_DECIMALS`
  abbrev pub scaled : Option F → Option F
  scaled none = none
  scaled (some raw) = some (raw / num 1_000_000)

  -- `collateral_balance`, given the answer of `balance_allowance`.
  unfoldable pub collateral_balance : Json F → Option F
  collateral_balance (object ba) = elim (item "balance" ba) as (λ x. Option F) [
    | some v ↦ scaled (float_of py v)
    | none ↦ elim (item "collateral" ba) as (λ x. Option F) [
      | some v ↦ scaled (float_of py v)
      | none ↦ elim (item "amount" ba) as (λ x. Option F) [
        | some v ↦ scaled (float_of py v)
        | none ↦ none
      ]
    ]
  ]
  collateral_balance _ = none

  -- The loop of `allowances_for`.
  unfoldable pub allowance_of : String → Fields F → Option F
  unfolding same_letters
  allowance_of spender none_left = some (num 0)
  allowance_of spender (field addr amount fs) =
      let rest = allowance_of spender fs in
      if same_letters addr spender then scaled (float_of py amount) else rest

  unfoldable pub allowances_for : String → Json F → Option F
  unfolding allowance_of
  allowances_for spender (object ba) = elim (get "allowances" ba) as (λ x. Option F) [
    | object allow ↦ allowance_of spender allow
    | _ ↦ none
  ]
  allowances_for spender _ = none

-- `[t for t, v in wanted.items() if v is version]`
abbrev pub of_version : Bool → Dict ProtocolVersion → List String
of_version second wanted =
    map (λ w. w.0) (select (λ w. elim (w.1) [ v1 ↦ not second | v2 ↦ second ]) wanted)

module _ {F : Type 0} ⦃fl : Float F⦄ where
  -- The loop of `token_balances` over the ids of one ledger; none where a read raised.
  unfoldable pub read_ledger : (String → Option F) → List String → Dict F → Option (Dict F)
  read_ledger balance_of [] out = some out
  read_ledger balance_of (t ∷ ts) out = do
    raw ← balance_of t
    read_ledger balance_of ts (insert t (raw / num 1_000_000) out)

  -- `token_balances`, given whether an RPC answers and what a `balanceOf` call on a ledger returns.
  unfoldable pub token_balances :
      Bool → (String → String → Option F) → Dict ProtocolVersion → Option (Dict F)
  unfolding read_ledger
  token_balances rpc balance_of [] = some []
  token_balances rpc balance_of (w ∷ ws) =
      if rpc
      then read_ledger (balance_of (ledger_for v1)) (of_version false (w ∷ ws)) []
        >>= (λ out. read_ledger (balance_of (ledger_for v2)) (of_version true (w ∷ ws)) out)
      else none

  -- `_token_balance_opt`
  unfoldable pub token_balance_opt :
      Bool → (String → String → Option F) → String → ProtocolVersion → Option F
  token_balance_opt rpc balance_of t version =
      if rpc
      then elim (balance_of (ledger_for version) t) [
        | none ↦ none
        | some raw ↦ some (raw / num 1_000_000)
      ]
      else none

  -- `token_balance`
  unfoldable pub token_balance : Bool → (String → String → Option F) → String → ProtocolVersion → F
  token_balance rpc balance_of t version =
      or_else (num 0) (token_balance_opt rpc balance_of t version)
