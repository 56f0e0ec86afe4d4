-- ===== src/Store.antt =====
-- src/polymaker/state/store.py: positions, open orders, the in-flight guard, and the SQLite tables
-- that mirror them. Each method takes the store and returns the new one; `time.time()` is the
-- argument `now`. A table keyed by a TEXT primary key is a dictionary. The columns `updated_ts` of
-- `positions` and `ts` of `order_log`, which no code reads, are left out.
pub mod Calls
pub mod Positions
pub mod Orders
pub mod Guard
pub mod Guarded
pub mod Unguarded
use polymaker.Prelude.{
  ℕ, ◌-◌ as sub_nat, suc, String, Bool, true, false, not, ◌&&◌, ◌||◌, Option, none, some, List, [],
  ◌∷◌, ◌==◌, ltb, nat_eq, Dict, lookup, contains, insert, erase, get_or, set_default, values, keys,
  select, map, if◌then◌else◌, arith,
}
use Prim.Native.String.{◌++◌}
use polymaker.Float.{Float, num, ◌+◌, ◌-◌, ◌*◌, ◌/◌, ◌<=◌, ◌<◌, max}
use polymaker.Domain.{Side, opposite, OrderState, Position, OpenOrder, Fill}

-- A row of `fills`; `settled` says that its status is CONFIRMED.
pub record FillRow (F : Type 0) : Type 0 where
  pub token_id : String
  pub side : Side
  pub price : F
  pub size : F
  pub ts : F
  pub is_maker : Bool
  pub settled : Bool

pub record StateStore (F : Type 0) : Type 0 where
  pub positions : Dict (Position F)
  pub orders : Dict (OpenOrder F)
  pub inflight_count : Dict ℕ
  pub inflight_ts : Dict F
  pub last_fill_ts : Dict F
  pub fills : Dict (FillRow F)
  pub position_rows : Dict (F × F)
  pub order_log : Dict (OpenOrder F)

-- CANCELED, DONE or REJECTED
abbrev pub is_terminal : OrderState → Bool
is_terminal OrderState.canceled = true
is_terminal OrderState.done = true
is_terminal OrderState.rejected = true
is_terminal _ = false

module _ {F : Type 0} where
  -- `_persist_position` after the dict was written.
  unfoldable pub put_position : Position F → StateStore F → StateStore F
  put_position pos s = record s {
    positions = insert pos.token_id pos s.positions;
    position_rows = insert pos.token_id (pos.size, pos.avg_price) s.position_rows;
  }

  -- `self._inflight.get(token_id, 0)`
  abbrev pub inflight : StateStore F → String → ℕ
  inflight s t = get_or 0 t s.inflight_count

  unfoldable pub mark_inflight : String → F → StateStore F → StateStore F
  mark_inflight t now s = record s {
    inflight_count = insert t (suc (inflight s t)) s.inflight_count;
    inflight_ts = set_default t now s.inflight_ts;
  }

  unfoldable pub clear_inflight : String → StateStore F → StateStore F
  clear_inflight t s =
      let count =
        if ltb 0 (inflight s t)
        then insert t (sub_nat (inflight s t) 1) s.inflight_count
        else s.inflight_count in
      record s {
        inflight_count = count;
        inflight_ts = if nat_eq (get_or 0 t count) 0 then erase t s.inflight_ts else s.inflight_ts;
      }

  -- The body of the loop of `expire_inflight`.
  unfoldable pub drop_guards : List String → StateStore F → StateStore F
  drop_guards [] s = s
  drop_guards (t ∷ ts) s = drop_guards ts (record s {
    inflight_count = insert t 0 s.inflight_count;
    inflight_ts = erase t s.inflight_ts;
  })

  pub orders_for : String → StateStore F → List (OpenOrder F)
  orders_for t s = select (λ o. o.token_id == t) (values s.orders)

  unfoldable pub upsert_order : OpenOrder F → StateStore F → StateStore F
  upsert_order o s = record s {
    orders =
        if is_terminal o.state then erase o.order_id s.orders else insert o.order_id o s.orders;
    order_log = insert o.order_id o s.order_log;
  }

  unfoldable pub remove_order : String → StateStore F → StateStore F
  remove_order id s = record s { orders = erase id s.orders }

  unfoldable pub clear_orders : StateStore F → StateStore F
  clear_orders s = record s { orders = [] }

  -- `self.orders[o.order_id] = o` for each order of a snapshot.
  unfoldable pub add_orders : List (OpenOrder F) → Dict (OpenOrder F) → Dict (OpenOrder F)
  add_orders [] d = d
  add_orders (o ∷ os) d = add_orders os (insert o.order_id o d)

  -- `{o.order_id for o in live}`, tested for membership.
  abbrev pub listed : String → List (OpenOrder F) → Bool
  listed id [] = false
  listed id (o ∷ os) = (o.order_id == id) || listed id os

  -- `UPDATE fills SET status='CONFIRMED' WHERE trade_id=?`
  unfoldable pub mark_fill_settled : String → StateStore F → StateStore F
  mark_fill_settled id s = elim (lookup id s.fills) [
    | none ↦ s
    | some row ↦ record s { fills = insert id (record row { settled = true }) s.fills }
  ]

  unfoldable pub drop_tokens : List String → StateStore F → StateStore F
  drop_tokens [] s = s
  drop_tokens (t ∷ ts) s =
      drop_tokens ts
        (record s { positions = erase t s.positions; position_rows = erase t s.position_rows })

  -- The new store and the dropped token ids; `tracked` is the membership test of the set.
  unfoldable pub drop_untracked_positions :
      (String → Bool) → StateStore F → StateStore F × List String
  unfolding drop_tokens
  drop_untracked_positions tracked s =
      let dropped = select (λ t. not (tracked t)) (keys s.positions) in
      (drop_tokens dropped s, dropped)

-- `f"{trade_id}:reverse"`
unfoldable pub reverse_id : String → String
reverse_id id = id ++ ":reverse"

module _ {F : Type 0} ⦃fl : Float F⦄ where
  -- `Position(token_id)`
  abbrev pub flat_position : String → Position F
  flat_position t = record { token_id = t; size = num 0; avg_price = num 0 }

  unfoldable pub position : StateStore F → String → Position F
  position s t = get_or (flat_position t) t s.positions

  -- The position after a fill: a purchase averages the price in, a sale keeps it, and a size that
  -- falls to zero or below ends at an empty position.
  unfoldable pub fill_position : Position F → Fill F → Position F
  fill_position pos fill =
      let signed : F = elim (fill.side) [ Side.buy ↦ fill.size | Side.sell ↦ fl.neg fill.size ] in
      let avg : F = elim (fill.side) [
        | Side.buy ↦
            if pos.size <= num 0
            then fill.price
            else (pos.avg_price * pos.size + fill.price * fill.size) / (pos.size + fill.size)
        | Side.sell ↦ pos.avg_price
      ] in
      let size = max (num 0) (pos.size + signed) in
      record {
        token_id = pos.token_id;
        size = size;
        avg_price = if size <= num 0 then num 0 else avg;
      }

  abbrev pub fill_row : Fill F → FillRow F
  fill_row fill = record {
    token_id = fill.token_id;
    side = fill.side;
    price = fill.price;
    size = fill.size;
    ts = fill.ts;
    is_maker = fill.is_maker;
    settled = false;
  }

  -- The new store, and whether the fill was new: INSERT OR IGNORE into `fills` is the dedupe gate.
  unfoldable pub apply_fill : Fill F → StateStore F → StateStore F × Bool
  apply_fill fill s = if contains fill.trade_id s.fills then (s, false) else (
    put_position (fill_position (position s fill.token_id) fill) (record s {
      fills = insert fill.trade_id (fill_row fill) s.fills;
      last_fill_ts = insert fill.token_id fill.ts s.last_fill_ts;
    }),
    true,
  )

  unfoldable pub clamped_position : String → F → F → Position F
  clamped_position t size avg_price = record {
    token_id = t;
    size = max (num 0) size;
    avg_price = if num 0 < size then avg_price else num 0;
  }

  unfoldable pub set_position : String → F → F → StateStore F → StateStore F
  set_position t size avg_price s = put_position (clamped_position t size avg_price) s

  unfoldable pub force_set_position : String → F → F → StateStore F → StateStore F
  unfolding set_position
  force_set_position t size avg_price s = set_position t size avg_price s

  abbrev pub reversed_fill : String → FillRow F → Fill F
  reversed_fill id row = record {
    token_id = row.token_id;
    side = opposite row.side;
    price = row.price;
    size = row.size;
    trade_id = reverse_id id;
    ts = row.ts;
    is_maker = true;
  }

  -- The new store and the original fill if it was undone.
  unfoldable pub reverse_fill : String → StateStore F → StateStore F × Option (FillRow F)
  reverse_fill id s =
      if contains (reverse_id id) s.fills then (s, none) else elim (lookup id s.fills) [
        | none ↦ (s, none)
        | some row ↦
            if row.settled
            then (s, none)
            else let (s', fresh) = apply_fill (reversed_fill id row) s in
              (s', if fresh then some row else none)
      ]

  -- `_FILL_SETTLE_GRACE_S`
  abbrev pub fill_settle_grace_s : F
  fill_settle_grace_s = num 15

  unfoldable pub guard_blocks : StateStore F → F → String → Bool
  guard_blocks s now t =
      ltb 0 (inflight s t) || (now - get_or (num 0) t s.last_fill_ts < fill_settle_grace_s)

  unfoldable pub adopt_positions : F → Dict (F × F) → StateStore F → StateStore F
  adopt_positions now [] s = s
  adopt_positions now ((t, (size, avg)) ∷ api) s =
      adopt_positions now api (if guard_blocks s now t then s else set_position t size avg s)

  -- The zeroing loop over a snapshot of the positions.
  unfoldable pub zero_absent :
      F → Dict (F × F) → Dict (Position F) → StateStore F → StateStore F × List String
  zero_absent now api [] s = (s, [])
  zero_absent now api ((t, pos) ∷ ps) s =
      let skip = (pos.size <= num 0) || (contains t api || guard_blocks s now t) in
      let (s', zeroed) =
        zero_absent now api ps (if skip then s else set_position t (num 0) (num 0) s) in
      (s', if skip then zeroed else t ∷ zeroed)

  unfoldable pub reconcile_positions :
      Dict (F × F) → Bool → F → StateStore F → StateStore F × List String
  reconcile_positions api authoritative now s =
      let s' = adopt_positions now api s in
      if authoritative then zero_absent now api s'.positions s' else (s', [])

  unfoldable pub stale_guards : F → F → Dict F → List String
  stale_guards max_age now [] = []
  stale_guards max_age now ((t, ts) ∷ d) =
      let rest = stale_guards max_age now d in if max_age < now - ts then t ∷ rest else rest

  unfoldable pub expire_inflight : F → F → StateStore F → StateStore F × List String
  expire_inflight max_age now s =
      let stale = stale_guards max_age now s.inflight_ts in (drop_guards stale s, stale)

  -- The orders of a token that a snapshot no longer lists go, unless they are younger than the grace.
  unfoldable pub drop_unlisted :
      String
      → List (OpenOrder F)
      → F
      → F
      → Dict (OpenOrder F)
      → Dict (OpenOrder F)
      → Dict (OpenOrder F)
  drop_unlisted t live grace now [] d = d
  drop_unlisted t live grace now ((id, o) ∷ os) d =
      let keep =
        not (o.token_id == t) || (listed o.order_id live || (now - o.created_ts < grace)) in
      drop_unlisted t live grace now os (if keep then d else erase o.order_id d)

  unfoldable pub replace_open_orders :
      String → List (OpenOrder F) → F → F → StateStore F → StateStore F
  replace_open_orders t live grace now s = record s {
    orders = add_orders live (drop_unlisted t live grace now s.orders s.orders);
  }

  -- `_load`: the rows of a positive size.
  unfoldable pub load_positions : Dict (F × F) → Dict (Position F)
  load_positions [] = []
  load_positions ((t, (size, avg)) ∷ rows) =
      let rest = load_positions rows in
      if num 0 < size
      then (t, record { token_id = t; size = size; avg_price = avg }) ∷ rest
      else rest

  -- A new process over the same database: the tables stay, the memory is gone.
  unfoldable pub restart : StateStore F → StateStore F
  restart s = record {
    positions = load_positions s.position_rows;
    orders = [];
    inflight_count = [];
    inflight_ts = [];
    last_fill_ts = [];
    fills = s.fills;
    position_rows = s.position_rows;
    order_log = s.order_log;
  }
