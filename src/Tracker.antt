-- ===== src/Tracker.antt =====
-- src/polymaker/state/tracker.py: the trade and order lifecycle over the StateStore. The callbacks
-- `report_fill` and `on_change` are the lists of the calls made, latest last; the engine's `report_fill` is
-- modelled in Risk. `time.time()` is the argument `now`.
pub mod Counted
pub mod Lifecycle
use polymaker.Prelude.{
  String, Bool, true, false, ◌||◌, Option, none, some, List, [], ◌∷◌, ◌++◌, Dict, lookup, contains,
  insert, erase, ltb, if◌then◌else◌,
}
use polymaker.Float.{Float, num, ◌<=◌}
use polymaker.Domain.{
  Side, opposite, TradeState, matched, mined, confirmed, retrying, failed, OrderState, OpenOrder,
  Fill,
}
use polymaker.Store.{
  StateStore, apply_fill, mark_inflight, clear_inflight, inflight, mark_fill_settled, reverse_fill,
  reverse_id, remove_order, upsert_order,
}

pub record TradeEvent (F : Type 0) : Type 0 where
  pub token_id : String
  pub our_side : Side
  pub price : F
  pub size : F
  pub trade_id : String
  pub status : TradeState
  pub ts : F

pub record OrderEvent (F : Type 0) : Type 0 where
  pub order_id : String
  pub token_id : String
  pub side : Side
  pub price : F
  pub remaining_size : F
  pub is_cancel : Bool

-- `UserEventProcessor`: the store, the fills applied in this process, and the callbacks made.
pub record Processor (F : Type 0) : Type 0 where
  pub store : StateStore F
  pub applied : Dict (Fill F)
  pub filled : List (Fill F)
  pub changed : List String

module _ {F : Type 0} where
  abbrev pub report_fill : Fill F → Processor F → Processor F
  report_fill fill p = record p { filled = p.filled ++ fill ∷ [] }

  abbrev pub on_change : String → Processor F → Processor F
  on_change cid p = record p { changed = p.changed ++ cid ∷ [] }

  abbrev pub event_fill : TradeEvent F → Fill F
  event_fill ev = record {
    token_id = ev.token_id;
    side = ev.our_side;
    price = ev.price;
    size = ev.size;
    trade_id = ev.trade_id;
    ts = ev.ts;
    is_maker = true;
  }

  -- The fill that undoes another.
  abbrev pub undo_fill : Fill F → Fill F
  undo_fill prior = record {
    token_id = prior.token_id;
    side = opposite prior.side;
    price = prior.price;
    size = prior.size;
    trade_id = reverse_id prior.trade_id;
    ts = prior.ts;
    is_maker = true;
  }

module _ {F : Type 0} ⦃fl : Float F⦄ where
  unfoldable pub on_matched : TradeEvent F → String → F → Processor F → Processor F
  on_matched ev cid now p =
      let fill = event_fill ev in
      let (s, fresh) = apply_fill fill p.store in
      if contains ev.trade_id p.applied
      then p
      else if fresh
      then on_change cid (
          report_fill fill (record p {
            store = mark_inflight ev.token_id now s;
            applied = insert ev.trade_id fill p.applied;
          }))
      else p

  unfoldable pub on_confirmed : TradeEvent F → String → Processor F → Processor F
  on_confirmed ev cid p =
      let s =
        if contains ev.trade_id p.applied || ltb 0 (inflight p.store ev.token_id)
        then clear_inflight ev.token_id p.store
        else p.store in
      on_change cid (record p {
        store = mark_fill_settled ev.trade_id s;
        applied = erase ev.trade_id p.applied;
      })

  -- `_reverse_fill` and `_reverse_effects`
  unfoldable pub reverse_applied : Fill F → TradeEvent F → String → Processor F → Processor F
  reverse_applied prior ev cid p =
      let (s, fresh) = apply_fill (undo_fill prior) p.store in
      if fresh
      then on_change cid
          (report_fill (undo_fill prior) (record p { store = clear_inflight ev.token_id s }))
      else p

  unfoldable pub on_failed : TradeEvent F → String → Processor F → Processor F
  unfolding reverse_applied
  on_failed ev cid p = elim (lookup ev.trade_id p.applied) [
    | some prior ↦ reverse_applied prior ev cid (record p { applied = erase ev.trade_id p.applied })
    | none ↦
        let (s, undone) = reverse_fill ev.trade_id p.store in
        elim undone [
          | some row ↦ on_change cid (record p { store = clear_inflight ev.token_id s })
          | none ↦ record p { store = clear_inflight ev.token_id s }
        ]
  ]

  unfoldable pub on_trade : TradeEvent F → String → F → Processor F → Processor F
  unfolding on_matched on_confirmed on_failed
  on_trade ev cid now p = elim (ev.status) [
    | matched ↦ on_matched ev cid now p
    | confirmed ↦ on_confirmed ev cid p
    | mined ↦ p
    | retrying ↦ p
    | failed ↦ on_failed ev cid p
  ]

  unfoldable pub on_order : OrderEvent F → String → F → Processor F → Processor F
  on_order ev cid now p =
      let s =
        if ev.is_cancel || (ev.remaining_size <= num 0)
        then remove_order ev.order_id p.store
        else upsert_order
            (record {
              order_id = ev.order_id;
              token_id = ev.token_id;
              side = ev.side;
              price = ev.price;
              size = ev.remaining_size;
              state = OrderState.live;
              created_ts = now;
            })
            p.store in
      on_change cid (record p { store = s })

  -- The trade events of a session in order, each with its market and the time it is handled.
  unfoldable pub on_trades : List (TradeEvent F × String × F) → Processor F → Processor F
  on_trades [] p = p
  on_trades ((ev, cid, now) ∷ evs) p = on_trades evs (on_trade ev cid now p)

-- A process that has just started over a store.
abbrev pub new_processor : {F : Type 0} → StateStore F → Processor F
new_processor s = record { store = s; applied = []; filled = []; changed = [] }
