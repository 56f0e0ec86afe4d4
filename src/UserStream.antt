-- ===== src/UserStream.antt =====
-- The handlers of src/polymaker/userstream/client.py: from the decoded frames of the user websocket to
-- calls of the event processor. The callbacks of the engine are parameters. An exception that leaves a
-- handler ends the connection: it is a flag beside the processor. The journal is left out.
pub mod Parse
use polymaker.Prelude.{
  ◌>>=◌, ℕ, zero, suc, String, Bool, true, false, not, ◌&&◌, ◌||◌, Option, none, some, List, [],
  ◌∷◌, ◌++◌, ◌==◌, ltb, length, or_else, if◌then◌else◌,
}
use Prim.Native.String.{◌++◌ as join}
use polymaker.Float.{Float, num, ◌-◌, ◌<=◌}
use polymaker.Domain.{
  Side, buy, sell, opposite, TradeState, matched, mined, confirmed, retrying, failed,
}
use polymaker.Tracker.{TradeEvent, OrderEvent, Processor, on_trade, on_order}
use polymaker.Wire.{
  Json, Elements, null, number, text, array, object, Fields, Python, elements, item, get,
  get_default, str_of, is_text, float_of, items_of, ts_of, same_letters, decimal,
}
use polymaker.UserStream.Parse.{or_text, normalize_trade, normalize_order}

-- A step that ran to its end, or raised after some of its effects.
pub record Outcome (S : Type 0) : Type 0 where
  pub state : S
  pub raised : Bool

-- What the client holds: its address, its Python, and the engine's callbacks.
pub record Client (F : Type 0) : Type 0 where
  pub py : Python F
  pub our_address : String
  pub other_token : String → Option String
  pub condition_of_token : String → Option String

module _ {F : Type 0} ⦃fl : Float F⦄ (c : Client F) where
  -- The market of an event: the engine's, or the one that the message names.
  abbrev pub market_of : Fields F → String → String
  market_of msg token =
      or_text (c.condition_of_token token) (str_of c.py (get_default (text "") "market" msg))

  -- The loop of `_on_trade` over the events of a message.
  unfoldable pub deliver : Fields F → F → List (TradeEvent F) → Processor F → Processor F
  deliver msg now [] p = p
  deliver msg now (ev ∷ evs) p = deliver msg now evs (on_trade ev (market_of msg ev.token_id) now p)

  -- `_on_trade`
  unfoldable pub on_trade_message : Fields F → F → Processor F → Outcome (Processor F)
  unfolding deliver normalize_trade
  on_trade_message msg now p =
      elim (normalize_trade c.py c.our_address c.other_token msg) as (λ x. Outcome (Processor F)) [
        | none ↦ record { state = p; raised = true }
        | some evs ↦ record { state = deliver msg now evs p; raised = false }
      ]

  -- `_on_order`
  unfoldable pub on_order_message : Fields F → F → Processor F → Processor F
  unfolding normalize_order
  on_order_message msg now p = elim (normalize_order c.py msg) as (λ x. Processor F) [
    | none ↦ p
    | some ev ↦ on_order ev (market_of msg ev.token_id) now p
  ]

  -- A message, by its `event_type`.
  unfoldable pub on_message : Json F → F → Processor F → Outcome (Processor F)
  unfolding on_trade_message on_order_message
  on_message (object msg) now p =
      if is_text (get "event_type" msg) "trade"
      then on_trade_message msg now p
      else if is_text (get "event_type" msg) "order"
      then record { state = on_order_message msg now p; raised = false }
      else record { state = p; raised = false }
  on_message _ now p = record { state = p; raised = false }

  -- The loop of `_handle`, which an exception ends.
  unfoldable pub on_messages : List (Json F) → F → Processor F → Outcome (Processor F)
  unfolding on_message
  on_messages [] now p = record { state = p; raised = false }
  on_messages (msg ∷ msgs) now p =
      let step = on_message msg now p in
      let rest = on_messages msgs now step.state in if step.raised then step else rest

  -- `_handle`, given what `json.loads` made of the frame: none for a text that is no JSON.
  unfoldable pub handle : Option (Json F) → F → Processor F → Outcome (Processor F)
  unfolding on_messages
  handle none now p = record { state = p; raised = false }
  handle (some (array decoded)) now p = on_messages (elements decoded) now p
  handle (some decoded) now p = on_messages (decoded ∷ []) now p

  -- The frames of a session with the times they come at; after an exception the client reconnects and
  -- goes on with the next frame.
  unfoldable pub handle_all : List (Option (Json F) × F) → Processor F → Processor F
  unfolding handle
  handle_all [] p = p
  handle_all ((frame, now) ∷ frames) p = handle_all frames (handle frame now p).state
