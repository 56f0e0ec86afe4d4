-- ===== src/Store/Calls.antt =====
-- state/store.py: a history of method calls, each with the arguments and the time that it reads.
use polymaker.Prelude.{String, Bool, List, [], ◌∷◌, Dict}
use polymaker.Float.{Float}
use polymaker.Domain.{OpenOrder, Fill}
use polymaker.Store.{
  StateStore, apply_fill, force_set_position, restart, reverse_fill, reconcile_positions,
  drop_untracked_positions, mark_inflight, clear_inflight, expire_inflight, upsert_order,
  remove_order, clear_orders, replace_open_orders, mark_fill_settled,
}

-- One method call, with its arguments and the time it reads.
pub data Call (F : Type 0) : Type 0 where
  fills : Fill F → Call F
  sets : String → F → F → Call F
  reverses settles : String → Call F
  reconciles : Dict (F × F) → Bool → F → Call F
  marks : String → F → Call F
  clears : String → Call F
  expires : F → F → Call F
  upserts : OpenOrder F → Call F
  removes : String → Call F
  replaces : String → List (OpenOrder F) → F → F → Call F
  clears_orders : Call F
  untracks : (String → Bool) → Call F
  restarts : Call F

-- `StateStore()` over a new database.
unfoldable pub new_store : {F : Type 0} → StateStore F
new_store = record {
  positions = [];
  orders = [];
  inflight_count = [];
  inflight_ts = [];
  last_fill_ts = [];
  fills = [];
  position_rows = [];
  order_log = [];
}

module _ {F : Type 0} ⦃fl : Float F⦄ where
  unfoldable pub step : Call F → StateStore F → StateStore F
  step (fills fill) s = (apply_fill fill s).0
  step (sets t size avg) s = force_set_position t size avg s
  step (reverses id) s = (reverse_fill id s).0
  step (settles id) s = mark_fill_settled id s
  step (reconciles api authoritative now) s = (reconcile_positions api authoritative now s).0
  step (marks t now) s = mark_inflight t now s
  step (clears t) s = clear_inflight t s
  step (expires max_age now) s = (expire_inflight max_age now s).0
  step (upserts o) s = upsert_order o s
  step (removes id) s = remove_order id s
  step (replaces t live grace now) s = replace_open_orders t live grace now s
  step clears_orders s = clear_orders s
  step (untracks tracked) s = (drop_untracked_positions tracked s).0
  step restarts s = restart s

  unfoldable pub run : List (Call F) → StateStore F → StateStore F
  run [] s = s
  run (c ∷ cs) s = run cs (step c s)
