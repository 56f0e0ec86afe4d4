-- ===== src/Reconciler.antt =====
-- src/polymaker/execution/reconciler.py: the pure diff of target quotes against live orders.
-- The dict of live orders by (token, side) is the selection of the live orders with that token and
-- side, in their order. The set `keep` of order ids is a list that is only tested for membership.
pub mod Match
pub mod Count
pub mod Converge
use polymaker.Prelude.{
  mem, ℕ, String, Bool, true, false, not, ◌&&◌, ◌||◌, Option, none, some, List, [], ◌∷◌, ◌==◌, map,
  select, if◌then◌else◌, arith,
}
use polymaker.Float.{Float, num, ◌+◌, ◌-◌, ◌*◌, ◌<=◌, abs}
use polymaker.Domain.{Side, same_side, OpenOrder, Quote, TargetQuotes}

pub record ReconcilePlan (F : Type 0) : Type 0 where
  pub to_cancel : List String
  pub to_place : List (Quote F)

-- The keyword arguments `tick`, `reprice_ticks` and `resize_frac`.
pub record Tolerance (F : Type 0) : Type 0 where
  pub tick : F
  pub reprice_ticks : ℕ
  pub resize_frac : F

abbrev is_empty {ℓ} : {A : Type ℓ} → List A → Bool
is_empty [] = true
is_empty (x ∷ xs) = false

module _ {F : Type 0} where
  unfoldable pub is_noop : ReconcilePlan F → Bool
  is_noop plan = is_empty plan.to_cancel && is_empty plan.to_place

  -- The dict key (token_id, side).
  abbrev pub same_key : Quote F → OpenOrder F → Bool
  same_key q o = (o.token_id == q.token_id) && same_side o.side q.side

  abbrev pub order_ids : List (OpenOrder F) → List String
  order_ids = map (λ o. o.order_id)

  abbrev pub to_cancel_of : List String → List (OpenOrder F) → List String
  to_cancel_of keep live = order_ids (select (λ o. not (mem o.order_id keep)) live)

module _ {F : Type 0} ⦃fl : Float F⦄ where
  abbrev pub eps : F
  eps = fl.lit 1 9

  abbrev pub price_tol : Tolerance F → F
  price_tol t = num t.reprice_ticks * t.tick + eps

  unfoldable pub price_close : Tolerance F → Quote F → OpenOrder F → Bool
  price_close t q o = abs (o.price - q.price) <= price_tol t

  unfoldable pub size_close : Tolerance F → Quote F → OpenOrder F → Bool
  size_close t q o = (q.size <= num 0) || (abs (o.size - q.size) <= t.resize_frac * q.size + eps)

  -- The inner loop: the first candidate that is not kept yet and lies within both tolerances.
  unfoldable pub find_match :
      Tolerance F → List String → Quote F → List (OpenOrder F) → Option (OpenOrder F)
  find_match t keep q [] = none
  find_match t keep q (o ∷ os) =
      let rest = find_match t keep q os in
      if mem o.order_id keep
      then rest
      else if price_close t q o && size_close t q o
      then some o
      else rest

  -- The outer loop over the target quotes, from the kept ids and the quotes to place so far.
  unfoldable pub reconcile_loop :
      Tolerance F → List (OpenOrder F) → List String → List (Quote F) → List String × List (Quote F)
  reconcile_loop t live keep [] = (keep, [])
  reconcile_loop t live keep (q ∷ qs) = elim (find_match t keep q (select (same_key q) live)) [
    | some o ↦ reconcile_loop t live (o.order_id ∷ keep) qs
    | none ↦ let (kept, placed) = reconcile_loop t live keep qs in (kept, q ∷ placed)
  ]

  unfoldable pub reconcile : TargetQuotes F → List (OpenOrder F) → Tolerance F → ReconcilePlan F
  unfolding reconcile_loop
  reconcile targets live t =
      let (keep, to_place) = reconcile_loop t live [] targets.quotes in
      record { to_cancel = to_cancel_of keep live; to_place = to_place }
