-- ===== src/Store/Orders.antt =====
-- state/store.py: the double-order guard of `replace_open_orders`.
use polymaker.Prelude.{
  inl, inr, Option-cases, refl, ==→≡, lookup-erase, lookup-insert, Unique, arith, ◌∙◌, is_some,
  lookup, ◌≡◌, Bool, Dict, String, ◌||◌, not, Option, none, some, List, [], ◌∷◌, if◌then◌else◌,
  ◌==◌,
}
use polymaker.Float.{Float, ◌-◌, ◌<◌}
use polymaker.Domain.{OpenOrder}
use polymaker.Store.{StateStore, replace_open_orders, drop_unlisted, add_orders, listed}

module _ {F : Type 0} ⦃fl : Float F⦄ where
  -- The last order of the snapshot with an id.
  pub last_listed : String → List (OpenOrder F) → Option (OpenOrder F)
  last_listed id [] = none
  last_listed id (o ∷ os) = elim (last_listed id os) [
    | some later ↦ some later
    | none ↦ if o.order_id == id then some o else none
  ]

  -- An order of the token that the snapshot omits stays only if it is younger than the grace.
  abbrev pub survives : String → F → F → Option (OpenOrder F) → Option (OpenOrder F)
  survives t grace now none = none
  survives t grace now (some o) =
      if not (o.token_id == t) || (now - o.created_ts < grace) then some o else none

  -- Every order stands under its own id, once.
  abbrev pub OwnIds : Dict (OpenOrder F) → Type 0
  OwnIds [] = Unit
  OwnIds ((id, o) ∷ d) = (o.order_id ≡ id) × OwnIds d

  add_orders-lookup :
      (os : List (OpenOrder F)) (d : Dict (OpenOrder F)) (id : String)
      → lookup id (add_orders os d)
        ≡ elim (last_listed id os) [ some o ↦ some o | none ↦ lookup id d ]
  unfolding add_orders last_listed
  add_orders-lookup [] d id = refl
  add_orders-lookup (o ∷ os) d id =
      add_orders-lookup os _ id ∙ ground (arith, lookup-insert o.order_id id o d)

  listed-last_listed :
      (id : String) (os : List (OpenOrder F)) → listed id os ≡ is_some (last_listed id os)
  unfolding last_listed
  listed-last_listed id [] = refl
  listed-last_listed id (o ∷ os) = ground (arith, listed-last_listed id os)

  lookup-own :
      (d : Dict (OpenOrder F)) (id : String) (o : OpenOrder F)
      → OwnIds d
      → lookup id d ≡ some o
      → o.order_id ≡ id
  unfolding lookup
  lookup-own [] id o own e = cc
  lookup-own ((k, x) ∷ d) id o own e = ground (arith, lookup-own d id o own.1, ==→≡ k id)

  -- What the pruning loop keeps of an order.
  abbrev kept : String → List (OpenOrder F) → F → F → OpenOrder F → Bool
  kept t live grace now o =
      not (o.token_id == t) || (listed o.order_id live || (now - o.created_ts < grace))

  drop_unlisted-lookup :
      (t : String) (live : List (OpenOrder F)) (grace now : F) (os d : Dict (OpenOrder F))
      (id : String)
      → OwnIds os
      → Unique os
      → lookup id (drop_unlisted t live grace now os d) ≡ elim (lookup id os) [
        | none ↦ lookup id d
        | some o ↦ if kept t live grace now o then lookup id d else none
      ]
  unfolding drop_unlisted lookup
  drop_unlisted-lookup t live grace now [] d id own u = refl
  drop_unlisted-lookup t live grace now ((k, o) ∷ os) d id own u =
      drop_unlisted-lookup t live grace now os _ id own.1 u.1
      ∙ ground (arith, lookup-erase o.order_id id d, ==→≡ k id, own.0)

  -- The open orders after a REST snapshot of a token: an id that the snapshot lists has the listed
  -- order; any other keeps its local order unless that is of this token and at least `grace` old,
  -- so a just-placed order and the orders of other tokens are never dropped. Local orders stand
  -- once, each under its own id.
  pub replace_open_orders-lookup :
      (t : String) (live : List (OpenOrder F)) (grace now : F) (s : StateStore F) (id : String)
      → OwnIds s.orders
      → Unique s.orders
      → lookup id (replace_open_orders t live grace now s).orders ≡ elim (last_listed id live) [
        | some o ↦ some o
        | none ↦ survives t grace now (lookup id s.orders)
      ]
  unfolding replace_open_orders
  replace_open_orders-lookup t live grace now s id own u =
      let pruned = drop_unlisted-lookup t live grace now s.orders s.orders id own u in
      add_orders-lookup live (drop_unlisted t live grace now s.orders s.orders) id
      ∙ elim (Option-cases (lookup id s.orders)) [
        | inl e ↦ ground (arith, pruned)
        | inr (o, e) ↦
            ground (arith, pruned, listed-last_listed id live, lookup-own s.orders id o own e)
      ]
