-- ===== src/Gateway.antt =====
-- src/polymaker/execution/gateway.py: the reading of the exchange's answers and the calls around them.
-- The client package and the HTTP library are parameters: a call is its decoded answer, or none where
-- it raised. The waits of the rate budget are in RateLimit; signing and logging are left out.
pub mod Orders
pub mod Account
pub mod Listing
pub mod Routed
pub mod Binding
use polymaker.Prelude.{
  ℕ, zero, suc, String, Bool, true, false, not, ◌&&◌, Option, none, some, List, [], ◌∷◌, ◌++◌, ◌==◌,
  nat_eq, length, take, drop, or_else, if◌then◌else◌, ◌>>=◌,
}
use polymaker.Float.{Float, num, ◌-◌, ◌<=◌}
use polymaker.Domain.{Side, OrderState, OpenOrder, Quote}
use polymaker.Wire.{
  truthy, Json, Fields, Python, null, boolean, number, text, array, object, end, none_left, item,
  get_default, str_of, float_of, elements, same_letters,
}

module _ {F : Type 0} ⦃fl : Float F⦄ where
  -- The loop of `_first` over the keys of a dict.
  unfoldable pub first_key : Fields F → List String → Option (Json F)
  first_key d [] = none
  first_key d (k ∷ ks) = elim (item k d) as (λ x. Option (Json F)) [
    | none ↦ first_key d ks
    | some v ↦ if truthy v then some v else first_key d ks
  ]

  -- `_first`
  unfoldable pub first : Json F → List String → Option (Json F)
  unfolding first_key
  first (object d) ks = first_key d ks
  first _ ks = none

  -- `resp if isinstance(resp, list) else resp.get(a, resp.get(b, []))`, where it is a list.
  unfoldable pub rows_of : String → String → Json F → Option (List (Json F))
  rows_of a b (array xs) = some (elements xs)
  rows_of a b (object d) =
      elim (get_default (get_default (array end) b d) a d) as (λ x. Option (List (Json F))) [
        | array xs ↦ some (elements xs)
        | _ ↦ none
      ]
  rows_of a b _ = none

-- The heartbeat chain: the last id, and the consecutive failures.
pub record Heartbeat : Type 0 where
  pub hb_id : String
  pub hb_failures : ℕ

-- An answer of an HTTP call: a payload, a status that is worth a retry, or another failure.
pub data Reply (F : Type 0) : Type 0 where
  payload : Json F → Reply F
  transient refused : Reply F

module _ {F : Type 0} ⦃fl : Float F⦄ (py : Python F) where
  -- `heartbeat` of a live client, given the answer to the beat that carries the last id: the chain
  -- after, and whether the beat went through.
  unfoldable pub heartbeat : (String → Option (Json F)) → Heartbeat → Heartbeat × Bool
  unfolding first
  heartbeat post h = elim (post h.hb_id) as (λ x. Heartbeat × Bool) [
    | none ↦ (record { hb_id = ""; hb_failures = suc h.hb_failures }, false)
    | some resp ↦
        let id = elim (first resp ("heartbeat_id" ∷ "heartbeatId" ∷ "id" ∷ [])) as (λ x. String) [
          | none ↦ ""
          | some v ↦ str_of py v
        ] in
        (record { hb_id = id; hb_failures = 0 }, true)
  ]

  -- `_get_json_with_retry`: attempt number i of the number left; none where it raises.
  unfoldable pub get_json_with_retry : (ℕ → Reply F) → ℕ → ℕ → Option (Json F)
  get_json_with_retry reply i zero = none
  get_json_with_retry reply i (suc left) =
      let later = get_json_with_retry reply (suc i) left in
      elim (reply i) as (λ x. Option (Json F)) [
        | payload j ↦ some j
        | transient ↦ later
        | refused ↦ none
      ]

-- `cancel`, given whether the client's call went through: the answer to the caller.
abbrev pub cancel : Bool → (List String → Bool) → List String → Bool
cancel paper call [] = true
cancel paper call (id ∷ ids) = if paper then true else call (id ∷ ids)
