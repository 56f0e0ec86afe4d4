-- ===== src/Tests/Wired.antt =====
-- The theorems on the user stream, the gateway and the rate budget at concrete inputs.
use polymaker.Prelude.{
  arith, ℕ, ◌≤◌, ◌≡◌, ◌↔◌, refl, ap, suc, true, some, none, Option, List, [], ◌∷◌, Dict, String,
  ◌==◌, length, map, if◌then◌else◌, nat_eq,
}
use polymaker.Prelude.Int.{ℤ, ◌-ℤ◌, ◌+ℤ◌}
use polymaker.Float.{nano, nano-IsFloat, mul_nano, div_nano}
use polymaker.Domain.{Side, Quote}
use polymaker.Wire.{
  Json, Elements, Python, null, text, array, object, end, element, none_left, field, elements,
}
use polymaker.Gateway.{first, first_key, rows_of}
use polymaker.Gateway.Orders.{parse_place_response, bind_response, bind_items, place}
use polymaker.Gateway.Binding.{IsBound, as_quote, Acknowledging, place-IsBound, place_acknowledged}
use polymaker.Gateway.Account.{Cursor, no_cursor, cursor, positions}
use polymaker.Gateway.Listing.{Listing, positions-Listing}
use polymaker.RateLimit.{TokenBucket, acquire, refill}
use polymaker.RateLimit.Granted.{IsGrant, acquire-IsGrant}
use polymaker.Tests.{units, cents}

abbrev python : Python ℤ
python = record {
  to_float =
      λ t. if t == "0.40" then some (cents 40) else if t == "50" then some (units 50) else none;
  repr = λ v. "";
  equal = λ a b. true;
}

abbrev bid : String → Quote ℤ
bid token = record { token_id = token; side = Side.buy; price = cents 40; size = units 50 }

-- An exchange that answers with an id for each quote.
abbrev ids_for : List (Quote ℤ) → Elements ℤ
ids_for [] = end
ids_for (q ∷ qs) = element (object (field "orderID" (text "o1") none_left)) (ids_for qs)

abbrev post : List (Quote ℤ) → Option (Json ℤ)
post qs = some (array (ids_for qs))

bound_length :
    (qs : List (Quote ℤ))
    → length (bind_items python (units 1) qs (elements (ids_for qs))) ≡ length qs
unfolding bind_items first first_key
bound_length [] = refl
bound_length (q ∷ qs) = ap suc (bound_length qs)

as_many : (qs : List (Quote ℤ)) → nat_eq (length (elements (ids_for qs))) (length qs) ≡ true
as_many [] = refl
as_many (q ∷ qs) = ground (arith, as_many qs)

post_acknowledges : Acknowledging python post (units 1)
unfolding parse_place_response bind_response rows_of
post_acknowledges qs =
    (bind_items python (units 1) qs (elements (ids_for qs)), rw (as_many qs) refl, bound_length qs)

place-IsBound_example :
    IsBound (bid "yes" ∷ bid "no" ∷ []) (place python post 1 (units 1) (bid "yes" ∷ bid "no" ∷ []))
place-IsBound_example = place-IsBound python post 1 (units 1) (bid "yes" ∷ bid "no" ∷ [])

place_acknowledged_example :
    map as_quote (place python post 1 (units 1) (bid "yes" ∷ bid "no" ∷ []))
    ≡ bid "yes" ∷ bid "no" ∷ []
place_acknowledged_example =
    place_acknowledged python post 1 (units 1) (bid "yes" ∷ bid "no" ∷ []) post_acknowledges

-- Two pages.
abbrev page : String → Json ℤ → Json ℤ
page token next = object (
    field "data"
      (array (
        element
          (object (field "token_id" (text token) (field "current_size" (text "50") none_left)))
          end))
      (field "pagination" (object (field "next_cursor" next none_left)) none_left))

abbrev fetch : Cursor ℤ → Option (Json ℤ)
fetch no_cursor = some (page "yes" (text "more"))
fetch (cursor j) = some (page "no" null)

abbrev holdings : Dict (ℤ × ℤ)
holdings = ("yes", (units 50, units 0)) ∷ ("no", (units 50, units 0)) ∷ []

positions-Listing_example :
    (positions python fetch ≡ some holdings)
    ↔ ((k : ℕ) × (k ≤ 50) × Listing python fetch k no_cursor [] holdings)
positions-Listing_example = positions-Listing python fetch holdings

abbrev bucket : TokenBucket ℤ
bucket = record { rate = units 2; capacity = units 10; tokens = units 3; last = units 0 }

abbrev after_grant : TokenBucket ℤ
after_grant = record { rate = units 2; capacity = units 10; tokens = units 1; last = units 3 }

granted : acquire (λ i. units (suc i)) (units 8) 0 4 bucket ≡ some after_grant
unfolding acquire refill nano ◌-ℤ◌ ◌+ℤ◌ mul_nano div_nano
granted = refl

acquire-IsGrant_example : IsGrant (units 8) bucket after_grant
acquire-IsGrant_example =
    acquire-IsGrant nano-IsFloat (λ i. units (suc i)) (units 8) 0 4 bucket after_grant granted
