-- ===== src/Gateway/Binding.antt =====
-- src/polymaker/execution/gateway.py: an acknowledged batch is bound to its quotes.
use polymaker.Prelude.{
  if◌then◌else◌, ◌-◌ as sub_nat, ◌>>=◌, ℕ, zero, suc, ◌≤◌, ◌≡◌, refl, ◌∙◌, ap, subst, inl, inr,
  Option, none, some, List, [], ◌∷◌, ◌++◌, map, length, length-append, take, drop, or_else, nat_eq,
  Bool-cases, Option-cases, arith,
}
use polymaker.Float.{Float}
use polymaker.Domain.{OpenOrder, Quote}
use polymaker.Wire.{Json, Python, null, boolean, number, text, array, object}
use polymaker.Gateway.{first, rows_of}
use polymaker.Gateway.Orders.{
  bind_items, bind_response, parse_place_response, place_chunks, place, id_keys,
}

module _ {F : Type 0} where
  -- The quote that an order was placed for.
  abbrev pub as_quote : OpenOrder F → Quote F
  as_quote o = record { token_id = o.token_id; side = o.side; price = o.price; size = o.size }

  -- At most one order for each quote, and if there are as many, each stands for its quote.
  pub record IsBound (quotes : List (Quote F)) (out : List (OpenOrder F)) : Type 0 where
    pub at_most : length out ≤ length quotes
    pub in_step : length out ≡ length quotes → map as_quote out ≡ quotes

  nothing-IsBound : (quotes : List (Quote F)) → IsBound quotes []
  nothing-IsBound [] = record { at_most = omega arith; in_step = λ h. refl }
  nothing-IsBound (q ∷ qs) = record { at_most = omega arith; in_step = λ h. ground arith }

  map-append :
      (xs ys : List (OpenOrder F)) → map as_quote (xs ++ ys) ≡ map as_quote xs ++ map as_quote ys
  map-append [] ys = refl
  map-append (x ∷ xs) ys = ap (λ qs. as_quote x ∷ qs) (map-append xs ys)

  take-drop : (n : ℕ) (qs : List (Quote F)) → take n qs ++ drop n qs ≡ qs
  take-drop zero qs = refl
  take-drop (suc n) [] = refl
  take-drop (suc n) (q ∷ qs) = ap (λ rs. q ∷ rs) (take-drop n qs)

  append-IsBound :
      (qs rs : List (Quote F)) (xs ys : List (OpenOrder F))
      → IsBound qs xs
      → IsBound rs ys
      → IsBound (qs ++ rs) (xs ++ ys)
  append-IsBound qs rs xs ys b c = record {
    at_most = omega (arith, length-append qs rs, length-append xs ys, b.at_most, c.at_most);
    in_step = λ h.
        map-append xs ys
        ∙ ap (λ zs. zs ++ map as_quote ys)
            (b.in_step
              (omega (arith, length-append qs rs, length-append xs ys, b.at_most, c.at_most, h)))
        ∙ ap (λ zs. qs ++ zs)
            (c.in_step
              (omega (arith, length-append qs rs, length-append xs ys, b.at_most, c.at_most, h)));
  }

  length-drop : (n : ℕ) (qs : List (Quote F)) → 1 ≤ n → length (drop n qs) ≤ sub_nat (length qs) 1
  length-drop zero qs b = ground arith
  length-drop (suc n) [] b = omega arith
  length-drop (suc zero) (q ∷ qs) b = omega arith
  length-drop (suc (suc n)) (q ∷ qs) b = omega (arith, length-drop (suc n) qs (omega arith))

  chained :
      {R : Type 0} (r : Option R) (g : R → Option (List (OpenOrder F)))
      (later : Option (List (OpenOrder F))) (placed orders : List (OpenOrder F))
      → (r >>= g) ≡ some placed
      → later ≡ some orders
      → (r >>= (λ x. g x >>= (λ p. later >>= (λ o. some (p ++ o))))) ≡ some (placed ++ orders)
  chained none g later placed orders e f = ground arith
  chained (some x) g later placed orders e f = rw (e, f) refl

  -- A chunk and the chunks after it; a later chunk that raises leaves nothing.
  joined :
      (rs qs : List (Quote F)) (placed : List (OpenOrder F)) (later : Option (List (OpenOrder F)))
      → IsBound qs placed
      → IsBound rs (or_else [] later)
      → IsBound (qs ++ rs) (or_else [] (later >>= (λ orders. some (placed ++ orders))))
  joined rs qs placed none b c = nothing-IsBound (qs ++ rs)
  joined rs qs placed (some orders) b c = append-IsBound qs rs placed orders b c

module _ {F : Type 0} ⦃fl : Float F⦄ (py : Python F) where
  bind_items-IsBound :
      (now : F) (qs : List (Quote F)) (items : List (Json F))
      → IsBound qs (bind_items py now qs items)
  unfolding bind_items
  bind_items-IsBound now [] items = nothing-IsBound []
  bind_items-IsBound now (q ∷ qs) [] = nothing-IsBound (q ∷ qs)
  bind_items-IsBound now (q ∷ qs) (x ∷ items) =
      let rest = bind_items-IsBound now qs items in
      elim (Option-cases (first x id_keys)) [
        | inl e ↦
            rw (e, bind_items)
              (record {
                at_most = omega (arith, rest.at_most);
                in_step = λ h. ground (arith, rest.at_most, h);
              })
        | inr (id, e) ↦
            rw (e, bind_items)
              (record {
                at_most = omega (arith, rest.at_most);
                in_step = λ h. ap (λ zs. q ∷ zs) (rest.in_step (omega (arith, h)));
              })
      ]

  bind_response-IsBound :
      (now : F) (resp : Json F) (qs : List (Quote F)) → IsBound qs (bind_response py now resp qs)
  unfolding bind_response
  bind_response-IsBound now resp qs = elim (Option-cases (rows_of "orders" "data" resp)) [
    | inl e ↦ rw (e, bind_response) (nothing-IsBound qs)
    | inr (items, e) ↦
        rw (e, bind_response)
          (elim (Bool-cases (nat_eq (length items) (length qs))) [
            | inl f ↦ rw f (bind_items-IsBound now qs items)
            | inr f ↦ rw f (nothing-IsBound qs)
          ])
  ]

  parsed-IsBound :
      (now : F) (resp : Json F) (qs : List (Quote F)) (out : List (OpenOrder F))
      → parse_place_response py now resp qs ≡ some out
      → IsBound qs out
  unfolding parse_place_response
  parsed-IsBound now (array xs) qs out h =
      subst (IsBound qs) (ap (or_else []) h) (bind_response-IsBound now (array xs) qs)
  parsed-IsBound now (object d) qs out h =
      subst (IsBound qs) (ap (or_else []) h) (bind_response-IsBound now (object d) qs)
  parsed-IsBound now null qs out h = ground arith
  parsed-IsBound now (boolean b) qs out h = ground arith
  parsed-IsBound now (number x) qs out h = ground arith
  parsed-IsBound now (text s) qs out h = ground arith

  -- The exchange acknowledges every quote of any batch.
  abbrev pub Acknowledging : (List (Quote F) → Option (Json F)) → F → Type 0
  Acknowledging post now =
      (qs : List (Quote F))
      → (out : List (OpenOrder F)) × ((post qs >>= (λ resp. parse_place_response py now resp qs))
          ≡ some out)
        × (length out ≡ length qs)

  module _ (post : List (Quote F) → Option (Json F)) (cap : ℕ) (now : F) where
    chunks-IsBound :
        (fuel : ℕ) (qs : List (Quote F))
        → IsBound qs (or_else [] (place_chunks py post cap now fuel qs))
    unfolding place_chunks
    chunks-IsBound fuel [] = nothing-IsBound []
    chunks-IsBound zero (q ∷ qs) = nothing-IsBound (q ∷ qs)
    chunks-IsBound (suc fuel) (q ∷ qs) =
        let chunk = take cap (q ∷ qs) in
        let later = place_chunks py post cap now fuel (drop cap (q ∷ qs)) in
        let none_bound = nothing-IsBound (q ∷ qs) in
        elim (Option-cases (post chunk)) [
          | inl e ↦ rw e none_bound
          | inr (resp, e) ↦ rw e (elim (Option-cases (parse_place_response py now resp chunk)) [
            | inl f ↦ rw f none_bound
            | inr (placed, f) ↦ rw f (
                subst
                  (λ rs. IsBound rs (or_else [] (later >>= (λ orders. some (placed ++ orders)))))
                  (take-drop cap (q ∷ qs))
                  (joined (drop cap (q ∷ qs)) chunk placed later
                    (parsed-IsBound now resp chunk placed f)
                    (chunks-IsBound fuel (drop cap (q ∷ qs)))))
          ])
        ]

    chunks_complete :
        Acknowledging post now
        → 1 ≤ cap
        → (fuel : ℕ) (qs : List (Quote F)) → length qs ≤ fuel
        → (out : List (OpenOrder F)) × (place_chunks py post cap now fuel qs ≡ some out)
          × (length out ≡ length qs)
    unfolding place_chunks
    chunks_complete ack c fuel [] b = ([], refl, refl)
    chunks_complete ack c zero (q ∷ qs) b = ground arith
    chunks_complete ack c (suc fuel) (q ∷ qs) b =
        let (placed, e, l) = ack (take cap (q ∷ qs)) in
        let (orders, f, m) =
          chunks_complete ack c fuel (drop cap (q ∷ qs))
            (omega (arith, length-drop cap (q ∷ qs), c, b)) in
        (
          placed ++ orders,
          chained (post (take cap (q ∷ qs)))
              (λ resp. parse_place_response py now resp (take cap (q ∷ qs)))
              (place_chunks py post cap now fuel (drop cap (q ∷ qs))) placed orders e f,
          omega (
            arith,
            length-append placed orders,
            ap length (take-drop cap (q ∷ qs)),
            length-append (take cap (q ∷ qs)) (drop cap (q ∷ qs)),
            l,
            m,
          ),
        )

  -- Whatever the exchange answers and in whatever batches the quotes go out, at most one order is
  -- tracked for each quote; and when as many orders are tracked as quotes were sent, which is the
  -- engine's test for a complete batch, the orders carry exactly the tokens, sides, prices and sizes
  -- of the quotes, in their order.
  pub place-IsBound :
      (post : List (Quote F) → Option (Json F)) (batch : ℕ) (now : F) (quotes : List (Quote F))
      → IsBound quotes (place py post batch now quotes)
  unfolding place
  place-IsBound post batch now quotes = chunks-IsBound post _ now (length quotes) quotes

  -- If the exchange acknowledges every quote of any batch, then a call with any batch limit, 0
  -- included, places all its quotes, each tracked as an order for it: no quote is left out where the
  -- batches are cut.
  pub place_acknowledged :
      (post : List (Quote F) → Option (Json F)) (batch : ℕ) (now : F) (quotes : List (Quote F))
      → Acknowledging post now
      → map as_quote (place py post batch now quotes) ≡ quotes
  unfolding place
  place_acknowledged post batch now quotes ack =
      let cap = if nat_eq batch 0 then 1 else batch in
      let (out, e, l) =
        chunks_complete post cap now ack (ground arith) (length quotes) quotes (omega arith) in
      (place-IsBound post batch now quotes).in_step (rw (ap (or_else []) e) l)
