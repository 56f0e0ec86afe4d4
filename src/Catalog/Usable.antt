-- ===== src/Catalog/Usable.antt =====
-- src/polymaker/catalog/gamma.py: what a market that parse_market returns says of the listing.
use polymaker.Prelude.{
  ◌≡◌, refl, sym, ◌∙◌, subst, ℕ, String, Bool, true, false, Bool-cases, inl, inr, Option, none,
  some, List, [], ◌∷◌, Dict, not, arith, ◌&&◌, if◌then◌else◌,
}
use polymaker.Float.{Float}
use polymaker.Domain.{ProtocolVersion, v1, v2, TokenMeta, MarketMeta}
use polymaker.Domain.Names.{parse_version}
use polymaker.Wire.{
  elements, Json, Fields, Python, get, str_of, truthy, array, text, null, boolean, number, object,
}
use polymaker.Catalog.Gamma.{
  Parsed, usable, unusable, escaped, ◌>>=◌, caught, is_decimal_id, json_list, outcome_ids,
  token_pair, meta_of, parse_market,
}

-- The field that holds the outcome ids of a version.
pub ids_field : ProtocolVersion → String
ids_field v1 = "clobTokenIds"
ids_field v2 = "positionIds"

-- A parser that yields only values of which P holds.
Yields : {A : Type 0} → (A → Type 0) → Parsed A → Type 0
Yields P (usable a) = P a
Yields P unusable = Unit
Yields P escaped = Unit

-- A chain yields what its last step yields, from the values of the steps before.
bind-Yields :
    {A B : Type 0} (P : B → Type 0) (o : Parsed A) (f : A → Parsed B)
    → ((a : A) → o ≡ usable a → Yields P (f a))
    → Yields P (o >>= f)
unfolding Yields ◌>>=◌
bind-Yields P (usable a) f h = h a refl
bind-Yields P unusable f h = tt
bind-Yields P escaped f h = tt

usable-Yields : {A : Type 0} (P : A → Type 0) (a : A) → P a → Yields P (usable a)
unfolding Yields
usable-Yields P a p = p

guard-Yields :
    {A : Type 0} (P : A → Type 0) (b : Bool) (o : Parsed A)
    → (b ≡ true → Yields P o)
    → Yields P (if not b then unusable else o)
unfolding Yields
guard-Yields P true o h = h refl
guard-Yields P false o h = tt

weaken-Yields :
    {A : Type 0} (P Q : A → Type 0) (o : Parsed A) → ((a : A) → P a → Q a) → Yields P o → Yields Q o
unfolding Yields
weaken-Yields P Q (usable a) f h = f a h
weaken-Yields P Q unusable f h = tt
weaken-Yields P Q escaped f h = tt

yielded : {A : Type 0} (P : A → Type 0) (o : Parsed A) (a : A) → Yields P o → o ≡ usable a → P a
unfolding Yields
yielded P o a y h = subst (Yields P) h y

caught_usable : {A : Type 0} (o : Option A) (a : A) → caught o ≡ usable a → o ≡ some a
caught_usable none a h = ground arith
caught_usable (some b) a h = ground arith

module _ {F : Type 0} ⦃fl : Float F⦄ (py : Python F) (loads : String → Option (Json F)) where
  outcome_ids-json_list :
      (v : ProtocolVersion) (raw : Fields F)
      → outcome_ids py loads v raw ≡ json_list py loads (get (ids_field v) raw)
  unfolding outcome_ids ids_field
  outcome_ids-json_list v1 raw = refl
  outcome_ids-json_list v2 raw =
      elim (get "positionIds" raw)
        as (λ x.
          elim x as (λ y. List (Json F)) [ array xs ↦ elements xs | w ↦ json_list py loads w ]
          ≡ json_list py loads x) [
            | null ↦ refl
            | boolean b ↦ refl
            | number x ↦ refl
            | text t ↦ refl
            | array xs ↦ refl
            | object fs ↦ refl
          ]

  -- The ids that two tokens were read from.
  record AreIds (ids : List (Json F)) (ts : TokenMeta × TokenMeta) : Type 0 where
    yes_id : Json F
    no_id : Json F
    both : ids ≡ yes_id ∷ no_id ∷ []
    yes_is : ts.0.token_id ≡ str_of py yes_id
    no_is : ts.1.token_id ≡ str_of py no_id
    decimal : (is_decimal_id ts.0.token_id && is_decimal_id ts.1.token_id) ≡ true

  token_pair-AreIds :
      (ids outcomes : List (Json F)) → Yields (AreIds ids) (token_pair py loads ids outcomes)
  unfolding Yields
  token_pair-AreIds (y ∷ n ∷ []) (a ∷ b ∷ []) =
      elim (Bool-cases (is_decimal_id (str_of py y) && is_decimal_id (str_of py n))) [
        | inl e ↦ rw e (record {
          yes_id = y;
          no_id = n;
          both = refl;
          yes_is = refl;
          no_is = refl;
          decimal = e;
        })
        | inr e ↦ rw e tt
      ]
  token_pair-AreIds [] outcomes = tt
  token_pair-AreIds (y ∷ []) outcomes = tt
  token_pair-AreIds (y ∷ n ∷ z ∷ ids) outcomes = tt
  token_pair-AreIds (y ∷ n ∷ []) [] = tt
  token_pair-AreIds (y ∷ n ∷ []) (a ∷ []) = tt
  token_pair-AreIds (y ∷ n ∷ []) (a ∷ b ∷ c ∷ outcomes) = tt

  module _ (decimals int_round : F → ℕ) (now : F) (reward_rates : Dict F) (raw : Fields F) where
    pub record IsListed (m : MarketMeta F) : Type 0 where
      pub accepts : truthy (get "acceptingOrders" raw) ≡ true
      pub its_version : parse_version py (get "version" raw) ≡ some m.version
      pub yes_id : Json F
      pub no_id : Json F
      pub ids : json_list py loads (get (ids_field m.version) raw) ≡ yes_id ∷ no_id ∷ []
      pub yes_is : m.yes_token.token_id ≡ str_of py yes_id
      pub no_is : m.no_token.token_id ≡ str_of py no_id
      pub yes_decimal : is_decimal_id m.yes_token.token_id ≡ true
      pub no_decimal : is_decimal_id m.no_token.token_id ≡ true

    Keeps : ProtocolVersion → TokenMeta × TokenMeta → MarketMeta F → Type 0
    Keeps v ts m = (m.version ≡ v) × (m.yes_token ≡ ts.0) × (m.no_token ≡ ts.1)

    meta_of-Keeps :
        (v : ProtocolVersion) (ts : TokenMeta × TokenMeta)
        → Yields (Keeps v ts) (meta_of py loads decimals int_round now reward_rates raw v ts)
    unfolding meta_of Keeps
    meta_of-Keeps v ts =
        let P = Keeps v ts in
        bind-Yields P _ _ (λ _ _. bind-Yields P _ _ (λ _ _. bind-Yields P _ _ (λ _ _.
          bind-Yields P _ _ (λ _ _. bind-Yields P _ _ (λ _ _. bind-Yields P _ _ (λ _ _.
            bind-Yields P _ _ (λ _ _. bind-Yields P _ _ (λ _ _. bind-Yields P _ _ (λ _ _.
              bind-Yields P _ _ (λ _ _. bind-Yields P _ _ (λ _ _. bind-Yields P _ _ (λ _ _.
                bind-Yields P _ _ (λ _ _.
                  bind-Yields P _ _ (λ _ _. usable-Yields P _ (refl, refl, refl)))))))))))))))

    Keeps-IsListed :
        (v : ProtocolVersion) (ts : TokenMeta × TokenMeta) (m : MarketMeta F)
        → truthy (get "acceptingOrders" raw) ≡ true
        → parse_version py (get "version" raw) ≡ some v
        → AreIds (outcome_ids py loads v raw) ts
        → Keeps v ts m
        → IsListed m
    unfolding Keeps
    Keeps-IsListed v ts m accepts version a k = record {
      accepts = accepts;
      its_version = rw k.0 version;
      yes_id = a.yes_id;
      no_id = a.no_id;
      ids = rw k.0 (sym (outcome_ids-json_list v raw) ∙ a.both);
      yes_is = rw k.1 a.yes_is;
      no_is = rw k.2 a.no_is;
      yes_decimal = rw k.1 (ground (arith, a.decimal));
      no_decimal = rw k.2 (ground (arith, a.decimal));
    }

    -- A market is taken from the listing only if it accepts orders and names a known version, and then
    -- its token ids are the two ids in that version's own field, each of them a decimal number.
    pub parse_market-IsListed :
        (m : MarketMeta F)
        → parse_market py loads decimals int_round now reward_rates raw ≡ usable m
        → IsListed m
    unfolding parse_market
    parse_market-IsListed m h =
        yielded IsListed _ m
          (guard-Yields IsListed _ _ (λ accepts. bind-Yields IsListed _ _ (λ v version.
            bind-Yields IsListed _ _ (λ ts tokens.
              weaken-Yields (Keeps v ts) IsListed _
                (λ x.
                  Keeps-IsListed v ts x accepts (caught_usable _ v version)
                    (yielded (AreIds _) _ ts (token_pair-AreIds _ _) tokens))
                (meta_of-Keeps v ts)))))
          h
