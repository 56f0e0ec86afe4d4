-- ===== src/Reconciler/Converge/Steps.antt =====
-- What the inner loop finds in the orders that rest after a plan.
use polymaker.Prelude.{
  mem, ◌≡◌, refl, inl, inr, Bool, true, false, none, some, List, [], ◌∷◌, ◌++◌, String, select,
  arith, Bool-cases,
}
use polymaker.Float.{Float, IsFloat, num, ◌≼◌, abs_sub_self, add_nonneg, mul_nonneg, lt→le}
use polymaker.Domain.{OpenOrder, Quote}
use polymaker.Reconciler.{Tolerance, same_key, price_close, size_close, find_match, eps}
use polymaker.Reconciler.Match.{found}

-- A resting order that is exactly what the quote asks for.
pub record Fulfils {F : Type 0} (q : Quote F) (o : OpenOrder F) : Type 0 where
  pub key : same_key q o ≡ true
  pub price : o.price ≡ q.price
  pub size : o.size ≡ q.size

-- One order for each placed quote, in their order.
abbrev pub Posted : {F : Type 0} → List (Quote F) → List (OpenOrder F) → Type 0
Posted [] [] = Unit
Posted (q ∷ qs) (o ∷ os) = Fulfils q o × Posted qs os
Posted _ _ = ⊥

abbrev pub Fresh : {F : Type 0} → List (OpenOrder F) → List String → Type 0
Fresh [] keep = Unit
Fresh (o ∷ os) keep = (mem o.order_id keep ≡ false) × Fresh os keep

abbrev pub Agree : {F : Type 0} → List (OpenOrder F) → List String → List String → Type 0
Agree [] k l = Unit
Agree (o ∷ os) k l = (mem o.order_id l ≡ mem o.order_id k) × Agree os k l

abbrev pub Kept : {F : Type 0} → List (OpenOrder F) → List String → Type 0
Kept [] keep = Unit
Kept (o ∷ os) keep = (mem o.order_id keep ≡ true) × Kept os keep

module _ {F : Type 0} ⦃fl : Float F⦄ (t : Tolerance F) where
  pub found-append_none :
      (keep : List String) (q : Quote F) (xs ys : List (OpenOrder F))
      → found t xs keep q ≡ none
      → found t (xs ++ ys) keep q ≡ found t ys keep q
  unfolding find_match
  found-append_none keep q [] ys h = refl
  found-append_none keep q (x ∷ xs) ys h = ground (arith, found-append_none keep q xs ys)

  pub found-append_some :
      (keep : List String) (q : Quote F) (xs ys : List (OpenOrder F)) (o : OpenOrder F)
      → found t xs keep q ≡ some o
      → found t (xs ++ ys) keep q ≡ some o
  unfolding find_match
  found-append_some keep q [] ys o h = cc
  found-append_some keep q (x ∷ xs) ys o h = ground (arith, found-append_some keep q xs ys o)

  pub found-Kept :
      (keep : List String) (q : Quote F) (xs : List (OpenOrder F))
      → Kept xs keep
      → found t xs keep q ≡ none
  unfolding find_match
  found-Kept keep q [] h = refl
  found-Kept keep q (x ∷ xs) h = ground (arith, found-Kept keep q xs)

  pub found-select-none :
      (p : OpenOrder F → Bool) (k l : List String) (q : Quote F) (xs : List (OpenOrder F))
      → Agree xs k l
      → found t xs k q ≡ none
      → found t (select p xs) l q ≡ none
  unfolding find_match
  found-select-none p k l q [] a h = refl
  found-select-none p k l q (x ∷ xs) a h = ground (arith, found-select-none p k l q xs)

  pub found-select-some :
      (p : OpenOrder F → Bool) (k l : List String) (q : Quote F) (xs : List (OpenOrder F))
      (o : OpenOrder F)
      → Agree xs k l
      → p o ≡ true
      → found t xs k q ≡ some o
      → found t (select p xs) l q ≡ some o
  unfolding find_match
  found-select-some p k l q [] o a ho h = cc
  found-select-some p k l q (x ∷ xs) o a ho h = ground (arith, found-select-some p k l q xs o)

  module _ (ok : IsFloat fl) (tick_nonneg : num 0 ≼ t.tick)
      (frac_nonneg : num 0 ≼ t.resize_frac) where
    pub Fulfils-close :
        (q : Quote F) (o : OpenOrder F)
        → Fulfils q o
        → (price_close t q o ≡ true) × (size_close t q o ≡ true)
    unfolding price_close size_close
    Fulfils-close q o f = (
      rw (f.price, abs_sub_self ok q.price)
          (add_nonneg ok _ eps (mul_nonneg ok _ t.tick (ok.lit_nonneg _ 0) tick_nonneg)
            (ok.lit_nonneg 1 9)),
      rw (f.size, abs_sub_self ok q.size)
          (elim (Bool-cases (fl.le q.size (num 0))) [
            | inl small ↦ rw small
            | inr large ↦
                rw
                  (add_nonneg ok _ eps
                    (mul_nonneg ok _ q.size frac_nonneg
                      (lt→le ok (num 0) q.size (ground (arith, ok.lt-not-le (num 0) q.size))))
                    (ok.lit_nonneg 1 9))
                  (ground arith)
          ]),
    )

    pub found-Fulfils :
        (keep : List String) (q : Quote F) (o : OpenOrder F) (os : List (OpenOrder F))
        → Fulfils q o
        → mem o.order_id keep ≡ false
        → found t (o ∷ os) keep q ≡ some o
    unfolding find_match
    found-Fulfils keep q o os f h = ground (arith, f.key, Fulfils-close q o f)
