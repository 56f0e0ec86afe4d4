-- ===== src/Tests/Sorted.antt =====
-- A concrete SortedDict: a list in key order. The theorems on the order book at concrete inputs.
use polymaker.Prelude.{
  ◌≡◌, refl, inl, inr, Bool, true, ◌||◌, some, none, List, [], ◌∷◌, All, if◌then◌else◌, Bool-cases,
}
use polymaker.Prelude.Int.{ℤ}
use polymaker.Float.{Float, IsFloat, nano, nano-IsFloat, ◌<◌, ◌≼◌, lt→le, not_lt→le, le-lt_of_lt}
use polymaker.Domain.{Side}
use polymaker.Orderbook.{
  depth_within, SortedDict, IsSortedDict, Ascending, new_book, best_bid, from_levels,
  apply_snapshot, put_level, apply_delta,
}
use polymaker.Orderbook.Touch.{Update, snapshot, delta, apply_updates, apply_update}
use polymaker.Orderbook.Depth.{depth_within_touch}
use polymaker.Tests.{units, cents}

module _ {F : Type 0} ⦃fl : Float F⦄ where
  abbrev set_at : F → F → List (F × F) → List (F × F)
  set_at p s [] = (p, s) ∷ []
  set_at p s (l ∷ ls) =
      let rest = set_at p s ls in
      if p < l.0 then (p, s) ∷ l ∷ ls else if l.0 < p then l ∷ rest else (p, s) ∷ ls

  abbrev pop_at : F → List (F × F) → List (F × F)
  pop_at p [] = []
  pop_at p (l ∷ ls) = let rest = pop_at p ls in if (p < l.0) || (l.0 < p) then l ∷ rest else ls

  set_at-All :
      (P : F × F → Bool) (p s : F) (ls : List (F × F))
      → All (λ l. P l ≡ true) ls
      → P (p, s) ≡ true
      → All (λ l. P l ≡ true) (set_at p s ls)
  set_at-All P p s [] a h = (h, tt)
  set_at-All P p s (l ∷ ls) a h = elim (Bool-cases (p < l.0)) [
    | inl before ↦ rw before (h, a)
    | inr e ↦ rw e (elim (Bool-cases (l.0 < p)) [
      | inl after ↦ rw after (a.0, set_at-All P p s ls a.1 h)
      | inr same ↦ rw same (h, a.1)
    ])
  ]

  pop_at-All :
      (P : F × F → Bool) (p : F) (ls : List (F × F))
      → All (λ l. P l ≡ true) ls
      → All (λ l. P l ≡ true) (pop_at p ls)
  pop_at-All P p [] a = tt
  pop_at-All P p (l ∷ ls) a = elim (Bool-cases ((p < l.0) || (l.0 < p))) [
    | inl other ↦ rw other (a.0, pop_at-All P p ls a.1)
    | inr same ↦ rw same a.1
  ]

  module _ (ok : IsFloat fl) where
    raise :
        (x y : F) (ls : List (F × F))
        → x ≼ y
        → All (λ m. (y < m.0) ≡ true) ls
        → All (λ m. (x < m.0) ≡ true) ls
    raise x y [] h a = tt
    raise x y (l ∷ ls) h a = (le-lt_of_lt ok x y l.0 h a.0, raise x y ls h a.1)

    set_at-Ascending : (p s : F) (ls : List (F × F)) → Ascending ls → Ascending (set_at p s ls)
    set_at-Ascending p s [] a = (tt, tt)
    set_at-Ascending p s (l ∷ ls) a = elim (Bool-cases (p < l.0)) [
      | inl before ↦ rw before ((before, raise p l.0 ls (lt→le ok p l.0 before) a.0), a)
      | inr e ↦ rw e (elim (Bool-cases (l.0 < p)) [
        | inl after ↦
            rw after (set_at-All (λ m. l.0 < m.0) p s ls a.0 after, set_at-Ascending p s ls a.1)
        | inr same ↦ rw same (raise p l.0 ls (not_lt→le ok l.0 p same) a.0, a.1)
      ])
    ]

    pop_at-Ascending : (p : F) (ls : List (F × F)) → Ascending ls → Ascending (pop_at p ls)
    pop_at-Ascending p [] a = tt
    pop_at-Ascending p (l ∷ ls) a = elim (Bool-cases ((p < l.0) || (l.0 < p))) [
      | inl other ↦ rw other (pop_at-All (λ m. l.0 < m.0) p ls a.0, pop_at-Ascending p ls a.1)
      | inr same ↦ rw same a.1
    ]

abbrev pub Rows : Type 0
Rows = (ls : List (ℤ × ℤ)) × Ascending ls

pub rows : SortedDict Rows ℤ
rows = record {
  empty = ([], tt);
  set_item = λ p s d. (set_at p s d.0, set_at-Ascending nano-IsFloat p s d.0 d.1);
  pop = λ p d. (pop_at p d.0, pop_at-Ascending nano-IsFloat p d.0 d.1);
  items = λ d. d.0;
}

pub rows-IsSortedDict : IsSortedDict rows
unfolding rows
rows-IsSortedDict = record {
  items_empty = refl;
  items_Ascending = λ d. d.1;
  items_set = λ P p s d. set_at-All P p s d.0;
  items_pop = λ P p d. pop_at-All P p d.0;
}

abbrev updates : List (Update ℤ)
updates =
    snapshot ((cents 48, units 100) ∷ (cents 49, units 50) ∷ []) ((cents 51, units 30) ∷ [])
      (units 10) none (units 10)
    ∷ delta Side.buy (cents 50) (units 20) (units 11) (units 11)
    ∷ snapshot [] [] (units 5) none (units 12)
    ∷ []

bid_found :
    best_bid rows (apply_updates rows updates (new_book rows (cents 1)))
    ≡ some (record { price = cents 50; size = units 20 })
unfolding rows best_bid apply_updates apply_update apply_snapshot from_levels apply_delta put_level
    new_book nano
bid_found = refl

depth_within_touch_example :
    depth_within rows Side.buy
      (cents 50)
      (cents 53)
      (apply_updates rows updates (new_book rows (cents 1)))
    ≡ units 20
unfolding nano
depth_within_touch_example =
    depth_within_touch nano-IsFloat rows rows-IsSortedDict
      (apply_updates rows updates (new_book rows (cents 1)))
      (record { price = cents 50; size = units 20 }) (cents 53) bid_found refl
