-- ===== src/Orderbook/Touch.antt =====
-- marketdata/orderbook.py: the best prices of a book after any sequence of updates.
use polymaker.Prelude.{
  String, ◌≡◌, refl, sym, ◌∙◌, ◌⊎◌, subst, ap, inl, inr, true, ◌&&◌, Option, none, some, List, [],
  ◌∷◌, All, Bool-cases, is_some,
}
use polymaker.Float.{Float, IsFloat, num, ◌<◌, ◌<=◌, ◌≼◌, lt→le, not_le→lt}
use polymaker.Domain.{Side, buy, same_side}
use polymaker.Orderbook.{
  SortedDict, IsSortedDict, Ascending, OrderBook, BookLevel, new_book, from_levels, apply_snapshot,
  put_level, apply_delta, best_bid, best_ask, last_item, first_item, level,
}

-- One message of the market stream.
pub data Update (F : Type 0) : Type 0 where
  snapshot : List (F × F) → List (F × F) → F → Option String → F → Update F
  delta : Side → F → F → F → F → Update F

module _ {F : Type 0} ⦃fl : Float F⦄ where
  pub some-injective : (x y : F × F) → some x ≡ some y → x ≡ y
  some-injective x y h = cc h

  last_item-cons :
      (x m : F × F) (ls : List (F × F)) → last_item ls ≡ some m → last_item (x ∷ ls) ≡ some m
  last_item-cons x m ls e = rw (e, last_item) refl

  -- The last of a list is its only item, or the last of its tail.
  pub last_item_cases :
      (x : F × F) (ls : List (F × F))
      → ((ls ≡ []) × (last_item (x ∷ ls) ≡ some x))
        ⊎ ((m : F × F) × (last_item ls ≡ some m) × (last_item (x ∷ ls) ≡ some m))
  last_item_cases x [] = inl (refl, refl)
  last_item_cases x (y ∷ ys) = elim (last_item_cases y ys) [
    | inl (none_left, e) ↦ inr (y, e, last_item-cons x y (y ∷ ys) e)
    | inr (m, e, f) ↦ inr (m, f, last_item-cons x m (y ∷ ys) f)
  ]

  pub last_item-All :
      (P : F × F → Type 0) (ls : List (F × F)) (l : F × F) → last_item ls ≡ some l → All P ls → P l
  last_item-All P [] l e a = absurd (cc (ap is_some e))
  last_item-All P (x ∷ ls) l e a = elim (last_item_cases x ls) [
    | inl (none_left, f) ↦ subst P (some-injective x l (sym f ∙ e)) a.0
    | inr (m, f, g) ↦ subst P (some-injective m l (sym g ∙ e)) (last_item-All P ls m f a.1)
  ]

  Below_weaken :
      (ok : IsFloat fl) (x y : F) (ls : List (F × F))
      → x ≼ y
      → All (λ m. (y < m.0) ≡ true) ls
      → All (λ m. x ≼ m.0) ls
  Below_weaken ok x y [] h a = tt
  Below_weaken ok x y (l ∷ ls) h a =
      (ok.le_trans x y l.0 h (lt→le ok y l.0 a.0), Below_weaken ok x y ls h a.1)

  last_item-highest :
      (ok : IsFloat fl) (ls : List (F × F)) (l : F × F)
      → last_item ls ≡ some l
      → Ascending ls
      → All (λ m. m.0 ≼ l.0) ls
  last_item-highest ok [] l e a = tt
  last_item-highest ok (x ∷ ls) l e a = elim (last_item_cases x ls) [
    | inl (none_left, f) ↦
        subst (λ z. All (λ m. m.0 ≼ z.0) (x ∷ ls)) (some-injective x l (sym f ∙ e))
          (ok.le_refl x.0, subst (λ zs. All (λ m. m.0 ≼ x.0) zs) (sym none_left) tt)
    | inr (m, f, g) ↦
        subst (λ z. All (λ m. m.0 ≼ z.0) (x ∷ ls)) (some-injective m l (sym g ∙ e))
          (
            lt→le ok x.0 m.0 (last_item-All (λ n. (x.0 < n.0) ≡ true) ls m f a.0),
            last_item-highest ok ls m f a.1,
          )
  ]

  first_item-lowest :
      (ok : IsFloat fl) (ls : List (F × F)) (l : F × F)
      → first_item ls ≡ some l
      → Ascending ls
      → All (λ m. l.0 ≼ m.0) ls
  first_item-lowest ok [] l e a = tt
  first_item-lowest ok (x ∷ ls) l e a =
      subst (λ z. All (λ m. z.0 ≼ m.0) (x ∷ ls)) (some-injective x l e)
        (ok.le_refl x.0, Below_weaken ok x.0 x.0 ls (ok.le_refl x.0) a.0)

  pub level-some :
      (o : Option (F × F)) (b : BookLevel F) → level o ≡ some b → o ≡ some (b.price, b.size)
  level-some none b h = absurd (cc (ap is_some h))
  level-some (some l) b h = cc h

  -- What a best bid is to say of the levels: there are none, or it has a size and none is priced above it.
  pub IsHighest : Option (BookLevel F) → List (F × F) → Type 0
  IsHighest none ls = ls ≡ []
  IsHighest (some l) ls = ((num 0 < l.size) ≡ true) × All (λ m. m.0 ≼ l.price) ls

  -- What a best ask is to say of the levels: there are none, or it has a size and none is priced below it.
  pub IsLowest : Option (BookLevel F) → List (F × F) → Type 0
  IsLowest none ls = ls ≡ []
  IsLowest (some l) ls = ((num 0 < l.size) ≡ true) × All (λ m. l.price ≼ m.0) ls

  last_item-IsHighest :
      (ok : IsFloat fl) (ls : List (F × F))
      → All (λ m. (num 0 < m.1) ≡ true) ls
      → Ascending ls
      → IsHighest (level (last_item ls)) ls
  unfolding IsHighest
  last_item-IsHighest ok [] p a = refl
  last_item-IsHighest ok (x ∷ ls) p a = elim (last_item_cases x ls) [
    | inl (alone, f) ↦ rw f (p.0, last_item-highest ok (x ∷ ls) x f a)
    | inr (m, f, g) ↦ rw g (
      last_item-All (λ n. (num 0 < n.1) ≡ true) (x ∷ ls) m g p,
      last_item-highest ok (x ∷ ls) m g a,
    )
  ]

  first_item-IsLowest :
      (ok : IsFloat fl) (ls : List (F × F))
      → All (λ m. (num 0 < m.1) ≡ true) ls
      → Ascending ls
      → IsLowest (level (first_item ls)) ls
  unfolding IsLowest
  first_item-IsLowest ok [] p a = refl
  first_item-IsLowest ok (x ∷ ls) p a = (p.0, first_item-lowest ok (x ∷ ls) x refl a)

module _ {D F : Type 0} ⦃fl : Float F⦄ (sd : SortedDict D F) where
  unfoldable pub apply_update : Update F → OrderBook D F → OrderBook D F
  apply_update (snapshot bids asks ts hash local) b = apply_snapshot sd bids asks ts hash local b
  apply_update (delta side price size ts local) b = apply_delta sd side price size ts local b

  unfoldable pub apply_updates : List (Update F) → OrderBook D F → OrderBook D F
  apply_updates [] b = b
  apply_updates (u ∷ us) b = apply_updates us (apply_update u b)

  -- Every level of a side has a size.
  abbrev pub Sized : D → Type 0
  Sized d = All (λ l. (num 0 < l.1) ≡ true) (sd.items d)

  module _ (ok : IsFloat fl) (law : IsSortedDict sd) where
    empty-Sized : Sized sd.empty
    empty-Sized = subst (λ ls. All (λ l. (num 0 < l.1) ≡ true) ls) (sym law.items_empty) tt

    from_levels-Sized : (ls : List (F × F)) (d : D) → Sized d → Sized (from_levels sd ls d)
    unfolding from_levels
    from_levels-Sized [] d h = h
    from_levels-Sized (l ∷ ls) d h = elim (Bool-cases (num 0 < l.1)) [
      | inl full ↦ rw full (
          from_levels-Sized ls (sd.set_item l.0 l.1 d)
            (law.items_set (λ m. num 0 < m.1) l.0 l.1 d h full))
      | inr bare ↦ rw bare (from_levels-Sized ls d h)
    ]

    put_level-Sized : (p s : F) (d : D) → Sized d → Sized (put_level sd p s d)
    unfolding put_level
    put_level-Sized p s d h = elim (Bool-cases (s <= num 0)) [
      | inl gone ↦ rw gone (law.items_pop (λ m. num 0 < m.1) p d h)
      | inr full ↦ rw full (law.items_set (λ m. num 0 < m.1) p s d h (not_le→lt ok (num 0) s full))
    ]

    pub apply_update-Sized :
        (u : Update F) (b : OrderBook D F)
        → Sized b.bids × Sized b.asks
        → Sized (apply_update u b).bids × Sized (apply_update u b).asks
    unfolding apply_update apply_snapshot apply_delta
    apply_update-Sized (snapshot bids asks ts hash local) b h =
        elim (Bool-cases
          ((num 0 < ts) && ((num 0 < b.last_update_ts) && (ts < b.last_update_ts)))) [
            | inl stale ↦ rw stale h
            | inr fresh ↦ rw fresh (
              from_levels-Sized bids sd.empty empty-Sized,
              from_levels-Sized asks sd.empty empty-Sized,
            )
          ]
    apply_update-Sized (delta side price size ts local) b h =
        elim (Bool-cases (same_side side buy)) [
          | inl bid ↦ rw bid (put_level-Sized price size b.bids h.0, h.1)
          | inr ask ↦ rw ask (h.0, put_level-Sized price size b.asks h.1)
        ]

    apply_updates-Sized :
        (us : List (Update F)) (b : OrderBook D F)
        → Sized b.bids × Sized b.asks
        → Sized (apply_updates us b).bids × Sized (apply_updates us b).asks
    unfolding apply_updates
    apply_updates-Sized [] b h = h
    apply_updates-Sized (u ∷ us) b h =
        apply_updates-Sized us (apply_update u b) (apply_update-Sized u b h)

    pub new_book-Sized : (tick : F) → Sized (new_book sd tick).bids × Sized (new_book sd tick).asks
    unfolding new_book
    new_book-Sized tick = (empty-Sized, empty-Sized)

    pub best_bid-IsHighest :
        (b : OrderBook D F) → Sized b.bids → IsHighest (best_bid sd b) (sd.items b.bids)
    unfolding best_bid
    best_bid-IsHighest b h = last_item-IsHighest ok (sd.items b.bids) h (law.items_Ascending b.bids)

    pub best_ask-IsLowest :
        (b : OrderBook D F) → Sized b.asks → IsLowest (best_ask sd b) (sd.items b.asks)
    unfolding best_ask
    best_ask-IsLowest b h = first_item-IsLowest ok (sd.items b.asks) h (law.items_Ascending b.asks)

    -- After any sequence of snapshots and deltas, stale ones included, the best bid has a positive
    -- size and no bid is priced above it.
    best_bid_highest :
        (tick : F) (us : List (Update F)) (l : BookLevel F)
        → best_bid sd (apply_updates us (new_book sd tick)) ≡ some l
        → ((num 0 < l.size) ≡ true)
          × All (λ m. m.0 ≼ l.price) (sd.items (apply_updates us (new_book sd tick)).bids)
    unfolding best_bid
    best_bid_highest tick us l h =
        let b = apply_updates us (new_book sd tick) in
        let e = level-some (last_item (sd.items b.bids)) l h in
        let sized = (apply_updates-Sized us (new_book sd tick) (new_book-Sized tick)).0 in
        (
          last_item-All (λ m. (num 0 < m.1) ≡ true) (sd.items b.bids) (l.price, l.size) e sized,
          last_item-highest ok (sd.items b.bids) (l.price, l.size) e (law.items_Ascending b.bids),
        )

    -- After any sequence of snapshots and deltas, stale ones included, no ask is priced below the
    -- best ask.
    best_ask_lowest :
        (tick : F) (us : List (Update F)) (l : BookLevel F)
        → best_ask sd (apply_updates us (new_book sd tick)) ≡ some l
        → All (λ m. l.price ≼ m.0) (sd.items (apply_updates us (new_book sd tick)).asks)
    unfolding best_ask
    best_ask_lowest tick us l h =
        let b = apply_updates us (new_book sd tick) in
        first_item-lowest ok (sd.items b.asks) (l.price, l.size)
          (level-some (first_item (sd.items b.asks)) l h) (law.items_Ascending b.asks)
