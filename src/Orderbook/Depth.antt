-- ===== src/Orderbook/Depth.antt =====
-- marketdata/orderbook.py: the depth that a view sums above the best bid.
use polymaker.Prelude.{
  is_some, ◌≡◌, refl, sym, ap, ◌∙◌, subst, inl, inr, true, ◌&&◌, some, List, [], ◌∷◌, select,
}
use polymaker.Float.{Float, IsFloat, ◌<=◌, ◌<◌, ◌≼◌, lt→not_le}
use polymaker.Domain.{Side}
use polymaker.Orderbook.{
  SortedDict, IsSortedDict, Ascending, OrderBook, BookLevel, best_bid, depth_within, last_item,
}
use polymaker.Orderbook.Touch.{some-injective, last_item_cases, last_item-All, level-some}

module _ {F : Type 0} ⦃fl : Float F⦄ (ok : IsFloat fl) where
  -- Of the levels in key order only the last is at or above the last.
  select-last_item :
      (hi : F) (ls : List (F × F)) (l : F × F)
      → last_item ls ≡ some l
      → Ascending ls
      → l.0 ≼ hi
      → select (λ m. (l.0 <= m.0) && (m.0 <= hi)) ls ≡ l ∷ []
  select-last_item hi [] l e a h = absurd (cc (ap is_some e))
  select-last_item hi (x ∷ ls) l e a h = elim (last_item_cases x ls) [
    | inl (alone, f) ↦
        let same = some-injective x l (sym f ∙ e) in
        subst (λ zs. select (λ m. (l.0 <= m.0) && (m.0 <= hi)) (x ∷ zs) ≡ l ∷ []) (sym alone)
          (subst (λ z. select (λ m. (l.0 <= m.0) && (m.0 <= hi)) (z ∷ []) ≡ l ∷ []) (sym same)
            (rw (ok.le_refl l.0, h) refl))
    | inr (m, f, g) ↦
        let same = some-injective m l (sym g ∙ e) in
        let below : (x.0 < l.0) ≡ true =
          subst (λ z. (x.0 < z.0) ≡ true) same
            (last_item-All (λ n. (x.0 < n.0) ≡ true) ls m f a.0) in
        rw (lt→not_le ok x.0 l.0 below) (select-last_item hi ls l (f ∙ ap (λ z. some z) same) a.1 h)
  ]

  -- The bid depth from the best bid up to any higher price is the size of the best bid alone: no
  -- deeper bid is counted.
  pub depth_within_touch :
      {D : Type 0} (sd : SortedDict D F) (law : IsSortedDict sd) (b : OrderBook D F)
      (l : BookLevel F) (hi : F)
      → best_bid sd b ≡ some l
      → l.price ≼ hi
      → depth_within sd Side.buy l.price hi b ≡ l.size
  unfolding best_bid depth_within
  depth_within_touch sd law b l hi e h =
      let found = level-some (last_item (sd.items b.bids)) l e in
      rw
        (select-last_item hi (sd.items b.bids) (l.price, l.size) found (law.items_Ascending b.bids)
          h)
        (ok.zero_add l.size)
