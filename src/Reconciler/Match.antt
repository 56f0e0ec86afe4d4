-- ===== src/Reconciler/Match.antt =====
-- execution/reconciler.py: what the inner loop finds, and what the final plan says of each quote.
use polymaker.Prelude.{
  mem, sym, subst, none, Option, String, ◌≡◌, refl, ◌⊎◌, inl, inr, Bool, true, false, some, List,
  [], ◌∷◌, ◌==◌, select, All, arith, Bool-cases, Option-cases, ==→≡, ==_refl,
}
use polymaker.Float.{Float}
use polymaker.Domain.{OpenOrder, Quote, TargetQuotes}
use polymaker.Reconciler.{
  Tolerance, ReconcilePlan, same_key, price_close, size_close, find_match, reconcile_loop,
  reconcile, to_cancel_of,
}

-- `a` stands in the list.
abbrev pub Elem : {A : Type 0} → A → List A → Type 0
Elem a [] = ⊥
Elem a (x ∷ xs) = (x ≡ a) ⊎ Elem a xs

pub Elem-select :
    {A : Type 0} (p : A → Bool) (a : A) (xs : List A)
    → Elem a (select p xs)
    → Elem a xs × (p a ≡ true)
Elem-select p a [] e = absurd e
Elem-select p a (x ∷ xs) e = ground (arith, Elem-select p a xs)

module _ {F : Type 0} where
  pub mem-to_cancel :
      (keep : List String) (live : List (OpenOrder F)) (x : String)
      → mem x keep ≡ true
      → mem x (to_cancel_of keep live) ≡ false
  mem-to_cancel keep [] x h = refl
  mem-to_cancel keep (o ∷ live) x h = elim (Bool-cases (o.order_id == x)) [
    | inl e ↦ rw (==→≡ _ _ e, h) (mem-to_cancel keep live x h)
    | inr e ↦ ground (arith, mem-to_cancel keep live x h)
  ]

module _ {F : Type 0} ⦃fl : Float F⦄ (t : Tolerance F) where
  pub find_match-some :
      (keep : List String) (q : Quote F) (os : List (OpenOrder F)) (o : OpenOrder F)
      → find_match t keep q os ≡ some o
      → Elem o os
        × (mem o.order_id keep ≡ false)
        × (price_close t q o ≡ true)
        × (size_close t q o ≡ true)
  unfolding find_match
  find_match-some keep q [] o e = cc
  find_match-some keep q (x ∷ os) o e = ground (arith, find_match-some keep q os o)

  abbrev pub found : List (OpenOrder F) → List String → Quote F → Option (OpenOrder F)
  found live keep q = find_match t keep q (select (same_key q) live)

  pub loop_none :
      (live : List (OpenOrder F)) (keep : List String) (q : Quote F) (qs : List (Quote F))
      → found live keep q ≡ none
      → reconcile_loop t live keep (q ∷ qs)
        ≡ ((reconcile_loop t live keep qs).0, q ∷ (reconcile_loop t live keep qs).1)
  unfolding reconcile_loop
  loop_none live keep q qs e = rw (e, reconcile_loop)

  pub loop_some :
      (live : List (OpenOrder F)) (keep : List String) (q : Quote F) (qs : List (Quote F))
      (o : OpenOrder F)
      → found live keep q ≡ some o
      → reconcile_loop t live keep (q ∷ qs) ≡ reconcile_loop t live (o.order_id ∷ keep) qs
  unfolding reconcile_loop
  loop_some live keep q qs o e = rw (e, reconcile_loop)

  pub loop_nil :
      (live : List (OpenOrder F)) (keep : List String) → reconcile_loop t live keep [] ≡ (keep, [])
  unfolding reconcile_loop
  loop_nil live keep = refl

  -- A match is a live order of the quote's token and side, not kept yet, within both tolerances.
  pub found-some :
      (live : List (OpenOrder F)) (keep : List String) (q : Quote F) (o : OpenOrder F)
      → found live keep q ≡ some o
      → Elem o live
        × (same_key q o ≡ true)
        × (mem o.order_id keep ≡ false)
        × (price_close t q o ≡ true)
        × (size_close t q o ≡ true)
  found-some live keep q o e =
      let (held, fresh, price, size) = find_match-some keep q (select (same_key q) live) o e in
      let (held', key) = Elem-select (same_key q) o live held in (held', key, fresh, price, size)

  -- `keep` only grows.
  pub reconcile_loop-keeps :
      (live : List (OpenOrder F)) (keep : List String) (qs : List (Quote F)) (x : String)
      → mem x keep ≡ true
      → mem x (reconcile_loop t live keep qs).0 ≡ true
  reconcile_loop-keeps live keep [] x h = rw (loop_nil live keep) h
  reconcile_loop-keeps live keep (q ∷ qs) x h = elim (Option-cases (found live keep q)) [
    | inl e ↦ rw (loop_none live keep q qs e) (reconcile_loop-keeps live keep qs x h)
    | inr (o, e) ↦
        rw (loop_some live keep q qs o e)
          (reconcile_loop-keeps live (o.order_id ∷ keep) qs x (ground arith))
  ]

  -- A quote is served by a plan: it is placed, or a live order of its token and side within both
  -- tolerances is left alone.
  abbrev pub Served : ReconcilePlan F → List (OpenOrder F) → Quote F → Type 0
  Served plan live q =
      Elem q plan.to_place
      ⊎ ((o : OpenOrder F) × Elem o live
          × (same_key q o ≡ true)
          × (price_close t q o ≡ true)
          × (size_close t q o ≡ true)
          × (mem o.order_id plan.to_cancel ≡ false))

  abbrev plan_of : List (OpenOrder F) → List String × List (Quote F) → ReconcilePlan F
  plan_of live r = record { to_cancel = to_cancel_of r.0 live; to_place = r.1 }

  Served-place :
      (live : List (OpenOrder F)) (cancel : List String) (placed : List (Quote F)) (q new : Quote F)
      → Served (record { to_cancel = cancel; to_place = placed }) live q
      → Served (record { to_cancel = cancel; to_place = new ∷ placed }) live q
  Served-place live cancel placed q new (inl e) = inl (inr e)
  Served-place live cancel placed q new (inr o) = inr o

  All-Served-place :
      (live : List (OpenOrder F)) (cancel : List String) (placed qs : List (Quote F))
      (new : Quote F)
      → All (Served (record { to_cancel = cancel; to_place = placed }) live) qs
      → All (Served (record { to_cancel = cancel; to_place = new ∷ placed }) live) qs
  All-Served-place live cancel placed [] new a = tt
  All-Served-place live cancel placed (q ∷ qs) new a =
      (Served-place live cancel placed q new a.0, All-Served-place live cancel placed qs new a.1)

  loop-Served :
      (live : List (OpenOrder F)) (keep : List String) (qs : List (Quote F))
      → All (Served (plan_of live (reconcile_loop t live keep qs)) live) qs
  loop-Served live keep [] = tt
  loop-Served live keep (q ∷ qs) = elim (Option-cases (found live keep q)) [
    | inl e ↦
        subst (λ r. All (Served (plan_of live r) live) (q ∷ qs)) (sym (loop_none live keep q qs e))
          (inl (inl refl), All-Served-place live _ _ qs q (loop-Served live keep qs))
    | inr (o, e) ↦
        let (held, key, fresh, price, size) = found-some live keep q o e in
        let kept =
          reconcile_loop-keeps live (o.order_id ∷ keep) qs o.order_id
            (ground (arith, ==_refl o.order_id)) in
        subst (λ r. All (Served (plan_of live r) live) (q ∷ qs))
          (sym (loop_some live keep q qs o e))
          (
            inr (o, held, key, price, size, mem-to_cancel _ live o.order_id kept),
            loop-Served live (o.order_id ∷ keep) qs,
          )
  ]

  -- Every target quote is either placed or already served by a live order of the same token and side,
  -- within the price and the size tolerance, that the plan does not cancel.
  pub reconcile-Served :
      (targets : TargetQuotes F) (live : List (OpenOrder F))
      → All (Served (reconcile targets live t) live) targets.quotes
  unfolding reconcile
  reconcile-Served targets live = loop-Served live [] targets.quotes
