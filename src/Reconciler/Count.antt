-- ===== src/Reconciler/Count.antt =====
-- execution/reconciler.py: the plan leaves exactly one resting order per target quote.
use polymaker.Prelude.{
  mem, Distinct, suc, ◌+◌, String, ◌≡◌, refl, inl, inr, true, false, List, [], ◌∷◌, length, arith,
  Option-cases, ==→≡, ==_refl, ==_comm,
}
use polymaker.Float.{Float}
use polymaker.Domain.{OpenOrder, Quote, TargetQuotes}
use polymaker.Reconciler.{Tolerance, reconcile_loop, reconcile, order_ids, to_cancel_of}
use polymaker.Reconciler.Match.{Elem, found, found-some, loop_nil, loop_none, loop_some}

module _ {F : Type 0} where
  pub Elem-mem :
      (o : OpenOrder F) (live : List (OpenOrder F))
      → Elem o live
      → mem o.order_id (order_ids live) ≡ true
  Elem-mem o [] e = absurd e
  Elem-mem o (x ∷ live) (inl e) = rw (e, ==_refl o.order_id)
  Elem-mem o (x ∷ live) (inr e) = ground (arith, Elem-mem o live e)

  length-to_cancel_absent :
      (x : String) (keep : List String) (live : List (OpenOrder F))
      → mem x (order_ids live) ≡ false
      → length (to_cancel_of (x ∷ keep) live) ≡ length (to_cancel_of keep live)
  length-to_cancel_absent x keep [] h = refl
  length-to_cancel_absent x keep (o ∷ live) h =
      ground (arith, ==_comm x o.order_id, length-to_cancel_absent x keep live)

  -- Keeping one more live order takes it off the list to cancel.
  length-to_cancel_keep :
      (o : OpenOrder F) (keep : List String) (live : List (OpenOrder F))
      → Elem o live
      → Distinct (order_ids live)
      → mem o.order_id keep ≡ false
      → length (to_cancel_of keep live) ≡ suc (length (to_cancel_of (o.order_id ∷ keep) live))
  length-to_cancel_keep o keep [] e d h = absurd e
  length-to_cancel_keep o keep (x ∷ live) (inl e) d h =
      rw e (ground (arith, ==_refl o.order_id, length-to_cancel_absent o.order_id keep live))
  length-to_cancel_keep o keep (x ∷ live) (inr e) d h = ground (
    arith,
    ==→≡ o.order_id x.order_id,
    Elem-mem o live e,
    length-to_cancel_keep o keep live e d.1 h,
  )

  length-to_cancel_nil : (live : List (OpenOrder F)) → length (to_cancel_of [] live) ≡ length live
  length-to_cancel_nil [] = refl
  length-to_cancel_nil (o ∷ live) = ground (arith, length-to_cancel_nil live)

module _ {F : Type 0} ⦃fl : Float F⦄ (t : Tolerance F) where
  loop_count :
      (live : List (OpenOrder F)) (keep : List String) (qs : List (Quote F))
      → Distinct (order_ids live)
      → let r = reconcile_loop t live keep qs in
        length (to_cancel_of r.0 live) + length qs ≡ length (to_cancel_of keep live) + length r.1
  loop_count live keep [] d = rw (loop_nil t live keep)
  loop_count live keep (q ∷ qs) d = elim (Option-cases (found t live keep q)) [
    | inl e ↦ rw (loop_none t live keep q qs e) (omega (arith, loop_count live keep qs d))
    | inr (o, e) ↦
        let (held, key, fresh, price, size) = found-some t live keep q o e in
        rw (loop_some t live keep q qs o e) (
          omega (
            arith,
            loop_count live (o.order_id ∷ keep) qs d,
            length-to_cancel_keep o keep live held d fresh,
          ))
  ]

  -- Live orders with distinct ids, less those the plan cancels, plus those it places, are as many as
  -- the target quotes: no quote is served twice and no live order serves two quotes.
  reconcile_count :
      (targets : TargetQuotes F) (live : List (OpenOrder F))
      → Distinct (order_ids live)
      → length (reconcile targets live t).to_cancel + length targets.quotes
        ≡ length live + length (reconcile targets live t).to_place
  unfolding reconcile
  reconcile_count targets live d =
      omega (arith, loop_count live [] targets.quotes d, length-to_cancel_nil live)
