-- ===== src/Reconciler/Converge.antt =====
-- execution/reconciler.py: once a plan is carried out, the next diff against the same targets has
-- nothing to do. Carrying it out is what the engine does: the cancelled orders are removed and one
-- order is added for each quote that was placed.
pub mod Steps
use polymaker.Prelude.{
  Distinct, mem, ==→≡, ==_comm, ◌≡◌, refl, sym, ◌∙◌, ap, subst, inl, inr, Bool, true, false, not,
  ◌&&◌, ◌||◌, Option, none, some, List, [], ◌∷◌, ◌++◌, String, ◌==◌, select, All, arith, Bool-cases,
  Option-cases, ==_refl,
}
use mathlib.Core.List.{append_assoc}
use polymaker.Float.{Float, IsFloat, num, ◌≼◌}
use polymaker.Domain.{OpenOrder, Quote, TargetQuotes}
use polymaker.Reconciler.{
  Tolerance, ReconcilePlan, is_noop, reconcile_loop, reconcile, order_ids, to_cancel_of,
}
use polymaker.Reconciler.Match.{
  mem-to_cancel, Elem, found, found-some, loop_nil, loop_none, loop_some, reconcile_loop-keeps,
}
use polymaker.Reconciler.Count.{Elem-mem}
use Steps.*

module _ {F : Type 0} where
  -- The live orders after the plan: those not cancelled, then the newly posted ones.
  abbrev pub carry_out :
      ReconcilePlan F → List (OpenOrder F) → List (OpenOrder F) → List (OpenOrder F)
  carry_out plan live posted = select (λ o. not (mem o.order_id plan.to_cancel)) live ++ posted

  mem-to_cancel_not :
      (keep : List String) (live : List (OpenOrder F)) (o : OpenOrder F)
      → Elem o live
      → not (mem o.order_id (to_cancel_of keep live)) ≡ mem o.order_id keep
  mem-to_cancel_not keep live o e = elim (Bool-cases (mem o.order_id keep)) [
    | inl h ↦ rw (mem-to_cancel keep live o.order_id h, h)
    | inr h ↦ rw (cancelled live e h, h)
  ]
    where
      cancelled :
          (os : List (OpenOrder F))
          → Elem o os
          → mem o.order_id keep ≡ false
          → mem o.order_id (to_cancel_of keep os) ≡ true
      cancelled [] e h = absurd e
      cancelled (x ∷ os) (inl e) h = rw (e, h, ==_refl o.order_id)
      cancelled (x ∷ os) (inr e) h = ground (arith, cancelled os e h)

  select_ext :
      (p r : OpenOrder F → Bool) (os : List (OpenOrder F))
      → ((o : OpenOrder F) → Elem o os → p o ≡ r o)
      → select p os ≡ select r os
  select_ext p r [] h = refl
  select_ext p r (o ∷ os) h = ground (arith, h o (inl refl), select_ext p r os (λ x e. h x (inr e)))

  Kept-select :
      (k l : List String) (os : List (OpenOrder F))
      → Agree os k l
      → Kept (select (λ o. mem o.order_id k) os) l
  Kept-select k l [] a = tt
  Kept-select k l (o ∷ os) a = ground (arith, Kept-select k l os)

  Kept-append :
      (k : List String) (xs ys : List (OpenOrder F)) → Kept xs k → Kept ys k → Kept (xs ++ ys) k
  Kept-append k [] ys h g = g
  Kept-append k (x ∷ xs) ys h g = (h.0, Kept-append k xs ys h.1 g)

  Kept-cons : (x : String) (k : List String) (os : List (OpenOrder F)) → Kept os k → Kept os (x ∷ k)
  Kept-cons x k [] h = tt
  Kept-cons x k (o ∷ os) h = (ground arith, Kept-cons x k os h.1)

  Agree-cons :
      (x : String) (k l : List String) (os : List (OpenOrder F))
      → Agree os k l
      → Agree os (x ∷ k) (x ∷ l)
  Agree-cons x k l [] a = tt
  Agree-cons x k l (o ∷ os) a = (rw a.0, Agree-cons x k l os a.1)

  Agree-cons_absent :
      (x : String) (k l : List String) (os : List (OpenOrder F))
      → mem x (order_ids os) ≡ false
      → Agree os k l
      → Agree os k (x ∷ l)
  Agree-cons_absent x k l [] h a = tt
  Agree-cons_absent x k l (o ∷ os) h a =
      (ground (arith, ==_comm x o.order_id), Agree-cons_absent x k l os (ground arith) a.1)

  Fresh-cons_absent :
      (x : String) (k : List String) (os : List (OpenOrder F))
      → mem x (order_ids os) ≡ false
      → Fresh os k
      → Fresh os (x ∷ k)
  Fresh-cons_absent x k [] h f = tt
  Fresh-cons_absent x k (o ∷ os) h f =
      (ground (arith, ==_comm x o.order_id), Fresh-cons_absent x k os (ground arith) f.1)

  Fresh-mem :
      (ids : List String) (x : String) (os : List (OpenOrder F))
      → Fresh os ids
      → mem x ids ≡ true
      → mem x (order_ids os) ≡ false
  Fresh-mem ids x [] f h = refl
  Fresh-mem ids x (o ∷ os) f h = elim (Bool-cases (o.order_id == x)) [
    | inl e ↦ cc (==→≡ o.order_id x e, f.0, h)
    | inr e ↦ rw e (Fresh-mem ids x os f.1 h)
  ]

  to_cancel-Kept :
      (keep : List String) (os : List (OpenOrder F)) → Kept os keep → to_cancel_of keep os ≡ []
  to_cancel-Kept keep [] h = refl
  to_cancel-Kept keep (o ∷ os) h = ground (arith, to_cancel-Kept keep os)

module _ {F : Type 0} ⦃fl : Float F⦄ (ok : IsFloat fl) (t : Tolerance F)
    (tick_nonneg : num 0 ≼ t.tick) (frac_nonneg : num 0 ≼ t.resize_frac)
    (live : List (OpenOrder F)) where
  -- The state of both runs at a suffix of the quotes: the first run at `k` on its way to `final`, the
  -- second at `l`, where `old` are the posted orders it has matched and `new` those still to come.
  record Paired (qs : List (Quote F)) (final k l : List String) (old new : List (OpenOrder F))
      : Type 0 where
    ends : (reconcile_loop t live k qs).0 ≡ final
    posted : Posted (reconcile_loop t live k qs).1 new
    agree : Agree live k l
    matched_old : Kept old l
    fresh_new : Fresh new l
    distinct_new : Distinct (order_ids new)
    apart_new : Fresh new (order_ids live)

  abbrev survivors : List String → List (OpenOrder F)
  survivors final = select (λ o. mem o.order_id final) live

  abbrev Settled : List (OpenOrder F) → List String × List (Quote F) → Type 0
  Settled os r = (r.1 ≡ []) × Kept os r.0

  after_nil :
      (final k l : List String) (old new : List (OpenOrder F))
      → Paired [] final k l old new
      → Settled (survivors final ++ (old ++ new)) (l, [])
  after_nil final k l old [] s =
      let same : k ≡ final = subst (λ r. r.0 ≡ final) (loop_nil t live k) s.ends in
      (
        refl,
        Kept-append l (survivors final) (old ++ [])
            (subst (λ f. Kept (survivors f) l) same (Kept-select k l live s.agree))
            (Kept-append l old [] s.matched_old tt),
      )
  after_nil final k l old (o ∷ new) s =
      absurd (subst (λ r. Posted r.1 (o ∷ new)) (loop_nil t live k) s.posted)

  -- A quote that was placed finds its own posted order in the second run.
  after_none :
      (q : Quote F) (qs : List (Quote F)) (final k l : List String) (old new : List (OpenOrder F))
      → Paired (q ∷ qs) final k l old new
      → found t live k q ≡ none
      → (o : OpenOrder F) × (rest : List (OpenOrder F)) × (new ≡ o ∷ rest)
        × (found t (survivors final ++ (old ++ new)) l q ≡ some o)
        × Paired qs final k (o.order_id ∷ l) (old ++ o ∷ []) rest
  after_none q qs final k l old [] s e =
      absurd (subst (λ r. Posted r.1 []) (loop_none t live k q qs e) s.posted)
  after_none q qs final k l old (o ∷ rest) s e =
      let placed = subst (λ r. Posted r.1 (o ∷ rest)) (loop_none t live k q qs e) s.posted in
      (
        o,
        rest,
        refl,
        (found-append_none t l q (survivors final) (old ++ o ∷ rest)
              (found-select-none t _ k l q live s.agree e)
            ∙ found-append_none t l q old (o ∷ rest) (found-Kept t l q old s.matched_old)
            ∙ found-Fulfils t ok tick_nonneg frac_nonneg l q o rest placed.0 s.fresh_new.0),
        record {
          ends = subst (λ r. r.0 ≡ final) (loop_none t live k q qs e) s.ends;
          posted = placed.1;
          agree = Agree-cons_absent o.order_id k l live s.apart_new.0 s.agree;
          matched_old =
              Kept-append (o.order_id ∷ l) old (o ∷ []) (Kept-cons o.order_id l old s.matched_old)
                (ground (arith, ==_refl o.order_id), tt);
          fresh_new = Fresh-cons_absent o.order_id l rest s.distinct_new.0 s.fresh_new.1;
          distinct_new = s.distinct_new.1;
          apart_new = s.apart_new.1;
        },
      )

  -- A quote that a live order served is served by the same order in the second run.
  after_some :
      (q : Quote F) (qs : List (Quote F)) (final k l : List String) (old new : List (OpenOrder F))
      (o : OpenOrder F)
      → Paired (q ∷ qs) final k l old new
      → found t live k q ≡ some o
      → (found t (survivors final ++ (old ++ new)) l q ≡ some o)
        × Paired qs final (o.order_id ∷ k) (o.order_id ∷ l) old new
  after_some q qs final k l old new o s e =
      let step = loop_some t live k q qs o e in
      let (held, key, fresh, price, size) = found-some t live k q o e in
      let ends' = subst (λ r. r.0 ≡ final) step s.ends in
      let kept : mem o.order_id final ≡ true =
        subst (λ f. mem o.order_id f ≡ true) ends'
          (reconcile_loop-keeps t live (o.order_id ∷ k) qs o.order_id
            (ground (arith, ==_refl o.order_id))) in
      (
        found-append_some t l q (survivors final) (old ++ new) o
            (found-select-some t _ k l q live o s.agree kept e),
        record {
          ends = ends';
          posted = subst (λ r. Posted r.1 new) step s.posted;
          agree = Agree-cons o.order_id k l live s.agree;
          matched_old = Kept-cons o.order_id l old s.matched_old;
          fresh_new =
              Fresh-cons_absent o.order_id l new
                (Fresh-mem (order_ids live) o.order_id new s.apart_new (Elem-mem o live held))
                s.fresh_new;
          distinct_new = s.distinct_new;
          apart_new = s.apart_new;
        },
      )

  second_run :
      (qs : List (Quote F)) (final k l : List String) (old new : List (OpenOrder F))
      → Paired qs final k l old new
      → let os = survivors final ++ (old ++ new) in Settled os (reconcile_loop t os l qs)
  second_run [] final k l old new s =
      subst (Settled _) (sym (loop_nil t _ l)) (after_nil final k l old new s)
  second_run (q ∷ qs) final k l old new s = elim (Option-cases (found t live k q)) [
    | inl e ↦
        let (o, rest, split, hit, s') = after_none q qs final k l old new s e in
        let regroup : (old ++ o ∷ []) ++ rest ≡ old ++ new =
          append_assoc old (o ∷ []) rest ∙ ap (λ ys. old ++ ys) (sym split) in
        subst (Settled _) (sym (loop_some t _ l q qs o hit)) (
          subst
            (λ ys.
              Settled (survivors final ++ ys)
                (reconcile_loop t (survivors final ++ ys) (o.order_id ∷ l) qs))
            regroup (second_run qs final k (o.order_id ∷ l) (old ++ o ∷ []) rest s'))
    | inr (o, e) ↦
        let (hit, s') = after_some q qs final k l old new o s e in
        subst (Settled _) (sym (loop_some t _ l q qs o hit))
          (second_run qs final (o.order_id ∷ k) (o.order_id ∷ l) old new s')
  ]

  Agree-nil : (os : List (OpenOrder F)) → Agree os [] []
  Agree-nil [] = tt
  Agree-nil (o ∷ os) = (refl, Agree-nil os)

  Fresh-nil : (os : List (OpenOrder F)) → Fresh os []
  Fresh-nil [] = tt
  Fresh-nil (o ∷ os) = (refl, Fresh-nil os)

  -- When the plan is carried out, with one order at the asked price and size posted for each quote
  -- it places, under new and distinct ids, then the next diff against the same targets is a no-op:
  -- nothing is cancelled and nothing is placed. The tick and the resize fraction are not negative.
  pub reconcile-is_noop :
      (targets : TargetQuotes F) (posted : List (OpenOrder F))
      → Posted (reconcile targets live t).to_place posted
      → Distinct (order_ids posted)
      → Fresh posted (order_ids live)
      → is_noop (reconcile targets (carry_out (reconcile targets live t) live posted) t) ≡ true
  unfolding reconcile is_noop
  reconcile-is_noop targets posted p d apart =
      let final = (reconcile_loop t live [] targets.quotes).0 in
      let (quiet, kept) = second_run targets.quotes final [] [] [] posted (record {
        ends = refl;
        posted = p;
        agree = Agree-nil live;
        matched_old = tt;
        fresh_new = Fresh-nil posted;
        distinct_new = d;
        apart_new = apart;
      }) in
      let same =
        select_ext (λ o. not (mem o.order_id (to_cancel_of final live))) (λ o. mem o.order_id final)
          live (mem-to_cancel_not final live) in
      rw (same, quiet, to_cancel-Kept _ (survivors final ++ posted) kept)
