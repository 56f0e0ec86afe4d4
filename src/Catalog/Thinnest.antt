-- ===== src/Catalog/Thinnest.antt =====
-- src/polymaker/catalog/scanner.py: fetch_book_stats measures the thinnest side of all books.
use polymaker.Prelude.{
  bind_some, some_inj, Some, here, there, ◌≡◌, refl, subst, sym, ◌∙◌, ◌⊎◌, inl, inr, String,
  Bool-cases, Option, some, List, [], ◌∷◌, All, arith, if◌then◌else◌,
}
use polymaker.Float.{Float, IsFloat, num, ◌-◌, ◌*◌, ◌<=◌, ◌≼◌, ◌<◌, abs, lt→le, not_lt→le}
use polymaker.Wire.{Json, Python}
use polymaker.Scoring.{BookStats}
use polymaker.Catalog.Scan.{
  Measured, Reading, reading_of, thinnest, stats_of, measure_token, readings_of, fetch_book_stats,
}

module _ {F : Type 0} ⦃fl : Float F⦄ (ok : IsFloat fl) where
  pick_left : (r s : Reading F) → (if s.thinner < r.thinner then s else r).thinner ≼ r.thinner
  pick_left r s = ground (arith, lt→le ok s.thinner r.thinner, ok.le_refl r.thinner)

  pick_right : (r s : Reading F) → (if s.thinner < r.thinner then s else r).thinner ≼ s.thinner
  pick_right r s = ground (arith, not_lt→le ok s.thinner r.thinner, ok.le_refl s.thinner)

  thinnest_first : (r : Reading F) (rs : List (Reading F)) → (thinnest r rs).thinner ≼ r.thinner
  unfolding thinnest
  thinnest_first r [] = ok.le_refl r.thinner
  thinnest_first r (s ∷ ss) =
      ok.le_trans _ _ _ (thinnest_first (if s.thinner < r.thinner then s else r) ss) (pick_left r s)

  thinnest_rest :
      (r : Reading F) (rs : List (Reading F)) → All (λ s. (thinnest r rs).thinner ≼ s.thinner) rs
  unfolding thinnest
  thinnest_rest r [] = tt
  thinnest_rest r (s ∷ ss) = (
    ok.le_trans _ _ _ (thinnest_first (if s.thinner < r.thinner then s else r) ss) (pick_right r s),
    thinnest_rest (if s.thinner < r.thinner then s else r) ss,
  )

  among_pick :
      (r s t : Reading F) (ss : List (Reading F))
      → Some (λ x. t ≡ x) ((if s.thinner < r.thinner then s else r) ∷ ss)
      → Some (λ x. t ≡ x) (r ∷ s ∷ ss)
  among_pick r s t ss (here _ _ e) = elim (Bool-cases (s.thinner < r.thinner)) [
    | inl y ↦ there r (s ∷ ss) (here s ss (e ∙ rw y refl))
    | inr n ↦ here r (s ∷ ss) (e ∙ rw n refl)
  ]
  among_pick r s t ss (there _ _ h) = there r (s ∷ ss) (there s ss h)

  thinnest_among : (r : Reading F) (rs : List (Reading F)) → Some (λ s. thinnest r rs ≡ s) (r ∷ rs)
  unfolding thinnest
  thinnest_among r [] = here r [] refl
  thinnest_among r (s ∷ ss) =
      among_pick r s (thinnest (if s.thinner < r.thinner then s else r) ss) ss
        (thinnest_among (if s.thinner < r.thinner then s else r) ss)

  module _ (py : Python F) (fetch : String → Option (Json F)) (band_cents : F) where
    -- The readings are those of the tokens, in their order.
    data Paired : List String → List (Reading F) → Type 0 where
      done : Paired [] []
      next :
          (tid : String) (m : Measured F) (tids : List String) (rs : List (Reading F))
          → measure_token py fetch band_cents tid ≡ some m
          → Paired tids rs
          → Paired (tid ∷ tids) (reading_of m ∷ rs)

    -- Both sides of a token's book weigh at least w.
    abbrev pub IsAbove : F → String → Type 0
    IsAbove w tid =
        (m : Measured F) × (measure_token py fetch band_cents tid ≡ some m)
        × (w ≼ m.w_bid)
        × (w ≼ m.w_ask)

    -- A side of a token's book weighs w, and its touch is d cents from the mid.
    abbrev pub IsSide : F → F → String → Type 0
    IsSide w d tid =
        (m : Measured F) × (measure_token py fetch band_cents tid ≡ some m)
        × (((w ≡ m.w_bid) × (d ≡ abs (m.this_mid - m.best_bid) * num 100))
            ⊎ ((w ≡ m.w_ask) × (d ≡ abs (m.best_ask - m.this_mid) * num 100)))

    readings_of-Paired :
        (tids : List String) (rs : List (Reading F))
        → readings_of py fetch band_cents tids ≡ some rs
        → Paired tids rs
    unfolding readings_of
    readings_of-Paired [] rs h = subst (Paired []) (some_inj [] rs h) done
    readings_of-Paired (tid ∷ tids) rs h =
        let (m, e, k) = bind_some (measure_token py fetch band_cents tid) _ rs h in
        let (rest, d, l) = bind_some (readings_of py fetch band_cents tids) _ rs k in
        subst (Paired (tid ∷ tids)) (some_inj _ rs l)
          (next tid m tids rest e (readings_of-Paired tids rest d))

    above_sides :
        (w : F) (m : Measured F) → w ≼ (reading_of m).thinner → (w ≼ m.w_bid) × (w ≼ m.w_ask)
    above_sides w m h = (
      ground (arith, h, ok.le_total m.w_bid m.w_ask, ok.le_trans w m.w_ask m.w_bid),
      ground (arith, h, ok.le_trans w m.w_bid m.w_ask),
    )

    reading_of_touch :
        (m : Measured F)
        → (((reading_of m).thinner ≡ m.w_bid)
            × ((reading_of m).dist ≡ abs (m.this_mid - m.best_bid) * num 100))
          ⊎ (((reading_of m).thinner ≡ m.w_ask)
              × ((reading_of m).dist ≡ abs (m.best_ask - m.this_mid) * num 100))
    reading_of_touch m = elim (Bool-cases (m.w_bid <= m.w_ask)) [
      | inl y ↦ inl (rw y refl, rw y refl)
      | inr n ↦ inr (rw n refl, rw n refl)
    ]

    Paired-IsAbove :
        (w : F) (tids : List String) (rs : List (Reading F))
        → Paired tids rs
        → All (λ r. w ≼ r.thinner) rs
        → All (IsAbove w) tids
    Paired-IsAbove w _ _ done h = tt
    Paired-IsAbove w _ _ (next tid m tids rs e p) h =
        ((m, e, (above_sides w m h.0).0, (above_sides w m h.0).1), Paired-IsAbove w tids rs p h.1)

    Paired-IsSide :
        (t : Reading F) (tids : List String) (rs : List (Reading F))
        → Paired tids rs
        → Some (λ r. t ≡ r) rs
        → Some (IsSide t.thinner t.dist) tids
    Paired-IsSide t _ _ done h = elim h [ ]
    Paired-IsSide t _ _ (next tid m tids rs e p) (here _ _ h) =
        subst (λ x. Some (IsSide x.thinner x.dist) (tid ∷ tids)) (sym h)
          (here tid tids (m, e, reading_of_touch m))
    Paired-IsSide t _ _ (next tid m tids rs e p) (there _ _ h) =
        there tid tids (Paired-IsSide t tids rs p h)

    stats_thinnest :
        (tids : List String) (rs : List (Reading F)) (stats : BookStats F)
        → Paired tids rs
        → stats_of rs ≡ some stats
        → All (IsAbove stats.weighted_shares) tids
          × Some (IsSide stats.weighted_shares stats.our_distance_cents) tids
    stats_thinnest tids [] stats p h = ground arith
    stats_thinnest tids (r ∷ rs) stats p h =
        subst
          (λ s.
            All (IsAbove s.weighted_shares) tids
            × Some (IsSide s.weighted_shares s.our_distance_cents) tids)
          (some_inj _ stats h)
          (
            Paired-IsAbove _ tids (r ∷ rs) p (thinnest_first r rs, thinnest_rest r rs),
            Paired-IsSide (thinnest r rs) tids (r ∷ rs) p (thinnest_among r rs),
          )

    -- A measured market's competition is the least weight of any side of its tokens' books: each
    -- token has a measured book, no side of any of them weighs less than weighted_shares, and
    -- weighted_shares and our_distance_cents are those of one side of one book.
    pub fetch_book_stats-thinnest :
        (tids : List String) (stats : BookStats F)
        → fetch_book_stats py fetch band_cents tids ≡ some stats
        → All (IsAbove stats.weighted_shares) tids
          × Some (IsSide stats.weighted_shares stats.our_distance_cents) tids
    unfolding fetch_book_stats
    fetch_book_stats-thinnest tids stats h =
        let (rs, e, k) = bind_some (readings_of py fetch band_cents tids) stats_of stats h in
        stats_thinnest tids rs stats (readings_of-Paired tids rs e) k
