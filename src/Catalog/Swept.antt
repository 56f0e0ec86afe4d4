-- ===== src/Catalog/Swept.antt =====
-- src/polymaker/catalog/scanner.py: what a scan leaves in the cache.
use polymaker.Prelude.{
  zero, suc, ◌+◌, ◌++◌, All-map, All-append, Some, here, there, length, ltb, ◌≡◌, refl, ap, ◌∙◌, ℕ,
  String, true, Option, none, some, List, [], ◌∷◌, All, ◌==◌, Bool-cases, inl, inr, subst, some_inj,
  bind_some, Dict, lookup-insert, arith, if◌then◌else◌,
}
use polymaker.Float.{Float}
use polymaker.Domain.{MarketMeta}
use polymaker.Wire.{
  truthy, iterated, Json, Fields, Python, object, null, boolean, number, text, array,
}
use polymaker.Scoring.{BookStats, MarketScore}
use polymaker.Catalog.Gamma.{Parsed, usable, unusable, escaped, parse_market}
use polymaker.Catalog.Store.{CatalogStore, Known, load_meta, row_meta, get, upsert_market}
use polymaker.Catalog.Sweep.{
  fetch_reward_rates, ScanConfig, wanted, keep, kept_of, iter_markets, persist, run_scan, scan_end,
  scan_with, with_tag, tag_of,
}

module _ {F : Type 0} ⦃fl : Float F⦄ where
  abbrev first_some : Option (MarketMeta F) → Option (MarketMeta F) → Option (MarketMeta F)
  first_some none n = n
  first_some (some m) n = some m

  -- The last market with an id.
  pub last_with : String → List (MarketMeta F) → Option (MarketMeta F)
  last_with cid [] = none
  last_with cid (m ∷ ms) =
      first_some (last_with cid ms) (if m.condition_id == cid then some m else none)

  abbrev noted : Option (MarketMeta F) → Option (Known F) → Option (Known F)
  noted none known = known
  noted (some m) known = some (load_meta m)

  noted-first_some :
      (a b : Option (MarketMeta F)) (known : Option (Known F))
      → noted a (noted b known) ≡ noted (first_some a b) known
  noted-first_some none b known = refl
  noted-first_some (some m) b known = refl

  -- What the cache has of an id after markets were written over it.
  abbrev pub recorded : String → List (MarketMeta F) → CatalogStore F → Option (Known F)
  recorded cid ms s = noted (last_with cid ms) (get cid s)

  pub upsert_market-get :
      (now : F) (m : MarketMeta F) (sc : Option (MarketScore F)) (s : CatalogStore F) (cid : String)
      → get cid (upsert_market now m sc s)
        ≡ (if m.condition_id == cid then some (load_meta m) else get cid s)
  unfolding get upsert_market
  upsert_market-get now m sc s cid =
      ap row_meta (lookup-insert m.condition_id cid _ s.markets)
      ∙ elim (Bool-cases (m.condition_id == cid)) [ inl e ↦ rw e refl | inr e ↦ rw e refl ]

  persist-get :
      (now : F) (books : Dict (BookStats F)) (ms : List (MarketMeta F)) (s : CatalogStore F)
      (cid : String)
      → get cid (persist now books ms s) ≡ recorded cid ms s
  unfolding persist last_with
  persist-get now books [] s cid = refl
  persist-get now books (m ∷ ms) s cid =
      persist-get now books ms _ cid
      ∙ ap (noted (last_with cid ms)) (
          upsert_market-get now m _ s cid
          ∙ elim (Bool-cases (m.condition_id == cid)) [ inl e ↦ rw e refl | inr e ↦ rw e refl ])
      ∙ noted-first_some (last_with cid ms) _ (get cid s)

  -- What a page of listings that was read has in it.
  pub record IsListed (fetch : ℕ → Option (Json F)) (raw : Json F) : Type 0 where
    pub offset : ℕ
    pub page : Json F
    pub was_read : fetch offset ≡ some page
    pub listings : List (Json F)
    pub lists : iterated page ≡ some listings
    pub is_there : Some (λ x. x ≡ raw) listings

  among : (xs : List (Json F)) → All (λ x. Some (λ y. y ≡ x) xs) xs
  among [] = tt
  among (x ∷ xs) = (here x xs refl, All-map _ _ xs (λ y h. there x xs h) (among xs))

  page-IsListed :
      (fetch : ℕ → Option (Json F)) (offset : ℕ) (page : Json F) (xs : List (Json F))
      → fetch offset ≡ some page
      → iterated page ≡ some xs
      → All (IsListed fetch) xs
  page-IsListed fetch offset page xs h e =
      All-map _ _ xs
        (λ x k. record {
          offset = offset;
          page = page;
          was_read = h;
          listings = xs;
          lists = e;
          is_there = k;
        })
        (among xs)

  module _ (py : Python F) (loads : String → Option (Json F)) (decimals int_round : F → ℕ) (now : F)
      (cfg : ScanConfig) where
    -- A wanted market that was parsed from a listing of a page.
    pub record IsKept (fetch : ℕ → Option (Json F)) (rates : Dict F) (m : MarketMeta F)
        : Type 0 where
      pub raw : Fields F
      pub is_listed : IsListed fetch (object raw)
      pub parsed : parse_market py loads decimals int_round now rates raw ≡ usable m
      pub is_wanted : wanted py loads decimals int_round now cfg m ≡ true

    keep-IsKept :
        (fetch : ℕ → Option (Json F)) (rates : Dict F) (raw : Fields F) (p : Parsed (MarketMeta F))
        (rest kept : List (MarketMeta F))
        → IsListed fetch (object raw)
        → parse_market py loads decimals int_round now rates raw ≡ p
        → keep py loads decimals int_round now cfg p rest ≡ some kept
        → All (IsKept fetch rates) rest
        → All (IsKept fetch rates) kept
    keep-IsKept fetch rates raw (usable m) rest kept l e h a =
        elim (Bool-cases (wanted py loads decimals int_round now cfg m)) [
          | inl w ↦
              subst (All (IsKept fetch rates))
                (some_inj (m ∷ rest) kept
                  (subst (λ b. some (if b then m ∷ rest else rest) ≡ some kept) w h))
                (record { raw = raw; is_listed = l; parsed = e; is_wanted = w }, a)
          | inr w ↦
              subst (All (IsKept fetch rates))
                (some_inj rest kept
                  (subst (λ b. some (if b then m ∷ rest else rest) ≡ some kept) w h))
                a
        ]
    keep-IsKept fetch rates raw unusable rest kept l e h a =
        subst (All (IsKept fetch rates)) (some_inj rest kept h) a
    keep-IsKept fetch rates raw escaped rest kept l e h a = ground arith

    kept_of-IsKept :
        (fetch : ℕ → Option (Json F)) (rates : Dict F) (raws : List (Json F))
        (kept : List (MarketMeta F))
        → All (IsListed fetch) raws
        → kept_of py loads decimals int_round now cfg rates raws ≡ some kept
        → All (IsKept fetch rates) kept
    unfolding kept_of
    kept_of-IsKept fetch rates [] kept l h =
        subst (All (IsKept fetch rates)) (some_inj [] kept h) tt
    kept_of-IsKept fetch rates (object raw ∷ raws) kept l h =
        let (rest, e, k) = bind_some _ _ kept h in
        keep-IsKept fetch rates raw _ rest kept l.0 refl k
          (kept_of-IsKept fetch rates raws rest l.1 e)
    kept_of-IsKept fetch rates (null ∷ raws) kept l h = ground arith
    kept_of-IsKept fetch rates (boolean b ∷ raws) kept l h = ground arith
    kept_of-IsKept fetch rates (number x ∷ raws) kept l h = ground arith
    kept_of-IsKept fetch rates (text t ∷ raws) kept l h = ground arith
    kept_of-IsKept fetch rates (array xs ∷ raws) kept l h = ground arith

    iter_markets-IsListed :
        (fetch : ℕ → Option (Json F)) (limit n offset : ℕ) (raws : List (Json F))
        → iter_markets py fetch limit n offset ≡ some raws
        → All (IsListed fetch) raws
    unfolding iter_markets
    iter_markets-IsListed fetch limit zero offset raws h =
        subst (All (IsListed fetch)) (some_inj [] raws h) tt
    iter_markets-IsListed fetch limit (suc n) offset raws h =
        let (page, r, k) = bind_some (fetch offset) _ raws h in
        elim (Bool-cases (truthy page)) [
          | inl t ↦
              let (xs, e, g) = bind_some (iterated page) _ raws (rw t at k) in
              elim (Bool-cases (ltb (length xs) limit)) [
                | inl few ↦
                    subst (All (IsListed fetch)) (some_inj xs raws (rw few at g))
                      (page-IsListed fetch offset page xs r e)
                | inr full ↦
                    let (more, d, j) =
                      bind_some (iter_markets py fetch limit n (offset + limit)) _ raws
                        (rw full at g) in
                    subst (All (IsListed fetch)) (some_inj (xs ++ more) raws j) (
                      All-append (IsListed fetch) xs more (page-IsListed fetch offset page xs r e)
                        (iter_markets-IsListed fetch limit n (offset + limit) more d))
              ]
          | inr f ↦ subst (All (IsListed fetch)) (some_inj [] raws (rw f at k)) tt
        ]

    scan_end-recorded :
        (book : String → Option (Json F)) (s : CatalogStore F) (o : Option (List (MarketMeta F)))
        (kept : List (MarketMeta F)) (cid : String)
        → (scan_end py loads decimals int_round now cfg book s o).1 ≡ some kept
        → (o ≡ some kept)
          × (get cid (scan_end py loads decimals int_round now cfg book s o).0
              ≡ recorded cid kept s)
    unfolding scan_end
    scan_end-recorded book s none kept cid h = ground arith
    scan_end-recorded book s (some ms) kept cid h =
        (h, persist-get now _ ms s cid ∙ ap (λ x. recorded cid x s) (some_inj ms kept h))

    with_tag-get :
        (tag : Option String) (s : CatalogStore F) (cid : String)
        → get cid (with_tag py loads decimals int_round now cfg tag s) ≡ get cid s
    unfolding get
    with_tag-get none s cid = refl
    with_tag-get (some t) s cid = elim (Bool-cases (t == "")) [
      | inl e ↦ rw e refl
      | inr e ↦ rw e refl
    ]

    scan_with-recorded :
        (resolved : Option String) (market_page : Option String → ℕ → Option (Json F))
        (book : String → Option (Json F)) (s : CatalogStore F) (kept : List (MarketMeta F))
        (cid : String) (o : Option (Dict F))
        → (scan_with py loads decimals int_round now cfg resolved market_page book s o).1
          ≡ some kept
        → (get cid (scan_with py loads decimals int_round now cfg resolved market_page book s o).0
            ≡ recorded cid kept s)
          × ((rates : Dict F) × (o ≡ some rates)
              × All
                  (IsKept
                    (market_page (tag_of py loads decimals int_round now cfg resolved s))
                    rates)
                  kept)
    unfolding scan_with
    scan_with-recorded resolved market_page book s kept cid none h = ground arith
    scan_with-recorded resolved market_page book s kept cid (some rates) h =
        let tag = tag_of py loads decimals int_round now cfg resolved s in
        let (e, r) = scan_end-recorded book _ _ kept cid h in
        let (raws, p, k) =
          bind_some (iter_markets py (market_page tag) 100 25 0)
            (kept_of py loads decimals int_round now cfg rates) kept e in
        (
          r ∙ ap (noted (last_with cid kept)) (with_tag-get tag s cid),
          (
            rates,
            refl,
            kept_of-IsKept (market_page tag) rates raws kept
                (iter_markets-IsListed (market_page tag) 100 25 0 raws p) k,
          ),
        )

    -- A scan that returns leaves in the cache, under every id, the last market with that id that it
    -- returns, and what was there before where it returns none. Each market it returns was parsed, with
    -- the rates it read, from a listing as it stands in a page that was read under the scan's tag;
    -- and it has a positive daily rate when only rewarded markets are wanted.
    pub run_scan-recorded :
        (rate_page : Json F → Option (Json F)) (resolved : Option String)
        (market_page : Option String → ℕ → Option (Json F)) (book : String → Option (Json F))
        (s : CatalogStore F) (kept : List (MarketMeta F)) (cid : String)
        → (run_scan py loads decimals int_round now cfg rate_page resolved market_page book s).1
          ≡ some kept
        → (get cid
              (run_scan py loads decimals int_round now cfg rate_page resolved market_page book s).0
            ≡ recorded cid kept s)
          × ((rates : Dict F) × (fetch_reward_rates py rate_page ≡ some rates)
              × All
                  (IsKept
                    (market_page (tag_of py loads decimals int_round now cfg resolved s))
                    rates)
                  kept)
    unfolding run_scan
    run_scan-recorded rate_page resolved market_page book s kept cid h =
        scan_with-recorded resolved market_page book s kept cid _ h
