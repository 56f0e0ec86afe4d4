-- ===== src/Catalog/Sweep.antt =====
-- src/polymaker/catalog/gamma.py and scanner.py: the pages of reward rates and of markets, and run_scan.
-- An answer is its decoded JSON, none where the call raised; what raises is none. A page of markets past
-- the last result (status 400 or 422) is the answer `null`, and the token books are measured in the
-- order of the markets.
use polymaker.Prelude.{
  ℕ, zero, suc, ◌+◌, String, Bool, not, ◌&&◌, ◌||◌, Option, none, some, List, [], ◌∷◌, ◌++◌, ◌==◌,
  ◌>>=◌, ltb, length, Dict, lookup, insert, if◌then◌else◌,
}
use polymaker.Float.{Float, num, ◌<=◌}
use polymaker.Domain.{MarketMeta}
use polymaker.Wire.{
  Json, Fields, Python, text, object, get, get_default, str_of, float_of, iterated, items_of,
  truthy, same_letters, is_text, array, end,
}
use polymaker.Scoring.{BookStats, score_market}
use polymaker.Catalog.Gamma.{Parsed, usable, unusable, escaped, parse_market}
use polymaker.Catalog.Scan.{fetch_book_stats}
use polymaker.Catalog.Store.{CatalogStore, upsert_market, cache_tag, cached_tag}

-- The fields of ScanConfig that the scan itself reads.
pub record ScanConfig : Type 0 where
  pub tag_slug : String
  pub rewards_only : Bool
  pub measure_books : Bool

abbrev usdc : String
usdc = "0x2791bca1f2de4661ed88a30c99a7a9449aa84174"

module _ {F : Type 0} ⦃fl : Float F⦄ where
  -- The last loop of run_scan.
  unfoldable pub persist :
      F → Dict (BookStats F) → List (MarketMeta F) → CatalogStore F → CatalogStore F
  persist now books [] s = s
  persist now books (m ∷ ms) s =
      persist now books ms
        (upsert_market now m (some (score_market m (lookup m.condition_id books) none)) s)

module _ {F : Type 0} ⦃fl : Float F⦄ (py : Python F) where
  -- `float(ri.get("rewards_daily_rate", 0) or 0)`
  abbrev daily_rate : Fields F → Option F
  daily_rate ri =
      let v = get "rewards_daily_rate" ri in if truthy v then float_of py v else some (num 0)

  -- The loop over `rates`: the rate of the first entry in USDC.
  unfoldable pub usdc_rate : List (Json F) → Option F
  unfolding same_letters
  usdc_rate [] = some (num 0)
  usdc_rate (object ri ∷ rest) =
      let later = usdc_rate rest in
      if same_letters (str_of py (get_default (text "") "asset_address" ri)) usdc
      then daily_rate ri
      else later
  usdc_rate (v ∷ rest) = none

  -- `(m.get("rewards") or {}).get("rates") or []`
  abbrev rates_of : Json F → Option (List (Json F))
  rates_of (object rewards) = items_of (get "rates" rewards)
  rates_of v = if truthy v then none else some []

  -- A market of a page of reward rates.
  abbrev add_rate : Json F → Dict F → Option (Dict F)
  add_rate (object m) rates = do
    entries ← rates_of (get "rewards" m)
    rate ← usdc_rate entries
    let cid = get "condition_id" m
    some (if truthy cid then insert (str_of py cid) rate rates else rates)
  add_rate v rates = none

  unfoldable pub add_rates : List (Json F) → Dict F → Option (Dict F)
  add_rates [] rates = some rates
  add_rates (m ∷ ms) rates = add_rate m rates >>= add_rates ms

  -- The page loop of fetch_reward_rates, from a cursor, with the rounds that are left.
  unfoldable pub rate_pages : (Json F → Option (Json F)) → ℕ → Json F → Dict F → Option (Dict F)
  unfolding add_rates
  rate_pages fetch zero cursor rates = some rates
  rate_pages fetch (suc n) cursor rates = elim (fetch cursor) as (λ x. Option (Dict F)) [
    | some (object page) ↦ do
      ms ← iterated (get_default (array end) "data" page)
      more ← add_rates ms rates
      let next = get "next_cursor" page
      let rest = rate_pages fetch n next more
      if not (truthy next) || is_text next "LTE=" then some more else rest
    | _ ↦ none
  ]

  unfoldable pub fetch_reward_rates : (Json F → Option (Json F)) → Option (Dict F)
  unfolding rate_pages
  fetch_reward_rates fetch = rate_pages fetch 50 (text "") []

  -- A page of iter_markets, and what the pages after it yield.
  abbrev page_markets : ℕ → Json F → Option (List (Json F)) → Option (List (Json F))
  page_markets limit batch rest =
      if truthy batch
      then iterated batch
        >>= (λ ms. if ltb (length ms) limit then some ms else rest >>= (λ more. some (ms ++ more)))
      else some []

  -- GammaClient.iter_markets, with the rounds left and the offset.
  unfoldable pub iter_markets : (ℕ → Option (Json F)) → ℕ → ℕ → ℕ → Option (List (Json F))
  iter_markets fetch limit zero offset = some []
  iter_markets fetch limit (suc n) offset =
      fetch offset
      >>= (λ batch. page_markets limit batch (iter_markets fetch limit n (offset + limit)))

  module _ (loads : String → Option (Json F)) (decimals int_round : F → ℕ) (now : F)
      (cfg : ScanConfig) where
    -- Whether the scan keeps a market.
    abbrev pub wanted : MarketMeta F → Bool
    wanted m = not (cfg.rewards_only && (m.rewards_daily_rate <= num 0))

    abbrev pub keep : Parsed (MarketMeta F) → List (MarketMeta F) → Option (List (MarketMeta F))
    keep (usable m) rest = some (if wanted m then m ∷ rest else rest)
    keep unusable rest = some rest
    keep escaped rest = none

    -- The loop of run_scan over the listed markets.
    unfoldable pub kept_of : Dict F → List (Json F) → Option (List (MarketMeta F))
    kept_of rates [] = some []
    kept_of rates (object raw ∷ raws) = do
      rest ← kept_of rates raws
      keep (parse_market py loads decimals int_round now rates raw) rest
    kept_of rates (v ∷ raws) = none

    unfoldable pub measure_all :
        (String → Option (Json F)) → List (MarketMeta F) → Dict (BookStats F) → Dict (BookStats F)
    measure_all fetch [] out = out
    measure_all fetch (m ∷ ms) out =
        elim (fetch_book_stats py fetch m.rewards_max_spread
            (m.yes_token.token_id ∷ m.no_token.token_id ∷ []))
          as (λ x. Dict (BookStats F)) [
            | none ↦ measure_all fetch ms out
            | some stats ↦ measure_all fetch ms (insert m.condition_id stats out)
          ]

    -- The tag's id, from the cache or from Gamma.
    abbrev pub tag_of : Option String → CatalogStore F → Option String
    tag_of resolved s = elim (cached_tag cfg.tag_slug s) as (λ x. Option String) [
      | none ↦ resolved
      | some t ↦ if t == "" then resolved else some t
    ]

    abbrev pub with_tag : Option String → CatalogStore F → CatalogStore F
    with_tag none s = s
    with_tag (some t) s = if t == "" then s else cache_tag cfg.tag_slug t s

    -- What run_scan keeps of the tag's pages.
    abbrev pub scan_kept : Dict F → (ℕ → Option (Json F)) → Option (List (MarketMeta F))
    scan_kept rates market_page = iter_markets market_page 100 25 0 >>= kept_of rates

    -- The end of run_scan, once the markets to keep are known or a page failed.
    unfoldable pub scan_end :
        (String → Option (Json F))
        → CatalogStore F
        → Option (List (MarketMeta F))
        → CatalogStore F × Option (List (MarketMeta F))
    unfolding measure_all persist
    scan_end book s none = (s, none)
    scan_end book s (some kept) =
        let books = if cfg.measure_books then measure_all book kept [] else [] in
        (persist now books kept s, some kept)

    -- run_scan after the reward rates were read.
    unfoldable pub scan_with :
        Option String
        → (Option String → ℕ → Option (Json F))
        → (String → Option (Json F))
        → CatalogStore F
        → Option (Dict F)
        → CatalogStore F × Option (List (MarketMeta F))
    unfolding iter_markets kept_of scan_end
    scan_with resolved market_page book s none = (s, none)
    scan_with resolved market_page book s (some rates) =
        let tag = tag_of resolved s in
        scan_end book (with_tag tag s) (scan_kept rates (market_page tag))

    -- run_scan: the store it leaves, and the markets it returns, none where it raises.
    unfoldable pub run_scan :
        (Json F → Option (Json F))
        → Option String
        → (Option String → ℕ → Option (Json F))
        → (String → Option (Json F))
        → CatalogStore F
        → CatalogStore F × Option (List (MarketMeta F))
    unfolding fetch_reward_rates scan_with
    run_scan rate_page resolved market_page book s =
        scan_with resolved market_page book s (fetch_reward_rates rate_page)
