-- ===== src/Catalog/Ranking.antt =====
-- src/polymaker/catalog/store.py: `top` lists the best of the most recent scan.
use polymaker.Prelude.{ℕ, ◌≤◌, ◌≡◌, true, false, ◌⊎◌, List, [], ◌∷◌, All, Some, length, map}
use polymaker.Float.{Float, ◌-◌, ◌<=◌, ◌≼◌}
use polymaker.Scoring.{MarketScore}
use polymaker.Catalog.Store.{Row, Known, load_meta, load_score}

module _ {F : Type 0} ⦃fl : Float F⦄ where
  -- From the highest score to the lowest.
  pub Ranked : List (Row F) → Type 0
  Ranked [] = Unit
  Ranked (r ∷ rs) = All (λ x. x.score ≼ r.score) rs × Ranked rs

  -- A row is listed, or every listed row scores at least as much.
  pub IsBeaten : List (Row F) → Row F → Type 0
  IsBeaten listed r = Some (λ x. x ≡ r) listed ⊎ All (λ x. r.score ≼ x.score) listed

  -- What `top` lists, over the rows of the table: the newest scan, and the rows that are listed.
  pub record IsTop (limit : ℕ) (fresh_s : F) (table : List (Row F))
      (listed : List (Known F × MarketScore F)) : Type 0 where
    -- The time of the newest scan.
    pub newest_ts : F
    pub is_newest : All (λ x. x.scanned_ts ≼ newest_ts) table
    pub is_scanned : (table ≡ []) ⊎ Some (λ x. x.scanned_ts ≡ newest_ts) table
    -- The rows behind the markets, from the highest score to the lowest.
    pub rows : List (Row F)
    pub shows : listed ≡ map (λ row. (load_meta row.meta_json, load_score row)) rows
    pub few : length rows ≤ limit
    pub ranked : Ranked rows
    -- Each is a row of the table that was scanned within `fresh_s` of the newest.
    pub fresh :
        All (λ r. Some (λ x. x ≡ r) table × ((newest_ts - fresh_s <= r.scanned_ts) ≡ true)) rows
    -- Any other row was scanned earlier, or scores no more than those that are listed.
    pub best : All (λ r. IsBeaten rows r ⊎ ((newest_ts - fresh_s <= r.scanned_ts) ≡ false)) table
