-- ===== src/Catalog/Store.antt =====
-- src/polymaker/catalog/store.py: the scan cache. A row's `meta_json` is read back with every field
-- as it was written, except that `version`, an enum member when it is written, comes back as its
-- text; so a cached market is the fields with that text beside them. A row whose `score_json` is of an
-- older schema has no score record. SQL leaves rows of equal score, and which of several rows with
-- one slug is found, open: they are taken in the order of the table.
use polymaker.Prelude.{
  ℕ, String, Option, none, some, List, [], ◌∷◌, ◌==◌, Dict, lookup, insert, values, select, take,
  map, if◌then◌else◌,
}
use polymaker.Float.{Float, num, ◌-◌, ◌<=◌, max}
use polymaker.Domain.{MarketMeta, ProtocolVersion, v1, v2}
use polymaker.Scoring.{MarketScore, score_market}

-- The attribute `version`: a member, or the plain text of one.
pub data VersionSlot : Type 0 where
  member : ProtocolVersion → VersionSlot
  plain : String → VersionSlot

-- `version.value`; a plain text has no such attribute.
abbrev pub value_of : ProtocolVersion → String
value_of v1 = "v1"
value_of v2 = "v2"

abbrev pub slot_value : VersionSlot → Option String
slot_value (member v) = some (value_of v)
slot_value (plain s) = none

-- A market as the program holds it; the fields other than `version` are those of meta.
pub record Known (F : Type 0) : Type 0 where
  pub meta : MarketMeta F
  pub version : VersionSlot

pub record Row (F : Type 0) : Type 0 where
  pub slug : String
  pub meta_json : MarketMeta F
  pub score : F
  pub score_json : Option (MarketScore F)
  pub scanned_ts : F

pub record CatalogStore (F : Type 0) : Type 0 where
  pub markets : Dict (Row F)
  pub tags : Dict String

module _ {F : Type 0} where
  -- `_load_meta` of what `_dump_meta` wrote
  abbrev pub load_meta : MarketMeta F → Known F
  load_meta m = record { meta = m; version = plain (value_of m.version) }

  abbrev pub row_meta : Option (Row F) → Option (Known F)
  row_meta none = none
  row_meta (some row) = some (load_meta row.meta_json)

  unfoldable pub get : String → CatalogStore F → Option (Known F)
  get condition_id s = row_meta (lookup condition_id s.markets)

  unfoldable pub slug_row : String → List (Row F) → Option (Known F)
  slug_row slug [] = none
  slug_row slug (row ∷ rows) =
      if row.slug == slug then some (load_meta row.meta_json) else slug_row slug rows

  abbrev pub get_by_slug : String → CatalogStore F → Option (Known F)
  get_by_slug slug s = slug_row slug (values s.markets)

  abbrev pub cache_tag : String → String → CatalogStore F → CatalogStore F
  cache_tag slug tag_id s = record s { tags = insert slug tag_id s.tags }

  abbrev pub cached_tag : String → CatalogStore F → Option String
  cached_tag slug s = lookup slug s.tags

module _ {F : Type 0} ⦃fl : Float F⦄ where
  -- `score or score_market(meta)`
  abbrev pub score_of : Option (MarketScore F) → MarketMeta F → MarketScore F
  score_of none m = score_market m none none
  score_of (some sc) m = sc

  unfoldable pub upsert_market :
      F → MarketMeta F → Option (MarketScore F) → CatalogStore F → CatalogStore F
  upsert_market now m score s =
      let sc = score_of score m in
      let row : Row F = record {
        slug = m.slug;
        meta_json = m;
        score = sc.score;
        score_json = some sc;
        scanned_ts = now;
      } in
      record s { markets = insert m.condition_id row s.markets }

  unfoldable pub upsert_many : F → List (MarketMeta F) → CatalogStore F → CatalogStore F
  upsert_many now [] s = s
  upsert_many now (m ∷ ms) s = upsert_many now ms (upsert_market now m none s)

  -- `SELECT MAX(scanned_ts)`, with 0 for an empty table.
  abbrev pub newest_of : F → List (Row F) → F
  newest_of t [] = t
  newest_of t (row ∷ rows) = newest_of (max t row.scanned_ts) rows

  abbrev pub newest : List (Row F) → F
  newest [] = num 0
  newest (row ∷ rows) = newest_of row.scanned_ts rows

  -- `ORDER BY score DESC`
  unfoldable pub insert_row : Row F → List (Row F) → List (Row F)
  insert_row r [] = r ∷ []
  insert_row r (x ∷ xs) =
      let rest = insert_row r xs in if x.score <= r.score then r ∷ x ∷ xs else x ∷ rest

  unfoldable pub by_score : List (Row F) → List (Row F)
  unfolding insert_row
  by_score [] = []
  by_score (r ∷ rs) = insert_row r (by_score rs)

  abbrev pub fresh_rows : F → CatalogStore F → List (Row F)
  fresh_rows fresh_s s =
      let cutoff = newest (values s.markets) - fresh_s in
      select (λ row. cutoff <= row.scanned_ts) (values s.markets)

  abbrev pub top_rows : ℕ → F → CatalogStore F → List (Row F)
  top_rows limit fresh_s s = take limit (by_score (fresh_rows fresh_s s))

  -- `_load_score`
  abbrev pub load_score : Row F → MarketScore F
  load_score row = score_of row.score_json row.meta_json

  unfoldable pub top : ℕ → F → CatalogStore F → List (Known F × MarketScore F)
  unfolding by_score
  top limit fresh_s s =
      map (λ row. (load_meta row.meta_json, load_score row)) (top_rows limit fresh_s s)
