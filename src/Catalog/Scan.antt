-- ===== src/Catalog/Scan.antt =====
-- src/polymaker/catalog/scanner.py: the depth that competes for a market's reward pool. The client's
-- answer for a token is its decoded JSON, none where the call or the decoding failed. A book that cannot
-- be measured is none, whether the source returns None or raises: its one caller skips both.
use polymaker.Prelude.{
  String, Bool, ◌&&◌, ◌||◌, Option, none, some, List, [], ◌∷◌, ◌>>=◌, if◌then◌else◌,
}
use polymaker.Float.{Float, num, ◌+◌, ◌-◌, ◌*◌, ◌/◌, ◌<=◌, ◌<◌, abs, max}
use polymaker.Wire.{Json, Python, array, object, elements, get}
use polymaker.MarketStream.Parse.{levels_of}
use polymaker.Scoring.{BookStats}

-- A measured book: the weights of its two sides, their touches and the mid.
pub record Measured (F : Type 0) : Type 0 where
  pub w_bid : F
  pub w_ask : F
  pub best_bid : F
  pub best_ask : F
  pub this_mid : F

-- An entry of `results`, with the spread.
pub record Reading (F : Type 0) : Type 0 where
  pub thinner : F
  pub dist : F
  pub mid : F
  pub spread : F

module _ {F : Type 0} ⦃fl : Float F⦄ where
  -- `_levels`
  abbrev pub scan_levels : Python F → Json F → List (F × F)
  scan_levels py (array xs) = levels_of py (elements xs)
  scan_levels py _ = []

  -- `p < q` on pairs
  abbrev pair_lt : F × F → F × F → Bool
  pair_lt p q = (p.0 < q.0) || ((p.0 <= q.0) && (q.0 <= p.0) && (p.1 < q.1))

  -- `max(p, *ps)` and `min(p, *ps)`
  unfoldable pub largest : F × F → List (F × F) → F × F
  largest p [] = p
  largest p (q ∷ qs) = largest (if pair_lt p q then q else p) qs

  unfoldable pub smallest : F × F → List (F × F) → F × F
  smallest p [] = p
  smallest p (q ∷ qs) = smallest (if pair_lt q p then q else p) qs

  -- A round of `_weighted_depth`; none for the ZeroDivisionError of an empty band.
  abbrev pub add_level : F → F → F → F × F → Option F
  add_level mid band_cents total (price, size) =
      let distance = abs (mid - price) * num 100 in
      let ratio = (band_cents - distance) / band_cents in
      if band_cents < distance
      then some total
      else if (band_cents <= num 0) && (num 0 <= band_cents)
      then none
      else some (total + size * ratio * ratio)

  -- The loop of `_weighted_depth`.
  unfoldable pub weighted_from : F → F → F → List (F × F) → Option F
  weighted_from mid band_cents total [] = some total
  weighted_from mid band_cents total (l ∷ ls) =
      add_level mid band_cents total l >>= (λ t. weighted_from mid band_cents t ls)

  abbrev pub weighted_depth : List (F × F) → F → F → Option F
  weighted_depth levels mid band_cents = weighted_from mid band_cents (num 0) levels

  -- What the loop of fetch_book_stats computes of the levels of a token.
  abbrev pub measure_sides : F → List (F × F) → List (F × F) → Option (Measured F)
  measure_sides band_cents (b ∷ bids) (a ∷ asks) =
      let best_bid = (largest b bids).0 in
      let best_ask = (smallest a asks).0 in
      let this_mid = (best_bid + best_ask) / num 2 in
      do
        w_bid ← weighted_depth (b ∷ bids) this_mid band_cents
        w_ask ← weighted_depth (a ∷ asks) this_mid band_cents
        some (record {
          w_bid = w_bid;
          w_ask = w_ask;
          best_bid = best_bid;
          best_ask = best_ask;
          this_mid = this_mid;
        })
  measure_sides band_cents _ _ = none

  abbrev pub measure_book : Python F → F → Json F → Option (Measured F)
  measure_book py band_cents (object book) =
      measure_sides band_cents (scan_levels py (get "bids" book)) (scan_levels py (get "asks" book))
  measure_book py band_cents _ = none

  -- The thinner side and the distance of its touch from the mid.
  abbrev pub reading_of : Measured F → Reading F
  reading_of m =
      let on_bid = m.w_bid <= m.w_ask in
      record {
        thinner = if on_bid then m.w_bid else m.w_ask;
        dist =
            (if on_bid then abs (m.this_mid - m.best_bid) else abs (m.best_ask - m.this_mid))
            * num 100;
        mid = m.this_mid;
        spread = max (num 0) (m.best_ask - m.best_bid);
      }

  -- `min(results, key=lambda t: t[0])`
  unfoldable pub thinnest : Reading F → List (Reading F) → Reading F
  thinnest r [] = r
  thinnest r (s ∷ ss) = thinnest (if s.thinner < r.thinner then s else r) ss

  abbrev pub stats_of : List (Reading F) → Option (BookStats F)
  stats_of [] = none
  stats_of (r ∷ rs) =
      let t = thinnest r rs in
      some (record {
        weighted_shares = t.thinner;
        one_minute_vol = num 0;
        mid = r.mid;
        spread = r.spread;
        touch_depth = num 0;
        our_distance_cents = t.dist;
      })

  module _ (py : Python F) (fetch : String → Option (Json F)) (band_cents : F) where
    abbrev pub measure_token : String → Option (Measured F)
    measure_token tid = fetch tid >>= measure_book py band_cents

    -- The readings of all tokens, or none once one has none.
    unfoldable pub readings_of : List String → Option (List (Reading F))
    readings_of [] = some []
    readings_of (tid ∷ tids) = do
      m ← measure_token tid
      rest ← readings_of tids
      some (reading_of m ∷ rest)

    unfoldable pub fetch_book_stats : List String → Option (BookStats F)
    unfolding readings_of thinnest
    fetch_book_stats tids = readings_of tids >>= stats_of
