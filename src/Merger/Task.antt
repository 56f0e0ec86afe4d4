-- ===== src/Merger/Task.antt =====
-- src/polymaker/engine.py, `_merge_task`: the amount of a merge and its submission.
use polymaker.Prelude.{
  ℕ, String, not, Option, none, some, List, [], ◌==◌, Dict, get_or, select, if◌then◌else◌,
}
use polymaker.Float.{Float, num, ◌*◌, ◌<=◌, ◌<◌, min}
use polymaker.Domain.{MarketMeta}
use polymaker.Engine.{Engine}
use polymaker.Merger.{MergeConfig, Submission, Receipt, merge}

module _ {F : Type 0} ⦃fl : Float F⦄ where
  -- `int(x)`
  abbrev pub int_of : F → F
  int_of x = if x < num 0 then fl.neg (fl.floor (fl.neg x)) else fl.floor x

  -- The pairs that both ledgers hold, at most the scheduled amount.
  unfoldable pub held_pairs : MarketMeta F → F → Dict F → F
  held_pairs meta amount bals =
      min (min amount (get_or (num 0) meta.yes_token.token_id bals))
        (get_or (num 0) meta.no_token.token_id bals)

  -- The body of `_merge_task` under the chain lock, given the balances that were read.
  unfoldable pub merge_held :
      MergeConfig
      → (Submission F → Option Receipt)
      → List ℕ
      → Option ℕ
      → MarketMeta F
      → F
      → Option (Dict F)
      → List (Submission F) × Option String
  unfolding held_pairs
  merge_held cfg submit condition position_id meta amount none = ([], none)
  merge_held cfg submit condition position_id meta amount (some bals) =
      let raw = int_of (held_pairs meta amount bals * num 1_000_000) in
      if raw <= num 0
      then ([], none)
      else merge cfg submit condition raw meta.neg_risk meta.version position_id

module _ {D F : Type 0} ⦃fl : Float F⦄ where
  -- The `finally` of `_merge_task`: another merge of the market may be scheduled.
  unfoldable pub end_merge : String → Engine D F → Engine D F
  end_merge cid e = record e { merging = select (λ c. not (c == cid)) e.merging }
