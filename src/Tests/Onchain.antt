-- ===== src/Tests/Onchain.antt =====
-- The theorems on reads of the account at concrete inputs: a market of each version.
use polymaker.Prelude.{
  ◌≡◌, refl, String, true, Option, some, none, [], ◌∷◌, Dict, lookup, ◌==◌, if◌then◌else◌, insert,
}
use polymaker.Prelude.Int.{ℤ}
use polymaker.Float.{nano, div_nano}
use polymaker.Domain.{v2}
use polymaker.Ledger.{ctf_ledger, position_manager}
use polymaker.Gateway.Account.{token_balances}
use polymaker.Gateway.Routed.{on_ledger}
use polymaker.Store.{position}
use polymaker.Engine.{Engine, Market}
use polymaker.Engine.Unreadable.{SamePositions, SameAccount, unreadable-SameAccount}
use polymaker.Engine.Sync.{
  reconcile_round, heartbeat_beat, token_versions, check_position_divergence,
}
use polymaker.Engine.Divergence.{
  corrected, watched, watched_as, check_position_divergence-corrected,
}
use polymaker.Tests.{cents, sample_order, units, sample_market, sample_store}
use polymaker.Tests.Live.{closed, sample, settings}
use polymaker.Tests.Sorted.{Rows}

abbrev second : Market ℤ
second = record sample { meta = record sample_market { condition_id = "c2"; version = v2 } }

-- Two markets, of one token each.
abbrev engine : Engine Rows ℤ
engine = record closed {
  markets = ("c1", sample) ∷ ("c2", second) ∷ [];
  token_cid = ("71", "c1") ∷ ("72", "c2") ∷ [];
  store = sample_store;
}

-- Each ledger shows nothing of the other's tokens.
abbrev chain : String → String → Option ℤ
chain ledger t =
    if ledger == ctf_ledger
    then (if t == "71" then some (units 9_000_000) else some (units 0))
    else if ledger == position_manager
    then (if t == "72" then some (units 7_000_000) else some (units 0))
    else none

abbrev balances : Dict ℤ
balances = ("71", units 9) ∷ ("72", units 7) ∷ []

balances_read : token_balances true chain (watched engine) ≡ some balances
unfolding token_balances token_versions lookup insert nano div_nano
balances_read = refl

check_position_divergence-corrected_example :
    position (check_position_divergence (token_balances true chain) engine).store "72"
    ≡ corrected "72" (on_ledger chain "72" (watched_as engine "72")) (position engine.store "72")
unfolding lookup
check_position_divergence-corrected_example =
    check_position_divergence-corrected true chain engine balances "72" (refl, (refl, tt))
      balances_read

-- The ledger of the second market does not answer.
abbrev half_chain : String → String → Option ℤ
half_chain ledger t = if ledger == ctf_ledger then some (units 9_000_000) else none

unreadable-SameAccount_example :
    SamePositions engine.store
      (reconcile_round settings (units 50) none (some (sample_order ∷ [])) engine).store
    × ((reconcile_round settings
          (units 50)
          (some (("71", (units 3, cents 40)) ∷ []))
          none
          engine).store.orders
        ≡ engine.store.orders)
    × SameAccount engine.store (heartbeat_beat settings (units 50) true 0 (λ m. none) engine).store
    × SameAccount engine.store
        (check_position_divergence (token_balances true half_chain) engine).store
unfolding lookup
unreadable-SameAccount_example =
    unreadable-SameAccount settings (units 50) true 0 engine (some (sample_order ∷ []))
      (some (("71", (units 3, cents 40)) ∷ [])) true half_chain "72" v2 (refl, (refl, tt)) refl refl
