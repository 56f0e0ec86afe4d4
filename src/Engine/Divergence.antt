-- ===== src/Engine/Divergence.antt =====
-- src/polymaker/engine.py: what a check against the chain leaves of each position
-- (_check_position_divergence), with the gateway's reads of the balances.
use polymaker.Prelude.{
  sym, some_inj, ap, keys-Distinct, mem-keys, select-Distinct, mem-select, String, ◌≡◌, refl, ◌∙◌,
  Option, none, some, List, [], ◌∷◌, Dict, lookup, keys, Unique, Distinct, lookup-insert, mem,
  nat_eq, select, if◌then◌else◌, arith, ◌==◌, ==→≡,
}
use polymaker.Float.{Float, num, ◌-◌, ◌*◌, ◌<◌, max, abs}
use polymaker.Domain.{ProtocolVersion, Position}
use polymaker.Store.{
  StateStore, inflight, position, clamped_position, force_set_position, set_position, put_position,
}
use polymaker.Engine.{Bool, Engine, wake_cid}
use polymaker.Engine.Sync.{
  check_position_divergence, wake_tokens, token_versions, correct_positions,
}
use polymaker.Gateway.Account.{token_balances}
use polymaker.Gateway.Routed.{on_ledger, token_balances-Routed, token_balances-Unique}

module _ {D F : Type 0} where
  -- The version of the market that a token belongs to.
  abbrev pub version_of : Engine D F → String → Option ProtocolVersion
  version_of e t = elim (lookup t e.token_cid) as (λ x. Option ProtocolVersion) [
    | none ↦ none
    | some cid ↦ elim (lookup cid e.markets) as (λ x. Option ProtocolVersion) [
      | none ↦ none
      | some m ↦ some m.meta.version
    ]
  ]

  wake_token-store : (t : String) (e : Engine D F) → (wake_tokens (t ∷ []) e).store ≡ e.store
  unfolding wake_tokens wake_cid
  wake_token-store t e = ground arith

  token_versions-lookup :
      (ts : List String) (e : Engine D F) (t : String)
      → lookup t (token_versions ts e) ≡ (if mem t ts then version_of e t else none)
  unfolding token_versions lookup
  token_versions-lookup [] e t = refl
  token_versions-lookup (k ∷ ts) e t = ground (arith, token_versions-lookup ts e t, ==→≡ k t)

  token_versions-Unique :
      (ts : List String) (e : Engine D F) → Distinct ts → Unique (token_versions ts e)
  unfolding token_versions
  token_versions-Unique [] e d = tt
  token_versions-Unique (k ∷ ts) e d =
      ground (arith, token_versions-lookup ts e k, token_versions-Unique ts e d.1)

module _ {F : Type 0} ⦃fl : Float F⦄ where
  -- A position after a check that read that many shares of it, if any.
  pub corrected : String → Option F → Position F → Position F
  corrected t none pos = pos
  corrected t (some chain_size) pos =
      if max (num 1) (fl.lit 2 2 * chain_size) < abs (pos.size - chain_size)
      then clamped_position t chain_size pos.avg_price
      else pos

  position-force_set_position :
      (k t : String) (size avg : F) (s : StateStore F)
      → position (force_set_position k size avg s) t
        ≡ (if k == t then clamped_position k size avg else position s t)
  unfolding position force_set_position set_position put_position clamped_position
  position-force_set_position k t size avg s =
      ground (arith, lookup-insert k t (clamped_position k size avg) s.positions)

module _ {D F : Type 0} ⦃fl : Float F⦄ where
  -- The tokens that a check reads: those of the markets it trades, less the ones with a trade in flight.
  abbrev pub watched : Engine D F → Dict ProtocolVersion
  watched e = token_versions (select (λ t. nat_eq (inflight e.store t) 0) (keys e.token_cid)) e

  correct_positions-position :
      (onchain : Dict F) (e : Engine D F) (t : String)
      → Unique onchain
      → position (correct_positions onchain e).store t
        ≡ corrected t (lookup t onchain) (position e.store t)
  unfolding correct_positions corrected lookup
  correct_positions-position [] e t u = refl
  correct_positions-position ((k, c) ∷ d) e t u =
      correct_positions-position d _ t u.1
      ∙ ground (
        arith,
        wake_token-store k
            (record e { store = force_set_position k c (position e.store k).avg_price e.store }),
        position-force_set_position k t c (position e.store k).avg_price e.store,
        ==→≡ k t,
      )

  -- The version under which a check reads a token, if it does: that of its market, unless a trade of the
  -- token is in flight.
  abbrev pub watched_as : Engine D F → String → Option ProtocolVersion
  watched_as e t = if nat_eq (inflight e.store t) 0 then version_of e t else none

  pub watched-lookup : (e : Engine D F) (t : String) → lookup t (watched e) ≡ watched_as e t
  watched-lookup e t =
      token_versions-lookup (select (λ k. nat_eq (inflight e.store k) 0) (keys e.token_cid)) e t
      ∙ ground (
        arith,
        mem-select (λ k. nat_eq (inflight e.store k) 0) t (keys e.token_cid),
        mem-keys t e.token_cid,
      )

  pub watched-Unique : (e : Engine D F) → Unique e.token_cid → Unique (watched e)
  watched-Unique e u =
      token_versions-Unique _ e (select-Distinct _ (keys e.token_cid) (keys-Distinct e.token_cid u))

  divergence_read :
      (read : Dict ProtocolVersion → Option (Dict F)) (e : Engine D F) (onchain : Dict F)
      → read [] ≡ some []
      → read (watched e) ≡ some onchain
      → check_position_divergence read e ≡ correct_positions onchain e
  unfolding check_position_divergence correct_positions
  divergence_read read e onchain z h = go (watched e) h
    where
      go :
          (versions : Dict ProtocolVersion)
          → read versions ≡ some onchain
          → elim versions as (λ x. Engine D F) [
            | [] ↦ e
            | v ∷ vs ↦ elim (read (v ∷ vs)) [ none ↦ e | some o ↦ correct_positions o e ]
          ]
            ≡ correct_positions onchain e
      go [] g = ap (λ o. correct_positions o e) (some_inj [] onchain (sym z ∙ g))
      go (v ∷ vs) g = rw g refl

  -- When the balances that a check asks for can be read, it leaves every token as `corrected` says. A
  -- token of a market the engine knows, without a trade in flight, is compared with what the ledger of that market's
  -- version shows of it: Conditional Tokens in version 1, PositionManager in version 2. Where the two
  -- sizes differ by more than a share and by more than a fiftieth of the shares on chain, the
  -- position takes the size on chain, clamped at zero, at the price it had. Every other token keeps
  -- its position.
  pub check_position_divergence-corrected :
      (rpc : Bool) (balance_of : String → String → Option F) (e : Engine D F) (onchain : Dict F)
      (t : String)
      → Unique e.token_cid
      → token_balances rpc balance_of (watched e) ≡ some onchain
      → position (check_position_divergence (token_balances rpc balance_of) e).store t
        ≡ corrected t (on_ledger balance_of t (watched_as e t)) (position e.store t)
  unfolding token_balances
  check_position_divergence-corrected rpc balance_of e onchain t u h =
      rw
        (
          divergence_read (token_balances rpc balance_of) e onchain refl h,
          ← watched-lookup e t,
          ← token_balances-Routed rpc balance_of (watched e) onchain t (watched-Unique e u) h,
        )
        (correct_positions-position onchain e t
          (token_balances-Unique rpc balance_of (watched e) onchain h))
