-- ===== src/Merger.antt =====
-- src/polymaker/merge.py: which transaction a merge submits, and what its caller learns. Signing, the
-- gas fields and the RPC are parameters: a submission is answered by a receipt, or raises. A condition
-- id is the bytes that its text stands for, as in Ledger; an amount is a whole number of base units.
-- `_relay_deposit_wallet_call` and the Safe's wrapping differ in the signing only, and are routes.
pub mod Task
pub mod Bounded
use polymaker.Prelude.{
  ℕ, zero, suc, ◌-◌ as sub_nat, String, Bool, true, false, not, ◌&&◌, ◌||◌, Option, none, some,
  List, [], ◌∷◌, ◌++◌, nat_eq, length, if◌then◌else◌,
}
use polymaker.Float.{Float, num, ◌<=◌}
use polymaker.Domain.{ProtocolVersion, v1, v2}
use polymaker.Ledger.{narrow_bytes, v2_condition_id_bytes31}

pub data Contract : Type 0 where
  conditional_tokens neg_risk_adapter router : Contract

-- Who sends: the signer, the Safe's execTransaction, or the relayer's wallet.
pub data Route : Type 0 where
  from_signer from_safe from_deposit_wallet : Route

pub record Submission (F : Type 0) : Type 0 where
  pub route : Route
  pub contract : Contract
  pub condition : List ℕ
  pub amount : F

pub record Receipt : Type 0 where
  pub tx_hash : String
  pub status : ℕ

-- The settings of `cfg` that a merge reads, with whether an RPC endpoint answers.
pub record MergeConfig : Type 0 where
  pub signature_type : ℕ
  pub has_builder_creds : Bool
  pub merge_v2_enabled : Bool
  pub rpc_usable : Bool

unfoldable pub can_merge_v1 : MergeConfig → Bool
can_merge_v1 cfg =
    if nat_eq cfg.signature_type 0 || nat_eq cfg.signature_type 2
    then true
    else cfg.has_builder_creds

unfoldable pub can_merge_v2 : MergeConfig → Bool
unfolding can_merge_v1
can_merge_v2 cfg = if not cfg.merge_v2_enabled then false else can_merge_v1 cfg

unfoldable pub can_merge : MergeConfig → Bool
unfolding can_merge_v1 can_merge_v2
can_merge cfg = can_merge_v1 cfg || can_merge_v2 cfg

-- n zero bytes in front.
abbrev pub zeros : ℕ → List ℕ → List ℕ
zeros zero bs = bs
zeros (suc n) bs = 0 ∷ zeros n bs

-- `_to_bytes32`
unfoldable pub to_bytes32 : List ℕ → List ℕ
to_bytes32 raw = zeros (sub_nat 32 (length raw)) raw

-- `_v2_condition_bytes31`; the position id is none where it is missing or no number.
unfoldable pub v2_condition_bytes31 : List ℕ → Option ℕ → Option (List ℕ)
v2_condition_bytes31 condition position_id =
    elim (narrow_bytes condition) as (λ x. Option (List ℕ)) [
      | some bs ↦ some bs
      | none ↦ elim position_id as (λ x. Option (List ℕ)) [
        | none ↦ none
        | some id ↦ v2_condition_id_bytes31 id
      ]
    ]

module _ {F : Type 0} where
  -- The call of `_inner_merge_call` and `_merge_eoa`.
  unfoldable pub inner_merge_call : Route → List ℕ → F → Bool → Submission F
  unfolding to_bytes32
  inner_merge_call route condition amount neg_risk = record {
    route = route;
    contract = if neg_risk then neg_risk_adapter else conditional_tokens;
    condition = to_bytes32 condition;
    amount = amount;
  }

  -- A submission whose reverted receipt raises: `_merge_safe`, `_merge_deposit_wallet`, `_merge_v2`.
  unfoldable pub submit_checked : (Submission F → Option Receipt) → Submission F → Option String
  submit_checked submit sub = elim (submit sub) as (λ x. Option String) [
    | none ↦ none
    | some r ↦ if nat_eq r.status 1 then some r.tx_hash else none
  ]

  -- `_merge_eoa` does not look at the status.
  unfoldable pub submit_unchecked : (Submission F → Option Receipt) → Submission F → Option String
  submit_unchecked submit sub = elim (submit sub) as (λ x. Option String) [
    | none ↦ none
    | some r ↦ some r.tx_hash
  ]

  -- `_merge_v2`: the submissions made and the transaction hash, none where a step raised or refused.
  unfoldable pub merge_v2 :
      MergeConfig
      → (Submission F → Option Receipt)
      → List ℕ
      → F
      → Option ℕ
      → List (Submission F) × Option String
  unfolding v2_condition_bytes31 submit_checked
  merge_v2 cfg submit condition amount position_id =
      let route =
        if nat_eq cfg.signature_type 0 || nat_eq cfg.signature_type 2
        then from_signer
        else from_deposit_wallet in
      if not cfg.merge_v2_enabled || not cfg.rpc_usable
      then ([], none)
      else elim (v2_condition_bytes31 condition position_id)
          as (λ x. List (Submission F) × Option String) [
            | none ↦ ([], none)
            | some cond ↦
                let sub : Submission F = record {
                  route = route;
                  contract = router;
                  condition = cond;
                  amount = amount;
                } in
                (sub ∷ [], submit_checked submit sub)
          ]

  -- `_merge_eoa`, `_merge_safe` and `_merge_deposit_wallet`, by the signature type.
  unfoldable pub merge_v1 :
      MergeConfig
      → (Submission F → Option Receipt)
      → List ℕ
      → F
      → Bool
      → List (Submission F) × Option String
  unfolding inner_merge_call submit_checked submit_unchecked
  merge_v1 cfg submit condition amount neg_risk =
      let eoa = inner_merge_call from_signer condition amount neg_risk in
      let safe = inner_merge_call from_safe condition amount neg_risk in
      let deposit = inner_merge_call from_deposit_wallet condition amount neg_risk in
      if not cfg.rpc_usable
      then ([], none)
      else if nat_eq cfg.signature_type 0
      then (eoa ∷ [], submit_unchecked submit eoa)
      else if nat_eq cfg.signature_type 2
      then (safe ∷ [], submit_checked submit safe)
      else (deposit ∷ [], submit_checked submit deposit)

module _ {F : Type 0} ⦃fl : Float F⦄ where
  -- `merge`
  unfoldable pub merge :
      MergeConfig
      → (Submission F → Option Receipt)
      → List ℕ
      → F
      → Bool
      → ProtocolVersion
      → Option ℕ
      → List (Submission F) × Option String
  unfolding can_merge merge_v1 merge_v2
  merge cfg submit condition amount_raw neg_risk version position_id =
      if (amount_raw <= num 0) || not (can_merge cfg)
      then ([], none)
      else elim (version) as (λ x. List (Submission F) × Option String) [
        | v1 ↦ merge_v1 cfg submit condition amount_raw neg_risk
        | v2 ↦ merge_v2 cfg submit condition amount_raw position_id
      ]
