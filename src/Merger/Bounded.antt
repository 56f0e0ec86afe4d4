-- ===== src/Merger/Bounded.antt =====
-- src/polymaker/merge.py and `_merge_task` of src/polymaker/engine.py: what a merge may submit.
use polymaker.Prelude.{
  ℕ, ◌≡◌, refl, sym, subst, inl, inr, String, Bool, true, false, not, ◌||◌, Bool-cases,
  Option-cases, Option, some, List, [], ◌∷◌, All, Dict, get_or, nat_eq, arith,
}
use polymaker.Float.{Float, IsFloat, num, ◌*◌, ◌<=◌, ◌<◌, ◌≼◌, min_left, min_right, lt→le}
use polymaker.Domain.{MarketMeta, ProtocolVersion, v1, v2, is_ctf}
use polymaker.Merger.{
  MergeConfig, Submission, Receipt, can_merge, merge, merge_v1, merge_v2, inner_merge_call,
  v2_condition_bytes31,
}
use polymaker.Merger.Task.{int_of, held_pairs, merge_held}

-- What a submission needs: a path that can run, the gate of version 2, and the amount asked for.
pub record IsAllowed {F : Type 0} (able enabled : Bool) (version : ProtocolVersion) (amount : F)
    (sub : Submission F) : Type 0 where
  pub can_run : able ≡ true
  pub gated : (is_ctf version || enabled) ≡ true
  pub of_amount : sub.amount ≡ amount

-- At most one submission, and that one allowed.
abbrev pub AtMostOne :
    {F : Type 0} → Bool → Bool → ProtocolVersion → F → List (Submission F) → Type 0
AtMostOne able enabled version amount [] = Unit
AtMostOne able enabled version amount (sub ∷ []) = IsAllowed able enabled version amount sub
AtMostOne able enabled version amount (_ ∷ _ ∷ _) = ⊥

module _ {F : Type 0} (cfg : MergeConfig) (submit : Submission F → Option Receipt) (cond : List ℕ)
    (amount : F) where
  merge_v1-AtMostOne :
      (neg_risk able enabled : Bool)
      → able ≡ true
      → AtMostOne able enabled v1 amount (merge_v1 cfg submit cond amount neg_risk).0
  unfolding merge_v1 inner_merge_call
  merge_v1-AtMostOne neg_risk able enabled a = elim (Bool-cases cfg.rpc_usable) [
    | inr h ↦ rw h tt
    | inl h ↦ rw h (elim (Bool-cases (nat_eq cfg.signature_type 0)) [
      | inl k ↦ rw k (record { can_run = a; gated = refl; of_amount = refl })
      | inr k ↦ rw k (elim (Bool-cases (nat_eq cfg.signature_type 2)) [
        | inl f ↦ rw f (record { can_run = a; gated = refl; of_amount = refl })
        | inr f ↦ rw f (record { can_run = a; gated = refl; of_amount = refl })
      ])
    ])
  ]

  merge_v2-AtMostOne :
      (position_id : Option ℕ) (able enabled : Bool)
      → able ≡ true
      → cfg.merge_v2_enabled ≡ enabled
      → AtMostOne able enabled v2 amount (merge_v2 cfg submit cond amount position_id).0
  unfolding merge_v2
  merge_v2-AtMostOne position_id able false a e = rw e tt
  merge_v2-AtMostOne position_id able true a e = rw e (elim (Bool-cases cfg.rpc_usable) [
    | inr k ↦ rw k tt
    | inl k ↦ rw k (elim (Option-cases (v2_condition_bytes31 cond position_id)) [
      | inl f ↦ rw (f, merge_v2) tt
      | inr (bs, f) ↦ rw (f, merge_v2) (record { can_run = a; gated = refl; of_amount = refl })
    ])
  ])

module _ {F : Type 0} ⦃fl : Float F⦄ where
  merge-AtMostOne :
      (cfg : MergeConfig) (submit : Submission F → Option Receipt) (cond : List ℕ) (raw : F)
      (neg_risk : Bool) (version : ProtocolVersion) (position_id : Option ℕ)
      → AtMostOne
          (can_merge cfg)
          cfg.merge_v2_enabled
          version
          raw
          (merge cfg submit cond raw neg_risk version position_id).0
  unfolding merge
  merge-AtMostOne cfg submit cond raw neg_risk version position_id =
      elim (Bool-cases ((raw <= num 0) || not (can_merge cfg))) [
        | inl h ↦ rw h tt
        | inr h ↦ rw h (by_version version (ground arith))
      ]
    where
      by_version :
          (v : ProtocolVersion)
          → can_merge cfg ≡ true
          → AtMostOne
              (can_merge cfg)
              cfg.merge_v2_enabled
              v
              raw
              (elim v as (λ x. List (Submission F) × Option String) [
                | v1 ↦ merge_v1 cfg submit cond raw neg_risk
                | v2 ↦ merge_v2 cfg submit cond raw position_id
              ]).0
      by_version v1 a = merge_v1-AtMostOne cfg submit cond raw neg_risk _ _ a
      by_version v2 a = merge_v2-AtMostOne cfg submit cond raw position_id _ _ a refl

  -- How the amount of a submission stands to the balances.
  pub record IsCovered (meta : MarketMeta F) (amount : F) (bals : Dict F) (raw : F) : Type 0 where
    pub held : raw ≼ held_pairs meta amount bals * num 1_000_000
    pub scheduled : held_pairs meta amount bals ≼ amount
    pub held_yes : held_pairs meta amount bals ≼ get_or (num 0) meta.yes_token.token_id bals
    pub held_no : held_pairs meta amount bals ≼ get_or (num 0) meta.no_token.token_id bals

  -- `int` of a negative value is not positive.
  int_of_negative : IsFloat fl → (x : F) → (x < num 0) ≡ true → fl.neg (fl.floor (fl.neg x)) ≼ num 0
  int_of_negative ok x h =
      let flipped =
        subst (λ z. z ≼ fl.neg x) ok.neg_zero (ok.neg_mono x (num 0) (lt→le ok x (num 0) h)) in
      let floored =
        subst (λ z. z ≼ fl.floor (fl.neg x)) ok.floor_zero (ok.floor_mono _ _ flipped) in
      subst (λ z. fl.neg (fl.floor (fl.neg x)) ≼ z) ok.neg_zero (ok.neg_mono _ _ floored)

  -- `int` of a value never exceeds it, where the result is positive.
  int_of_le : IsFloat fl → (x : F) → (int_of x <= num 0) ≡ false → int_of x ≼ x
  int_of_le ok x h = elim (Bool-cases (x < num 0)) [
    | inl e ↦ ground (arith, int_of_negative ok x e, h, e)
    | inr e ↦ rw e (ok.floor_le x)
  ]

  held_pairs-IsCovered :
      IsFloat fl
      → (meta : MarketMeta F) (amount : F) (bals : Dict F) (raw : F)
      → raw ≼ held_pairs meta amount bals * num 1_000_000
      → IsCovered meta amount bals raw
  unfolding held_pairs
  held_pairs-IsCovered ok meta amount bals raw h = record {
    held = h;
    scheduled = ok.le_trans _ _ _ (min_left ok _ _) (min_left ok _ _);
    held_yes = ok.le_trans _ _ _ (min_left ok _ _) (min_right ok _ _);
    held_no = min_right ok _ _;
  }

  covers :
      (able enabled : Bool) (version : ProtocolVersion) (meta : MarketMeta F) (amount : F)
      (bals : Dict F) (raw : F) (subs : List (Submission F))
      → AtMostOne able enabled version raw subs
      → IsCovered meta amount bals raw
      → All (λ sub. IsCovered meta amount bals sub.amount) subs
  covers able enabled version meta amount bals raw [] one c = tt
  covers able enabled version meta amount bals raw (sub ∷ []) one c =
      (subst (IsCovered meta amount bals) (sym one.of_amount) c, tt)
  covers able enabled version meta amount bals raw (_ ∷ _ ∷ _) one c = elim one [ ]

  -- At any settings, answers of the chain and balances that were read, a merge task submits at most
  -- one transaction. It does so only if a merge path can run and, in a version 2 market, only if the
  -- gate for version 2 is set; and its amount is the whole number of base units of a count of pairs
  -- that is at most the scheduled one and at most what either ledger holds.
  pub merge_held-IsCovered :
      IsFloat fl
      → (cfg : MergeConfig) (submit : Submission F → Option Receipt) (cond : List ℕ)
        (position_id : Option ℕ) (meta : MarketMeta F) (amount : F) (bals : Dict F)
      → AtMostOne
          (can_merge cfg)
          cfg.merge_v2_enabled
          meta.version
          (int_of (held_pairs meta amount bals * num 1_000_000))
          (merge_held cfg submit cond position_id meta amount (some bals)).0
        × All
            (λ sub. IsCovered meta amount bals sub.amount)
            (merge_held cfg submit cond position_id meta amount (some bals)).0
  unfolding merge_held
  merge_held-IsCovered ok cfg submit cond position_id meta amount bals =
      let pairs = held_pairs meta amount bals * num 1_000_000 in
      elim (Bool-cases (int_of pairs <= num 0)) [
        | inl h ↦ rw h (tt, tt)
        | inr h ↦ rw h (
            let one =
              merge-AtMostOne cfg submit cond (int_of pairs) meta.neg_risk meta.version
                position_id in
            (
              one,
              covers _ _ _ meta amount bals (int_of pairs) _ one
                  (held_pairs-IsCovered ok meta amount bals (int_of pairs) (int_of_le ok pairs h)),
            ))
      ]
