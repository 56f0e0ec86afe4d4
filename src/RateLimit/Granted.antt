-- ===== src/RateLimit/Granted.antt =====
-- src/polymaker/execution/ratelimit.py: what a granted request says of the bucket.
use polymaker.Prelude.{
  ℕ, zero, suc, ◌≡◌, refl, sym, ◌∙◌, ap, subst, inl, inr, true, false, Bool-cases, some, or_else,
  arith,
}
use polymaker.Float.{Float, IsFloat, num, ◌-◌, ◌<=◌, ◌≼◌, min_left}
use polymaker.RateLimit.{TokenBucket, refill, acquire}

module _ {F : Type 0} ⦃fl : Float F⦄ where
  -- What a grant of n tokens leaves: it was within the capacity, the capacity is untouched, and what
  -- is left is neither negative nor more than the capacity less the grant.
  pub record IsGrant (n : F) (b b' : TokenBucket F) : Type 0 where
    pub within_capacity : n ≼ b.capacity
    pub same_capacity : b'.capacity ≡ b.capacity
    pub not_overdrawn : num 0 ≼ b'.tokens
    pub spent : b'.tokens ≼ b.capacity - n

  refill_capped : IsFloat fl → (now : F) (b : TokenBucket F) → (refill now b).tokens ≼ b.capacity
  unfolding refill
  refill_capped ok now b = min_left ok _ _

  refill-IsGrant :
      IsFloat fl
      → (n now : F) (b : TokenBucket F) → n ≼ (refill now b).tokens
      → IsGrant n b (record (refill now b) { tokens = (refill now b).tokens - n })
  unfolding refill
  refill-IsGrant ok n now b h = record {
    within_capacity = ok.le_trans _ _ _ h (refill_capped ok now b);
    same_capacity = refl;
    not_overdrawn =
        subst (λ z. z ≼ (refill now b).tokens - n) (ok.sub_self n)
          (ok.sub_mono n _ n n h (ok.le_refl n));
    spent = ok.sub_mono _ _ n n (refill_capped ok now b) (ok.le_refl n);
  }

  -- Whatever the clock shows in each round and however long the wait, a request is granted only
  -- within the burst capacity, and it leaves no overdraft and at most the capacity less the grant. A
  -- request for more than the capacity is therefore never granted: the call waits for ever.
  pub acquire-IsGrant :
      IsFloat fl
      → (clock : ℕ → F) (n : F) (i fuel : ℕ) (b b' : TokenBucket F)
      → acquire clock n i fuel b ≡ some b'
      → IsGrant n b b'
  unfolding acquire refill
  acquire-IsGrant ok clock n i zero b b' h = ground arith
  acquire-IsGrant ok clock n i (suc fuel) b b' h =
      elim (Bool-cases (n <= (refill (clock i) b).tokens)) [
        | inl e ↦
            subst (IsGrant n b) (ap (or_else b') (sym (granted e) ∙ h))
              (refill-IsGrant ok n (clock i) b e)
        | inr e ↦
            later
              (acquire-IsGrant ok clock n (suc i) fuel (refill (clock i) b) b' (sym (waits e) ∙ h))
      ]
    where
      granted :
          (n <= (refill (clock i) b).tokens) ≡ true
          → acquire clock n i (suc fuel) b
            ≡ some (record (refill (clock i) b) { tokens = (refill (clock i) b).tokens - n })
      granted e = rw (acquire, e) refl

      waits :
          (n <= (refill (clock i) b).tokens) ≡ false
          → acquire clock n i (suc fuel) b ≡ acquire clock n (suc i) fuel (refill (clock i) b)
      waits e = rw (acquire, e) refl

      later : IsGrant n (refill (clock i) b) b' → IsGrant n b b'
      later g = record {
        within_capacity = g.within_capacity;
        same_capacity = g.same_capacity;
        not_overdrawn = g.not_overdrawn;
        spent = g.spent;
      }
