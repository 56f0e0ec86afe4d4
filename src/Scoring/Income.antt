-- ===== src/Scoring/Income.antt =====
-- catalog/scoring.py: how much of a reward pool is claimed.
use polymaker.Prelude.{subst, ◌≡◌, inl, inr, true, Option, none, some, Bool-cases}
use polymaker.Float.{
  Float, IsFloat, num, ◌+◌, ◌*◌, ◌/◌, ◌<=◌, ◌<◌, ◌≼◌, max, lt→le, not_le→lt, lt-lt_of_le,
  div_nonneg, mul_nonneg,
}
use polymaker.Domain.{MarketMeta}
use polymaker.Scoring.{
  BookStats, reward_daily_income, reward_score_weight, min_qualifying_shares, band_reachable,
}

module _ {F : Type 0} ⦃fl : Float F⦄ (ok : IsFloat fl) where
  -- A share x / (y + x) of positive parts lies in [0, 1].
  share_bounds :
      (x y : F)
      → (num 0 < x) ≡ true
      → (num 0 < y) ≡ true
      → (num 0 ≼ x / (y + x)) × (x / (y + x) ≼ num 1)
  share_bounds x y hx hy =
      let grows : x ≼ y + x =
        subst (λ z. z ≼ y + x) (ok.zero_add x)
          (ok.add_mono (num 0) y x x (lt→le ok (num 0) y hy) (ok.le_refl x)) in
      let positive = lt-lt_of_le ok (num 0) x (y + x) hx grows in
      (
        div_nonneg ok x (y + x) (lt→le ok (num 0) x hx) positive,
        subst (λ z. x / (y + x) ≼ z) (ok.div_self (y + x) positive)
            (ok.div_mono x (y + x) (y + x) positive grows),
      )

  -- The income claimed of a market is never negative and never more than its whole daily pool.
  reward_daily_income_bounds :
      (m : MarketMeta F) (book : Option (BookStats F))
      → num 0 ≼ m.rewards_daily_rate
      → (num 0 ≼ reward_daily_income m book) × (reward_daily_income m book ≼ m.rewards_daily_rate)
  unfolding reward_daily_income
  reward_daily_income_bounds m none h = (ok.le_refl (num 0), h)
  reward_daily_income_bounds m (some book) h =
      let rate = m.rewards_daily_rate in
      let shares = min_qualifying_shares m in
      let existing = max book.weighted_shares (num 0) in
      let our = shares * reward_score_weight book.our_distance_cents m.rewards_max_spread in
      let nothing : (fl.le (num 0) (num 0) ≡ true) × (fl.le (num 0) rate ≡ true) =
        (ok.le_refl (num 0), h) in
      elim (Bool-cases (shares <= num 0)) [
        | inl a ↦ rw a nothing
        | inr a ↦ rw a (elim (Bool-cases (band_reachable m (some book))) [
          | inr b ↦ rw b nothing
          | inl b ↦ rw b (elim (Bool-cases (existing <= num 0)) [
            | inl c ↦ rw c nothing
            | inr c ↦ rw c (elim (Bool-cases (our <= num 0)) [
              | inl d ↦ rw d nothing
              | inr d ↦
                  let share =
                    share_bounds our existing (not_le→lt ok (num 0) our d)
                      (not_le→lt ok (num 0) existing c) in
                  rw d (
                    mul_nonneg ok rate (our / (existing + our)) h share.0,
                    subst (λ z. rate * (our / (existing + our)) ≼ z) (ok.mul_one rate)
                        (ok.mul_mono rate rate (our / (existing + our)) (num 1) h share.0
                          (ok.le_refl rate) share.1),
                  )
            ])
          ])
        ])
      ]
