-- ===== src/RateLimit.antt =====
-- src/polymaker/execution/ratelimit.py: the token bucket of the order budget. `time.monotonic()` at
-- round i of the waiting loop is `clock i`; the loop has fuel, and out of fuel is still waiting.
pub mod Granted
use polymaker.Prelude.{ℕ, zero, suc, Option, none, some, if◌then◌else◌}
use polymaker.Float.{Float, num, ◌+◌, ◌-◌, ◌*◌, ◌/◌, ◌<=◌, min, max}

pub record TokenBucket (F : Type 0) : Type 0 where
  pub rate : F
  pub capacity : F
  pub tokens : F
  pub last : F

module _ {F : Type 0} ⦃fl : Float F⦄ where
  unfoldable pub new_bucket : F → Option F → F → TokenBucket F
  new_bucket rate_per_s burst now =
      let capacity : F = elim burst as (λ x. F) [ none ↦ max (num 1) rate_per_s | some b ↦ b ] in
      record {
        rate = max rate_per_s (fl.lit 1 3);
        capacity = capacity;
        tokens = capacity;
        last = now;
      }

  -- `_refill`
  unfoldable pub refill : F → TokenBucket F → TokenBucket F
  refill now b = record b {
    tokens = min b.capacity (b.tokens + (now - b.last) * b.rate);
    last = now;
  }

  -- `acquire` from round i on: the bucket when the tokens are granted.
  unfoldable pub acquire : (ℕ → F) → F → ℕ → ℕ → TokenBucket F → Option (TokenBucket F)
  unfolding refill
  acquire clock n i zero b = none
  acquire clock n i (suc fuel) b =
      let full = refill (clock i) b in
      let later = acquire clock n (suc i) fuel full in
      if n <= full.tokens then some (record full { tokens = full.tokens - n }) else later

  -- `pressure`, and the bucket after its refill.
  unfoldable pub pressure : F → TokenBucket F → F × TokenBucket F
  unfolding refill
  pressure now b =
      let full = refill now b in (num 1 - min (num 1) (full.tokens / full.capacity), full)
