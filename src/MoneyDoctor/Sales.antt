-- ===== src/MoneyDoctor/Sales.antt =====
-- src/polymaker/moneydoctor.py: the sales of a run (_sell_with_retry), how many they are and of what amounts.
use polymaker.Prelude.{
  ℕ, zero, suc, ◌+◌, ◌≤◌, ◌<◌, ◌≡◌, refl, inl, inr, Bool, true, false, Bool-cases, Option, none,
  some, Option-cases, [], ◌∷◌, List, length, arith,
}
use polymaker.Float.{Float, num, ◌<◌ as lt, max}
use polymaker.Domain.{sell}
use polymaker.Wire.{Json, Python}
use polymaker.MoneyDoctor.{was_filled, floor_cents, retry, sell_with_retry}

module _ {F : Type 0} ⦃fl : Float F⦄ (py : Python F) where
  retry_sold :
      (min_size amount : F) (bal : Option F) (again : F → Bool × List F)
      → (retry py min_size amount bal again).0 ≡ true
      → (next : F) × ((again next).0 ≡ true)
  retry_sold min_size amount none again h = ground arith
  retry_sold min_size amount (some bal) again h =
      (floor_cents py (max (num 0) bal), ground (arith, h))

  pub sold_within :
      (sold : ℕ → Json F) (held : ℕ → Option F) (min_size : F) (n i : ℕ) (amount : F)
      → (sell_with_retry py sold held min_size n i amount).0 ≡ true
      → (k : ℕ) × (k < i + n) × (was_filled py (sold k) sell ≡ true)
  unfolding sell_with_retry
  sold_within sold held min_size zero i amount h = ground arith
  sold_within sold held min_size (suc n) i amount h =
      elim (Bool-cases (was_filled py (sold i) sell)) [
        | inl e ↦ (i, omega arith, e)
        | inr e ↦
            let (next, g) =
              retry_sold min_size amount (held i) (sell_with_retry py sold held min_size n (suc i))
                (rw e at h) in
            let (k, b, f) = sold_within sold held min_size n (suc i) next g in
            (k, omega (arith, b), f)
      ]

  length-retry :
      (n : ℕ) (min_size amount : F) (bal : Option F) (again : F → Bool × List F)
      → ((x : F) → length (again x).1 ≤ n)
      → length (retry py min_size amount bal again).1 ≤ suc n
  length-retry n min_size amount none again h = omega arith
  length-retry n min_size amount (some b) again h =
      elim (Bool-cases (lt (floor_cents py (max (num 0) b)) min_size)) [
        | inl e ↦ rw e (omega arith)
        | inr e ↦ rw e (omega (arith, h (floor_cents py (max (num 0) b))))
      ]

  length-sell_with_retry :
      (sold : ℕ → Json F) (held : ℕ → Option F) (min_size : F) (n i : ℕ) (amount : F)
      → length (sell_with_retry py sold held min_size n i amount).1 ≤ n
  unfolding sell_with_retry
  length-sell_with_retry sold held min_size zero i amount = omega arith
  length-sell_with_retry sold held min_size (suc n) i amount =
      elim (Bool-cases (was_filled py (sold i) sell)) [
        | inl e ↦ rw e (omega arith)
        | inr e ↦ rw e (
            length-retry n min_size amount (held i) _
              (length-sell_with_retry sold held min_size n (suc i)))
      ]

  -- The amounts of the sales after number i: each follows a sale that was not filled, and is what the
  -- chain showed after that very sale, in whole cents and not below the minimum.
  pub Resold : (ℕ → Json F) → (ℕ → Option F) → F → ℕ → List F → Type 0
  Resold sold held min_size i [] = Unit
  Resold sold held min_size i (x ∷ xs) =
      (was_filled py (sold i) sell ≡ false)
      × ((bal : F) × (held i ≡ some bal) × (x ≡ floor_cents py (max (num 0) bal)))
      × (lt x min_size ≡ false)
      × Resold sold held min_size (suc i) xs

  -- The amounts of the sales from number i on: the first is the one that was asked for.
  pub IsSized : (ℕ → Json F) → (ℕ → Option F) → F → ℕ → F → List F → Type 0
  IsSized sold held min_size i amount [] = Unit
  IsSized sold held min_size i amount (x ∷ xs) = (x ≡ amount) × Resold sold held min_size i xs

  sized-Resold :
      (sold : ℕ → Json F) (held : ℕ → Option F) (min_size : F) (i : ℕ) (bal : F) (xs : List F)
      → was_filled py (sold i) sell ≡ false
      → held i ≡ some bal
      → lt (floor_cents py (max (num 0) bal)) min_size ≡ false
      → IsSized sold held min_size (suc i) (floor_cents py (max (num 0) bal)) xs
      → Resold sold held min_size i xs
  unfolding Resold IsSized
  sized-Resold sold held min_size i bal [] e f g h = tt
  sized-Resold sold held min_size i bal (x ∷ xs) e f g h = (e, (bal, f, h.0), (rw h.0 g), h.1)

  sold-IsSized :
      (sold : ℕ → Json F) (held : ℕ → Option F) (min_size : F) (n i : ℕ) (amount : F)
      → IsSized sold held min_size i amount (sell_with_retry py sold held min_size n i amount).1
  unfolding sell_with_retry Resold IsSized
  sold-IsSized sold held min_size zero i amount = tt
  sold-IsSized sold held min_size (suc n) i amount =
      elim (Bool-cases (was_filled py (sold i) sell)) [
        | inl e ↦ rw e (refl, tt)
        | inr e ↦ elim (Option-cases (held i)) [
          | inl f ↦ rw (e, f) (refl, tt)
          | inr (b, f) ↦ elim (Bool-cases (lt (floor_cents py (max (num 0) b)) min_size)) [
            | inl g ↦ rw (e, f, g) (refl, tt)
            | inr g ↦
                rw (e, f, g)
                  (
                    refl,
                    sized-Resold sold held min_size i b _ e f g
                        (sold-IsSized sold held min_size n (suc i) _),
                  )
          ]
        ]
      ]

  -- The sales of a run are at most five. The first is of the amount that was asked for. Every later one
  -- follows a sale that was not filled, and is of the balance that the chain showed after that sale, in
  -- whole cents, which is never below the exchange's minimum.
  pub sell_with_retry-IsSized :
      (sold : ℕ → Json F) (held : ℕ → Option F) (min_size amount : F)
      → (length (sell_with_retry py sold held min_size 5 0 amount).1 ≤ 5)
        × IsSized sold held min_size 0 amount (sell_with_retry py sold held min_size 5 0 amount).1
  sell_with_retry-IsSized sold held min_size amount = (
    length-sell_with_retry sold held min_size 5 0 amount,
    sold-IsSized sold held min_size 5 0 amount,
  )
