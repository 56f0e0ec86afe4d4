-- ===== src/Estimators/Clock.antt =====
-- strategy/estimators.py: the clock and the range of a time-decayed mean.
use polymaker.Prelude.{◌≡◌, refl, inl, inr, true, List, [], ◌∷◌, Bool-cases}
use polymaker.Float.{Float, IsFloat, ◌<◌, ◌≼◌, not_lt→le}
use polymaker.Estimators.{Ewma, update}

module _ {F : Type 0} ⦃fl : Float F⦄ where
  -- Observations, each with its timestamp, in the order they arrive.
  unfoldable update_all : List (F × F) → Ewma F → Ewma F
  update_all [] e = e
  update_all ((v, ts) ∷ os) e = update_all os (update v ts e)

  update_clock :
      (ok : IsFloat fl) (v ts : F) (e : Ewma F)
      → e.initialized ≡ true
      → (e.last_ts ≼ (update v ts e).last_ts) × ((update v ts e).initialized ≡ true)
  unfolding update
  update_clock ok v ts e h = elim (Bool-cases (ts < e.last_ts)) [
    | inl late ↦ rw (h, late) (ok.le_refl e.last_ts, refl)
    | inr due ↦ rw (h, due) (not_lt→le ok ts e.last_ts due, refl)
  ]

  -- The clock of a mean that has been seeded never goes back, in whatever order observations arrive.
  update_all-monotone :
      (ok : IsFloat fl) (os : List (F × F)) (e : Ewma F)
      → e.initialized ≡ true
      → e.last_ts ≼ (update_all os e).last_ts
  unfolding update_all
  update_all-monotone ok [] e h = ok.le_refl e.last_ts
  update_all-monotone ok ((v, ts) ∷ os) e h =
      let step = update_clock ok v ts e h in
      ok.le_trans e.last_ts (update v ts e).last_ts _ step.0
        (update_all-monotone ok os (update v ts e) step.1)
