-- ===== src/Risk/Window.antt =====
-- risk/manager.py: the rolling window of the error-rate breaker.
use polymaker.Prelude.{◌≡◌, refl, sym, ap, inl, inr, Bool, List, [], ◌∷◌, select, All, Bool-cases}
use polymaker.Float.{Float, IsFloat, ◌<◌, ◌≼◌, ◌-◌, not_lt→le}
use polymaker.Risk.{prune_results, is_recent, error_window_s}

module _ {F : Type 0} ⦃fl : Float F⦄ where
  -- The timestamps never go back.
  abbrev pub Ordered : List (F × Bool) → Type 0
  Ordered [] = Unit
  Ordered (r ∷ rs) = All (λ x. r.0 ≼ x.0) rs × Ordered rs

  All-recent :
      (ok : IsFloat fl) (cutoff t : F) (rs : List (F × Bool))
      → cutoff ≼ t
      → All (λ x. t ≼ x.0) rs
      → select (is_recent cutoff) rs ≡ rs
  All-recent ok cutoff t [] h a = refl
  All-recent ok cutoff t (r ∷ rs) h a =
      rw (ok.le_trans cutoff t r.0 h a.0) (ap (λ xs. r ∷ xs) (All-recent ok cutoff t rs h a.1))

  -- Reading only the oldest entry is enough: where the recorded times never go back, pruning keeps
  -- exactly the results of the last 300 seconds.
  prune_results-select :
      (ok : IsFloat fl) (now : F) (rs : List (F × Bool))
      → Ordered rs
      → prune_results now rs ≡ select (is_recent (now - error_window_s)) rs
  unfolding prune_results
  prune_results-select ok now [] a = refl
  prune_results-select ok now (r ∷ rs) a =
      let cutoff = now - error_window_s in
      elim (Bool-cases (r.0 < cutoff)) [
        | inl old ↦ rw old refl
        | inr recent ↦
            let h = not_lt→le ok r.0 cutoff recent in
            rw (recent, h) (ap (λ xs. r ∷ xs) (sym (All-recent ok cutoff r.0 rs h a.0)))
      ]
