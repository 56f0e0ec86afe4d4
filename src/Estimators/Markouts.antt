-- ===== src/Estimators/Markouts.antt =====
-- strategy/estimators.py: which markouts are resolved, and how many samples are kept.
use polymaker.Prelude.{
  ℕ, zero, suc, ◌-◌, ◌≤◌, ◌≡◌, refl, sym, ◌∙◌, inl, inr, Bool, true, false, not, Option, String,
  List, [], ◌∷◌, ◌++◌, nat_eq, length, append-nil, append_assoc, subst, drop, select, map, arith,
  Bool-cases,
}
use polymaker.Float.{Float, ◌<◌}
use polymaker.Estimators.{
  update, MarkoutTracker, PendingMarkout, MarkoutSample, resolve, keep_sample, evaluate_one,
  evaluate_all, evaluate,
}

length-drop : {A : Type 0} (n : ℕ) (xs : List A) → length (drop n xs) ≡ length xs - n
length-drop zero xs = omega arith
length-drop (suc n) [] = omega arith
length-drop (suc n) (x ∷ xs) = omega (arith, length-drop n xs)

module _ {F : Type 0} ⦃fl : Float F⦄ where
  keep_sample-bounded :
      (n : ℕ) (sample : MarkoutSample F) (samples : List (MarkoutSample F))
      → length (keep_sample n sample samples) ≤ n
  unfolding keep_sample
  keep_sample-bounded n sample samples =
      let more = samples ++ sample ∷ [] in ground (arith, length-drop (length more - n) more)

  evaluate_one-bounded :
      (convert : Option (F → String → F)) (fv ts : F) (p : PendingMarkout F) (t : MarkoutTracker F)
      (res : List (MarkoutSample F))
      → length t.samples ≤ t.max_samples
      → let t' : MarkoutTracker F = (evaluate_one convert fv ts p (t, res)).0 in
        (length t'.samples ≤ t'.max_samples) × (t'.max_samples ≡ t.max_samples)
  unfolding evaluate_one
  evaluate_one-bounded convert fv ts p t res h =
      let sample = resolve convert t.horizon_s fv ts p in
      elim (Bool-cases (ts < p.due_ts)) [
        | inl early ↦ rw early (h, refl)
        | inr due ↦ rw due (elim (Bool-cases (nat_eq t.max_samples 0)) [
          | inl off ↦ rw off (h, refl)
          | inr on ↦ rw on (keep_sample-bounded t.max_samples sample t.samples, refl)
        ])
      ]

  evaluate_all-bounded :
      (convert : Option (F → String → F)) (fv ts : F) (ps : List (PendingMarkout F))
      (t : MarkoutTracker F) (res : List (MarkoutSample F))
      → length t.samples ≤ t.max_samples
      → length (evaluate_all convert fv ts ps (t, res)).0.samples ≤ t.max_samples
  unfolding evaluate_all
  evaluate_all-bounded convert fv ts [] t res h = h
  evaluate_all-bounded convert fv ts (p ∷ ps) t res h =
      let step = evaluate_one-bounded convert fv ts p t res h in
      let next = evaluate_one convert fv ts p (t, res) in
      subst (λ n. length (evaluate_all convert fv ts ps next).0.samples ≤ n) step.1
        (evaluate_all-bounded convert fv ts ps next.0 next.1 step.0)

  -- What is kept at a time.
  abbrev pub early : F → PendingMarkout F → Bool
  early ts p = ts < p.due_ts

  evaluate_one-early :
      (convert : Option (F → String → F)) (fv ts : F) (p : PendingMarkout F) (t : MarkoutTracker F)
      (res : List (MarkoutSample F))
      → early ts p ≡ true
      → evaluate_one convert fv ts p (t, res) ≡ (record t { pending = t.pending ++ p ∷ [] }, res)
  unfolding evaluate_one
  evaluate_one-early convert fv ts p t res h = rw h refl

  evaluate_one-due :
      (convert : Option (F → String → F)) (fv ts : F) (p : PendingMarkout F) (t : MarkoutTracker F)
      (res : List (MarkoutSample F))
      → early ts p ≡ false
      → nat_eq t.max_samples 0 ≡ false
      → let sample = resolve convert t.horizon_s fv ts p in
        evaluate_one convert fv ts p (t, res) ≡ (
          record t {
            markout_ewma = update sample.markout ts t.markout_ewma;
            samples = keep_sample t.max_samples sample t.samples;
          },
          res ++ sample ∷ [],
        )
  unfolding evaluate_one
  evaluate_one-due convert fv ts p t res h k = rw (h, k) refl

  evaluate_all-splits :
      (convert : Option (F → String → F)) (fv ts : F) (ps : List (PendingMarkout F))
      (t : MarkoutTracker F) (res : List (MarkoutSample F))
      → nat_eq t.max_samples 0 ≡ false
      → ((evaluate_all convert fv ts ps (t, res)).0.pending ≡ t.pending ++ select (early ts) ps)
        × ((evaluate_all convert fv ts ps (t, res)).1
            ≡ res ++ map (resolve convert t.horizon_s fv ts) (select (λ p. not (early ts p)) ps))
  unfolding evaluate_all
  evaluate_all-splits convert fv ts [] t res h = (sym (append-nil t.pending), sym (append-nil res))
  evaluate_all-splits convert fv ts (p ∷ ps) t res h = elim (Bool-cases (early ts p)) [
    | inl soon ↦
        let ih =
          evaluate_all-splits convert fv ts ps (record t { pending = t.pending ++ p ∷ [] }) res h in
        rw (evaluate_one-early convert fv ts p t res soon, soon, evaluate_all)
          (ih.0 ∙ append_assoc t.pending (p ∷ []) (select (early ts) ps), ih.1)
    | inr due ↦
        let sample = resolve convert t.horizon_s fv ts p in
        let ih =
          evaluate_all-splits convert fv ts ps
            (record t {
              markout_ewma = update sample.markout ts t.markout_ewma;
              samples = keep_sample t.max_samples sample t.samples;
            })
            (res ++ sample ∷ []) h in
        rw (evaluate_one-due convert fv ts p t res due h, due, evaluate_all)
          (ih.0, ih.1 ∙ append_assoc res (sample ∷ []) _)
  ]

  -- A tracker that keeps samples resolves exactly the markouts whose horizon has elapsed, each once
  -- and in order, and keeps the others; and it never holds more samples than its limit.
  pub evaluate-splits :
      (convert : Option (F → String → F)) (fv ts : F) (t : MarkoutTracker F)
      → nat_eq t.max_samples 0 ≡ false
      → length t.samples ≤ t.max_samples
      → ((evaluate convert fv ts t).0.pending ≡ select (early ts) t.pending)
        × ((evaluate convert fv ts t).1
            ≡ map (resolve convert t.horizon_s fv ts) (select (λ p. not (early ts p)) t.pending))
        × (length (evaluate convert fv ts t).0.samples ≤ t.max_samples)
  unfolding evaluate
  evaluate-splits convert fv ts t h k =
      let start = record t { pending = [] } in
      let halves = evaluate_all-splits convert fv ts t.pending start [] h in
      (halves.0, halves.1, evaluate_all-bounded convert fv ts t.pending start [] k)
