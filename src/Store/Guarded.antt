-- ===== src/Store/Guarded.antt =====
-- state/store.py: since when a token is guarded, told from the calls alone.
use polymaker.Prelude.{
  ℕ, zero, suc, ◌<◌, String, ◌≡◌, refl, ◌∙◌, inl, inr, Bool, true, false, Bool-cases, Option, none,
  some, List, [], ◌∷◌, Dict, lookup, lookup-erase, lookup-set_default, erase-Unique,
  set_default-Unique, Unique, nat_eq, if◌then◌else◌, arith, not, select, keys, ◌&&◌, ◌==◌, ==_refl,
  ==→≡,
}
use polymaker.Float.{Float, ◌-◌, ◌<◌ as lt}
use polymaker.Store.Calls.{
  Call, fills, sets, reverses, settles, reconciles, marks, clears, expires, upserts, removes,
  replaces, clears_orders, untracks, restarts, step, run, new_store,
}
use polymaker.Store.{
  StateStore, put_position, set_position, force_set_position, restart, reconcile_positions,
  adopt_positions, drop_untracked_positions, upsert_order, remove_order, clear_orders,
  replace_open_orders, inflight, mark_inflight, clear_inflight, expire_inflight, drop_guards,
  stale_guards,
}
use polymaker.Store.Unguarded.{
  SameGuards, then_same, apply_fill-SameGuards, settle-SameGuards, reverse-SameGuards,
  adopt-SameGuards, zero-SameGuards, drop_tokens-SameGuards,
}
use polymaker.Store.Guard.{in_list, inflight-mark, inflight-clear, drop_guards-inflight}

module _ {F : Type 0} where
  -- A guard is the time when the token was first marked since it was last unguarded, with the number of
  -- marks beyond that one that are still to be cleared.

  -- A mark of a guarded token leaves the time of the first mark.
  abbrev pub marked : F → Option (F × ℕ) → Option (F × ℕ)
  marked now none = some (now, 0)
  marked now (some (ts, n)) = some (ts, suc n)

  abbrev pub released : Option (F × ℕ) → Option (F × ℕ)
  released none = none
  released (some (ts, zero)) = none
  released (some (ts, suc n)) = some (ts, n)

  abbrev pub marks_of : Option (F × ℕ) → ℕ
  marks_of none = 0
  marks_of (some (ts, n)) = suc n

  abbrev pub first_of : Option (F × ℕ) → Option F
  first_of none = none
  first_of (some (ts, n)) = some ts

  -- What the store has of a token's guard.
  record IsGuard (t : String) (s : StateStore F) (g : Option (F × ℕ)) : Type 0 where
    count : inflight s t ≡ marks_of g
    first : lookup t s.inflight_ts ≡ first_of g
    unique : Unique s.inflight_ts

  same-IsGuard :
      (t : String) (s s' : StateStore F) (g : Option (F × ℕ))
      → SameGuards s s'
      → IsGuard t s g
      → IsGuard t s' g
  same-IsGuard t s s' g k h = record {
    count = rw k.counts h.count;
    first = rw k.times h.first;
    unique = rw k.times h.unique;
  }

  mark-IsGuard :
      (t u : String) (now : F) (s : StateStore F) (g : Option (F × ℕ))
      → IsGuard u s g
      → IsGuard u (mark_inflight t now s) (if t == u then marked now g else g)
  unfolding mark_inflight
  mark-IsGuard t u now s none h = record {
    count = inflight-mark t u now s ∙ ground (arith, h.count);
    first = lookup-set_default t u now s.inflight_ts ∙ ground (arith, h.first, ==→≡ t u);
    unique = set_default-Unique t now s.inflight_ts h.unique;
  }
  mark-IsGuard t u now s (some (ts, n)) h = record {
    count = inflight-mark t u now s ∙ ground (arith, h.count);
    first = lookup-set_default t u now s.inflight_ts ∙ ground (arith, h.first, ==→≡ t u);
    unique = set_default-Unique t now s.inflight_ts h.unique;
  }

  clear-lookup :
      (t u : String) (s : StateStore F)
      → lookup u (clear_inflight t s).inflight_ts ≡ (
          if (nat_eq (inflight (clear_inflight t s) t) 0 && (t == u))
          then none
          else lookup u s.inflight_ts)
  unfolding clear_inflight
  clear-lookup t u s = elim (Bool-cases (nat_eq (inflight (clear_inflight t s) t) 0)) [
    | inl e ↦ rw e (lookup-erase t u s.inflight_ts)
    | inr e ↦ rw e refl
  ]

  clear-Unique :
      (t : String) (s : StateStore F)
      → Unique s.inflight_ts
      → Unique (clear_inflight t s).inflight_ts
  unfolding clear_inflight
  clear-Unique t s u = elim (Bool-cases (nat_eq (inflight (clear_inflight t s) t) 0)) [
    | inl e ↦ rw e (erase-Unique t s.inflight_ts u)
    | inr e ↦ rw e u
  ]

  clear-IsGuard :
      (t u : String) (s : StateStore F) (g : Option (F × ℕ))
      → IsGuard u s g
      → IsGuard u (clear_inflight t s) (if t == u then released g else g)
  clear-IsGuard t u s none h = record {
    count = inflight-clear t u s ∙ ground (arith, h.count);
    first = clear-lookup t u s ∙ ground (arith, h.first, ==→≡ t u);
    unique = clear-Unique t s h.unique;
  }
  clear-IsGuard t u s (some (ts, zero)) h = record {
    count = inflight-clear t u s ∙ ground (arith, h.count);
    first =
        clear-lookup t u s
        ∙ ground (arith, h.first, h.count, inflight-clear t t s, ==_refl t, ==→≡ t u);
    unique = clear-Unique t s h.unique;
  }
  clear-IsGuard t u s (some (ts, suc n)) h = record {
    count = inflight-clear t u s ∙ ground (arith, h.count);
    first =
        clear-lookup t u s
        ∙ ground (arith, h.first, h.count, inflight-clear t t s, ==_refl t, ==→≡ t u);
    unique = clear-Unique t s h.unique;
  }

  drop_guards-lookup :
      (ts : List String) (s : StateStore F) (t : String)
      → lookup t (drop_guards ts s).inflight_ts
        ≡ (if in_list t ts then none else lookup t s.inflight_ts)
  unfolding drop_guards
  drop_guards-lookup [] s t = refl
  drop_guards-lookup (k ∷ ts) s t =
      drop_guards-lookup ts _ t ∙ ground (arith, lookup-erase k t s.inflight_ts)

  drop_guards-Unique :
      (ts : List String) (s : StateStore F)
      → Unique s.inflight_ts
      → Unique (drop_guards ts s).inflight_ts
  unfolding drop_guards
  drop_guards-Unique [] s u = u
  drop_guards-Unique (k ∷ ts) s u = drop_guards-Unique ts _ (erase-Unique k s.inflight_ts u)

module _ {F : Type 0} ⦃fl : Float F⦄ where
  abbrev pub expired : F → F → Option (F × ℕ) → Option (F × ℕ)
  expired max_age now none = none
  expired max_age now (some (ts, n)) = if lt max_age (now - ts) then none else some (ts, n)

  abbrev pub guard_step : String → Call F → Option (F × ℕ) → Option (F × ℕ)
  guard_step t (fills fill) g = g
  guard_step t (sets k size avg) g = g
  guard_step t (reverses id) g = g
  guard_step t (settles id) g = g
  guard_step t (reconciles api authoritative now) g = g
  guard_step t (marks k now) g = if k == t then marked now g else g
  guard_step t (clears k) g = if k == t then released g else g
  guard_step t (expires max_age now) g = expired max_age now g
  guard_step t (upserts o) g = g
  guard_step t (removes id) g = g
  guard_step t (replaces k live grace now) g = g
  guard_step t clears_orders g = g
  guard_step t (untracks tracked) g = g
  guard_step t restarts g = none

  -- The guard of a token after a history of calls, told from the calls alone.
  unfoldable pub guard_after : String → List (Call F) → Option (F × ℕ) → Option (F × ℕ)
  guard_after t [] g = g
  guard_after t (c ∷ cs) g = guard_after t cs (guard_step t c g)

  abbrev too_old : F → F → Option F → Bool
  too_old max_age now none = false
  too_old max_age now (some ts) = lt max_age (now - ts)

  in_list-stale_guards :
      (max_age now : F) (d : Dict F) (t : String)
      → Unique d
      → in_list t (stale_guards max_age now d) ≡ too_old max_age now (lookup t d)
  unfolding stale_guards lookup
  in_list-stale_guards max_age now [] t u = refl
  in_list-stale_guards max_age now ((k, ts) ∷ d) t u =
      ground (arith, in_list-stale_guards max_age now d t u.1, u.0, ==→≡ k t)

  expire-IsGuard :
      (max_age now : F) (t : String) (s : StateStore F) (g : Option (F × ℕ))
      → IsGuard t s g
      → IsGuard t (expire_inflight max_age now s).0 (expired max_age now g)
  unfolding expire_inflight
  expire-IsGuard max_age now t s none h = record {
    count =
        drop_guards-inflight (stale_guards max_age now s.inflight_ts) s t ∙ ground (arith, h.count);
    first =
        drop_guards-lookup (stale_guards max_age now s.inflight_ts) s t ∙ ground (arith, h.first);
    unique = drop_guards-Unique (stale_guards max_age now s.inflight_ts) s h.unique;
  }
  expire-IsGuard max_age now t s (some (ts, n)) h =
      let stale = in_list-stale_guards max_age now s.inflight_ts t h.unique in
      record {
        count =
            drop_guards-inflight (stale_guards max_age now s.inflight_ts) s t
            ∙ ground (arith, h.count, h.first, stale);
        first =
            drop_guards-lookup (stale_guards max_age now s.inflight_ts) s t
            ∙ ground (arith, h.first, stale);
        unique = drop_guards-Unique (stale_guards max_age now s.inflight_ts) s h.unique;
      }

  step-IsGuard :
      (t : String) (c : Call F) (s : StateStore F) (g : Option (F × ℕ))
      → IsGuard t s g
      → IsGuard t (step c s) (guard_step t c g)
  unfolding step force_set_position set_position put_position upsert_order remove_order clear_orders
      replace_open_orders drop_untracked_positions restart reconcile_positions lookup
  step-IsGuard t (fills fill) s g h = same-IsGuard t s _ g (apply_fill-SameGuards fill s) h
  step-IsGuard t (sets k size avg) s g h =
      same-IsGuard t s _ g (record { counts = refl; times = refl }) h
  step-IsGuard t (reverses id) s g h = same-IsGuard t s _ g (reverse-SameGuards id s) h
  step-IsGuard t (settles id) s g h = same-IsGuard t s _ g (settle-SameGuards id s) h
  step-IsGuard t (reconciles api true now) s g h =
      same-IsGuard t s _ g
        (then_same s (adopt_positions now api s) _ (adopt-SameGuards now api s) (
          zero-SameGuards now api (adopt_positions now api s).positions
            (adopt_positions now api s)))
        h
  step-IsGuard t (reconciles api false now) s g h =
      same-IsGuard t s _ g (adopt-SameGuards now api s) h
  step-IsGuard t (marks k now) s g h = mark-IsGuard k t now s g h
  step-IsGuard t (clears k) s g h = clear-IsGuard k t s g h
  step-IsGuard t (expires max_age now) s g h = expire-IsGuard max_age now t s g h
  step-IsGuard t (upserts o) s g h = same-IsGuard t s _ g (record { counts = refl; times = refl }) h
  step-IsGuard t (removes id) s g h =
      same-IsGuard t s _ g (record { counts = refl; times = refl }) h
  step-IsGuard t (replaces k live grace now) s g h =
      same-IsGuard t s _ g (record { counts = refl; times = refl }) h
  step-IsGuard t clears_orders s g h =
      same-IsGuard t s _ g (record { counts = refl; times = refl }) h
  step-IsGuard t (untracks tracked) s g h =
      same-IsGuard t s _ g
        (drop_tokens-SameGuards (select (λ k. not (tracked k)) (keys s.positions)) s) h
  step-IsGuard t restarts s g h = record { count = refl; first = refl; unique = tt }

  run-IsGuard :
      (t : String) (cs : List (Call F)) (s : StateStore F) (g : Option (F × ℕ))
      → IsGuard t s g
      → IsGuard t (run cs s) (guard_after t cs g)
  unfolding run guard_after
  run-IsGuard t [] s g h = h
  run-IsGuard t (c ∷ cs) s g h =
      run-IsGuard t cs (step c s) (guard_step t c g) (step-IsGuard t c s g h)

  new_store-IsGuard : (t : String) → IsGuard {F = F} t new_store none
  unfolding new_store lookup
  new_store-IsGuard t = record { count = refl; first = refl; unique = tt }

  -- After any history of calls, a token that is still guarded once `expire_inflight` has run was first
  -- marked, since it was last unguarded, no longer than `max_age` ago: later marks of the token do not
  -- extend its guard, and none blocks reconciliation forever. The guard counts the marks since then that
  -- were not cleared.
  pub expire_inflight_fresh :
      (cs : List (Call F)) (max_age now : F) (t : String)
      → 0 < inflight (expire_inflight max_age now (run cs new_store)).0 t
      → (ts : F) × (n : ℕ) × (guard_after t cs none ≡ some (ts, n))
        × (inflight (expire_inflight max_age now (run cs new_store)).0 t ≡ suc n)
        × (lt max_age (now - ts) ≡ false)
  expire_inflight_fresh cs max_age now t h =
      let r = run-IsGuard t cs new_store none (new_store-IsGuard t) in
      go (guard_after t cs none) refl
        (expire-IsGuard max_age now t (run cs new_store) (guard_after t cs none) r)
    where
      go :
          (g : Option (F × ℕ))
          → guard_after t cs none ≡ g
          → IsGuard t (expire_inflight max_age now (run cs new_store)).0 (expired max_age now g)
          → (ts : F) × (n : ℕ) × (guard_after t cs none ≡ some (ts, n))
            × (inflight (expire_inflight max_age now (run cs new_store)).0 t ≡ suc n)
            × (lt max_age (now - ts) ≡ false)
      go none e k = absurd (ground (arith, h, k.count))
      go (some (ts, n)) e k = elim (Bool-cases (lt max_age (now - ts))) [
        | inl old ↦ absurd (ground (arith, h, k.count, old))
        | inr young ↦ (ts, n, e, ground (arith, k.count, young), young)
      ]
