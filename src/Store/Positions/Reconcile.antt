-- ===== src/Store/Positions/Reconcile.antt =====
-- state/store.py: what `reconcile_positions` leaves at each token.
use polymaker.Prelude.{
  String, ◌≡◌, refl, ◌∙◌, Bool, true, false, ◌||◌, ◌&&◌, not, Option, none, some, List, [], ◌∷◌,
  Dict, lookup, contains, lookup-insert, if◌then◌else◌, arith, ◌==◌, ==→≡, Unique,
}
use polymaker.Float.{Float, IsFloat, num, ◌<=◌}
use polymaker.Domain.{Position}
use polymaker.Store.{
  StateStore, put_position, set_position, clamped_position, reconcile_positions, adopt_positions,
  zero_absent, guard_blocks,
}
use polymaker.Store.Calls.{Call, run, new_store}
use polymaker.Store.Positions.History.{run-new_store-IsWellFormed, adopt_positions-IsWellFormed}

module _ {F : Type 0} ⦃fl : Float F⦄ where
  set_position-lookup :
      (k t : String) (size avg : F) (s : StateStore F)
      → lookup t (set_position k size avg s).positions
        ≡ (if k == t then some (clamped_position k size avg) else lookup t s.positions)
  unfolding set_position put_position clamped_position
  set_position-lookup k t size avg s = lookup-insert k t (clamped_position k size avg) s.positions

  set_position-guard :
      (k t : String) (size avg now : F) (s : StateStore F)
      → guard_blocks (set_position k size avg s) now t ≡ guard_blocks s now t
  unfolding set_position put_position guard_blocks
  set_position-guard k t size avg now s = refl

  -- The position that a read reports, with the token's name.
  abbrev pub reported : String → F × F → Position F
  reported t (size, avg) = clamped_position t size avg

  abbrev pub closed : String → Position F
  closed t = clamped_position t (num 0) (num 0)

  abbrev pub holds : Option (Position F) → Bool
  holds none = false
  holds (some pos) = not (pos.size <= num 0)

  -- What `reconcile_positions` is to leave at a token: nothing changes under a guard; a reported
  -- token takes the reported size and price; an absent one that was held is closed, if the read is
  -- complete.
  pub expected : String → Bool → Bool → Option (F × F) → Option (Position F) → Option (Position F)
  expected t blocked authoritative read before = if blocked then before else elim read [
    | some r ↦ some (reported t r)
    | none ↦ if authoritative && holds before then some (closed t) else before
  ]

  adopt_positions-guard :
      (now : F) (api : Dict (F × F)) (s : StateStore F) (t : String)
      → guard_blocks (adopt_positions now api s) now t ≡ guard_blocks s now t
  unfolding adopt_positions
  adopt_positions-guard now [] s t = refl
  adopt_positions-guard now ((k, (size, avg)) ∷ api) s t =
      adopt_positions-guard now api _ t ∙ ground (arith, set_position-guard k t size avg now s)

  adopt_positions-lookup :
      (now : F) (api : Dict (F × F)) (s : StateStore F) (t : String)
      → Unique api
      → lookup t (adopt_positions now api s).positions
        ≡ expected t (guard_blocks s now t) false (lookup t api) (lookup t s.positions)
  unfolding adopt_positions expected lookup
  adopt_positions-lookup now [] s t u = ground arith
  adopt_positions-lookup now ((k, (size, avg)) ∷ api) s t u =
      adopt_positions-lookup now api _ t u.1
      ∙ ground (
        arith,
        set_position-lookup k t size avg s,
        set_position-guard k t size avg now s,
        ==→≡ k t,
      )

  zero_absent-lookup :
      (now : F) (api : Dict (F × F)) (ps : Dict (Position F)) (s : StateStore F) (t : String)
      → Unique ps
      → lookup t (zero_absent now api ps s).0.positions ≡ (
          if holds (lookup t ps) && not (contains t api || guard_blocks s now t)
          then some (closed t)
          else lookup t s.positions)
  unfolding zero_absent lookup
  zero_absent-lookup now api [] s t u = refl
  zero_absent-lookup now api ((k, pos) ∷ ps) s t u =
      zero_absent-lookup now api ps _ t u.1
      ∙ ground (
        arith,
        set_position-lookup k t (num 0) (num 0) s,
        set_position-guard k t (num 0) (num 0) now s,
        ==→≡ k t,
      )

  -- After any history of calls, `reconcile_positions` leaves each token as `expected` says: a token
  -- under a guard keeps its position; otherwise a token that the read reports takes the reported
  -- size and price, clamped at zero; and a token that a complete read omits is closed if it was held,
  -- and unchanged if the read is not complete. The read lists no token twice.
  pub reconcile_positions-lookup :
      (ok : IsFloat fl) (cs : List (Call F)) (api : Dict (F × F)) (authoritative : Bool) (now : F)
      (t : String)
      → Unique api
      → let s = run cs new_store in
        lookup t (reconcile_positions api authoritative now s).0.positions
        ≡ expected t (guard_blocks s now t) authoritative (lookup t api) (lookup t s.positions)
  unfolding reconcile_positions expected
  reconcile_positions-lookup ok cs api false now t u =
      adopt_positions-lookup now api (run cs new_store) t u
  reconcile_positions-lookup ok cs api true now t u =
      let s = run cs new_store in
      let s' = adopt_positions now api s in
      let w = adopt_positions-IsWellFormed ok now api s (run-new_store-IsWellFormed ok cs) in
      zero_absent-lookup now api s'.positions s' t w.unique_tokens
      ∙ ground (arith, adopt_positions-lookup now api s t u, adopt_positions-guard now api s t)
