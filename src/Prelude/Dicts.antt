-- ===== src/Prelude/Dicts.antt =====
-- A Python dict keyed by str, or a SQLite table keyed by its TEXT primary key, in insertion order.
use Prim.Native.String.{String}
use mathlib.Core.Path.{sym, subst, ◌∙◌, ◌≡◌, refl}
use mathlib.Core.Bool.{false, Bool}
use mathlib.Core.Option.{Option, none, some}
use mathlib.Core.Logic.{inl, inr}
use mathlib.Core.List.{List, [], ◌∷◌}
use native.Mathlib.Omega.{arith}
use polymaker.Prelude.Tests.{
  some_inj, ==_comm, ◌==◌, ==→≡, if◌then◌else◌, Bool-cases, Option-cases, is_some, or_else,
}
use polymaker.Prelude.Lists.{All, mem, Distinct}
use text.Mathlib.TextEquality.{eq_iff}

abbrev pub Dict {ℓ} : Type ℓ → Type ℓ
Dict V = List (String × V)

module _ {ℓ} {V : Type ℓ} where
  -- `d.get(k)`
  unfoldable pub lookup : String → Dict V → Option V
  lookup k [] = none
  lookup k ((j, v) ∷ d) = if j == k then some v else lookup k d

  -- `k in d`
  abbrev pub contains : String → Dict V → Bool
  contains k d = is_some (lookup k d)

  -- `d[k] = v`
  unfoldable pub insert : String → V → Dict V → Dict V
  insert k v [] = (k, v) ∷ []
  insert k v ((j, w) ∷ d) = if j == k then (j, v) ∷ d else (j, w) ∷ insert k v d

  -- `d.pop(k, None)`
  unfoldable pub erase : String → Dict V → Dict V
  erase k [] = []
  erase k ((j, w) ∷ d) = let rest = erase k d in if j == k then rest else (j, w) ∷ rest

  -- `d.get(k, default)`
  abbrev pub get_or : V → String → Dict V → V
  get_or default k d = or_else default (lookup k d)

  -- `d.setdefault(k, v)`
  unfoldable pub set_default : String → V → Dict V → Dict V
  unfolding lookup insert
  set_default k v d = if contains k d then d else insert k v d

  pub lookup-insert :
      (k j : String) (v : V) (d : Dict V)
      → lookup j (insert k v d) ≡ (if k == j then some v else lookup j d)
  unfolding lookup insert
  lookup-insert k j v [] = refl
  lookup-insert k j v ((i, w) ∷ d) =
      ground (arith, eq_iff k j, eq_iff i k, eq_iff i j, lookup-insert k j v d)

  pub lookup-erase :
      (k j : String) (d : Dict V) → lookup j (erase k d) ≡ (if k == j then none else lookup j d)
  unfolding lookup erase
  lookup-erase k j [] = ground arith
  lookup-erase k j ((i, w) ∷ d) =
      ground (arith, eq_iff k j, eq_iff i k, eq_iff i j, lookup-erase k j d)

  pub lookup-set_default :
      (k j : String) (v : V) (d : Dict V)
      → lookup j (set_default k v d) ≡ (if k == j then some (get_or v k d) else lookup j d)
  unfolding set_default
  lookup-set_default k j v d = elim (Option-cases (lookup k d)) [
    | inl e ↦ rw e (lookup-insert k j v d)
    | inr (w, e) ↦
        rw e (elim (Bool-cases (k == j)) [ inl f ↦ rw (f, ← ==→≡ k j f) e | inr f ↦ rw f ])
  ]

  -- `list(d)`: the keys in order.
  abbrev pub keys : Dict V → List String
  keys [] = []
  keys ((k, v) ∷ d) = k ∷ keys d

  -- `d.values()`
  abbrev pub values : Dict V → List V
  values [] = []
  values ((k, v) ∷ d) = v ∷ values d

  -- No key is listed twice.
  abbrev pub Unique : Dict V → Type 0
  Unique [] = Unit {0}
  Unique ((k, v) ∷ d) = (contains k d ≡ false) × Unique d

  pub insert-Unique : (k : String) (v : V) (d : Dict V) → Unique d → Unique (insert k v d)
  unfolding lookup insert
  insert-Unique k v [] u = (refl, tt)
  insert-Unique k v ((j, w) ∷ d) u =
      ground (arith, lookup-insert k j v d, insert-Unique k v d u.1, ==_comm k j)

  pub set_default-Unique : (k : String) (v : V) (d : Dict V) → Unique d → Unique (set_default k v d)
  unfolding set_default
  set_default-Unique k v d u = elim (Bool-cases (contains k d)) [
    | inl e ↦ rw e u
    | inr e ↦ rw e (insert-Unique k v d u)
  ]

  pub erase-Unique : (k : String) (d : Dict V) → Unique d → Unique (erase k d)
  unfolding lookup erase
  erase-Unique k [] u = tt
  erase-Unique k ((j, w) ∷ d) u =
      ground (arith, lookup-erase k j d, erase-Unique k d u.1, ==_comm k j)

  pub mem-keys : (t : String) (d : Dict V) → mem t (keys d) ≡ contains t d
  unfolding lookup
  mem-keys t [] = refl
  mem-keys t ((k, v) ∷ d) = ground (arith, mem-keys t d)

  pub keys-Distinct : (d : Dict V) → Unique d → Distinct (keys d)
  keys-Distinct [] u = tt
  keys-Distinct ((k, v) ∷ d) u = (mem-keys k d ∙ u.0, keys-Distinct d u.1)

  -- A property of every entry.
  pub insert-All :
      (P : String × V → Type 0) (k : String) (v : V) (d : Dict V)
      → P (k, v)
      → All P d
      → All P (insert k v d)
  unfolding insert
  insert-All P k v [] p a = (p, tt)
  insert-All P k v ((j, w) ∷ d) p a = elim (Bool-cases (j == k)) [
    | inl e ↦ rw e (subst (λ i. P (i, v)) (sym (==→≡ j k e)) p, a.1)
    | inr e ↦ rw e (a.0, insert-All P k v d p a.1)
  ]

  pub lookup-All :
      (P : String × V → Type 0) (k : String) (v : V) (d : Dict V)
      → lookup k d ≡ some v
      → All P d
      → P (k, v)
  unfolding lookup
  lookup-All P k v [] h a = ground (arith, h)
  lookup-All P k v ((j, w) ∷ d) h a = elim (Bool-cases (j == k)) [
    | inl e ↦
        subst (λ x. P (k, x)) (some_inj w v (rw e at h)) (subst (λ i. P (i, w)) (==→≡ j k e) a.0)
    | inr e ↦ lookup-All P k v d (rw e at h) a.1
  ]
