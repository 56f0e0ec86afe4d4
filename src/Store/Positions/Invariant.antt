-- ===== src/Store/Positions/Invariant.antt =====
-- state/store.py: the invariant of the positions and their mirror in SQLite.
use polymaker.Prelude.{
  false, contains, subst, String, ◌≡◌, refl, inl, inr, true, Option, none, some, [], ◌∷◌, ◌==◌,
  Dict, lookup, insert, erase, Unique, lookup-insert, lookup-erase, insert-Unique, erase-Unique,
  if◌then◌else◌, arith, Bool-cases, Option-cases, ==→≡,
}
use polymaker.Float.{Float, IsFloat, num, ◌<=◌, ◌<◌, ◌≼◌, max_left, lt→not_le}
use mathlib.Core.Option
use polymaker.Domain.{Position, Fill}
use polymaker.Store.{
  StateStore, put_position, position, flat_position, fill_position, apply_fill, clamped_position,
  set_position, load_positions,
}

module _ {F : Type 0} ⦃fl : Float F⦄ where
  -- A position is never short, and an empty one has no cost basis.
  pub record IsSound (t : String) (p : Position F) : Type 0 where
    pub token : p.token_id ≡ t
    pub long : num 0 ≼ p.size
    pub flat : (p.size <= num 0) ≡ true → p.avg_price ≡ num 0

  -- What the position of a token holds, if it holds shares.
  abbrev pub held : Option (Position F) → Option (F × F)
  held none = none
  held (some p) = if num 0 < p.size then some (p.size, p.avg_price) else none

  abbrev pub held_row : Option (F × F) → Option (F × F)
  held_row none = none
  held_row (some (size, avg)) = if num 0 < size then some (size, avg) else none

  abbrev pub row_position : String → F × F → Position F
  row_position t (size, avg) = record { token_id = t; size = size; avg_price = avg }

  -- Every position is sound, the table holds the same shares, and neither lists a token twice.
  pub record IsBooked (positions : Dict (Position F)) (rows : Dict (F × F)) : Type 0 where
    pub sound : (t : String) (p : Position F) → lookup t positions ≡ some p → IsSound t p
    pub mirrored : (t : String) → held (lookup t positions) ≡ held_row (lookup t rows)
    pub unique : Unique rows
    pub unique_tokens : Unique positions

  abbrev pub IsWellFormed : StateStore F → Type 0
  IsWellFormed s = IsBooked s.positions s.position_rows

  pub put_position-IsWellFormed :
      (pos : Position F) (s : StateStore F)
      → IsSound pos.token_id pos
      → IsWellFormed s
      → IsWellFormed (put_position pos s)
  unfolding put_position
  put_position-IsWellFormed pos s h w = record {
    sound = sound';
    mirrored = mirrored';
    unique = insert-Unique pos.token_id (pos.size, pos.avg_price) s.position_rows w.unique;
    unique_tokens = insert-Unique pos.token_id pos s.positions w.unique_tokens;
  }
    where
      sound' :
          (t : String) (p : Position F)
          → lookup t (insert pos.token_id pos s.positions) ≡ some p
          → IsSound t p
      sound' t p e = elim (Bool-cases (pos.token_id == t)) [
        | inl hit ↦
            let same : pos ≡ p = cc (lookup-insert pos.token_id t pos s.positions, hit) in
            subst (IsSound t) same (subst (λ x. IsSound x pos) (==→≡ pos.token_id t hit) h)
        | inr miss ↦ w.sound t p (cc (lookup-insert pos.token_id t pos s.positions, miss))
      ]

      mirrored' :
          (t : String)
          → held (lookup t (insert pos.token_id pos s.positions))
            ≡ held_row (lookup t (insert pos.token_id (pos.size, pos.avg_price) s.position_rows))
      mirrored' t =
          rw
            (
              lookup-insert pos.token_id t pos s.positions,
              lookup-insert pos.token_id t (pos.size, pos.avg_price) s.position_rows,
            )
            (elim (Bool-cases (pos.token_id == t)) [
              | inl hit ↦ rw hit
              | inr miss ↦ rw miss (w.mirrored t)
            ])

  pub erase-IsBooked :
      (k : String) (positions : Dict (Position F)) (rows : Dict (F × F))
      → IsBooked positions rows
      → IsBooked (erase k positions) (erase k rows)
  erase-IsBooked k positions rows w = record {
    sound = λ t p e. w.sound t p (ground (arith, lookup-erase k t positions));
    mirrored = λ t.
        rw (lookup-erase k t positions, lookup-erase k t rows)
          (elim (Bool-cases (k == t)) [ inl hit ↦ rw hit | inr miss ↦ rw miss (w.mirrored t) ]);
    unique = erase-Unique k rows w.unique;
    unique_tokens = erase-Unique k positions w.unique_tokens;
  }

  module _ (ok : IsFloat fl) where
    flat_position-IsSound : (t : String) → IsSound t (flat_position t)
    flat_position-IsSound t = record { token = refl; long = ok.le_refl (num 0); flat = λ _. refl }

    pub position-IsSound :
        (s : StateStore F) (t : String) → IsWellFormed s → IsSound t (position s t)
    unfolding position
    position-IsSound s t w = elim (Option-cases (lookup t s.positions)) [
      | inl e ↦ rw e (flat_position-IsSound t)
      | inr (p, e) ↦ rw e (w.sound t p e)
    ]

    clamped_position-IsSound : (t : String) (size avg : F) → IsSound t (clamped_position t size avg)
    unfolding clamped_position
    clamped_position-IsSound t size avg = record {
      token = refl;
      long = max_left ok (num 0) size;
      flat = λ e. elim (Bool-cases (fl.lt (num 0) size)) [
        | inl pos ↦ ground (arith, lt→not_le ok (num 0) size)
        | inr small ↦ rw small
      ];
    }

    pub set_position-IsWellFormed :
        (t : String) (size avg : F) (s : StateStore F)
        → IsWellFormed s
        → IsWellFormed (set_position t size avg s)
    unfolding set_position clamped_position
    set_position-IsWellFormed t size avg s w =
        put_position-IsWellFormed (clamped_position t size avg) s
          (clamped_position-IsSound t size avg) w

    fill_position-IsSound :
        (t : String) (pos : Position F) (fill : Fill F)
        → pos.token_id ≡ t
        → IsSound t (fill_position pos fill)
    unfolding fill_position
    fill_position-IsSound t pos fill e = record {
      token = e;
      long = max_left ok (num 0) _;
      flat = λ h. rw h;
    }

    pub apply_fill-IsWellFormed :
        (fill : Fill F) (s : StateStore F) → IsWellFormed s → IsWellFormed (apply_fill fill s).0
    unfolding apply_fill fill_position
    apply_fill-IsWellFormed fill s w = elim (Option-cases (lookup fill.trade_id s.fills)) [
      | inl e ↦ rw e (
          put_position-IsWellFormed (fill_position (position s fill.token_id) fill) _
            (fill_position-IsSound _ (position s fill.token_id) fill refl) w)
      | inr (row, e) ↦ rw e w
    ]

    pub load_positions-lookup :
        (t : String) (rows : Dict (F × F))
        → Unique rows
        → lookup t (load_positions rows) ≡ Option.map (row_position t) (held_row (lookup t rows))
    unfolding load_positions lookup
    load_positions-lookup t [] u = refl
    load_positions-lookup t ((j, (size, avg)) ∷ rows) u = elim (Bool-cases (j == t)) [
      | inl hit ↦
          let same = ==→≡ j t hit in
          let gone : lookup t rows ≡ none = ground (arith, u.0) in
          elim (Bool-cases (fl.lt (num 0) size)) [
            | inl pos ↦ rw (hit, pos) (ground arith)
            | inr small ↦ rw (hit, small) (rw (load_positions-lookup t rows u.1, gone))
          ]
      | inr miss ↦ elim (Bool-cases (fl.lt (num 0) size)) [
        | inl pos ↦ rw (miss, pos) (rw miss (load_positions-lookup t rows u.1))
        | inr small ↦ rw (miss, small) (load_positions-lookup t rows u.1)
      ]
    ]

    absent-load :
        (t : String) (rows : Dict (F × F))
        → contains t rows ≡ false
        → contains t (load_positions rows) ≡ false
    unfolding load_positions lookup
    absent-load t [] h = refl
    absent-load t ((j, (size, avg)) ∷ rows) h = ground (arith, absent-load t rows)

    pub load_positions-Unique : (rows : Dict (F × F)) → Unique rows → Unique (load_positions rows)
    unfolding load_positions
    load_positions-Unique [] u = tt
    load_positions-Unique ((j, (size, avg)) ∷ rows) u =
        ground (arith, absent-load j rows, load_positions-Unique rows u.1)
