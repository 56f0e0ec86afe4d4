-- ===== src/Gateway/Routed.antt =====
-- src/polymaker/execution/gateway.py: which ledger a batch of balances is read from (token_balances).
use polymaker.Prelude.{
  inl, inr, ◌==◌, Bool-cases, Option-cases, is_some, insert-Unique, subst, String, ◌≡◌, refl, ◌∙◌,
  ap, sym, Bool, true, false, Option, none, some, List, [], ◌∷◌, Dict, lookup, Unique,
  lookup-insert, mem, if◌then◌else◌, arith, ==→≡, ==_comm, bind_some, some_inj, not,
}
use polymaker.Float.{Float, num, ◌/◌}
use polymaker.Domain.{ProtocolVersion, v1, v2}
use polymaker.Ledger.{ledger_for, ctf_ledger, position_manager}
use polymaker.Gateway.Account.{of_version, read_ledger, token_balances}

abbrev is_of : Bool → Option ProtocolVersion → Bool
is_of second none = false
is_of second (some v1) = not second
is_of second (some v2) = second

mem-of_version :
    (second : Bool) (wanted : Dict ProtocolVersion) (t : String)
    → Unique wanted
    → mem t (of_version second wanted) ≡ is_of second (lookup t wanted)
unfolding lookup
mem-of_version second [] t u = refl
mem-of_version second ((k, v1) ∷ d) t u =
    ground (arith, mem-of_version second d t u.1, ==→≡ k t, ==_comm k t)
mem-of_version second ((k, v2) ∷ d) t u =
    ground (arith, mem-of_version second d t u.1, ==→≡ k t, ==_comm k t)

module _ {F : Type 0} ⦃fl : Float F⦄ where
  -- The shares that the chain shows: 6 decimals.
  abbrev shares : Option F → Option F
  shares none = none
  shares (some raw) = some (raw / num 1_000_000)

  -- What a token's own ledger shows of it: Conditional Tokens in version 1, PositionManager in version 2.
  abbrev pub on_ledger : (String → String → Option F) → String → Option ProtocolVersion → Option F
  on_ledger balance_of t none = none
  on_ledger balance_of t (some v1) = shares (balance_of ctf_ledger t)
  on_ledger balance_of t (some v2) = shares (balance_of position_manager t)

  read_ledger-lookup :
      (balance_of : String → Option F) (ts : List String) (out out' : Dict F) (t : String)
      → read_ledger balance_of ts out ≡ some out'
      → lookup t out' ≡ (if mem t ts then shares (balance_of t) else lookup t out)
  unfolding read_ledger
  read_ledger-lookup balance_of [] out out' t h = ap (lookup t) (sym (some_inj out out' h))
  read_ledger-lookup balance_of (x ∷ ts) out out' t h =
      let (raw, e, g) = bind_some (balance_of x) _ out' h in
      read_ledger-lookup balance_of ts _ out' t g
      ∙ ground (arith, lookup-insert x t (raw / num 1_000_000) out, ==→≡ x t, e)

  on_ledger_either :
      (balance_of : String → String → Option F) (t : String) (o : Option ProtocolVersion)
      → (if is_of true o
          then shares (balance_of (ledger_for v2) t)
          else if is_of false o
          then shares (balance_of (ledger_for v1) t)
          else none)
        ≡ on_ledger balance_of t o
  on_ledger_either balance_of t none = refl
  on_ledger_either balance_of t (some v1) = ground arith
  on_ledger_either balance_of t (some v2) = ground arith

  -- A read that answers lists exactly the tokens that were asked for, each with what the ledger of its own
  -- version shows of it.
  pub token_balances-Routed :
      (rpc : Bool) (balance_of : String → String → Option F) (wanted : Dict ProtocolVersion)
      (out : Dict F) (t : String)
      → Unique wanted
      → token_balances rpc balance_of wanted ≡ some out
      → lookup t out ≡ on_ledger balance_of t (lookup t wanted)
  unfolding token_balances lookup
  token_balances-Routed rpc balance_of [] out t u h = ap (lookup t) (sym (some_inj [] out h))
  token_balances-Routed false balance_of (w ∷ ws) out t u h = ground arith
  token_balances-Routed true balance_of (w ∷ ws) out t u h =
      let (first, e, g) =
        bind_some (read_ledger (balance_of (ledger_for v1)) (of_version false (w ∷ ws)) []) _ out
          h in
      go first e g
    where
      go :
          (first : Dict F)
          → read_ledger (balance_of (ledger_for v1)) (of_version false (w ∷ ws)) [] ≡ some first
          → read_ledger (balance_of (ledger_for v2)) (of_version true (w ∷ ws)) first ≡ some out
          → lookup t out ≡ on_ledger balance_of t (lookup t (w ∷ ws))
      go first e g =
          read_ledger-lookup (balance_of (ledger_for v2)) (of_version true (w ∷ ws)) first out t g
          ∙ (rw
              (
                mem-of_version true (w ∷ ws) t u,
                read_ledger-lookup (balance_of (ledger_for v1)) (of_version false (w ∷ ws)) [] first
                    t e,
                mem-of_version false (w ∷ ws) t u,
              )
              (on_ledger_either balance_of t (lookup t (w ∷ ws))))

  read_ledger-Unique :
      (balance_of : String → Option F) (ts : List String) (out out' : Dict F)
      → Unique out
      → read_ledger balance_of ts out ≡ some out'
      → Unique out'
  unfolding read_ledger
  read_ledger-Unique balance_of [] out out' u h = subst Unique (some_inj out out' h) u
  read_ledger-Unique balance_of (x ∷ ts) out out' u h =
      let (raw, e, g) = bind_some (balance_of x) _ out' h in
      read_ledger-Unique balance_of ts _ out' (insert-Unique x (raw / num 1_000_000) out u) g

  pub token_balances-Unique :
      (rpc : Bool) (balance_of : String → String → Option F) (wanted : Dict ProtocolVersion)
      (out : Dict F)
      → token_balances rpc balance_of wanted ≡ some out
      → Unique out
  unfolding token_balances
  token_balances-Unique rpc balance_of [] out h = subst Unique (some_inj [] out h) tt
  token_balances-Unique false balance_of (w ∷ ws) out h = ground arith
  token_balances-Unique true balance_of (w ∷ ws) out h =
      let (first, e, g) =
        bind_some (read_ledger (balance_of (ledger_for v1)) (of_version false (w ∷ ws)) []) _ out
          h in
      read_ledger-Unique _ (of_version true (w ∷ ws)) first out
        (read_ledger-Unique _ (of_version false (w ∷ ws)) [] first tt e) g

  read_ledger_all :
      (balance_of : String → Option F) (ts : List String) (out out' : Dict F) (t : String)
      → read_ledger balance_of ts out ≡ some out'
      → mem t ts ≡ true
      → is_some (balance_of t) ≡ true
  unfolding read_ledger
  read_ledger_all balance_of [] out out' t h m = ground (arith, m)
  read_ledger_all balance_of (x ∷ ts) out out' t h m =
      let (raw, e, g) = bind_some (balance_of x) _ out' h in
      elim (Bool-cases (x == t)) [
        | inl same ↦ ground (arith, ==→≡ x t, e)
        | inr other ↦ read_ledger_all balance_of ts _ out' t g (ground arith)
      ]

  -- One balance that cannot be read leaves the whole batch without an answer.
  pub token_balances-none :
      (rpc : Bool) (balance_of : String → String → Option F) (wanted : Dict ProtocolVersion)
      (t : String) (v : ProtocolVersion)
      → Unique wanted
      → lookup t wanted ≡ some v
      → balance_of (ledger_for v) t ≡ none
      → token_balances rpc balance_of wanted ≡ none
  unfolding token_balances lookup
  token_balances-none rpc balance_of [] t v u l h = ground (arith, l)
  token_balances-none false balance_of (w ∷ ws) t v u l h = refl
  token_balances-none true balance_of (w ∷ ws) t v u l h =
      elim (Option-cases (token_balances true balance_of (w ∷ ws))) [
        | inl e ↦ e
        | inr (out, e) ↦
            let (first, f, g) =
              bind_some (read_ledger (balance_of (ledger_for v1)) (of_version false (w ∷ ws)) []) _
                out e in
            absurd (go v l h first f out g)
      ]
    where
      go :
          (x : ProtocolVersion)
          → lookup t (w ∷ ws) ≡ some x
          → balance_of (ledger_for x) t ≡ none
          → (first : Dict F)
          → read_ledger (balance_of (ledger_for v1)) (of_version false (w ∷ ws)) [] ≡ some first
          → (out : Dict F)
          → read_ledger (balance_of (ledger_for v2)) (of_version true (w ∷ ws)) first ≡ some out
          → ⊥
      go v1 k z first f out g = ground (
        arith,
        z,
        read_ledger_all (balance_of (ledger_for v1)) (of_version false (w ∷ ws)) [] first t f
            (mem-of_version false (w ∷ ws) t u ∙ ap (is_of false) k),
      )
      go v2 k z first f out g = ground (
        arith,
        z,
        read_ledger_all (balance_of (ledger_for v2)) (of_version true (w ∷ ws)) first out t g
            (mem-of_version true (w ∷ ws) t u ∙ ap (is_of true) k),
      )
