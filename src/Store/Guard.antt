-- ===== src/Store/Guard.antt =====
-- state/store.py: the calls on the in-flight guard, token by token.
use polymaker.Prelude.{
  suc, ◌-◌, String, ◌≡◌, refl, ◌∙◌, Bool, false, ◌||◌, List, [], ◌∷◌, lookup-insert, if◌then◌else◌,
  arith, ◌==◌, ==→≡,
}
use polymaker.Store.{StateStore, inflight, mark_inflight, clear_inflight, drop_guards}

-- `t in stale`
abbrev pub in_list : String → List String → Bool
in_list t [] = false
in_list t (k ∷ ks) = (k == t) || in_list t ks

module _ {F : Type 0} where
  -- Marking a token raises its count by one and no other.
  pub inflight-mark :
      (t u : String) (now : F) (s : StateStore F)
      → inflight (mark_inflight t now s) u ≡ (if t == u then suc (inflight s u) else inflight s u)
  unfolding mark_inflight
  inflight-mark t u now s =
      ground (arith, lookup-insert t u (suc (inflight s t)) s.inflight_count, ==→≡ t u)

  pub inflight-clear :
      (t u : String) (s : StateStore F)
      → inflight (clear_inflight t s) u ≡ (if t == u then inflight s u - 1 else inflight s u)
  unfolding clear_inflight
  inflight-clear t u s =
      ground (arith, lookup-insert t u (inflight s t - 1) s.inflight_count, ==→≡ t u)

  pub drop_guards-inflight :
      (ts : List String) (s : StateStore F) (t : String)
      → inflight (drop_guards ts s) t ≡ (if in_list t ts then 0 else inflight s t)
  unfolding drop_guards
  drop_guards-inflight [] s t = refl
  drop_guards-inflight (k ∷ ts) s t =
      drop_guards-inflight ts _ t ∙ ground (arith, lookup-insert k t 0 s.inflight_count)
