-- ===== src/Panels/Bounds.antt =====
-- Bounds and termination of the small state of the workbench.
use dbx_plugin_ldap.Base.{
  ℕ, zero, suc, ◌+◌, ◌-◌, ◌≤◌, ◌<◌, ◌≡◌, ◌≢◌, ◌⊎◌, inl, inr, refl, sym, Bool, true, false, not,
  ◌||◌, Option, none, some, List, [], ◌∷◌, ◌++◌, reverse, arith, length, drop, length-drop,
  length-reverse, length-trim_start, Str, str_eq, is_empty, trim_start, trim, ltb, leb,
  if◌then◌else◌, Bool-cases,
}
use dbx_plugin_ldap.Dn.{
  trim_back, trim_to_string, find_top_level_char, split_at, split_first_dn_rdn, dn_within_base,
  comma,
}
use dbx_plugin_ldap.Panels.{
  retry, fail, decide_tree_auto_retry, has_key, append_open_tab, climb, put_ancestor, chain_of,
  dn_path_chain,
}
use mathlib.Core.Option.{none-ne-some}
use Prim.Native.Nat.{max}

-- Every retry of the tree has a delay, and the retries end: a failure leads to the next attempt, which
-- is at most the third, with a delay that is not 0, or to giving up.
pub decide_tree_auto_retry-total :
    (transient : Bool) (attempt : ℕ)
    → (decide_tree_auto_retry transient attempt ≡ some fail)
      ⊎ ((delay_ms : ℕ) × (decide_tree_auto_retry transient attempt
            ≡ some (retry (attempt + 1) delay_ms))
          × (attempt + 1 ≤ 3)
          × (0 < delay_ms))
unfolding decide_tree_auto_retry
decide_tree_auto_retry-total false attempt = inl refl
decide_tree_auto_retry-total true zero = inr (5000, refl, omega arith, omega arith)
decide_tree_auto_retry-total true (suc zero) = inr (10000, refl, omega arith, omega arith)
decide_tree_auto_retry-total true (suc (suc zero)) = inr (20000, refl, omega arith, omega arith)
decide_tree_auto_retry-total true (suc (suc (suc n))) =
    let e : leb 3 (suc (suc (suc n))) ≡ true = ground arith in inl (rw e refl)

length-reverse_le : (s t : Str) → length s ≤ length t → length (reverse s) ≤ length t
length-reverse_le s t h = omega (arith, length-reverse s, h)

length-trim_back : (s : Str) → length (trim_back s) ≤ length s
unfolding trim_back
length-trim_back [] = omega arith
length-trim_back (c ∷ s) = ground (arith, length-trim_back s)

length-trim_to_string : (s : Str) → length (trim_to_string s) ≤ length s
unfolding trim_to_string
length-trim_to_string s =
    let u = trim_start s in
    omega (
      arith,
      length-reverse (trim_back (reverse u)),
      length-trim_back (reverse u),
      length-reverse u,
      length-trim_start s,
    )

length-parent :
    (c : ℕ) (t : Str) (o : Option ℕ) → length ((split_at (c ∷ t) o).parent_dn) < suc (length t)
length-parent c t none = omega arith
length-parent c t (some i) =
    let cut = length-trim_to_string (drop i t) in omega (arith, cut, length-drop i t)

-- A parent is shorter than what it is the parent of.
length-split_first_dn_rdn :
    (c : ℕ) (s : Str) → length ((split_first_dn_rdn (c ∷ s)).parent_dn) < length (c ∷ s)
unfolding split_first_dn_rdn
length-split_first_dn_rdn c s = by_text (trim_to_string (c ∷ s)) (length-trim_to_string (c ∷ s))
  where
    by_text :
        (text : Str)
        → length text ≤ length (c ∷ s)
        → length (
            (if is_empty text
              then record { rdn = []; parent_dn = [] }
              else split_at text (find_top_level_char text (comma ∷ []))).parent_dn)
          < length (c ∷ s)
    by_text [] h = omega arith
    by_text (d ∷ t) h =
        let below = length-parent d t (find_top_level_char (d ∷ t) (comma ∷ [])) in
        omega (arith, h, below)

module _ (lower : Str → Str) where
  put_some : (dn : Str) (o : Option (List Str × Str)) → o ≢ none → put_ancestor lower dn o ≢ none
  put_some dn none h e = h refl
  put_some dn (some x) h e = none-ne-some _ (sym e)

  climb_ends :
      (rounds : ℕ) (base current : Str)
      → length current < rounds
      → climb lower rounds base current ≢ none
  unfolding climb
  climb_ends zero base current h = absurd (omega (arith, h))
  climb_ends (suc rounds) base [] h = λ e. none-ne-some _ (sym e)
  climb_ends (suc rounds) base (c ∷ s) h = elim (Bool-cases (str_eq (lower (c ∷ s)) (lower base))) [
    | inl e ↦ rw e (λ x. none-ne-some _ (sym x))
    | inr e ↦
        let less = length-split_first_dn_rdn c s in
        let above =
          climb_ends rounds base ((split_first_dn_rdn (c ∷ s)).parent_dn)
            (omega (arith, h, less)) in
        rw e (
          put_some (c ∷ s) (climb lower rounds base ((split_first_dn_rdn (c ∷ s)).parent_dn)) above)
  ]

  chain_of-some :
      (base : Str) (o : Option (List Str × Str))
      → o ≢ none
      → (chain : List Str) × (chain_of lower base o ≡ some chain)
  chain_of-some base none h = absurd (h refl)
  chain_of-some base (some (ancestors, [])) h = ([], refl)
  chain_of-some base (some (ancestors, c ∷ last)) h = (base ∷ reverse ancestors, refl)

  -- The climb from a DN to its base ends within the rounds given, for every two texts: each parent is
  -- shorter than what it is the parent of.
  pub dn_path_chain-total :
      (target_dn base_dn : Str)
      → (chain : List Str) × (dn_path_chain lower target_dn base_dn ≡ some chain)
  unfolding dn_path_chain
  dn_path_chain-total target_dn base_dn =
      by_tests (is_empty (trim target_dn) || is_empty (trim base_dn))
        (str_eq (lower (trim target_dn)) (lower (trim base_dn)))
        (not (dn_within_base lower (trim target_dn) (trim base_dn))) _ _ _ _
        (chain_of-some (trim base_dn) _ (
          climb_ends (suc (length (trim target_dn))) (trim base_dn) (trim target_dn) (omega arith)))
    where
      by_tests :
          (a b d : Bool) (p q r : List Str) (u : Option (List Str))
          → (chain : List Str) × (u ≡ some chain)
          → (chain : List Str) × ((if a
                then some p
                else if b
                then some q
                else if d
                then some r
                else u)
              ≡ some chain)
      by_tests true b d p q r u (chain, e) = (_, refl)
      by_tests false true d p q r u (chain, e) = (_, refl)
      by_tests false false true p q r u (chain, e) = (_, refl)
      by_tests false false false p q r u (chain, e) = (chain, e)

  length-keep :
      (max : ℕ) (tabs : List Str)
      → length (if ltb max (length tabs) then drop (length tabs - max) tabs else tabs) ≤ max
  length-keep max tabs = elim (Bool-cases (ltb max (length tabs))) [
    | inl e ↦ let size = length-drop (length tabs - max) tabs in rw e (ground (arith, size))
    | inr e ↦ rw e (ground arith)
  ]

  -- The open tabs stay within the maximum.
  pub length-append_open_tab :
      (tabs : List Str) (dn : Str) (max : ℕ)
      → length tabs ≤ max
      → length (append_open_tab lower tabs dn max) ≤ max
  unfolding append_open_tab
  length-append_open_tab tabs dn max h = elim (Bool-cases (has_key lower (lower (trim dn)) tabs)) [
    | inl e ↦ rw e h
    | inr e ↦ rw e (length-keep max (tabs ++ dn ∷ []))
  ]
