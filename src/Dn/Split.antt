-- ===== src/Dn/Split.antt =====
-- `splitTopLevel` of frontend/src/lib/dn.ts: the parts spell the text, and none holds a separator.
use dbx_plugin_ldap.Base.{
  ℕ, zero, suc, ◌<◌, ◌≡◌, ◌≢◌, ◌⊎◌, inl, inr, refl, sym, ap, ◌∙◌, true, false, none, some, List, [],
  ◌∷◌, ◌++◌, arith, length, take, drop, length-append, take-length_append, All, Str, join, elem,
  Option-cases, join-cons,
}
use mathlib.Core.Path.{subst, ap₂}
use mathlib.Core.List.{cons-ne-nil}
use dbx_plugin_ldap.Dn.{find_from, find_top_level_char, split_rounds, split_top_level}
use dbx_plugin_ldap.Dn.Scan.{find_from-some, find_from-append, Hit, IsClosed}

elem_one : (c d : ℕ) → elem c (d ∷ []) ≡ true → c ≡ d
elem_one c d h = ground arith

Hit-cut :
    (s : Str) (sep n : ℕ)
    → Hit (sep ∷ []) false false s n
    → (take n s ++ sep ∷ drop (suc n) s ≡ s)
      × (find_from (sep ∷ []) 0 false false (take n s) ≡ none)
Hit-cut s sep n hit = (
  subst (λ c. take n s ++ c ∷ drop (suc n) s ≡ s) (elem_one _ sep hit.is_target) hit.cut,
  hit.before,
)

-- A hit of a single separator: the text is cut around it.
pub find-cut :
    (s : Str) (sep n : ℕ)
    → find_top_level_char s (sep ∷ []) ≡ some n
    → (take n s ++ sep ∷ drop (suc n) s ≡ s) × (find_top_level_char (take n s) (sep ∷ []) ≡ none)
unfolding find_top_level_char
find-cut s sep n h =
    let (m, eq, hit) = find_from-some (sep ∷ []) s 0 n false false h in
    let e : m ≡ n = omega arith in
    Hit-cut s sep n (subst (λ k. Hit (sep ∷ []) false false s k) e hit)

-- The same, from a text that is put together around the separator.
pub find-joined :
    (p s : Str) (sep : ℕ)
    → find_top_level_char p (sep ∷ []) ≡ none
    → IsClosed p
    → sep ≢ b'\\'
    → sep ≢ b'"'
    → find_top_level_char (p ++ sep ∷ s) (sep ∷ []) ≡ some (length p)
unfolding find_top_level_char
find-joined p s sep h closed a b =
    find_from-append (sep ∷ []) p (sep ∷ s) 0 false false h
    ∙ rw closed (unfold find_from in ground arith)

pub drop-past : (p s : Str) (c : ℕ) → drop (suc (length p)) (p ++ c ∷ s) ≡ s
drop-past [] s c = refl
drop-past (d ∷ p) s c = drop-past p s c

module _ (fuel sep : ℕ) (s : Str) where
  split_rounds-none :
      find_top_level_char s (sep ∷ []) ≡ none → split_rounds (suc fuel) sep s ≡ s ∷ []
  unfolding split_rounds
  split_rounds-none e = rw (e, split_rounds)

  split_rounds-some :
      (n : ℕ)
      → find_top_level_char s (sep ∷ []) ≡ some n
      → split_rounds (suc fuel) sep s ≡ take n s ∷ split_rounds fuel sep (drop (suc n) s)
  unfolding split_rounds
  split_rounds-some n e = rw (e, split_rounds)

  split_rounds_cases :
      ((find_top_level_char s (sep ∷ []) ≡ none) × (split_rounds (suc fuel) sep s ≡ s ∷ []))
      ⊎ ((n : ℕ) × (find_top_level_char s (sep ∷ []) ≡ some n)
          × (split_rounds (suc fuel) sep s ≡ take n s ∷ split_rounds fuel sep (drop (suc n) s)))
  split_rounds_cases = elim (Option-cases (find_top_level_char s (sep ∷ []))) [
    | inl e ↦ inl (e, split_rounds-none e)
    | inr (n, e) ↦ inr (n, e, split_rounds-some n e)
  ]

shorter :
    (fuel n sep : ℕ) (s : Str)
    → length s < suc fuel
    → take n s ++ sep ∷ drop (suc n) s ≡ s
    → length (drop (suc n) s) < fuel
shorter fuel n sep s h e =
    omega (arith, ap length e, length-append {0} (take n s) (sep ∷ drop (suc n) s))

-- Every part holds no separator at top level.
split_rounds-All :
    (fuel sep : ℕ) (s : Str)
    → All (λ part. find_top_level_char part (sep ∷ []) ≡ none) (split_rounds fuel sep s)
split_rounds-All zero sep s = unfold split_rounds in tt
split_rounds-All (suc fuel) sep s = elim (split_rounds_cases fuel sep s) [
  | inl (e, eq) ↦ rw eq (e, tt)
  | inr (n, e, eq) ↦ rw eq ((find-cut s sep n e).1, split_rounds-All fuel sep (drop (suc n) s))
]

-- With enough rounds, there is a first part.
split_rounds_cons :
    (fuel sep : ℕ) (s : Str)
    → (p : Str) × (ps : List Str) × (split_rounds (suc fuel) sep s ≡ p ∷ ps)
split_rounds_cons fuel sep s = elim (split_rounds_cases fuel sep s) [
  | inl (e, eq) ↦ (s, [], eq)
  | inr (n, e, eq) ↦ (take n s, split_rounds fuel sep (drop (suc n) s), eq)
]

pub split_rounds-ne-nil : (fuel sep : ℕ) (s : Str) → 0 < fuel → split_rounds fuel sep s ≢ []
split_rounds-ne-nil zero sep s h = elim h [ ]
split_rounds-ne-nil (suc fuel) sep s h =
    let (p, ps, eq) = split_rounds_cons fuel sep s in rw eq (cons-ne-nil p ps)

join-split_rounds :
    (fuel sep : ℕ) (s : Str) → length s < fuel → join (sep ∷ []) (split_rounds fuel sep s) ≡ s
join-split_rounds zero sep s h = elim h [ ]
join-split_rounds (suc fuel) sep s h = elim (split_rounds_cases fuel sep s) [
  | inl (e, eq) ↦ rw eq refl
  | inr (n, e, eq) ↦
      let cut = (find-cut s sep n e).0 in
      let fits = shorter fuel n sep s h cut in
      ap (join (sep ∷ [])) eq
      ∙ join-cons (sep ∷ []) (take n s) _ (split_rounds-ne-nil fuel sep _ (omega arith))
      ∙ ap (λ t. take n s ++ sep ∷ t) (join-split_rounds fuel sep (drop (suc n) s) fits)
      ∙ cut
]

-- Enough rounds are enough: any two numbers of rounds above the length give the same parts.
split_rounds_fuel :
    (f g sep : ℕ) (s : Str)
    → length s < f
    → length s < g
    → split_rounds f sep s ≡ split_rounds g sep s
split_rounds_fuel zero g sep s h k = elim h [ ]
split_rounds_fuel (suc f) zero sep s h k = elim k [ ]
split_rounds_fuel (suc f) (suc g) sep s h k =
    elim (Option-cases (find_top_level_char s (sep ∷ []))) [
      | inl e ↦ split_rounds-none f sep s e ∙ sym (split_rounds-none g sep s e)
      | inr (n, e) ↦
          let cut = (find-cut s sep n e).0 in
          let ih =
            split_rounds_fuel f g sep (drop (suc n) s) (shorter f n sep s h cut)
              (shorter g n sep s k cut) in
          split_rounds-some f sep s n e
          ∙ ap (λ t. take n s ∷ t) ih
          ∙ sym (split_rounds-some g sep s n e)
    ]

-- Joining the parts of `splitTopLevel` by the separator gives the text back, for every text and
-- every separator: no character is lost or added, and the loop ends within its rounds.
pub join-split_top_level : (s : Str) (sep : ℕ) → join (sep ∷ []) (split_top_level s sep) ≡ s
unfolding split_top_level
join-split_top_level s sep = join-split_rounds (suc (length s)) sep s (omega arith)

-- No part of `splitTopLevel` has a separator that is neither escaped nor quoted.
pub split_top_level-All :
    (s : Str) (sep : ℕ)
    → All (λ part. find_top_level_char part (sep ∷ []) ≡ none) (split_top_level s sep)
unfolding split_top_level
split_top_level-All s sep = split_rounds-All (suc (length s)) sep s

-- A text with no separator at top level is its own single part.
pub split_top_level_single :
    (s : Str) (sep : ℕ) → find_top_level_char s (sep ∷ []) ≡ none → split_top_level s sep ≡ s ∷ []
unfolding split_top_level
split_top_level_single s sep e = split_rounds-none (length s) sep s e

-- Splitting a closed first part, a separator and a rest: the first part, and the parts of the rest.
pub split_top_level-cons :
    (p s : Str) (sep : ℕ)
    → find_top_level_char p (sep ∷ []) ≡ none
    → IsClosed p
    → sep ≢ b'\\'
    → sep ≢ b'"'
    → split_top_level (p ++ sep ∷ s) sep ≡ p ∷ split_top_level s sep
unfolding split_top_level
split_top_level-cons p s sep h closed a b =
    let long = length-append {0} p (sep ∷ s) in
    let e = find-joined p s sep h closed a b in
    let fuel = length (p ++ sep ∷ s) in
    let more = split_rounds_fuel fuel (suc (length s)) sep s (omega arith) (omega arith) in
    split_rounds-some fuel sep (p ++ sep ∷ s) (length p) e
    ∙ ap₂ (λ t u. t ∷ split_rounds fuel sep u) (take-length_append p (sep ∷ s)) (drop-past p s sep)
    ∙ ap (λ t. p ∷ t) more
