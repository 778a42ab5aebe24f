-- ===== src/Base/Trim.antt =====
-- `trim`: nothing is left to cut after it.
use Prim.Native.Nat.{ℕ, ◌≤◌}
use mathlib.Core.Path.{◌≡◌, refl, sym, ap, ◌∙◌}
use mathlib.Core.Logic.{inl, inr}
use mathlib.Core.Bool.{false}
use mathlib.Core.List.{[], ◌∷◌, ◌++◌, reverse, reverse-reverse, reverse-append}
use native.Mathlib.Omega.{arith}
use dbx_plugin_ldap.Base.Tests.{Bool-cases}
use dbx_plugin_ldap.Base.Lists.{length}
use dbx_plugin_ldap.Base.Text.{Str, is_space, trim_start, trim}

pub trim_start_idem : (s : Str) → trim_start (trim_start s) ≡ trim_start s
trim_start_idem [] = refl
trim_start_idem (c ∷ s) = elim (Bool-cases (is_space c)) [
  | inl a ↦ rw a (trim_start_idem s)
  | inr a ↦ rw (a, a)
]

pub length-trim_start : (s : Str) → length (trim_start s) ≤ length s
length-trim_start [] = omega arith
length-trim_start (c ∷ s) = ground (arith, length-trim_start s)

pub trim_start-head : (c : ℕ) (s : Str) → trim_start (c ∷ s) ≡ c ∷ s → is_space c ≡ false
trim_start-head c s h = elim (Bool-cases (is_space c)) [
  | inl a ↦ let short = length-trim_start s in absurd (ground (arith, ap (length {A = ℕ}) h))
  | inr a ↦ a
]

pub trim_start_of_head : (c : ℕ) (s : Str) → is_space c ≡ false → trim_start (c ∷ s) ≡ c ∷ s
trim_start_of_head c s a = rw a

pub trim_start-prefix : (s t : Str) → trim_start (s ++ t) ≡ s ++ t → trim_start s ≡ s
trim_start-prefix [] t h = refl
trim_start-prefix (c ∷ s) t h = trim_start_of_head c s (trim_start-head c (s ++ t) h)

trim_start-suffix : (s : Str) → (cut : Str) × (s ≡ cut ++ trim_start s)
trim_start-suffix [] = ([], refl)
trim_start-suffix (c ∷ s) = elim (Bool-cases (is_space c)) [
  | inl a ↦ let (cut, e) = trim_start-suffix s in (c ∷ cut, rw a (ap (λ t. c ∷ t) e))
  | inr a ↦ ([], rw a)
]

-- Trimming a second time changes nothing.
pub trim_idem : (s : Str) → trim (trim s) ≡ trim s
trim_idem s =
    let u = trim_start s in
    let b = trim_start (reverse u) in
    let (cut, e) = trim_start-suffix (reverse u) in
    let whole : u ≡ reverse b ++ reverse cut =
      sym (reverse-reverse u) ∙ ap reverse e ∙ reverse-append cut b in
    let left : trim_start (reverse b) ≡ reverse b =
      trim_start-prefix (reverse b) (reverse cut)
        (ap trim_start (sym whole) ∙ trim_start_idem s ∙ whole) in
    ap (λ t. reverse (trim_start (reverse t))) left
    ∙ ap (λ t. reverse (trim_start t)) (reverse-reverse b)
    ∙ ap reverse (trim_start_idem (reverse u))
