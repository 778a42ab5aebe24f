-- ===== src/Description.antt =====
-- The attribute descriptions of RFC 4512 that the frontend accepts: the regular expressions
-- LDAP_ATTRIBUTE_DESCRIPTION_RE of frontend/src/lib/ldapFilter.ts and LDIF_ATTR_NAME_RE of
-- frontend/src/lib/ldif.ts, which have one language.
use dbx_plugin_ldap.Base.{
  ℕ, ◌≡◌, inl, inr, refl, Bool, true, false, ◌||◌, Option, none, some, [], ◌∷◌, arith, All, Str,
  is_digit, is_alpha, is_name_char, ◌==◌, if◌then◌else◌, Option-cases,
}
use mathlib.Core.Bool.{false≢true}

-- The place reached in `^(?:[A-Za-z][A-Za-z0-9-]*|[0-9]+(?:\.[0-9]+)+)(?:;[A-Za-z0-9-]+)*$`.
pub data Place : Type 0 where
  start key arc dot dotted_arc semicolon tag : Place

abbrev pub word_step : ℕ → Option Place
word_step c = if is_name_char c then some key else if c == b';' then some semicolon else none

abbrev pub tag_step : ℕ → Option Place
tag_step c = if is_name_char c then some tag else if c == b';' then some semicolon else none

unfoldable pub place_step : Place → ℕ → Option Place
place_step start c = if is_alpha c then some key else if is_digit c then some arc else none
place_step key c = word_step c
place_step arc c = if is_digit c then some arc else if c == b'.' then some dot else none
place_step dot c = if is_digit c then some dotted_arc else none
place_step dotted_arc c =
    if is_digit c
    then some dotted_arc
    else if c == b'.'
    then some dot
    else if c == b';'
    then some semicolon
    else none
place_step semicolon c = if is_name_char c then some tag else none
place_step tag c = tag_step c

abbrev pub is_final : Place → Bool
is_final key = true
is_final dotted_arc = true
is_final tag = true
is_final _ = false

unfoldable pub matches_from : Place → Str → Bool
unfolding place_step
matches_from p [] = is_final p
matches_from p (c ∷ s) = elim (place_step p c) [ none ↦ false | some q ↦ matches_from q s ]

unfoldable pub matches_description : Str → Bool
unfolding matches_from
matches_description s = matches_from start s

-- The characters of a description.
unfoldable pub is_description_char : ℕ → Bool
is_description_char c = is_name_char c || c == b';' || c == b'.'

place_step-char : (p q : Place) (c : ℕ) → place_step p c ≡ some q → is_description_char c ≡ true
unfolding place_step is_description_char is_name_char
place_step-char start q c h = ground arith
place_step-char key q c h = ground arith
place_step-char arc q c h = ground arith
place_step-char dot q c h = ground arith
place_step-char dotted_arc q c h = ground arith
place_step-char semicolon q c h = ground arith
place_step-char tag q c h = ground arith

matches_from-All :
    (p : Place) (s : Str) → matches_from p s ≡ true → All (λ c. is_description_char c ≡ true) s
unfolding matches_from
matches_from-All p [] h = tt
matches_from-All p (c ∷ s) h = elim (Option-cases (place_step p c)) [
  | inl e ↦ absurd (false≢true (rw (e, matches_from) at h))
  | inr (q, e) ↦ (place_step-char p q c e, matches_from-All q s (rw (e, matches_from) at h))
]

-- A description has letters, digits, `-`, `;` and `.` only, and begins with a letter or a digit.
pub matches_description-All :
    (s : Str) → matches_description s ≡ true → All (λ c. is_description_char c ≡ true) s
unfolding matches_description
matches_description-All s h = matches_from-All start s h

pub matches_description-cons :
    (s : Str)
    → matches_description s ≡ true
    → (c : ℕ) × (t : Str) × (s ≡ c ∷ t) × (is_name_char c ≡ true)
unfolding matches_description
matches_description-cons [] h = cc
matches_description-cons (c ∷ t) h = (c, t, refl, unfold place_step is_name_char in ground arith)
