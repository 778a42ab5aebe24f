-- ===== src/Filter/Group.antt =====
-- `combineFilters` of frontend/src/lib/ldapFilter.ts makes accepted filters from accepted ones.
use dbx_plugin_ldap.Base.{
  ℕ, zero, suc, ◌≤◌, ◌≡◌, ◌⊎◌, inl, inr, refl, sym, ap, ◌∙◌, true, false, ◌||◌, some, List, [], ◌∷◌,
  ◌++◌, append-nil, append_assoc, reverse, reverse-append, reverse-reverse, arith, length,
  length-append, All, Str, is_empty, is_space, trim_start, trim, join, ◌==◌,
}
use dbx_plugin_ldap.Base.{join_nil-cons}
use dbx_plugin_ldap.Filter.Assertion.{
  Joiner, and, or, join_sign, cleaned, combine_cleaned, combine_filters,
}
use dbx_plugin_ldap.Filter.Validate.{
  is_open, parse_items, parse_item, max_levels, validate_ldap_filter,
}
use dbx_plugin_ldap.Filter.Accept.{Accepted, parse_items-join}

-- A filter that is absent, or accepted.
abbrev pub Good : ℕ → Str → Type 0
Good n f = (f ≡ []) ⊎ Accepted n f

pub Accepted-mono : (n m : ℕ) (f : Str) → n ≤ m → Accepted n f → Accepted m f
Accepted-mono n m f h a = record {
  inner = a.inner;
  shape = a.shape;
  parses = λ levels rest le. a.parses levels rest (omega arith);
}

pub Good-mono : (n m : ℕ) (f : Str) → n ≤ m → Good n f → Good m f
Good-mono n m f h (inl e) = inl e
Good-mono n m f h (inr a) = inr (Accepted-mono n m f h a)

trim_start-open : (s : Str) → trim_start (b'(' ∷ s) ≡ b'(' ∷ s
unfolding is_space
trim_start-open s = refl

trim_start-closed : (s : Str) → trim_start (b')' ∷ s) ≡ b')' ∷ s
unfolding is_space
trim_start-closed s = refl

pub trim-parens : (s : Str) → trim (b'(' ∷ (s ++ b')' ∷ [])) ≡ b'(' ∷ (s ++ b')' ∷ [])
trim-parens s =
    let turned : reverse (b'(' ∷ (s ++ b')' ∷ [])) ≡ b')' ∷ reverse (b'(' ∷ s) =
      reverse-append (b'(' ∷ s) (b')' ∷ []) in
    ap (λ t. reverse (trim_start (reverse t))) (trim_start-open (s ++ b')' ∷ []))
    ∙ ap (λ t. reverse (trim_start t)) turned
    ∙ ap reverse (trim_start-closed (reverse (b'(' ∷ s)))
    ∙ reverse-append (b')' ∷ []) (reverse (b'(' ∷ s))
    ∙ ap (λ t. t ++ b')' ∷ []) (reverse-reverse (b'(' ∷ s))

-- An accepted filter is trimmed and not empty.
pub Accepted-trim : (n : ℕ) (f : Str) → Accepted n f → trim f ≡ f
Accepted-trim n f a = ap trim a.shape ∙ trim-parens a.inner ∙ sym a.shape

pub Accepted-filled : (n : ℕ) (f : Str) → Accepted n f → is_empty f ≡ false
Accepted-filled n f a = ap is_empty a.shape

pub Accepted-is_open : (n : ℕ) (f s : Str) → Accepted n f → is_open (f ++ s) ≡ true
Accepted-is_open n f s a = ap (λ t. is_open (t ++ s)) a.shape

length-join : (n : ℕ) (fs : List Str) → All (Accepted n) fs → length fs ≤ length (join [] fs)
length-join n [] h = omega arith
length-join n (f ∷ fs) (a, h) = omega (
  arith,
  length-join n fs h,
  ap (length {A = ℕ}) (join_nil-cons f fs),
  length-append {0} f (join [] fs),
  ap (length {A = ℕ}) a.shape,
)

parse_list :
    (levels sign : ℕ) (s rest : Str)
    → (sign == b'&' || sign == b'|') ≡ true
    → is_open s ≡ true
    → parse_items (parse_item levels) (length s) s ≡ some (b')' ∷ rest)
    → parse_item (suc levels) (b'(' ∷ sign ∷ s) ≡ some rest
unfolding parse_item
parse_list levels sign s rest h k p = rw (h, k) (rw p refl)

sign_ok : (j : Joiner) → (join_sign j == b'&' || join_sign j == b'|') ≡ true
unfolding join_sign
sign_ok and = refl
sign_ok or = refl

-- A group of accepted filters, at one level more.
Accepted-group :
    (n : ℕ) (j : Joiner) (f : Str) (fs : List Str)
    → All (Accepted n) (f ∷ fs)
    → Accepted (suc n) (b'(' ∷ join_sign j ∷ (join [] (f ∷ fs) ++ b')' ∷ []))
Accepted-group n j f fs h = record {
  inner = join_sign j ∷ join [] (f ∷ fs);
  shape = refl;
  parses = parses;
}
  where
    parses :
        (levels : ℕ) (rest : Str)
        → suc n ≤ levels
        → parse_item levels ((b'(' ∷ join_sign j ∷ (join [] (f ∷ fs) ++ b')' ∷ [])) ++ rest)
          ≡ some rest
    parses zero rest le = elim le [ ]
    parses (suc levels) rest le =
        let s = join [] (f ∷ fs) ++ b')' ∷ rest in
        let starts =
          ap (λ t. is_open (t ++ b')' ∷ rest))
            (join_nil-cons f fs ∙ ap (λ t. t ++ join [] fs) h.0.shape) in
        ap (λ t. parse_item (suc levels) (b'(' ∷ join_sign j ∷ t))
          (append_assoc (join [] (f ∷ fs)) (b')' ∷ []) rest)
        ∙ parse_list levels (join_sign j) s rest (sign_ok j) starts (
            parse_items-join n levels (f ∷ fs) (length s) (b')' ∷ rest) (omega arith) h
              (omega (
                arith,
                length-join n (f ∷ fs) h,
                length-append {0} (join [] (f ∷ fs)) (b')' ∷ rest),
              ))
              refl)

cleaned-All : (n : ℕ) (fs : List Str) → All (Good n) fs → All (Accepted n) (cleaned fs)
unfolding cleaned
cleaned-All n [] h = tt
cleaned-All n (f ∷ fs) (inl e, h) = rw (ap (λ t. is_empty (trim t)) e) (cleaned-All n fs h)
cleaned-All n (f ∷ fs) (inr a, h) =
    rw (Accepted-trim n f a, Accepted-filled n f a) (a, cleaned-All n fs h)

combine_cleaned-Good :
    (n : ℕ) (j : Joiner) (fs : List Str) → All (Accepted n) fs → Good (suc n) (combine_cleaned j fs)
unfolding combine_cleaned
combine_cleaned-Good n j [] h = inl refl
combine_cleaned-Good n j (f ∷ []) (a, _) = inr (Accepted-mono n (suc n) f (omega arith) a)
combine_cleaned-Good n j (f ∷ g ∷ fs) h = inr (Accepted-group n j f (g ∷ fs) h)

pub combine_filters-Good :
    (n : ℕ) (j : Joiner) (fs : List Str) → All (Good n) fs → Good (suc n) (combine_filters fs j)
unfolding combine_filters
combine_filters-Good n j fs h = combine_cleaned-Good n j (cleaned fs) (cleaned-All n fs h)

validate_of_parse :
    (f : Str)
    → trim f ≡ f
    → is_empty f ≡ false
    → is_open f ≡ true
    → parse_item max_levels f ≡ some []
    → validate_ldap_filter f ≡ true
unfolding validate_ldap_filter
validate_of_parse f t e o p = rw (t, e, p, o) refl

-- What is accepted within the depth bound passes the validation.
pub validate_ldap_filter-Accepted :
    (n : ℕ) (f : Str) → n ≤ max_levels → Accepted n f → validate_ldap_filter f ≡ true
validate_ldap_filter-Accepted n f h a =
    validate_of_parse f (Accepted-trim n f a) (Accepted-filled n f a)
      (ap is_open (sym (append-nil f)) ∙ Accepted-is_open n f [] a)
      (ap (parse_item max_levels) (sym (append-nil f)) ∙ a.parses max_levels [] h)
