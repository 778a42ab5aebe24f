-- ===== src/Filter/Rounds.antt =====
-- The loops of `validateLDAPFilter` of frontend/src/lib/ldapFilter.ts end: each parsed item takes
-- characters away, so the rounds that the model gives them are enough.
use dbx_plugin_ldap.Base.{
  ℕ, zero, suc, ◌≤◌, ◌<◌, ◌≡◌, inl, inr, refl, sym, ◌∙◌, true, false, not, ◌||◌, Option, none, some,
  [], ◌∷◌, arith, length, Str, ◌==◌, if◌then◌else◌, Bool-cases,
}
use dbx_plugin_ldap.Filter.Validate.{
  scan_body, put_body, close, is_open, parse_items, parse_item, is_valid_filter_assertion, ◌>>=◌,
}

-- A parser that takes at least one character.
abbrev pub Shortens : (Str → Option Str) → Type 0
Shortens parse = (s t : Str) → parse s ≡ some t → length t < length s

close-Shortens : Shortens close
close-Shortens [] t h = cc
close-Shortens (c ∷ s) t h = ground arith

bind-some :
    {A : Type 0} (m : Option A) (f : A → Option Str) (t : Str)
    → (m >>= f) ≡ some t
    → (a : A) × (m ≡ some a) × (f a ≡ some t)
bind-some none f t h = cc
bind-some (some a) f t h = (a, refl, h)

put_body-some :
    (c : ℕ) (o : Option (Str × Str)) (b r : Str)
    → put_body c o ≡ some (b, r)
    → (b' : Str) × (o ≡ some (b', r))
put_body-some c none b r h = cc
put_body-some c (some (b', r')) b r h = (b', ground arith)

length-scan_body : (s b r : Str) → scan_body s ≡ some (b, r) → length r ≤ length s
unfolding scan_body
length-scan_body [] b r h = ground arith
length-scan_body (c ∷ s) b r h = elim (Bool-cases (c == b')')) [
  | inl p ↦ ground arith
  | inr p ↦ elim (Bool-cases (c == b'(')) [
    | inl q ↦ absurd (ground arith)
    | inr q ↦
        let (b', e) = put_body-some c (scan_body s) b r (rw (p, q) at h) in
        omega (arith, length-scan_body s b' r e)
  ]
]

module _ (parse : Str → Option Str) (fuel : ℕ) (s : Str) where
  items_open :
      is_open s ≡ true → parse_items parse (suc fuel) s ≡ (parse s >>= parse_items parse fuel)
  unfolding parse_items
  items_open e = rw (e, parse_items)

  items_shut : is_open s ≡ false → parse_items parse (suc fuel) s ≡ some s
  unfolding parse_items
  items_shut e = rw (e, parse_items)

length-parse_items :
    (parse : Str → Option Str)
    → Shortens parse
    → (fuel : ℕ) (s t : Str) → parse_items parse fuel s ≡ some t
    → length t ≤ length s
length-parse_items parse p zero s t h = unfold parse_items in ground arith
length-parse_items parse p (suc fuel) s t h = elim (Bool-cases (is_open s)) [
  | inl e ↦
      let (u, first, more) =
        bind-some (parse s) (parse_items parse fuel) t (sym (items_open parse fuel s e) ∙ h) in
      omega (arith, p s u first, length-parse_items parse p fuel u t more)
  | inr e ↦ ground (arith, items_shut parse fuel s e)
]

-- With a round for each character, further rounds change nothing.
parse_items_fuel :
    (parse : Str → Option Str)
    → Shortens parse
    → (f g : ℕ) (s : Str) → length s ≤ f
    → length s ≤ g
    → parse_items parse f s ≡ parse_items parse g s
parse_items_fuel parse p f g [] h k = empty f ∙ sym (empty g)
  where
    empty : (n : ℕ) → parse_items parse n [] ≡ some []
    empty zero = unfold parse_items in refl
    empty (suc n) = items_shut parse n [] refl
parse_items_fuel parse p zero g (c ∷ s) h k = elim h [ ]
parse_items_fuel parse p (suc f) zero (c ∷ s) h k = elim k [ ]
parse_items_fuel parse p (suc f) (suc g) (c ∷ s) h k = elim (Bool-cases (is_open (c ∷ s))) [
  | inl e ↦
      items_open parse f (c ∷ s) e
      ∙ next (parse (c ∷ s)) refl
          (λ t first. parse_items_fuel parse p f g t (later t first f h) (later t first g k))
      ∙ sym (items_open parse g (c ∷ s) e)
  | inr e ↦ items_shut parse f (c ∷ s) e ∙ sym (items_shut parse g (c ∷ s) e)
]
  where
    later : (t : Str) → parse (c ∷ s) ≡ some t → (n : ℕ) → suc (length s) ≤ suc n → length t ≤ n
    later t first n bound = omega (arith, p (c ∷ s) t first)

    next :
        (o : Option Str)
        → parse (c ∷ s) ≡ o
        → ((t : Str) → parse (c ∷ s) ≡ some t → parse_items parse f t ≡ parse_items parse g t)
        → (o >>= parse_items parse f) ≡ (o >>= parse_items parse g)
    next none e same = refl
    next (some t) e same = same t e

module _ (levels : ℕ) (ih : Shortens (parse_item levels)) where
  list_shortens :
      (s t : Str)
      → (if is_open s then parse_items (parse_item levels) (length s) s >>= close else none)
        ≡ some t
      → length t < length s
  list_shortens s t h = elim (Bool-cases (is_open s)) [
    | inl e ↦
        let (u, items, last) =
          bind-some (parse_items (parse_item levels) (length s) s) close t (rw e at h) in
        omega (
          arith,
          length-parse_items (parse_item levels) ih (length s) s u items,
          close-Shortens u t last,
        )
    | inr e ↦ cc (rw e at h)
  ]

  negated_shortens : (s t : Str) → (parse_item levels s >>= close) ≡ some t → length t < length s
  negated_shortens s t h =
      let (u, item, last) = bind-some (parse_item levels s) close t h in
      omega (arith, ih s u item, close-Shortens u t last)

simple_shortens :
    (s t : Str)
    → (scan_body s >>= λ (body, rest). if is_valid_filter_assertion body then close rest else none)
      ≡ some t
    → length t < length s
simple_shortens s t h =
    let ((body, rest), scanned, more) = bind-some {A = Str × Str} (scan_body s) _ t h in
    elim (Bool-cases (is_valid_filter_assertion body)) [
      | inl v ↦
          omega (arith, length-scan_body s body rest scanned, close-Shortens rest t (rw v at more))
      | inr v ↦ cc (rw v at more)
    ]

parse_item-Shortens : (levels : ℕ) → Shortens (parse_item levels)
unfolding parse_item
parse_item-Shortens zero s t h = cc
parse_item-Shortens (suc levels) [] t h = cc
parse_item-Shortens (suc levels) (c ∷ []) t h = cc
parse_item-Shortens (suc levels) (c ∷ operator ∷ s) t h =
    let ih = parse_item-Shortens levels in
    elim (Bool-cases (not (c == b'('))) [
      | inl a ↦ cc (rw a at h)
      | inr a ↦ elim (Bool-cases (operator == b'&' || operator == b'|')) [
        | inl b ↦ omega (arith, list_shortens levels ih s t (rw (a, b) at h))
        | inr b ↦ elim (Bool-cases (operator == b'!')) [
          | inl d ↦ omega (arith, negated_shortens levels ih s t (rw (a, b, d) at h))
          | inr d ↦ omega (arith, simple_shortens (operator ∷ s) t (rw (a, b, d) at h))
        ]
      ]
    ]

-- The loop over the items of a group ends by its own test: with at least as many rounds as the
-- text has characters, the number of rounds makes no difference.
pub parse_items-parse_item_fuel :
    (levels fuel : ℕ) (s : Str)
    → length s ≤ fuel
    → parse_items (parse_item levels) fuel s ≡ parse_items (parse_item levels) (length s) s
parse_items-parse_item_fuel levels fuel s h =
    parse_items_fuel (parse_item levels) (parse_item-Shortens levels) fuel (length s) s h
      (omega arith)
