-- ===== src/Dn/Trim.antt =====
-- `trimToString` of frontend/src/lib/dn.ts.
use dbx_plugin_ldap.Base.{
  ℕ, ◌%◌, ◌≡◌, ◌≢◌, inl, inr, refl, sym, ap, ◌∙◌, false, ◌&&◌, [], ◌∷◌, ◌++◌, append_assoc, reverse,
  reverse-cons, reverse-append, reverse-reverse, arith, length, length-append, Str, is_space,
  trim_start, ◌==◌, Bool-cases,
}
use dbx_plugin_ldap.Base.{trim_start_idem, trim_start-head, trim_start_of_head, trim_start-prefix}
use dbx_plugin_ldap.Dn.{slashes, trim_back, trim_to_string, backslash}

-- Nothing to cut at either end: no white space in front, none behind but an escaped one.
abbrev pub IsTrimmed : Str → Type 0
IsTrimmed s = (trim_start s ≡ s) × (trim_back (reverse s) ≡ reverse s)

pub trim_to_string_of_IsTrimmed : (s : Str) → IsTrimmed s → trim_to_string s ≡ s
unfolding trim_to_string
trim_to_string_of_IsTrimmed s (a, b) = rw (a, b) (reverse-reverse s)

trim_back_idem : (s : Str) → trim_back (trim_back s) ≡ trim_back s
unfolding trim_back
trim_back_idem [] = refl
trim_back_idem (c ∷ s) = elim (Bool-cases (is_space c && slashes s % 2 == 0)) [
  | inl a ↦ rw a (trim_back_idem s)
  | inr a ↦ rw (a, a)
]

-- What is cut stands in front.
trim_back-suffix : (s : Str) → (cut : Str) × (s ≡ cut ++ trim_back s)
unfolding trim_back
trim_back-suffix [] = ([], refl)
trim_back-suffix (c ∷ s) = elim (Bool-cases (is_space c && slashes s % 2 == 0)) [
  | inl a ↦ let (cut, e) = trim_back-suffix s in (c ∷ cut, rw a (ap (λ t. c ∷ t) e))
  | inr a ↦ ([], rw a)
]

-- The result of `trimToString` has nothing left to cut.
pub trim_to_string-IsTrimmed : (s : Str) → IsTrimmed (trim_to_string s)
unfolding trim_to_string
trim_to_string-IsTrimmed s =
    let u = trim_start s in
    let b = trim_back (reverse u) in
    let (cut, e) = trim_back-suffix (reverse u) in
    let whole : u ≡ reverse b ++ reverse cut =
      sym (reverse-reverse u) ∙ ap reverse e ∙ reverse-append cut b in
    (
      trim_start-prefix (reverse b) (reverse cut)
          (ap trim_start (sym whole) ∙ trim_start_idem s ∙ whole),
      rw (reverse-reverse b) (trim_back_idem (reverse u)),
    )

-- Trimming a second time changes nothing.
pub trim_to_string_idem : (s : Str) → trim_to_string (trim_to_string s) ≡ trim_to_string s
trim_to_string_idem s = trim_to_string_of_IsTrimmed _ (trim_to_string-IsTrimmed s)

slashes-append : (s t : Str) (c : ℕ) → c ≢ backslash → slashes (s ++ c ∷ t) ≡ slashes s
unfolding slashes
slashes-append [] t c h = ground arith
slashes-append (d ∷ s) t c h = rw (slashes-append s t c h)

trim_back-step :
    (d : ℕ) (s : Str) → trim_back (d ∷ s) ≡ d ∷ s → (is_space d && slashes s % 2 == 0) ≡ false
unfolding trim_back
trim_back-step d s h = elim (Bool-cases (is_space d && slashes s % 2 == 0)) [
  | inl a ↦
      let (cut, e) = trim_back-suffix s in
      let shrunk : trim_back s ≡ d ∷ s = rw a at h in
      let long = length-append {0} cut (trim_back s) in
      absurd (omega (arith, ap (length {A = ℕ}) e, ap (length {A = ℕ}) shrunk))
  | inr a ↦ a
]

trim_back-append :
    (s t : Str) (c : ℕ)
    → s ≢ []
    → c ≢ backslash
    → trim_back s ≡ s
    → trim_back (s ++ c ∷ t) ≡ s ++ c ∷ t
trim_back-append [] t c n h e = absurd (n refl)
trim_back-append (d ∷ s) t c n h e =
    let keep = trim_back-step d s e in
    let same = slashes-append s t c h in unfold trim_back in rw (same, keep)

reverse-ne-nil : (s : Str) → s ≢ [] → reverse s ≢ []
reverse-ne-nil s h e = h (sym (reverse-reverse s) ∙ ap reverse e)

-- Two trimmed texts, neither empty, joined by a character that is no backslash.
pub IsTrimmed-join :
    (r p : Str) (c : ℕ)
    → r ≢ []
    → p ≢ []
    → c ≢ backslash
    → IsTrimmed r
    → IsTrimmed p
    → IsTrimmed (r ++ c ∷ p)
IsTrimmed-join [] p c hr hp h (a, _) (_, b) = absurd (hr refl)
IsTrimmed-join (x ∷ r) p c hr hp h (a, _) (_, b) =
    let turned : reverse ((x ∷ r) ++ c ∷ p) ≡ reverse p ++ c ∷ reverse (x ∷ r) =
      reverse-append (x ∷ r) (c ∷ p)
      ∙ ap (λ t. t ++ reverse (x ∷ r)) (reverse-cons c p)
      ∙ append_assoc (reverse p) (c ∷ []) (reverse (x ∷ r)) in
    (
      trim_start_of_head x _ (trim_start-head x r a),
      ap trim_back turned
          ∙ trim_back-append (reverse p) (reverse (x ∷ r)) c (reverse-ne-nil p hp) h b
          ∙ sym turned,
    )
