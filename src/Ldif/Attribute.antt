-- ===== src/Ldif/Attribute.antt =====
-- `parseAttributeLine` of frontend/src/lib/ldif.ts reads back what `serializeAttributeLine` writes.
use dbx_plugin_ldap.Base.{
  ℕ, ◌≡◌, ◌≢◌, ◌⊎◌, inl, inr, refl, sym, ap, ◌∙◌, Bool, true, false, ◌||◌, Option, some, [], ◌∷◌,
  ◌++◌, arith, All, All-imp, All-append, Str, codes, is_empty, is_digit, is_alpha, is_name_char,
  ◌==◌, Bool-cases, Option-cases,
}
use mathlib.Core.Path.{subst}
use dbx_plugin_ldap.Description.{
  matches_description, is_description_char, matches_description-All, matches_description-cons,
}
use dbx_plugin_ldap.Ldif.{is_unsafe_char, any_unsafe, needs_base64, attribute_text}
use dbx_plugin_ldap.Ldif.Parse.{
  parsed, put_front, cut_at_colon, skip_blanks, strip_colon, parse_rest, parse_attribute_line,
}
use dbx_plugin_ldap.Ldif.Unfold.{IsInline, IsStart}

-- A character of base64 text: no line break and no blank.
abbrev pub IsClean : ℕ → Type 0
IsClean c = (c ≢ 0x0a) × (c ≢ 0x0d) × (c ≢ 0x20) × (c ≢ 0x09)

-- What the platform's base64 functions do: the decoder undoes the encoder, and the encoder's
-- alphabet has no blank and no line break.
pub record IsCodec (encode decode : Str → Option Str) : Type 0 where
  pub decodes : (s b : Str) → encode s ≡ some b → decode b ≡ some s
  pub clean : (s b : Str) → encode s ≡ some b → All IsClean b

name_char : (c : ℕ) → is_description_char c ≡ true → (c == b':' ≡ false) × IsInline c × IsStart c
unfolding is_description_char is_name_char is_alpha is_digit
name_char c h = (ground arith, (ground arith, ground arith), (ground arith, ground arith))

cut_at_colon-append :
    (name rest : Str)
    → All (λ c. is_description_char c ≡ true) name
    → cut_at_colon (name ++ b':' ∷ rest) ≡ some (name, rest)
unfolding cut_at_colon
cut_at_colon-append [] rest h = refl
cut_at_colon-append (c ∷ name) rest (p, h) =
    let plain = (name_char c p).0 in rw plain (ap (put_front c) (cut_at_colon-append name rest h))

-- No blank in front.
abbrev IsUnblanked : Str → Type 0
IsUnblanked [] = Unit
IsUnblanked (c ∷ s) = (c ≢ 0x20) × (c ≢ 0x09)

skip_blanks_none : (s : Str) → IsUnblanked s → skip_blanks s ≡ s
unfolding skip_blanks
skip_blanks_none [] h = refl
skip_blanks_none (c ∷ s) (a, b) = ground arith

skip_blanks_space : (s : Str) → IsUnblanked s → skip_blanks (0x20 ∷ s) ≡ s
skip_blanks_space s h = unfold skip_blanks in skip_blanks_none s h

IsUnblanked-clean : (b : Str) → All IsClean b → IsUnblanked b
IsUnblanked-clean [] h = tt
IsUnblanked-clean (c ∷ b) ((_, _, x, y), h) = (x, y)

safe-IsInline : (v : Str) → any_unsafe v ≡ false → All IsInline v
unfolding is_unsafe_char
safe-IsInline [] h = tt
safe-IsInline (c ∷ v) h = ((ground arith, ground arith), safe-IsInline v (ground arith))

plain_value : (v : Str) → needs_base64 v ≡ false → IsUnblanked v × All IsInline v
unfolding needs_base64
plain_value [] h = (tt, tt)
plain_value (c ∷ v) h = ((ground arith, ground arith), safe-IsInline (c ∷ v) (later_false _ _ _ h))
  where
    later_false : (a b d : Bool) → (a || (b || d)) ≡ false → d ≡ false
    later_false a b d h = ground arith

module _ (encode decode : Str → Option Str) (codec : IsCodec encode decode) (name : Str)
    (described : matches_description name ≡ true) where
  chars : All (λ c. is_description_char c ≡ true) name
  chars = matches_description-All name described

  parse_named :
      (rest : Str)
      → parse_attribute_line decode (name ++ b':' ∷ rest)
        ≡ parse_rest decode name (strip_colon rest)
  unfolding parse_attribute_line
  parse_named rest =
      let (c, t, e, _) = matches_description-cons name described in
      rw (cut_at_colon-append name rest chars, ap is_empty e, described) refl

  -- The text of an attribute's line, by the encoding that its value needs.
  text_cases :
      (value text : Str)
      → attribute_text encode name value ≡ some text
      → ((b : Str) × (encode value ≡ some b) × (text ≡ name ++ (codes ":: " ++ b)))
        ⊎ ((needs_base64 value ≡ false) × (text ≡ name ++ (codes ": " ++ value)))
  unfolding attribute_text
  text_cases value text h = elim (Bool-cases (needs_base64 value)) [
    | inl n ↦ elim (Option-cases (encode value)) [
      | inl e ↦ absurd (ground arith)
      | inr (b, e) ↦ inl (b, e, ground arith)
    ]
    | inr n ↦ inr (n, ground arith)
  ]

  -- Reading the line of an attribute gives its name and its value back, whether the value is
  -- written as it is or in base64.
  pub parse_attribute_line-attribute_text :
      (value text : Str)
      → attribute_text encode name value ≡ some text
      → parse_attribute_line decode text ≡ parsed name value
  parse_attribute_line-attribute_text value text h = elim (text_cases value text h) [
    | inl (b, e, t) ↦
        ap (parse_attribute_line decode) t
        ∙ parse_named (codes ": " ++ b)
        ∙ ap (λ s. parse_rest decode name (true, s)) refl
        ∙ base64_rest value b e
    | inr (n, t) ↦
        ap (parse_attribute_line decode) t
        ∙ parse_named (0x20 ∷ value)
        ∙ ap (parsed name) (skip_blanks_space value (plain_value value n).0)
  ]
    where
      base64_rest :
          (value b : Str)
          → encode value ≡ some b
          → parse_rest decode name (true, 0x20 ∷ b) ≡ parsed name value
      base64_rest value b e =
          let s = skip_blanks_space b (IsUnblanked-clean b (codec.clean value b e)) in
          rw (s, codec.decodes value b e) refl

  name-IsInline : All IsInline name
  name-IsInline =
      All-imp (λ c. is_description_char c ≡ true) IsInline (λ c p. (name_char c p).1) name chars

  pub attribute_text-IsInline :
      (value text : Str) → attribute_text encode name value ≡ some text → All IsInline text
  attribute_text-IsInline value text h = elim (text_cases value text h) [
    | inl (b, e, t) ↦ subst (All IsInline) (sym t) (
        All-append IsInline name _ name-IsInline (
          (omega arith, omega arith),
          (
            (omega arith, omega arith),
            (
              (omega arith, omega arith),
              All-imp IsClean IsInline (λ c p. (p.0, p.1)) b (codec.clean value b e),
            ),
          ),
        ))
    | inr (n, t) ↦ subst (All IsInline) (sym t) (
        All-append IsInline name _ name-IsInline
          ((omega arith, omega arith), ((omega arith, omega arith), (plain_value value n).1)))
  ]

  -- The line begins with a character of the name.
  pub attribute_text-cons :
      (value text : Str)
      → attribute_text encode name value ≡ some text
      → (c : ℕ) × (s : Str) × (text ≡ c ∷ s) × IsStart c
  attribute_text-cons value text h =
      let (c, s, e, _) = matches_description-cons name described in
      let starts = (name_char c (subst (All (λ d. is_description_char d ≡ true)) e chars).0).2 in
      elim (text_cases value text h) [
        | inl (b, _, t) ↦ (c, _, t ∙ ap (λ n. n ++ (codes ":: " ++ b)) e, starts)
        | inr (_, t) ↦ (c, _, t ∙ ap (λ n. n ++ (codes ": " ++ value)) e, starts)
      ]
