-- ===== src/Filter/Clause.antt =====
-- `parseClauseItem` of frontend/src/lib/ldapFilter.ts reads the clauses that the builder writes.
use dbx_plugin_ldap.Base.{
  ℕ, ◌≡◌, ◌≢◌, inl, inr, refl, sym, ap, ◌∙◌, true, false, none, some, List, [], ◌∷◌, ◌++◌,
  append-nil, arith, All, Str, codes, str_eq, is_empty, trim, is_digit, is_alpha, is_hex,
  is_name_char, ◌==◌, if◌then◌else◌,
}
use mathlib.Core.Path.{subst}
use dbx_plugin_ldap.Description.{
  matches_description, is_description_char, matches_description-All, matches_description-cons,
}
use dbx_plugin_ldap.Filter.Assertion.{
  SubstringMode, ComparisonMode, gte, lte, approx, is_valid_ldap_attribute_description,
  substring_value, comparison_operator,
}
use dbx_plugin_ldap.Filter.Assertion
use dbx_plugin_ldap.Filter.Escape.{
  backslash, KeepsAscii, escape_ldap_filter_value, unescape_ldap_filter_value, IsInert,
  escape_char-All, escape_char-cases, escape-cons, escape-nil, unescape-escape_ldap_filter_value,
}
use dbx_plugin_ldap.Filter.Builder.{BuilderOp, equals, present, substring, comparison}
use dbx_plugin_ldap.Filter.Structure.{
  put_segment, split_wildcards, equal, compares, put_attribute, cut_operator, match_clause_item,
  new_clause, segments_clause, cut_clause, described_clause, parse_clause_item,
}

-- A character of an attribute description is no part of an operator.
pub plain_char :
    (c : ℕ)
    → is_description_char c ≡ true
    → (c == b'=' ≡ false) × (c == b'>' ≡ false) × (c == b'<' ≡ false) × (c == b'~' ≡ false)
unfolding is_description_char is_name_char is_alpha is_digit
plain_char c h = (ground arith, ground arith, ground arith, ground arith)

cut_operator-equal :
    (t raw : Str)
    → All (λ c. is_description_char c ≡ true) t
    → cut_operator (t ++ b'=' ∷ raw) ≡ some (t, equal, raw)
unfolding cut_operator
cut_operator-equal [] [] h = refl
cut_operator-equal [] (d ∷ raw) h = refl
cut_operator-equal (c ∷ []) raw (p, h) =
    let (a, g, l, t) = plain_char c p in
    rw (a, g, l, t) (ap (put_attribute c) (cut_operator-equal [] raw h))
cut_operator-equal (c ∷ d ∷ t) raw (p, (q, h)) =
    let (a, _, _, _) = plain_char c p in
    let (b, _, _, _) = plain_char d q in
    rw (a, b) (ap (put_attribute c) (cut_operator-equal (d ∷ t) raw (q, h)))

cut_operator-compares :
    (mode : ComparisonMode) (t raw : Str)
    → All (λ c. is_description_char c ≡ true) t
    → cut_operator (t ++ (comparison_operator mode ++ raw)) ≡ some (t, compares mode, raw)
unfolding cut_operator comparison_operator
cut_operator-compares gte [] raw h = refl
cut_operator-compares lte [] raw h = refl
cut_operator-compares approx [] raw h = refl
cut_operator-compares gte (c ∷ []) raw (p, h) =
    let (a, _, _, _) = plain_char c p in
    rw a (ap (put_attribute c) (cut_operator-compares gte [] raw h))
cut_operator-compares lte (c ∷ []) raw (p, h) =
    let (a, _, _, _) = plain_char c p in
    rw a (ap (put_attribute c) (cut_operator-compares lte [] raw h))
cut_operator-compares approx (c ∷ []) raw (p, h) =
    let (a, _, _, _) = plain_char c p in
    rw a (ap (put_attribute c) (cut_operator-compares approx [] raw h))
cut_operator-compares mode (c ∷ d ∷ t) raw (p, (q, h)) =
    let (a, _, _, _) = plain_char c p in
    let (b, _, _, _) = plain_char d q in
    rw (a, b) (ap (put_attribute c) (cut_operator-compares mode (d ∷ t) raw (q, h)))

abbrev put_segments : Str → List Str → List Str
put_segments [] segments = segments
put_segments (c ∷ s) segments = put_segment c (put_segments s segments)

put_segments-cons :
    (s segment : Str) (segments : List Str)
    → put_segments s (segment ∷ segments) ≡ (s ++ segment) ∷ segments
put_segments-cons [] segment segments = refl
put_segments-cons (c ∷ s) segment segments =
    ap (put_segment c) (put_segments-cons s segment segments)

hex_plain : (e : ℕ) → is_hex e ≡ true → (e == backslash ≡ false) × (e == b'*' ≡ false)
unfolding is_hex is_digit
hex_plain e h = (ground arith, ground arith)

-- An escaped value has no wildcard, and leaves no escape open.
split-escape :
    (v tail : Str)
    → split_wildcards false (escape_ldap_filter_value v ++ tail)
      ≡ put_segments (escape_ldap_filter_value v) (split_wildcards false tail)
unfolding split_wildcards
split-escape [] tail = rw escape-nil refl
split-escape (c ∷ v) tail = elim (escape_char-cases c) [
  | inl (d, e, hd, he, _, _, eq) ↦
      let (a, b) = hex_plain e he in
      rw (escape-cons c v (backslash ∷ d ∷ e ∷ []) eq, a, b)
        (ap (λ t. put_segment backslash (put_segment d (put_segment e t))) (split-escape v tail))
  | inr (plain, eq) ↦
      let inert : c ≢ b'*' = (subst (All IsInert) eq (escape_char-All c)).0.0 in
      let a : c == backslash ≡ false = ground arith in
      let b : c == b'*' ≡ false = ground arith in
      rw (escape-cons c v (c ∷ []) eq, a, b) (ap (put_segment c) (split-escape v tail))
]

split-escape_tail :
    (v tail segment : Str) (segments : List Str)
    → split_wildcards false tail ≡ segment ∷ segments
    → split_wildcards false (escape_ldap_filter_value v ++ tail)
      ≡ (escape_ldap_filter_value v ++ segment) ∷ segments
split-escape_tail v tail segment segments e =
    split-escape v tail
    ∙ ap (put_segments (escape_ldap_filter_value v)) e
    ∙ put_segments-cons (escape_ldap_filter_value v) segment segments

-- An escaped value that is not empty begins with a character that is no wildcard.
escaped-cons :
    (v : Str)
    → is_empty v ≡ false
    → (c : ℕ) × (s : Str) × (escape_ldap_filter_value v ≡ c ∷ s) × (c == b'*' ≡ false)
escaped-cons [] h = absurd (cc)
escaped-cons (c ∷ v) h = elim (escape_char-cases c) [
  | inl (d, e, _, _, _, _, eq) ↦ (backslash, _, escape-cons c v (backslash ∷ d ∷ e ∷ []) eq, refl)
  | inr (plain, eq) ↦
      let inert : c ≢ b'*' = (subst (All IsInert) eq (escape_char-All c)).0.0 in
      (c, _, escape-cons c v (c ∷ []) eq, ground arith)
]

split_nil : split_wildcards false [] ≡ [] ∷ []
unfolding split_wildcards
split_nil = refl

split_star : split_wildcards false (b'*' ∷ []) ≡ [] ∷ [] ∷ []
unfolding split_wildcards
split_star = refl

split_after_star : (s : Str) → split_wildcards false (b'*' ∷ s) ≡ [] ∷ split_wildcards false s
unfolding split_wildcards
split_after_star s = refl

module _ (decode_utf8 : List ℕ → Str) (ascii : KeepsAscii decode_utf8) (attribute value : Str)
    (described : matches_description attribute ≡ true) (bare : trim attribute ≡ attribute) where
  abbrev esc : Str
  esc = escape_ldap_filter_value value

  unescaped : unescape_ldap_filter_value decode_utf8 esc ≡ value
  unescaped = unescape-escape_ldap_filter_value decode_utf8 ascii value

  match-equal :
      (raw : Str) → match_clause_item (attribute ++ b'=' ∷ raw) ≡ some (attribute, equal, raw)
  unfolding match_clause_item
  match-equal raw =
      let (c, t, e, _) = matches_description-cons attribute described in
      let chars =
        subst (All (λ d. is_description_char d ≡ true)) e
          (matches_description-All attribute described) in
      let (a, _, _, _) = plain_char c chars.0 in
      subst (λ s. match_clause_item (s ++ b'=' ∷ raw) ≡ some (s, equal, raw)) (sym e)
        (rw a (ap (put_attribute c) (cut_operator-equal t raw chars.1)))

  match-compares :
      (mode : ComparisonMode) (raw : Str)
      → match_clause_item (attribute ++ (comparison_operator mode ++ raw))
        ≡ some (attribute, compares mode, raw)
  unfolding match_clause_item
  match-compares mode raw =
      let (c, t, e, _) = matches_description-cons attribute described in
      let chars =
        subst (All (λ d. is_description_char d ≡ true)) e
          (matches_description-All attribute described) in
      let (a, _, _, _) = plain_char c chars.0 in
      subst
        (λ s.
          match_clause_item (s ++ (comparison_operator mode ++ raw)) ≡ some (s, compares mode, raw))
        (sym e) (rw a (ap (put_attribute c) (cut_operator-compares mode t raw chars.1)))

  valid : is_valid_ldap_attribute_description (trim attribute) ≡ true
  unfolding is_valid_ldap_attribute_description
  valid = ap (λ s. matches_description (trim s)) bare ∙ ap matches_description bare ∙ described

  parse-equal :
      (raw : Str)
      → parse_clause_item decode_utf8 (attribute ++ b'=' ∷ raw)
        ≡ cut_clause decode_utf8 attribute equal raw
  unfolding parse_clause_item
  parse-equal raw =
      ap (described_clause decode_utf8) (match-equal raw)
      ∙ ap (λ b. if b then cut_clause decode_utf8 (trim attribute) equal raw else none) valid
      ∙ ap (λ a. cut_clause decode_utf8 a equal raw) bare

  parse-compares :
      (mode : ComparisonMode) (raw : Str)
      → parse_clause_item decode_utf8 (attribute ++ (comparison_operator mode ++ raw))
        ≡ cut_clause decode_utf8 attribute (compares mode) raw
  unfolding parse_clause_item
  parse-compares mode raw =
      ap (described_clause decode_utf8) (match-compares mode raw)
      ∙ ap (λ b. if b then cut_clause decode_utf8 (trim attribute) (compares mode) raw else none)
          valid
      ∙ ap (λ a. cut_clause decode_utf8 a (compares mode) raw) bare

  pub parse-present :
      parse_clause_item decode_utf8 (attribute ++ b'=' ∷ b'*' ∷ [])
      ≡ some (new_clause attribute present [])
  parse-present = parse-equal (b'*' ∷ [])

  read_value :
      (op : BuilderOp)
      → some (new_clause attribute op (unescape_ldap_filter_value decode_utf8 esc))
        ≡ some (new_clause attribute op value)
  read_value op = ap (λ v. some (new_clause attribute op v)) unescaped

  cut_unstarred :
      (raw : Str) (c : ℕ) (s : Str)
      → raw ≡ c ∷ s
      → c == b'*' ≡ false
      → cut_clause decode_utf8 attribute equal raw
        ≡ segments_clause decode_utf8 attribute (split_wildcards false raw)
  cut_unstarred raw c s e n =
      let other : str_eq raw (codes "*") ≡ false =
        ap (λ r. str_eq r (codes "*")) e ∙ ground arith in
      rw other refl

  module _ (filled : is_empty value ≡ false) where
    pub parse-comparison :
        (mode : ComparisonMode)
        → parse_clause_item decode_utf8 (attribute ++ (comparison_operator mode ++ esc))
          ≡ some (new_clause attribute (comparison mode) value)
    parse-comparison mode =
        let (c, s, e, _) = escaped-cons value filled in
        parse-compares mode esc
        ∙ ap
            (λ b.
              if b
              then none
              else some (
                  new_clause attribute (comparison mode)
                    (unescape_ldap_filter_value decode_utf8 esc)))
            (ap is_empty e)
        ∙ read_value (comparison mode)

    pub parse-equals :
        parse_clause_item decode_utf8 (attribute ++ b'=' ∷ esc)
        ≡ some (new_clause attribute equals value)
    parse-equals =
        let (c, s, e, n) = escaped-cons value filled in
        parse-equal esc
        ∙ cut_unstarred esc c s e n
        ∙ ap (segments_clause decode_utf8 attribute) (
            sym (ap (split_wildcards false) (append-nil esc))
            ∙ split-escape_tail value [] [] [] split_nil
            ∙ ap (λ t. t ∷ []) (append-nil esc ∙ e))
        ∙ ap (λ t. some (new_clause attribute equals (unescape_ldap_filter_value decode_utf8 t)))
            (sym e)
        ∙ read_value equals

    parse-starts_with :
        parse_clause_item decode_utf8
          (attribute ++ b'=' ∷ substring_value Assertion.starts_with esc)
        ≡ some (new_clause attribute (substring Assertion.starts_with) value)
    unfolding substring_value
    parse-starts_with =
        let (c, s, e, n) = escaped-cons value filled in
        parse-equal (esc ++ b'*' ∷ [])
        ∙ cut_unstarred (esc ++ b'*' ∷ []) c (s ++ b'*' ∷ []) (ap (λ r. r ++ b'*' ∷ []) e) n
        ∙ ap (segments_clause decode_utf8 attribute) (
            split-escape_tail value (b'*' ∷ []) [] ([] ∷ []) split_star
            ∙ ap (λ t. t ∷ [] ∷ []) (append-nil esc ∙ e))
        ∙ ap
            (λ t. some (
              new_clause attribute (substring Assertion.starts_with)
                (unescape_ldap_filter_value decode_utf8 t)))
            (sym e)
        ∙ read_value (substring Assertion.starts_with)

    parse-ends_with :
        parse_clause_item decode_utf8 (attribute ++ b'=' ∷ substring_value Assertion.ends_with esc)
        ≡ some (new_clause attribute (substring Assertion.ends_with) value)
    unfolding substring_value
    parse-ends_with =
        let (c, s, e, n) = escaped-cons value filled in
        parse-equal (b'*' ∷ esc)
        ∙ ap (λ r. cut_clause decode_utf8 attribute equal (b'*' ∷ r)) e
        ∙ ap (segments_clause decode_utf8 attribute) (
            split_after_star (c ∷ s)
            ∙ ap (λ r. [] ∷ split_wildcards false r) (sym e ∙ sym (append-nil esc))
            ∙ ap (λ t. [] ∷ t) (split-escape_tail value [] [] [] split_nil)
            ∙ ap (λ t. [] ∷ t ∷ []) (append-nil esc ∙ e))
        ∙ ap
            (λ t. some (
              new_clause attribute (substring Assertion.ends_with)
                (unescape_ldap_filter_value decode_utf8 t)))
            (sym e)
        ∙ read_value (substring Assertion.ends_with)

    parse-contains :
        parse_clause_item decode_utf8 (attribute ++ b'=' ∷ substring_value Assertion.contains esc)
        ≡ some (new_clause attribute (substring Assertion.contains) value)
    unfolding substring_value
    parse-contains =
        let (c, s, e, n) = escaped-cons value filled in
        parse-equal (b'*' ∷ (esc ++ b'*' ∷ []))
        ∙ ap (λ r. cut_clause decode_utf8 attribute equal (b'*' ∷ (r ++ b'*' ∷ []))) e
        ∙ ap (segments_clause decode_utf8 attribute) (
            split_after_star ((c ∷ s) ++ b'*' ∷ [])
            ∙ ap (λ r. [] ∷ split_wildcards false (r ++ b'*' ∷ [])) (sym e)
            ∙ ap (λ t. [] ∷ t) (split-escape_tail value (b'*' ∷ []) [] ([] ∷ []) split_star)
            ∙ ap (λ t. [] ∷ t ∷ [] ∷ []) (append-nil esc ∙ e))
        ∙ ap
            (λ t. some (
              new_clause attribute (substring Assertion.contains)
                (unescape_ldap_filter_value decode_utf8 t)))
            (sym e)
        ∙ read_value (substring Assertion.contains)

    pub parse-substring :
        (mode : SubstringMode)
        → parse_clause_item decode_utf8 (attribute ++ b'=' ∷ substring_value mode esc)
          ≡ some (new_clause attribute (substring mode) value)
    parse-substring Assertion.contains = parse-contains
    parse-substring Assertion.starts_with = parse-starts_with
    parse-substring Assertion.ends_with = parse-ends_with
