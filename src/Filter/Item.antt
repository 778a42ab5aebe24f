-- ===== src/Filter/Item.antt =====
-- `parseFilterItem` of frontend/src/lib/ldapFilter.ts reads the item of one clause.
use dbx_plugin_ldap.Base.{
  ℕ, suc, ◌≡◌, refl, sym, ap, ◌∙◌, true, false, ◌&&◌, ◌||◌, some, List, [], ◌∷◌, ◌++◌, append_assoc,
  arith, All, All-imp, All-append, Str, codes, str_eq, is_empty, trim, is_digit, is_alpha,
  is_name_char, ◌==◌, ascii_lower,
}
use mathlib.Core.Path.{subst}
use dbx_plugin_ldap.Base
use dbx_plugin_ldap.Description.{
  matches_description, is_description_char, matches_description-All, matches_description-cons,
}
use dbx_plugin_ldap.Filter.Assertion.{
  SubstringMode, ComparisonMode, gte, lte, approx, safe_builder_attribute, substring_value,
  comparison_operator, build_presence_filter, build_equality_filter, build_substring_filter,
  build_comparison_filter, text, is_guid, build_negated_filter,
}
use dbx_plugin_ldap.Filter.Assertion
use dbx_plugin_ldap.Filter.Escape.{
  KeepsAscii, IsInert, escape_ldap_filter_value, escape_ldap_filter_value-All,
}
use dbx_plugin_ldap.Filter.Builder.{
  BuilderOp, equals, not_equals, present, substring, comparison, clause, build_op_filter,
}
use dbx_plugin_ldap.Filter.Group.{trim-parens}
use dbx_plugin_ldap.Filter.Tree.{not_negated_char}
use dbx_plugin_ldap.Filter.Structure.{
  clause_of, new_clause, parse_clause_item, skip_filter_whitespace, put_body, cut_close, has_open,
  parse_filter_item,
}
use dbx_plugin_ldap.Filter.Clause.{parse-present, parse-equals, parse-substring, parse-comparison}

-- The text between the parentheses of an item.
abbrev pub body_of : BuilderOp → Str → Str → Str
body_of present attribute escaped = attribute ++ b'=' ∷ b'*' ∷ []
body_of (substring mode) attribute escaped = attribute ++ b'=' ∷ substring_value mode escaped
body_of (comparison mode) attribute escaped = attribute ++ (comparison_operator mode ++ escaped)
body_of equals attribute escaped = attribute ++ b'=' ∷ escaped
body_of not_equals attribute escaped = attribute ++ b'=' ∷ escaped

abbrev pub parens : Str → Str
parens body = b'(' ∷ (body ++ b')' ∷ [])

-- The values that an operator takes: none for presence, a filled one for the others, and for
-- equality no GUID of an `objectGUID`, which is written in binary.
abbrev pub Fits : BuilderOp → Str → Str → Type 0
Fits present attribute value = value ≡ []
Fits equals attribute value =
    (is_empty value ≡ false)
    × ((str_eq (ascii_lower attribute) (codes "objectguid") && is_guid value) ≡ false)
Fits not_equals attribute value =
    (is_empty value ≡ false)
    × ((str_eq (ascii_lower attribute) (codes "objectguid") && is_guid value) ≡ false)
Fits (substring mode) attribute value = is_empty value ≡ false
Fits (comparison mode) attribute value = is_empty value ≡ false

abbrev pub positive : BuilderOp → BuilderOp
positive not_equals = equals
positive op = op

abbrev IsNoParen : ℕ → Type 0
IsNoParen c = (c == b'(' ≡ false) × (c == b')' ≡ false)

module _ (decode_utf8 : List ℕ → Str) (ascii : KeepsAscii decode_utf8) (attribute value : Str)
    (described : matches_description attribute ≡ true) (bare : trim attribute ≡ attribute)
    (trimmed : trim value ≡ value) where
  abbrev esc : Str
  esc = escape_ldap_filter_value value

  parse-body_of :
      (op : BuilderOp)
      → Fits op attribute value
      → parse_clause_item decode_utf8 (body_of op attribute esc)
        ≡ some (new_clause attribute (positive op) value)
  parse-body_of present h =
      parse-present decode_utf8 ascii attribute value described bare
      ∙ ap (λ v. some (new_clause attribute present v)) (sym h)
  parse-body_of equals (f, _) = parse-equals decode_utf8 ascii attribute value described bare f
  parse-body_of not_equals (f, _) = parse-equals decode_utf8 ascii attribute value described bare f
  parse-body_of (substring mode) f =
      parse-substring decode_utf8 ascii attribute value described bare f mode
  parse-body_of (comparison mode) f =
      parse-comparison decode_utf8 ascii attribute value described bare f mode

  safe : safe_builder_attribute attribute ≡ attribute
  unfolding safe_builder_attribute
  safe = rw (bare, described) refl

  filled_attribute : is_empty attribute ≡ false
  filled_attribute =
      let (c, t, e, _) = matches_description-cons attribute described in ap is_empty e

  equality_text :
      is_empty value ≡ false
      → (str_eq (ascii_lower attribute) (codes "objectguid") && is_guid value) ≡ false
      → build_equality_filter attribute (text value)
        ≡ Assertion.ok (parens (body_of equals attribute esc))
  unfolding build_equality_filter
  equality_text f g =
      rw (safe, trimmed, filled_attribute, f, g)
        (ap (λ s. Assertion.ok (b'(' ∷ s)) (sym (append_assoc attribute (b'=' ∷ esc) (b')' ∷ []))))

  negated_text :
      build_negated_filter (parens (body_of equals attribute esc))
      ≡ codes "(!" ++ (parens (body_of equals attribute esc) ++ codes ")")
  unfolding build_negated_filter
  negated_text =
      let (c, t, e, name) = matches_description-cons attribute described in
      let whole = body_of equals attribute esc in
      let no_bang : (Base.starts_with (parens whole) (codes "(!")
            && Base.ends_with (parens whole) (codes ")"))
          ≡ false =
        ap
          (λ a.
            Base.starts_with (b'(' ∷ ((a ++ b'=' ∷ esc) ++ b')' ∷ [])) (codes "(!")
            && Base.ends_with (parens whole) (codes ")"))
          e
        ∙ not_negated_char c ((t ++ b'=' ∷ esc) ++ b')' ∷ [])
            (Base.ends_with (parens whole) (codes ")")) name in
      rw (trim-parens whole, no_bang) refl

  -- What the builder writes for the operator.
  unfoldable pub op_text : BuilderOp → Str
  op_text not_equals = codes "(!" ++ (parens (body_of equals attribute esc) ++ codes ")")
  op_text op = parens (body_of op attribute esc)

  pub build_op_filter-text :
      (op : BuilderOp) → Fits op attribute value → build_op_filter op attribute value ≡ op_text op
  unfolding build_op_filter op_text build_presence_filter build_substring_filter
      build_comparison_filter
  build_op_filter-text present h =
      rw (safe, filled_attribute)
        (ap (λ s. b'(' ∷ s) (sym (append_assoc attribute (b'=' ∷ b'*' ∷ []) (b')' ∷ []))))
  build_op_filter-text equals (f, g) = rw (equality_text f g) refl
  build_op_filter-text not_equals (f, g) = rw (equality_text f g) negated_text
  build_op_filter-text (substring mode) f =
      rw (safe, trimmed, filled_attribute, f)
        (ap (λ s. b'(' ∷ s)
          (sym (append_assoc attribute (b'=' ∷ substring_value mode esc) (b')' ∷ []))))
  build_op_filter-text (comparison mode) f =
      rw (safe, trimmed, filled_attribute, f)
        (ap (λ s. b'(' ∷ s)
          (ap (λ s. attribute ++ s) (sym (append_assoc (comparison_operator mode) esc (b')' ∷ [])))
            ∙ sym (append_assoc attribute (comparison_operator mode ++ esc) (b')' ∷ []))))

described_char : (c : ℕ) → is_description_char c ≡ true → IsNoParen c
unfolding is_description_char is_name_char is_alpha is_digit
described_char c h = (ground arith, ground arith)

inert_char : (c : ℕ) → IsInert c → IsNoParen c
inert_char c (s, o, p, z) = (ground arith, ground arith)

cut_close-append :
    (body rest : Str) → All IsNoParen body → cut_close (body ++ b')' ∷ rest) ≡ some (body, rest)
unfolding cut_close
cut_close-append [] rest h = refl
cut_close-append (c ∷ body) rest ((_, e), h) = rw e (ap (put_body c) (cut_close-append body rest h))

has_open-none : (body : Str) → All IsNoParen body → has_open body ≡ false
has_open-none [] h = refl
has_open-none (c ∷ body) ((e, _), h) = rw e (has_open-none body h)

-- A name's character is no operator of a filter and no white space.
head_char :
    (c : ℕ)
    → is_description_char c ≡ true
    → (c == b'&' ≡ false)
      × (c == b'|' ≡ false)
      × (c == b'!' ≡ false)
      × ((c == 0x20 || c == 0x09 || c == 0x0d || c == 0x0a) ≡ false)
unfolding is_description_char is_name_char is_alpha is_digit
head_char c h = (ground arith, ground arith, ground arith, ground arith)

parse-bare :
    (decode_utf8 : List ℕ → Str) (n c : ℕ) (t rest : Str)
    → is_description_char c ≡ true
    → All IsNoParen (c ∷ t)
    → parse_filter_item decode_utf8 (suc n) (b'(' ∷ ((c ∷ t) ++ b')' ∷ rest))
      ≡ clause_of decode_utf8 (some (c ∷ t, rest))
unfolding parse_filter_item skip_filter_whitespace
parse-bare decode_utf8 n c t rest h bare =
    let (a, o, x, w) = head_char c h in
    rw (w, a, o, x) (ap (clause_of decode_utf8) (cut_close-append (c ∷ t) rest bare))

substring-All :
    (mode : SubstringMode) (s : Str) → All IsNoParen s → All IsNoParen (substring_value mode s)
unfolding substring_value
substring-All Assertion.contains s h =
    ((refl, refl), All-append IsNoParen s (b'*' ∷ []) h ((refl, refl), tt))
substring-All Assertion.starts_with s h = All-append IsNoParen s (b'*' ∷ []) h ((refl, refl), tt)
substring-All Assertion.ends_with s h = ((refl, refl), h)

comparison-All : (mode : ComparisonMode) → All IsNoParen (comparison_operator mode)
unfolding comparison_operator
comparison-All gte = ((refl, refl), ((refl, refl), tt))
comparison-All lte = ((refl, refl), ((refl, refl), tt))
comparison-All approx = ((refl, refl), ((refl, refl), tt))

module _ (decode_utf8 : List ℕ → Str) (ascii : KeepsAscii decode_utf8) (attribute value : Str)
    (described : matches_description attribute ≡ true) (bare : trim attribute ≡ attribute)
    (trimmed : trim value ≡ value) where
  named-All : (s : Str) → All IsNoParen s → All IsNoParen (attribute ++ s)
  named-All s h =
      All-append IsNoParen attribute s
        (All-imp (λ c. is_description_char c ≡ true) IsNoParen described_char attribute
          (matches_description-All attribute described))
        h

  escaped-All : All IsNoParen (escape_ldap_filter_value value)
  escaped-All =
      All-imp IsInert IsNoParen inert_char (escape_ldap_filter_value value)
        (escape_ldap_filter_value-All value)

  body_of-All :
      (op : BuilderOp) → All IsNoParen (body_of op attribute (escape_ldap_filter_value value))
  body_of-All present = named-All (b'=' ∷ b'*' ∷ []) ((refl, refl), ((refl, refl), tt))
  body_of-All equals = named-All (b'=' ∷ escape_ldap_filter_value value) ((refl, refl), escaped-All)
  body_of-All not_equals =
      named-All (b'=' ∷ escape_ldap_filter_value value) ((refl, refl), escaped-All)
  body_of-All (substring mode) =
      named-All (b'=' ∷ substring_value mode (escape_ldap_filter_value value))
        ((refl, refl), substring-All mode (escape_ldap_filter_value value) escaped-All)
  body_of-All (comparison mode) =
      named-All (comparison_operator mode ++ escape_ldap_filter_value value) (
        All-append IsNoParen (comparison_operator mode) (escape_ldap_filter_value value)
          (comparison-All mode) escaped-All)

  headed :
      (s : Str) → (c : ℕ) × (t : Str) × (attribute ++ s ≡ c ∷ t) × (is_description_char c ≡ true)
  headed s =
      let (c, t, e, _) = matches_description-cons attribute described in
      (
        c,
        t ++ s,
        ap (λ a. a ++ s) e,
        (subst (All (λ d. is_description_char d ≡ true)) e
            (matches_description-All attribute described)).0,
      )

  body_of-cons :
      (op : BuilderOp)
      → (c : ℕ) × (t : Str) × (body_of op attribute (escape_ldap_filter_value value) ≡ c ∷ t)
        × (is_description_char c ≡ true)
  body_of-cons present = headed (b'=' ∷ b'*' ∷ [])
  body_of-cons equals = headed (b'=' ∷ escape_ldap_filter_value value)
  body_of-cons not_equals = headed (b'=' ∷ escape_ldap_filter_value value)
  body_of-cons (substring mode) =
      headed (b'=' ∷ substring_value mode (escape_ldap_filter_value value))
  body_of-cons (comparison mode) =
      headed (comparison_operator mode ++ escape_ldap_filter_value value)

  -- The item of a clause is read as the clause, without its negation.
  pub parse-parens :
      (n : ℕ) (op : BuilderOp) (rest : Str)
      → Fits op attribute value
      → parse_filter_item decode_utf8
          (suc n)
          (parens (body_of op attribute (escape_ldap_filter_value value)) ++ rest)
        ≡ some (clause (new_clause attribute (positive op) value), rest)
  parse-parens n op rest h =
      let (c, t, e, first) = body_of-cons op in
      let body = body_of op attribute (escape_ldap_filter_value value) in
      let read : parse_clause_item decode_utf8 (c ∷ t)
          ≡ some (new_clause attribute (positive op) value) =
        ap (parse_clause_item decode_utf8) (sym e)
        ∙ parse-body_of decode_utf8 ascii attribute value described bare trimmed op h in
      let clear = subst (All IsNoParen) e (body_of-All op) in
      ap (λ b. parse_filter_item decode_utf8 (suc n) (b'(' ∷ b))
        (append_assoc body (b')' ∷ []) rest)
      ∙ ap (λ b. parse_filter_item decode_utf8 (suc n) (b'(' ∷ (b ++ b')' ∷ rest))) e
      ∙ parse-bare decode_utf8 n c t rest first clear
      ∙ rw (has_open-none (c ∷ t) clear, read) refl
