-- ===== src/Ldif/Reading.antt =====
-- `parseLdif` of frontend/src/lib/ldif.ts over the lines of one attribute and of one entry.
use dbx_plugin_ldap.Base.{
  ℕ, ◌<◌, ◌≡◌, inl, inr, refl, sym, ap, ◌∙◌, true, false, Option, none, some, List, [], ◌∷◌, ◌++◌,
  append-nil, append_assoc, arith, All, Str, codes, str_eq, str_eq_refl, is_alpha, is_name_char,
  Bool-cases, Option-cases, lower_char, ascii_lower,
}
use dbx_plugin_ldap.Description.{matches_description}
use dbx_plugin_ldap.Ldif.{
  LdifEntry, ◌>>=◌, fold_line, needs_base64, attribute_text, serialize_attribute_line,
  serialize_dn_line, serialize_values, serialize_attributes, serialize_entry,
}
use dbx_plugin_ldap.Ldif.Unfold.{IsInline}
use dbx_plugin_ldap.Ldif.Attribute.{
  IsCodec, parse_attribute_line-attribute_text, attribute_text-IsInline, attribute_text-cons,
}
use dbx_plugin_ldap.Ldif.Parse.{
  Progress, parsed, has_name, inherited_names, push_value, is_version_line, take_parsed,
  start_entry, parse_attribute_line, parse_step,
}
use dbx_plugin_ldap.Ldif.Reach.{Wrote, Wrote-nil, Wrote-append, Wrote-fold_line, Steps}
use mathlib.Core.Path.{subst}
use mathlib.Core.Option.{some-injective}

-- Between two entries, and within one.
abbrev pub idle : List LdifEntry → Progress
idle entries = record { entries = entries; errors = []; entry = none; entry_has_error = false }

abbrev pub reading : List LdifEntry → Str → List (Str × List Str) → Progress
reading entries dn attributes = record {
  entries = entries;
  errors = [];
  entry = some (record { dn = dn; attributes = attributes });
  entry_has_error = false;
}

-- A name that the parser takes for an attribute's.
pub record IsAttributeName (name : Str) : Type 0 where
  pub described : matches_description name ≡ true
  pub no_changetype : str_eq (ascii_lower name) (codes "changetype") ≡ false
  pub no_dn : str_eq (ascii_lower name) (codes "dn") ≡ false
  pub own : has_name name inherited_names ≡ false

abbrev pub Absent : Str → List (Str × List Str) → Type 0
Absent name attributes = All (λ a. str_eq a.0 name ≡ false) attributes

-- Each attribute has a name of its own, which none before it has, and a value at least.
abbrev pub AreAttributes : List (Str × List Str) → List (Str × List Str) → Type 0
AreAttributes before [] = Unit
AreAttributes before ((name, []) ∷ attributes) = ⊥
AreAttributes before ((name, value ∷ values) ∷ attributes) =
    IsAttributeName name
    × Absent name before
    × AreAttributes (before ++ (name, value ∷ values) ∷ []) attributes

push_value_new :
    (name value : Str) (attributes : List (Str × List Str))
    → Absent name attributes
    → push_value name value attributes ≡ attributes ++ (name, value ∷ []) ∷ []
unfolding push_value
push_value_new name value [] h = refl
push_value_new name value ((n, values) ∷ attributes) (e, h) =
    rw e (ap (λ t. (n, values) ∷ t) (push_value_new name value attributes h))

push_value_last :
    (name value : Str) (values : List Str) (attributes : List (Str × List Str))
    → Absent name attributes
    → push_value name value (attributes ++ (name, values) ∷ [])
      ≡ attributes ++ (name, values ++ value ∷ []) ∷ []
unfolding push_value
push_value_last name value values [] h = rw (str_eq_refl name) refl
push_value_last name value values ((n, vs) ∷ attributes) (e, h) =
    rw e (ap (λ t. (n, vs) ∷ t) (push_value_last name value values attributes h))

dn_described : matches_description (codes "dn") ≡ true
unfolding matches_description is_alpha is_name_char
dn_described = refl

pub >>=-cases :
    {A B : Type 0} (m : Option A) (f : A → Option B) (b : B)
    → (m >>= f) ≡ some b
    → (a : A) × (m ≡ some a) × (f a ≡ some b)
>>=-cases none f b h = absurd (cc)
>>=-cases (some a) f b h = (a, refl, h)

module _ (encode decode : Str → Option Str) (codec : IsCodec encode decode) (w : ℕ)
    (pos : 0 < w) where
  -- A written line whose reading is known.
  Wrote-line :
      (name value line : Str) (p q : Progress)
      → matches_description name ≡ true
      → serialize_attribute_line encode name value w ≡ some line
      → ((text : Str)
          → attribute_text encode name value ≡ some text
          → parse_attribute_line decode text ≡ parsed name value
          → Steps decode text p q)
      → Wrote decode (line ∷ []) p q
  unfolding serialize_attribute_line
  Wrote-line name value line p q d h steps =
      let (text, e, f) = >>=-cases (attribute_text encode name value) _ line h in
      let (c, s, t, start) = attribute_text-cons encode decode codec name d value text e in
      let inline = attribute_text-IsInline encode decode codec name d value text e in
      let read = parse_attribute_line-attribute_text encode decode codec name d value text e in
      subst (λ l. Wrote decode (l ∷ []) p q)
        (ap (λ u. fold_line u w) (sym t) ∙ some-injective _ _ f)
        (Wrote-fold_line decode c s w p q pos start (subst (All IsInline) t inline)
          (subst (λ u. Steps decode u p q) t (steps text e read)))

  value_step :
      (es : List LdifEntry) (dn name value text : Str) (attributes : List (Str × List Str))
      → IsAttributeName name
      → parse_attribute_line decode text ≡ parsed name value
      → Steps decode text
          (reading es dn attributes)
          (reading es dn (push_value name value attributes))
  unfolding parse_step take_parsed
  value_step es dn name value text attributes k read n =
      rw (read, k.no_changetype, k.no_dn, k.own) refl

  dn_line_no_version :
      (dn text : Str)
      → attribute_text encode (codes "dn") dn ≡ some text
      → is_version_line text ≡ false
  unfolding attribute_text is_version_line lower_char
  dn_line_no_version dn text e = elim (Bool-cases (needs_base64 dn)) [
    | inl n ↦ elim (Option-cases (encode dn)) [
      | inl f ↦ absurd (ground arith)
      | inr (b, f) ↦
          let same : codes "dn" ++ (codes ":: " ++ b) ≡ text = ground (arith, e) in
          subst (λ t. is_version_line t ≡ false) same refl
    ]
    | inr n ↦
        let same : codes "dn" ++ (codes ": " ++ dn) ≡ text = ground (arith, e) in
        subst (λ t. is_version_line t ≡ false) same refl
  ]

  dn_step :
      (es : List LdifEntry) (dn text : Str)
      → attribute_text encode (codes "dn") dn ≡ some text
      → parse_attribute_line decode text ≡ parsed (codes "dn") dn
      → Steps decode text (idle es) (reading es dn [])
  unfolding parse_step take_parsed start_entry lower_char
  dn_step es dn text e read n = rw (dn_line_no_version dn text e, read) refl

  Wrote-value :
      (es : List LdifEntry) (dn name value line : Str) (attributes : List (Str × List Str))
      → IsAttributeName name
      → serialize_attribute_line encode name value w ≡ some line
      → Wrote decode
          (line ∷ [])
          (reading es dn attributes)
          (reading es dn (push_value name value attributes))
  Wrote-value es dn name value line attributes k h =
      Wrote-line name value line _ _ k.described h
        (λ text _ read. value_step es dn name value text attributes k read)

  -- Further values of the attribute that was read last.
  Wrote-values :
      (es : List LdifEntry) (dn name : Str) (before : List (Str × List Str))
      (had values lines : List Str)
      → IsAttributeName name
      → Absent name before
      → serialize_values encode name values w ≡ some lines
      → Wrote decode lines
          (reading es dn (before ++ (name, had) ∷ []))
          (reading es dn (before ++ (name, had ++ values) ∷ []))
  unfolding serialize_values
  Wrote-values es dn name before had [] lines k absent h =
      subst
        (λ ls.
          Wrote decode ls (reading es dn (before ++ (name, had) ∷ []))
            (reading es dn (before ++ (name, had ++ []) ∷ [])))
        (some-injective _ _ h)
        (subst
          (λ vs.
            Wrote decode [] (reading es dn (before ++ (name, had) ∷ []))
              (reading es dn (before ++ (name, vs) ∷ [])))
          (sym (append-nil had)) (Wrote-nil decode _))
  Wrote-values es dn name before had (value ∷ values) lines k absent h =
      let (line, e, f) = >>=-cases (serialize_attribute_line encode name value w) _ lines h in
      let (more, e', f') = >>=-cases (serialize_values encode name values w) _ lines f in
      let first = Wrote-value es dn name value line (before ++ (name, had) ∷ []) k e in
      let rest = Wrote-values es dn name before (had ++ value ∷ []) values more k absent e' in
      subst
        (λ ls.
          Wrote decode ls (reading es dn (before ++ (name, had) ∷ []))
            (reading es dn (before ++ (name, had ++ value ∷ values) ∷ [])))
        (some-injective _ _ f')
        (Wrote-append decode (line ∷ []) more _
          (reading es dn (before ++ (name, had ++ value ∷ []) ∷ [])) _
          (subst
            (λ attrs.
              Wrote decode (line ∷ []) (reading es dn (before ++ (name, had) ∷ []))
                (reading es dn attrs))
            (push_value_last name value had before absent) first)
          (subst
            (λ vs.
              Wrote decode more (reading es dn (before ++ (name, had ++ value ∷ []) ∷ []))
                (reading es dn (before ++ (name, vs) ∷ [])))
            (append_assoc had (value ∷ []) values) rest))

  Wrote-attributes :
      (es : List LdifEntry) (dn : Str) (before attributes : List (Str × List Str))
      (lines : List Str)
      → AreAttributes before attributes
      → serialize_attributes encode attributes w ≡ some lines
      → Wrote decode lines (reading es dn before) (reading es dn (before ++ attributes))
  unfolding serialize_attributes serialize_values
  Wrote-attributes es dn before [] lines a h =
      subst (λ ls. Wrote decode ls (reading es dn before) (reading es dn (before ++ [])))
        (some-injective _ _ h)
        (subst (λ attrs. Wrote decode [] (reading es dn before) (reading es dn attrs))
          (sym (append-nil before)) (Wrote-nil decode _))
  Wrote-attributes es dn before ((name, []) ∷ attributes) lines a h = absurd a
  Wrote-attributes es dn before ((name, value ∷ values) ∷ attributes) lines (k, absent, a) h =
      let (own, e, f) = >>=-cases (serialize_values encode name (value ∷ values) w) _ lines h in
      let (more, e', f') = >>=-cases (serialize_attributes encode attributes w) _ lines f in
      let (line, g, g') = >>=-cases (serialize_attribute_line encode name value w) _ own e in
      let (others, i, i') = >>=-cases (serialize_values encode name values w) _ own g' in
      let first = Wrote-value es dn name value line before k g in
      let further = Wrote-values es dn name before (value ∷ []) values others k absent i in
      let rest =
        Wrote-attributes es dn (before ++ (name, value ∷ values) ∷ []) attributes more a e' in
      let middle = reading es dn (before ++ (name, value ∷ values) ∷ []) in
      subst
        (λ ls.
          Wrote decode ls (reading es dn before)
            (reading es dn (before ++ (name, value ∷ values) ∷ attributes)))
        (some-injective _ _ f')
        (Wrote-append decode own more _ middle _
          (subst (λ ls. Wrote decode ls (reading es dn before) middle) (some-injective _ _ i')
            (Wrote-append decode (line ∷ []) others _
              (reading es dn (before ++ (name, value ∷ []) ∷ [])) _
              (subst
                (λ attrs. Wrote decode (line ∷ []) (reading es dn before) (reading es dn attrs))
                (push_value_new name value before absent) first)
              further))
          (subst (λ attrs. Wrote decode more middle (reading es dn attrs))
            (append_assoc before ((name, value ∷ values) ∷ []) attributes) rest))

  -- The lines of an entry, where no other is being read.
  pub Wrote-entry :
      (es : List LdifEntry) (entry : LdifEntry) (lines : List Str)
      → AreAttributes [] entry.attributes
      → serialize_entry encode entry w ≡ some lines
      → Wrote decode lines (idle es) (reading es entry.dn entry.attributes)
  unfolding serialize_entry serialize_dn_line
  Wrote-entry es entry lines a h =
      let (dn_line, e, f) = >>=-cases (serialize_dn_line encode entry.dn w) _ lines h in
      let (more, e', f') = >>=-cases (serialize_attributes encode entry.attributes w) _ lines f in
      subst (λ ls. Wrote decode ls (idle es) (reading es entry.dn entry.attributes))
        (some-injective _ _ f')
        (Wrote-append decode (dn_line ∷ []) more _ (reading es entry.dn []) _
          (Wrote-line (codes "dn") entry.dn dn_line _ _ dn_described e
            (λ text t read. dn_step es entry.dn text t read))
          (Wrote-attributes es entry.dn [] entry.attributes more a e'))
