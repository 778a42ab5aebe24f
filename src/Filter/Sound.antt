-- ===== src/Filter/Sound.antt =====
-- The leaf builders of frontend/src/lib/ldapFilter.ts make well formed items.
use dbx_plugin_ldap.Base.{
  ℕ, ◌≡◌, ◌≢◌, ◌⊎◌, inl, inr, refl, sym, ap, ◌∙◌, Bool, true, false, ◌&&◌, ◌||◌, List, [], ◌∷◌,
  ◌++◌, append-nil, arith, trim_idem, All, All-imp, All-append, Str, codes, str_eq, is_empty, trim,
  is_hex, is_name_char, Bool-cases, &&_split, ascii_lower,
}
use mathlib.Core.List.{flat_map}
use mathlib.Core.Path.{subst}
use mathlib.Core.Bool.{false≢true}
use dbx_plugin_ldap.Description.{matches_description}
use dbx_plugin_ldap.Filter.Escape.{IsInert, escape_ldap_filter_value, escape_ldap_filter_value-All}
use dbx_plugin_ldap.Filter.Assertion.{
  ok, SubstringMode, contains, starts_with, ends_with, item, safe_builder_attribute,
  substring_value, hex_escape, is_guid, text, build_equality_filter,
  build_object_guid_equality_filter, build_substring_filter,
}
use dbx_plugin_ldap.Filter.Validate
use dbx_plugin_ldap.Filter.Validate.{
  Operator, equality, is_equality, is_valid_prefix, is_valid_value,
}
use dbx_plugin_ldap.Filter.Accept.{
  Accepted, IsBare, Accepted-item, value-escaped, value_escape, value_star, operator_text,
}
use dbx_plugin_ldap.Filter.Guid.{
  IsByte, hex_escape-cases, guid_bytes, guid_bytes-IsByte, build_object_guid_ok,
}

pub safe_cases :
    (attribute : Str)
    → (safe_builder_attribute attribute ≡ [])
      ⊎ (matches_description (safe_builder_attribute attribute) ≡ true)
unfolding safe_builder_attribute
safe_cases attribute = elim (Bool-cases (matches_description (trim attribute))) [
  | inl a ↦ inr (rw (a, a))
  | inr a ↦ inl (rw a)
]

-- An item of the grammar: description, operator, value.
pub record IsItem (o : Operator) (f : Str) : Type 0 where
  pub attr : Str
  pub value : Str
  pub shape : f ≡ item attr (operator_text o) value
  pub described : matches_description attr ≡ true
  pub valued : is_valid_value (is_equality o) value ≡ true
  pub bare : All IsBare value

prefix_ok :
    (o : Operator) (attr : Str)
    → o ≢ Validate.extensible
    → matches_description attr ≡ true
    → is_valid_prefix o attr ≡ true
unfolding is_valid_prefix
prefix_ok Validate.gte attr n h = h
prefix_ok Validate.lte attr n h = h
prefix_ok Validate.approx attr n h = h
prefix_ok Validate.equality attr n h = h
prefix_ok Validate.extensible attr n h = absurd (n refl)

pub IsItem-Accepted : (o : Operator) (f : Str) → o ≢ Validate.extensible → IsItem o f → Accepted 1 f
IsItem-Accepted o f n i =
    subst (Accepted 1) (sym i.shape) (
      Accepted-item i.attr o i.value i.described (prefix_ok o i.attr n i.described) i.valued i.bare)

pub escaped-IsBare : (v : Str) → All IsBare (escape_ldap_filter_value v)
escaped-IsBare v =
    All-imp IsInert IsBare (λ c h. (h.1, h.2)) (escape_ldap_filter_value v)
      (escape_ldap_filter_value-All v)

escaped_valued : (stars : Bool) (v : Str) → is_valid_value stars (escape_ldap_filter_value v) ≡ true
escaped_valued stars v =
    ap (is_valid_value stars) (sym (append-nil (escape_ldap_filter_value v)))
    ∙ value-escaped stars v []
    ∙ unfold is_valid_value in refl

hex-IsBare : (d : ℕ) → is_hex d ≡ true → IsBare d
unfolding is_hex
hex-IsBare d h = (ground arith, ground arith)

hex_escapes_ok :
    (bs : List ℕ)
    → All IsByte bs
    → (is_valid_value true (flat_map hex_escape bs) ≡ true) × All IsBare (flat_map hex_escape bs)
unfolding flat_map
hex_escapes_ok [] h = (unfold is_valid_value in refl, tt)
hex_escapes_ok (b ∷ bs) (p, h) =
    let (d, e, hd, he, value, eq) = hex_escape-cases b p in
    let (valued, bare) = hex_escapes_ok bs h in
    (
      ap (λ t. is_valid_value true (t ++ flat_map hex_escape bs)) eq
          ∙ value_escape true d e _ hd he
          ∙ valued,
      subst (λ t. All IsBare (t ++ flat_map hex_escape bs)) (sym eq)
          (omega arith, (hex-IsBare d hd, (hex-IsBare e he, bare))),
    )

-- Absent, or an item.
abbrev pub MaybeItem : Operator → Str → Type 0
MaybeItem o f = (f ≡ []) ⊎ IsItem o f

object_guid_described : matches_description (codes "objectGUID") ≡ true
unfolding matches_description is_name_char
object_guid_described = refl

module _ (attribute value : Str) where
  abbrev pub attr : Str
  attr = safe_builder_attribute attribute

  abbrev pub missing : Bool
  missing = is_empty attr || is_empty (trim value)

  abbrev by_guid : Bool
  by_guid = str_eq (ascii_lower attr) (codes "objectguid") && is_guid (trim value)

  pub equality_missing : missing ≡ true → build_equality_filter attribute (text value) ≡ ok []
  unfolding build_equality_filter
  equality_missing m = rw m refl

  equality_guid :
      missing ≡ false
      → by_guid ≡ true
      → build_equality_filter attribute (text value)
        ≡ build_object_guid_equality_filter (trim value)
  unfolding build_equality_filter
  equality_guid m g = rw (m, g) refl

  equality_plain :
      missing ≡ false
      → by_guid ≡ false
      → build_equality_filter attribute (text value)
        ≡ ok (item attr (codes "=") (escape_ldap_filter_value (trim value)))
  unfolding build_equality_filter
  equality_plain m g = rw (m, g) refl

  pub filled_described : missing ≡ false → matches_description attr ≡ true
  filled_described m = elim (safe_cases attribute) [
    | inl e ↦ absurd (false≢true (sym m ∙ ap (λ a. is_empty a || is_empty (trim value)) e))
    | inr d ↦ d
  ]

  pub escaped_item :
      (o : Operator)
      → matches_description attr ≡ true
      → IsItem o (item attr (operator_text o) (escape_ldap_filter_value (trim value)))
  escaped_item o d = record {
    attr = attr;
    value = escape_ldap_filter_value (trim value);
    shape = refl;
    described = d;
    valued = escaped_valued (is_equality o) (trim value);
    bare = escaped-IsBare (trim value);
  }

  -- The item of an equality filter over text that misses nothing.
  pub build_equality_filter_filled :
      missing ≡ false
      → (f : Str) × (build_equality_filter attribute (text value) ≡ ok f) × IsItem equality f
  build_equality_filter_filled m = elim (Bool-cases by_guid) [
    | inl g ↦
        let same = trim_idem value in
        let is = ap is_guid same ∙ (&&_split _ _ g).1 in
        let bs = guid_bytes (trim (trim value)) in
        let (valued, bare) = hex_escapes_ok bs (guid_bytes-IsByte (trim (trim value)) is).0 in
        (
          item (codes "objectGUID") (codes "=") (flat_map hex_escape bs),
          equality_guid m g ∙ build_object_guid_ok (trim value) is,
          record {
            attr = codes "objectGUID";
            value = flat_map hex_escape bs;
            shape = refl;
            described = object_guid_described;
            valued = valued;
            bare = bare;
          },
        )
    | inr g ↦ (_, equality_plain m g, escaped_item equality (filled_described m))
  ]

  -- An equality filter over text is never an error: it is absent, or a well formed item.
  pub build_equality_filter_text :
      (f : Str) × (build_equality_filter attribute (text value) ≡ ok f) × MaybeItem equality f
  build_equality_filter_text = elim (Bool-cases missing) [
    | inl m ↦ ([], equality_missing m, inl refl)
    | inr m ↦ let (f, e, i) = build_equality_filter_filled m in (f, e, inr i)
  ]

  substring_ok :
      (mode : SubstringMode) (v : Str)
      → (is_valid_value true (substring_value mode (escape_ldap_filter_value v)) ≡ true)
        × All IsBare (substring_value mode (escape_ldap_filter_value v))
  unfolding substring_value
  substring_ok contains v = (
    value_star _ ∙ value-escaped true v (codes "*") ∙ unfold is_valid_value in refl,
    (omega arith, All-append IsBare _ _ (escaped-IsBare v) (omega arith)),
  )
  substring_ok starts_with v = (
    value-escaped true v (codes "*") ∙ unfold is_valid_value in refl,
    All-append IsBare _ _ (escaped-IsBare v) (omega arith),
  )
  substring_ok ends_with v = (value_star _ ∙ escaped_valued true v, (omega arith, escaped-IsBare v))

  pub build_substring_filter_item :
      (mode : SubstringMode) → MaybeItem equality (build_substring_filter attribute value mode)
  unfolding build_substring_filter
  build_substring_filter_item mode = elim (Bool-cases missing) [
    | inl m ↦ rw m (inl refl)
    | inr m ↦
        let (valued, bare) = substring_ok mode (trim value) in
        rw m (
          inr (record {
            attr = attr;
            value = substring_value mode (escape_ldap_filter_value (trim value));
            shape = refl;
            described = filled_described m;
            valued = valued;
            bare = bare;
          }))
  ]
