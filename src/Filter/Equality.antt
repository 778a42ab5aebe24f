-- ===== src/Filter/Equality.antt =====
-- `buildEqualityFilter` and the class `EqualityFilter` of frontend/src/lib/ldapFilter.ts on text.
use dbx_plugin_ldap.Base.{
  ap, ◌∙◌, ◌≡◌, ◌⊎◌, inl, inr, refl, true, false, ◌||◌, [], arith, Str, is_empty, trim, Bool-cases,
}
use dbx_plugin_ldap.Filter.Assertion.{
  ok, throws, required, attribute_and_value_required, safe_builder_attribute, text,
  build_equality_filter, equality_filter,
}
use dbx_plugin_ldap.Filter.Validate.{equality, validate_ldap_filter}
use dbx_plugin_ldap.Filter.Group.{Accepted-filled, validate_ldap_filter-Accepted}
use dbx_plugin_ldap.Filter.Sound.{IsItem-Accepted, equality_missing, build_equality_filter_filled}

-- Equality with a text never throws. Where the attribute is no description or the text is blank, the
-- filter is empty and the constructor of `EqualityFilter` throws; else both give the same filter,
-- which passes the validation.
pub equality_filter_text :
    (attribute value : Str)
    → let built = build_equality_filter attribute (text value) in
      let made = equality_filter attribute (text value) in
      let missing = is_empty (safe_builder_attribute attribute) || is_empty (trim value) in
      ((missing ≡ true) × (built ≡ ok []) × (made ≡ throws attribute_and_value_required))
      ⊎ ((f : Str) × (missing ≡ false)
          × (built ≡ ok f)
          × (made ≡ ok f)
          × (validate_ldap_filter f ≡ true))
unfolding equality_filter
equality_filter_text attribute value =
    elim (Bool-cases (is_empty (safe_builder_attribute attribute) || is_empty (trim value))) [
      | inl m ↦ let e = equality_missing attribute value m in inl (m, e, ap required e)
      | inr m ↦
          let (f, e, i) = build_equality_filter_filled attribute value m in
          let a = IsItem-Accepted equality f (cc) i in
          let filled = Accepted-filled 1 f a in
          inr (
            f,
            m,
            e,
            ap required e ∙ rw filled refl,
            validate_ldap_filter-Accepted 1 f (omega arith) a,
          )
    ]
