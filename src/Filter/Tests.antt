-- ===== src/Filter/Tests.antt =====
-- Runs of the functions of frontend/src/lib/ldapFilter.ts, and the theorems at concrete inputs.
use dbx_plugin_ldap.Base.{
  ◌||◌, is_empty, trim, ℕ, ◌≤◌, ◌≡◌, ◌⊎◌, refl, true, false, List, [], ◌∷◌, arith, All, Str, codes,
  is_space, is_digit, is_alpha, is_hex, hex_value, is_name_char, lower_char,
}
use mathlib.Core.List.{flat_map}
use dbx_plugin_ldap.Filter.Escape.{
  IsInert, escape_ldap_filter_value, escape_char, unescape_ldap_filter_value, KeepsAscii,
  escape_ldap_filter_value-flat_map, escape_ldap_filter_value-All,
  unescape-escape_ldap_filter_value,
}
use dbx_plugin_ldap.Filter.Assertion.{
  ok, throws, object_guid_length, attribute_and_value_required, safe_builder_attribute, contains,
  or, text, bytes, build_equality_filter, build_object_guid_equality_filter,
  build_binary_equality_filter, equality_filter,
}
use dbx_plugin_ldap.Filter.Builder.{
  equals, not_equals, substring, BuilderClause, BuilderNode, clause, group, nil, cons,
  build_node_filter, collect_builder_errors, attribute_required,
}
use dbx_plugin_ldap.Filter.Validate.{max_levels, parse_item, parse_items, validate_ldap_filter}
use dbx_plugin_ldap.Filter.Equality.{equality_filter_text}
use dbx_plugin_ldap.Filter.Tree.{
  node_levels, children_levels, validate_ldap_filter-build_node_filter,
}
use dbx_plugin_ldap.Filter.Rounds.{parse_items-parse_item_fuel}

tests : Unit {0}
unfolding is_space is_hex is_digit is_alpha is_name_char lower_char hex_value flat_map
    escape_ldap_filter_value unescape_ldap_filter_value build_equality_filter
    build_object_guid_equality_filter build_binary_equality_filter equality_filter build_node_filter
    collect_builder_errors validate_ldap_filter
tests = tt

abbrev copy : List ℕ → Str
copy bs = bs

escape_runs : escape_ldap_filter_value (codes "a*(\\)") ≡ codes "a\\2a\\28\\5c\\29"
unfolding tests
escape_runs = refl

unescape_runs : unescape_ldap_filter_value copy (codes "a\\2A\\zz") ≡ codes "a*\\zz"
unfolding tests
unescape_runs = refl

guid_runs :
    build_equality_filter (codes "objectGUID") (text (codes "00112233-4455-6677-8899-aabbccddeeff"))
    ≡ ok (codes "(objectGUID=\\33\\22\\11\\00\\55\\44\\77\\66\\88\\99\\aa\\bb\\cc\\dd\\ee\\ff)")
unfolding tests
guid_runs = refl

binary_runs :
    build_equality_filter (codes "objectGUID") (bytes (1 ∷ 2 ∷ [])) ≡ throws object_guid_length
unfolding tests
binary_runs = refl

abbrev one : BuilderClause
one = record {
  id = codes "n1";
  attribute = codes "cn";
  op = equals;
  value = codes "a(b";
  negate = false;
}

abbrev tree : BuilderNode
tree =
    group (codes "n4") or
      (cons (clause one) (
        cons (clause (record one { op = not_equals; attribute = codes "ou"; negate = true }))
          (cons (clause (record one { op = substring contains; attribute = codes "c n" })) nil)))
      true

tree_runs : build_node_filter tree ≡ codes "(!(|(cn=a\\28b)(!(ou=a\\28b))))"
unfolding tests
tree_runs = refl

errors_run :
    collect_builder_errors (clause (record one { attribute = [] }))
    ≡ record { id = codes "n1"; code = attribute_required } ∷ []
unfolding tests
errors_run = refl

validate_runs :
    (validate_ldap_filter (codes " (&(cn=a*)(member:1.2.3:=x)(!(o>=\\41))) ") ≡ true)
    × (validate_ldap_filter (codes "(&)") ≡ false)
    × (validate_ldap_filter (codes "(o>=a*)") ≡ false)
    × (validate_ldap_filter (codes "(cn=a\\4)") ≡ false)
    × (validate_ldap_filter (codes "(cn=a))") ≡ false)
unfolding tests
validate_runs = (refl, refl, refl, refl, refl)

copy-KeepsAscii : KeepsAscii copy
copy-KeepsAscii bs h = refl

escape_ldap_filter_value-flat_map_example :
    escape_ldap_filter_value (codes "a*\\") ≡ flat_map escape_char (codes "a*\\")
escape_ldap_filter_value-flat_map_example = escape_ldap_filter_value-flat_map (codes "a*\\")

escape_ldap_filter_value-All_example : All IsInert (escape_ldap_filter_value (codes ")(uid=*"))
escape_ldap_filter_value-All_example = escape_ldap_filter_value-All (codes ")(uid=*")

unescape-escape_ldap_filter_value_example :
    unescape_ldap_filter_value copy (escape_ldap_filter_value (codes "*\\()")) ≡ codes "*\\()"
unescape-escape_ldap_filter_value_example =
    unescape-escape_ldap_filter_value copy copy-KeepsAscii (codes "*\\()")

equality_filter_text_example :
    let built = build_equality_filter (codes "cn") (text (codes "a*")) in
    let made = equality_filter (codes "cn") (text (codes "a*")) in
    let missing = is_empty (safe_builder_attribute (codes "cn")) || is_empty (trim (codes "a*")) in
    ((missing ≡ true) × (built ≡ ok []) × (made ≡ throws attribute_and_value_required))
    ⊎ ((f : Str) × (missing ≡ false)
        × (built ≡ ok f)
        × (made ≡ ok f)
        × (validate_ldap_filter f ≡ true))
equality_filter_text_example = equality_filter_text (codes "cn") (codes "a*")

tree_levels : node_levels tree ≤ max_levels
unfolding node_levels children_levels
tree_levels = omega arith

validate_ldap_filter-build_node_filter_example :
    (build_node_filter tree ≡ []) ⊎ (validate_ldap_filter (build_node_filter tree) ≡ true)
validate_ldap_filter-build_node_filter_example =
    validate_ldap_filter-build_node_filter tree tree_levels

parse_items-parse_item_fuel_example :
    parse_items (parse_item 3) 40 (codes "(cn=a)(cn=b))")
    ≡ parse_items (parse_item 3) 13 (codes "(cn=a)(cn=b))")
parse_items-parse_item_fuel_example =
    parse_items-parse_item_fuel 3 40 (codes "(cn=a)(cn=b))") (omega arith)
