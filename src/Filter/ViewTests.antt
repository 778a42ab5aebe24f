-- ===== src/Filter/ViewTests.antt =====
-- Runs of the query builder and the keyword filter of frontend/src/lib/ldapFilter.ts, and their
-- theorems at concrete inputs.
use dbx_plugin_ldap.Base.{
  Option, some, All, str_eq, if◌then◌else◌, ◌≡◌, ◌⊎◌, refl, true, false, none, [], ◌∷◌, length, Str,
  codes, is_space, is_digit, is_alpha, is_name_char, lower_char,
}
use dbx_plugin_ldap.Filter.Validate.{validate_ldap_filter}
use dbx_plugin_ldap.Filter.Escape.{escape_ldap_filter_value}
use dbx_plugin_ldap.Filter.Assertion.{Attempt, ok}
use dbx_plugin_ldap.Filter.Query.{
  op_or_default, LdapQueryClause, LdapQueryGroup, LdapQueryBuilder, build_query_builder_filter,
  validate_query_builder,
}
use dbx_plugin_ldap.Filter.Keyword.{parse_tree_keyword_prefix, build_tree_keyword_filter}
use dbx_plugin_ldap.Filter.Views.{
  validate_ldap_filter-build_query_builder_filter, validate_ldap_filter-build_tree_keyword_filter,
}

tests : Unit {0}
unfolding is_space is_digit is_alpha is_name_char lower_char escape_ldap_filter_value
    build_query_builder_filter validate_query_builder parse_tree_keyword_prefix
    build_tree_keyword_filter
tests = tt

abbrev clause : Str → Str → LdapQueryClause
clause op value = record {
  field = codes "cn";
  custom_field = [];
  use_custom_field = false;
  op = op;
  value = value;
  negate = false;
}

abbrev group : LdapQueryGroup
group = record {
  join_or = true;
  clauses =
      clause (codes "notEq") (codes "a*") ∷ clause [] (codes "b") ∷ clause (codes "gte") [] ∷ [];
}

abbrev builder : LdapQueryBuilder
builder = record { join_or = false; groups = group ∷ [] }

-- `toString` called on nothing, and no other member.
abbrev prototype : Str → Option (Str → Str → Attempt)
prototype name =
    if str_eq name (codes "toString") then some (λ a v. ok (codes "[object Undefined]")) else none

abbrev inherited_group : LdapQueryGroup
inherited_group = record {
  join_or = true;
  clauses = clause (codes "toString") (codes "a") ∷ clause [] (codes "b") ∷ [];
}

-- The second run: the name of an inherited member is no operator, and makes no filter.
query_runs :
    (build_query_builder_filter prototype builder ≡ ok (codes "(|(!(cn=a\\2a))(cn=b))"))
    × (build_query_builder_filter prototype
          (record { join_or = false; groups = inherited_group ∷ [] })
        ≡ ok (codes "(|[object Undefined](cn=b))"))
    × (length (validate_query_builder builder) ≡ 1)
unfolding tests
query_runs = (refl, refl, refl)

builder_own : All (λ g. All (λ c. prototype (op_or_default c.op) ≡ none) g.clauses) builder.groups
unfolding tests
builder_own = ((refl, (refl, (refl, tt))), tt)

keyword_runs :
    (build_tree_keyword_filter (codes " OU = peo*x ") ≡ codes "(ou=peo*x)")
    × (build_tree_keyword_filter (codes "objectClass:person") ≡ codes "(objectClass=person)")
    × (build_tree_keyword_filter [] ≡ codes "(objectClass=*)")
unfolding tests
keyword_runs = (refl, refl, refl)

-- The prefix `displayName` is listed, and not recognized.
display_name_run : parse_tree_keyword_prefix (codes "displayName=a") ≡ none
unfolding tests
display_name_run = refl

validate_ldap_filter-build_query_builder_filter_example :
    (f : Str) × (build_query_builder_filter prototype builder ≡ ok f)
    × ((f ≡ []) ⊎ (validate_ldap_filter f ≡ true))
validate_ldap_filter-build_query_builder_filter_example =
    validate_ldap_filter-build_query_builder_filter prototype builder builder_own

validate_ldap_filter-build_tree_keyword_filter_example :
    (build_tree_keyword_filter (codes "cn=a*)(") ≡ [])
    ⊎ (validate_ldap_filter (build_tree_keyword_filter (codes "cn=a*)(")) ≡ true)
validate_ldap_filter-build_tree_keyword_filter_example =
    validate_ldap_filter-build_tree_keyword_filter (codes "cn=a*)(")
