-- ===== src/Filter/Query.antt =====
-- The clause and group query builder of frontend/src/lib/ldapFilter.ts. A missing text is empty.
-- `prototype` gives the members of `Object.prototype` by name: what a call of one returns, as text
-- (empty where it is falsy), or throws. Indices of groups and clauses are natural.
use dbx_plugin_ldap.Base.{
  ℕ, ◌+◌, Bool, not, ◌&&◌, ◌||◌, Option, none, some, List, [], ◌∷◌, ◌++◌, Str, codes, str_eq,
  is_empty, trim, if◌then◌else◌,
}
use dbx_plugin_ldap.Filter.Escape.{escape_ldap_filter_value}
use dbx_plugin_ldap.Filter.Assertion.{
  FilterError, Attempt, ok, throws, safe_builder_attribute, contains, starts_with, ends_with, gte,
  lte, approx, Joiner, and, or, text, is_valid_ldap_attribute_description, build_presence_filter,
  build_equality_filter, build_substring_filter, build_comparison_filter, build_negated_filter,
  combine_filters,
}
use dbx_plugin_ldap.Filter.Builder.{
  BuilderOp, equals, not_equals, present, substring, comparison, is_not_equals,
}

pub record LdapQueryClause : Type 0 where
  pub field : Str
  pub custom_field : Str
  pub use_custom_field : Bool
  pub op : Str
  pub value : Str
  pub negate : Bool

pub record LdapQueryGroup : Type 0 where
  pub join_or : Bool
  pub clauses : List LdapQueryClause

pub record LdapQueryBuilder : Type 0 where
  pub join_or : Bool
  pub groups : List LdapQueryGroup

unfoldable pub resolve_ldap_query_clause_attribute : LdapQueryClause → Str
resolve_ldap_query_clause_attribute c =
    trim (
      if c.use_custom_field || str_eq c.field (codes "__custom__") then c.custom_field else c.field)

abbrev pub op_or_default : Str → Str
op_or_default op = if is_empty (trim op) then codes "eq" else trim op

unfoldable pub own_op : Str → Option BuilderOp
own_op op =
    if str_eq op (codes "present")
    then some present
    else if str_eq op (codes "eq")
    then some equals
    else if str_eq op (codes "notEq")
    then some not_equals
    else if str_eq op (codes "contains")
    then some (substring contains)
    else if str_eq op (codes "startsWith")
    then some (substring starts_with)
    else if str_eq op (codes "endsWith")
    then some (substring ends_with)
    else if str_eq op (codes "gte")
    then some (comparison gte)
    else if str_eq op (codes "lte")
    then some (comparison lte)
    else if str_eq op (codes "approx")
    then some (comparison approx)
    else none

-- What a name stands for: an operator of the builder, a member that every object has, or nothing.
pub data QueryOp : Type 0 where
  known : BuilderOp → QueryOp
  inherited : (Str → Str → Attempt) → QueryOp
  unknown : QueryOp

abbrev pub chosen : Option BuilderOp → Option (Str → Str → Attempt) → QueryOp
chosen (some op) method = known op
chosen none (some method) = inherited method
chosen none none = unknown

-- `buildSubstringFilter` with an inherited member for its handler.
unfoldable pub build_inherited : (Str → Str → Attempt) → Str → Str → Attempt
unfolding safe_builder_attribute escape_ldap_filter_value
build_inherited method attribute value =
    let attr = safe_builder_attribute attribute in
    let raw = trim value in
    if is_empty attr || is_empty raw then ok [] else method attr (escape_ldap_filter_value raw)

unfoldable pub query_expression : QueryOp → Str → Str → Attempt
unfolding build_presence_filter build_equality_filter build_substring_filter build_comparison_filter
    build_inherited
query_expression unknown attribute value = ok []
query_expression (inherited method) attribute value = build_inherited method attribute value
query_expression (known present) attribute value = ok (build_presence_filter attribute)
query_expression (known equals) attribute value = build_equality_filter attribute (text value)
query_expression (known not_equals) attribute value = build_equality_filter attribute (text value)
query_expression (known (substring mode)) attribute value =
    ok (build_substring_filter attribute value mode)
query_expression (known (comparison mode)) attribute value =
    ok (build_comparison_filter attribute value mode)

abbrev pub negates : Bool → QueryOp → Bool
negates negate (known op) = negate || is_not_equals op
negates negate _ = negate

-- The last lines of `buildClauseFilter`, from the expression on.
unfoldable pub negated_if : Bool → Attempt → Attempt
unfolding build_negated_filter
negated_if negate (throws e) = throws e
negated_if negate (ok expression) = ok (
    if is_empty expression
    then []
    else if negate
    then build_negated_filter expression
    else expression)

abbrev pub joiner_of : Bool → Joiner
joiner_of b = if b then or else and

-- The filters of a list without the empty ones, or the first error.
pub data Filters : Type 0 where
  filters : List Str → Filters
  fails : FilterError → Filters

abbrev pub kept : Attempt → Filters → Filters
kept (throws e) rest = fails e
kept (ok f) (fails e) = fails e
kept (ok f) (filters fs) = filters (if is_empty f then fs else f ∷ fs)

unfoldable pub combined : Joiner → Filters → Attempt
unfolding combine_filters
combined joiner (fails e) = throws e
combined joiner (filters fs) = ok (combine_filters fs joiner)

module _ (prototype : Str → Option (Str → Str → Attempt)) where
  unfoldable pub query_op : Str → QueryOp
  unfolding own_op
  query_op op = chosen (own_op op) (prototype op)

  unfoldable pub build_clause_filter : LdapQueryClause → Attempt
  unfolding resolve_ldap_query_clause_attribute query_op query_expression negated_if
  build_clause_filter c =
      let attribute = resolve_ldap_query_clause_attribute c in
      let op = query_op (op_or_default c.op) in
      if is_empty attribute
      then ok []
      else negated_if (negates c.negate op) (query_expression op attribute (trim c.value))

  unfoldable pub clause_filters : List LdapQueryClause → Filters
  unfolding build_clause_filter
  clause_filters [] = filters []
  clause_filters (c ∷ cs) = kept (build_clause_filter c) (clause_filters cs)

  unfoldable pub build_group_filter : LdapQueryGroup → Attempt
  unfolding clause_filters combined
  build_group_filter g = combined (joiner_of g.join_or) (clause_filters g.clauses)

  unfoldable pub group_filters : List LdapQueryGroup → Filters
  unfolding build_group_filter
  group_filters [] = filters []
  group_filters (g ∷ gs) = kept (build_group_filter g) (group_filters gs)

  unfoldable pub build_query_builder_filter : LdapQueryBuilder → Attempt
  unfolding group_filters combined
  build_query_builder_filter b = combined (joiner_of b.join_or) (group_filters b.groups)

pub data QueryErrorCode : Type 0 where
  attribute_required attribute_invalid value_required : QueryErrorCode

-- The `field` of an error is `value` for `value_required` and `field` for the others.
pub record QueryClauseError : Type 0 where
  pub code : QueryErrorCode
  pub group_index : ℕ
  pub clause_index : ℕ
  pub attribute : Str
  pub op : Option Str

unfoldable pub validate_query_clause : LdapQueryClause → ℕ → ℕ → Option QueryClauseError
unfolding resolve_ldap_query_clause_attribute is_valid_ldap_attribute_description
validate_query_clause c i j =
    let attribute = resolve_ldap_query_clause_attribute c in
    let error : QueryClauseError = record {
      code = attribute_required;
      group_index = i;
      clause_index = j;
      attribute = attribute;
      op = none;
    } in
    if is_empty attribute
    then some error
    else if not (is_valid_ldap_attribute_description attribute)
    then some (record error { code = attribute_invalid })
    else if not (str_eq (op_or_default c.op) (codes "present")) && is_empty (trim c.value)
    then some (record error { code = value_required; op = some (op_or_default c.op) })
    else none

abbrev pub pushed : Option QueryClauseError → List QueryClauseError → List QueryClauseError
pushed none errors = errors
pushed (some e) errors = e ∷ errors

unfoldable pub clause_errors : ℕ → ℕ → List LdapQueryClause → List QueryClauseError
unfolding validate_query_clause
clause_errors i j [] = []
clause_errors i j (c ∷ cs) = pushed (validate_query_clause c i j) (clause_errors i (j + 1) cs)

unfoldable pub group_errors : ℕ → List LdapQueryGroup → List QueryClauseError
unfolding clause_errors
group_errors i [] = []
group_errors i (g ∷ gs) = clause_errors i 0 g.clauses ++ group_errors (i + 1) gs

unfoldable pub validate_query_builder : LdapQueryBuilder → List QueryClauseError
unfolding group_errors
validate_query_builder b = group_errors 0 b.groups
