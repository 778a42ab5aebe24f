-- ===== src/Filter/Builder.antt =====
-- The visual builder's tree of frontend/src/lib/ldapFilter.ts: clauses and nested groups.
-- A node's id is a string that nothing here looks into.
use dbx_plugin_ldap.Base.{
  Bool, true, false, not, ◌&&◌, List, [], ◌∷◌, ◌++◌, Str, codes, is_empty, trim, if◌then◌else◌,
}
use dbx_plugin_ldap.Filter.Assertion.{
  Attempt, ok, throws, SubstringMode, ComparisonMode, Joiner, text,
  is_valid_ldap_attribute_description, build_presence_filter, build_equality_filter,
  build_substring_filter, build_comparison_filter, build_negated_filter, combine_filters,
}

pub data BuilderOp : Type 0 where
  equals not_equals present : BuilderOp
  substring : SubstringMode → BuilderOp
  comparison : ComparisonMode → BuilderOp

pub record BuilderClause : Type 0 where
  pub id : Str
  pub attribute : Str
  pub op : BuilderOp
  pub value : Str
  pub negate : Bool

mutual
  pub data BuilderNode : Type 0 where
    clause : BuilderClause → BuilderNode
    group : (id : Str) (joiner : Joiner) (children : BuilderNodes) (negate : Bool) → BuilderNode

  pub data BuilderNodes : Type 0 where
    nil : BuilderNodes
    cons : BuilderNode → BuilderNodes → BuilderNodes

-- The text of an equality filter; on text values `build_equality_filter` never throws.
abbrev pub rendered : Attempt → Str
rendered (ok filter) = filter
rendered (throws e) = []

unfoldable pub build_op_filter : BuilderOp → Str → Str → Str
unfolding build_presence_filter build_equality_filter build_substring_filter build_comparison_filter
    build_negated_filter
build_op_filter present attribute value = build_presence_filter attribute
build_op_filter equals attribute value = rendered (build_equality_filter attribute (text value))
build_op_filter not_equals attribute value =
    let equality = rendered (build_equality_filter attribute (text value)) in
    if is_empty equality then [] else build_negated_filter equality
build_op_filter (substring mode) attribute value = build_substring_filter attribute value mode
build_op_filter (comparison mode) attribute value = build_comparison_filter attribute value mode

unfoldable pub build_builder_clause_filter : BuilderClause → Str
unfolding build_op_filter
build_builder_clause_filter c = build_op_filter c.op (trim c.attribute) (trim c.value)

unfoldable pub wrap_structural_negation : Str → Str
wrap_structural_negation expression = codes "(!" ++ (expression ++ codes ")")

abbrev pub is_not_equals : BuilderOp → Bool
is_not_equals not_equals = true
is_not_equals _ = false

unfoldable pub build_clause_node : BuilderClause → Str
unfolding build_builder_clause_filter wrap_structural_negation
build_clause_node c =
    let expression = build_builder_clause_filter c in
    if is_empty expression
    then []
    else if c.negate && not (is_not_equals c.op)
    then wrap_structural_negation expression
    else expression

unfoldable pub wrap_group : Bool → Str → Str
unfolding wrap_structural_negation
wrap_group negate inner =
    if is_empty inner then [] else if negate then wrap_structural_negation inner else inner

unfoldable mutual
  unfolding build_clause_node combine_filters wrap_group

  pub build_node_filter : BuilderNode → Str
  build_node_filter (clause c) = build_clause_node c
  build_node_filter (group id joiner children negate) =
      wrap_group negate (combine_filters (build_children children) joiner)

  pub build_children : BuilderNodes → List Str
  build_children nil = []
  build_children (cons node nodes) = build_node_filter node ∷ build_children nodes

pub data ErrorCode : Type 0 where
  attribute_required attribute_invalid value_required : ErrorCode

pub record BuilderNodeError : Type 0 where
  pub id : Str
  pub code : ErrorCode

abbrev is_present : BuilderOp → Bool
is_present present = true
is_present _ = false

unfoldable pub collect_clause_errors : BuilderClause → List BuilderNodeError
unfolding is_valid_ldap_attribute_description
collect_clause_errors c =
    let attribute = trim c.attribute in
    let value = trim c.value in
    if is_empty attribute && is_empty value
    then []
    else if is_empty attribute
    then record { id = c.id; code = attribute_required } ∷ []
    else if not (is_valid_ldap_attribute_description attribute)
    then record { id = c.id; code = attribute_invalid } ∷ []
    else if not (is_present c.op) && is_empty value
    then record { id = c.id; code = value_required } ∷ []
    else []

unfoldable mutual
  unfolding collect_clause_errors

  pub collect_builder_errors : BuilderNode → List BuilderNodeError
  collect_builder_errors (clause c) = collect_clause_errors c
  collect_builder_errors (group id joiner children negate) = collect_children_errors children

  pub collect_children_errors : BuilderNodes → List BuilderNodeError
  collect_children_errors nil = []
  collect_children_errors (cons node nodes) =
      collect_builder_errors node ++ collect_children_errors nodes
