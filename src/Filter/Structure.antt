-- ===== src/Filter/Structure.antt =====
-- `parseFilterStructure` of frontend/src/lib/ldapFilter.ts: the visual builder's tree of a filter's
-- text. The cursor is the rest of the text. The identifiers that the builder counts up are left out:
-- each is the empty text. `decode_utf8` is the platform's `TextDecoder.decode`.
use dbx_plugin_ldap.Base.{
  ℕ, zero, suc, Bool, true, false, ◌||◌, Option, none, some, List, [], ◌∷◌, length, drop, Str,
  codes, str_eq, is_empty, trim, ◌==◌, if◌then◌else◌,
}
use dbx_plugin_ldap.Filter.Assertion.{
  contains, starts_with, ends_with, ComparisonMode, gte, lte, approx, Joiner, and, or,
  is_valid_ldap_attribute_description,
}
use dbx_plugin_ldap.Filter.Escape.{backslash, unescape_ldap_filter_value}
use dbx_plugin_ldap.Filter.Builder.{
  BuilderOp, equals, not_equals, present, substring, comparison, BuilderClause, BuilderNode, clause,
  group, BuilderNodes, nil, cons,
}

abbrev pub put_segment : ℕ → List Str → List Str
put_segment c [] = (c ∷ []) ∷ []
put_segment c (segment ∷ segments) = (c ∷ segment) ∷ segments

-- The loop of `splitFilterValueWildcards`; `escaped` says that a backslash stands before.
unfoldable pub split_wildcards : Bool → Str → List Str
split_wildcards escaped [] = [] ∷ []
split_wildcards true (c ∷ s) = put_segment c (split_wildcards false s)
split_wildcards false (c ∷ s) =
    let kept = put_segment c (split_wildcards true s) in
    let cut = [] ∷ split_wildcards false s in
    let plain = put_segment c (split_wildcards false s) in
    if c == backslash then kept else if c == b'*' then cut else plain

pub data Sign : Type 0 where
  equal : Sign
  compares : ComparisonMode → Sign

abbrev pub Cut : Type 0
Cut = Str × Sign × Str

abbrev pub put_attribute : ℕ → Option Cut → Option Cut
put_attribute c none = none
put_attribute c (some (attribute, sign, value)) = some (c ∷ attribute, sign, value)

abbrev pub comparison_of : ℕ → Option ComparisonMode
comparison_of c =
    if c == b'>'
    then some gte
    else if c == b'<'
    then some lte
    else if c == b'~'
    then some approx
    else none

abbrev pub cut_comparison : Option ComparisonMode → Str → Option Cut → Option Cut
cut_comparison none value later = later
cut_comparison (some mode) value later = some ([], compares mode, value)

-- `CLAUSE_ITEM_RE` after its first character: the first place where an operator stands.
unfoldable pub cut_operator : Str → Option Cut
cut_operator [] = none
cut_operator (c ∷ []) = if c == b'=' then some ([], equal, []) else none
cut_operator (c ∷ d ∷ s) =
    let later = put_attribute c (cut_operator (d ∷ s)) in
    if c == b'='
    then some ([], equal, d ∷ s)
    else if d == b'='
    then cut_comparison (comparison_of c) s later
    else later

unfoldable pub match_clause_item : Str → Option Cut
unfolding cut_operator
match_clause_item [] = none
match_clause_item (c ∷ s) = if c == b'=' then none else put_attribute c (cut_operator s)

abbrev pub any_empty : List Str → Bool
any_empty [] = false
any_empty (segment ∷ segments) = is_empty segment || any_empty segments

abbrev pub last_of : Str → List Str → Str
last_of segment [] = segment
last_of segment (next ∷ segments) = last_of next segments

abbrev pub without_last : List Str → List Str
without_last [] = []
without_last (segment ∷ []) = []
without_last (segment ∷ next ∷ segments) = segment ∷ without_last (next ∷ segments)

abbrev pub segment_op : Bool → Bool → BuilderOp
segment_op true true = substring contains
segment_op true false = substring ends_with
segment_op false true = substring starts_with
segment_op false false = equals

abbrev pub new_clause : Str → BuilderOp → Str → BuilderClause
new_clause attribute op value = record {
  id = [];
  attribute = attribute;
  op = op;
  value = value;
  negate = false;
}

module _ (decode_utf8 : List ℕ → Str) where
  -- `core`, where it has one segment.
  abbrev pub core_clause : Str → Bool → Bool → List Str → Option BuilderClause
  core_clause attribute leading trailing [] = none
  core_clause attribute leading trailing (core ∷ []) = some (
      new_clause attribute (segment_op leading trailing)
        (unescape_ldap_filter_value decode_utf8 core))
  core_clause attribute leading trailing (core ∷ next ∷ segments) = none

  -- `segments.slice(leading ? 1 : 0, trailing ? segments.length - 1 : segments.length)`.
  abbrev pub core_of : Bool → Bool → List Str → List Str
  core_of leading trailing segments =
      let end = if trailing then without_last segments else segments in
      if leading then drop 1 end else end

  abbrev pub segments_clause : Str → List Str → Option BuilderClause
  segments_clause attribute [] = none
  segments_clause attribute (segment ∷ segments) =
      if any_empty (without_last segments)
      then none
      else core_clause attribute (is_empty segment) (is_empty (last_of segment segments))
          (core_of (is_empty segment) (is_empty (last_of segment segments)) (segment ∷ segments))

  abbrev pub cut_clause : Str → Sign → Str → Option BuilderClause
  cut_clause attribute equal value =
      if str_eq value (codes "*")
      then some (new_clause attribute present [])
      else segments_clause attribute (split_wildcards false value)
  cut_clause attribute (compares mode) value =
      if is_empty value
      then none
      else some
          (new_clause attribute (comparison mode) (unescape_ldap_filter_value decode_utf8 value))

  abbrev pub described_clause : Option Cut → Option BuilderClause
  described_clause none = none
  described_clause (some (attribute, sign, value)) =
      if is_valid_ldap_attribute_description (trim attribute)
      then cut_clause (trim attribute) sign value
      else none

  unfoldable pub parse_clause_item : Str → Option BuilderClause
  unfolding match_clause_item split_wildcards is_valid_ldap_attribute_description
      unescape_ldap_filter_value
  parse_clause_item body = described_clause (match_clause_item body)

-- `skipFilterWhitespace`.
unfoldable pub skip_filter_whitespace : Str → Str
skip_filter_whitespace [] = []
skip_filter_whitespace (c ∷ s) =
    let rest = skip_filter_whitespace s in
    if c == 0x20 || c == 0x09 || c == 0x0d || c == 0x0a then rest else c ∷ s

abbrev pub put_body : ℕ → Option (Str × Str) → Option (Str × Str)
put_body c none = none
put_body c (some (body, rest)) = some (c ∷ body, rest)

-- The text cut at its first closing parenthesis.
unfoldable pub cut_close : Str → Option (Str × Str)
cut_close [] = none
cut_close (c ∷ s) =
    let later = put_body c (cut_close s) in if c == b')' then some ([], s) else later

abbrev pub Parsed : Type 0
Parsed = Option (BuilderNode × Str)

abbrev pub negate_clause : BuilderOp → Bool → BuilderClause → BuilderNode
negate_clause op true c = group [] and (cons (clause c) nil) true
negate_clause equals false c = clause (record c { op = not_equals })
negate_clause not_equals false c = clause (record c { op = equals })
negate_clause op false c = clause (record c { negate = true })

-- What `!` makes of its operand.
unfoldable pub negate_node : BuilderNode → BuilderNode
negate_node (clause c) = negate_clause c.op c.negate c
negate_node (group id joiner children true) =
    group [] and (cons (group id joiner children true) nil) true
negate_node (group id joiner children false) = group id joiner children true

abbrev pub close_negation : BuilderNode → Str → Parsed
close_negation child [] = none
close_negation child (c ∷ s) = if c == b')' then some (negate_node child, s) else none

abbrev pub negation_of : Parsed → Parsed
negation_of none = none
negation_of (some (child, rest)) = close_negation child (skip_filter_whitespace rest)

abbrev pub close_group : Joiner → BuilderNodes → Str → Parsed
close_group joiner children [] = none
close_group joiner nil (c ∷ s) = none
close_group joiner (cons child children) (c ∷ s) =
    if c == b')' then some (group [] joiner (cons child children) false, s) else none

abbrev pub group_of : Joiner → Option (BuilderNodes × Str) → Parsed
group_of joiner none = none
group_of joiner (some (children, rest)) = close_group joiner children rest

abbrev pub put_child : BuilderNode → Option (BuilderNodes × Str) → Option (BuilderNodes × Str)
put_child child none = none
put_child child (some (children, rest)) = some (cons child children, rest)

abbrev pub has_open : Str → Bool
has_open [] = false
has_open (c ∷ s) = c == b'(' || has_open s

abbrev pub starts_open : Str → Bool
starts_open [] = false
starts_open (c ∷ s) = c == b'('

-- The loop over a group's items: a round takes an item, of a character at least.
unfoldable pub parse_children : (Str → Parsed) → ℕ → Str → Option (BuilderNodes × Str)
unfolding skip_filter_whitespace
parse_children item zero text = none
parse_children item (suc rounds) text =
    if starts_open text
    then elim (item text) [
      | none ↦ none
      | some (child, rest) ↦
          put_child child (parse_children item rounds (skip_filter_whitespace rest))
    ]
    else some (nil, text)

module _ (decode_utf8 : List ℕ → Str) where
  abbrev pub clause_of : Option (Str × Str) → Parsed
  clause_of none = none
  clause_of (some (body, rest)) =
      if has_open body then none else elim (parse_clause_item decode_utf8 body) [
        | none ↦ none
        | some c ↦ some (clause c, rest)
      ]

  abbrev pub parse_operand : (Str → Parsed) → Str → Parsed
  parse_operand item [] = none
  parse_operand item (c ∷ s) =
      if c == b'&'
      then group_of and (parse_children item (suc (length s)) (skip_filter_whitespace s))
      else if c == b'|'
      then group_of or (parse_children item (suc (length s)) (skip_filter_whitespace s))
      else if c == b'!'
      then negation_of (item (skip_filter_whitespace s))
      else clause_of (cut_close (c ∷ s))

  abbrev pub parse_open : (Str → Parsed) → Str → Parsed
  parse_open item [] = none
  parse_open item (c ∷ s) =
      if c == b'(' then parse_operand item (skip_filter_whitespace s) else none

  -- `levels` is 101 less the depth.
  unfoldable pub parse_filter_item : ℕ → Str → Parsed
  unfolding parse_clause_item skip_filter_whitespace cut_close negate_node parse_children
  parse_filter_item zero text = none
  parse_filter_item (suc levels) text = parse_open (parse_filter_item levels) text

  abbrev pub whole : Parsed → Option BuilderNode
  whole none = none
  whole (some (node, rest)) = if is_empty (skip_filter_whitespace rest) then some node else none

  unfoldable pub parse_filter_structure : Str → Option BuilderNode
  unfolding parse_filter_item
  parse_filter_structure filter =
      if is_empty (trim filter) then none else whole (parse_filter_item 101 (trim filter))

unfoldable pub to_builder_root : Option BuilderNode → Option BuilderNode
to_builder_root none = none
to_builder_root (some (clause c)) = some (group [] and (cons (clause c) nil) false)
to_builder_root (some (group id joiner children negate)) = some (group id joiner children negate)
