-- ===== src/Filter/Tree.antt =====
-- Every filter that the visual builder of frontend/src/lib/ldapFilter.ts makes passes
-- `validateLDAPFilter`.
use dbx_plugin_ldap.Base.{
  ℕ, suc, ◌+◌, ◌*◌, ◌≤◌, ◌≡◌, ◌≢◌, ◌⊎◌, inl, inr, refl, sym, ap, ◌∙◌, Bool, true, false, not, ◌&&◌,
  List, [], ◌∷◌, ◌++◌, arith, All, All-imp, Str, codes, is_empty, trim, is_digit, is_alpha,
  is_name_char, ◌==◌, if◌then◌else◌, Bool-cases,
}
use mathlib.Core.Bool.{false≢true}
use native.Mathlib.Nat.{le-max_left, le-max_right}
use Prim.Native.Nat.{max}
use dbx_plugin_ldap.Base
use dbx_plugin_ldap.Description.{matches_description, matches_description-cons}
use dbx_plugin_ldap.Filter.Escape.{escape_ldap_filter_value}
use dbx_plugin_ldap.Filter.Assertion.{
  ComparisonMode, gte, lte, approx, item, safe_builder_attribute, comparison_operator, text,
  build_presence_filter, build_equality_filter, build_comparison_filter, build_negated_filter,
}
use dbx_plugin_ldap.Filter.Validate
use dbx_plugin_ldap.Filter.Validate.{
  Operator, equality, is_valid_value, max_levels, validate_ldap_filter,
}
use dbx_plugin_ldap.Filter.Accept.{Accepted, Accepted-negation, operator_text}
use dbx_plugin_ldap.Filter.Group.{
  Good, Good-mono, Accepted-trim, Accepted-filled, combine_filters-Good,
  validate_ldap_filter-Accepted,
}
use dbx_plugin_ldap.Filter.Builder.{
  BuilderOp, equals, not_equals, present, substring, comparison, BuilderClause, BuilderNode, clause,
  group, BuilderNodes, nil, cons, rendered, build_op_filter, build_builder_clause_filter,
  wrap_structural_negation, is_not_equals, build_clause_node, wrap_group, build_node_filter,
  build_children,
}
use dbx_plugin_ldap.Filter.Sound.{
  safe_cases, IsItem, IsItem-Accepted, MaybeItem, attr, missing, filled_described, escaped_item,
  build_equality_filter_text, build_substring_filter_item,
}

pub MaybeItem-Good : (o : Operator) (f : Str) → o ≢ Validate.extensible → MaybeItem o f → Good 1 f
MaybeItem-Good o f n (inl e) = inl e
MaybeItem-Good o f n (inr i) = inr (IsItem-Accepted o f n i)

abbrev pub operator_of : ComparisonMode → Operator
operator_of gte = Validate.gte
operator_of lte = Validate.lte
operator_of approx = Validate.approx

pub build_comparison_filter_item :
    (attribute value : Str) (mode : ComparisonMode)
    → MaybeItem (operator_of mode) (build_comparison_filter attribute value mode)
unfolding build_comparison_filter operator_of
build_comparison_filter_item attribute value mode = elim (Bool-cases (missing attribute value)) [
  | inl m ↦ rw m (inl refl)
  | inr m ↦ rw m (inr (by_mode mode (filled_described attribute value m)))
]
  where
    by_mode :
        (mode : ComparisonMode)
        → matches_description (attr attribute value) ≡ true
        → IsItem (operator_of mode) (
            item
              (attr attribute value)
              (comparison_operator mode)
              (escape_ldap_filter_value (trim value)))
    by_mode gte d = escaped_item attribute value Validate.gte d
    by_mode lte d = escaped_item attribute value Validate.lte d
    by_mode approx d = escaped_item attribute value Validate.approx d

pub operator_of-ne : (mode : ComparisonMode) → operator_of mode ≢ Validate.extensible
unfolding operator_of
operator_of-ne gte = cc
operator_of-ne lte = cc
operator_of-ne approx = cc

pub presence_item :
    (a : Str) → matches_description a ≡ true → IsItem equality (item a (codes "=") (codes "*"))
unfolding is_valid_value
presence_item a d = record {
  attr = a;
  value = codes "*";
  shape = refl;
  described = d;
  valued = refl;
  bare = omega arith;
}

pub described_of_filled :
    (a : Str)
    → (a ≡ []) ⊎ (matches_description a ≡ true)
    → is_empty a ≡ false
    → matches_description a ≡ true
described_of_filled a (inl e) m = absurd (false≢true (sym m ∙ ap is_empty e))
described_of_filled a (inr d) m = d

pub build_presence_filter_item :
    (attribute : Str) → MaybeItem equality (build_presence_filter attribute)
unfolding build_presence_filter
build_presence_filter_item attribute =
    let a = safe_builder_attribute attribute in
    elim (Bool-cases (is_empty a)) [
      | inl m ↦ rw m (inl refl)
      | inr m ↦ rw m (inr (presence_item a (described_of_filled a (safe_cases attribute) m)))
    ]

pub not_negated_char :
    (c : ℕ) (t : Str) (b : Bool)
    → is_name_char c ≡ true
    → (Base.starts_with (b'(' ∷ c ∷ t) (codes "(!") && b) ≡ false
unfolding is_name_char is_alpha is_digit
not_negated_char c t b h = let plain : c == b'!' ≡ false = ground arith in rw plain refl

-- An item does not begin like a negation.
IsItem-not_negated :
    (o : Operator) (f : Str)
    → IsItem o f
    → (Base.starts_with f (codes "(!") && Base.ends_with f (codes ")")) ≡ false
IsItem-not_negated o f i =
    let (c, t, e, name) = matches_description-cons i.attr i.described in
    ap (λ u. Base.starts_with u (codes "(!") && Base.ends_with f (codes ")"))
      (i.shape ∙ ap (λ a. item a (operator_text o) i.value) e)
    ∙ not_negated_char c (t ++ (operator_text o ++ (i.value ++ b')' ∷ [])))
        (Base.ends_with f (codes ")")) name

pub negated_item :
    (o : Operator) (f : Str)
    → o ≢ Validate.extensible
    → IsItem o f
    → build_negated_filter f ≡ codes "(!" ++ (f ++ codes ")")
unfolding build_negated_filter
negated_item o f n i =
    let a = IsItem-Accepted o f n i in
    rw (Accepted-trim 1 f a, Accepted-filled 1 f a, IsItem-not_negated o f i)

not_equals_Good :
    (f : Str) → MaybeItem equality f → Good 2 (if is_empty f then [] else build_negated_filter f)
not_equals_Good f (inl e) = inl (ap (λ t. if is_empty t then [] else build_negated_filter f) e)
not_equals_Good f (inr i) =
    let a = IsItem-Accepted equality f (cc) i in
    rw (Accepted-filled 1 f a, negated_item equality f (cc) i) (inr (Accepted-negation 1 f a))

-- The levels that a clause's operator needs.
abbrev op_levels : BuilderOp → ℕ
op_levels op = if is_not_equals op then 2 else 1

pub equality_Good :
    (attribute value : Str)
    → MaybeItem equality (rendered (build_equality_filter attribute (text value)))
equality_Good attribute value = let (f, e, i) = build_equality_filter_text attribute value in rw e i

build_op_filter-Good :
    (op : BuilderOp) (attribute value : Str)
    → Good (op_levels op) (build_op_filter op attribute value)
build_op_filter-Good present attribute value =
    unfold build_op_filter in MaybeItem-Good equality _ (cc) (build_presence_filter_item attribute)
build_op_filter-Good equals attribute value =
    unfold build_op_filter in MaybeItem-Good equality _ (cc) (equality_Good attribute value)
build_op_filter-Good not_equals attribute value =
    unfold build_op_filter in not_equals_Good _ (equality_Good attribute value)
build_op_filter-Good (substring mode) attribute value =
    unfold build_op_filter in
    MaybeItem-Good equality _ (cc) (build_substring_filter_item attribute value mode)
build_op_filter-Good (comparison mode) attribute value =
    unfold build_op_filter in
    MaybeItem-Good (operator_of mode) _ (operator_of-ne mode)
      (build_comparison_filter_item attribute value mode)

-- The levels of nesting that a node's filter has at most: one for an item or a group, one for each
-- negation around it.
abbrev pub clause_levels : BuilderClause → ℕ
clause_levels c = if c.negate then 2 else op_levels c.op

unfoldable mutual
  pub node_levels : BuilderNode → ℕ
  node_levels (clause c) = clause_levels c
  node_levels (group id joiner children negate) =
      (if negate then 2 else 1) + children_levels children

  pub children_levels : BuilderNodes → ℕ
  children_levels nil = 0
  children_levels (cons node nodes) = max (node_levels node) (children_levels nodes)

wrap_Good : (n : ℕ) (f : Str) → Accepted n f → Accepted (suc n) (wrap_structural_negation f)
unfolding wrap_structural_negation
wrap_Good n f a = Accepted-negation n f a

negated_clause :
    (n : ℕ) (f : Str) (negate : Bool)
    → Good n f
    → Good
        (if negate then suc n else n)
        (if is_empty f then [] else if negate then wrap_structural_negation f else f)
negated_clause n f negate (inl e) =
    inl (ap (λ t. if is_empty t then [] else if negate then wrap_structural_negation f else f) e)
negated_clause n f true (inr a) = rw (Accepted-filled n f a) (inr (wrap_Good n f a))
negated_clause n f false (inr a) = rw (Accepted-filled n f a) (inr a)

clause_bound :
    (op : BuilderOp) (negate : Bool)
    → (if negate && not (is_not_equals op) then suc (op_levels op) else op_levels op)
      ≤ (if negate then 2 else op_levels op)
clause_bound equals true = omega arith
clause_bound equals false = omega arith
clause_bound not_equals true = omega arith
clause_bound not_equals false = omega arith
clause_bound op true = omega arith
clause_bound op false = omega arith

build_clause_node-Good : (c : BuilderClause) → Good (clause_levels c) (build_clause_node c)
build_clause_node-Good c = Good-mono _ _ (build_clause_node c) (clause_bound c.op c.negate) (
    unfold build_clause_node build_builder_clause_filter in
    negated_clause (op_levels c.op) (build_op_filter c.op (trim c.attribute) (trim c.value))
      (c.negate && not (is_not_equals c.op))
      (build_op_filter-Good c.op (trim c.attribute) (trim c.value)))

wrap_group-Good :
    (n : ℕ) (negate : Bool) (f : Str)
    → Good (suc n) f
    → Good ((if negate then 2 else 1) + n) (wrap_group negate f)
unfolding wrap_group
wrap_group-Good n true f g = Good-mono _ _ _ (omega arith) (negated_clause (suc n) f true g)
wrap_group-Good n false f g = Good-mono _ _ _ (omega arith) (negated_clause (suc n) f false g)

Goods_mono : (n m : ℕ) (fs : List Str) → n ≤ m → All (Good n) fs → All (Good m) fs
Goods_mono n m fs h gs = All-imp (Good n) (Good m) (λ f. Good-mono n m f h) fs gs

mutual
  unfolding build_node_filter build_children node_levels children_levels

  node_Good : (node : BuilderNode) → Good (node_levels node) (build_node_filter node)
  node_Good (clause c) = build_clause_node-Good c
  node_Good (group id joiner children negate) =
      wrap_group-Good (children_levels children) negate _ (
        combine_filters-Good (children_levels children) joiner (build_children children)
          (children_Good children))

  children_Good : (nodes : BuilderNodes) → All (Good (children_levels nodes)) (build_children nodes)
  children_Good nil = tt
  children_Good (cons node nodes) = (
    Good-mono _ _ _ (le-max_left (node_levels node) (children_levels nodes)) (node_Good node),
    Goods_mono _ _ _ (le-max_right (node_levels node) (children_levels nodes))
        (children_Good nodes),
  )

pub Good-valid :
    (n : ℕ) (f : Str) → n ≤ max_levels → Good n f → (f ≡ []) ⊎ (validate_ldap_filter f ≡ true)
Good-valid n f h (inl e) = inl e
Good-valid n f h (inr a) = inr (validate_ldap_filter-Accepted n f h a)

-- The filter of a builder tree is empty or passes the validation, whatever the clauses hold, as long
-- as its groups and negations nest within the validator's depth limit of 101 levels.
pub validate_ldap_filter-build_node_filter :
    (node : BuilderNode)
    → node_levels node ≤ max_levels
    → (build_node_filter node ≡ []) ⊎ (validate_ldap_filter (build_node_filter node) ≡ true)
validate_ldap_filter-build_node_filter node h =
    Good-valid (node_levels node) (build_node_filter node) h (node_Good node)
