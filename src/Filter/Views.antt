-- ===== src/Filter/Views.antt =====
-- The filters of the query builder and of the tree's keyword field of frontend/src/lib/ldapFilter.ts
-- pass `validateLdapFilter`.
use dbx_plugin_ldap.Base.{
  ℕ, suc, ap, ◌*◌, ◌≡◌, ◌≢◌, ◌⊎◌, inl, inr, refl, ap, ◌∙◌, Bool, true, false, not, Option, none,
  some, List, [], ◌∷◌, ◌++◌, map, append_assoc, arith, All, All-append, Str, codes, str_eq,
  is_empty, trim, join, is_digit, is_alpha, is_name_char, elem, if◌then◌else◌, Bool-cases,
}
use dbx_plugin_ldap.Base
use mathlib.Core.List.{map}
use dbx_plugin_ldap.Description.{matches_description}
use dbx_plugin_ldap.Filter.Escape.{escape_ldap_filter_value}
use dbx_plugin_ldap.Filter.Assertion.{
  Attempt, ok, Joiner, combine_filters, contains, or, safe_builder_attribute,
  build_substring_filter, build_negated_filter, combine_filters, cleaned,
}
use dbx_plugin_ldap.Filter.Builder.{BuilderOp, equals, not_equals, present, substring, comparison}
use dbx_plugin_ldap.Filter.Validate.{
  Operator, equality, extensible, is_valid_value, validate_ldap_filter,
}
use dbx_plugin_ldap.Filter.Accept.{IsBare, Accepted-negation, value-escaped, value_star}
use dbx_plugin_ldap.Filter.Group.{
  Good, Good-mono, Accepted-mono, Accepted-filled, combine_filters-Good,
}
use dbx_plugin_ldap.Filter.Sound.{
  build_equality_filter_text, IsItem, IsItem-Accepted, MaybeItem, safe_cases, escaped-IsBare,
  build_substring_filter_item,
}
use dbx_plugin_ldap.Filter.Tree.{
  presence_item, MaybeItem-Good, operator_of, operator_of-ne, build_presence_filter_item,
  build_comparison_filter_item, negated_item, equality_Good, Good-valid, described_of_filled,
}
use dbx_plugin_ldap.Filter.Query.{
  LdapQueryClause, LdapQueryGroup, LdapQueryBuilder, resolve_ldap_query_clause_attribute, known,
  chosen, negated_if, Filters, filters, kept, combined, own_op, op_or_default, query_op,
  query_expression, negates, joiner_of, build_clause_filter, clause_filters, build_group_filter,
  group_filters, build_query_builder_filter,
}
use dbx_plugin_ldap.Filter.Keyword.{
  KeywordPrefix, any_object_class, tree_filter_attributes, star_if, starred, split_stars, or_any,
  build_tree_wildcard_filter, prefix_filter, keyword_filters, parse_tree_keyword_prefix,
  build_tree_keyword_filter,
}

module _ (o : Operator) (plain : o ≢ extensible) where
  -- An item, negated or not.
  negated_Good :
      (negate : Bool) (f : Str)
      → MaybeItem o f
      → Good 2 (if is_empty f then [] else if negate then build_negated_filter f else f)
  negated_Good negate f (inl e) =
      inl (ap (λ t. if is_empty t then [] else if negate then build_negated_filter f else f) e)
  negated_Good true f (inr i) =
      let a = IsItem-Accepted o f plain i in
      rw (Accepted-filled 1 f a, negated_item o f plain i) (inr (Accepted-negation 1 f a))
  negated_Good false f (inr i) =
      let a = IsItem-Accepted o f plain i in
      rw (Accepted-filled 1 f a) (inr (Accepted-mono 1 2 f (omega arith) a))

-- A result that is no error, and a good filter.
abbrev pub Built : ℕ → Attempt → Type 0
Built n a = (f : Str) × (a ≡ ok f) × Good n f

expression-Built :
    (op : BuilderOp) (negate : Bool) (attribute value : Str)
    → Built 2 (negated_if negate (query_expression (known op) attribute value))
unfolding query_expression negated_if
expression-Built present negate attribute value =
    (_, refl, negated_Good equality (cc) negate _ (build_presence_filter_item attribute))
expression-Built equals negate attribute value =
    let (f, e, i) = build_equality_filter_text attribute value in
    (_, ap (negated_if negate) e, negated_Good equality (cc) negate f i)
expression-Built not_equals negate attribute value =
    let (f, e, i) = build_equality_filter_text attribute value in
    (_, ap (negated_if negate) e, negated_Good equality (cc) negate f i)
expression-Built (substring mode) negate attribute value = (
  _,
  refl,
  negated_Good equality (cc) negate _ (build_substring_filter_item attribute value mode),
)
expression-Built (comparison mode) negate attribute value = (
  _,
  refl,
  negated_Good (operator_of mode) (operator_of-ne mode) negate _
      (build_comparison_filter_item attribute value mode),
)

own-Built :
    (own : Option BuilderOp) (negate : Bool) (attribute value : Str)
    → Built 2 (
        negated_if
          (negates negate (chosen own none))
          (query_expression (chosen own none) attribute value))
unfolding query_expression negated_if
own-Built none negate attribute value = ([], refl, inl refl)
own-Built (some op) negate attribute value =
    expression-Built op (negates negate (known op)) attribute value

kept-Built :
    (n : ℕ) (a : Attempt) (rest : Filters)
    → Built n a
    → (fs : List Str) × (rest ≡ filters fs) × All (Good n) fs
    → (fs : List Str) × (kept a rest ≡ filters fs) × All (Good n) fs
kept-Built n a rest (f, e, g) (fs, r, gs) = elim (Bool-cases (is_empty f)) [
  | inl x ↦ (fs, rw (e, r, x) refl, gs)
  | inr x ↦ (f ∷ fs, rw (e, r, x) refl, (g, gs))
]

combined-Built :
    (n : ℕ) (joiner : Joiner) (all : Filters)
    → (fs : List Str) × (all ≡ filters fs) × All (Good n) fs
    → Built (suc n) (combined joiner all)
unfolding combined
combined-Built n joiner all (fs, e, gs) =
    (combine_filters fs joiner, ap (combined joiner) e, combine_filters-Good n joiner fs gs)

module _ (prototype : Str → Option (Str → Str → Attempt)) where
  -- The clause's operator is not the name of a member that every object has.
  abbrev pub IsOwn : LdapQueryClause → Type 0
  IsOwn c = prototype (op_or_default c.op) ≡ none

  build_clause_filter-Built :
      (c : LdapQueryClause) → IsOwn c → Built 2 (build_clause_filter prototype c)
  unfolding build_clause_filter query_op
  build_clause_filter-Built c own =
      elim (Bool-cases (is_empty (resolve_ldap_query_clause_attribute c))) [
        | inl e ↦ ([], rw e refl, inl refl)
        | inr e ↦
            rw (e, own)
              (own-Built (own_op (op_or_default c.op)) c.negate
                (resolve_ldap_query_clause_attribute c) (trim c.value))
      ]

  clause_filters-Built :
      (cs : List LdapQueryClause)
      → All IsOwn cs
      → (fs : List Str) × (clause_filters prototype cs ≡ filters fs) × All (Good 2) fs
  unfolding clause_filters
  clause_filters-Built [] own = ([], refl, tt)
  clause_filters-Built (c ∷ cs) (o, own) =
      kept-Built 2 _ _ (build_clause_filter-Built c o) (clause_filters-Built cs own)

  group_filters-Built :
      (gs : List LdapQueryGroup)
      → All (λ g. All IsOwn g.clauses) gs
      → (fs : List Str) × (group_filters prototype gs ≡ filters fs) × All (Good 3) fs
  unfolding group_filters build_group_filter
  group_filters-Built [] own = ([], refl, tt)
  group_filters-Built (g ∷ gs) (o, own) =
      kept-Built 3 _ _ (combined-Built 2 (joiner_of g.join_or) _ (clause_filters-Built g.clauses o))
        (group_filters-Built gs own)

  -- Where no clause's operator is the name of a member that every object has, the query builder
  -- throws nothing, and its filter is empty or passes the validation, whatever else the clauses hold.
  pub validate_ldap_filter-build_query_builder_filter :
      (builder : LdapQueryBuilder)
      → All (λ g. All IsOwn g.clauses) builder.groups
      → (f : Str) × (build_query_builder_filter prototype builder ≡ ok f)
        × ((f ≡ []) ⊎ (validate_ldap_filter f ≡ true))
  unfolding build_query_builder_filter
  validate_ldap_filter-build_query_builder_filter b own =
      let (f, e, g) = combined-Built 3 (joiner_of b.join_or) _ (group_filters-Built b.groups own) in
      (f, e, Good-valid 4 f (omega arith) g)

pieces_valid :
    (ps : List Str) (s : Str)
    → is_valid_value true (join (codes "*") (map escape_ldap_filter_value ps) ++ s)
      ≡ is_valid_value true s
pieces_valid [] s = refl
pieces_valid (p ∷ []) s = value-escaped true p s
pieces_valid (p ∷ q ∷ ps) s =
    let rest = join (codes "*") (map escape_ldap_filter_value (q ∷ ps)) in
    ap (is_valid_value true) (append_assoc (escape_ldap_filter_value p) (b'*' ∷ rest) s)
    ∙ value-escaped true p (b'*' ∷ (rest ++ s))
    ∙ value_star (rest ++ s)
    ∙ pieces_valid (q ∷ ps) s

pieces-IsBare : (ps : List Str) → All IsBare (join (codes "*") (map escape_ldap_filter_value ps))
pieces-IsBare [] = tt
pieces-IsBare (p ∷ []) = escaped-IsBare p
pieces-IsBare (p ∷ q ∷ ps) =
    All-append IsBare (escape_ldap_filter_value p) _ (escaped-IsBare p)
      (omega arith, pieces-IsBare (q ∷ ps))

star_valid : (b : Bool) (s : Str) → is_valid_value true (star_if b ++ s) ≡ is_valid_value true s
star_valid true s = value_star s
star_valid false s = refl

last_star : (b : Bool) → is_valid_value true (star_if b) ≡ true
unfolding is_valid_value
last_star true = refl
last_star false = refl

star-IsBare : (b : Bool) → All IsBare (star_if b)
star-IsBare true = (omega arith, tt)
star-IsBare false = tt

starred_item :
    (attribute value : Str) (ps : List Str)
    → is_empty (safe_builder_attribute attribute) ≡ false
    → MaybeItem equality (starred attribute value ps)
starred_item attribute value [] e = build_presence_filter_item attribute
starred_item attribute value (p ∷ ps) e =
    let head = Base.starts_with value (codes "*") in
    let tail = Base.ends_with value (codes "*") in
    let body = join (codes "*") (map escape_ldap_filter_value (p ∷ ps)) in
    inr (record {
      attr = safe_builder_attribute attribute;
      value = star_if head ++ (body ++ star_if tail);
      shape = refl;
      described = described_of_filled _ (safe_cases attribute) e;
      valued = star_valid head _ ∙ pieces_valid (p ∷ ps) (star_if tail) ∙ last_star tail;
      bare =
          All-append IsBare (star_if head) _ (star-IsBare head)
            (All-append IsBare body (star_if tail) (pieces-IsBare (p ∷ ps)) (star-IsBare tail));
    })

wildcard_branch :
    (missing starless : Bool) (f g : Str)
    → MaybeItem equality f
    → (missing ≡ false → MaybeItem equality g)
    → MaybeItem equality (if missing then [] else if starless then f else g)
wildcard_branch true starless f g x y = inl refl
wildcard_branch false true f g x y = x
wildcard_branch false false f g x y = y refl

build_tree_wildcard_filter_item :
    (attribute value : Str) → MaybeItem equality (build_tree_wildcard_filter attribute value)
unfolding build_tree_wildcard_filter
build_tree_wildcard_filter_item attribute value =
    wildcard_branch (is_empty (safe_builder_attribute attribute)) (not (elem b'*' value))
      (build_substring_filter attribute value contains)
      (starred attribute value (cleaned (split_stars value)))
      (build_substring_filter_item attribute value contains)
      (starred_item attribute value (cleaned (split_stars value)))

object_class-IsItem : IsItem equality any_object_class
object_class-IsItem =
    presence_item (codes "objectClass")
      (unfold matches_description is_name_char is_alpha is_digit in refl)

or_any_item : (f : Str) → MaybeItem equality f → MaybeItem equality (or_any f)
or_any_item [] m = inr object_class-IsItem
or_any_item (c ∷ f) m = m

prefix_branch :
    (class empty : Bool) (f g h : Str)
    → MaybeItem equality f
    → MaybeItem equality g
    → MaybeItem equality h
    → MaybeItem equality
        (if class then if empty then any_object_class else f else if empty then g else h)
prefix_branch true true f g h x y z = inr object_class-IsItem
prefix_branch true false f g h x y z = x
prefix_branch false true f g h x y z = y
prefix_branch false false f g h x y z = z

prefix_filter_item : (p : KeywordPrefix) → MaybeItem equality (prefix_filter p)
unfolding prefix_filter
prefix_filter_item p =
    prefix_branch (str_eq p.attribute (codes "objectclass")) (is_empty p.value) _ _ _
      (equality_Good (codes "objectClass") p.value) (build_presence_filter_item p.attribute)
      (or_any_item _ (build_tree_wildcard_filter_item p.attribute p.value))

keyword_filters-Good :
    (names : List Str) (keyword : Str) → All (Good 1) (keyword_filters names keyword)
unfolding keyword_filters
keyword_filters-Good [] keyword = tt
keyword_filters-Good (a ∷ names) keyword =
    elim (Bool-cases (is_empty (build_substring_filter a keyword contains))) [
      | inl e ↦ rw e (keyword_filters-Good names keyword)
      | inr e ↦ rw e (
        MaybeItem-Good equality _ (cc) (build_substring_filter_item a keyword contains),
        keyword_filters-Good names keyword,
      )
    ]

or_any-Good : (f : Str) → Good 2 f → Good 2 (or_any f)
or_any-Good [] g =
    Good-mono 1 2 _ (omega arith) (MaybeItem-Good equality _ (cc) (inr object_class-IsItem))
or_any-Good (c ∷ f) g = g

-- The filter of the tree's keyword field is empty or passes the validation, whatever is typed.
pub validate_ldap_filter-build_tree_keyword_filter :
    (keyword : Str)
    → (build_tree_keyword_filter keyword ≡ [])
      ⊎ (validate_ldap_filter (build_tree_keyword_filter keyword) ≡ true)
validate_ldap_filter-build_tree_keyword_filter keyword =
    Good-valid 2 _ (omega arith)
      (unfold build_tree_keyword_filter in by_prefix (parse_tree_keyword_prefix (trim keyword)))
  where
    by_prefix :
        (found : Option KeywordPrefix)
        → Good 2 (elim found [
          | some p ↦ prefix_filter p
          | none ↦
              or_any (combine_filters (keyword_filters tree_filter_attributes (trim keyword)) or)
        ])
    by_prefix none =
        or_any-Good _
          (combine_filters-Good 1 or _ (keyword_filters-Good tree_filter_attributes (trim keyword)))
    by_prefix (some p) =
        Good-mono 1 2 _ (omega arith) (MaybeItem-Good equality _ (cc) (prefix_filter_item p))
