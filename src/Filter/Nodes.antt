-- ===== src/Filter/Nodes.antt =====
-- `parseFilterItem` of frontend/src/lib/ldapFilter.ts reads the clauses that `buildNodeFilter` writes.
use dbx_plugin_ldap.Base.{
  ℕ, zero, suc, ◌≤◌, ◌<◌, ◌≡◌, refl, sym, ap, ◌∙◌, Bool, true, false, not, ◌&&◌, some, List, [],
  ◌∷◌, ◌++◌, append_assoc, arith, length, Str, codes, trim, if◌then◌else◌,
}
use mathlib.Core.Path.{subst}
use dbx_plugin_ldap.Description.{matches_description}
use dbx_plugin_ldap.Filter.Escape.{KeepsAscii, escape_ldap_filter_value}
use dbx_plugin_ldap.Filter.Builder.{
  BuilderOp, equals, not_equals, present, substring, comparison, BuilderClause, BuilderNode, clause,
  group, BuilderNodes, nil, cons, is_not_equals, build_builder_clause_filter, build_clause_node,
  wrap_structural_negation,
}
use dbx_plugin_ldap.Filter.Tree.{clause_levels}
use dbx_plugin_ldap.Filter.Structure.{
  new_clause, skip_filter_whitespace, negate_node, parse_filter_item,
}
use dbx_plugin_ldap.Filter.Item.{
  body_of, parens, Fits, positive, op_text, build_op_filter-text, parse-parens,
}

-- Equality and its negation have no flag of their own: `!` turns the one into the other.
abbrev pub Negates : BuilderOp → Bool → Type 0
Negates equals negate = negate ≡ false
Negates not_equals negate = negate ≡ false
Negates _ negate = Unit

pub record IsNormalClause (c : BuilderClause) : Type 0 where
  pub described : matches_description c.attribute ≡ true
  pub bare : trim c.attribute ≡ c.attribute
  pub trimmed : trim c.value ≡ c.value
  pub fits : Fits c.op c.attribute c.value
  pub negates : Negates c.op c.negate

abbrev pub AreTwo : BuilderNodes → Type 0
AreTwo nil = ⊥
AreTwo (cons node nil) = ⊥
AreTwo (cons node (cons next nodes)) = Unit

-- Each clause is complete, and each group has two children at least.
unfoldable mutual
  pub IsNormal : BuilderNode → Type 0
  IsNormal (clause c) = IsNormalClause c
  IsNormal (group id joiner children negate) = AreTwo children × AreNormal children

  pub AreNormal : BuilderNodes → Type 0
  AreNormal nil = Unit
  AreNormal (cons node nodes) = IsNormal node × AreNormal nodes

-- The tree with empty identifiers: the filter's text has none.
unfoldable mutual
  pub without_ids : BuilderNode → BuilderNode
  without_ids (clause c) = clause (record c { id = [] })
  without_ids (group id joiner children negate) = group [] joiner (all_without_ids children) negate

  pub all_without_ids : BuilderNodes → BuilderNodes
  all_without_ids nil = nil
  all_without_ids (cons node nodes) = cons (without_ids node) (all_without_ids nodes)

abbrev pub count : BuilderNodes → ℕ
count nil = 0
count (cons node nodes) = suc (count nodes)

pub length-parens : (s : Str) → 0 < length (parens s)
length-parens s = omega arith

module _ (decode_utf8 : List ℕ → Str) (ascii : KeepsAscii decode_utf8) where
  -- The node's text, and reading it with enough levels.
  pub record Reads (text : Str) (levels : ℕ) (node : BuilderNode) : Type 0 where
    pub inner : Str
    pub shape : text ≡ parens inner
    pub reads :
        (m : ℕ) (rest : Str)
        → levels ≤ m
        → parse_filter_item decode_utf8 m (parens inner ++ rest) ≡ some (node, rest)

  read_negation :
      (inner rest : Str) (m : ℕ) (child : BuilderNode)
      → parse_filter_item decode_utf8 m (parens inner ++ b')' ∷ rest) ≡ some (child, b')' ∷ rest)
      → parse_filter_item decode_utf8 (suc m) (parens (b'!' ∷ parens inner) ++ rest)
        ≡ some (negate_node child, rest)
  unfolding parse_filter_item skip_filter_whitespace
  read_negation inner rest m child h =
      let same : (parens inner ++ b')' ∷ []) ++ rest ≡ parens inner ++ b')' ∷ rest =
        append_assoc (parens inner) (b')' ∷ []) rest in
      ap (λ t. parse_filter_item decode_utf8 (suc m) (b'(' ∷ b'!' ∷ t)) same ∙ rw h refl

  pub Reads-negation :
      (text : Str) (levels : ℕ) (child : BuilderNode)
      → Reads text levels child
      → Reads (codes "(!" ++ (text ++ codes ")")) (suc levels) (negate_node child)
  Reads-negation text levels child r = record {
    inner = b'!' ∷ parens r.inner;
    shape = ap (λ t. codes "(!" ++ (t ++ codes ")")) r.shape;
    reads = λ m rest h. negation_at m rest h;
  }
    where
      negation_at :
          (m : ℕ) (rest : Str)
          → suc levels ≤ m
          → parse_filter_item decode_utf8 m (parens (b'!' ∷ parens r.inner) ++ rest)
            ≡ some (negate_node child, rest)
      negation_at zero rest h = absurd (omega (arith, h))
      negation_at (suc m) rest h =
          read_negation r.inner rest m child (r.reads m (b')' ∷ rest) (omega arith))

  module _ (attribute value : Str) (described : matches_description attribute ≡ true)
      (bare : trim attribute ≡ attribute) (trimmed : trim value ≡ value) where
    Reads-parens :
        (op : BuilderOp)
        → Fits op attribute value
        → Reads
            (parens (body_of op attribute (escape_ldap_filter_value value)))
            1
            (clause (new_clause attribute (positive op) value))
    Reads-parens op h = record {
      inner = body_of op attribute (escape_ldap_filter_value value);
      shape = refl;
      reads = λ m rest l. parens_at m rest l;
    }
      where
        parens_at :
            (m : ℕ) (rest : Str)
            → 1 ≤ m
            → parse_filter_item decode_utf8 m
                (parens (body_of op attribute (escape_ldap_filter_value value)) ++ rest)
              ≡ some (clause (new_clause attribute (positive op) value), rest)
        parens_at zero rest l = absurd (omega (arith, l))
        parens_at (suc m) rest l =
            parse-parens decode_utf8 ascii attribute value described bare trimmed m op rest h

    abbrev clause_with : BuilderOp → Bool → BuilderClause
    clause_with op negate = record {
      id = [];
      attribute = attribute;
      op = op;
      value = value;
      negate = negate;
    }

    abbrev plain_text : BuilderOp → Str
    plain_text op = parens (body_of op attribute (escape_ldap_filter_value value))

    -- What the builder writes for a clause.
    build_clause_node-text :
        (op : BuilderOp) (negate : Bool) (text : Str)
        → Fits op attribute value
        → op_text decode_utf8 ascii attribute value described bare trimmed op ≡ b'(' ∷ text
        → build_clause_node (clause_with op negate) ≡ (
            if negate && not (is_not_equals op)
            then codes "(!" ++ ((b'(' ∷ text) ++ codes ")")
            else b'(' ∷ text)
    unfolding build_clause_node build_builder_clause_filter wrap_structural_negation
    build_clause_node-text op negate text h e =
        let built =
          build_op_filter-text decode_utf8 ascii attribute value described bare trimmed op h ∙ e in
        rw (bare, trimmed, built) refl

    Reads-plain :
        (op : BuilderOp) (negate : Bool)
        → Fits op attribute value
        → op_text decode_utf8 ascii attribute value described bare trimmed op ≡ plain_text op
        → is_not_equals op ≡ false
        → positive op ≡ op
        → negate_node (clause (new_clause attribute op value)) ≡ clause (clause_with op true)
        → Reads
            (build_clause_node (clause_with op negate))
            (clause_levels (clause_with op negate))
            (clause (clause_with op negate))
    Reads-plain op false h e n p g =
        subst (λ t. Reads t (clause_levels (clause_with op false)) (clause (clause_with op false)))
          (sym (build_clause_node-text op false _ h e))
          (rw n (
            subst (λ o. Reads (plain_text op) 1 (clause (new_clause attribute o value))) p
              (Reads-parens op h)))
    Reads-plain op true h e n p g =
        subst (λ t. Reads t 2 (clause (clause_with op true)))
          (sym (build_clause_node-text op true _ h e ∙ rw n refl))
          (subst (Reads (codes "(!" ++ (plain_text op ++ codes ")")) 2) g (
            Reads-negation (plain_text op) 1 (clause (new_clause attribute op value)) (
              subst (λ o. Reads (plain_text op) 1 (clause (new_clause attribute o value))) p
                (Reads-parens op h))))

    Reads-clause :
        (op : BuilderOp) (negate : Bool)
        → Fits op attribute value
        → Negates op negate
        → Reads
            (build_clause_node (clause_with op negate))
            (clause_levels (clause_with op negate))
            (clause (clause_with op negate))
    unfolding op_text negate_node
    Reads-clause present negate h k = Reads-plain present negate h refl refl refl refl
    Reads-clause (substring mode) negate h k =
        Reads-plain (substring mode) negate h refl refl refl refl
    Reads-clause (comparison mode) negate h k =
        Reads-plain (comparison mode) negate h refl refl refl refl
    Reads-clause equals true h k = absurd (cc)
    Reads-clause equals false h k =
        subst (λ t. Reads t 1 (clause (clause_with equals false)))
          (sym (build_clause_node-text equals false _ h refl)) (Reads-parens equals h)
    Reads-clause not_equals true h k = absurd (cc)
    Reads-clause not_equals false h k =
        subst (λ t. Reads t 2 (clause (clause_with not_equals false)))
          (sym (build_clause_node-text not_equals false _ h refl))
          (Reads-negation (plain_text equals) 1 (clause (new_clause attribute equals value))
            (Reads-parens not_equals h))

  pub Reads-IsNormalClause :
      (c : BuilderClause)
      → IsNormalClause c
      → Reads (build_clause_node c) (clause_levels c) (clause (record c { id = [] }))
  unfolding build_clause_node build_builder_clause_filter
  Reads-IsNormalClause c k =
      Reads-clause c.attribute c.value k.described k.bare k.trimmed c.op c.negate k.fits k.negates
