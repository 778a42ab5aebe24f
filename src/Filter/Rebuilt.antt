-- ===== src/Filter/Rebuilt.antt =====
-- `parseFilterStructure` of frontend/src/lib/ldapFilter.ts reads what `buildNodeFilter` writes.
use dbx_plugin_ldap.Base.{
  ℕ, zero, suc, ◌+◌, ◌≤◌, ◌<◌, ◌≡◌, refl, sym, ap, ◌∙◌, Bool, true, false, none, some, List, [],
  ◌∷◌, ◌++◌, append-nil, append_assoc, arith, length, length-append, Str, codes, is_empty, trim,
  join, if◌then◌else◌, join_nil-cons,
}
use mathlib.Core.Path.{subst}
use Prim.Native.Nat.{max}
use dbx_plugin_ldap.Filter.Assertion.{
  Joiner, and, or, join_sign, cleaned, combine_cleaned, combine_filters,
}
use dbx_plugin_ldap.Filter.Escape.{KeepsAscii}
use dbx_plugin_ldap.Filter.Builder.{
  BuilderNode, clause, group, BuilderNodes, nil, cons, wrap_structural_negation, wrap_group,
  build_node_filter, build_children,
}
use dbx_plugin_ldap.Filter.Group.{trim-parens}
use dbx_plugin_ldap.Filter.Tree.{node_levels, children_levels}
use dbx_plugin_ldap.Filter.Structure.{
  group_of, whole, skip_filter_whitespace, negate_node, parse_children, parse_filter_item,
  parse_filter_structure,
}
use dbx_plugin_ldap.Filter.Item.{parens}
use dbx_plugin_ldap.Filter.Nodes.{
  IsNormal, AreNormal, without_ids, all_without_ids, count, Reads, Reads-negation,
  Reads-IsNormalClause, length-parens,
}

module _ (decode_utf8 : List ℕ → Str) (ascii : KeepsAscii decode_utf8) where
  record AreRead (children : BuilderNodes) : Type 0 where
    kept : cleaned (build_children children) ≡ build_children children
    counted : count children ≤ length (join [] (build_children children))
    begins :
        (rest : Str)
        → skip_filter_whitespace (join [] (build_children children) ++ b')' ∷ rest)
          ≡ join [] (build_children children) ++ b')' ∷ rest
    reads :
        (m rounds : ℕ) (rest : Str)
        → children_levels children ≤ m
        → count children < rounds
        → parse_children
            (parse_filter_item decode_utf8 m)
            rounds
            (join [] (build_children children) ++ b')' ∷ rest)
          ≡ some (all_without_ids children, b')' ∷ rest)

  AreRead-nil : AreRead nil
  unfolding build_children skip_filter_whitespace cleaned parse_children all_without_ids
  AreRead-nil = record {
    kept = refl;
    counted = omega arith;
    begins = λ rest. refl;
    reads = λ m rounds rest l r. nil_at m rounds rest r;
  }
    where
      nil_at :
          (m rounds : ℕ) (rest : Str)
          → 0 < rounds
          → parse_children (parse_filter_item decode_utf8 m) rounds (b')' ∷ rest)
            ≡ some (nil, b')' ∷ rest)
      nil_at m zero rest r = absurd (omega (arith, r))
      nil_at m (suc rounds) rest r = refl

  AreRead-cons :
      (node : BuilderNode) (nodes : BuilderNodes)
      → Reads decode_utf8 ascii (build_node_filter node) (node_levels node) (without_ids node)
      → AreRead nodes
      → AreRead (cons node nodes)
  unfolding build_children skip_filter_whitespace cleaned children_levels parse_children
      all_without_ids
  AreRead-cons node nodes x xs =
      let text = build_node_filter node in
      let texts = build_children nodes in
      let joined : (rest : Str)
          → join [] (text ∷ texts) ++ b')' ∷ rest
            ≡ parens x.inner ++ (join [] texts ++ b')' ∷ rest) =
        λ rest.
          ap (λ s. s ++ b')' ∷ rest) (join_nil-cons text texts)
          ∙ append_assoc text (join [] texts) (b')' ∷ rest)
          ∙ ap (λ s. s ++ (join [] texts ++ b')' ∷ rest)) x.shape in
      let counted = xs.counted in
      record {
        kept =
            ap (λ t. if is_empty (trim t) then cleaned texts else trim t ∷ cleaned texts) x.shape
            ∙ ap (λ t. if is_empty t then cleaned texts else t ∷ cleaned texts)
                (trim-parens x.inner)
            ∙ ap (λ ts. parens x.inner ∷ ts) xs.kept
            ∙ ap (λ t. t ∷ texts) (sym x.shape);
        counted = omega (
          arith,
          ap length (join_nil-cons text texts),
          length-append text (join [] texts),
          ap length x.shape,
          length-parens x.inner,
        );
        begins = λ rest. rw (joined rest) refl;
        reads = λ m rounds rest l r. cons_at m rounds rest (joined rest) l r;
      }
    where
      cons_at :
          (m rounds : ℕ) (rest : Str)
          → join [] (build_children (cons node nodes)) ++ b')' ∷ rest
            ≡ parens x.inner ++ (join [] (build_children nodes) ++ b')' ∷ rest)
          → max (node_levels node) (children_levels nodes) ≤ m
          → suc (count nodes) < rounds
          → parse_children
              (parse_filter_item decode_utf8 m)
              rounds
              (join [] (build_children (cons node nodes)) ++ b')' ∷ rest)
            ≡ some (cons (without_ids node) (all_without_ids nodes), b')' ∷ rest)
      cons_at m zero rest e l r = absurd (omega (arith, r))
      cons_at m (suc rounds) rest e l r =
          let first = x.reads m (join [] (build_children nodes) ++ b')' ∷ rest) (omega arith) in
          let later = xs.reads m rounds rest (omega arith) (omega arith) in
          rw (e, first, xs.begins rest, later) refl

  group_sign :
      (joiner : Joiner) (s : Str) (m : ℕ)
      → parse_filter_item decode_utf8 (suc m) (b'(' ∷ join_sign joiner ∷ s)
        ≡ group_of joiner (
            parse_children
              (parse_filter_item decode_utf8 m)
              (suc (length s))
              (skip_filter_whitespace s))
  unfolding parse_filter_item skip_filter_whitespace join_sign
  group_sign and s m = refl
  group_sign or s m = refl

  module _ (joiner : Joiner) (first second : BuilderNode) (more : BuilderNodes)
      (xs : AreRead (cons first (cons second more))) where
    abbrev joined_text : Str
    joined_text = join [] (build_children (cons first (cons second more)))

    group_at :
        (m : ℕ) (rest : Str)
        → 1 + children_levels (cons first (cons second more)) ≤ m
        → parse_filter_item decode_utf8 m (parens (join_sign joiner ∷ joined_text) ++ rest)
          ≡ some (group [] joiner (all_without_ids (cons first (cons second more))) false, rest)
    unfolding parse_filter_item skip_filter_whitespace all_without_ids
    group_at zero rest l = absurd (omega (arith, l))
    group_at (suc m) rest l =
        let s = joined_text ++ b')' ∷ rest in
        let counted = xs.counted in
        let read =
          xs.reads m (suc (length s)) rest (omega arith)
            (omega (arith, length-append joined_text (b')' ∷ rest))) in
        ap (λ t. parse_filter_item decode_utf8 (suc m) (b'(' ∷ join_sign joiner ∷ t))
          (append_assoc joined_text (b')' ∷ []) rest)
        ∙ group_sign joiner s m
        ∙ ap
            (λ t.
              group_of joiner (parse_children (parse_filter_item decode_utf8 m) (suc (length s)) t))
            (xs.begins rest)
        ∙ ap (group_of joiner) read

    Reads-group :
        (negate : Bool)
        → Reads decode_utf8 ascii
            (build_node_filter (group [] joiner (cons first (cons second more)) negate))
            (node_levels (group [] joiner (cons first (cons second more)) negate))
            (group [] joiner (all_without_ids (cons first (cons second more))) negate)
    unfolding build_node_filter combine_filters combine_cleaned wrap_group wrap_structural_negation
        node_levels negate_node
    Reads-group negate =
        let children = cons first (cons second more) in
        let kept = all_without_ids children in
        let base : Reads decode_utf8 ascii (parens (join_sign joiner ∷ joined_text))
            (1 + children_levels children) (group [] joiner kept false) =
          record { inner = join_sign joiner ∷ joined_text; shape = refl; reads = group_at } in
        let written : combine_filters (build_children children) joiner
            ≡ parens (join_sign joiner ∷ joined_text) =
          ap (combine_cleaned joiner) xs.kept in
        elim negate
          as (λ b.
            Reads decode_utf8 ascii (build_node_filter (group [] joiner children b))
              (node_levels (group [] joiner children b)) (group [] joiner kept b)) [
                | false ↦
                    subst
                      (λ t.
                        Reads decode_utf8 ascii t (1 + children_levels children)
                          (group [] joiner kept false))
                      (sym (ap (wrap_group false) written)) base
                | true ↦
                    subst
                      (λ t.
                        Reads decode_utf8 ascii t (2 + children_levels children)
                          (group [] joiner kept true))
                      (sym (ap (wrap_group true) written))
                      (subst
                        (λ n.
                          Reads decode_utf8 ascii
                            (codes "(!" ++ (parens (join_sign joiner ∷ joined_text) ++ codes ")")) n
                            (group [] joiner kept true))
                        (omega arith)
                        (Reads-negation decode_utf8 ascii _ (1 + children_levels children)
                          (group [] joiner kept false) base))
              ]

  mutual
    unfolding build_node_filter node_levels IsNormal without_ids all_without_ids

    Reads-IsNormal :
        (node : BuilderNode)
        → IsNormal node
        → Reads decode_utf8 ascii (build_node_filter node) (node_levels node) (without_ids node)
    Reads-IsNormal (clause c) k = Reads-IsNormalClause decode_utf8 ascii c k
    Reads-IsNormal (group id joiner nil negate) (two, k) = absurd two
    Reads-IsNormal (group id joiner (cons node nil) negate) (two, k) = absurd two
    Reads-IsNormal (group id joiner (cons first (cons second more)) negate) (two, k) =
        Reads-group joiner first second more (AreRead-AreNormal (cons first (cons second more)) k)
          negate

    AreRead-AreNormal : (nodes : BuilderNodes) → AreNormal nodes → AreRead nodes
    AreRead-AreNormal nil k = AreRead-nil
    AreRead-AreNormal (cons node nodes) (k, ks) =
        AreRead-cons node nodes (Reads-IsNormal node k) (AreRead-AreNormal nodes ks)

  -- Parsing the filter that the builder makes of a tree gives the tree back, but for the identifiers of
  -- its nodes, which the text does not have, where the tree has at most 101 levels, each clause has a trimmed attribute description and a trimmed value that its
  -- operator takes, equality carries no flag of negation, each group has two children at least, no
  -- `objectGUID` is compared to a GUID, and the platform's decoder keeps ASCII bytes.
  pub parse_filter_structure-build_node_filter :
      (node : BuilderNode)
      → IsNormal node
      → node_levels node ≤ 101
      → parse_filter_structure decode_utf8 (build_node_filter node) ≡ some (without_ids node)
  unfolding parse_filter_structure skip_filter_whitespace
  parse_filter_structure-build_node_filter node k l =
      let r = Reads-IsNormal node k in
      let read : parse_filter_item decode_utf8 101 (parens r.inner) ≡ some (without_ids node, []) =
        ap (parse_filter_item decode_utf8 101) (sym (append-nil (parens r.inner)))
        ∙ r.reads 101 [] l in
      let clean = trim-parens r.inner in
      ap (parse_filter_structure decode_utf8) r.shape
      ∙ ap
          (λ t.
            if is_empty t then none else whole decode_utf8 (parse_filter_item decode_utf8 101 t))
          clean
      ∙ ap (whole decode_utf8) read
