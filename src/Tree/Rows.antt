-- ===== src/Tree/Rows.antt =====
-- The rows and the order of frontend/src/lib/dnTree.ts.
use dbx_plugin_ldap.Base.{
  ◌+◌, ℕ, suc, ◌≤◌, ◌≡◌, inl, inr, refl, sym, ap, ◌∙◌, true, false, some, List, [], ◌∷◌, ◌++◌,
  append-nil, append_assoc, arith, Str, ltb, ◌==◌, if◌then◌else◌, Bool-cases,
}
use mathlib.Core.Path.{subst}
use dbx_plugin_ldap.Tree.{
  DnTreeNode, DnTreeNodes, node, leaf_end, child, DnTreeRow, walk, walk_children, flatten_dn_tree,
  Sign, below, same, above, group_rank, compare_dn_for_tree,
}

-- The tree that is to be seen: nothing below what is not expanded.
unfoldable mutual
  pub visible : DnTreeNode → DnTreeNode
  visible (node s children) =
      let below = visible_children children in node s (if s.expanded then below else leaf_end)

  pub visible_children : DnTreeNodes → DnTreeNodes
  visible_children leaf_end = leaf_end
  visible_children (child n ns) = child (visible n) (visible_children ns)

-- A reader of outlines. The trees that the rows after a row make, each with its depth: those of the
-- depth below come first, up to the first other one, and are its children.
unfoldable pub children_at : ℕ → List (ℕ × DnTreeNode) → DnTreeNodes
children_at d [] = leaf_end
children_at d ((e, n) ∷ ts) =
    let rest = children_at d ts in if e == d then child n rest else leaf_end

unfoldable pub after_children : ℕ → List (ℕ × DnTreeNode) → List (ℕ × DnTreeNode)
after_children d [] = []
after_children d ((e, n) ∷ ts) =
    let rest = after_children d ts in if e == d then rest else (e, n) ∷ ts

unfoldable pub read_outline : List DnTreeRow → List (ℕ × DnTreeNode)
unfolding children_at after_children
read_outline [] = []
read_outline (r ∷ rs) =
    let trees = read_outline rs in
    (r.depth, node r.state (children_at (suc r.depth) trees)) ∷ after_children (suc r.depth) trees

abbrev at_depth : ℕ → DnTreeNodes → List (ℕ × DnTreeNode)
at_depth d leaf_end = []
at_depth d (child n ns) = (d, n) ∷ at_depth d ns

-- The next tree does not lie below depth `d`.
abbrev EndsAt : ℕ → List (ℕ × DnTreeNode) → Type 0
EndsAt d [] = Unit
EndsAt d ((e, n) ∷ ts) = e ≤ d

EndsAt-suc : (d : ℕ) (ts : List (ℕ × DnTreeNode)) → EndsAt d ts → EndsAt (suc d) ts
EndsAt-suc d [] h = tt
EndsAt-suc d ((e, n) ∷ ts) h = omega (arith, h)

EndsAt-at_depth :
    (d : ℕ) (ns : DnTreeNodes) (ts : List (ℕ × DnTreeNode))
    → EndsAt d ts
    → EndsAt d (at_depth d ns ++ ts)
EndsAt-at_depth d leaf_end ts h = h
EndsAt-at_depth d (child n ns) ts h = omega arith

children_at-at_depth :
    (d : ℕ) (ns : DnTreeNodes) (ts : List (ℕ × DnTreeNode))
    → EndsAt d ts
    → (children_at (suc d) (at_depth (suc d) ns ++ ts) ≡ ns)
      × (after_children (suc d) (at_depth (suc d) ns ++ ts) ≡ ts)
unfolding children_at after_children
children_at-at_depth d leaf_end [] h = (refl, refl)
children_at-at_depth d leaf_end ((e, n) ∷ ts) h =
    let other : (e == suc d) ≡ false = ground (arith, h) in (rw other refl, rw other refl)
children_at-at_depth d (child n ns) ts h =
    let (these, others) = children_at-at_depth d ns ts h in
    let here : (suc d == suc d) ≡ true = ground arith in
    (rw here (ap (child n) these), rw here others)

mutual
  unfolding walk walk_children read_outline visible visible_children

  read_outline-walk :
      (n : DnTreeNode) (d : ℕ) (rs : List DnTreeRow)
      → EndsAt d (read_outline rs)
      → read_outline (walk n d ++ rs) ≡ (d, visible n) ∷ read_outline rs
  read_outline-walk (node s children) d rs h = elim (Bool-cases s.expanded) [
    | inl x ↦
        let below =
          read_outline-walk_children children (suc d) rs (EndsAt-suc d (read_outline rs) h) in
        let (these, others) =
          children_at-at_depth d (visible_children children) (read_outline rs) h in
        let next : d + 1 ≡ suc d = omega arith in rw (x, next, below, these, others) refl
    | inr x ↦
        let (these, others) = children_at-at_depth d leaf_end (read_outline rs) h in
        rw (x, these, others) refl
  ]

  read_outline-walk_children :
      (ns : DnTreeNodes) (d : ℕ) (rs : List DnTreeRow)
      → EndsAt d (read_outline rs)
      → read_outline (walk_children ns d ++ rs)
        ≡ at_depth d (visible_children ns) ++ read_outline rs
  read_outline-walk_children leaf_end d rs h = refl
  read_outline-walk_children (child n ns) d rs h =
      let rest = read_outline-walk_children ns d rs h in
      let ends = EndsAt-at_depth d (visible_children ns) (read_outline rs) h in
      ap read_outline (append_assoc (walk n d) (walk_children ns d) rs)
      ∙ read_outline-walk n d (walk_children ns d ++ rs) (subst (EndsAt d) (sym rest) ends)
      ∙ ap (λ ts. (d, visible n) ∷ ts) rest

-- The depths of the shown rows tell the tree that is to be seen: a reader of outlines gets from the
-- rows the root, with each node's children in their order and nothing below a node that is not
-- expanded.
pub read_outline-flatten_dn_tree :
    (root : DnTreeNode) → read_outline (flatten_dn_tree (some root)) ≡ (0, visible root) ∷ []
unfolding flatten_dn_tree read_outline
read_outline-flatten_dn_tree root =
    ap read_outline (sym (append-nil (walk root 0))) ∙ read_outline-walk root 0 [] tt

abbrev pub opposite : Sign → Sign
opposite below = above
opposite same = same
opposite above = below

-- Where the platform's collation changes its sign with its arguments, so does the order of the tree.
pub opposite-compare_dn_for_tree :
    (lower : Str → Str) (collate : Str → Str → Sign)
    → ((a b : Str) → opposite (collate a b) ≡ collate b a)
    → (left right : Str)
    → opposite (compare_dn_for_tree lower collate left right)
      ≡ compare_dn_for_tree lower collate right left
unfolding compare_dn_for_tree
opposite-compare_dn_for_tree lower collate h left right =
    let swap = h left right in
    sides (group_rank lower left) (group_rank lower right) (collate left right) (collate right left)
      swap
  where
    sides :
        (m n : ℕ) (a b : Sign)
        → opposite a ≡ b
        → opposite (if ltb m n then below else if ltb n m then above else a)
          ≡ (if ltb n m then below else if ltb m n then above else b)
    sides m n a b e = elim (Bool-cases (ltb m n)) [
      | inl x ↦ let y : ltb n m ≡ false = ground arith in rw (x, y) refl
      | inr x ↦ elim (Bool-cases (ltb n m)) [ inl y ↦ rw (x, y) refl | inr y ↦ rw (x, y) e ]
    ]
