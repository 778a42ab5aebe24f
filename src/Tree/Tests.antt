-- ===== src/Tree/Tests.antt =====
-- Runs of the functions of frontend/src/lib/dnTree.ts, and the theorems at concrete inputs.
use dbx_plugin_ldap.Base.{
  ◌-◌, ℕ, ◌≡◌, refl, Bool, true, false, none, some, List, [], ◌∷◌, Str, codes, is_space, lower_char,
  ascii_lower,
}
use dbx_plugin_ldap.Dn.{split_first_dn_rdn}
use dbx_plugin_ldap.Tree.{
  NodeState, DnTreeNode, node, leaf_end, child, DnTreeRow, flatten_dn_tree, arrow_down, arrow_up,
  home, end, next_tree_focus_index, Sign, same, compare_dn_for_tree, dn_node_kind, root_kind,
  ou_kind, object_class_node_kind, person, is_dn_tree_leaf,
}
use Prim.Native.Nat.{min}
use dbx_plugin_ldap.Tree.Rows.{visible, read_outline, read_outline-flatten_dn_tree}
use dbx_plugin_ldap.Tree.Focus.{presses, presses-next_tree_focus_index}

abbrev state : Str → Bool → NodeState
state dn expanded = record {
  dn = dn;
  label = dn;
  object_class = [];
  expanded = expanded;
  loaded = true;
  loading = false;
  child_count = none;
  truncated = false;
}

abbrev leaf : Str → DnTreeNode
leaf dn = node (state dn false) leaf_end

abbrev tree : DnTreeNode
tree = node (state (codes "dc=x") true) (
    child (node (state (codes "ou=a,dc=x") true) (child (leaf (codes "cn=b,ou=a,dc=x")) leaf_end))
      (child (leaf (codes "cn=c,dc=x")) leaf_end))

tests : Unit {0}
unfolding flatten_dn_tree next_tree_focus_index dn_node_kind split_first_dn_rdn is_space lower_char
    object_class_node_kind is_dn_tree_leaf compare_dn_for_tree
tests = tt

abbrev depths : List DnTreeRow → List ℕ
depths [] = []
depths (r ∷ rs) = r.depth ∷ depths rs

flatten_runs : depths (flatten_dn_tree (some tree)) ≡ 0 ∷ 1 ∷ 2 ∷ 1 ∷ []
unfolding tests
flatten_runs = refl

kind_runs :
    (dn_node_kind ascii_lower (codes "OU=a,dc=x") (codes "dc=x") ≡ ou_kind)
    × (dn_node_kind ascii_lower (codes " DC=x") (codes "dc=X") ≡ root_kind)
    × (object_class_node_kind ascii_lower (codes "top" ∷ codes "Person" ∷ []) ≡ person)
    × (is_dn_tree_leaf ascii_lower (leaf (codes "cn=b")) ≡ true)
unfolding tests
kind_runs = (refl, refl, refl, refl)

focus_runs :
    (next_tree_focus_index 4 (some 3) arrow_down ≡ some 3)
    × (next_tree_focus_index 4 (some 0) arrow_up ≡ some 0)
    × (next_tree_focus_index 4 (some 9) arrow_up ≡ some 3)
unfolding tests
focus_runs = (refl, refl, refl)

abbrev level : Str → Str → Sign
level a b = same

read_outline-flatten_dn_tree_example :
    read_outline (flatten_dn_tree (some tree)) ≡ (0, visible tree) ∷ []
read_outline-flatten_dn_tree_example = read_outline-flatten_dn_tree tree

presses-next_tree_focus_index_example :
    (presses 4 2 arrow_down (next_tree_focus_index 4 (some 3) home) ≡ some (min 2 3))
    × (presses 4 2 arrow_up (next_tree_focus_index 4 (some 3) end) ≡ some (3 - 2))
    × (presses 4 3 arrow_down none ≡ some (min 2 3))
    × (presses 4 3 arrow_up none ≡ some (3 - 2))
presses-next_tree_focus_index_example = presses-next_tree_focus_index 3 2 (some 3)
