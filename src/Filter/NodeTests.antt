-- ===== src/Filter/NodeTests.antt =====
-- Runs of `parseFilterStructure` of frontend/src/lib/ldapFilter.ts at concrete inputs.
use dbx_plugin_ldap.Base.{
  ℕ, ◌≤◌, ◌≡◌, refl, Bool, true, false, some, List, [], arith, Str, codes, is_space, is_digit,
  is_alpha, is_hex, is_name_char, lower_char,
}
use dbx_plugin_ldap.Description.{matches_description}
use dbx_plugin_ldap.Filter.Assertion.{SubstringMode, contains, gte, and, or}
use dbx_plugin_ldap.Filter.Escape.{KeepsAscii, escape_ldap_filter_value}
use dbx_plugin_ldap.Filter.Builder.{
  BuilderOp, equals, not_equals, present, substring, comparison, BuilderNode, clause, group, nil,
  cons, build_node_filter,
}
use dbx_plugin_ldap.Filter.Tree.{node_levels}
use dbx_plugin_ldap.Filter.Structure.{parse_filter_structure}
use dbx_plugin_ldap.Filter.Nodes.{IsNormal, without_ids}
use dbx_plugin_ldap.Filter.Rebuilt.{parse_filter_structure-build_node_filter}

tests : Unit {0}
unfolding is_space is_digit is_alpha is_name_char is_hex lower_char matches_description
    escape_ldap_filter_value build_node_filter parse_filter_structure node_levels IsNormal
tests = tt

-- A decoder for the runs: bytes as they are.
abbrev bytes_as_they_are : List ℕ → Str
bytes_as_they_are bytes = bytes

bytes-KeepsAscii : KeepsAscii bytes_as_they_are
bytes-KeepsAscii bytes h = refl

abbrev cn_clause : Str → BuilderOp → Str → Bool → BuilderNode
cn_clause id op value negate =
    clause (record { id = id; attribute = codes "cn"; op = op; value = value; negate = negate })

abbrev tree : BuilderNode
tree =
    group (codes "n1") and
      (cons (cn_clause (codes "n2") not_equals (codes "a*(b)") false) (
        cons
          (group (codes "n3") or
            (cons (cn_clause (codes "n4") (substring contains) (codes "x") true) (
              cons (cn_clause (codes "n5") (comparison gte) (codes "5") false)
                (cons (cn_clause (codes "n6") present [] false) nil)))
            true)
          nil))
      false

tree_text : build_node_filter tree ≡ codes "(&(!(cn=a\\2a\\28b\\29))(!(|(!(cn=*x*))(cn>=5)(cn=*))))"
unfolding tests
tree_text = refl

-- White space between the tokens is skipped, and a double negation is kept in a group of its own.
spaced_runs :
    parse_filter_structure bytes_as_they_are (codes " ( & (cn=a) ( ! (! (cn=b*) ) ) ) ")
    ≡ some (
        group [] and
          (cons (cn_clause [] equals (codes "a") false) (
            cons
              (group [] and
                (cons (cn_clause [] (substring SubstringMode.starts_with) (codes "b") true) nil)
                true)
              nil))
          false)
unfolding tests
spaced_runs = refl

tree-IsNormal : IsNormal tree
unfolding tests
tree-IsNormal = (
  tt,
  (
    record { described = refl; bare = refl; trimmed = refl; fits = (refl, refl); negates = refl },
    (
      (
        tt,
        (
          record { described = refl; bare = refl; trimmed = refl; fits = refl; negates = tt },
          (
            record { described = refl; bare = refl; trimmed = refl; fits = refl; negates = tt },
            (
              record { described = refl; bare = refl; trimmed = refl; fits = refl; negates = tt },
              tt,
            ),
          ),
        ),
      ),
      tt,
    ),
  ),
)

tree_levels : node_levels tree ≤ 101
unfolding tests
tree_levels = omega arith

parse_filter_structure-build_node_filter_example :
    parse_filter_structure bytes_as_they_are (build_node_filter tree) ≡ some (without_ids tree)
parse_filter_structure-build_node_filter_example =
    parse_filter_structure-build_node_filter bytes_as_they_are bytes-KeepsAscii tree tree-IsNormal
      tree_levels
