-- ===== src/Panels/Tests.antt =====
-- Runs of the small state of the workbench, and the theorems at concrete inputs.
use dbx_plugin_ldap.Base.{
  ℕ, ◌≤◌, ◌<◌, ◌≡◌, refl, true, false, some, List, [], ◌∷◌, arith, Str, codes, is_space, lower_char,
  ascii_lower,
}
use dbx_plugin_ldap.Dn.{split_first_dn_rdn, dn_within_base, split_top_level}
use dbx_plugin_ldap.Panels.Window.{pos, negsuc, compute_window}
use dbx_plugin_ldap.Panels.Shown.{Spans, compute_window_bounds, compute_window_shows}
use dbx_plugin_ldap.Panels.{
  decide_tree_auto_retry, append_open_tab, record_recent, BookmarkEntry, add_bookmark,
  remove_bookmark, dn_path_chain,
}
use dbx_plugin_ldap.Panels.Bounds.{dn_path_chain-total}

tests : Unit {0}
unfolding compute_window decide_tree_auto_retry append_open_tab record_recent add_bookmark
    remove_bookmark dn_path_chain split_first_dn_rdn dn_within_base split_top_level is_space
    lower_char
tests = tt

window_runs :
    (compute_window (pos 95) 100 30 20 1 ≡ record { start = pos 3; end = pos 11 })
    × (compute_window (negsuc 29) 100 30 20 1 ≡ record { start = pos 0; end = pos 5 })
unfolding tests
window_runs = (refl, refl)

tabs_run :
    append_open_tab ascii_lower (codes "a" ∷ codes "b" ∷ []) (codes "c") 2
    ≡ codes "b" ∷ codes "c" ∷ []
unfolding tests
tabs_run = refl

recent_run :
    record_recent ascii_lower (codes " O=x ") (codes "b" ∷ codes "o=X" ∷ [])
    ≡ codes "O=x" ∷ codes "b" ∷ []
unfolding tests
recent_run = refl

chain_run :
    dn_path_chain ascii_lower (codes "cn=a, ou=b,dc=X") (codes "dc=x")
    ≡ some (codes "dc=x" ∷ codes "ou=b,dc=X" ∷ codes "cn=a, ou=b,dc=X" ∷ [])
unfolding tests
chain_run = refl

-- A target with a comma at its end is within the base, and its chain is empty.
comma_run :
    (dn_within_base ascii_lower (codes "cn=a,dc=x,") (codes "dc=x") ≡ true)
    × (dn_path_chain ascii_lower (codes "cn=a,dc=x,") (codes "dc=x") ≡ some [])
unfolding tests
comma_run = (refl, refl)

abbrev store : List BookmarkEntry
store = record { connection_id = codes "k"; dn = codes "o=x" } ∷ []

bookmark_runs :
    (add_bookmark ascii_lower (codes "k") (codes "O=X ") store ≡ (store, false))
    × (remove_bookmark ascii_lower (codes "k") (codes "O=X ") store ≡ ([], true))
unfolding tests
bookmark_runs = (refl, refl)

compute_window_bounds_example :
    (a : ℕ) × (b : ℕ) × Spans (compute_window (negsuc 29) 100 30 20 1) a b × (a ≤ b) × (b ≤ 30)
compute_window_bounds_example = compute_window_bounds (negsuc 29) 100 30 20 1

compute_window_shows_example :
    (a : ℕ) × (b : ℕ) × Spans (compute_window (negsuc 29) 100 30 20 1) a b × (a ≤ 3) × (3 < b)
compute_window_shows_example =
    compute_window_shows (negsuc 29) 100 30 20 1 3 (omega arith) (omega arith) (omega arith)
      (omega arith) tt

dn_path_chain-total_example :
    (chain : List Str) × (dn_path_chain ascii_lower (codes "cn=a,dc=x,") (codes "dc=x")
      ≡ some chain)
dn_path_chain-total_example = dn_path_chain-total ascii_lower (codes "cn=a,dc=x,") (codes "dc=x")
