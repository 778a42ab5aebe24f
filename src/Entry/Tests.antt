-- ===== src/Entry/Tests.antt =====
-- Runs of frontend/src/lib/entryDiff.ts, ldapDiff.ts and stagedEntry.ts, and the theorems at concrete
-- inputs.
use dbx_plugin_ldap.Base.{
  ◌≡◌, refl, none, List, [], ◌∷◌, arith, Str, codes, is_space, lower_char, ascii_lower,
}
use dbx_plugin_ldap.Entry.{
  Attribute, diff_ldap_entries, count_differences, replace, delete, add, diff_changes,
  attr_rows_to_attributes, chunk_entry_attributes,
}
use dbx_plugin_ldap.Entry.Same.{join_all, join_all-chunk_entry_attributes}
use dbx_plugin_ldap.Entry.Staged.{
  is_deferred_entry_attribute, partition_entry_attributes, merge_entry_attributes,
}

tests : Unit {0}
unfolding is_space lower_char diff_ldap_entries count_differences diff_changes
    attr_rows_to_attributes chunk_entry_attributes partition_entry_attributes merge_entry_attributes
    is_deferred_entry_attribute
tests = tt

abbrev attr : Str → List Str → Attribute
attr name values = record { name = name; values = values }

abbrev before : List Attribute
before = attr (codes "cn") (codes "b" ∷ codes "a" ∷ []) ∷ attr (codes "sn") (codes "x" ∷ []) ∷ []

abbrev after : List Attribute
after = attr (codes "CN") (codes "a" ∷ codes "b" ∷ []) ∷ attr (codes "mail") (codes "m" ∷ []) ∷ []

diff_run : count_differences (diff_ldap_entries ascii_lower before after) ≡ 2
unfolding tests
diff_run = refl

changes_run :
    diff_changes ascii_lower before after
    ≡ record { operation = replace; attribute = codes "CN"; values = codes "a" ∷ codes "b" ∷ [] }
      ∷ record { operation = delete; attribute = codes "sn"; values = [] }
      ∷ record { operation = add; attribute = codes "mail"; values = codes "m" ∷ [] }
      ∷ []
unfolding tests
changes_run = refl

merge_run :
    merge_entry_attributes ascii_lower before (attr (codes "SN") [] ∷ [])
    ≡ attr (codes "cn") (codes "b" ∷ codes "a" ∷ []) ∷ attr (codes "SN") [] ∷ []
unfolding tests
merge_run = refl

rows_run :
    attr_rows_to_attributes ascii_lower (
      record { name = codes " cn"; values_text = 0x61 ∷ 0x0a ∷ 0x61 ∷ []; source_values = none }
      ∷ [])
    ≡ attr (codes "cn") (codes "a" ∷ []) ∷ []
unfolding tests
rows_run = refl

join_all-chunk_entry_attributes_example :
    join_all (chunk_entry_attributes (codes "a" ∷ codes "b" ∷ codes "c" ∷ []) 2)
    ≡ codes "a" ∷ codes "b" ∷ codes "c" ∷ []
join_all-chunk_entry_attributes_example =
    join_all-chunk_entry_attributes (codes "a" ∷ codes "b" ∷ codes "c" ∷ []) 2 (omega arith)

abbrev asked : List Str
asked = codes "mail" ∷ codes "memberOf" ∷ codes "jpegPhoto;x" ∷ codes "title" ∷ []
