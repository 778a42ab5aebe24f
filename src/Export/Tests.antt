-- ===== src/Export/Tests.antt =====
-- Exports of frontend/src/lib/ldapExporter.ts at concrete inputs.
use dbx_plugin_ldap.Base.{
  ◌≡◌, refl, false, Option, none, some, List, [], ◌∷◌, ◌++◌, map, All, Str, codes, is_alpha,
  lower_char, ascii_lower,
}
use mathlib.Core.List.{cons-ne-nil}
use dbx_plugin_ldap.Export.{
  LdapExportEntry, several, single, csv_defaults, CsvSerializeOptions, is_formula, guarded,
  extract_entry_attribute_names, get_entry_attribute_values, serialize_entries_to_csv,
}
use dbx_plugin_ldap.Export.Reader.{read_csv}
use dbx_plugin_ldap.Export.Cells.{
  csv_table, read_csv-serialize_entries_to_csv, serialize_entries_to_csv-safe,
}
use dbx_plugin_ldap.Export.Columns.{AreCovered, AreNew, extract_entry_attribute_names-AreCovered}

tests : Unit {0}
unfolding serialize_entries_to_csv get_entry_attribute_values extract_entry_attribute_names read_csv
    guarded lower_char is_alpha
tests = tt

abbrev nothing : Str → Option Str
nothing name = none

abbrev entries : List LdapExportEntry
entries =
    record {
      dn = some (codes "o=x,c=y");
      upper_dn = none;
      attributes = some ((codes "cn", several (some (codes "=1") ∷ some (codes "b") ∷ [])) ∷ []);
      attrs = none;
      values = none;
    }
    ∷ record {
      dn = none;
      upper_dn = some (codes "z");
      attributes = none;
      attrs = some ((codes "CN", single (codes "say \"hi\"")) ∷ (codes "sn", several []) ∷ []);
      values = none;
    }
    ∷ []

csv_runs :
    serialize_entries_to_csv ascii_lower nothing csv_defaults entries
    ≡ codes "dn,cn,sn"
      ++ 0x0d
        ∷ 0x0a
        ∷ (codes "\"o=x,c=y\",\"'=1|b\"," ++ 0x0d ∷ 0x0a ∷ codes "z,\"say \"\"hi\"\"\",")
unfolding tests
csv_runs = refl

-- With another delimiter, a cell that holds it is not quoted.
abbrev semicolons : CsvSerializeOptions
semicolons = record csv_defaults { delimiter = codes ";"; include_header = false }

semicolon_runs :
    serialize_entries_to_csv ascii_lower nothing semicolons (
      record {
        dn = some (codes "a;b");
        upper_dn = none;
        attributes = some ((codes "cn", single (codes "c")) ∷ []);
        attrs = none;
        values = none;
      }
      ∷ [])
    ≡ codes "a;b;c"
unfolding tests
semicolon_runs = refl

read_csv-serialize_entries_to_csv_example :
    read_csv (serialize_entries_to_csv ascii_lower nothing csv_defaults entries)
    ≡ map (map guarded) (csv_table ascii_lower nothing csv_defaults entries)
read_csv-serialize_entries_to_csv_example =
    read_csv-serialize_entries_to_csv ascii_lower nothing csv_defaults entries refl
      (cons-ne-nil _ _)

serialize_entries_to_csv-safe_example :
    All
      (All (λ cell. is_formula cell ≡ false))
      (read_csv (serialize_entries_to_csv ascii_lower nothing csv_defaults entries))
serialize_entries_to_csv-safe_example =
    serialize_entries_to_csv-safe ascii_lower nothing csv_defaults entries refl (cons-ne-nil _ _)

extract_entry_attribute_names-AreCovered_example :
    AreCovered ascii_lower (extract_entry_attribute_names ascii_lower entries) entries
    × AreNew ascii_lower [] (extract_entry_attribute_names ascii_lower entries)
extract_entry_attribute_names-AreCovered_example =
    extract_entry_attribute_names-AreCovered ascii_lower entries
