-- ===== src/Export.antt =====
-- frontend/src/lib/ldapExporter.ts: entries as CSV and as LDIF. A value of an attribute is missing, a
-- list of values or a single one; `none` in a list is a missing value. `lower` is `toLowerCase`, and
-- `inherited` gives the text of what every object has under a name.
pub mod Reader
pub mod Cells
pub mod Columns
pub mod Tests
use dbx_plugin_ldap.Base.{
  ℕ, Bool, true, false, not, ◌&&◌, ◌||◌, Option, none, some, List, [], ◌∷◌, ◌++◌, map, Str, codes,
  str_eq, is_empty, includes, join, is_alpha, ◌==◌, if◌then◌else◌,
}
use mathlib.Core.Option
use dbx_plugin_ldap.Ldif.{LdifEntry, LdifSerializeOptions, serialize_entries_to_ldif}

pub data Raw : Type 0 where
  missing : Raw
  several : List (Option Str) → Raw
  single : Str → Raw

abbrev pub AttributeMap : Type 0
AttributeMap = List (Str × Raw)

pub record LdapExportEntry : Type 0 where
  pub dn : Option Str
  pub upper_dn : Option Str
  pub attributes : Option AttributeMap
  pub attrs : Option AttributeMap
  pub values : Option AttributeMap

pub record CsvSerializeOptions : Type 0 where
  pub columns : List Str
  pub delimiter : Str
  pub include_header : Bool
  pub multivalued_separator : Str

abbrev pub csv_defaults : CsvSerializeOptions
csv_defaults = record {
  columns = [];
  delimiter = codes ",";
  include_header = true;
  multivalued_separator = codes "|";
}

abbrev pub first_some {ℓ} : {A : Type ℓ} → Option A → Option A → Option A
first_some none b = b
first_some (some a) b = some a

abbrev pub or_else {ℓ} : {A : Type ℓ} → Option A → A → A
or_else none a = a
or_else (some b) a = b

unfoldable pub get_attribute_map : LdapExportEntry → AttributeMap
get_attribute_map entry =
    or_else (first_some entry.attributes (first_some entry.attrs entry.values)) []

unfoldable pub get_dn : LdapExportEntry → Str
get_dn entry = or_else (first_some entry.dn entry.upper_dn) []

abbrev pub texts : List (Option Str) → List Str
texts [] = []
texts (item ∷ items) = or_else item [] ∷ texts items

unfoldable pub normalise_to_array : Raw → List Str
normalise_to_array missing = []
normalise_to_array (several items) = texts items
normalise_to_array (single value) = value ∷ []

-- `attrs[attribute]`, of the object's own names.
unfoldable pub own_value : Str → AttributeMap → Option Raw
own_value attribute [] = none
own_value attribute ((key, raw) ∷ attrs) =
    let rest = own_value attribute attrs in if str_eq key attribute then some raw else rest

-- `/^[=@\t]/u` and `/^[+-][A-Za-z(]/u`.
abbrev pub is_formula_operand : Str → Bool
is_formula_operand [] = false
is_formula_operand (d ∷ s) = is_alpha d || d == b'('

unfoldable pub is_formula : Str → Bool
unfolding is_alpha
is_formula [] = false
is_formula (c ∷ s) =
    c == b'=' || c == b'@' || c == 0x09 || ((c == b'+' || c == b'-') && is_formula_operand s)

-- `/[",\r\n]/u`.
abbrev pub is_quote_trigger : ℕ → Bool
is_quote_trigger c = c == b'"' || c == b',' || c == 0x0d || c == 0x0a

abbrev pub any_quote_trigger : Str → Bool
any_quote_trigger [] = false
any_quote_trigger (c ∷ s) = is_quote_trigger c || any_quote_trigger s

-- `text.replace(/"/gu, '""')`.
unfoldable pub double_quotes : Str → Str
double_quotes [] = []
double_quotes (c ∷ s) =
    let rest = double_quotes s in if c == b'"' then b'"' ∷ b'"' ∷ rest else c ∷ rest

unfoldable pub guarded : Str → Str
unfolding is_formula
guarded text = if is_formula text then b'\'' ∷ text else text

unfoldable pub quoted : Str → Str → Str
unfolding double_quotes includes
quoted text multivalued_separator =
    if not (any_quote_trigger text) && not (includes text multivalued_separator)
    then text
    else b'"' ∷ (double_quotes text ++ b'"' ∷ [])

unfoldable pub escape_csv_cell : Str → Str → Str
unfolding guarded quoted
escape_csv_cell text multivalued_separator = quoted (guarded text) multivalued_separator

abbrev pub not_dn : List Str → List Str
not_dn [] = []
not_dn (name ∷ names) =
    if is_empty name || str_eq name (codes "dn") then not_dn names else name ∷ not_dn names

module _ (lower : Str → Str) where
  unfoldable pub folded_value : Str → AttributeMap → Option Raw
  folded_value attribute [] = none
  folded_value attribute ((key, raw) ∷ attrs) =
      let rest = folded_value attribute attrs in
      if str_eq (lower key) (lower attribute) then some raw else rest

  module _ (inherited : Str → Option Str) where
    abbrev pub own_or_inherited : Str → AttributeMap → Option Raw
    own_or_inherited attribute attrs =
        first_some (own_value attribute attrs) (Option.map single (inherited attribute))

    unfoldable pub get_entry_attribute_values : LdapExportEntry → Str → List Str
    unfolding get_attribute_map own_value folded_value normalise_to_array
    get_entry_attribute_values entry attribute =
        if is_empty attribute
        then []
        else normalise_to_array (
            or_else
              (first_some (own_or_inherited attribute (get_attribute_map entry))
                (folded_value attribute (get_attribute_map entry)))
              missing)

  abbrev pub is_seen : Str → List Str → Bool
  is_seen name [] = false
  is_seen name (seen ∷ rest) = str_eq (lower seen) (lower name) || is_seen name rest

  -- The two loops over one entry's names; `seen` holds the names of `ordered` in lower case.
  unfoldable pub collect_names : AttributeMap → List Str → List Str
  collect_names [] ordered = ordered
  collect_names ((key, raw) ∷ attrs) ordered =
      collect_names attrs (if is_seen key ordered then ordered else ordered ++ key ∷ [])

  unfoldable pub collect_all : List LdapExportEntry → List Str → List Str
  unfolding collect_names get_attribute_map
  collect_all [] ordered = ordered
  collect_all (entry ∷ entries) ordered =
      collect_all entries (collect_names (get_attribute_map entry) ordered)

  unfoldable pub extract_entry_attribute_names : List LdapExportEntry → List Str
  unfolding collect_all
  extract_entry_attribute_names entries = collect_all entries []

  abbrev pub data_attributes : List LdapExportEntry → List Str → List Str
  data_attributes entries [] = extract_entry_attribute_names entries
  data_attributes entries (name ∷ names) = not_dn (name ∷ names)

abbrev pub csv_row : CsvSerializeOptions → List Str → Str
csv_row config cells =
    join config.delimiter (map (λ cell. escape_csv_cell cell config.multivalued_separator) cells)

module _ (lower : Str → Str) (inherited : Str → Option Str) (config : CsvSerializeOptions) where
  abbrev pub entry_cells : List Str → LdapExportEntry → List Str
  entry_cells names entry =
      get_dn entry
      ∷ map
          (λ name.
            join config.multivalued_separator
              (get_entry_attribute_values lower inherited entry name))
          names

  abbrev pub csv_rows : List LdapExportEntry → List Str
  csv_rows entries =
      let names = data_attributes lower entries config.columns in
      let rows = map (λ entry. csv_row config (entry_cells names entry)) entries in
      if config.include_header then csv_row config (codes "dn" ∷ names) ∷ rows else rows

  unfoldable pub serialize_entries_to_csv : List LdapExportEntry → Str
  unfolding escape_csv_cell get_dn get_entry_attribute_values extract_entry_attribute_names
  serialize_entries_to_csv entries = join (0x0d ∷ 0x0a ∷ []) (csv_rows entries)

abbrev pub normalised : AttributeMap → List (Str × List Str)
normalised [] = []
normalised ((name, raw) ∷ attrs) = (name, normalise_to_array raw) ∷ normalised attrs

abbrev pub ldif_entries : List LdapExportEntry → List LdifEntry
ldif_entries [] = []
ldif_entries (entry ∷ entries) =
    record { dn = get_dn entry; attributes = normalised (get_attribute_map entry) }
    ∷ ldif_entries entries

unfoldable pub serialize_entries_to_ldif_text :
    (Str → Option Str) → List LdapExportEntry → LdifSerializeOptions → Option Str
unfolding get_dn get_attribute_map normalise_to_array serialize_entries_to_ldif
serialize_entries_to_ldif_text encode entries options =
    serialize_entries_to_ldif encode (ldif_entries entries) options
