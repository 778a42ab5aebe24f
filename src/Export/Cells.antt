-- ===== src/Export/Cells.antt =====
-- `serializeEntriesToCsv` of frontend/src/lib/ldapExporter.ts, read back.
use dbx_plugin_ldap.Base.{
  ◌≡◌, ◌≢◌, inl, inr, refl, sym, ap, ◌∙◌, false, not, ◌&&◌, Option, List, [], ◌∷◌, ◌++◌, map,
  append-nil, append_assoc, arith, All, Str, codes, includes, join, ◌==◌, if◌then◌else◌, Bool-cases,
  ==→eq,
}
use mathlib.Core.Path.{subst}
use mathlib.Core.List.{cons-ne-nil}
use dbx_plugin_ldap.Export.{
  LdapExportEntry, CsvSerializeOptions, is_formula, any_quote_trigger, double_quotes, guarded,
  quoted, escape_csv_cell, data_attributes, csv_row, entry_cells, serialize_entries_to_csv,
}
use dbx_plugin_ldap.Export.Reader.{
  fresh, plain, in_quotes, after_quote, put, new_cell, new_row, read, read_csv,
}

abbrev put_all : Str → List (List Str) → List (List Str)
put_all [] rows = rows
put_all (c ∷ s) rows = put c (put_all s rows)

-- What follows a cell: the end, a comma or a line break.
record IsEnd (rest : Str) : Type 0 where
  after_plain : read plain rest ≡ read fresh rest
  after_quotes : read after_quote rest ≡ read fresh rest

nil-IsEnd : IsEnd []
unfolding read
nil-IsEnd = record { after_plain = refl; after_quotes = refl }

comma-IsEnd : (s : Str) → IsEnd (b',' ∷ s)
unfolding read
comma-IsEnd s = record { after_plain = refl; after_quotes = refl }

break-IsEnd : (s : Str) → IsEnd (0x0d ∷ 0x0a ∷ s)
unfolding read
break-IsEnd s = record { after_plain = refl; after_quotes = refl }

read-plain :
    (t rest : Str)
    → any_quote_trigger t ≡ false
    → read plain (t ++ rest) ≡ put_all t (read plain rest)
unfolding read
read-plain [] rest h = refl
read-plain (c ∷ t) rest h =
    let no_comma : c == b',' ≡ false = ground arith in
    let no_return : c == 0x0d ≡ false = ground arith in
    rw (no_comma, no_return) (ap (put c) (read-plain t rest (ground arith)))

read-unquoted :
    (t rest : Str)
    → any_quote_trigger t ≡ false
    → IsEnd rest
    → read fresh (t ++ rest) ≡ put_all t (read fresh rest)
unfolding read
read-unquoted [] rest h e = refl
read-unquoted (c ∷ t) rest h e =
    let no_quote : c == b'"' ≡ false = ground arith in
    let no_comma : c == b',' ≡ false = ground arith in
    let no_return : c == 0x0d ≡ false = ground arith in
    rw (no_quote, no_comma, no_return)
      (ap (put c) (read-plain t rest (ground arith) ∙ ap (put_all t) e.after_plain))

read-in_quotes :
    (t rest : Str)
    → read in_quotes (double_quotes t ++ b'"' ∷ rest) ≡ put_all t (read after_quote rest)
unfolding read double_quotes
read-in_quotes [] rest = refl
read-in_quotes (c ∷ t) rest = elim (Bool-cases (c == b'"')) [
  | inl e ↦
      let same : c ≡ b'"' = ==→eq c _ e in
      rw e (
        ap (put b'"') (read-in_quotes t rest)
        ∙ ap (λ d. put d (put_all t (read after_quote rest))) (sym same))
  | inr e ↦ rw (e, e) (ap (put c) (read-in_quotes t rest))
]

opened : (s : Str) → read fresh (b'"' ∷ s) ≡ read in_quotes s
unfolding read
opened s = refl

-- An escaped cell is read as its guarded text.
read-escape_csv_cell :
    (text separator rest : Str)
    → IsEnd rest
    → read fresh (escape_csv_cell text separator ++ rest) ≡ put_all (guarded text) (read fresh rest)
unfolding escape_csv_cell quoted
read-escape_csv_cell text separator rest e =
    elim (Bool-cases
      (not (any_quote_trigger (guarded text)) && not (includes (guarded text) separator))) [
        | inl q ↦ rw q (read-unquoted (guarded text) rest (ground arith) e)
        | inr q ↦ rw q (
            ap (read fresh)
              (ap (λ s. b'"' ∷ s) (append_assoc (double_quotes (guarded text)) (b'"' ∷ []) rest))
            ∙ opened (double_quotes (guarded text) ++ b'"' ∷ rest)
            ∙ read-in_quotes (guarded text) rest
            ∙ ap (put_all (guarded text)) e.after_quotes)
      ]

put_all-row :
    (t : Str) (cells : List Str) (rows : List (List Str))
    → put_all t (([] ∷ cells) ∷ rows) ≡ (t ∷ cells) ∷ rows
put_all-row [] cells rows = refl
put_all-row (c ∷ t) cells rows = ap (put c) (put_all-row t cells rows)

-- A row before the end or a line break.
read-row :
    (cell : Str) (cells : List Str) (separator rest : Str) (rows : List (List Str))
    → IsEnd rest
    → read fresh rest ≡ new_row rows
    → read fresh (join (codes ",") (map (λ c. escape_csv_cell c separator) (cell ∷ cells)) ++ rest)
      ≡ map guarded (cell ∷ cells) ∷ rows
unfolding read
read-row cell [] separator rest rows e h =
    read-escape_csv_cell cell separator rest e
    ∙ ap (put_all (guarded cell)) h
    ∙ put_all-row (guarded cell) [] rows
read-row cell (next ∷ cells) separator rest rows e h =
    let later = join (codes ",") (map (λ c. escape_csv_cell c separator) (next ∷ cells)) in
    ap (read fresh) (append_assoc (escape_csv_cell cell separator) (b',' ∷ later) rest)
    ∙ read-escape_csv_cell cell separator (b',' ∷ (later ++ rest)) (comma-IsEnd (later ++ rest))
    ∙ ap (λ r. put_all (guarded cell) (new_cell r)) (read-row next cells separator rest rows e h)
    ∙ put_all-row (guarded cell) (map guarded (next ∷ cells)) rows

read-line :
    (config : CsvSerializeOptions) (row : List Str) (rest : Str) (rows : List (List Str))
    → config.delimiter ≡ codes ","
    → row ≢ []
    → IsEnd rest
    → read fresh rest ≡ new_row rows
    → read fresh (csv_row config row ++ rest) ≡ map guarded row ∷ rows
read-line config [] rest rows d filled e h = absurd (filled refl)
read-line config (cell ∷ cells) rest rows d filled e h =
    ap
      (λ s.
        read fresh (
          join s (map (λ c. escape_csv_cell c config.multivalued_separator) (cell ∷ cells))
          ++ rest))
      d
    ∙ (read-row cell cells config.multivalued_separator rest rows e h)

-- Rows with a cell at least, each escaped and joined, are read as the guarded cells.
read-rows :
    (config : CsvSerializeOptions) (row : List Str) (rows : List (List Str))
    → config.delimiter ≡ codes ","
    → All (λ r. r ≢ []) (row ∷ rows)
    → read_csv (join (0x0d ∷ 0x0a ∷ []) (map (csv_row config) (row ∷ rows)))
      ≡ map (map guarded) (row ∷ rows)
unfolding read_csv read
read-rows config row [] d (filled, _) =
    ap (read fresh) (sym (append-nil (csv_row config row)))
    ∙ read-line config row [] [] d filled nil-IsEnd refl
read-rows config row (next ∷ rows) d (filled, more) =
    let later = join (0x0d ∷ 0x0a ∷ []) (map (csv_row config) (next ∷ rows)) in
    read-line config row (0x0d ∷ 0x0a ∷ later) (map (map guarded) (next ∷ rows)) d filled
      (break-IsEnd later) (ap new_row (read-rows config next rows d more))

guarded-safe : (t : Str) → is_formula (guarded t) ≡ false
unfolding guarded
guarded-safe t = elim (Bool-cases (is_formula t)) [ inl e ↦ rw e refl | inr e ↦ rw (e, e) refl ]

map-All {ℓ} :
    {A B : Type 0} (P : B → Type ℓ) (f : A → B) (xs : List A)
    → ((x : A) → P (f x))
    → All P (map f xs)
map-All P f [] h = tt
map-All P f (x ∷ xs) h = (h x, map-All P f xs h)

map_twice :
    {A B C : Type 0} (g : B → C) (f : A → B) (xs : List A)
    → map (λ x. g (f x)) xs ≡ map g (map f xs)
map_twice g f [] = refl
map_twice g f (x ∷ xs) = ap (λ ys. g (f x) ∷ ys) (map_twice g f xs)

filled_rows :
    (rows : List (List Str)) (config : CsvSerializeOptions)
    → config.delimiter ≡ codes ","
    → rows ≢ []
    → All (λ r. r ≢ []) rows
    → read_csv (join (0x0d ∷ 0x0a ∷ []) (map (csv_row config) rows)) ≡ map (map guarded) rows
filled_rows [] config d n h = absurd (n refl)
filled_rows (row ∷ rows) config d n h = read-rows config row rows d h

module _ (lower : Str → Str) (inherited : Str → Option Str) (config : CsvSerializeOptions) where
  abbrev table_rows : List Str → List LdapExportEntry → List (List Str)
  table_rows names entries = map (entry_cells lower inherited config names) entries

  -- The cells of the exported table, before the escaping.
  abbrev pub csv_table : List LdapExportEntry → List (List Str)
  csv_table entries =
      let names = data_attributes lower entries config.columns in
      if config.include_header
      then (codes "dn" ∷ names) ∷ table_rows names entries
      else table_rows names entries

  table_rows-filled :
      (names : List Str) (entries : List LdapExportEntry)
      → All (λ r. r ≢ []) (table_rows names entries)
  table_rows-filled names entries =
      map-All (λ r. r ≢ []) (entry_cells lower inherited config names) entries
        (λ entry. cons-ne-nil _ _)

  -- Reading an export back gives each cell of its table, with an apostrophe before each that would
  -- be taken for a formula, where the delimiter is a comma and the table has a row.
  pub read_csv-serialize_entries_to_csv :
      (entries : List LdapExportEntry)
      → config.delimiter ≡ codes ","
      → csv_table entries ≢ []
      → read_csv (serialize_entries_to_csv lower inherited config entries)
        ≡ map (map guarded) (csv_table entries)
  unfolding serialize_entries_to_csv
  read_csv-serialize_entries_to_csv entries d n =
      let names = data_attributes lower entries config.columns in
      let rows = map_twice (csv_row config) (entry_cells lower inherited config names) entries in
      elim (Bool-cases config.include_header) [
        | inl e ↦
            rw (serialize_entries_to_csv, e)
              (ap
                  (λ ls.
                    read_csv (join (0x0d ∷ 0x0a ∷ []) (csv_row config (codes "dn" ∷ names) ∷ ls)))
                  rows
                ∙ filled_rows ((codes "dn" ∷ names) ∷ table_rows names entries) config d
                    (cons-ne-nil _ _) (cons-ne-nil _ _, table_rows-filled names entries))
        | inr e ↦
            rw (serialize_entries_to_csv, e)
              (ap (λ ls. read_csv (join (0x0d ∷ 0x0a ∷ []) ls)) rows
                ∙ filled_rows (table_rows names entries) config d
                    (subst
                      (λ b.
                        (if b
                          then (codes "dn" ∷ names) ∷ table_rows names entries
                          else table_rows names entries)
                        ≢ [])
                      e n)
                    (table_rows-filled names entries))
      ]

  -- No cell of an export, as it is read back, begins the way a formula does, where the delimiter is
  -- a comma and the table has a row.
  pub serialize_entries_to_csv-safe :
      (entries : List LdapExportEntry)
      → config.delimiter ≡ codes ","
      → csv_table entries ≢ []
      → All
          (All (λ cell. is_formula cell ≡ false))
          (read_csv (serialize_entries_to_csv lower inherited config entries))
  serialize_entries_to_csv-safe entries d n =
      subst (All (All (λ cell. is_formula cell ≡ false)))
        (sym (read_csv-serialize_entries_to_csv entries d n))
        (map-All (All (λ cell. is_formula cell ≡ false)) (map guarded) (csv_table entries)
          (λ row. map-All (λ cell. is_formula cell ≡ false) guarded row guarded-safe))
