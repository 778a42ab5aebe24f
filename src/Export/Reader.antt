-- ===== src/Export/Reader.antt =====
-- A reader of comma-separated values in the form of RFC 4180, independent of the exporter: a cell in
-- quotes has its quotes doubled, and a carriage return outside of quotes begins a line break of two
-- characters.
use dbx_plugin_ldap.Base.{ℕ, List, [], ◌∷◌, Str, ◌==◌, if◌then◌else◌}

pub data Mode : Type 0 where
  fresh plain in_quotes after_quote line_break : Mode

abbrev pub put : ℕ → List (List Str) → List (List Str)
put c [] = ((c ∷ []) ∷ []) ∷ []
put c ([] ∷ rows) = ((c ∷ []) ∷ []) ∷ rows
put c ((cell ∷ cells) ∷ rows) = ((c ∷ cell) ∷ cells) ∷ rows

abbrev pub new_cell : List (List Str) → List (List Str)
new_cell [] = ([] ∷ []) ∷ []
new_cell (cells ∷ rows) = ([] ∷ cells) ∷ rows

abbrev pub new_row : List (List Str) → List (List Str)
new_row rows = ([] ∷ []) ∷ rows

-- The rows from here on, where the first cell is the rest of the one being read.
unfoldable pub read : Mode → Str → List (List Str)
read m [] = ([] ∷ []) ∷ []
read fresh (c ∷ s) =
    let open_quotes = read in_quotes s in
    let cell_end = new_cell (read fresh s) in
    let row_end = read line_break s in
    let text = put c (read plain s) in
    if c == b'"'
    then open_quotes
    else if c == b','
    then cell_end
    else if c == 0x0d
    then row_end
    else text
read plain (c ∷ s) =
    let cell_end = new_cell (read fresh s) in
    let row_end = read line_break s in
    let text = put c (read plain s) in
    if c == b',' then cell_end else if c == 0x0d then row_end else text
read in_quotes (c ∷ s) =
    let close = read after_quote s in
    let text = put c (read in_quotes s) in if c == b'"' then close else text
read after_quote (c ∷ s) =
    let quote = put c (read in_quotes s) in
    let cell_end = new_cell (read fresh s) in
    let row_end = read line_break s in
    if c == b'"' then quote else if c == b',' then cell_end else row_end
read line_break (c ∷ s) = new_row (read fresh s)

unfoldable pub read_csv : Str → List (List Str)
unfolding read
read_csv text = read fresh text
