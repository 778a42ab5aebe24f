-- ===== src/Ldif/Parse.antt =====
-- `parseAttributeLine` and `parseLdif` of frontend/src/lib/ldif.ts. Names that pass the name test are
-- ASCII, so `toLowerCase` on them is `ascii_lower`.
use dbx_plugin_ldap.Base.{
  ℕ, Bool, true, false, ◌&&◌, ◌||◌, Option, none, some, List, [], ◌∷◌, ◌++◌, take, drop, Str, codes,
  str_eq, is_empty, starts_with, trim_start, ◌==◌, if◌then◌else◌, ascii_lower,
}
use dbx_plugin_ldap.Description.{matches_description}
use dbx_plugin_ldap.Ldif.{
  LdifEntry, Message, base64_decode_failed, changetype_not_supported, malformed_line, before_dn,
  LdifParseError, UnfoldedLine, unfold_lines,
}

pub data ParsedLine : Type 0 where
  malformed failed : ParsedLine
  parsed : (name value : Str) → ParsedLine

abbrev pub put_front : ℕ → Option (Str × Str) → Option (Str × Str)
put_front c none = none
put_front c (some (name, rest)) = some (c ∷ name, rest)

-- The line cut at its first colon.
unfoldable pub cut_at_colon : Str → Option (Str × Str)
cut_at_colon [] = none
cut_at_colon (c ∷ s) =
    let later = put_front c (cut_at_colon s) in if c == b':' then some ([], s) else later

-- `rest.replace(/^[ \t]+/, '')`.
unfoldable pub skip_blanks : Str → Str
skip_blanks [] = []
skip_blanks (c ∷ s) = if c == 0x20 || c == 0x09 then skip_blanks s else c ∷ s

-- The methods that every object has: `attributes[name]` is found there for these names, and has no
-- `push`, so that the call throws.
abbrev pub inherited_names : List Str
inherited_names =
    codes "constructor"
    ∷ codes "hasOwnProperty"
    ∷ codes "isPrototypeOf"
    ∷ codes "propertyIsEnumerable"
    ∷ codes "toLocaleString"
    ∷ codes "toString"
    ∷ codes "valueOf"
    ∷ []

abbrev pub has_name : Str → List Str → Bool
has_name name [] = false
has_name name (n ∷ names) = str_eq n name || has_name name names

-- `attributes[name].push(value)`, the array made first where the name is new.
unfoldable pub push_value : Str → Str → List (Str × List Str) → List (Str × List Str)
push_value name value [] = (name, value ∷ []) ∷ []
push_value name value ((n, values) ∷ attrs) =
    let rest = push_value name value attrs in
    if str_eq n name then (n, values ++ value ∷ []) ∷ attrs else (n, values) ∷ rest

pub record Progress : Type 0 where
  pub entries : List LdifEntry
  pub errors : List LdifParseError
  pub entry : Option LdifEntry
  pub entry_has_error : Bool

pub data Outcome : Type 0 where
  result : (entries : List LdifEntry) (errors : List LdifParseError) → Outcome
  type_error : Outcome

abbrev pub kept : Option LdifEntry → Bool → List LdifEntry → List LdifEntry
kept none has_error entries = entries
kept (some e) true entries = entries
kept (some e) false entries = entries ++ e ∷ []

unfoldable pub flush : Progress → Progress
flush p = record {
  entries = kept p.entry p.entry_has_error p.entries;
  errors = p.errors;
  entry = none;
  entry_has_error = false;
}

unfoldable pub report : ℕ → Message → Progress → Progress
report line message p = record p {
  errors = p.errors ++ record { line = line; message = message } ∷ [];
  entry_has_error = true;
}

-- `/^version\s*:/i`.
abbrev pub skip_spaces : Str → Str
skip_spaces = trim_start

unfoldable pub is_version_line : Str → Bool
is_version_line line =
    str_eq (ascii_lower (take 7 line)) (codes "version")
    && starts_with (skip_spaces (drop 7 line)) (codes ":")

abbrev pub is_none : Option LdifEntry → Bool
is_none none = true
is_none (some e) = false

-- `none` is the TypeError of the `push` on an inherited method.
abbrev pub add_value : ℕ → Str → Str → Progress → Option LdifEntry → Option Progress
add_value line name value p none = some (report line (before_dn name) p)
add_value line name value p (some e) =
    if has_name name inherited_names
    then none
    else some
        (record p { entry = some (record e { attributes = push_value name value e.attributes }) })

unfoldable pub start_entry : Str → Progress → Progress
unfolding flush
start_entry dn p =
    let q = if is_none p.entry then p else flush p in
    record q { entry_has_error = false; entry = some (record { dn = dn; attributes = [] }) }

unfoldable pub take_parsed : ℕ → Str → ParsedLine → Progress → Option Progress
unfolding report push_value start_entry
take_parsed start_line line failed p = some (report start_line base64_decode_failed p)
take_parsed start_line line malformed p = some (report start_line (malformed_line line) p)
take_parsed start_line line (parsed name value) p =
    if str_eq (ascii_lower name) (codes "changetype")
    then some (report start_line changetype_not_supported p)
    else if str_eq (ascii_lower name) (codes "dn")
    then some (start_entry value p)
    else add_value start_line name value p p.entry

abbrev pub strip_colon : Str → Bool × Str
strip_colon [] = (false, [])
strip_colon (c ∷ s) = if c == b':' then (true, s) else (false, c ∷ s)

abbrev pub finish : Option Progress → Outcome
finish none = type_error
finish (some p) = let q = flush p in result q.entries q.errors

abbrev pub no_progress : Progress
no_progress = record { entries = []; errors = []; entry = none; entry_has_error = false }

module _ (decode : Str → Option Str) where
  abbrev pub decoded : Str → Option Str → ParsedLine
  decoded name none = failed
  decoded name (some value) = parsed name value

  abbrev pub parse_rest : Str → Bool × Str → ParsedLine
  parse_rest name (true, rest) = decoded name (decode (skip_blanks rest))
  parse_rest name (false, rest) = parsed name (skip_blanks rest)

  abbrev pub parse_cut : Option (Str × Str) → ParsedLine
  parse_cut none = malformed
  parse_cut (some (name, rest)) =
      if is_empty name
      then malformed
      else if matches_description name
      then parse_rest name (strip_colon rest)
      else malformed

  unfoldable pub parse_attribute_line : Str → ParsedLine
  unfolding cut_at_colon skip_blanks matches_description
  parse_attribute_line line = parse_cut (cut_at_colon line)

  -- One round of the loop of `parseLdif`.
  unfoldable pub parse_step : UnfoldedLine → Progress → Option Progress
  unfolding parse_attribute_line is_version_line take_parsed
  parse_step item p =
      if item.is_comment
      then some p
      else if item.is_blank
      then some (flush p)
      else if is_none p.entry && is_version_line item.line
      then some p
      else take_parsed item.start_line item.line (parse_attribute_line item.line) p

  unfoldable pub parse_lines : List UnfoldedLine → Option Progress → Option Progress
  unfolding parse_step
  parse_lines [] p = p
  parse_lines (item ∷ items) none = none
  parse_lines (item ∷ items) (some p) = parse_lines items (parse_step item p)

  unfoldable pub parse_ldif : Str → Outcome
  unfolding unfold_lines parse_lines
  parse_ldif text =
      if is_empty text
      then result [] []
      else finish (parse_lines (unfold_lines text) (some no_progress))
