-- ===== src/Ldif.antt =====
-- frontend/src/lib/ldif.ts: LDIF export and import of entries.
-- `encode` and `decode` are `encodeBase64Utf8` and `decodeBase64Utf8`, which stand on the platform's
-- `btoa`, `atob` and URI functions; `none` is a thrown error. Numbers of lines and widths are natural,
-- and `version` is the printed version number.
pub mod Parse
pub mod Fold
pub mod Unfold
pub mod Attribute
pub mod Reach
pub mod Reading
pub mod RoundTrip
pub mod Tests
use dbx_plugin_ldap.Base.{
  ℕ, zero, suc, ◌+◌, ◌-◌, Bool, true, false, not, ◌&&◌, ◌||◌, Option, none, some, List, [], ◌∷◌,
  ◌++◌, length, take, drop, Str, codes, join, ltb, leb, ◌==◌, if◌then◌else◌,
}
use Prim.Native.Nat.{max}

pub record LdifEntry : Type 0 where
  pub dn : Str
  pub attributes : List (Str × List Str)

pub data Message : Type 0 where
  base64_decode_failed changetype_not_supported : Message
  malformed_line : Str → Message
  before_dn : Str → Message

pub record LdifParseError : Type 0 where
  pub line : ℕ
  pub message : Message

pub record LdifSerializeOptions : Type 0 where
  pub version : Str
  pub line_width : ℕ
  pub include_version : Bool

abbrev pub default_options : LdifSerializeOptions
default_options = record { version = codes "1"; line_width = 76; include_version = true }

abbrev pub lf : ℕ
lf = 0x0a

abbrev pub cr : ℕ
cr = 0x0d

abbrev pub space : ℕ
space = 0x20

unfoldable pub is_unsafe_char : ℕ → Bool
is_unsafe_char code =
    code == 0x00
    || code == 0x0a
    || code == 0x0d
    || (ltb code 0x20 && not (code == 0x09))
    || ltb 0x7e code

abbrev pub any_unsafe : Str → Bool
any_unsafe [] = false
any_unsafe (c ∷ s) = is_unsafe_char c || any_unsafe s

-- `value.charCodeAt(value.length - 1) === 0x20`, for a text that is not empty.
abbrev pub ends_with_space : ℕ → Str → Bool
ends_with_space c [] = c == 0x20
ends_with_space c (d ∷ s) = ends_with_space d s

unfoldable pub needs_base64 : Str → Bool
unfolding is_unsafe_char
needs_base64 [] = false
needs_base64 (first ∷ s) =
    (first == 0x20 || first == 0x09 || first == 0x3a || first == 0x3c || first == 0x00)
    || (ends_with_space first s || any_unsafe (first ∷ s))

-- The loop of `foldLine`; `rest` is `line.slice(offset)`. A round takes a character at least.
unfoldable pub fold_rest : ℕ → ℕ → Str → List Str
fold_rest zero content_per_line rest = []
fold_rest (suc fuel) content_per_line [] = []
fold_rest (suc fuel) content_per_line (c ∷ rest) =
    (space ∷ take content_per_line (c ∷ rest))
    ∷ fold_rest fuel content_per_line (drop content_per_line (c ∷ rest))

-- The physical lines of a logical line.
unfoldable pub fold_parts : Str → ℕ → List Str
unfolding fold_rest
fold_parts line line_width =
    if leb (length line) line_width
    then line ∷ []
    else take line_width line
      ∷ fold_rest (length line) (max 1 (line_width - 1)) (drop line_width line)

unfoldable pub fold_line : Str → ℕ → Str
unfolding fold_parts
fold_line line line_width = join (lf ∷ []) (fold_parts line line_width)

infixl 5 ◌>>=◌
abbrev pub ◌>>=◌ {ℓ κ} : {A : Type ℓ} {B : Type κ} → Option A → (A → Option B) → Option B
none >>= f = none
some a >>= f = f a

module _ (encode : Str → Option Str) where
  -- `name: value`, or `name:: base64`.
  unfoldable pub attribute_text : Str → Str → Option Str
  unfolding needs_base64
  attribute_text name value =
      if needs_base64 value
      then encode value >>= (λ b. some (name ++ (codes ":: " ++ b)))
      else some (name ++ (codes ": " ++ value))

  unfoldable pub serialize_attribute_line : Str → Str → ℕ → Option Str
  unfolding attribute_text fold_line
  serialize_attribute_line name value line_width = do
    text ← attribute_text name value
    some (fold_line text line_width)

  unfoldable pub serialize_dn_line : Str → ℕ → Option Str
  unfolding serialize_attribute_line
  serialize_dn_line dn line_width = serialize_attribute_line (codes "dn") dn line_width

  unfoldable pub serialize_values : Str → List Str → ℕ → Option (List Str)
  unfolding serialize_attribute_line
  serialize_values name [] line_width = some []
  serialize_values name (value ∷ values) line_width = do
    line ← serialize_attribute_line name value line_width
    lines ← serialize_values name values line_width
    some (line ∷ lines)

  unfoldable pub serialize_attributes : List (Str × List Str) → ℕ → Option (List Str)
  unfolding serialize_values
  serialize_attributes [] line_width = some []
  serialize_attributes ((name, values) ∷ attrs) line_width = do
    lines ← serialize_values name values line_width
    more ← serialize_attributes attrs line_width
    some (lines ++ more)

  unfoldable pub serialize_entry : LdifEntry → ℕ → Option (List Str)
  unfolding serialize_dn_line serialize_attributes
  serialize_entry entry line_width = do
    dn_line ← serialize_dn_line entry.dn line_width
    lines ← serialize_attributes entry.attributes line_width
    some (dn_line ∷ lines)

  -- `blank` is `idx > 0 || includeVersion`.
  unfoldable pub serialize_entries : Bool → List LdifEntry → ℕ → Option (List Str)
  unfolding serialize_entry
  serialize_entries blank [] line_width = some []
  serialize_entries blank (entry ∷ entries) line_width = do
    lines ← serialize_entry entry line_width
    more ← serialize_entries true entries line_width
    some ((if blank then [] ∷ lines else lines) ++ more)

  unfoldable pub serialize_entries_to_ldif : List LdifEntry → LdifSerializeOptions → Option Str
  unfolding serialize_entries
  serialize_entries_to_ldif entries options = do
    lines ← serialize_entries options.include_version entries options.line_width
    some (
        join (lf ∷ []) (
          if options.include_version
          then (codes "version: " ++ options.version) ∷ lines
          else lines))

pub record UnfoldedLine : Type 0 where
  pub line : Str
  pub start_line : ℕ
  pub is_blank : Bool
  pub is_comment : Bool

-- `text.split(/\r\n|\r|\n/)`.
abbrev pub cons_first : ℕ → List Str → List Str
cons_first c [] = (c ∷ []) ∷ []
cons_first c (p ∷ ps) = (c ∷ p) ∷ ps

unfoldable pub split_lines : Str → List Str
split_lines [] = [] ∷ []
split_lines (c ∷ []) = if c == lf || c == cr then [] ∷ [] ∷ [] else (c ∷ []) ∷ []
split_lines (c ∷ d ∷ s) =
    let after_two = split_lines s in
    let after_one = split_lines (d ∷ s) in
    if c == cr && d == lf
    then [] ∷ after_two
    else if c == lf || c == cr
    then [] ∷ after_one
    else cons_first c after_one

unfoldable pub new_line : Str → ℕ → UnfoldedLine
new_line [] i = record { line = []; start_line = i + 1; is_blank = true; is_comment = false }
new_line (c ∷ raw) i = record {
  line = c ∷ raw;
  start_line = i + 1;
  is_blank = false;
  is_comment = c == b'#';
}

-- A continuation line, if there is a line to continue.
unfoldable pub continued : Option UnfoldedLine → Str → Option UnfoldedLine
continued none raw = none
continued (some current) [] = none
continued (some current) (c ∷ raw) =
    if c == space && not current.is_blank
    then some
        (record current { line = current.line ++ (if current.is_comment then c ∷ raw else raw) })
    else none

abbrev pub pushed : Option UnfoldedLine → List UnfoldedLine → List UnfoldedLine
pushed none out = out
pushed (some current) out = current ∷ out

-- The loop of `unfoldLines` from the physical line `i` on, and the lines that it pushes.
unfoldable pub unfold_from : ℕ → Option UnfoldedLine → List Str → List UnfoldedLine
unfolding continued new_line
unfold_from i current [] = pushed current []
unfold_from i current (raw ∷ physical) = elim (continued current raw) [
  | some joined ↦ unfold_from (i + 1) (some joined) physical
  | none ↦ pushed current (unfold_from (i + 1) (some (new_line raw i)) physical)
]

unfoldable pub unfold_lines : Str → List UnfoldedLine
unfolding split_lines unfold_from
unfold_lines text = unfold_from 0 none (split_lines text)
