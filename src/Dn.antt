-- ===== src/Dn.antt =====
-- frontend/src/lib/dn.ts: escape-aware splitting, checking and joining of distinguished names.
-- A string is a list of UTF-16 code units, and an index of -1 is `none`.
pub mod Scan
pub mod Split
pub mod Trim
pub mod Join
pub mod Within
pub mod Value
pub mod Tests
use dbx_plugin_ldap.Base.{
  ℕ, zero, suc, ◌+◌, ◌-◌, ◌%◌, Bool, true, false, not, ◌&&◌, ◌||◌, Option, none, some, List, [],
  ◌∷◌, ◌++◌, map, reverse, length, take, drop, all, Str, codes, is_space, is_hex, is_alpha,
  is_digit, is_empty, trim_start, trim, join, elem, str_eq, ltb, leb, ◌==◌, if◌then◌else◌,
}

abbrev pub backslash : ℕ
backslash = b'\\'

abbrev pub quote : ℕ
quote = b'"'

abbrev pub comma : ℕ
comma = b','

-- The backslashes at the head, counted.
unfoldable pub slashes : Str → ℕ
slashes [] = 0
slashes (c ∷ s) = let more = suc (slashes s) in if c == backslash then more else 0

-- The loop over `end` of `trimToString`: the text before `end` is read backwards, so that its last
-- character is the head.
unfoldable pub trim_back : Str → Str
unfolding slashes
trim_back [] = []
trim_back (c ∷ s) =
    let shorter = trim_back s in if is_space c && slashes s % 2 == 0 then shorter else c ∷ s

unfoldable pub trim_to_string : Str → Str
unfolding trim_back
trim_to_string value = reverse (trim_back (reverse (trim_start value)))

-- What `hasValidEscapesAndQuotes` expects next: `++index` after a backslash and after its first
-- hexadecimal digit.
pub data Expect : Type 0 where
  plain escape digit : Expect

-- `' ,+"\\<>;=#'.includes(next)`.
unfoldable pub is_escapable : ℕ → Bool
is_escapable c = elem c (codes " ,+\"\\<>;=#")

unfoldable pub valid_from : Expect → Bool → Str → Bool
unfolding is_escapable
valid_from plain quoted [] = not quoted
valid_from escape quoted [] = false
valid_from digit quoted [] = false
valid_from plain quoted (c ∷ s) =
    let after_slash = valid_from escape quoted s in
    let after_quote = valid_from plain (not quoted) s in
    let after_char = valid_from plain quoted s in
    if c == backslash
    then after_slash
    else if c == quote
    then after_quote
    else if c == 0
    then false
    else after_char
valid_from escape quoted (c ∷ s) =
    let after_digit = valid_from digit quoted s in
    let after_char = valid_from plain quoted s in
    if is_hex c then after_digit else if is_escapable c then after_char else false
valid_from digit quoted (c ∷ s) =
    let after_digit = valid_from plain quoted s in if is_hex c then after_digit else false

unfoldable pub has_valid_escapes_and_quotes : Str → Bool
unfolding valid_from
has_valid_escapes_and_quotes text = valid_from plain false text

-- The loop of `findTopLevelChar`, from `index` on.
unfoldable pub find_from : Str → ℕ → Bool → Bool → Str → Option ℕ
find_from targets index escaped quoted [] = none
find_from targets index escaped quoted (c ∷ s) =
    let after_escaped = find_from targets (index + 1) false quoted s in
    let after_slash = find_from targets (index + 1) true quoted s in
    let after_quote = find_from targets (index + 1) false (not quoted) s in
    let after_char = find_from targets (index + 1) false quoted s in
    if escaped
    then after_escaped
    else if c == backslash
    then after_slash
    else if c == quote
    then after_quote
    else if not quoted && elem c targets
    then some index
    else after_char

unfoldable pub find_top_level_char : Str → Str → Option ℕ
unfolding find_from
find_top_level_char source targets = find_from targets 0 false false source

-- The loop of `splitTopLevel`: `rest` is `text.slice(offset)`, and each round but the last moves
-- `offset` forward, so one round more than the text has characters is enough.
unfoldable pub split_rounds : ℕ → ℕ → Str → List Str
split_rounds zero separator rest = []
split_rounds (suc fuel) separator rest = elim (find_top_level_char rest (separator ∷ [])) [
  | none ↦ rest ∷ []
  | some next ↦ take next rest ∷ split_rounds fuel separator (drop (suc next) rest)
]

unfoldable pub split_top_level : Str → ℕ → List Str
unfolding split_rounds find_top_level_char
split_top_level source separator = split_rounds (suc (length source)) separator source

pub record DnSplit : Type 0 where
  pub rdn : Str
  pub parent_dn : Str

abbrev pub split_at : Str → Option ℕ → DnSplit
split_at text none = record { rdn = text; parent_dn = [] }
split_at text (some i) = record {
  rdn = trim_to_string (take i text);
  parent_dn = trim_to_string (drop (suc i) text);
}

unfoldable pub split_first_dn_rdn : Str → DnSplit
unfolding trim_to_string find_top_level_char
split_first_dn_rdn dn =
    let text = trim_to_string dn in
    if is_empty text
    then record { rdn = []; parent_dn = [] }
    else split_at text (find_top_level_char text (comma ∷ []))

-- The tests of `isLikelyRdn` on one component: `/^(?:[a-z][a-z0-9-]*|[0-9]+(?:\.[0-9]+)+)$/iu`.
-- Under the flags `iu` the class `[a-z]` also takes U+017F and U+212A.
unfoldable pub is_alpha_fold : ℕ → Bool
is_alpha_fold c = is_alpha c || c == 0x17f || c == 0x212a

unfoldable pub is_keystring : Str → Bool
unfolding is_alpha_fold
is_keystring [] = false
is_keystring (c ∷ s) = is_alpha_fold c && all (λ d. is_alpha_fold d || is_digit d || d == b'-') s

-- `[0-9]+(?:\.[0-9]+)+`: `digits` tells that the current arc has a digit, `dotted` that a dot was read.
unfoldable pub is_oid_from : Bool → Bool → Str → Bool
is_oid_from digits dotted [] = digits && dotted
is_oid_from digits dotted (c ∷ s) =
    let next = is_oid_from true dotted s in
    let arc = is_oid_from false true s in
    if is_digit c then next else if c == b'.' && digits then arc else false

unfoldable pub is_oid : Str → Bool
unfolding is_oid_from
is_oid s = is_oid_from false false s

abbrev pub component_at : Str → Option ℕ → Bool
component_at component none = false
component_at component (some i) =
    ltb 0 i
    && ((is_keystring (trim (take i component)) || is_oid (trim (take i component)))
        && not (is_empty (trim (drop (suc i) component))))

unfoldable pub is_likely_component : Str → Bool
unfolding is_keystring is_oid find_top_level_char
is_likely_component component = component_at component (find_top_level_char component (b'=' ∷ []))

abbrev pub is_none : Option ℕ → Bool
is_none none = true
is_none (some i) = false

unfoldable pub is_likely_rdn : Str → Bool
unfolding trim_to_string has_valid_escapes_and_quotes find_top_level_char split_top_level
    is_likely_component
is_likely_rdn value =
    let rdn = trim_to_string value in
    not (is_empty rdn)
    && (has_valid_escapes_and_quotes rdn
        && (is_none (find_top_level_char rdn (comma ∷ []))
            && all is_likely_component (map trim_to_string (split_top_level rdn b'+'))))

unfoldable pub is_likely_dn : Str → Bool
unfolding is_likely_rdn
is_likely_dn value =
    let dn = trim_to_string value in
    not (is_empty dn) && all is_likely_rdn (split_top_level dn comma)

unfoldable pub join_rdn_and_parent : Str → Str → Str
unfolding trim_to_string
join_rdn_and_parent rdn parent_dn =
    let normalized_rdn = trim_to_string rdn in
    let normalized_parent = trim_to_string parent_dn in
    if is_empty normalized_rdn
    then []
    else if is_empty normalized_parent
    then normalized_rdn
    else normalized_rdn ++ (comma ∷ normalized_parent)

-- `replace(/,+$/u, '')`, on the text read backwards.
unfoldable pub strip_commas_back : Str → Str
strip_commas_back [] = []
strip_commas_back (c ∷ s) = if c == comma then strip_commas_back s else c ∷ s

unfoldable pub strip_commas : Str → Str
unfolding strip_commas_back
strip_commas s = reverse (strip_commas_back (reverse s))

-- `lower` is `toLowerCase`.
module _ (lower : Str → Str) where
  unfoldable pub dn_within_base : Str → Str → Bool
  unfolding strip_commas trim_to_string split_top_level
  dn_within_base dn base_dn =
      let child = strip_commas (trim_to_string dn) in
      let base = strip_commas (trim_to_string base_dn) in
      let base_rdns = split_top_level base comma in
      let child_rdns = split_top_level child comma in
      if is_empty base
      then true
      else if is_empty child
      then false
      else if str_eq (lower child) (lower base)
      then true
      else if leb (length child_rdns) (length base_rdns)
      then false
      else str_eq
          (join (comma ∷ []) (map lower (drop (length child_rdns - length base_rdns) child_rdns)))
          (lower base)
