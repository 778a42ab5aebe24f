-- ===== src/Filter/Keyword.antt =====
-- The keyword filter of the DN tree in frontend/src/lib/ldapFilter.ts. A name that the prefix pattern
-- matches is ASCII, so `toLowerCase` on it is `ascii_lower`.
use dbx_plugin_ldap.Base.{
  ℕ, ◌*◌, Bool, false, not, ◌&&◌, ◌||◌, Option, none, some, List, [], ◌∷◌, ◌++◌, map, Str, codes,
  str_eq, is_empty, trim_start, trim, join, is_digit, is_alpha, elem, ◌==◌, if◌then◌else◌,
  ascii_lower,
}
use dbx_plugin_ldap.Filter.Escape.{escape_ldap_filter_value}
use dbx_plugin_ldap.Filter.Assertion.{
  contains, or, text, item, safe_builder_attribute, build_presence_filter, build_equality_filter,
  build_substring_filter, cleaned, combine_filters,
}
use dbx_plugin_ldap.Filter.Builder.{rendered}
use mathlib.Core.List.{map}
use dbx_plugin_ldap.Base

abbrev pub tree_filter_attributes : List Str
tree_filter_attributes =
    codes "cn"
    ∷ codes "ou"
    ∷ codes "dc"
    ∷ codes "uid"
    ∷ codes "o"
    ∷ codes "sn"
    ∷ codes "givenName"
    ∷ codes "name"
    ∷ codes "displayName"
    ∷ codes "mail"
    ∷ codes "sAMAccountName"
    ∷ []

abbrev pub has_text : Str → List Str → Bool
has_text s [] = false
has_text s (t ∷ ts) = str_eq t s || has_text s ts

abbrev pub any_object_class : Str
any_object_class = codes "(objectClass=*)"

abbrev pub is_word_char : ℕ → Bool
is_word_char c = is_alpha c || (is_digit c || c == b'-')

-- The word characters in front, and the rest.
abbrev pub put_name : ℕ → Str × Str → Str × Str
put_name c (name, rest) = (c ∷ name, rest)

unfoldable pub span_word : Str → Str × Str
unfolding is_alpha is_digit
span_word [] = ([], [])
span_word (c ∷ s) =
    let later = put_name c (span_word s) in if is_word_char c then later else ([], c ∷ s)

-- `.` matches none of these.
abbrev pub has_line_end : Str → Bool
has_line_end [] = false
has_line_end (c ∷ s) = (c == 0x0a || (c == 0x0d || (c == 0x2028 || c == 0x2029))) || has_line_end s

pub record KeywordPrefix : Type 0 where
  pub attribute : Str
  pub value : Str

abbrev pub known_prefix : Str → Str → Option KeywordPrefix
known_prefix attribute value =
    if str_eq attribute (codes "objectclass") || has_text attribute tree_filter_attributes
    then some (record { attribute = attribute; value = value })
    else none

-- What follows the name: blanks, `=` or `:`, blanks and the value, in one line.
abbrev pub after_name : Str → Str → Option KeywordPrefix
after_name name [] = none
after_name name (c ∷ s) =
    if (c == b'=' || c == b':') && not (has_line_end (trim_start s))
    then known_prefix (ascii_lower name) (trim (trim_start s))
    else none

abbrev pub starts_alpha : Str → Bool
starts_alpha [] = false
starts_alpha (c ∷ s) = is_alpha c

abbrev pub named_prefix : Str × Str → Option KeywordPrefix
named_prefix (name, rest) = if starts_alpha name then after_name name (trim_start rest) else none

unfoldable pub parse_tree_keyword_prefix : Str → Option KeywordPrefix
unfolding span_word
parse_tree_keyword_prefix keyword = named_prefix (span_word (trim keyword))

-- `value.split('*')`.
abbrev pub put_piece : ℕ → List Str → List Str
put_piece c [] = (c ∷ []) ∷ []
put_piece c (p ∷ ps) = (c ∷ p) ∷ ps

unfoldable pub split_stars : Str → List Str
split_stars [] = [] ∷ []
split_stars (c ∷ s) =
    let later = split_stars s in if c == b'*' then [] ∷ later else put_piece c later

abbrev pub star_if : Bool → Str
star_if b = if b then codes "*" else []

abbrev pub starred : Str → Str → List Str → Str
starred attribute value [] = build_presence_filter attribute
starred attribute value (p ∷ ps) = item (safe_builder_attribute attribute) (codes "=") (
    star_if (Base.starts_with value (codes "*"))
    ++ (join (codes "*") (map escape_ldap_filter_value (p ∷ ps))
        ++ star_if (Base.ends_with value (codes "*"))))

-- The pieces are `map(trim).filter(Boolean)`, which `cleaned` is.
unfoldable pub build_tree_wildcard_filter : Str → Str → Str
unfolding safe_builder_attribute build_substring_filter build_presence_filter
    escape_ldap_filter_value cleaned split_stars
build_tree_wildcard_filter attribute value =
    if is_empty (safe_builder_attribute attribute)
    then []
    else if not (elem b'*' value)
    then build_substring_filter attribute value contains
    else starred attribute value (cleaned (split_stars value))

abbrev pub or_any : Str → Str
or_any filter = if is_empty filter then any_object_class else filter

unfoldable pub prefix_filter : KeywordPrefix → Str
unfolding build_equality_filter build_presence_filter build_tree_wildcard_filter
prefix_filter p =
    if str_eq p.attribute (codes "objectclass")
    then if is_empty p.value
      then any_object_class
      else rendered (build_equality_filter (codes "objectClass") (text p.value))
    else if is_empty p.value
    then build_presence_filter p.attribute
    else or_any (build_tree_wildcard_filter p.attribute p.value)

-- The empty filters are left out, as `cleaned` does.
unfoldable pub keyword_filters : List Str → Str → List Str
unfolding build_substring_filter
keyword_filters [] keyword = []
keyword_filters (a ∷ attributes) keyword =
    let rest = keyword_filters attributes keyword in
    if is_empty (build_substring_filter a keyword contains)
    then rest
    else build_substring_filter a keyword contains ∷ rest

unfoldable pub build_tree_keyword_filter : Str → Str
unfolding parse_tree_keyword_prefix prefix_filter keyword_filters combine_filters
build_tree_keyword_filter keyword = elim (parse_tree_keyword_prefix (trim keyword)) [
  | some p ↦ prefix_filter p
  | none ↦ or_any (combine_filters (keyword_filters tree_filter_attributes (trim keyword)) or)
]
