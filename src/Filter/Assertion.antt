-- ===== src/Filter/Assertion.antt =====
-- The filter builders of frontend/src/lib/ldapFilter.ts, from `safeBuilderAttribute` to
-- `combineFilters`. Attribute names that pass the description test are ASCII, so `toLowerCase` on
-- them is `ascii_lower`.
use dbx_plugin_ldap.Base.{
  ℕ, ◌+◌, ◌*◌, ◌/◌, ◌%◌, Bool, true, false, not, ◌&&◌, ◌||◌, List, [], ◌∷◌, ◌++◌, reverse, length,
  take, drop, Str, codes, str_eq, is_empty, trim, join, is_hex, hex_value, ltb, ◌==◌, if◌then◌else◌,
  ascii_lower,
}
use mathlib.Core.List.{flat_map}
use dbx_plugin_ldap.Base
use dbx_plugin_ldap.Description.{matches_description}
use dbx_plugin_ldap.Filter.Escape.{backslash, escape_ldap_filter_value}

-- The errors that are thrown, by their messages; `type_error` is the platform's.
pub data FilterError : Type 0 where
  invalid_attribute_description binary_value_required object_guid_length : FilterError
  invalid_object_guid attribute_and_value_required type_error : FilterError

pub data Attempt : Type 0 where
  ok : Str → Attempt
  throws : FilterError → Attempt

pub data SubstringMode : Type 0 where
  contains starts_with ends_with : SubstringMode

pub data ComparisonMode : Type 0 where
  gte lte approx : ComparisonMode

pub data Joiner : Type 0 where
  and or : Joiner

unfoldable pub is_valid_ldap_attribute_description : Str → Bool
unfolding matches_description
is_valid_ldap_attribute_description value = matches_description (trim value)

unfoldable pub safe_builder_attribute : Str → Str
unfolding matches_description
safe_builder_attribute attribute =
    if matches_description (trim attribute) then trim attribute else []

-- `(attr OPERATOR value)`, the operator given as text.
abbrev pub item : Str → Str → Str → Str
item attr operator value = b'(' ∷ (attr ++ (operator ++ (value ++ b')' ∷ [])))

unfoldable pub substring_value : SubstringMode → Str → Str
substring_value contains value = b'*' ∷ (value ++ b'*' ∷ [])
substring_value starts_with value = value ++ b'*' ∷ []
substring_value ends_with value = b'*' ∷ value

unfoldable pub comparison_operator : ComparisonMode → Str
comparison_operator gte = codes ">="
comparison_operator lte = codes "<="
comparison_operator approx = codes "~="

unfoldable pub build_presence_filter : Str → Str
unfolding safe_builder_attribute
build_presence_filter attribute =
    let attr = safe_builder_attribute attribute in
    if is_empty attr then [] else item attr (codes "=") (codes "*")

-- `value.toString(16)` of a number below 16.
unfoldable pub hex_digit : ℕ → ℕ
hex_digit n = if ltb n 10 then b'0' + n else 87 + n

-- One byte as `\hh`, with `padStart(2, '0')`.
unfoldable pub hex_escape : ℕ → Str
unfolding hex_digit
hex_escape byte = backslash ∷ hex_digit (byte / 16) ∷ hex_digit (byte % 16) ∷ []

unfoldable pub build_binary_equality_filter : Str → List ℕ → Attempt
unfolding hex_escape is_valid_ldap_attribute_description flat_map
build_binary_equality_filter attribute value =
    let attr = trim attribute in
    if not (is_valid_ldap_attribute_description attr)
    then throws invalid_attribute_description
    else if length value == 0
    then throws binary_value_required
    else if str_eq (ascii_lower attr) (codes "objectguid") && not (length value == 16)
    then throws object_guid_length
    else ok (item attr (codes "=") (flat_map hex_escape value))

-- `[0-9a-f]{8}-[0-9a-f]{4}-…`: an `x` of the template stands for a hexadecimal digit.
unfoldable pub fits_template : Str → Str → Bool
fits_template [] [] = true
fits_template [] (c ∷ s) = false
fits_template (x ∷ xs) [] = false
fits_template (x ∷ xs) (c ∷ s) =
    let rest = fits_template xs s in (if x == b'x' then is_hex c else c == x) && rest

abbrev pub guid_template : Str
guid_template = codes "xxxxxxxx-xxxx-xxxx-xxxx-xxxxxxxxxxxx"

unfoldable pub is_guid : Str → Bool
unfolding fits_template
is_guid guid = fits_template guid_template guid

-- The five groups of the match, put together.
unfoldable pub without_dashes : Str → Str
without_dashes [] = []
without_dashes (c ∷ s) = let rest = without_dashes s in if c == b'-' then rest else c ∷ rest

-- `hex.match(/../gu)` and `parseInt(part, 16)`.
unfoldable pub hex_pairs : Str → List ℕ
hex_pairs [] = []
hex_pairs (c ∷ []) = []
hex_pairs (c ∷ d ∷ s) = (hex_value c * 16 + hex_value d) ∷ hex_pairs s

-- The three `bytes.set` calls.
unfoldable pub mixed_endian : List ℕ → List ℕ
mixed_endian bytes =
    reverse (take 4 bytes)
    ++ (reverse (take 2 (drop 4 bytes)) ++ (reverse (take 2 (drop 6 bytes)) ++ drop 8 bytes))

unfoldable pub build_object_guid_equality_filter : Str → Attempt
unfolding is_guid without_dashes hex_pairs mixed_endian build_binary_equality_filter
build_object_guid_equality_filter guid =
    if is_guid (trim guid)
    then build_binary_equality_filter (codes "objectGUID")
        (mixed_endian (hex_pairs (without_dashes (trim guid))))
    else throws invalid_object_guid

-- A value of `buildEqualityFilter`: text, or a `Uint8Array`.
pub data FilterValue : Type 0 where
  text : Str → FilterValue
  bytes : List ℕ → FilterValue

unfoldable pub build_equality_filter : Str → FilterValue → Attempt
unfolding safe_builder_attribute build_binary_equality_filter build_object_guid_equality_filter
    is_guid escape_ldap_filter_value
build_equality_filter attribute (bytes value) = build_binary_equality_filter (trim attribute) value
build_equality_filter attribute (text value) =
    let attr = safe_builder_attribute attribute in
    let raw = trim value in
    if is_empty attr || is_empty raw
    then ok []
    else if str_eq (ascii_lower attr) (codes "objectguid") && is_guid raw
    then build_object_guid_equality_filter raw
    else ok (item attr (codes "=") (escape_ldap_filter_value raw))

unfoldable pub build_substring_filter : Str → Str → SubstringMode → Str
unfolding safe_builder_attribute escape_ldap_filter_value substring_value
build_substring_filter attribute value mode =
    let attr = safe_builder_attribute attribute in
    let raw = trim value in
    if is_empty attr || is_empty raw
    then []
    else item attr (codes "=") (substring_value mode (escape_ldap_filter_value raw))

unfoldable pub build_comparison_filter : Str → Str → ComparisonMode → Str
unfolding safe_builder_attribute escape_ldap_filter_value comparison_operator
build_comparison_filter attribute value mode =
    let attr = safe_builder_attribute attribute in
    let raw = trim value in
    if is_empty attr || is_empty raw
    then []
    else item attr (comparison_operator mode) (escape_ldap_filter_value raw)

abbrev pub required : Attempt → Attempt
required (ok rendered) =
    if is_empty rendered then throws attribute_and_value_required else ok rendered
required (throws e) = throws e

-- The class `EqualityFilter`: its constructor renders the filter, or throws.
unfoldable pub equality_filter : Str → FilterValue → Attempt
unfolding build_equality_filter
equality_filter attribute value = required (build_equality_filter attribute value)

unfoldable pub build_negated_filter : Str → Str
build_negated_filter filter =
    let source = trim filter in
    if is_empty source
    then []
    else if Base.starts_with source (codes "(!") && Base.ends_with source (codes ")")
    then source
    else codes "(!" ++ (source ++ codes ")")

-- `map(trimToString).filter(Boolean)`.
unfoldable pub cleaned : List Str → List Str
cleaned [] = []
cleaned (f ∷ fs) = let rest = cleaned fs in if is_empty (trim f) then rest else trim f ∷ rest

unfoldable pub join_sign : Joiner → ℕ
join_sign and = b'&'
join_sign or = b'|'

unfoldable pub combine_cleaned : Joiner → List Str → Str
unfolding join_sign
combine_cleaned joiner [] = []
combine_cleaned joiner (f ∷ []) = f
combine_cleaned joiner (f ∷ g ∷ fs) = b'(' ∷ join_sign joiner ∷ (join [] (f ∷ g ∷ fs) ++ b')' ∷ [])

unfoldable pub combine_filters : List Str → Joiner → Str
unfolding cleaned combine_cleaned
combine_filters filters joiner = combine_cleaned joiner (cleaned filters)
