-- ===== src/Filter/Validate.antt =====
-- `validateLDAPFilter` of frontend/src/lib/ldapFilter.ts. A parsing function takes the text from
-- `position` on and gives the text from the new position on, or `none` for `false`.
use dbx_plugin_ldap.Base.{
  ℕ, zero, suc, Bool, true, false, not, ◌&&◌, ◌||◌, Option, none, some, List, [], ◌∷◌, length, Str,
  codes, str_eq, is_empty, trim, is_hex, elem, ◌==◌, if◌then◌else◌, ascii_lower,
}
use dbx_plugin_ldap.Description.{matches_description}
use dbx_plugin_ldap.Filter.Escape.{backslash}

pub data Operator : Type 0 where
  gte lte approx extensible equality : Operator

abbrev pub is_equality : Operator → Bool
is_equality equality = true
is_equality _ = false

abbrev pub Assertion : Type 0
Assertion = Str × Operator × Str

-- The operator that `(>=|<=|~=|:=)` reads, if `c` and an `=` stand there.
unfoldable pub long_operator : ℕ → Option Operator
long_operator c =
    if c == b'>'
    then some gte
    else if c == b'<'
    then some lte
    else if c == b'~'
    then some approx
    else if c == b':'
    then some extensible
    else none

abbrev pub put_front : ℕ → Option Assertion → Option Assertion
put_front c none = none
put_front c (some (prefix, operator, value)) = some (c ∷ prefix, operator, value)

abbrev pub here : Option Operator → Str → Option Assertion → Option Assertion
here none value later = later
here (some operator) value later = some ([], operator, value)

-- `/^([^=]*?)(>=|<=|~=|:=|=)([\s\S]*)$/u`: the shortest prefix that an operator follows.
unfoldable pub split_assertion : Str → Option Assertion
unfolding long_operator
split_assertion [] = none
split_assertion (c ∷ []) = if c == b'=' then some ([], equality, []) else none
split_assertion (c ∷ d ∷ s) =
    let later = put_front c (split_assertion (d ∷ s)) in
    if c == b'='
    then some ([], equality, d ∷ s)
    else if d == b'='
    then here (long_operator c) s later
    else later

-- The loop over the value: each backslash takes two hexadecimal digits.
unfoldable pub is_valid_value : Bool → Str → Bool
is_valid_value stars [] = true
is_valid_value stars (c ∷ []) =
    not (c == backslash) && not (c == 0 || c == b'(' || c == b')' || (c == b'*' && not stars))
is_valid_value stars (c ∷ d ∷ []) =
    let rest = is_valid_value stars (d ∷ []) in
    not (c == backslash)
    && not (c == 0 || c == b'(' || c == b')' || (c == b'*' && not stars))
    && rest
is_valid_value stars (c ∷ d ∷ e ∷ s) =
    let escaped = is_valid_value stars s in
    let rest = is_valid_value stars (d ∷ e ∷ s) in
    if c == backslash
    then is_hex d && is_hex e && escaped
    else if c == 0 || c == b'(' || c == b')' || (c == b'*' && not stars)
    then false
    else rest

-- `prefix.split(':')`.
abbrev pub cons_first : ℕ → List Str → List Str
cons_first c [] = (c ∷ []) ∷ []
cons_first c (p ∷ ps) = (c ∷ p) ∷ ps

unfoldable pub split_colons : Str → List Str
split_colons [] = [] ∷ []
split_colons (c ∷ s) =
    let rest = split_colons s in if c == b':' then [] ∷ rest else cons_first c rest

-- A matching rule is a description without options.
unfoldable pub is_matching_rule : Str → Bool
unfolding matches_description
is_matching_rule rule = matches_description rule && not (elem b';' rule)

-- `options.shift()` after `options[0]?.toLowerCase() === 'dn'`.
abbrev pub drop_dn : List Str → List Str
drop_dn [] = []
drop_dn (o ∷ options) = if str_eq (ascii_lower o) (codes "dn") then options else o ∷ options

abbrev pub are_valid_options : Bool → List Str → Bool
are_valid_options has_attribute [] = has_attribute
are_valid_options has_attribute (rule ∷ []) = is_matching_rule rule
are_valid_options has_attribute (o ∷ p ∷ options) = false

abbrev pub is_extensible : List Str → Bool
is_extensible [] = false
is_extensible (attribute ∷ options) =
    (is_empty attribute || matches_description attribute)
    && are_valid_options (not (is_empty attribute)) (drop_dn options)

unfoldable pub is_valid_prefix : Operator → Str → Bool
unfolding matches_description split_colons is_matching_rule
is_valid_prefix extensible prefix = is_extensible (split_colons prefix)
is_valid_prefix _ prefix = matches_description prefix

abbrev pub is_valid_assertion : Option Assertion → Bool
is_valid_assertion none = false
is_valid_assertion (some (prefix, operator, value)) =
    is_valid_prefix operator prefix && is_valid_value (is_equality operator) value

unfoldable pub is_valid_filter_assertion : Str → Bool
unfolding split_assertion is_valid_prefix is_valid_value
is_valid_filter_assertion body = is_valid_assertion (split_assertion body)

-- The scan of a simple item: up to `)` or the end, and `none` at `(`.
abbrev pub put_body : ℕ → Option (Str × Str) → Option (Str × Str)
put_body c none = none
put_body c (some (body, rest)) = some (c ∷ body, rest)

unfoldable pub scan_body : Str → Option (Str × Str)
scan_body [] = some ([], [])
scan_body (c ∷ s) =
    let more = put_body c (scan_body s) in
    if c == b')' then some ([], c ∷ s) else if c == b'(' then none else more

-- `if (peek() !== ')') return false; position += 1; return true`.
abbrev pub close : Str → Option Str
close [] = none
close (c ∷ s) = if c == b')' then some s else none

infixl 5 ◌>>=◌
abbrev pub ◌>>=◌ : {A B : Type 0} → Option A → (A → Option B) → Option B
none >>= f = none
some a >>= f = f a

abbrev pub is_open : Str → Bool
is_open [] = false
is_open (c ∷ s) = c == b'('

-- The `while (peek() === '(')` loop. Each round reads two characters at least, so as many rounds as
-- there are characters are enough.
unfoldable pub parse_items : (Str → Option Str) → ℕ → Str → Option Str
parse_items parse zero s = some s
parse_items parse (suc fuel) s = elim (is_open s) [
  | true ↦ parse s >>= parse_items parse fuel
  | false ↦ some s
]

-- `parseItem(depth)` with `levels = 101 - depth`; it refuses at a depth above 100.
unfoldable pub parse_item : ℕ → Str → Option Str
unfolding parse_items scan_body is_valid_filter_assertion
parse_item zero s = none
parse_item (suc levels) [] = none
parse_item (suc levels) (c ∷ []) = none
parse_item (suc levels) (c ∷ operator ∷ s) =
    let list = if is_open s then parse_items (parse_item levels) (length s) s >>= close else none in
    let negated = parse_item levels s >>= close in
    let simple = scan_body (operator ∷ s) >>= λ (body, rest).
    if is_valid_filter_assertion body then close rest else none in
    if not (c == b'(')
    then none
    else if operator == b'&' || operator == b'|'
    then list
    else if operator == b'!'
    then negated
    else simple

abbrev pub is_end : Option Str → Bool
is_end none = false
is_end (some []) = true
is_end (some (c ∷ s)) = false

abbrev pub max_levels : ℕ
max_levels = 101

unfoldable pub validate_ldap_filter : Str → Bool
unfolding parse_item
validate_ldap_filter filter =
    let text = trim filter in
    if is_empty text then false else is_end (parse_item max_levels text) && is_open text
