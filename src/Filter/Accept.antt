-- ===== src/Filter/Accept.antt =====
-- What `validateLDAPFilter` of frontend/src/lib/ldapFilter.ts accepts: items, negations and groups
-- that are put together from accepted parts.
use dbx_plugin_ldap.Base.{
  ℕ, zero, suc, ◌≤◌, ◌<◌, ◌≡◌, ◌≢◌, inl, inr, refl, sym, ap, ◌∙◌, Bool, true, false, Option, none,
  some, List, [], ◌∷◌, ◌++◌, append_assoc, arith, length, All, All-imp, All-append, Str, codes,
  join, is_digit, is_alpha, is_hex, is_name_char, ◌==◌, if◌then◌else◌, &&_join,
}
use mathlib.Core.Path.{subst}
use dbx_plugin_ldap.Base.{join_nil-cons}
use dbx_plugin_ldap.Description.{
  matches_description, is_description_char, matches_description-All, matches_description-cons,
}
use dbx_plugin_ldap.Filter.Escape.{
  backslash, IsInert, escape_char, escape_ldap_filter_value, escape_char-cases, escape-cons,
  escape-nil, escape_char-All,
}
use dbx_plugin_ldap.Filter.Validate.{
  Operator, gte, lte, approx, extensible, equality, is_equality, long_operator, put_front,
  split_assertion, is_valid_value, is_valid_prefix, is_valid_assertion, is_valid_filter_assertion,
  scan_body, is_open, parse_items, parse_item,
}

abbrev pub IsDescriptionChar : ℕ → Type 0
IsDescriptionChar c = is_description_char c ≡ true

-- A description's character has no meaning of its own in a filter.
char_plain :
    (c : ℕ)
    → IsDescriptionChar c
    → (c == b'=' ≡ false) × (long_operator c ≡ none) × (c == b'(' ≡ false) × (c == b')' ≡ false)
unfolding is_description_char is_name_char is_alpha is_digit long_operator
char_plain c h = (ground arith, ground arith, ground arith, ground arith)

-- One character of a value that needs no escape.
value_plain :
    (stars : Bool) (c : ℕ) (s : Str)
    → c ≢ backslash
    → IsInert c
    → is_valid_value stars (c ∷ s) ≡ is_valid_value stars s
unfolding is_valid_value
value_plain stars c [] h (a, b, d, e) = ground arith
value_plain stars c (x ∷ []) h (a, b, d, e) = ground arith
value_plain stars c (x ∷ y ∷ s) h (a, b, d, e) = ground arith

pub value_escape :
    (stars : Bool) (d e : ℕ) (s : Str)
    → is_hex d ≡ true
    → is_hex e ≡ true
    → is_valid_value stars (backslash ∷ d ∷ e ∷ s) ≡ is_valid_value stars s
unfolding is_valid_value
value_escape stars d e s hd he = rw (hd, he) refl

pub value_star : (s : Str) → is_valid_value true (b'*' ∷ s) ≡ is_valid_value true s
unfolding is_valid_value
value_star [] = refl
value_star (x ∷ []) = refl
value_star (x ∷ y ∷ s) = refl

IsInert-plain : (c : ℕ) → escape_char c ≡ c ∷ [] → IsInert c
IsInert-plain c eq = (subst (All IsInert) eq (escape_char-All c)).0

-- An escaped value in front changes nothing.
pub value-escaped :
    (stars : Bool) (v s : Str)
    → is_valid_value stars (escape_ldap_filter_value v ++ s) ≡ is_valid_value stars s
value-escaped stars [] s = ap (λ t. is_valid_value stars (t ++ s)) escape-nil
value-escaped stars (c ∷ v) s = elim (escape_char-cases c) [
  | inl (d, e, hd, he, _, _, eq) ↦
      ap (λ t. is_valid_value stars (t ++ s)) (escape-cons c v (backslash ∷ d ∷ e ∷ []) eq)
      ∙ value_escape stars d e _ hd he
      ∙ value-escaped stars v s
  | inr (plain, eq) ↦
      ap (λ t. is_valid_value stars (t ++ s)) (escape-cons c v (c ∷ []) eq)
      ∙ value_plain stars c _ plain (IsInert-plain c eq)
      ∙ value-escaped stars v s
]

if_same {ℓ} : {A : Type ℓ} (b : Bool) (x : A) → (if b then x else x) ≡ x
if_same true x = refl
if_same false x = refl

name_char_plain :
    (c : ℕ)
    → is_name_char c ≡ true
    → (c == b'&' ≡ false) × (c == b'|' ≡ false) × (c == b'!' ≡ false)
unfolding is_name_char is_alpha is_digit
name_char_plain c h = (ground arith, ground arith, ground arith)

-- The operators that a description can be followed by, as text.
abbrev pub operator_text : Operator → Str
operator_text gte = codes ">="
operator_text lte = codes "<="
operator_text approx = codes "~="
operator_text extensible = codes ":="
operator_text equality = codes "="

split_operator : (o : Operator) (v : Str) → split_assertion (operator_text o ++ v) ≡ some ([], o, v)
unfolding split_assertion
split_operator gte v = refl
split_operator lte v = refl
split_operator approx v = refl
split_operator extensible v = refl
split_operator equality [] = refl
split_operator equality (c ∷ v) = refl

split_char :
    (c d : ℕ) (s : Str)
    → c == b'=' ≡ false
    → long_operator c ≡ none
    → split_assertion (c ∷ d ∷ s) ≡ put_front c (split_assertion (d ∷ s))
unfolding split_assertion
split_char c d s h k = rw (h, k) (if_same (d == b'=') _)

operator_cons : (o : Operator) (v : Str) → (d : ℕ) × (s : Str) × (operator_text o ++ v ≡ d ∷ s)
operator_cons gte v = (_, _, refl)
operator_cons lte v = (_, _, refl)
operator_cons approx v = (_, _, refl)
operator_cons extensible v = (_, _, refl)
operator_cons equality v = (_, _, refl)

-- The regular expression cuts behind a description.
split-description :
    (attr : Str) (o : Operator) (v : Str)
    → All IsDescriptionChar attr
    → split_assertion (attr ++ (operator_text o ++ v)) ≡ some (attr, o, v)
split-description [] o v h = split_operator o v
split-description (c ∷ []) o v (h, _) =
    let (a, b, _, _) = char_plain c h in
    let (d, s, e) = operator_cons o v in
    ap (λ t. split_assertion (c ∷ t)) e
    ∙ split_char c d s a b
    ∙ ap (λ t. put_front c (split_assertion t)) (sym e)
    ∙ ap (put_front c) (split_operator o v)
split-description (c ∷ d ∷ attr) o v (h, hs) =
    let (a, b, _, _) = char_plain c h in
    split_char c d _ a b ∙ ap (put_front c) (split-description (d ∷ attr) o v hs)

pub valid_assertion-description :
    (attr : Str) (o : Operator) (v : Str)
    → All IsDescriptionChar attr
    → is_valid_prefix o attr ≡ true
    → is_valid_value (is_equality o) v ≡ true
    → is_valid_filter_assertion (attr ++ (operator_text o ++ v)) ≡ true
unfolding is_valid_filter_assertion
valid_assertion-description attr o v h p q =
    ap is_valid_assertion (split-description attr o v h) ∙ &&_join _ _ p q

-- No parenthesis.
abbrev pub IsBare : ℕ → Type 0
IsBare c = (c ≢ b'(') × (c ≢ b')')

scan_body-append :
    (body rest : Str) → All IsBare body → scan_body (body ++ b')' ∷ rest) ≡ some (body, b')' ∷ rest)
unfolding scan_body
scan_body-append [] rest h = refl
scan_body-append (c ∷ body) rest ((a, b), h) = ground (arith, scan_body-append body rest h)

-- A text that the parser reads, at any depth that leaves `n` levels, and that is its own trim.
pub record Accepted (n : ℕ) (f : Str) : Type 0 where
  pub inner : Str
  pub shape : f ≡ b'(' ∷ (inner ++ b')' ∷ [])
  pub parses : (levels : ℕ) (rest : Str) → n ≤ levels → parse_item levels (f ++ rest) ≡ some rest

parse_simple :
    (levels c : ℕ) (body rest : Str)
    → is_name_char c ≡ true
    → All IsBare (c ∷ body)
    → is_valid_filter_assertion (c ∷ body) ≡ true
    → parse_item (suc levels) (b'(' ∷ (c ∷ body ++ b')' ∷ rest)) ≡ some rest
unfolding parse_item
parse_simple levels c body rest name bare valid =
    let (x, y, z) = name_char_plain c name in
    rw (x, y, z, scan_body-append (c ∷ body) rest bare) (rw valid refl)

parse_body :
    (levels c : ℕ) (b body rest : Str)
    → body ≡ c ∷ b
    → is_name_char c ≡ true
    → All IsBare body
    → is_valid_filter_assertion body ≡ true
    → parse_item (suc levels) (b'(' ∷ (body ++ b')' ∷ rest)) ≡ some rest
parse_body levels c b body rest e name bare valid =
    ap (λ t. parse_item (suc levels) (b'(' ∷ (t ++ b')' ∷ rest))) e
    ∙ parse_simple levels c b rest name (subst (All IsBare) e bare)
        (ap is_valid_filter_assertion (sym e) ∙ valid)

IsBare-description : (c : ℕ) → IsDescriptionChar c → IsBare c
IsBare-description c h = let (_, _, a, b) = char_plain c h in (ground arith, ground arith)

IsBare-operator : (o : Operator) → All IsBare (operator_text o)
IsBare-operator gte = omega arith
IsBare-operator lte = omega arith
IsBare-operator approx = omega arith
IsBare-operator extensible = omega arith
IsBare-operator equality = omega arith

regroup : (a b c d : Str) → a ++ (b ++ (c ++ d)) ≡ (a ++ (b ++ c)) ++ d
regroup a b c d = ap (λ t. a ++ t) (sym (append_assoc b c d)) ∙ sym (append_assoc a (b ++ c) d)

item_parses :
    (attr : Str) (o : Operator) (v : Str) (c : ℕ) (b : Str)
    → attr ≡ c ∷ b
    → is_name_char c ≡ true
    → All IsBare (attr ++ (operator_text o ++ v))
    → is_valid_filter_assertion (attr ++ (operator_text o ++ v)) ≡ true
    → b'(' ∷ (attr ++ (operator_text o ++ (v ++ b')' ∷ [])))
      ≡ b'(' ∷ ((attr ++ (operator_text o ++ v)) ++ b')' ∷ [])
    → (levels : ℕ) (rest : Str) → 1 ≤ levels
    → parse_item levels ((b'(' ∷ (attr ++ (operator_text o ++ (v ++ b')' ∷ [])))) ++ rest)
      ≡ some rest
item_parses attr o v c b starts name bare valid whole zero rest h = elim h [ ]
item_parses attr o v c b starts name bare valid whole (suc levels) rest h =
    ap (λ t. parse_item (suc levels) (t ++ rest)) whole
    ∙ ap (λ t. parse_item (suc levels) (b'(' ∷ t)) (append_assoc _ (b')' ∷ []) rest)
    ∙ parse_body levels c _ _ rest (ap (λ t. t ++ (operator_text o ++ v)) starts) name bare valid

-- An item that is a good description, an operator and a good value.
pub Accepted-item :
    (attr : Str) (o : Operator) (v : Str)
    → matches_description attr ≡ true
    → is_valid_prefix o attr ≡ true
    → is_valid_value (is_equality o) v ≡ true
    → All IsBare v
    → Accepted 1 (b'(' ∷ (attr ++ (operator_text o ++ (v ++ b')' ∷ []))))
Accepted-item attr o v desc p q bare =
    let chars = matches_description-All attr desc in
    let (c, b, starts, name) = matches_description-cons attr desc in
    let body = attr ++ (operator_text o ++ v) in
    let whole = ap (λ t. b'(' ∷ t) (regroup attr (operator_text o) v (b')' ∷ [])) in
    let all_bare =
      All-append IsBare attr (operator_text o ++ v)
        (All-imp IsDescriptionChar IsBare IsBare-description attr chars)
        (All-append IsBare (operator_text o) v (IsBare-operator o) bare) in
    record {
      inner = body;
      shape = whole;
      parses =
          item_parses attr o v c b starts name all_bare
            (valid_assertion-description attr o v chars p q) whole;
    }

parse_not :
    (levels : ℕ) (s rest : Str)
    → parse_item levels s ≡ some (b')' ∷ rest)
    → parse_item (suc levels) (b'(' ∷ b'!' ∷ s) ≡ some rest
unfolding parse_item
parse_not levels s rest h = rw h refl

pub Accepted-negation :
    (n : ℕ) (f : Str) → Accepted n f → Accepted (suc n) (codes "(!" ++ (f ++ codes ")"))
Accepted-negation n f a = record { inner = b'!' ∷ f; shape = refl; parses = parses }
  where
    parses :
        (levels : ℕ) (rest : Str)
        → suc n ≤ levels
        → parse_item levels ((codes "(!" ++ (f ++ codes ")")) ++ rest) ≡ some rest
    parses zero rest h = elim h [ ]
    parses (suc levels) rest h = parse_not levels ((f ++ codes ")") ++ rest) rest (
        ap (parse_item levels) (append_assoc f (codes ")") rest)
        ∙ a.parses levels (b')' ∷ rest) (omega arith))

items_end :
    (parse : Str → Option Str) (fuel : ℕ) (s : Str)
    → is_open s ≡ false
    → parse_items parse (suc fuel) s ≡ some s
unfolding parse_items
items_end parse fuel s h = rw (h, parse_items)

items_next :
    (parse : Str → Option Str) (fuel : ℕ) (s t : Str)
    → is_open s ≡ true
    → parse s ≡ some t
    → parse_items parse (suc fuel) s ≡ parse_items parse fuel t
unfolding parse_items
items_next parse fuel s t h p = rw (h, parse_items) (rw p refl)

-- A list of accepted parts, put together without a separator.
pub parse_items-join :
    (n levels : ℕ) (fs : List Str) (fuel : ℕ) (rest : Str)
    → n ≤ levels
    → All (Accepted n) fs
    → length fs < fuel
    → is_open rest ≡ false
    → parse_items (parse_item levels) fuel (join [] fs ++ rest) ≡ some rest
parse_items-join n levels fs zero rest le h lt closed = elim lt [ ]
parse_items-join n levels [] (suc fuel) rest le h lt closed =
    items_end (parse_item levels) fuel rest closed
parse_items-join n levels (f ∷ fs) (suc fuel) rest le (a, h) lt closed =
    let split = ap (λ t. t ++ rest) (join_nil-cons f fs) ∙ append_assoc f (join [] fs) rest in
    ap (parse_items (parse_item levels) (suc fuel)) split
    ∙ items_next (parse_item levels) fuel (f ++ (join [] fs ++ rest)) (join [] fs ++ rest)
        (ap (λ t. is_open (t ++ (join [] fs ++ rest))) a.shape)
        (a.parses levels (join [] fs ++ rest) le)
    ∙ parse_items-join n levels fs fuel rest le h (omega arith) closed
