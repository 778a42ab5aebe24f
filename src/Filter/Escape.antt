-- ===== src/Filter/Escape.antt =====
-- `escapeLdapFilterValue` and `unescapeLdapFilterValue` of frontend/src/lib/ldapFilter.ts.
-- `decode_utf8` is the platform's `TextDecoder.decode`.
use dbx_plugin_ldap.Base.{
  ℕ, ◌+◌, ◌*◌, ◌<◌, ◌≡◌, ◌≢◌, ◌⊎◌, inl, inr, refl, sym, ap, ◌∙◌, true, ◌&&◌, List, [], ◌∷◌, ◌++◌,
  append-nil, append_assoc, arith, All, All-append, Str, codes, is_hex, hex_value, ◌==◌,
  if◌then◌else◌, Bool-cases,
}
use mathlib.Core.List.{flat_map}
use mathlib.Core.Path.{ap₂}

abbrev pub backslash : ℕ
backslash = b'\\'

-- `source.replace(/c/gu, replacement)`.
unfoldable pub replace_all : ℕ → Str → Str → Str
replace_all c replacement [] = []
replace_all c replacement (d ∷ s) =
    if d == c then replacement ++ replace_all c replacement s else d ∷ replace_all c replacement s

-- The rules in their order: the backslash first.
abbrev pub escape_replacements : List (ℕ × Str)
escape_replacements =
    (backslash, codes "\\5c")
    ∷ (b'*', codes "\\2a")
    ∷ (b'(', codes "\\28")
    ∷ (b')', codes "\\29")
    ∷ (0, codes "\\00")
    ∷ []

unfoldable pub apply_replacements : List (ℕ × Str) → Str → Str
unfolding replace_all
apply_replacements [] result = result
apply_replacements ((c, replacement) ∷ rules) result =
    apply_replacements rules (replace_all c replacement result)

unfoldable pub escape_ldap_filter_value : Str → Str
unfolding apply_replacements
escape_ldap_filter_value value = apply_replacements escape_replacements value

-- The loop of `unescapeLdapFilterValue`; the last argument is `source.slice(i)`, and `bytes` waits
-- for `flushBytes`.
module _ (decode_utf8 : List ℕ → Str) where
  abbrev pub flush_bytes : List ℕ → Str → Str
  flush_bytes [] result = result
  flush_bytes (b ∷ bytes) result = result ++ decode_utf8 (b ∷ bytes)

  unfoldable pub unescape_from : List ℕ → Str → Str → Str
  unescape_from bytes result [] = flush_bytes bytes result
  unescape_from bytes result (c ∷ []) = flush_bytes bytes result ++ c ∷ []
  unescape_from bytes result (c ∷ d ∷ []) = flush_bytes bytes result ++ c ∷ d ∷ []
  unescape_from bytes result (c ∷ d ∷ e ∷ s) =
      let collected = unescape_from (bytes ++ (hex_value d * 16 + hex_value e) ∷ []) result s in
      let copied = unescape_from [] (flush_bytes bytes result ++ c ∷ []) (d ∷ e ∷ s) in
      if c == backslash && (is_hex d && is_hex e) then collected else copied

  unfoldable pub unescape_ldap_filter_value : Str → Str
  unfolding unescape_from
  unescape_ldap_filter_value value = unescape_from [] [] value

-- What becomes of one character when all five rules have run.
unfoldable pub escape_char : ℕ → Str
escape_char c =
    if c == backslash
    then codes "\\5c"
    else if c == b'*'
    then codes "\\2a"
    else if c == b'('
    then codes "\\28"
    else if c == b')'
    then codes "\\29"
    else if c == 0
    then codes "\\00"
    else c ∷ []

replace_all-append :
    (c : ℕ) (r s t : Str) → replace_all c r (s ++ t) ≡ replace_all c r s ++ replace_all c r t
unfolding replace_all
replace_all-append c r [] t = refl
replace_all-append c r (d ∷ s) t = elim (Bool-cases (d == c)) [
  | inl a ↦ rw (a, replace_all-append c r s t) (sym (append_assoc r _ _))
  | inr a ↦ rw (a, replace_all-append c r s t)
]

apply_replacements-append :
    (rules : List (ℕ × Str)) (s t : Str)
    → apply_replacements rules (s ++ t) ≡ apply_replacements rules s ++ apply_replacements rules t
unfolding apply_replacements
apply_replacements-append [] s t = refl
apply_replacements-append ((c, r) ∷ rules) s t =
    ap (apply_replacements rules) (replace_all-append c r s t)
    ∙ apply_replacements-append rules (replace_all c r s) (replace_all c r t)

escape_one : (c : ℕ) → escape_ldap_filter_value (c ∷ []) ≡ escape_char c
unfolding escape_ldap_filter_value escape_char
escape_one c = ground arith

pub escape-append :
    (s t : Str)
    → escape_ldap_filter_value (s ++ t) ≡ escape_ldap_filter_value s ++ escape_ldap_filter_value t
unfolding escape_ldap_filter_value
escape-append s t = apply_replacements-append escape_replacements s t

pub escape-nil : escape_ldap_filter_value [] ≡ []
unfolding escape_ldap_filter_value
escape-nil = refl

-- The five replacements, one after the other, do what a single pass over the characters does: no
-- escape that a rule has written is escaped again by a later one.
pub escape_ldap_filter_value-flat_map :
    (value : Str) → escape_ldap_filter_value value ≡ flat_map escape_char value
unfolding flat_map
escape_ldap_filter_value-flat_map [] = escape-nil
escape_ldap_filter_value-flat_map (c ∷ s) =
    escape-append (c ∷ []) s
    ∙ ap₂ (λ u v. u ++ v) (escape_one c) (escape_ldap_filter_value-flat_map s)

-- A character that an assertion value may hold as it stands.
abbrev pub IsInert : ℕ → Type 0
IsInert c = (c ≢ b'*') × (c ≢ b'(') × (c ≢ b')') × (c ≢ 0)

pub escape_char-All : (c : ℕ) → All IsInert (escape_char c)
unfolding escape_char
escape_char-All c = elim (Bool-cases (c == backslash)) [
  | inl a ↦ rw a (omega arith)
  | inr a ↦ elim (Bool-cases (c == b'*')) [
    | inl b ↦ rw (a, b) (omega arith)
    | inr b ↦ elim (Bool-cases (c == b'(')) [
      | inl d ↦ rw (a, b, d) (omega arith)
      | inr d ↦ elim (Bool-cases (c == b')')) [
        | inl e ↦ rw (a, b, d, e) (omega arith)
        | inr e ↦ elim (Bool-cases (c == 0)) [
          | inl f ↦ rw (a, b, d, e, f) (omega arith)
          | inr f ↦
              rw (a, b, d, e, f) ((ground arith, ground arith, ground arith, ground arith), tt)
        ]
      ]
    ]
  ]
]

-- An escaped value holds no parenthesis, no star and no NUL: it cannot end or widen a filter.
pub escape_ldap_filter_value-All : (value : Str) → All IsInert (escape_ldap_filter_value value)
escape_ldap_filter_value-All [] = rw escape-nil tt
escape_ldap_filter_value-All (c ∷ s) =
    rw (escape-append (c ∷ []) s, escape_one c)
      (All-append IsInert (escape_char c) _ (escape_char-All c) (escape_ldap_filter_value-All s))

-- A character is written as one escape of its code, or stands as it is.
pub escape_char-cases :
    (c : ℕ)
    → ((d : ℕ) × (e : ℕ) × (is_hex d ≡ true)
        × (is_hex e ≡ true)
        × (hex_value d * 16 + hex_value e ≡ c)
        × (c < 128)
        × (escape_char c ≡ backslash ∷ d ∷ e ∷ []))
      ⊎ ((c ≢ backslash) × (escape_char c ≡ c ∷ []))
unfolding escape_char is_hex hex_value
escape_char-cases c = elim (Bool-cases (c == backslash)) [
  | inl a ↦ inl (b'5', b'c', refl, refl, ground arith, ground arith, rw a)
  | inr a ↦ elim (Bool-cases (c == b'*')) [
    | inl b ↦ inl (b'2', b'a', refl, refl, ground arith, ground arith, rw (a, b))
    | inr b ↦ elim (Bool-cases (c == b'(')) [
      | inl d ↦ inl (b'2', b'8', refl, refl, ground arith, ground arith, rw (a, b, d))
      | inr d ↦ elim (Bool-cases (c == b')')) [
        | inl e ↦ inl (b'2', b'9', refl, refl, ground arith, ground arith, rw (a, b, d, e))
        | inr e ↦ elim (Bool-cases (c == 0)) [
          | inl f ↦ inl (b'0', b'0', refl, refl, ground arith, ground arith, rw (a, b, d, e, f))
          | inr f ↦ inr (ground arith, rw (a, b, d, e, f))
        ]
      ]
    ]
  ]
]

pub escape-cons :
    (c : ℕ) (v e : Str)
    → escape_char c ≡ e
    → escape_ldap_filter_value (c ∷ v) ≡ e ++ escape_ldap_filter_value v
escape-cons c v e h =
    escape-append (c ∷ []) v ∙ ap (λ t. t ++ escape_ldap_filter_value v) (escape_one c ∙ h)

-- A decoder that reads ASCII bytes as themselves, as UTF-8 does.
abbrev pub KeepsAscii : (List ℕ → Str) → Type 0
KeepsAscii decode = (bytes : List ℕ) → All (λ b. b < 128) bytes → decode bytes ≡ bytes

module _ (decode_utf8 : List ℕ → Str) where
  -- An escape joins the waiting bytes.
  pub unescape_escape :
      (bytes : List ℕ) (result rest : Str) (d e : ℕ)
      → is_hex d ≡ true
      → is_hex e ≡ true
      → unescape_from decode_utf8 bytes result (backslash ∷ d ∷ e ∷ rest)
        ≡ unescape_from decode_utf8 (bytes ++ (hex_value d * 16 + hex_value e) ∷ []) result rest
  unfolding unescape_from
  unescape_escape bytes result rest d e hd he = rw (hd, he)

  unescape_plain :
      (bytes : List ℕ) (result rest : Str) (c : ℕ)
      → c ≢ backslash
      → unescape_from decode_utf8 bytes result (c ∷ rest)
        ≡ unescape_from decode_utf8 [] (flush_bytes decode_utf8 bytes result ++ c ∷ []) rest
  unfolding unescape_from
  unescape_plain bytes result [] c h = refl
  unescape_plain bytes result (d ∷ []) c h = sym (append_assoc _ (c ∷ []) (d ∷ []))
  unescape_plain bytes result (d ∷ e ∷ rest) c h = ground arith

module _ (decode_utf8 : List ℕ → Str) (ascii : KeepsAscii decode_utf8) where
  flush_ascii :
      (bytes : List ℕ) (result : Str)
      → All (λ b. b < 128) bytes
      → flush_bytes decode_utf8 bytes result ≡ result ++ bytes
  flush_ascii [] result h = sym (append-nil result)
  flush_ascii (b ∷ bytes) result h = rw (ascii (b ∷ bytes) h)

  unescape_from-escape :
      (v : Str) (bytes : List ℕ) (result : Str)
      → All (λ b. b < 128) bytes
      → unescape_from decode_utf8 bytes result (escape_ldap_filter_value v) ≡ result ++ (bytes ++ v)
  unescape_from-escape [] bytes result h =
      ap (unescape_from decode_utf8 bytes result) escape-nil
      ∙ unfold unescape_from in
        flush_ascii bytes result h ∙ ap (λ t. result ++ t) (sym (append-nil bytes))
  unescape_from-escape (c ∷ v) bytes result h = elim (escape_char-cases c) [
    | inl (d, e, hd, he, value, small, eq) ↦
        let waiting = All-append (λ b. b < 128) bytes (c ∷ []) h (small, tt) in
        ap (unescape_from decode_utf8 bytes result) (escape-cons c v (backslash ∷ d ∷ e ∷ []) eq)
        ∙ unescape_escape decode_utf8 bytes result (escape_ldap_filter_value v) d e hd he
        ∙ ap (λ b. unescape_from decode_utf8 (bytes ++ b ∷ []) result (escape_ldap_filter_value v))
            value
        ∙ unescape_from-escape v (bytes ++ c ∷ []) result waiting
        ∙ ap (λ t. result ++ t) (append_assoc bytes (c ∷ []) v)
    | inr (plain, eq) ↦
        ap (unescape_from decode_utf8 bytes result) (escape-cons c v (c ∷ []) eq)
        ∙ unescape_plain decode_utf8 bytes result (escape_ldap_filter_value v) c plain
        ∙ unescape_from-escape v [] (flush_bytes decode_utf8 bytes result ++ c ∷ []) tt
        ∙ append_assoc _ (c ∷ []) v
        ∙ ap (λ t. t ++ c ∷ v) (flush_ascii bytes result h)
        ∙ append_assoc result bytes (c ∷ v)
  ]

  -- `unescapeLdapFilterValue` undoes `escapeLdapFilterValue` on every text, where the platform's
  -- decoder reads ASCII bytes as themselves.
  pub unescape-escape_ldap_filter_value :
      (value : Str)
      → unescape_ldap_filter_value decode_utf8 (escape_ldap_filter_value value) ≡ value
  unfolding unescape_ldap_filter_value
  unescape-escape_ldap_filter_value value = unescape_from-escape value [] [] tt
