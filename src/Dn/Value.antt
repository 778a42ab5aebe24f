-- ===== src/Dn/Value.antt =====
-- `decodeEscapedValue`, `rdnConfirmationToken` and `parseRdnAttributes` of frontend/src/lib/dn.ts.
-- `decode_utf8` is the platform's `TextDecoder.decode`, which replaces bad bytes and does not throw.
use dbx_plugin_ldap.Base.{
  ℕ, suc, ◌+◌, ◌-◌, ◌*◌, ◌≡◌, ◌≢◌, inl, inr, refl, sym, ap, ◌∙◌, Bool, true, false, ◌&&◌, Option,
  none, some, List, [], ◌∷◌, ◌++◌, map, append-nil, append_assoc, arith, length, take, drop, Str,
  is_empty, starts_with, ends_with, trim, is_hex, hex_value, ◌==◌, if◌then◌else◌, Bool-cases,
}
use dbx_plugin_ldap.Dn.{
  backslash, trim_to_string, find_top_level_char, split_top_level, split_first_dn_rdn,
  is_likely_rdn,
}

pub data RdnError : Type 0 where
  invalid_rdn ber_encoded : RdnError

pub data Parsed (A : Type 0) : Type 0 where
  ok : A → Parsed A
  throws : RdnError → Parsed A

infixl 5 ◌>>=◌
abbrev pub ◌>>=◌ : {A B : Type 0} → Parsed A → (A → Parsed B) → Parsed B
ok a >>= f = f a
throws e >>= f = throws e

pub record AttributeValue : Type 0 where
  pub attribute : Str
  pub value : Str

abbrev pub filled : List Str → List Str
filled [] = []
filled (s ∷ ss) = if is_empty s then filled ss else s ∷ filled ss

module _ (decode_utf8 : List ℕ → Str) where
  -- `flushEscapedBytes`: the output with the pending bytes behind it.
  abbrev pub flush_escaped_bytes : List ℕ → Str → Str
  flush_escaped_bytes [] output = output
  flush_escaped_bytes (b ∷ bytes) output = output ++ decode_utf8 (b ∷ bytes)

  -- The loop over `index`; the last argument is `text.slice(index)`.
  unfoldable pub decode_from : List ℕ → Str → Str → Str
  decode_from bytes output [] = flush_escaped_bytes bytes output
  decode_from bytes output (c ∷ []) =
      if c == backslash
      then flush_escaped_bytes bytes output
      else flush_escaped_bytes bytes output ++ c ∷ []
  decode_from bytes output (c ∷ d ∷ []) =
      let copied = decode_from [] (flush_escaped_bytes bytes output ++ c ∷ []) (d ∷ []) in
      if c == backslash then flush_escaped_bytes bytes output ++ d ∷ [] else copied
  decode_from bytes output (c ∷ d ∷ e ∷ s) =
      let copied = decode_from [] (flush_escaped_bytes bytes output ++ c ∷ []) (d ∷ e ∷ s) in
      let collected = decode_from (bytes ++ (hex_value d * 16 + hex_value e) ∷ []) output s in
      let escaped = decode_from [] (flush_escaped_bytes bytes output ++ d ∷ []) (e ∷ s) in
      if c == backslash then if is_hex d && is_hex e then collected else escaped else copied

  unfoldable pub decode_escaped_value : Str → Str
  unfolding decode_from
  decode_escaped_value value = decode_from [] [] value

  abbrev pub token_at : Str → Str → Option ℕ → Str
  token_at rdn component none = rdn
  token_at rdn component (some i) = trim (decode_escaped_value (drop (suc i) component))

  abbrev pub token_of : Str → List Str → Str
  token_of rdn (component ∷ []) = token_at rdn component (find_top_level_char component (b'=' ∷ []))
  token_of rdn components = rdn

  unfoldable pub rdn_confirmation_token : Str → Str
  unfolding decode_escaped_value split_first_dn_rdn split_top_level find_top_level_char
  rdn_confirmation_token dn =
      let rdn = (split_first_dn_rdn dn).rdn in
      if is_empty rdn then [] else token_of rdn (filled (map trim (split_top_level rdn b'+')))

  abbrev pub unquoted : Str → Str
  unquoted value =
      if starts_with value (b'"' ∷ []) && ends_with value (b'"' ∷ [])
      then drop 1 (take (length value - 1) value)
      else value

  -- `slice(0, -1)` and `slice(0)` where no `=` is found.
  abbrev pub attribute_at : Str → Option ℕ → AttributeValue
  attribute_at component none = record {
    attribute = trim (take (length component - 1) component);
    value = trim_to_string component;
  }
  attribute_at component (some i) = record {
    attribute = trim (take i component);
    value = trim_to_string (drop (suc i) component);
  }

  unfoldable pub parse_attribute : Str → Parsed AttributeValue
  unfolding trim_to_string find_top_level_char decode_escaped_value
  parse_attribute component =
      let raw = attribute_at component (find_top_level_char component (b'=' ∷ [])) in
      if starts_with raw.value (b'#' ∷ [])
      then throws ber_encoded
      else ok
          (record { attribute = raw.attribute; value = decode_escaped_value (unquoted raw.value) })

  unfoldable pub parse_attributes : List Str → Parsed (List AttributeValue)
  unfolding parse_attribute
  parse_attributes [] = ok []
  parse_attributes (component ∷ components) = do
    a ← parse_attribute component
    more ← parse_attributes components
    ok (a ∷ more)

  unfoldable pub parse_rdn_attributes : Str → Parsed (List AttributeValue)
  unfolding is_likely_rdn split_top_level parse_attributes
  parse_rdn_attributes rdn =
      if is_likely_rdn rdn then parse_attributes (split_top_level rdn b'+') else throws invalid_rdn

-- A backslash before every character that `special` picks.
unfoldable pub escape_special : (ℕ → Bool) → Str → Str
escape_special special [] = []
escape_special special (c ∷ s) =
    if special c then backslash ∷ c ∷ escape_special special s else c ∷ escape_special special s

module _ (special : ℕ → Bool) (c : ℕ) (s : Str) where
  escape_special_hit :
      special c ≡ true → escape_special special (c ∷ s) ≡ backslash ∷ c ∷ escape_special special s
  unfolding escape_special
  escape_special_hit a = rw a

  escape_special_miss :
      special c ≡ false → escape_special special (c ∷ s) ≡ c ∷ escape_special special s
  unfolding escape_special
  escape_special_miss a = rw a

module _ (decode_utf8 : List ℕ → Str) where
  decode_from_escape :
      (output : Str) (c : ℕ) (rest : Str)
      → is_hex c ≡ false
      → decode_from decode_utf8 [] output (backslash ∷ c ∷ rest)
        ≡ decode_from decode_utf8 [] (output ++ c ∷ []) rest
  unfolding decode_from
  decode_from_escape output c [] h = refl
  decode_from_escape output c (e ∷ rest) h = rw h refl

  decode_from_char :
      (output : Str) (c : ℕ) (rest : Str)
      → c ≢ backslash
      → decode_from decode_utf8 [] output (c ∷ rest)
        ≡ decode_from decode_utf8 [] (output ++ c ∷ []) rest
  unfolding decode_from
  decode_from_char output c [] h = ground arith
  decode_from_char output c (d ∷ []) h = ground arith
  decode_from_char output c (d ∷ e ∷ rest) h = ground arith

  decode_from-escape_special :
      (special : ℕ → Bool)
      → special backslash ≡ true
      → ((c : ℕ) → special c ≡ true → is_hex c ≡ false)
      → (s output : Str)
      → decode_from decode_utf8 [] output (escape_special special s) ≡ output ++ s
  decode_from-escape_special special b h [] output =
      unfold escape_special decode_from in sym (append-nil output)
  decode_from-escape_special special b h (c ∷ s) output =
      let ih = decode_from-escape_special special b h s (output ++ c ∷ []) in
      let regroup = ih ∙ append_assoc output (c ∷ []) s in
      elim (Bool-cases (special c)) [
        | inl a ↦
            ap (decode_from decode_utf8 [] output) (escape_special_hit special c s a)
            ∙ decode_from_escape output c (escape_special special s) (h c a)
            ∙ regroup
        | inr a ↦
            ap (decode_from decode_utf8 [] output) (escape_special_miss special c s a)
            ∙ decode_from_char output c (escape_special special s) (λ e. cc (b, ap special e))
            ∙ regroup
      ]

  -- A value with a backslash before each character of any set that holds the backslash and no
  -- hexadecimal digit is decoded to itself, whatever the platform's decoder does.
  pub decode_escaped_value-escape_special :
      (special : ℕ → Bool)
      → special backslash ≡ true
      → ((c : ℕ) → special c ≡ true → is_hex c ≡ false)
      → (s : Str) → decode_escaped_value decode_utf8 (escape_special special s) ≡ s
  unfolding decode_escaped_value
  decode_escaped_value-escape_special special b h s = decode_from-escape_special special b h s []
