-- ===== src/Dn/Tests.antt =====
-- Runs of the functions of frontend/src/lib/dn.ts, and the theorems at concrete inputs.
use dbx_plugin_ldap.Base.{
  ℕ, ◌≡◌, inl, refl, Bool, true, false, ◌||◌, none, List, [], ◌∷◌, arith, All, Str, codes, is_space,
  join, is_digit, is_alpha, is_hex, hex_value, ◌==◌, lower_char, ascii_lower, ascii_lower-append,
}
use dbx_plugin_ldap.Dn.{
  backslash, comma, trim_to_string, has_valid_escapes_and_quotes, find_top_level_char,
  split_top_level, split_first_dn_rdn, is_likely_rdn, is_likely_dn, join_rdn_and_parent,
  dn_within_base,
}
use dbx_plugin_ldap.Dn.Split.{join-split_top_level, split_top_level-All}
use dbx_plugin_ldap.Dn.Join.{
  split_first_dn_rdn-join_rdn_and_parent, is_likely_dn-join_rdn_and_parent,
}
use dbx_plugin_ldap.Dn.Within.{Distributes, dn_within_base-join_rdn_and_parent}
use dbx_plugin_ldap.Dn.Value.{
  ok, throws, ber_encoded, decode_escaped_value, rdn_confirmation_token, parse_rdn_attributes,
  escape_special, decode_escaped_value-escape_special,
}

tests : Unit {0}
unfolding is_space is_hex is_digit is_alpha lower_char hex_value trim_to_string
    has_valid_escapes_and_quotes find_top_level_char split_top_level split_first_dn_rdn
    is_likely_rdn is_likely_dn join_rdn_and_parent dn_within_base decode_escaped_value
    rdn_confirmation_token parse_rdn_attributes escape_special
tests = tt

abbrev people : Str
people = codes "ou=People,dc=Demo,dc=dbx"

abbrev escaped : Str
escaped = codes "uid=x\\,dc=demo,dc=dbx"

split_runs : split_top_level escaped comma ≡ codes "uid=x\\,dc=demo" ∷ codes "dc=dbx" ∷ []
unfolding tests
split_runs = refl

trim_runs : trim_to_string (codes "  cn=a\\   ") ≡ codes "cn=a\\ "
unfolding tests
trim_runs = refl

within_runs :
    (dn_within_base ascii_lower people (codes "DC=demo,dc=dbx,") ≡ true)
    × (dn_within_base ascii_lower escaped (codes "dc=demo,dc=dbx") ≡ false)
unfolding tests
within_runs = (refl, refl)

likely_runs :
    (is_likely_dn people ≡ true)
    × (is_likely_dn (codes "ou=,dc=x") ≡ false)
    × (is_likely_rdn (codes "1.2.3=a+cn=\"x,y\"") ≡ true)
unfolding tests
likely_runs = (refl, refl, refl)

-- A decoder that copies bytes, which is UTF-8 on ASCII.
abbrev ascii_decode : List ℕ → Str
ascii_decode bytes = bytes

token_runs : rdn_confirmation_token ascii_decode (codes "cn=J\\2c D\\+x,dc=dbx") ≡ codes "J, D+x"
unfolding tests
token_runs = refl

parse_runs :
    (parse_rdn_attributes ascii_decode (codes "cn=\"a b\"+uid=j")
      ≡ ok (
          record { attribute = codes "cn"; value = codes "a b" }
          ∷ record { attribute = codes "uid"; value = codes "j" }
          ∷ []))
    × (parse_rdn_attributes ascii_decode (codes "cn=#04") ≡ throws ber_encoded)
unfolding tests
parse_runs = (refl, refl)

good_rdn : is_likely_rdn (codes " cn=a\\,b ") ≡ true
unfolding tests
good_rdn = refl

join-split_top_level_example : join (comma ∷ []) (split_top_level escaped comma) ≡ escaped
join-split_top_level_example = join-split_top_level escaped comma

split_top_level-All_example :
    All (λ part. find_top_level_char part (comma ∷ []) ≡ none) (split_top_level escaped comma)
split_top_level-All_example = split_top_level-All escaped comma

split_first_dn_rdn-join_rdn_and_parent_example :
    split_first_dn_rdn (join_rdn_and_parent (codes " cn=a\\,b ") people)
    ≡ record { rdn = trim_to_string (codes " cn=a\\,b "); parent_dn = trim_to_string people }
split_first_dn_rdn-join_rdn_and_parent_example =
    split_first_dn_rdn-join_rdn_and_parent (codes " cn=a\\,b ") people good_rdn

is_likely_dn-join_rdn_and_parent_example :
    is_likely_dn (join_rdn_and_parent (codes " cn=a\\,b ") people) ≡ true
is_likely_dn-join_rdn_and_parent_example =
    is_likely_dn-join_rdn_and_parent (codes " cn=a\\,b ") people good_rdn (inl likely_runs.0)

ascii_lower-Distributes : Distributes ascii_lower
unfolding lower_char
ascii_lower-Distributes s t = ascii_lower-append s (comma ∷ t)

dn_within_base-join_rdn_and_parent_example :
    dn_within_base ascii_lower (join_rdn_and_parent (codes " cn=a\\,b ") people) people ≡ true
dn_within_base-join_rdn_and_parent_example =
    dn_within_base-join_rdn_and_parent ascii_lower ascii_lower-Distributes (codes " cn=a\\,b ")
      people good_rdn

abbrev special : ℕ → Bool
special c = c == backslash || c == comma

special_plain : (c : ℕ) → special c ≡ true → is_hex c ≡ false
unfolding is_hex
special_plain c h = ground arith

decode_escaped_value-escape_special_example :
    decode_escaped_value ascii_decode (escape_special special (codes "a,\\b")) ≡ codes "a,\\b"
decode_escaped_value-escape_special_example =
    decode_escaped_value-escape_special ascii_decode special refl special_plain (codes "a,\\b")
