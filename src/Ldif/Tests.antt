-- ===== src/Ldif/Tests.antt =====
-- Runs of the functions of frontend/src/lib/ldif.ts, and the theorems at concrete inputs.
use dbx_plugin_ldap.Base.{
  ◌≡◌, refl, true, Option, some, [], ◌∷◌, ◌++◌, ◌+◌, ◌-◌, List, ap, sym, ◌∙◌, arith, All, Str,
  codes, length, join, is_space, is_digit, is_alpha, is_name_char, lower_char, ◌≤◌,
}
use mathlib.Core.Option.{some-injective}
use mathlib.Core.Path.{subst}
use dbx_plugin_ldap.Description.{matches_description}
use dbx_plugin_ldap.Ldif.{
  lf, LdifEntry, LdifSerializeOptions, default_options, malformed_line, needs_base64, fold_parts,
  fold_line, attribute_text, serialize_entries_to_ldif, split_lines, unfold_lines,
}
use dbx_plugin_ldap.Ldif.Parse.{result, type_error, parse_attribute_line, parse_ldif}
use dbx_plugin_ldap.Ldif.Fold.{fold_parts-narrow}
use dbx_plugin_ldap.Ldif.Unfold.{text_line, unfold_lines-fold_line}
use dbx_plugin_ldap.Ldif.Attribute.{IsClean, IsCodec}
use dbx_plugin_ldap.Ldif.Reading.{IsAttributeName}
use dbx_plugin_ldap.Ldif.RoundTrip.{parse_ldif-serialize_entries_to_ldif}

tests : Unit {0}
unfolding is_space is_digit is_alpha is_name_char lower_char matches_description needs_base64
    fold_parts fold_line attribute_text serialize_entries_to_ldif split_lines unfold_lines
    parse_attribute_line parse_ldif
tests = tt

-- A codec for the runs: each code unit is moved out of the range of the blanks and line breaks.
abbrev shift : Str → Str
shift [] = []
shift (c ∷ s) = (c + 0x100) ∷ shift s

abbrev unshift : Str → Str
unshift [] = []
unshift (c ∷ s) = (c - 0x100) ∷ unshift s

abbrev encode : Str → Option Str
encode s = some (shift s)

abbrev decode : Str → Option Str
decode b = some (unshift b)

unshift-shift : (s : Str) → unshift (shift s) ≡ s
unshift-shift [] = refl
unshift-shift (c ∷ s) =
    let back : (c + 0x100) - 0x100 ≡ c = omega arith in
    ap (λ d. d ∷ unshift (shift s)) back ∙ ap (λ t. c ∷ t) (unshift-shift s)

IsClean-shift : (s : Str) → All IsClean (shift s)
IsClean-shift [] = tt
IsClean-shift (c ∷ s) = ((omega arith, omega arith, omega arith, omega arith), IsClean-shift s)

codec : IsCodec encode decode
codec = record {
  decodes = λ s b h. ap decode (sym (some-injective (shift s) b h)) ∙ ap some (unshift-shift s);
  clean = λ s b h. subst (All IsClean) (some-injective (shift s) b h) (IsClean-shift s);
}

serialize_runs :
    serialize_entries_to_ldif encode
      (record { dn = codes "o=x"; attributes = (codes "cn", codes "a" ∷ []) ∷ [] } ∷ [])
      default_options
    ≡ some (join (lf ∷ []) (codes "version: 1" ∷ [] ∷ codes "dn: o=x" ∷ codes "cn: a" ∷ []))
unfolding tests
serialize_runs = refl

parse_runs :
    parse_ldif decode (
      join (lf ∷ []) (
        codes "version: 1"
        ∷ []
        ∷ codes "dn: o="
        ∷ codes " x"
        ∷ codes "cn: a"
        ∷ codes "CN"
        ∷ []
        ∷ codes "dn: o=y"
        ∷ []))
    ≡ result
        (record { dn = codes "o=y"; attributes = [] } ∷ [])
        (record { line = 6; message = malformed_line (codes "CN") } ∷ [])
unfolding tests
parse_runs = refl

inherited_runs :
    parse_ldif decode (join (lf ∷ []) (codes "dn: o=x" ∷ codes "constructor: a" ∷ [])) ≡ type_error
unfolding tests
inherited_runs = refl

unfold_lines-fold_line_example :
    unfold_lines (fold_line (codes "cn: abc") 3) ≡ text_line (codes "cn: abc") 0 ∷ []
unfold_lines-fold_line_example =
    unfold_lines-fold_line b'c' (codes "n: abc") 3 (omega arith) (omega arith, omega arith)
      (
        (omega arith, omega arith),
        (
          (omega arith, omega arith),
          (
            (omega arith, omega arith),
            (
              (omega arith, omega arith),
              (
                (omega arith, omega arith),
                ((omega arith, omega arith), ((omega arith, omega arith), tt)),
              ),
            ),
          ),
        ),
      )

fold_parts-narrow_example : All (λ p. length p ≤ 3) (fold_parts (codes "cn: abc") 3)
fold_parts-narrow_example = fold_parts-narrow (codes "cn: abc") 3 (omega arith)

described : matches_description (codes "cn;x-a") ≡ true
unfolding tests
described = refl

written :
    attribute_text encode (codes "cn;x-a") (codes " é")
    ≡ some (codes "cn;x-a:: " ++ shift (codes " é"))
unfolding tests
written = refl

abbrev two_entries : List LdifEntry
two_entries =
    record { dn = codes "o=x"; attributes = (codes "cn", codes "a" ∷ codes " é" ∷ []) ∷ [] }
    ∷ record { dn = codes "é"; attributes = (codes "sn", [] ∷ []) ∷ [] }
    ∷ []

abbrev narrow : LdifSerializeOptions
narrow = record { version = codes "1"; line_width = 5; include_version = true }

abbrev two_text : Str
two_text = join (lf ∷ []) (
    codes "version: 1"
    ∷ []
    ∷ codes "dn: o"
    ∷ codes " =x"
    ∷ codes "cn: a"
    ∷ (codes "cn:: " ++ [])
    ∷ (codes " " ++ shift (codes " é"))
    ∷ []
    ∷ (codes "dn:: " ++ [])
    ∷ (codes " " ++ shift (codes "é"))
    ∷ codes "sn: "
    ∷ [])

two_written : serialize_entries_to_ldif encode two_entries narrow ≡ some two_text
unfolding tests
two_written = refl

cn-IsAttributeName : IsAttributeName (codes "cn")
unfolding tests
cn-IsAttributeName = record { described = refl; no_changetype = refl; no_dn = refl; own = refl }

sn-IsAttributeName : IsAttributeName (codes "sn")
unfolding tests
sn-IsAttributeName = record { described = refl; no_changetype = refl; no_dn = refl; own = refl }

parse_ldif-serialize_entries_to_ldif_example : parse_ldif decode two_text ≡ result two_entries []
parse_ldif-serialize_entries_to_ldif_example =
    parse_ldif-serialize_entries_to_ldif encode decode narrow two_entries two_text codec
      (omega arith) ((omega arith, omega arith), tt)
      ((cn-IsAttributeName, tt, tt), ((sn-IsAttributeName, tt, tt), tt)) two_written
