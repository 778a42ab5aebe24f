-- ===== src/Filter/Guid.antt =====
-- `buildObjectGuidEqualityFilter` and `buildBinaryEqualityFilter` of frontend/src/lib/ldapFilter.ts:
-- the bytes of a GUID, and their escapes.
use dbx_plugin_ldap.Base.{
  ℕ, zero, suc, ◌+◌, ◌*◌, ◌/◌, ◌%◌, ◌<◌, ◌≡◌, ◌⊎◌, inl, inr, refl, sym, ap, ◌∙◌, Bool, true, false,
  ◌&&◌, List, [], ◌∷◌, ◌++◌, append-nil, append_assoc, reverse, reverse-cons, arith, length, take,
  drop, length-append, length-drop, length-take, length-reverse, All, All-append, Str, codes,
  is_space, trim, is_hex, hex_value, is_name_char, ◌==◌, if◌then◌else◌, &&_split,
}
use mathlib.Core.Path.{subst}
use mathlib.Core.List.{flat_map}
use dbx_plugin_ldap.Filter.Escape.{
  backslash, flush_bytes, unescape_from, unescape_escape, unescape_ldap_filter_value,
}
use dbx_plugin_ldap.Filter.Assertion.{
  ok, item, hex_digit, hex_escape, is_valid_ldap_attribute_description,
  build_binary_equality_filter, fits_template, guid_template, is_guid, without_dashes, hex_pairs,
  mixed_endian, build_object_guid_equality_filter,
}

hex_digit-hex : (n : ℕ) → n < 16 → (is_hex (hex_digit n) ≡ true) × (hex_value (hex_digit n) ≡ n)
unfolding hex_digit is_hex hex_value
hex_digit-hex n h = (ground arith, ground arith)

hex_value-lt : (c : ℕ) → is_hex c ≡ true → hex_value c < 16
unfolding is_hex hex_value
hex_value-lt c h = ground arith

abbrev pub IsByte : ℕ → Type 0
IsByte b = b < 256

-- The digits of an escaped byte.
pub hex_escape-cases :
    (b : ℕ)
    → IsByte b
    → (d : ℕ) × (e : ℕ) × (is_hex d ≡ true)
      × (is_hex e ≡ true)
      × (hex_value d * 16 + hex_value e ≡ b)
      × (hex_escape b ≡ backslash ∷ d ∷ e ∷ [])
unfolding hex_escape
hex_escape-cases b h =
    let (p, pv) = hex_digit-hex (b / 16) (omega arith) in
    let (q, qv) = hex_digit-hex (b % 16) (omega arith) in
    (hex_digit (b / 16), hex_digit (b % 16), p, q, omega arith, refl)

module _ {ℓ} {A : Type ℓ} (P : A → Type 0) where
  All-take : (n : ℕ) (xs : List A) → All P xs → All P (take n xs)
  All-take zero xs h = tt
  All-take (suc n) [] h = tt
  All-take (suc n) (x ∷ xs) (p, h) = (p, All-take n xs h)

  All-drop : (n : ℕ) (xs : List A) → All P xs → All P (drop n xs)
  All-drop zero xs h = h
  All-drop (suc n) [] h = tt
  All-drop (suc n) (x ∷ xs) (p, h) = All-drop n xs h

  All-reverse : (xs : List A) → All P xs → All P (reverse xs)
  All-reverse [] h = tt
  All-reverse (x ∷ xs) (p, h) =
      subst (All P) (sym (reverse-cons x xs))
        (All-append P (reverse xs) (x ∷ []) (All-reverse xs h) (p, tt))

mixed_endian-All : (P : ℕ → Type 0) (bs : List ℕ) → All P bs → All P (mixed_endian bs)
unfolding mixed_endian
mixed_endian-All P bs h = All-append P _ _ (All-reverse P (take 4 bs) (All-take P 4 bs h)) (
    All-append P _ _
      (All-reverse P (take 2 (drop 4 bs)) (All-take P 2 (drop 4 bs) (All-drop P 4 bs h)))
      (All-append P _ _
        (All-reverse P (take 2 (drop 6 bs)) (All-take P 2 (drop 6 bs) (All-drop P 6 bs h)))
        (All-drop P 8 bs h)))

hex_pairs-IsByte : (s : Str) → All (λ c. is_hex c ≡ true) s → All IsByte (hex_pairs s)
unfolding hex_pairs
hex_pairs-IsByte [] h = tt
hex_pairs-IsByte (c ∷ []) h = tt
hex_pairs-IsByte (c ∷ d ∷ s) (p, (q, h)) =
    (omega (arith, hex_value-lt c p, hex_value-lt d q), hex_pairs-IsByte s h)

-- A template of `x` and `-`.
abbrev IsTemplate : Str → Type 0
IsTemplate = All (λ x. (x ≡ b'x') ⊎ (x ≡ b'-'))

digits_of : Str → ℕ
digits_of [] = 0
digits_of (x ∷ xs) = let rest = digits_of xs in if x == b'x' then suc rest else rest

hex_dash : (c : ℕ) → is_hex c ≡ true → c == b'-' ≡ false
unfolding is_hex
hex_dash c h = ground arith

-- Without its dashes, a text that fits a template is hexadecimal, with a digit for each `x`.
fits_template-digits :
    (t s : Str)
    → IsTemplate t
    → fits_template t s ≡ true
    → All (λ c. is_hex c ≡ true) (without_dashes s) × (length (without_dashes s) ≡ digits_of t)
unfolding fits_template without_dashes digits_of
fits_template-digits [] [] h f = (tt, refl)
fits_template-digits [] (c ∷ s) h f = cc
fits_template-digits (x ∷ t) [] h f = cc
fits_template-digits (x ∷ t) (c ∷ s) (inl e, h) f =
    let isx : x == b'x' ≡ true = ground arith in
    let (hx, f') = &&_split (is_hex c) _ (rw isx at f) in
    let (all_hex, count) = fits_template-digits t s h f' in
    rw (hex_dash c hx, isx) ((hx, all_hex), ap suc count)
fits_template-digits (x ∷ t) (c ∷ s) (inr e, h) f =
    let isx : x == b'x' ≡ false = ground arith in
    let (same, f') = &&_split (c == x) _ (rw isx at f) in
    let dash : c == b'-' ≡ true = ground arith in rw (dash, isx) (fits_template-digits t s h f')

guid_template-IsTemplate : IsTemplate guid_template
guid_template-IsTemplate = omega arith

length-hex_pairs : (n : ℕ) (s : Str) → length s ≡ n + n → length (hex_pairs s) ≡ n
unfolding hex_pairs
length-hex_pairs n [] h = omega arith
length-hex_pairs n (c ∷ []) h = absurd (omega arith)
length-hex_pairs zero (c ∷ d ∷ s) h = absurd (omega arith)
length-hex_pairs (suc n) (c ∷ d ∷ s) h = ap suc (length-hex_pairs n s (omega arith))

length-mixed_endian : (bs : List ℕ) → length bs ≡ 16 → length (mixed_endian bs) ≡ 16
unfolding mixed_endian
length-mixed_endian bs h = omega (
  arith,
  length-append {0} (reverse (take 4 bs))
      (reverse (take 2 (drop 4 bs)) ++ (reverse (take 2 (drop 6 bs)) ++ drop 8 bs)),
  length-append {0} (reverse (take 2 (drop 4 bs))) (reverse (take 2 (drop 6 bs)) ++ drop 8 bs),
  length-append {0} (reverse (take 2 (drop 6 bs))) (drop 8 bs),
  length-reverse {0} (take 4 bs),
  length-reverse {0} (take 2 (drop 4 bs)),
  length-reverse {0} (take 2 (drop 6 bs)),
  length-take {0} 4 bs,
  length-take {0} 2 (drop 4 bs),
  length-take {0} 2 (drop 6 bs),
  length-drop {0} 4 bs,
  length-drop {0} 6 bs,
  length-drop {0} 8 bs,
)

-- The bytes that `buildObjectGuidEqualityFilter` hands on.
abbrev pub guid_bytes : Str → List ℕ
guid_bytes guid = mixed_endian (hex_pairs (without_dashes guid))

pub guid_bytes-IsByte :
    (guid : Str)
    → is_guid guid ≡ true
    → All IsByte (guid_bytes guid) × (length (guid_bytes guid) ≡ 16)
unfolding is_guid
guid_bytes-IsByte guid h =
    let (all_hex, count) = fits_template-digits guid_template guid guid_template-IsTemplate h in
    let pairs = hex_pairs (without_dashes guid) in
    (
      mixed_endian-All IsByte pairs (hex_pairs-IsByte (without_dashes guid) all_hex),
      length-mixed_endian pairs (length-hex_pairs 16 _ (unfold digits_of in count)),
    )

build_binary_ok :
    (attr : Str) (bs : List ℕ)
    → is_valid_ldap_attribute_description (trim attr) ≡ true
    → length bs ≡ 16
    → build_binary_equality_filter attr bs
      ≡ ok (item (trim attr) (codes "=") (flat_map hex_escape bs))
unfolding build_binary_equality_filter
build_binary_ok attr bs valid h = rw (valid, h) (rw (both_off _) refl)
  where
    both_off : (b : Bool) → (b && false) ≡ false
    both_off true = refl
    both_off false = refl

object_guid_name :
    (is_valid_ldap_attribute_description (trim (codes "objectGUID")) ≡ true)
    × (trim (codes "objectGUID") ≡ codes "objectGUID")
unfolding is_valid_ldap_attribute_description is_name_char is_space
object_guid_name = (refl, refl)

-- A GUID in its canonical form is never refused.
pub build_object_guid_ok :
    (guid : Str)
    → is_guid (trim guid) ≡ true
    → build_object_guid_equality_filter guid
      ≡ ok (item (codes "objectGUID") (codes "=") (flat_map hex_escape (guid_bytes (trim guid))))
unfolding build_object_guid_equality_filter
build_object_guid_ok guid h = rw h (
    build_binary_ok (codes "objectGUID") (guid_bytes (trim guid)) object_guid_name.0
      (guid_bytes-IsByte (trim guid) h).1
    ∙ ap (λ a. ok (item a (codes "=") (flat_map hex_escape (guid_bytes (trim guid)))))
        object_guid_name.1)

-- Swapping the byte order twice gives the bytes back.
pub mixed_endian_involutive : (bs : List ℕ) → length bs ≡ 16 → mixed_endian (mixed_endian bs) ≡ bs
unfolding mixed_endian
mixed_endian_involutive (a ∷ b ∷ c ∷ d ∷ e ∷ f ∷ g ∷ h ∷ bs) l = refl
mixed_endian_involutive bs l = absurd (omega arith)

module _ (decode_utf8 : List ℕ → Str) where
  unescape_from-hex_escape :
      (bs waiting : List ℕ) (result : Str)
      → All IsByte bs
      → unescape_from decode_utf8 waiting result (flat_map hex_escape bs)
        ≡ flush_bytes decode_utf8 (waiting ++ bs) result
  unfolding flat_map
  unescape_from-hex_escape [] waiting result h =
      unfold unescape_from in ap (λ t. flush_bytes decode_utf8 t result) (sym (append-nil waiting))
  unescape_from-hex_escape (b ∷ bs) waiting result (p, h) =
      let (d, e, hd, he, value, eq) = hex_escape-cases b p in
      ap (λ t. unescape_from decode_utf8 waiting result (t ++ flat_map hex_escape bs)) eq
      ∙ unescape_escape decode_utf8 waiting result _ d e hd he
      ∙ ap (λ v. unescape_from decode_utf8 (waiting ++ v ∷ []) result (flat_map hex_escape bs))
          value
      ∙ unescape_from-hex_escape bs (waiting ++ b ∷ []) result h
      ∙ ap (λ t. flush_bytes decode_utf8 t result) (append_assoc waiting (b ∷ []) bs)

  -- The assertion value that `buildBinaryEqualityFilter` writes hands exactly its bytes to the decoder.
  pub unescape-hex_escape :
      (b : ℕ) (bs : List ℕ)
      → All IsByte (b ∷ bs)
      → unescape_ldap_filter_value decode_utf8 (flat_map hex_escape (b ∷ bs)) ≡ decode_utf8 (b ∷ bs)
  unfolding unescape_ldap_filter_value
  unescape-hex_escape b bs h = unescape_from-hex_escape (b ∷ bs) [] [] h
