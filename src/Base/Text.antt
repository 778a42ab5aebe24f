-- ===== src/Base/Text.antt =====
-- JavaScript strings as lists of UTF-16 code units, with the methods that the source calls.
use Prim.Native.Nat.{ℕ, ◌+◌, ◌-◌}
use Prim.Native.Char.{code}
use Prim.Native.String.{String}
use mathlib.Core.Logic.{◌≢◌}
use mathlib.Core.Path.{◌≡◌, refl, ap, sym}
use mathlib.Core.Bool.{Bool, true, false, ◌&&◌, ◌||◌}
use mathlib.Core.List.{List, [], ◌∷◌, ◌++◌, reverse, append-nil}
use native.Mathlib.Omega.{arith}
use dbx_plugin_ldap.Base.Tests.{leb, ◌==◌, if◌then◌else◌}

abbrev pub Str : Type 0
Str = List ℕ

-- The code units of a literal, which is ASCII everywhere in this library.
abbrev pub codes : String → Str
codes String.[] = []
codes (String.◌∷◌ c s) = code c ∷ codes s

-- `===` on strings.
abbrev pub str_eq : Str → Str → Bool
str_eq [] [] = true
str_eq [] (d ∷ t) = false
str_eq (c ∷ s) [] = false
str_eq (c ∷ s) (d ∷ t) = c == d && str_eq s t

pub str_eq_refl : (s : Str) → str_eq s s ≡ true
str_eq_refl [] = refl
str_eq_refl (c ∷ s) = ground (arith, str_eq_refl s)

pub str_eq→eq : (s t : Str) → str_eq s t ≡ true → s ≡ t
str_eq→eq [] [] h = refl
str_eq→eq [] (d ∷ t) h = cc
str_eq→eq (c ∷ s) [] h = cc
str_eq→eq (c ∷ s) (d ∷ t) h = ground (arith, str_eq→eq s t)

abbrev pub is_empty : Str → Bool
is_empty [] = true
is_empty (c ∷ s) = false

-- `text.startsWith(prefix)`.
abbrev pub starts_with : Str → Str → Bool
starts_with s [] = true
starts_with [] (p ∷ ps) = false
starts_with (c ∷ s) (p ∷ ps) = c == p && starts_with s ps

-- `text.includes(query)`.
unfoldable pub includes : Str → Str → Bool
includes [] query = starts_with [] query
includes (c ∷ s) query = starts_with (c ∷ s) query || includes s query

-- `text.endsWith(suffix)`.
abbrev pub ends_with : Str → Str → Bool
ends_with s p = starts_with (reverse s) (reverse p)

-- The code units that `\s` matches and `trim` strips: white space and line terminators.
unfoldable pub is_space : ℕ → Bool
is_space c =
    (leb 9 c && leb c 13)
    || c == 0x20
    || c == 0xa0
    || c == 0x1680
    || (leb 0x2000 c && leb c 0x200a)
    || c == 0x2028
    || c == 0x2029
    || c == 0x202f
    || c == 0x205f
    || c == 0x3000
    || c == 0xfeff

abbrev pub trim_start : Str → Str
trim_start [] = []
trim_start (c ∷ s) = if is_space c then trim_start s else c ∷ s

abbrev pub trim : Str → Str
trim s = reverse (trim_start (reverse (trim_start s)))

-- `parts.join(separator)`.
abbrev pub join : Str → List Str → Str
join sep [] = []
join sep (p ∷ []) = p
join sep (p ∷ q ∷ ps) = p ++ (sep ++ join sep (q ∷ ps))

-- `[0-9]`, `[A-Za-z]`, `[0-9a-fA-F]`.
unfoldable pub is_digit : ℕ → Bool
is_digit c = leb b'0' c && leb c b'9'

unfoldable pub is_alpha : ℕ → Bool
is_alpha c = (leb b'a' c && leb c b'z') || (leb b'A' c && leb c b'Z')

unfoldable pub is_hex : ℕ → Bool
unfolding is_digit
is_hex c = is_digit c || (leb b'a' c && leb c b'f') || (leb b'A' c && leb c b'F')

-- The value of a hexadecimal digit, as `parseInt(_, 16)` reads it.
unfoldable pub hex_value : ℕ → ℕ
unfolding is_digit
hex_value c = if is_digit c then c - b'0' else if leb b'a' c then c - 87 else c - 55

-- `/^[A-Za-z0-9-]$/`.
unfoldable pub is_name_char : ℕ → Bool
unfolding is_alpha is_digit
is_name_char c = is_alpha c || is_digit c || c == b'-'

-- `toLowerCase` on ASCII text: a concrete case folding for tests.
unfoldable pub lower_char : ℕ → ℕ
lower_char c = if leb b'A' c && leb c b'Z' then c + 32 else c

abbrev pub ascii_lower : Str → Str
ascii_lower [] = []
ascii_lower (c ∷ s) = lower_char c ∷ ascii_lower s

pub ascii_lower-append : (s t : Str) → ascii_lower (s ++ t) ≡ ascii_lower s ++ ascii_lower t
ascii_lower-append [] t = refl
ascii_lower-append (c ∷ s) t = ap (λ u. lower_char c ∷ u) (ascii_lower-append s t)

abbrev pub elem : ℕ → Str → Bool
elem c [] = false
elem c (d ∷ s) = c == d || elem c s

pub join-cons :
    (sep p : Str) (ps : List Str) → ps ≢ [] → join sep (p ∷ ps) ≡ p ++ (sep ++ join sep ps)
join-cons sep p [] h = absurd (h refl)
join-cons sep p (q ∷ ps) h = refl

pub join_nil-cons : (f : Str) (fs : List Str) → join [] (f ∷ fs) ≡ f ++ join [] fs
join_nil-cons f [] = sym (append-nil f)
join_nil-cons f (g ∷ fs) = refl
