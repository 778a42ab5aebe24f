-- ===== src/Dn/Join.antt =====
-- `joinRdnAndParent`, `splitFirstDnRdn`, `isLikelyRdn` and `isLikelyDn` of frontend/src/lib/dn.ts
-- agree with each other.
use dbx_plugin_ldap.Base.{
  ℕ, ◌≡◌, ◌≢◌, ◌⊎◌, inl, inr, refl, sym, ap, ◌∙◌, Bool, true, false, not, Option, none, some, [],
  ◌∷◌, ◌++◌, arith, length, all, length-append, take-length_append, Str, is_empty, is_hex, ◌==◌,
  &&_split, &&_join,
}
use mathlib.Core.List.{cons-ne-nil}
use dbx_plugin_ldap.Dn.{
  backslash, quote, comma, trim_to_string, Expect, plain, escape, digit, valid_from,
  has_valid_escapes_and_quotes, find_top_level_char, split_top_level, split_at, split_first_dn_rdn,
  is_none, is_likely_rdn, is_likely_dn, join_rdn_and_parent,
}
use dbx_plugin_ldap.Dn.Scan.{run, IsClosed}
use dbx_plugin_ldap.Dn.Split.{find-joined, split_top_level-cons, split_top_level_single, drop-past}
use dbx_plugin_ldap.Dn.Trim.{
  IsTrimmed, IsTrimmed-join, trim_to_string-IsTrimmed, trim_to_string_of_IsTrimmed,
  trim_to_string_idem,
}

abbrev is_open : Expect → Bool
is_open plain = false
is_open escape = true
is_open digit = false

is_hex_plain : (c : ℕ) → is_hex c ≡ true → (c == backslash ≡ false) × (c == quote ≡ false)
unfolding is_hex
is_hex_plain c h = ground arith

valid_from-run :
    (m : Expect) (q : Bool) (s : Str)
    → valid_from m q s ≡ true
    → run (is_open m) q s ≡ (false, false)
unfolding valid_from run
valid_from-run plain q [] h = ground arith
valid_from-run escape q [] h = cc
valid_from-run digit q [] h = cc
valid_from-run plain q (c ∷ s) h =
    ground
      (arith, valid_from-run escape q s, valid_from-run plain (not q) s, valid_from-run plain q s)
valid_from-run escape q (c ∷ s) h =
    ground (arith, valid_from-run digit q s, valid_from-run plain q s)
valid_from-run digit q (c ∷ s) h = ground (arith, is_hex_plain c, valid_from-run plain q s)

-- Valid escapes and quotes leave no quote and no backslash open.
pub has_valid_escapes_and_quotes-IsClosed :
    (s : Str) → has_valid_escapes_and_quotes s ≡ true → IsClosed s
unfolding has_valid_escapes_and_quotes
has_valid_escapes_and_quotes-IsClosed s h = valid_from-run plain false s h

is_none→eq : (o : Option ℕ) → is_none o ≡ true → o ≡ none
is_none→eq none h = refl
is_none→eq (some i) h = cc

pub ne-nil_of_is_empty : (s : Str) → not (is_empty s) ≡ true → s ≢ []
ne-nil_of_is_empty [] h = cc
ne-nil_of_is_empty (c ∷ s) h = cons-ne-nil c s

pub is_empty_of_ne-nil : (s : Str) → s ≢ [] → is_empty s ≡ false
is_empty_of_ne-nil [] h = absurd (h refl)
is_empty_of_ne-nil (c ∷ s) h = refl

pub nil-cases : (s : Str) → (s ≡ []) ⊎ (s ≢ [])
nil-cases [] = inl refl
nil-cases (c ∷ s) = inr (cons-ne-nil c s)

-- What an accepted RDN is known to be.
pub record IsRdn (r : Str) : Type 0 where
  pub filled : r ≢ []
  pub closed : IsClosed r
  pub single : find_top_level_char r (comma ∷ []) ≡ none

pub is_likely_rdn-IsRdn : (rdn : Str) → is_likely_rdn rdn ≡ true → IsRdn (trim_to_string rdn)
unfolding is_likely_rdn
is_likely_rdn-IsRdn rdn h =
    let r = trim_to_string rdn in
    let (filled, h₁) = &&_split (not (is_empty r)) _ h in
    let (valid, h₂) = &&_split (has_valid_escapes_and_quotes r) _ h₁ in
    let (single, _) = &&_split (is_none (find_top_level_char r (comma ∷ []))) _ h₂ in
    record {
      filled = ne-nil_of_is_empty r filled;
      closed = has_valid_escapes_and_quotes-IsClosed r valid;
      single = is_none→eq _ single;
    }

pub is_likely_rdn-trim : (rdn : Str) → is_likely_rdn (trim_to_string rdn) ≡ is_likely_rdn rdn
unfolding is_likely_rdn
is_likely_rdn-trim rdn = rw (trim_to_string_idem rdn)

-- The two ways in which `joinRdnAndParent` joins a good RDN.
pub join_rdn_and_parent_root :
    (rdn parent : Str)
    → trim_to_string rdn ≢ []
    → trim_to_string parent ≡ []
    → join_rdn_and_parent rdn parent ≡ trim_to_string rdn
unfolding join_rdn_and_parent
join_rdn_and_parent_root rdn parent h e = rw (is_empty_of_ne-nil (trim_to_string rdn) h, e)

pub join_rdn_and_parent_below :
    (rdn parent : Str)
    → trim_to_string rdn ≢ []
    → trim_to_string parent ≢ []
    → join_rdn_and_parent rdn parent ≡ trim_to_string rdn ++ comma ∷ trim_to_string parent
unfolding join_rdn_and_parent
join_rdn_and_parent_below rdn parent h k =
    rw (is_empty_of_ne-nil (trim_to_string rdn) h, is_empty_of_ne-nil (trim_to_string parent) k)

split_first_of_find :
    (s : Str) (o : Option ℕ)
    → trim_to_string s ≡ s
    → s ≢ []
    → find_top_level_char s (comma ∷ []) ≡ o
    → split_first_dn_rdn s ≡ split_at s o
unfolding split_first_dn_rdn
split_first_of_find s o t h e = rw (t, is_empty_of_ne-nil s h, e)

-- Two trimmed texts, the first an RDN.
module _ (r p : Str) (rdn : IsRdn r) (trimmed_r : IsTrimmed r) (trimmed_p : IsTrimmed p)
    (filled : p ≢ []) where
  pub joined_trim : trim_to_string (r ++ comma ∷ p) ≡ r ++ comma ∷ p
  joined_trim =
      trim_to_string_of_IsTrimmed _
        (IsTrimmed-join r p comma rdn.filled filled (omega arith) trimmed_r trimmed_p)

  pub joined_parts : split_top_level (r ++ comma ∷ p) comma ≡ r ∷ split_top_level p comma
  joined_parts = split_top_level-cons r p comma rdn.single rdn.closed (omega arith) (omega arith)

  joined_find : find_top_level_char (r ++ comma ∷ p) (comma ∷ []) ≡ some (length r)
  joined_find = find-joined r p comma rdn.single rdn.closed (omega arith) (omega arith)

  pub joined-ne-nil : r ++ comma ∷ p ≢ []
  joined-ne-nil e = absurd (omega (arith, ap (length {A = ℕ}) e, length-append {0} r (comma ∷ p)))

  joined_split : split_first_dn_rdn (r ++ comma ∷ p) ≡ record { rdn = r; parent_dn = p }
  joined_split =
      split_first_of_find _ _ joined_trim joined-ne-nil joined_find
      ∙ rw (
        take-length_append r (comma ∷ p),
        drop-past r p comma,
        trim_to_string_of_IsTrimmed r trimmed_r,
        trim_to_string_of_IsTrimmed p trimmed_p,
      )

-- Splitting what `joinRdnAndParent` joins gives the trimmed RDN and the trimmed parent back, for
-- every RDN that `isLikelyRdn` accepts and every parent, the empty one too.
pub split_first_dn_rdn-join_rdn_and_parent :
    (rdn parent : Str)
    → is_likely_rdn rdn ≡ true
    → split_first_dn_rdn (join_rdn_and_parent rdn parent)
      ≡ record { rdn = trim_to_string rdn; parent_dn = trim_to_string parent }
split_first_dn_rdn-join_rdn_and_parent rdn parent h =
    let r = trim_to_string rdn in
    let p = trim_to_string parent in
    let good = is_likely_rdn-IsRdn rdn h in
    let tr = trim_to_string-IsTrimmed rdn in
    elim (nil-cases p) [
      | inl e ↦
          ap split_first_dn_rdn (join_rdn_and_parent_root rdn parent good.filled e)
          ∙ split_first_of_find r none (trim_to_string_idem rdn) good.filled good.single
          ∙ ap (λ t. record { rdn = r; parent_dn = t }) (sym e)
      | inr k ↦
          ap split_first_dn_rdn (join_rdn_and_parent_below rdn parent good.filled k)
          ∙ joined_split r p good tr (trim_to_string-IsTrimmed parent) k
    ]

is_likely_dn_of_parts :
    (s : Str)
    → trim_to_string s ≡ s
    → s ≢ []
    → all is_likely_rdn (split_top_level s comma) ≡ true
    → is_likely_dn s ≡ true
unfolding is_likely_dn
is_likely_dn_of_parts s t h e = rw (t, is_empty_of_ne-nil s h, e)

is_likely_dn_parts :
    (s : Str)
    → is_likely_dn s ≡ true
    → (trim_to_string s ≢ [])
      × (all is_likely_rdn (split_top_level (trim_to_string s) comma) ≡ true)
unfolding is_likely_dn
is_likely_dn_parts s h =
    let (a, b) = &&_split (not (is_empty (trim_to_string s))) _ h in (ne-nil_of_is_empty _ a, b)

-- A good RDN joined to a parent that is a good DN, or white space only, is a good DN.
pub is_likely_dn-join_rdn_and_parent :
    (rdn parent : Str)
    → is_likely_rdn rdn ≡ true
    → (is_likely_dn parent ≡ true) ⊎ (trim_to_string parent ≡ [])
    → is_likely_dn (join_rdn_and_parent rdn parent) ≡ true
is_likely_dn-join_rdn_and_parent rdn parent h (inl g) =
    let r = trim_to_string rdn in
    let p = trim_to_string parent in
    let good = is_likely_rdn-IsRdn rdn h in
    let (k, parts) = is_likely_dn_parts parent g in
    let tr = trim_to_string-IsTrimmed rdn in
    let tp = trim_to_string-IsTrimmed parent in
    ap is_likely_dn (join_rdn_and_parent_below rdn parent good.filled k)
    ∙ is_likely_dn_of_parts (r ++ comma ∷ p) (joined_trim r p good tr tp k)
        (joined-ne-nil r p good tr tp k)
        (ap (all is_likely_rdn) (joined_parts r p good tr tp k)
          ∙ &&_join _ _ (is_likely_rdn-trim rdn ∙ h) parts)
is_likely_dn-join_rdn_and_parent rdn parent h (inr e) =
    let r = trim_to_string rdn in
    let good = is_likely_rdn-IsRdn rdn h in
    ap is_likely_dn (join_rdn_and_parent_root rdn parent good.filled e)
    ∙ is_likely_dn_of_parts r (trim_to_string_idem rdn) good.filled (
        ap (all is_likely_rdn) (split_top_level_single r comma good.single)
        ∙ &&_join _ _ (is_likely_rdn-trim rdn ∙ h) refl)
