-- ===== src/Dn/Within.antt =====
-- `dnWithinBase` of frontend/src/lib/dn.ts.
use dbx_plugin_ldap.Base.{
  ℕ, zero, suc, ◌-◌, ◌<◌, ◌≡◌, ◌≢◌, inl, inr, refl, sym, ap, ◌∙◌, Bool, true, false, List, [], ◌∷◌,
  ◌++◌, map, append_assoc, reverse, reverse-cons, reverse-append, reverse-reverse, arith, length,
  take, drop, length-drop, take-append-drop, Str, str_eq, str_eq_refl, str_eq→eq, is_empty, join,
  leb, ◌==◌, if◌then◌else◌, Bool-cases,
}
use mathlib.Core.List.{cons-ne-nil}
use dbx_plugin_ldap.Dn.{
  comma, trim_to_string, split_top_level, is_likely_rdn, join_rdn_and_parent, strip_commas_back,
  strip_commas, dn_within_base,
}
use dbx_plugin_ldap.Dn.Split.{split_rounds-ne-nil, join-split_top_level, split_top_level-cons}
use mathlib.Core.Bool.{false≢true}
use dbx_plugin_ldap.Dn.Trim.{trim_to_string-IsTrimmed}
use dbx_plugin_ldap.Dn.Join.{
  is_likely_rdn-IsRdn, join_rdn_and_parent_below, joined_trim, nil-cases, is_empty_of_ne-nil,
}

strip_commas_back-append :
    (s t : Str) → strip_commas_back s ≢ [] → strip_commas_back (s ++ t) ≡ strip_commas_back s ++ t
unfolding strip_commas_back
strip_commas_back-append [] t h = absurd (h refl)
strip_commas_back-append (c ∷ s) t h = elim (Bool-cases (c == comma)) [
  | inl a ↦ rw a (strip_commas_back-append s t (rw a at h))
  | inr a ↦ rw a
]

-- Only the last part's commas are cut, as long as something of it stays.
strip_commas-append :
    (r b : Str) → strip_commas b ≢ [] → strip_commas (r ++ comma ∷ b) ≡ r ++ comma ∷ strip_commas b
unfolding strip_commas
strip_commas-append r b h =
    let turned : reverse (r ++ comma ∷ b) ≡ reverse b ++ comma ∷ reverse r =
      reverse-append r (comma ∷ b)
      ∙ ap (λ t. t ++ reverse r) (reverse-cons comma b)
      ∙ append_assoc (reverse b) (comma ∷ []) (reverse r) in
    let filled : strip_commas_back (reverse b) ≢ [] = λ e. h (ap reverse e) in
    ap (λ t. reverse (strip_commas_back t)) turned
    ∙ ap reverse (strip_commas_back-append (reverse b) (comma ∷ reverse r) filled)
    ∙ reverse-append (strip_commas_back (reverse b)) (comma ∷ reverse r)
    ∙ ap (λ t. t ++ reverse (strip_commas_back (reverse b))) (reverse-cons comma (reverse r))
    ∙ append_assoc (reverse (reverse r)) (comma ∷ []) _
    ∙ ap (λ t. t ++ comma ∷ reverse (strip_commas_back (reverse b))) (reverse-reverse r)

split-ne-nil : (s : Str) (sep : ℕ) → split_top_level s sep ≢ []
unfolding split_top_level
split-ne-nil s sep = split_rounds-ne-nil (suc (length s)) sep s (omega arith)

one_more : (n : ℕ) → (leb (suc n) n ≡ false) × (suc n - n ≡ 1)
one_more n = (ground arith, omega arith)

cons_ne : (r b : Str) → r ++ comma ∷ b ≢ []
cons_ne [] b = cons-ne-nil comma b
cons_ne (c ∷ r) b = cons-ne-nil c _

take-ne-nil {ℓ} : {A : Type ℓ} (k : ℕ) (l : List A) → 0 < k → 0 < length l → take k l ≢ []
take-ne-nil zero l h g = elim h [ ]
take-ne-nil (suc k) [] h g = elim g [ ]
take-ne-nil (suc k) (x ∷ l) h g = cons-ne-nil x (take k l)

module _ (lower : Str → Str) where
  -- The tests of `dnWithinBase`, after the trimming.
  within : Str → Str → Bool
  within child base =
      if is_empty base
      then true
      else if is_empty child
      then false
      else if str_eq (lower child) (lower base)
      then true
      else if leb (length (split_top_level child comma)) (length (split_top_level base comma))
      then false
      else str_eq
          (join (comma ∷ []) (
            map lower (
              drop (length (split_top_level child comma) - length (split_top_level base comma))
                (split_top_level child comma))))
          (lower base)

  dn_within_base-within :
      (dn base : Str)
      → dn_within_base lower dn base
        ≡ within (strip_commas (trim_to_string dn)) (strip_commas (trim_to_string base))
  unfolding dn_within_base within
  dn_within_base-within dn base = refl

  -- What `toLowerCase` does around a comma, which it neither changes nor looks beyond.
  abbrev pub Distributes : Type 0
  Distributes = (s t : Str) → lower (s ++ comma ∷ t) ≡ lower s ++ comma ∷ lower t

  join-map :
      Distributes
      → (parts : List Str) → parts ≢ []
      → join (comma ∷ []) (map lower parts) ≡ lower (join (comma ∷ []) parts)
  join-map d [] h = absurd (h refl)
  join-map d (p ∷ []) h = refl
  join-map d (p ∷ q ∷ ps) h =
      ap (λ t. lower p ++ comma ∷ t) (join-map d (q ∷ ps) (cons-ne-nil q ps)) ∙ sym (d p _)

  join-map_split :
      Distributes → (s : Str) → join (comma ∷ []) (map lower (split_top_level s comma)) ≡ lower s
  join-map_split d s =
      join-map d (split_top_level s comma) (split-ne-nil s comma)
      ∙ ap lower (join-split_top_level s comma)

  within_cons :
      Distributes
      → (r b : Str) → split_top_level (r ++ comma ∷ b) comma ≡ r ∷ split_top_level b comma
      → r ++ comma ∷ b ≢ []
      → within (r ++ comma ∷ b) b ≡ true
  unfolding within
  within_cons d r b parts h =
      let (more, one) = one_more (length (split_top_level b comma)) in
      elim (Bool-cases (is_empty b)) [
        | inl e ↦ rw e refl
        | inr e ↦ elim (Bool-cases (str_eq (lower (r ++ comma ∷ b)) (lower b))) [
          | inl same ↦ rw (e, is_empty_of_ne-nil (r ++ comma ∷ b) h, same) refl
          | inr other ↦
              rw
                (
                  e,
                  is_empty_of_ne-nil (r ++ comma ∷ b) h,
                  other,
                  parts,
                  more,
                  one,
                  join-map_split d b,
                )
                (str_eq_refl (lower b))
        ]
      ]

  -- What a positive answer means: no base, the base itself, or the last RDNs of a longer list.
  pub data Below (child base : Str) : Type 0 where
    anywhere : base ≡ [] → Below child base
    itself : child ≢ [] → lower child ≡ lower base → Below child base
    under :
        (front back : List Str)
        → front ≢ []
        → split_top_level child comma ≡ front ++ back
        → length back ≡ length (split_top_level base comma)
        → join (comma ∷ []) (map lower back) ≡ lower base
        → Below child base

  within_sound : (child base : Str) → within child base ≡ true → Below child base
  unfolding within
  within_sound child [] h = anywhere refl
  within_sound [] (b ∷ base) h = cc
  within_sound (c ∷ child) (b ∷ base) h =
      let whole = split_top_level (c ∷ child) comma in
      let n = length (split_top_level (b ∷ base) comma) in
      elim (Bool-cases (str_eq (lower (c ∷ child)) (lower (b ∷ base)))) [
        | inl same ↦ itself (cons-ne-nil c child) (str_eq→eq _ _ same)
        | inr other ↦ elim (Bool-cases (leb (length whole) n)) [
          | inl few ↦ absurd (false≢true (rw (other, few) at h))
          | inr many ↦
              let k = length whole - n in
              let pos : n < length whole = ground arith in
              under (take k whole) (drop k whole) (take-ne-nil k whole (omega arith) (omega arith))
                (sym (take-append-drop k whole)) (length-drop k whole ∙ omega arith)
                (str_eq→eq _ _ (rw (other, many) at h))
        ]
      ]

  -- If `dnWithinBase` says yes then the base is empty (after trimming and cutting commas), or the DN
  -- equals it up to case, or the base is spelled up to case by the last RDNs of the DN's longer
  -- list, as many as the base has.
  pub dn_within_base_sound :
      (dn base_dn : Str)
      → dn_within_base lower dn base_dn ≡ true
      → Below (strip_commas (trim_to_string dn)) (strip_commas (trim_to_string base_dn))
  dn_within_base_sound dn base_dn h = within_sound _ _ (sym (dn_within_base-within dn base_dn) ∙ h)

  -- An RDN that `isLikelyRdn` accepts, joined to any base, is within that base, where
  -- `toLowerCase` works on the two sides of a comma separately.
  pub dn_within_base-join_rdn_and_parent :
      Distributes
      → (rdn base_dn : Str) → is_likely_rdn rdn ≡ true
      → dn_within_base lower (join_rdn_and_parent rdn base_dn) base_dn ≡ true
  dn_within_base-join_rdn_and_parent d rdn base_dn h =
      let r = trim_to_string rdn in
      let p = trim_to_string base_dn in
      let good = is_likely_rdn-IsRdn rdn h in
      dn_within_base-within (join_rdn_and_parent rdn base_dn) base_dn
      ∙ elim (nil-cases (strip_commas p)) [
        | inl e ↦ ap (within _) e ∙ unfold within in refl
        | inr b ↦
            let k : p ≢ [] =
              λ e. b (ap strip_commas e ∙ unfold strip_commas strip_commas_back in refl) in
            let tp = trim_to_string-IsTrimmed base_dn in
            let tr = trim_to_string-IsTrimmed rdn in
            ap (λ t. within (strip_commas (trim_to_string t)) (strip_commas p))
              (join_rdn_and_parent_below rdn base_dn good.filled k)
            ∙ ap (λ t. within (strip_commas t) (strip_commas p)) (joined_trim r p good tr tp k)
            ∙ ap (λ t. within t (strip_commas p)) (strip_commas-append r p b)
            ∙ within_cons d r (strip_commas p)
                (split_top_level-cons r (strip_commas p) comma good.single good.closed (omega arith)
                  (omega arith))
                (cons_ne r (strip_commas p))
      ]
