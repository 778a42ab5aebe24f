-- ===== src/Dn/Scan.antt =====
-- What `findTopLevelChar` of frontend/src/lib/dn.ts finds: lemmas about its loop at any start.
use dbx_plugin_ldap.Base.{
  ℕ, suc, ◌+◌, ◌≡◌, refl, sym, ap, Bool, true, false, not, ◌&&◌, none, some, [], ◌∷◌, ◌++◌, arith,
  length, take, drop, Str, elem, ◌==◌, ◌&&◌, if◌then◌else◌, Bool-cases, &&_split, ◌⊎◌, inl, inr,
  ◌∙◌,
}
use native.Mathlib.Nat.{add-zero}
use dbx_plugin_ldap.Dn.{find_from, backslash, quote}

-- The flags `escaped` and `quoted` after a text without a target.
unfoldable pub run : Bool → Bool → Str → Bool × Bool
run escaped quoted [] = (escaped, quoted)
run escaped quoted (c ∷ s) =
    let after_escaped = run false quoted s in
    let after_slash = run true quoted s in
    let after_quote = run false (not quoted) s in
    if escaped
    then after_escaped
    else if c == backslash
    then after_slash
    else if c == quote
    then after_quote
    else after_escaped

-- A text that ends outside of quotes, with no backslash left open.
abbrev pub IsClosed : Str → Type 0
IsClosed s = run false false s ≡ (false, false)

module _ (targets : Str) where
  -- What one character does: it is a hit, or the loop goes on with new flags.
  abbrev Goes : Bool → Bool → ℕ → Type 0
  Goes e q c =
      (e' : Bool) × (q' : Bool) × ((i : ℕ) (s : Str)
        → find_from targets i e q (c ∷ s) ≡ find_from targets (i + 1) e' q' s)
      × ((s : Str) → run e q (c ∷ s) ≡ run e' q' s)

  abbrev Hits : Bool → Bool → ℕ → Type 0
  Hits e q c =
      (elem c targets ≡ true) × ((i : ℕ) (s : Str) → find_from targets i e q (c ∷ s) ≡ some i)

  find_from-cases : (e q : Bool) (c : ℕ) → Hits e q c ⊎ Goes e q c
  unfolding find_from run
  find_from-cases true q c = inr (false, q, λ i s. refl, λ s. refl)
  find_from-cases false q c = elim (Bool-cases (c == backslash)) [
    | inl a ↦ inr (true, q, λ i s. rw a, λ s. rw a)
    | inr a ↦ elim (Bool-cases (c == quote)) [
      | inl b ↦ inr (false, not q, λ i s. rw (a, b), λ s. rw (a, b))
      | inr b ↦ elim (Bool-cases (not q && elem c targets)) [
        | inl h ↦ inl ((&&_split _ _ h).1, λ i s. rw (a, b, h))
        | inr h ↦ inr (false, q, λ i s. rw (a, b, h), λ s. rw (a, b))
      ]
    ]
  ]

  pub find_from-none :
      (s : Str) (i k : ℕ) (e q : Bool)
      → find_from targets i e q s ≡ none
      → find_from targets k e q s ≡ none
  unfolding find_from
  find_from-none [] i k e q h = refl
  find_from-none (c ∷ s) i k e q h = ground (
    arith,
    find_from-none s (i + 1) (k + 1) false q,
    find_from-none s (i + 1) (k + 1) true q,
    find_from-none s (i + 1) (k + 1) false (not q),
  )

  -- A target at place `n`, with no target before it.
  pub record Hit (e q : Bool) (s : Str) (n : ℕ) : Type 0 where
    pub target : ℕ
    pub is_target : elem target targets ≡ true
    pub cut : take n s ++ target ∷ drop (suc n) s ≡ s
    pub before : find_from targets 0 e q (take n s) ≡ none

  Hit-cons :
      (e q e' q' : Bool) (c : ℕ) (s : Str) (n : ℕ)
      → ((i : ℕ) (s : Str) → find_from targets i e q (c ∷ s) ≡ find_from targets (i + 1) e' q' s)
      → Hit e' q' s n
      → Hit e q (c ∷ s) (suc n)
  Hit-cons e q e' q' c s n goes h = record {
    target = h.target;
    is_target = h.is_target;
    cut = ap (λ t. c ∷ t) h.cut;
    before = goes 0 (take n s) ∙ find_from-none (take n s) 0 (0 + 1) e' q' h.before;
  }

  pub find_from-some :
      (s : Str) (i k : ℕ) (e q : Bool)
      → find_from targets i e q s ≡ some k
      → (n : ℕ) × (k ≡ i + n) × Hit e q s n
  find_from-some [] i k e q h = unfold find_from in cc
  find_from-some (c ∷ s) i k e q h = elim (find_from-cases e q c) [
    | inl (is, at) ↦ (
      0,
      ground (arith, at i s),
      record { target = c; is_target = is; cut = refl; before = unfold find_from in refl },
    )
    | inr (e', q', goes, _) ↦
        let (n, eq, hit) = find_from-some s (i + 1) k e' q' (sym (goes i s) ∙ h) in
        (suc n, omega arith, Hit-cons e q e' q' c s n goes hit)
  ]

  -- A text without a target is passed over.
  pub find_from-append :
      (p s : Str) (i : ℕ) (e q : Bool)
      → find_from targets i e q p ≡ none
      → find_from targets i e q (p ++ s)
        ≡ find_from targets (i + length p) (run e q p).0 (run e q p).1 s
  find_from-append [] s i e q h = unfold run in rw add-zero
  find_from-append (c ∷ p) s i e q h = elim (find_from-cases e q c) [
    | inl (is, at) ↦ cc (at i p)
    | inr (e', q', goes, runs) ↦
        goes i (p ++ s)
        ∙ find_from-append p s (i + 1) e' q' (sym (goes i p) ∙ h)
        ∙ rw (runs p)
            (ap (λ n. find_from targets n (run e' q' p).0 (run e' q' p).1 s) (omega arith))
  ]

  -- A text without a target has none in front either.
  pub find_from_prefix :
      (p s : Str) (i : ℕ) (e q : Bool)
      → find_from targets i e q (p ++ s) ≡ none
      → find_from targets i e q p ≡ none
  find_from_prefix [] s i e q h = unfold find_from in refl
  find_from_prefix (c ∷ p) s i e q h = elim (find_from-cases e q c) [
    | inl (is, at) ↦ cc (at i (p ++ s))
    | inr (e', q', goes, _) ↦
        goes i p ∙ find_from_prefix p s (i + 1) e' q' (sym (goes i (p ++ s)) ∙ h)
  ]
