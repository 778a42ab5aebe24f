-- ===== src/Ldif/Fold.antt =====
-- `foldLine` of frontend/src/lib/ldif.ts: what the physical lines hold, and how wide they are.
use dbx_plugin_ldap.Base.{
  ℕ, zero, suc, ◌-◌, ◌≤◌, ◌<◌, ◌≡◌, inl, inr, refl, ap, ◌∙◌, List, [], ◌∷◌, ◌++◌, append-nil, arith,
  length, take, drop, length-drop, take-append-drop, All, Str, join, leb, Bool-cases, join_nil-cons,
}
use mathlib.Core.Path.{subst}
use Prim.Native.Nat.{max}
use dbx_plugin_ldap.Ldif.{space, fold_rest, fold_parts}

-- The continuation lines: a space and a piece of the text.
abbrev pub continuations : List Str → List Str
continuations [] = []
continuations (piece ∷ pieces) = (space ∷ piece) ∷ continuations pieces

fold_rest-pieces :
    (fuel n : ℕ) (rest : Str)
    → 0 < n
    → length rest ≤ fuel
    → (pieces : List Str) × (fold_rest fuel n rest ≡ continuations pieces) × (join [] pieces ≡ rest)
unfolding fold_rest
fold_rest-pieces zero n [] pos h = ([], refl, refl)
fold_rest-pieces zero n (c ∷ rest) pos h = elim h [ ]
fold_rest-pieces (suc fuel) n [] pos h = ([], refl, refl)
fold_rest-pieces (suc fuel) zero (c ∷ rest) pos h = elim pos [ ]
fold_rest-pieces (suc fuel) (suc n) (c ∷ rest) pos h =
    let (pieces, e, whole) =
      fold_rest-pieces fuel (suc n) (drop n rest) pos (omega (arith, length-drop {0} n rest)) in
    (
      (c ∷ take n rest) ∷ pieces,
      ap (λ t. (space ∷ c ∷ take n rest) ∷ t) e,
      join_nil-cons (c ∷ take n rest) pieces
          ∙ ap (λ t. c ∷ (take n rest ++ t)) whole
          ∙ ap (λ t. c ∷ t) (take-append-drop n rest),
    )

-- The physical lines of a text: a first piece, which is empty only for an empty text, and
-- continuations; the pieces spell the text.
pub fold_parts-pieces :
    (line : Str) (line_width : ℕ)
    → 0 < line_width
    → (first : Str) × (pieces : List Str) × (fold_parts line line_width
        ≡ first ∷ continuations pieces)
      × (first ++ join [] pieces ≡ line)
      × (take 1 first ≡ take 1 line)
unfolding fold_parts
fold_parts-pieces line zero pos = elim pos [ ]
fold_parts-pieces line (suc w) pos = elim (Bool-cases (leb (length line) (suc w))) [
  | inl short ↦ (line, [], rw short refl, append-nil line, refl)
  | inr long ↦
      let (pieces, e, whole) =
        fold_rest-pieces (length line) (max 1 (suc w - 1)) (drop (suc w) line) (omega arith)
          (omega (arith, length-drop {0} (suc w) line)) in
      (
        take (suc w) line,
        pieces,
        rw long (ap (λ t. take (suc w) line ∷ t) e),
        ap (λ t. take (suc w) line ++ t) whole ∙ take-append-drop (suc w) line,
        take_one w line,
      )
]
  where
    take_one : (w : ℕ) (line : Str) → take 1 (take (suc w) line) ≡ take 1 line
    take_one w [] = refl
    take_one w (c ∷ line) = refl

length-take-le {ℓ} : {A : Type ℓ} (n : ℕ) (xs : List A) → length (take n xs) ≤ n
length-take-le zero xs = omega arith
length-take-le (suc n) [] = omega arith
length-take-le (suc n) (x ∷ xs) = omega (arith, length-take-le n xs)

fold_rest-narrow :
    (fuel n : ℕ) (rest : Str) → All (λ part. length part ≤ suc n) (fold_rest fuel n rest)
unfolding fold_rest
fold_rest-narrow zero n rest = tt
fold_rest-narrow (suc fuel) n [] = tt
fold_rest-narrow (suc fuel) n (c ∷ rest) =
    (omega (arith, length-take-le {0} n (c ∷ rest)), fold_rest-narrow fuel n (drop n (c ∷ rest)))

-- From a width of two on, no physical line is wider than the line width.
pub fold_parts-narrow :
    (line : Str) (line_width : ℕ)
    → 2 ≤ line_width
    → All (λ part. length part ≤ line_width) (fold_parts line line_width)
unfolding fold_parts
fold_parts-narrow line line_width h = elim (Bool-cases (leb (length line) line_width)) [
  | inl short ↦ rw short (ground arith, tt)
  | inr long ↦
      let e : suc (max 1 (line_width - 1)) ≡ line_width = omega arith in
      rw long (
        length-take-le line_width line,
        subst
            (λ w.
              All (λ part. length part ≤ w)
                (fold_rest (length line) (max 1 (line_width - 1)) (drop line_width line)))
            e (fold_rest-narrow (length line) (max 1 (line_width - 1)) (drop line_width line)),
      )
]
