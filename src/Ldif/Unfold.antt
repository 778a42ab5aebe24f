-- ===== src/Ldif/Unfold.antt =====
-- `unfoldLines` of frontend/src/lib/ldif.ts reads back what `foldLine` has written.
use dbx_plugin_ldap.Base.{
  ℕ, ◌+◌, ◌<◌, ◌≡◌, ◌≢◌, refl, sym, ap, ◌∙◌, false, Option, none, some, List, [], ◌∷◌, ◌++◌,
  append-nil, append_assoc, arith, take, All, All-append_left, All-append_right, Str, join, ◌==◌,
  join_nil-cons,
}
use mathlib.Core.List.{cons-ne-nil}
use mathlib.Core.Path.{subst}
use dbx_plugin_ldap.Ldif.{
  lf, cr, space, fold_parts, fold_line, split_lines, cons_first, UnfoldedLine, new_line, continued,
  pushed, unfold_from, unfold_lines,
}
use dbx_plugin_ldap.Ldif.Fold.{continuations, fold_parts-pieces}

-- No line break.
abbrev pub IsInline : ℕ → Type 0
IsInline c = (c ≢ lf) × (c ≢ cr)

split_char : (c : ℕ) (s : Str) → IsInline c → split_lines (c ∷ s) ≡ cons_first c (split_lines s)
unfolding split_lines
split_char c [] (a, b) = ground arith
split_char c (d ∷ s) (a, b) = ground arith

split_break : (s : Str) → split_lines (lf ∷ s) ≡ [] ∷ split_lines s
unfolding split_lines
split_break [] = refl
split_break (d ∷ s) = refl

split_part : (p s : Str) → All IsInline p → split_lines (p ++ lf ∷ s) ≡ p ∷ split_lines s
split_part [] s h = split_break s
split_part (c ∷ p) s (i, h) = split_char c (p ++ lf ∷ s) i ∙ ap (cons_first c) (split_part p s h)

split_last : (p : Str) → All IsInline p → split_lines p ≡ p ∷ []
split_last [] h = unfold split_lines in refl
split_last (c ∷ p) (i, h) = split_char c p i ∙ ap (cons_first c) (split_last p h)

-- Lines without breaks, joined by line feeds, are split into themselves.
pub split_lines-join :
    (p : Str) (ps : List Str)
    → All (All IsInline) (p ∷ ps)
    → split_lines (join (lf ∷ []) (p ∷ ps)) ≡ p ∷ ps
split_lines-join p [] (h, _) = split_last p h
split_lines-join p (q ∷ ps) (h, hs) =
    split_part p (join (lf ∷ []) (q ∷ ps)) h ∙ ap (λ t. p ∷ t) (split_lines-join q ps hs)

-- A line of text, neither blank nor a comment.
abbrev pub text_line : Str → ℕ → UnfoldedLine
text_line line i = record { line = line; start_line = i + 1; is_blank = false; is_comment = false }

module _ (i : ℕ) (current : Option UnfoldedLine) (raw : Str) (physical : List Str) where
  pub unfold_next :
      continued current raw ≡ none
      → unfold_from i current (raw ∷ physical)
        ≡ pushed current (unfold_from (i + 1) (some (new_line raw i)) physical)
  unfolding unfold_from
  unfold_next e = rw (e, unfold_from)

  unfold_more :
      (joined : UnfoldedLine)
      → continued current raw ≡ some joined
      → unfold_from i current (raw ∷ physical) ≡ unfold_from (i + 1) (some joined) physical
  unfolding unfold_from
  unfold_more joined e = rw (e, unfold_from)

continued_text :
    (line piece : Str) (start : ℕ)
    → continued (some (text_line line start)) (space ∷ piece)
      ≡ some (text_line (line ++ piece) start)
unfolding continued
continued_text line piece start = refl

-- The place after the physical lines.
abbrev pub index_after : ℕ → List Str → ℕ
index_after i [] = i
index_after i (piece ∷ pieces) = index_after (i + 1) pieces

unfold-continuations :
    (pieces rest : List Str) (i start : ℕ) (line : Str)
    → unfold_from i (some (text_line line start)) (continuations pieces ++ rest)
      ≡ unfold_from (index_after i pieces) (some (text_line (line ++ join [] pieces) start)) rest
unfold-continuations [] rest i start line =
    ap (λ t. unfold_from i (some (text_line t start)) rest) (sym (append-nil line))
unfold-continuations (piece ∷ pieces) rest i start line =
    unfold_more i _ (space ∷ piece) _ _ (continued_text line piece start)
    ∙ unfold-continuations pieces rest (i + 1) start (line ++ piece)
    ∙ ap (λ t. unfold_from (index_after (i + 1) pieces) (some (text_line t start)) rest)
        (append_assoc line piece (join [] pieces)
          ∙ ap (λ t. line ++ t) (sym (join_nil-cons piece pieces)))

-- The first character of a line of text: no space and no `#`.
abbrev pub IsStart : ℕ → Type 0
IsStart c = (c ≢ space) × (c ≢ b'#')

continued_start :
    (current : Option UnfoldedLine) (c : ℕ) (s : Str) → IsStart c → continued current (c ∷ s) ≡ none
unfolding continued
continued_start none c s h = refl
continued_start (some current) c s (a, b) = ground arith

new_line_start : (c : ℕ) (s : Str) (i : ℕ) → IsStart c → new_line (c ∷ s) i ≡ text_line (c ∷ s) i
unfolding new_line
new_line_start c s i (a, b) = let plain : c == b'#' ≡ false = ground arith in rw plain

same_first :
    (first : Str) (c : ℕ) (s : Str) → take 1 first ≡ take 1 (c ∷ s) → (t : Str) × (first ≡ c ∷ t)
same_first [] c s h = absurd (cons-ne-nil c [] (sym h))
same_first (d ∷ t) c s h = (t, cc)

-- The physical lines of a text give its logical line, whatever stands before and after.
pub unfold-fold_parts :
    (c : ℕ) (s : Str) (w i : ℕ) (current : Option UnfoldedLine) (rest : List Str)
    → 0 < w
    → IsStart c
    → (j : ℕ) × (unfold_from i current (fold_parts (c ∷ s) w ++ rest)
        ≡ pushed current (unfold_from j (some (text_line (c ∷ s) i)) rest))
unfold-fold_parts c s w i current rest pos start =
    let (first, pieces, e, whole, one) = fold_parts-pieces (c ∷ s) w pos in
    let (t, f) = same_first first c s one in
    let line : (c ∷ t) ++ join [] pieces ≡ c ∷ s = ap (λ u. u ++ join [] pieces) (sym f) ∙ whole in
    (
      index_after (i + 1) pieces,
      ap (λ u. unfold_from i current (u ++ rest)) (e ∙ ap (λ u. u ∷ continuations pieces) f)
          ∙ unfold_next i current (c ∷ t) (continuations pieces ++ rest)
              (continued_start current c t start)
          ∙ ap (pushed current) (
              ap (λ u. unfold_from (i + 1) (some u) (continuations pieces ++ rest))
                (new_line_start c t i start)
              ∙ unfold-continuations pieces rest (i + 1) i (c ∷ t)
              ∙ ap (λ u. unfold_from (index_after (i + 1) pieces) (some (text_line u i)) rest)
                  line),
    )

All-join :
    (pieces : List Str) → All IsInline (join [] pieces) → All (All IsInline) (continuations pieces)
All-join [] h = tt
All-join (p ∷ pieces) h =
    let h' = subst (All IsInline) (join_nil-cons p pieces) h in
    (
      ((omega arith, omega arith), All-append_left IsInline p (join [] pieces) h'),
      All-join pieces (All-append_right IsInline p (join [] pieces) h'),
    )

pub fold_parts-IsInline :
    (line : Str) (w : ℕ) → 0 < w → All IsInline line → All (All IsInline) (fold_parts line w)
fold_parts-IsInline line w pos h =
    let (first, pieces, e, whole, _) = fold_parts-pieces line w pos in
    let h' = subst (All IsInline) (sym whole) h in
    subst (All (All IsInline)) (sym e) (
      All-append_left IsInline first (join [] pieces) h',
      All-join pieces (All-append_right IsInline first (join [] pieces) h'),
    )

split-fold_line :
    (line : Str) (w : ℕ)
    → 0 < w
    → All IsInline line
    → split_lines (fold_line line w) ≡ fold_parts line w
unfolding fold_line
split-fold_line line w pos h =
    let (first, pieces, e, _, _) = fold_parts-pieces line w pos in
    let inline = subst (All (All IsInline)) e (fold_parts-IsInline line w pos h) in
    ap (λ t. split_lines (join (lf ∷ []) t)) e
    ∙ split_lines-join first (continuations pieces) inline
    ∙ sym e

-- Folding and unfolding: a line that has no line break and begins with neither a space nor `#` is
-- read back as one logical line of text, at every positive width.
pub unfold_lines-fold_line :
    (c : ℕ) (s : Str) (line_width : ℕ)
    → 0 < line_width
    → IsStart c
    → All IsInline (c ∷ s)
    → unfold_lines (fold_line (c ∷ s) line_width) ≡ text_line (c ∷ s) 0 ∷ []
unfold_lines-fold_line c s w pos start inline =
    let (j, e) = unfold-fold_parts c s w 0 none [] pos start in
    unfold unfold_lines in
    ap (unfold_from 0 none) (split-fold_line (c ∷ s) w pos inline ∙ sym (append-nil _))
    ∙ e
    ∙ unfold unfold_from in refl
