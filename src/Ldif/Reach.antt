-- ===== src/Ldif/Reach.antt =====
-- `parseLdif` of frontend/src/lib/ldif.ts over written lines: how a run of physical lines moves the
-- parser's state, and how such runs are put together.
use dbx_plugin_ldap.Base.{
  ℕ, ◌+◌, ◌<◌, ◌≡◌, ◌≢◌, refl, sym, ap, ◌∙◌, Option, none, some, List, [], ◌∷◌, ◌++◌, append-nil,
  append_assoc, All, All-append, Str, join, join-cons,
}
use mathlib.Core.List.{cons-ne-nil}
use dbx_plugin_ldap.Ldif.{
  lf, fold_parts, fold_line, UnfoldedLine, new_line, continued, pushed, unfold_from,
}
use dbx_plugin_ldap.Ldif.Fold.{continuations, fold_parts-pieces}
use dbx_plugin_ldap.Ldif.Unfold.{
  IsInline, IsStart, text_line, unfold-fold_parts, fold_parts-IsInline, unfold_next,
}
use dbx_plugin_ldap.Ldif.Parse.{Progress, flush, parse_step, parse_lines}

-- A joined line `join lf (p ∷ ps)` stands for its physical lines.
pub data Lines : List Str → List Str → Type 0 where
  nil : Lines [] []
  cons :
      {l : Str} {ls ph ph' : List Str} (p : Str) (ps : List Str)
      → l ≡ join (lf ∷ []) (p ∷ ps)
      → Lines ls ph
      → ph' ≡ p ∷ (ps ++ ph)
      → Lines (l ∷ ls) ph'

pub Lines-append : {a pa b pb : List Str} → Lines a pa → Lines b pb → Lines (a ++ b) (pa ++ pb)
Lines-append nil m = m
Lines-append {pb = pb} (cons {ph = ph} p ps e l f) m =
    cons p ps e (Lines-append l m) (ap (λ t. t ++ pb) f ∙ ap (λ t. p ∷ t) (append_assoc ps ph pb))

join-append :
    (p : Str) (ps ph : List Str)
    → ph ≢ []
    → join (lf ∷ []) (p ∷ (ps ++ ph)) ≡ join (lf ∷ []) (p ∷ ps) ++ (lf ∷ join (lf ∷ []) ph)
join-append p [] ph h = join-cons (lf ∷ []) p ph h
join-append p (q ∷ ps) ph h =
    ap (λ t. p ++ lf ∷ t) (join-append q ps ph h)
    ∙ sym (append_assoc p (lf ∷ join (lf ∷ []) (q ∷ ps)) (lf ∷ join (lf ∷ []) ph))

-- Joining the lines joins the physical lines.
pub join-Lines : {ls ph : List Str} → Lines ls ph → join (lf ∷ []) ls ≡ join (lf ∷ []) ph
join-Lines nil = refl
join-Lines (cons p ps e nil f) =
    e ∙ ap (join (lf ∷ [])) (ap (λ t. p ∷ t) (sym (append-nil ps)) ∙ sym f)
join-Lines (cons {l = l} {ls = m ∷ ls} p ps e (cons {ph' = ph} q qs e' rest f') f) =
    let tail = join-Lines (cons q qs e' rest f') in
    let filled : ph ≢ [] = λ z. cons-ne-nil q _ (sym f' ∙ z) in
    ap (λ t. l ++ lf ∷ t) tail
    ∙ ap (λ t. t ++ lf ∷ join (lf ∷ []) ph) e
    ∙ sym (join-append p ps ph filled)
    ∙ ap (join (lf ∷ [])) (sym f)

module _ (decode : Str → Option Str) where
  -- The state when the waiting line has been read too.
  abbrev pub settle : Option UnfoldedLine → Progress → Option Progress
  settle none p = some p
  settle (some line) p = parse_step decode line p

  pub parse_lines-pushed :
      (current : Option UnfoldedLine) (p : Progress) (items : List UnfoldedLine)
      → parse_lines decode (pushed current items) (some p)
        ≡ parse_lines decode items (settle current p)
  unfolding parse_lines
  parse_lines-pushed none p items = refl
  parse_lines-pushed (some line) p items = refl

  pub record Reached (i : ℕ) (current : Option UnfoldedLine) (p₀ : Progress) (lines rest : List Str)
      (q : Progress) : Type 0 where
    pub index : ℕ
    pub waiting : Option UnfoldedLine
    pub before : Progress
    pub reads :
        parse_lines decode (unfold_from i current (lines ++ rest)) (some p₀)
        ≡ parse_lines decode (unfold_from index waiting rest) (some before)
    pub settles : settle waiting before ≡ some q

  -- The physical lines take the parser from `p` to `q`, whatever stands before and after.
  abbrev pub Reaches : List Str → Progress → Progress → Type 0
  Reaches lines p q =
      (i : ℕ) (current : Option UnfoldedLine) (p₀ : Progress) (rest : List Str)
      → settle current p₀ ≡ some p
      → Reached i current p₀ lines rest q

  Reaches-nil : (p : Progress) → Reaches [] p p
  Reaches-nil p i current p₀ rest h = record {
    index = i;
    waiting = current;
    before = p₀;
    reads = refl;
    settles = h;
  }

  Reaches-append :
      (a b : List Str) (p q r : Progress) → Reaches a p q → Reaches b q r → Reaches (a ++ b) p r
  Reaches-append a b p q r f g i current p₀ rest h =
      let x = f i current p₀ (b ++ rest) h in
      let y = g x.index x.waiting x.before rest x.settles in
      record {
        index = y.index;
        waiting = y.waiting;
        before = y.before;
        reads =
            ap (λ t. parse_lines decode (unfold_from i current t) (some p₀)) (append_assoc a b rest)
            ∙ x.reads
            ∙ y.reads;
        settles = y.settles;
      }

  -- A line of text that takes the parser from `p` to `q`, wherever it starts.
  abbrev pub Steps : Str → Progress → Progress → Type 0
  Steps line p q = (n : ℕ) → parse_step decode (text_line line n) p ≡ some q

  Reaches-fold_parts :
      (c : ℕ) (s : Str) (w : ℕ) (p q : Progress)
      → 0 < w
      → IsStart c
      → Steps (c ∷ s) p q
      → Reaches (fold_parts (c ∷ s) w) p q
  Reaches-fold_parts c s w p q pos start steps i current p₀ rest h =
      let (j, e) = unfold-fold_parts c s w i current rest pos start in
      record {
        index = j;
        waiting = some (text_line (c ∷ s) i);
        before = p;
        reads =
            ap (λ t. parse_lines decode t (some p₀)) e
            ∙ parse_lines-pushed current p₀ _
            ∙ ap (parse_lines decode (unfold_from j (some (text_line (c ∷ s) i)) rest)) h;
        settles = steps i;
      }

  continued_blank : (current : Option UnfoldedLine) → continued current [] ≡ none
  continued_blank none = unfold continued in refl
  continued_blank (some line) = unfold continued in refl

  -- A blank line closes the entry.
  Reaches-blank : (p : Progress) → Reaches ([] ∷ []) p (flush p)
  Reaches-blank p i current p₀ rest h = record {
    index = i + 1;
    waiting = some (new_line [] i);
    before = p;
    reads =
        ap (λ t. parse_lines decode t (some p₀))
          (unfold_next i current [] rest (continued_blank current))
        ∙ parse_lines-pushed current p₀ _
        ∙ ap (parse_lines decode (unfold_from (i + 1) (some (new_line [] i)) rest)) h;
    settles = unfold parse_step new_line in refl;
  }

  -- Joined lines, their physical lines and what reading them does.
  pub record Wrote (ls : List Str) (p q : Progress) : Type 0 where
    pub physical : List Str
    pub lines : Lines ls physical
    pub inline : All (All IsInline) physical
    pub reaches : Reaches physical p q

  pub Wrote-nil : (p : Progress) → Wrote [] p p
  Wrote-nil p = record { physical = []; lines = nil; inline = tt; reaches = Reaches-nil p }

  pub Wrote-append :
      (a b : List Str) (p q r : Progress) → Wrote a p q → Wrote b q r → Wrote (a ++ b) p r
  Wrote-append a b p q r x y = record {
    physical = x.physical ++ y.physical;
    lines = Lines-append x.lines y.lines;
    inline = All-append (All IsInline) x.physical y.physical x.inline y.inline;
    reaches = Reaches-append x.physical y.physical p q r x.reaches y.reaches;
  }

  pub Wrote-blank : (p : Progress) → Wrote ([] ∷ []) p (flush p)
  Wrote-blank p = record {
    physical = [] ∷ [];
    lines = cons [] [] refl nil refl;
    inline = (tt, tt);
    reaches = Reaches-blank p;
  }

  pub Wrote-fold_line :
      (c : ℕ) (s : Str) (w : ℕ) (p q : Progress)
      → 0 < w
      → IsStart c
      → All IsInline (c ∷ s)
      → Steps (c ∷ s) p q
      → Wrote (fold_line (c ∷ s) w ∷ []) p q
  Wrote-fold_line c s w p q pos start inline steps =
      let (first, pieces, e, _, _) = fold_parts-pieces (c ∷ s) w pos in
      record {
        physical = fold_parts (c ∷ s) w;
        lines =
            cons {l = fold_line (c ∷ s) w} first (continuations pieces)
              (unfold fold_line in ap (join (lf ∷ [])) e) nil
              (e ∙ ap (λ t. first ∷ t) (sym (append-nil (continuations pieces))));
        inline = fold_parts-IsInline (c ∷ s) w pos inline;
        reaches = Reaches-fold_parts c s w p q pos start steps;
      }
