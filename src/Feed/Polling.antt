-- ===== src/Feed/Polling.antt =====
-- Polling with the cursor of frontend/src/lib/logFeed.ts: `nextLogCursor` and `mergeLogTail`.
use dbx_plugin_ldap.Base.{
  ℕ, ◌≤◌, ◌<◌, ◌≡◌, ◌≢◌, ◌⊎◌, inl, inr, refl, sym, ap, ◌∙◌, true, false, List, [], ◌∷◌, ◌++◌, arith,
  All, All-imp, All-append, elem, ltb, leb, if◌then◌else◌, Bool-cases,
}
use dbx_plugin_ldap.Feed.{
  LogFeedItem, keep_newest, insert_by_seq, sort_by_seq, unknown_items, seqs, merge_log_tail,
  cursor_from, next_log_cursor,
}
use dbx_plugin_ldap.Feed.Merge.{IsAscending, IsDistinct}
use mathlib.Core.Path.{subst}

IsAscending-IsDistinct : (xs : List LogFeedItem) → IsAscending xs → IsDistinct xs
IsAscending-IsDistinct [] a = tt
IsAscending-IsDistinct (x ∷ xs) (b, a) = (
  All-imp (λ y. x.seq < y.seq) (λ y. x.seq ≢ y.seq) (λ y q. omega arith) xs b,
  IsAscending-IsDistinct xs a,
)

insert_least :
    (x : LogFeedItem) (ys : List LogFeedItem)
    → All (λ y. x.seq < y.seq) ys
    → insert_by_seq x ys ≡ x ∷ ys
unfolding insert_by_seq
insert_least x [] h = refl
insert_least x (y ∷ ys) (p, h) = let e : leb x.seq y.seq ≡ true = ground arith in rw e

sort_sorted : (xs : List LogFeedItem) → IsAscending xs → sort_by_seq xs ≡ xs
unfolding sort_by_seq
sort_sorted [] a = refl
sort_sorted (x ∷ xs) (b, a) = ap (insert_by_seq x) (sort_sorted xs a) ∙ insert_least x xs b

keep_unknown :
    (known : List ℕ) (xs : List LogFeedItem)
    → All (λ y. elem y.seq known ≡ false) xs
    → IsDistinct xs
    → unknown_items known xs ≡ xs
unfolding unknown_items
keep_unknown known [] u d = refl
keep_unknown known (x ∷ xs) (e, u) (n, d) =
    rw e (ap (λ t. x ∷ t) (keep_unknown (x.seq ∷ known) xs (both xs u n) d))
  where
    both :
        (ys : List LogFeedItem)
        → All (λ y. elem y.seq known ≡ false) ys
        → All (λ y. x.seq ≢ y.seq) ys
        → All (λ y. elem y.seq (x.seq ∷ known) ≡ false) ys
    both [] u n = tt
    both (y ∷ ys) (p, u) (q, n) = (ground arith, both ys u n)

cursor_above :
    (c : ℕ) (xs : List LogFeedItem)
    → (c ≤ cursor_from c xs) × All (λ x. x.seq ≤ cursor_from c xs) xs
unfolding cursor_from
cursor_above c [] = (omega arith, tt)
cursor_above c (x ∷ xs) =
    let (a, h) = cursor_above (if ltb c x.seq then x.seq else c) xs in
    let (b, e) = larger c x.seq in (omega (arith, a, b), (omega (arith, a, e), h))
  where
    larger : (c n : ℕ) → (c ≤ (if ltb c n then n else c)) × (n ≤ (if ltb c n then n else c))
    larger c n = (ground arith, ground arith)

cursor_seen :
    (c : ℕ) (xs : List LogFeedItem)
    → (cursor_from c xs ≡ c) ⊎ (elem (cursor_from c xs) (seqs xs) ≡ true)
unfolding cursor_from
cursor_seen c [] = inl refl
cursor_seen c (x ∷ xs) = elim (Bool-cases (ltb c x.seq)) [
  | inl e ↦
      let next = ap (λ b. cursor_from (if b then x.seq else c) xs) e in
      inr (found _ x.seq (seqs xs) (next_seen x.seq _ (seqs xs) next (cursor_seen x.seq xs)))
  | inr e ↦
      let next = ap (λ b. cursor_from (if b then x.seq else c) xs) e in
      elim (next_seen c _ (seqs xs) next (cursor_seen c xs)) [
        | inl s ↦ inl s
        | inr s ↦ inr (found _ x.seq (seqs xs) (inr s))
      ]
]
  where
    next_seen :
        (n k : ℕ) {m : ℕ} (ns : List ℕ)
        → k ≡ m
        → (m ≡ n) ⊎ (elem m ns ≡ true)
        → (k ≡ n) ⊎ (elem k ns ≡ true)
    next_seen n k ns e h = subst (λ l. (l ≡ n) ⊎ (elem l ns ≡ true)) (sym e) h

    found : (k n : ℕ) (ns : List ℕ) → (k ≡ n) ⊎ (elem k ns ≡ true) → elem k (n ∷ ns) ≡ true
    found k n ns (inl e) = ground (arith, e)
    found k n ns (inr e) = ground (arith, e)

-- The cursor is at least the number of every record of the panel, and is 0 or one of them.
pub next_log_cursor-All :
    (items : List LogFeedItem)
    → All (λ x. x.seq ≤ next_log_cursor items) items
      × ((next_log_cursor items ≡ 0) ⊎ (elem (next_log_cursor items) (seqs items) ≡ true))
unfolding next_log_cursor
next_log_cursor-All items = ((cursor_above 0 items).1, cursor_seen 0 items)

newer_unknown :
    (c n : ℕ) (xs : List LogFeedItem) → All (λ x. x.seq ≤ c) xs → c < n → elem n (seqs xs) ≡ false
newer_unknown c n [] h l = refl
newer_unknown c n (x ∷ xs) (p, h) l = let rest = newer_unknown c n xs h l in ground (arith, rest)

IsAscending-append :
    (c : ℕ) (xs ys : List LogFeedItem)
    → All (λ x. x.seq ≤ c) xs
    → IsAscending xs
    → All (λ y. c < y.seq) ys
    → IsAscending ys
    → IsAscending (xs ++ ys)
IsAscending-append c [] ys h a n b = b
IsAscending-append c (x ∷ xs) ys (p, h) (l, a) n b = (
  All-append (λ y. x.seq < y.seq) xs ys l
      (All-imp (λ y. c < y.seq) (λ y. x.seq < y.seq) (λ y q. omega arith) ys n),
  IsAscending-append c xs ys h a n b,
)

-- Polling: records in order whose numbers lie above the cursor are put after the panel's records, all
-- of them and in their order, and the oldest go where there are more than `max`.
pub merge_log_tail-next_log_cursor :
    (items tail : List LogFeedItem) (max : ℕ)
    → IsAscending items
    → IsAscending tail
    → All (λ y. next_log_cursor items < y.seq) tail
    → merge_log_tail items tail max ≡ keep_newest max (items ++ tail)
unfolding merge_log_tail
merge_log_tail-next_log_cursor items tail max a b n =
    let c = next_log_cursor items in
    let below = (next_log_cursor-All items).0 in
    let unknown =
      All-imp (λ y. c < y.seq) (λ y. elem y.seq (seqs items) ≡ false)
        (λ y q. newer_unknown c y.seq items below q) tail n in
    ap (λ t. keep_newest max (sort_by_seq (items ++ unknown_items (seqs items) t)))
      (sort_sorted tail b)
    ∙ ap (λ t. keep_newest max (sort_by_seq (items ++ t)))
        (keep_unknown (seqs items) tail unknown (IsAscending-IsDistinct tail b))
    ∙ ap (keep_newest max)
        (sort_sorted (items ++ tail) (IsAscending-append c items tail below a n b))
