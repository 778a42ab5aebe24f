-- ===== src/Feed/Merge.antt =====
-- `mergeLogTail` and `nextLogCursor` of frontend/src/lib/logFeed.ts: order, bounds and polling.
use dbx_plugin_ldap.Base.{
  ℕ, zero, suc, ◌-◌, ◌≤◌, ◌<◌, ◌≡◌, ◌≢◌, inl, inr, false, List, [], ◌∷◌, ◌++◌, arith, length, drop,
  length-drop, All, All-imp, All-append, elem, ltb, leb, Bool-cases,
}
use dbx_plugin_ldap.Feed.{
  LogFeedItem, keep_newest, insert_by_seq, sort_by_seq, unknown_items, seqs, merge_log_tail,
}

-- Strictly ascending numbers.
abbrev pub IsAscending : List LogFeedItem → Type 0
IsAscending [] = Unit
IsAscending (x ∷ xs) = All (λ y. x.seq < y.seq) xs × IsAscending xs

-- No number twice.
abbrev pub IsDistinct : List LogFeedItem → Type 0
IsDistinct [] = Unit
IsDistinct (x ∷ xs) = All (λ y. x.seq ≢ y.seq) xs × IsDistinct xs

insert_by_seq-All :
    (P : LogFeedItem → Type 0) (x : LogFeedItem) (ys : List LogFeedItem)
    → P x
    → All P ys
    → All P (insert_by_seq x ys)
unfolding insert_by_seq
insert_by_seq-All P x [] p h = (p, tt)
insert_by_seq-All P x (y ∷ ys) p (q, h) = elim (Bool-cases (leb x.seq y.seq)) [
  | inl e ↦ rw e (p, (q, h))
  | inr e ↦ rw e (q, insert_by_seq-All P x ys p h)
]

insert_by_seq-IsAscending :
    (x : LogFeedItem) (ys : List LogFeedItem)
    → IsAscending ys
    → All (λ y. x.seq ≢ y.seq) ys
    → IsAscending (insert_by_seq x ys)
unfolding insert_by_seq
insert_by_seq-IsAscending x [] a d = (tt, tt)
insert_by_seq-IsAscending x (y ∷ ys) (b, a) (n, d) = elim (Bool-cases (leb x.seq y.seq)) [
  | inl e ↦
      let less : x.seq < y.seq = ground arith in
      rw e (
        (less, All-imp (λ z. y.seq < z.seq) (λ z. x.seq < z.seq) (λ z q. omega arith) ys b),
        (b, a),
      )
  | inr e ↦
      let less : y.seq < x.seq = ground arith in
      rw e (insert_by_seq-All (λ z. y.seq < z.seq) x ys less b, insert_by_seq-IsAscending x ys a d)
]

sort_by_seq-All :
    (P : LogFeedItem → Type 0) (xs : List LogFeedItem) → All P xs → All P (sort_by_seq xs)
unfolding sort_by_seq
sort_by_seq-All P [] h = tt
sort_by_seq-All P (x ∷ xs) (p, h) =
    insert_by_seq-All P x (sort_by_seq xs) p (sort_by_seq-All P xs h)

sort_by_seq-IsAscending : (xs : List LogFeedItem) → IsDistinct xs → IsAscending (sort_by_seq xs)
unfolding sort_by_seq
sort_by_seq-IsAscending [] h = tt
sort_by_seq-IsAscending (x ∷ xs) (n, d) =
    insert_by_seq-IsAscending x (sort_by_seq xs) (sort_by_seq-IsAscending xs d)
      (sort_by_seq-All (λ y. x.seq ≢ y.seq) xs n)

-- The numbers are not known.
abbrev IsUnknown : List ℕ → List LogFeedItem → Type 0
IsUnknown known xs = All (λ y. elem y.seq known ≡ false) xs

unknown_items-IsDistinct :
    (known : List ℕ) (xs : List LogFeedItem)
    → IsUnknown known (unknown_items known xs) × IsDistinct (unknown_items known xs)
unfolding unknown_items
unknown_items-IsDistinct known [] = (tt, tt)
unknown_items-IsDistinct known (x ∷ xs) = elim (Bool-cases (elem x.seq known)) [
  | inl e ↦ rw e (unknown_items-IsDistinct known xs)
  | inr e ↦
      let (u, d) = unknown_items-IsDistinct (x.seq ∷ known) xs in
      let rest = unknown_items (x.seq ∷ known) xs in
      rw e (
        (
          e,
          All-imp (λ y. elem y.seq (x.seq ∷ known) ≡ false) (λ y. elem y.seq known ≡ false)
              (λ y q. ground arith) rest u,
        ),
        (
          All-imp (λ y. elem y.seq (x.seq ∷ known) ≡ false) (λ y. x.seq ≢ y.seq)
              (λ y q. ground arith) rest u,
          d,
        ),
      )
]

IsDistinct-append :
    (xs ys : List LogFeedItem)
    → IsDistinct xs
    → IsDistinct ys
    → IsUnknown (seqs xs) ys
    → IsDistinct (xs ++ ys)
IsDistinct-append [] ys d e u = e
IsDistinct-append (x ∷ xs) ys (n, d) e u = (
  All-append (λ y. x.seq ≢ y.seq) xs ys n
      (All-imp (λ y. elem y.seq (x.seq ∷ seqs xs) ≡ false) (λ y. x.seq ≢ y.seq)
        (λ y q. ground arith) ys u),
  IsDistinct-append xs ys d e (
      All-imp (λ y. elem y.seq (x.seq ∷ seqs xs) ≡ false) (λ y. elem y.seq (seqs xs) ≡ false)
        (λ y q. ground arith) ys u),
)

drop-IsAscending : (n : ℕ) (xs : List LogFeedItem) → IsAscending xs → IsAscending (drop n xs)
drop-IsAscending zero xs a = a
drop-IsAscending (suc n) [] a = a
drop-IsAscending (suc n) (x ∷ xs) (b, a) = drop-IsAscending n xs a

keep_newest-IsAscending :
    (max : ℕ) (xs : List LogFeedItem) → IsAscending xs → IsAscending (keep_newest max xs)
unfolding keep_newest
keep_newest-IsAscending max xs a = elim (Bool-cases (ltb max (length xs))) [
  | inl e ↦ rw e (drop-IsAscending (length xs - max) xs a)
  | inr e ↦ rw e a
]

-- The newest records are at most `max`.
pub length-keep_newest {ℓ} :
    {A : Type ℓ} (max : ℕ) (xs : List A) → length (keep_newest max xs) ≤ max
unfolding keep_newest
length-keep_newest max xs = elim (Bool-cases (ltb max (length xs))) [
  | inl e ↦ let size = length-drop (length xs - max) xs in rw e (ground (arith, size))
  | inr e ↦ rw e (ground arith)
]

-- Where no number stands twice in the panel, the merged records have strictly ascending numbers and
-- are at most `max`, whatever the tail holds.
pub merge_log_tail-IsAscending :
    (items tail : List LogFeedItem) (max : ℕ)
    → IsDistinct items
    → IsAscending (merge_log_tail items tail max) × (length (merge_log_tail items tail max) ≤ max)
unfolding merge_log_tail
merge_log_tail-IsAscending items tail max d =
    let (u, e) = unknown_items-IsDistinct (seqs items) (sort_by_seq tail) in
    (
      keep_newest-IsAscending max _ (sort_by_seq-IsAscending _ (IsDistinct-append items _ d e u)),
      length-keep_newest max _,
    )
