-- ===== src/Tabs/Ids.antt =====
-- The identifiers of the tabs of frontend/src/lib/useReferenceTabs.ts: closing takes one away, writing
-- to a tab changes none.
use dbx_plugin_ldap.Base.{
  ℕ, suc, ◌≤◌, ◌<◌, ◌≡◌, ◌≢◌, ◌⊎◌, inl, inr, refl, ap, true, false, ◌||◌, Option, none, some, List,
  [], ◌∷◌, ◌++◌, arith, length, All, All-append, elem, ◌==◌, if◌then◌else◌, Bool-cases, ==→eq,
}
use dbx_plugin_ldap.Tabs.{
  ReferenceTab, find_tab, index_of, remove_tab, update_tab, is_active, first_inactive,
}

abbrev pub ids : List ReferenceTab → List ℕ
ids [] = []
ids (t ∷ ts) = t.id ∷ ids ts

abbrev pub remove_id : ℕ → List ℕ → List ℕ
remove_id id [] = []
remove_id id (k ∷ ks) = if k == id then ks else k ∷ remove_id id ks

abbrev pub IsAscending : List ℕ → Type 0
IsAscending [] = Unit
IsAscending (k ∷ ks) = All (λ j. k < j) ks × IsAscending ks

pub ids-append : (ts us : List ReferenceTab) → ids (ts ++ us) ≡ ids ts ++ ids us
ids-append [] us = refl
ids-append (t ∷ ts) us = ap (λ ks. t.id ∷ ks) (ids-append ts us)

pub ids-remove_tab :
    (id : ℕ) (ts : List ReferenceTab) → ids (remove_tab id ts) ≡ remove_id id (ids ts)
unfolding remove_tab
ids-remove_tab id [] = refl
ids-remove_tab id (t ∷ ts) = elim (Bool-cases (t.id == id)) [
  | inl e ↦ rw e refl
  | inr e ↦ rw e (ap (λ ks. t.id ∷ ks) (ids-remove_tab id ts))
]

pub ids-update_tab :
    (id : ℕ) (f : ReferenceTab → ReferenceTab) (ts : List ReferenceTab)
    → ((t : ReferenceTab) → (f t).id ≡ t.id)
    → ids (update_tab id f ts) ≡ ids ts
unfolding update_tab
ids-update_tab id f [] h = refl
ids-update_tab id f (t ∷ ts) h = elim (Bool-cases (t.id == id)) [
  | inl e ↦ rw e (ap (λ k. k ∷ ids ts) (h t))
  | inr e ↦ rw e (ap (λ ks. t.id ∷ ks) (ids-update_tab id f ts h))
]

pub update_tab-All :
    (P : ReferenceTab → Type 0) (id : ℕ) (f : ReferenceTab → ReferenceTab) (ts : List ReferenceTab)
    → ((t : ReferenceTab) → t.id ≡ id → P t → P (f t))
    → All P ts
    → All P (update_tab id f ts)
unfolding update_tab
update_tab-All P id f [] h a = tt
update_tab-All P id f (t ∷ ts) h (p, a) = elim (Bool-cases (t.id == id)) [
  | inl e ↦ rw e (h t (==→eq _ _ e) p, a)
  | inr e ↦ rw e (p, update_tab-All P id f ts h a)
]

pub remove_tab-All :
    (P : ReferenceTab → Type 0) (id : ℕ) (ts : List ReferenceTab)
    → All P ts
    → All P (remove_tab id ts)
unfolding remove_tab
remove_tab-All P id [] a = tt
remove_tab-All P id (t ∷ ts) (p, a) = elim (Bool-cases (t.id == id)) [
  | inl e ↦ rw e a
  | inr e ↦ rw e (p, remove_tab-All P id ts a)
]

pub remove_id-All : (P : ℕ → Type 0) (id : ℕ) (ks : List ℕ) → All P ks → All P (remove_id id ks)
remove_id-All P id [] a = tt
remove_id-All P id (k ∷ ks) (p, a) = elim (Bool-cases (k == id)) [
  | inl e ↦ rw e a
  | inr e ↦ rw e (p, remove_id-All P id ks a)
]

pub remove_id-IsAscending : (id : ℕ) (ks : List ℕ) → IsAscending ks → IsAscending (remove_id id ks)
remove_id-IsAscending id [] a = tt
remove_id-IsAscending id (k ∷ ks) (b, a) = elim (Bool-cases (k == id)) [
  | inl e ↦ rw e a
  | inr e ↦ rw e (remove_id-All (λ j. k < j) id ks b, remove_id-IsAscending id ks a)
]

pub elem-remove_id :
    (k id : ℕ) (ks : List ℕ) → k ≢ id → elem k ks ≡ true → elem k (remove_id id ks) ≡ true
elem-remove_id k id [] n h = h
elem-remove_id k id (j ∷ ks) n h = ground (arith, elem-remove_id k id ks n)

pub length-remove_id :
    (id : ℕ) (ks : List ℕ) → elem id ks ≡ true → suc (length (remove_id id ks)) ≡ length ks
length-remove_id id [] h = cc
length-remove_id id (j ∷ ks) h = ground (arith, length-remove_id id ks)

pub remove_id-none : (id : ℕ) (ks : List ℕ) → elem id ks ≡ false → remove_id id ks ≡ ks
remove_id-none id [] h = refl
remove_id-none id (j ∷ ks) h = ground (arith, remove_id-none id ks)

pub elem-append : (k : ℕ) (ks js : List ℕ) → elem k (ks ++ js) ≡ (elem k ks || elem k js)
elem-append k [] js = refl
elem-append k (j ∷ ks) js = ground (arith, elem-append k ks js)

pub IsAscending-append :
    (ks : List ℕ) (n : ℕ) → IsAscending ks → All (λ k. k < n) ks → IsAscending (ks ++ n ∷ [])
IsAscending-append [] n a h = (tt, tt)
IsAscending-append (k ∷ ks) n (b, a) (l, h) =
    (All-append (λ j. k < j) ks (n ∷ []) b (l, tt), IsAscending-append ks n a h)

pub All-elem : (P : ℕ → Type 0) (k : ℕ) (ks : List ℕ) → All P ks → elem k ks ≡ true → P k
All-elem P k [] a h = absurd (cc)
All-elem P k (j ∷ ks) (p, a) h = elim (Bool-cases (k == j)) [
  | inl e ↦ rw (==→eq k j e) p
  | inr e ↦ All-elem P k ks a (ground arith)
]

pub index_of-cases :
    (id : ℕ) (ts : List ReferenceTab)
    → ((index_of id ts ≡ none) × (elem id (ids ts) ≡ false))
      ⊎ ((i : ℕ) × (index_of id ts ≡ some i) × (elem id (ids ts) ≡ true))
unfolding index_of
index_of-cases id [] = inl (refl, refl)
index_of-cases id (t ∷ ts) = elim (Bool-cases (t.id == id)) [
  | inl e ↦ inr (0, rw e refl, ground arith)
  | inr e ↦ elim (index_of-cases id ts) [
    | inl (a, b) ↦ inl (rw (e, a) refl, ground arith)
    | inr (i, a, b) ↦ inr (suc i, rw (e, a) refl, ground arith)
  ]
]

pub find_tab-cases :
    (id : ℕ) (ts : List ReferenceTab)
    → ((find_tab id ts ≡ none) × (elem id (ids ts) ≡ false))
      ⊎ ((t : ReferenceTab) × (find_tab id ts ≡ some t) × (elem id (ids ts) ≡ true) × (t.id ≡ id))
unfolding find_tab
find_tab-cases id [] = inl (refl, refl)
find_tab-cases id (t ∷ ts) = elim (Bool-cases (t.id == id)) [
  | inl e ↦ inr (t, rw e refl, ground arith, ==→eq _ _ e)
  | inr e ↦ elim (find_tab-cases id ts) [
    | inl (a, b) ↦ inl (rw (e, a) refl, ground arith)
    | inr (u, a, b, c) ↦ inr (u, rw (e, a) refl, ground arith, c)
  ]
]

-- The first identifier that is not the given one, as `first_inactive` picks it.
abbrev pub first_other : Option ℕ → List ℕ → Option ℕ
first_other active [] = none
first_other active (k ∷ ks) = if is_active k active then first_other active ks else some k

pub first_inactive-ids :
    (active : Option ℕ) (ts : List ReferenceTab)
    → first_inactive active ts ≡ first_other active (ids ts)
unfolding first_inactive
first_inactive-ids active [] = refl
first_inactive-ids active (t ∷ ts) = elim (Bool-cases (is_active t.id active)) [
  | inl e ↦ rw e (first_inactive-ids active ts)
  | inr e ↦ rw e refl
]

-- Of three ascending identifiers and more, the first that is not the active one is there, and is
-- neither the active one nor the last.
pub first_other_lem :
    (a n : ℕ) (ks : List ℕ)
    → IsAscending ks
    → All (λ k. k ≤ n) ks
    → 2 < length ks
    → (id : ℕ) × (first_other (some a) ks ≡ some id) × (elem id ks ≡ true) × (id ≢ a) × (id < n)
first_other_lem a n [] s h l = absurd (omega (arith, l))
first_other_lem a n (i ∷ []) s h l = absurd (omega (arith, l))
first_other_lem a n (i ∷ j ∷ []) s h l = absurd (omega (arith, l))
first_other_lem a n (i ∷ j ∷ k ∷ ks) s h l = elim (Bool-cases (a == i)) [
  | inl e ↦
      let other : a == j ≡ false = ground arith in
      (j, rw (e, other) refl, ground arith, ground arith, omega arith)
  | inr e ↦ (i, rw e refl, ground arith, ground arith, omega arith)
]
