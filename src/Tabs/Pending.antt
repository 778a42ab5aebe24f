-- ===== src/Tabs/Pending.antt =====
-- The requests of frontend/src/lib/useReferenceTabs.ts that are in flight, and the tabs they serve.
use dbx_plugin_ldap.Base.{
  ℕ, ◌<◌, ◌≡◌, ◌≢◌, ◌⊎◌, inl, inr, refl, sym, ap, ◌∙◌, true, false, ◌&&◌, ◌||◌, Option, some, List,
  [], ◌∷◌, ◌++◌, arith, All, All-imp, ◌==◌, Bool-cases, ==→eq,
}
use mathlib.Core.Path.{subst}
use mathlib.Core.Option.{some-injective}
use dbx_plugin_ldap.Tabs.{ReferenceTab, Request, find_tab, update_tab}
use dbx_plugin_ldap.Tabs.Ids.{
  ids, IsAscending, ids-remove_tab, remove_tab-All, remove_id-All, remove_id-IsAscending,
}
use dbx_plugin_ldap.Tabs.Invariant.{is_asked, IsServed}
use dbx_plugin_ldap.Tabs.Evict.{Room}

pub is_asked-append :
    (ps qs : List Request) (t : ReferenceTab)
    → is_asked (ps ++ qs) t ≡ (is_asked ps t || is_asked qs t)
is_asked-append [] qs t = refl
is_asked-append (p ∷ ps) qs t = ground (arith, is_asked-append ps qs t)

pub is_asked-middle :
    (ps qs : List Request) (r : Request) (t : ReferenceTab)
    → is_asked (ps ++ r ∷ qs) t ≡ true
    → (is_asked (ps ++ qs) t ≡ true) ⊎ ((r.tab ≡ t.id) × (r.seq ≡ t.request_seq))
is_asked-middle [] qs r t h = elim (Bool-cases (is_asked qs t)) [
  | inl e ↦ inl e
  | inr e ↦ inr (ground arith)
]
is_asked-middle (p ∷ ps) qs r t h = elim (Bool-cases (p.tab == t.id && p.seq == t.request_seq)) [
  | inl e ↦ inl (ground arith)
  | inr e ↦ elim (is_asked-middle ps qs r t (ground arith)) [
    | inl k ↦ inl (ground arith)
    | inr k ↦ inr k
  ]
]

-- A request for the tab that is in the list stands somewhere in it.
pub is_asked-split :
    (ps : List Request) (t : ReferenceTab)
    → is_asked ps t ≡ true
    → (r : Request) × (before : List Request) × (after : List Request) × (ps ≡ before ++ r ∷ after)
      × (r.tab ≡ t.id)
      × (r.seq ≡ t.request_seq)
is_asked-split [] t h = absurd (cc)
is_asked-split (p ∷ ps) t h = elim (Bool-cases (p.tab == t.id && p.seq == t.request_seq)) [
  | inl e ↦ (p, [], ps, refl, ground arith, ground arith)
  | inr e ↦
      let (r, before, after, f, a, b) = is_asked-split ps t (ground arith) in
      (r, p ∷ before, after, ap (λ rs. p ∷ rs) f, a, b)
]

pub IsServed-append :
    (ps qs : List Request) (t : ReferenceTab) → IsServed ps t → IsServed (ps ++ qs) t
IsServed-append ps qs t h = ground (arith, is_asked-append ps qs t)

after_others :
    (P Q : ReferenceTab → Type 0) (id : ℕ) (ts : List ReferenceTab)
    → All (λ k. id < k) (ids ts)
    → ((u : ReferenceTab) → u.id ≢ id → P u → Q u)
    → All P ts
    → All Q ts
after_others P Q id [] b h a = tt
after_others P Q id (t ∷ ts) (l, b) h (p, a) =
    (h t (λ e. omega arith) p, after_others P Q id ts b h a)

-- A write to the tab that is found, where no other tab has its identifier.
pub update_found :
    (P Q : ReferenceTab → Type 0) (id : ℕ) (f : ReferenceTab → ReferenceTab)
    (ts : List ReferenceTab) (t : ReferenceTab)
    → find_tab id ts ≡ some t
    → IsAscending (ids ts)
    → ((u : ReferenceTab) → u.id ≢ id → P u → Q u)
    → (P t → Q (f t))
    → All P ts
    → All Q (update_tab id f ts)
unfolding find_tab update_tab
update_found P Q id f [] t e s h g a = absurd (cc)
update_found P Q id f (u ∷ ts) t e (b, s) h g (p, a) = elim (Bool-cases (u.id == id)) [
  | inl m ↦
      let same : u ≡ t = some-injective u t (ground (arith, e)) in
      let here : u.id ≡ id = ==→eq _ _ m in
      rw m (
        subst (λ v. P v → Q (f v)) (sym same) g p,
        after_others P Q id ts (subst (λ k. All (λ j. k < j) (ids ts)) here b) h a,
      )
  | inr m ↦ rw m (h u (λ e. ground arith) p, update_found P Q id f ts t (ground (arith, e)) s h g a)
]

pub find_tab-update_tab :
    (id : ℕ) (f : ReferenceTab → ReferenceTab) (ts : List ReferenceTab) (t : ReferenceTab)
    → ((u : ReferenceTab) → (f u).id ≡ u.id)
    → find_tab id ts ≡ some t
    → find_tab id (update_tab id f ts) ≡ some (f t)
unfolding find_tab update_tab
find_tab-update_tab id f [] t k e = absurd (cc)
find_tab-update_tab id f (u ∷ ts) t k e = elim (Bool-cases (u.id == id)) [
  | inl m ↦
      let same : u ≡ t = some-injective u t (ground (arith, e)) in
      let again : (f u).id == id ≡ true = rw (k u) m in rw (m, again) (ap (λ v. some (f v)) same)
  | inr m ↦ rw (m, m) (find_tab-update_tab id f ts t k (ground (arith, e)))
]

All-tt : (ts : List ReferenceTab) → All (λ u. Unit {0}) ts
All-tt [] = tt
All-tt (t ∷ ts) = (tt, All-tt ts)

-- Every tab is the one that its identifier finds.
pub find_tab_of :
    (id : ℕ) (ts : List ReferenceTab)
    → IsAscending (ids ts)
    → All (λ u. u.id ≡ id → find_tab id ts ≡ some u) ts
unfolding find_tab
find_tab_of id [] s = tt
find_tab_of id (t ∷ ts) (b, s) = elim (Bool-cases (t.id == id)) [
  | inl m ↦ (
    λ e. rw m refl,
    after_others (λ u. Unit {0}) (λ u. u.id ≡ id → find_tab id (t ∷ ts) ≡ some u) id ts
        (subst (λ k. All (λ j. k < j) (ids ts)) (==→eq _ _ m) b) (λ u n _ e. absurd (n e))
        (All-tt ts),
  )
  | inr m ↦
      let later : find_tab id (t ∷ ts) ≡ find_tab id ts = rw m refl in
      (
        λ e. absurd (ground arith),
        All-imp (λ u. u.id ≡ id → find_tab id ts ≡ some u)
            (λ u. u.id ≡ id → find_tab id (t ∷ ts) ≡ some u) (λ u h e. later ∙ h e) ts
            (find_tab_of id ts s),
      )
]

pub update_tab_last :
    (id : ℕ) (f : ReferenceTab → ReferenceTab) (ts : List ReferenceTab) (t : ReferenceTab)
    → All (λ k. k < id) (ids ts)
    → t.id ≡ id
    → update_tab id f (ts ++ t ∷ []) ≡ ts ++ f t ∷ []
unfolding update_tab
update_tab_last id f [] t b e = rw e (ground arith)
update_tab_last id f (u ∷ ts) t (l, b) e =
    let other : u.id == id ≡ false = ground arith in
    rw other (ap (λ us. u ∷ us) (update_tab_last id f ts t b e))

module _ {active : Option ℕ} {ts kept : List ReferenceTab} (r : Room active ts kept) where
  pub Room-IsAscending : IsAscending (ids ts) → IsAscending (ids kept)
  Room-IsAscending s = elim r.same [
    | inl e ↦ subst (λ us. IsAscending (ids us)) (sym e) s
    | inr (id, e, _, _) ↦
        subst (λ us. IsAscending (ids us)) (sym e)
          (subst IsAscending (sym (ids-remove_tab id ts)) (remove_id-IsAscending id (ids ts) s))
  ]

  pub Room-All-ids : (P : ℕ → Type 0) → All P (ids ts) → All P (ids kept)
  Room-All-ids P a = elim r.same [
    | inl e ↦ subst (λ us. All P (ids us)) (sym e) a
    | inr (id, e, _, _) ↦
        subst (λ us. All P (ids us)) (sym e)
          (subst (All P) (sym (ids-remove_tab id ts)) (remove_id-All P id (ids ts) a))
  ]

  pub Room-All : (P : ReferenceTab → Type 0) → All P ts → All P kept
  Room-All P a = elim r.same [
    | inl e ↦ subst (All P) (sym e) a
    | inr (id, e, _, _) ↦ subst (All P) (sym e) (remove_tab-All P id ts a)
  ]
