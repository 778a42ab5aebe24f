-- ===== src/Tabs/Invariant.antt =====
-- The state that frontend/src/lib/useReferenceTabs.ts keeps: what holds of it before and after each
-- operation.
use dbx_plugin_ldap.Base.{
  ℕ, zero, suc, ◌-◌, ◌≤◌, ◌≡◌, ◌≢◌, inl, inr, refl, sym, ap, ◌∙◌, Bool, true, false, not, ◌&&◌,
  ◌||◌, Option, none, some, List, [], ◌∷◌, arith, length, get_elem?, All, is_empty, elem, ◌==◌,
  Bool-cases,
}
use mathlib.Core.Option.{some-injective}
use mathlib.Core.Path.{subst}
use dbx_plugin_ldap.Tabs.{
  ReferenceTab, Request, References, remove_tab, id_of, neighbour_of, neighbour, close_reference,
  close_at, close_reference_tab, reference_tab_limit,
}
use dbx_plugin_ldap.Tabs.Ids.{
  ids, remove_id, IsAscending, ids-remove_tab, remove_tab-All, remove_id-All, remove_id-IsAscending,
  elem-remove_id, remove_id-none, index_of-cases,
}

-- A request for the tab's current load is in flight.
abbrev pub is_asked : List Request → ReferenceTab → Bool
is_asked [] t = false
is_asked (r ∷ rs) t = (r.tab == t.id && r.seq == t.request_seq) || is_asked rs t

-- The tab is not loading, or its load is in flight.
abbrev pub IsServed : List Request → ReferenceTab → Type 0
IsServed pending t = (not t.loading || is_asked pending t) ≡ true

-- The active tab is one of the tabs; without tabs none is active.
abbrev pub IsShown : Option ℕ → List ℕ → Type 0
IsShown none ks = ks ≡ []
IsShown (some k) ks = elem k ks ≡ true

-- Everything but the limit.
pub record IsSound (s : References) : Type 0 where
  pub ascending : IsAscending (ids s.tabs)
  pub below : All (λ k. k ≤ s.last_id) (ids s.tabs)
  pub shown : IsShown s.active (ids s.tabs)
  pub opened : s.open_now ≡ not (is_empty (ids s.tabs))
  pub served : All (IsServed s.pending) s.tabs

pub record IsWellFormed (s : References) : Type 0 where
  pub sound : IsSound s
  pub bounded : length s.tabs ≤ reference_tab_limit

pub length-ids : (ts : List ReferenceTab) → length (ids ts) ≡ length ts
length-ids [] = refl
length-ids (t ∷ ts) = ap suc (length-ids ts)

pub close_reference-IsSound : (s : References) → IsSound (close_reference s)
unfolding close_reference
close_reference-IsSound s = record {
  ascending = tt;
  below = tt;
  shown = refl;
  opened = refl;
  served = tt;
}

get-elem :
    (i : ℕ) (ts : List ReferenceTab) (t : ReferenceTab)
    → get_elem? ts i ≡ some t
    → elem t.id (ids ts) ≡ true
get-elem i [] t e = absurd (cc)
get-elem zero (u ∷ ts) t e = ground (arith, ap (λ o. id_of o) e)
get-elem (suc i) (u ∷ ts) t e = ground (arith, get-elem i ts t e)

IsShown-neighbour_of :
    (o : Option ReferenceTab) (t : ReferenceTab) (ts : List ReferenceTab)
    → ((u : ReferenceTab) → o ≡ some u → elem u.id (ids (t ∷ ts)) ≡ true)
    → IsShown (neighbour_of o (t ∷ ts)) (ids (t ∷ ts))
IsShown-neighbour_of none t ts h = ground arith
IsShown-neighbour_of (some u) t ts h = h u refl

neighbour-IsShown :
    (i : ℕ) (t : ReferenceTab) (ts : List ReferenceTab)
    → IsShown (neighbour i (t ∷ ts)) (ids (t ∷ ts))
neighbour-IsShown i t ts =
    IsShown-neighbour_of (get_elem? (t ∷ ts) (i - 1)) t ts (get-elem (i - 1) (t ∷ ts))

close_at-IsSound :
    (id i : ℕ) (rest : List ReferenceTab) (s : References)
    → IsAscending (ids rest)
    → All (λ k. k ≤ s.last_id) (ids rest)
    → All (IsServed s.pending) rest
    → s.open_now ≡ true
    → ((k : ℕ) → s.active ≡ some k → k ≢ id → elem k (ids rest) ≡ true)
    → ((k : ℕ) × (s.active ≡ some k))
    → IsSound (close_at id i rest s)
close_at-IsSound id i [] s a b v o keep some_active =
    close_reference-IsSound (record s { tabs = [] })
close_at-IsSound id i (t ∷ ts) s a b v o keep (k, e) = elim (Bool-cases (k == id)) [
  | inl same ↦ record {
    ascending = a;
    below = b;
    shown = rw (e, same) (neighbour-IsShown i t ts);
    opened = o;
    served = v;
  }
  | inr other ↦ record {
    ascending = a;
    below = b;
    shown = rw (e, other) (keep k e (ground arith));
    opened = o;
    served = v;
  }
]

pub active_some :
    (o : Option ℕ) (id : ℕ) (ks : List ℕ)
    → IsShown o ks
    → elem id ks ≡ true
    → (k : ℕ) × (o ≡ some k) × (elem k ks ≡ true)
active_some none id ks h e = absurd (ground (arith, ap (elem id) h))
active_some (some k) id ks h e = (k, refl, h)

pub filled_of_elem : (id : ℕ) (ks : List ℕ) → elem id ks ≡ true → is_empty ks ≡ false
filled_of_elem id [] h = cc
filled_of_elem id (k ∷ ks) h = refl

pub close_reference_tab-IsSound :
    (id : ℕ) (s : References) → IsSound s → IsSound (close_reference_tab id s)
unfolding close_reference_tab
close_reference_tab-IsSound id s v = elim (index_of-cases id s.tabs) [
  | inl (e, _) ↦ rw (close_reference_tab, e) v
  | inr (i, e, m) ↦
      let (k, a, h) = active_some s.active id (ids s.tabs) v.shown m in
      let left = ids-remove_tab id s.tabs in
      rw (close_reference_tab, e)
        (close_at-IsSound id i (remove_tab id s.tabs) s
          (subst IsAscending (sym left) (remove_id-IsAscending id (ids s.tabs) v.ascending))
          (subst (All (λ k. k ≤ s.last_id)) (sym left)
            (remove_id-All (λ k. k ≤ s.last_id) id (ids s.tabs) v.below))
          (remove_tab-All (IsServed s.pending) id s.tabs v.served)
          (v.opened ∙ ap not (filled_of_elem id (ids s.tabs) m))
          (λ j f n.
            subst (λ ks. elem j ks ≡ true) (sym left)
              (elem-remove_id j id (ids s.tabs) n
                (subst (λ x. elem x (ids s.tabs) ≡ true) (some-injective k j (sym a ∙ f)) h)))
          (k, a))
]

close_at-ids :
    (id i : ℕ) (rest : List ReferenceTab) (s : References)
    → ids (close_at id i rest s).tabs ≡ ids rest
unfolding close_reference
close_at-ids id i [] s = refl
close_at-ids id i (t ∷ ts) s = refl

-- Closing takes the tab away, and only this one.
pub ids-close_reference_tab :
    (id : ℕ) (s : References) → ids (close_reference_tab id s).tabs ≡ remove_id id (ids s.tabs)
unfolding close_reference_tab
ids-close_reference_tab id s = elim (index_of-cases id s.tabs) [
  | inl (e, m) ↦ rw (close_reference_tab, e) (sym (remove_id-none id (ids s.tabs) m))
  | inr (i, e, m) ↦
      rw (close_reference_tab, e)
        (close_at-ids id i (remove_tab id s.tabs) s ∙ ids-remove_tab id s.tabs)
]
