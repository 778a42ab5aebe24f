-- ===== src/Tabs/Kept.antt =====
-- Each operation of frontend/src/lib/useReferenceTabs.ts keeps the state well-formed.
use dbx_plugin_ldap.Base.{
  ℕ, ◌+◌, ◌≤◌, ◌≡◌, ◌≢◌, inl, inr, refl, sym, ap, ◌∙◌, true, not, some, List, [], ◌∷◌, ◌++◌, arith,
  length, All, is_empty, elem, Bool-cases, Option-cases,
}
use mathlib.Core.Path.{subst}
use mathlib.Core.Option.{some-injective}
use dbx_plugin_ldap.Tabs.{
  ReferenceTab, Request, References, find_tab, update_tab, close_reference, close_reference_tab,
  select_reference_tab, close_active_reference, restart, retry_tab, retry_reference, dispose,
}
use dbx_plugin_ldap.Tabs.Ids.{ids, remove_id, IsAscending, ids-update_tab, find_tab-cases}
use dbx_plugin_ldap.Tabs.Invariant.{
  IsWellFormed, IsServed, IsShown, length-ids, filled_of_elem, close_reference-IsSound,
  close_reference_tab-IsSound, ids-close_reference_tab,
}
use dbx_plugin_ldap.Tabs.Pending.{is_asked-append, IsServed-append, update_found}

length-remove_id_le : (id : ℕ) (ks : List ℕ) → length (remove_id id ks) ≤ length ks
length-remove_id_le id [] = omega arith
length-remove_id_le id (k ∷ ks) = ground (arith, length-remove_id_le id ks)

pub close_reference-IsWellFormed : (s : References) → IsWellFormed (close_reference s)
unfolding close_reference
close_reference-IsWellFormed s = record { sound = close_reference-IsSound s; bounded = omega arith }

pub close_reference_tab-IsWellFormed :
    (id : ℕ) (s : References) → IsWellFormed s → IsWellFormed (close_reference_tab id s)
close_reference_tab-IsWellFormed id s w = record {
  sound = close_reference_tab-IsSound id s w.sound;
  bounded =
      let w_bounded = w.bounded in
      omega (
        arith,
        length-ids s.tabs,
        length-ids (close_reference_tab id s).tabs,
        ap length (ids-close_reference_tab id s),
        length-remove_id_le id (ids s.tabs),
      );
}

-- The state after writing through the tab that `find` gives and showing some tab.
pub update-IsWellFormed :
    (s s' : References) (id : ℕ) (f : ReferenceTab → ReferenceTab) (t : ReferenceTab)
    → IsWellFormed s
    → find_tab id s.tabs ≡ some t
    → ((u : ReferenceTab) → (f u).id ≡ u.id)
    → s'.tabs ≡ update_tab id f s.tabs
    → s'.last_id ≡ s.last_id
    → s'.open_now ≡ true
    → IsShown s'.active (ids s.tabs)
    → ((u : ReferenceTab) → u.id ≢ id → IsServed s.pending u → IsServed s'.pending u)
    → (IsServed s.pending t → IsServed s'.pending (f t))
    → IsWellFormed s'
update-IsWellFormed s s' id f t w e keep tabs last opened shown others found =
    let same : ids s'.tabs ≡ ids s.tabs = ap ids tabs ∙ ids-update_tab id f s.tabs keep in
    let there : elem id (ids s.tabs) ≡ true = elim (find_tab-cases id s.tabs) [
      | inl (n, _) ↦ absurd (cc)
      | inr (_, _, m, _) ↦ m
    ] in
    let served : All (IsServed s'.pending) (update_tab id f s.tabs) =
      update_found (IsServed s.pending) (IsServed s'.pending) id f s.tabs t e w.sound.ascending
        others found w.sound.served in
    record {
      sound = record {
        ascending = subst IsAscending (sym same) w.sound.ascending;
        below =
            subst (λ n. All (λ k. k ≤ n) (ids s'.tabs)) (sym last)
              (subst (All (λ k. k ≤ s.last_id)) (sym same) w.sound.below);
        shown = subst (IsShown s'.active) (sym same) shown;
        opened =
            opened
            ∙ ap not (sym (filled_of_elem id (ids s.tabs) there))
            ∙ ap (λ ks. not (is_empty ks)) (sym same);
        served = subst (All (IsServed s'.pending)) (sym tabs) served;
      };
      bounded =
          let w_bounded = w.bounded in
          omega (arith, length-ids s.tabs, length-ids s'.tabs, ap length same);
    }

pub found_there :
    (id : ℕ) (ts : List ReferenceTab) (t : ReferenceTab)
    → find_tab id ts ≡ some t
    → (elem id (ids ts) ≡ true) × (t.id ≡ id)
found_there id ts t e = elim (find_tab-cases id ts) [
  | inl (n, _) ↦ absurd (cc)
  | inr (u, f, m, i) ↦ (m, subst (λ v. v.id ≡ id) (some-injective u t (sym f ∙ e)) i)
]

pub select_reference_tab-IsWellFormed :
    (id : ℕ) (s : References) → IsWellFormed s → IsWellFormed (select_reference_tab id s)
unfolding select_reference_tab
select_reference_tab-IsWellFormed id s w = elim (find_tab-cases id s.tabs) [
  | inl (e, _) ↦ rw (select_reference_tab, e) w
  | inr (t, e, m, _) ↦
      rw (select_reference_tab, e)
        (record {
          sound = record {
            ascending = w.sound.ascending;
            below = w.sound.below;
            shown = m;
            opened = w.sound.opened;
            served = w.sound.served;
          };
          bounded = w.bounded;
        })
]

pub close_active_reference-IsWellFormed :
    (s : References) → IsWellFormed s → IsWellFormed (close_active_reference s)
unfolding close_active_reference
close_active_reference-IsWellFormed s w = elim (Option-cases s.active) [
  | inl e ↦ rw (close_active_reference, e) (close_reference-IsWellFormed s)
  | inr (id, e) ↦ rw (close_active_reference, e) (close_reference_tab-IsWellFormed id s w)
]

pub dispose-IsWellFormed : (s : References) → IsWellFormed (dispose s)
unfolding dispose
dispose-IsWellFormed s = close_reference-IsWellFormed s

retry_tab-IsWellFormed :
    (id : ℕ) (t : ReferenceTab) (s : References)
    → IsWellFormed s
    → s.active ≡ some id
    → find_tab id s.tabs ≡ some t
    → IsWellFormed (retry_tab t s)
unfolding restart
retry_tab-IsWellFormed id t s w a e =
    let (m, i) = found_there id s.tabs t e in
    let again : find_tab t.id s.tabs ≡ some t = subst (λ k. find_tab k s.tabs ≡ some t) (sym i) e in
    elim (Bool-cases (is_empty t.dn)) [
      | inl n ↦ rw (retry_tab, n) w
      | inr n ↦
          let r : Request = record {
            tab = t.id;
            seq = t.request_seq + 1;
            dn = t.dn;
            is_retry = true;
          } in
          rw (retry_tab, n)
            (update-IsWellFormed s
              (record s { tabs = update_tab t.id restart s.tabs; pending = s.pending ++ r ∷ [] })
              t.id restart t w again (λ u. refl) refl refl
              (w.sound.opened ∙ ap not (filled_of_elem id (ids s.tabs) m)) w.sound.shown
              (λ u _ h. IsServed-append s.pending (r ∷ []) u h)
              (λ _. ground (arith, is_asked-append s.pending (r ∷ []) (restart t))))
    ]

pub retry_reference-IsWellFormed :
    (s : References) → IsWellFormed s → IsWellFormed (retry_reference s)
unfolding retry_reference
retry_reference-IsWellFormed s w = elim (Option-cases s.active) [
  | inl a ↦ rw (retry_reference, a) w
  | inr (id, a) ↦ elim (Option-cases (find_tab id s.tabs)) [
    | inl e ↦ rw (retry_reference, a, e) w
    | inr (t, e) ↦ rw (retry_reference, a, e) (retry_tab-IsWellFormed id t s w a e)
  ]
]
