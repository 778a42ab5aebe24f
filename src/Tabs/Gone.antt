-- ===== src/Tabs/Gone.antt =====
-- The tabs of frontend/src/lib/useReferenceTabs.ts that were closed.
use dbx_plugin_ldap.Base.{
  ℕ, ◌+◌, ◌≤◌, ◌<◌, ◌≡◌, inl, inr, refl, sym, ap, ◌∙◌, false, Option, List, [], ◌∷◌, arith, All,
  Str, is_empty, elem, ◌==◌, Bool-cases, Option-cases, ==→eq,
}
use mathlib.Core.Path.{subst}
use dbx_plugin_ldap.Tabs.{
  close_at, index_of, ReferenceTab, Request, References, Response, find_tab, remove_tab, update_tab,
  close_reference, close_reference_tab, restart, retry_tab, retry_reference, find_dn,
  name_attribute, new_tab, count_request, open_referenced_entry, settle, is_current, deliver,
}
use dbx_plugin_ldap.Tabs.Ids.{
  ids, remove_id, IsAscending, ids-append, ids-update_tab, elem-append, ids-remove_tab,
}
use dbx_plugin_ldap.Tabs.Invariant.{IsWellFormed, ids-close_reference_tab}
use dbx_plugin_ldap.Tabs.Evict.{Room}
use dbx_plugin_ldap.Tabs.Answers.{settle-id, answer}
use dbx_plugin_ldap.Tabs.Opened.{opened_new, name_attribute-id}

-- The identifier was given out, and no tab has it.
pub record IsGone (id : ℕ) (s : References) : Type 0 where
  pub used : id ≤ s.last_id
  pub absent : elem id (ids s.tabs) ≡ false

pub remove_id-absent :
    (k id : ℕ) (ks : List ℕ) → elem k ks ≡ false → elem k (remove_id id ks) ≡ false
remove_id-absent k id [] h = h
remove_id-absent k id (j ∷ ks) h = ground (arith, remove_id-absent k id ks)

above-absent : (n id : ℕ) (ks : List ℕ) → id ≤ n → All (λ j. n < j) ks → elem id ks ≡ false
above-absent n id [] h a = refl
above-absent n id (k ∷ ks) h (l, a) = ground (arith, above-absent n id ks h a)

pub remove_id-gone : (id : ℕ) (ks : List ℕ) → IsAscending ks → elem id (remove_id id ks) ≡ false
remove_id-gone id [] a = refl
remove_id-gone id (k ∷ ks) (b, a) = elim (Bool-cases (k == id)) [
  | inl e ↦ rw e (above-absent k id ks (omega (arith, ==→eq k id e)) b)
  | inr e ↦ rw e (ground (arith, remove_id-gone id ks a))
]

Room-absent :
    (id : ℕ) (active : Option ℕ) (ts kept : List ReferenceTab)
    → Room active ts kept
    → elem id (ids ts) ≡ false
    → elem id (ids kept) ≡ false
Room-absent id active ts kept r h = elim r.same [
  | inl e ↦ subst (λ us. elem id (ids us) ≡ false) (sym e) h
  | inr (j, e, _, _) ↦
      subst (λ us. elem id (ids us) ≡ false) (sym e)
        (ap (elem id) (ids-remove_tab j ts) ∙ remove_id-absent id j (ids ts) h)
]

last-close_at :
    (id i : ℕ) (rest : List ReferenceTab) (s : References)
    → (close_at id i rest s).last_id ≡ s.last_id
unfolding close_reference
last-close_at id i [] s = refl
last-close_at id i (t ∷ ts) s = refl

pub last-close_reference_tab :
    (id : ℕ) (s : References) → (close_reference_tab id s).last_id ≡ s.last_id
unfolding close_reference_tab
last-close_reference_tab id s = elim (Option-cases (index_of id s.tabs)) [
  | inl e ↦ rw (close_reference_tab, e) refl
  | inr (i, e) ↦ rw (close_reference_tab, e) (last-close_at id i (remove_tab id s.tabs) s)
]

pub close_reference_tab-IsGone :
    (id j : ℕ) (s : References) → IsGone id s → IsGone id (close_reference_tab j s)
close_reference_tab-IsGone id j s g = record {
  used = rw (last-close_reference_tab j s) g.used;
  absent = ap (elem id) (ids-close_reference_tab j s) ∙ remove_id-absent id j (ids s.tabs) g.absent;
}

updated-IsGone :
    (id j : ℕ) (f : ReferenceTab → ReferenceTab) (s s' : References)
    → ((u : ReferenceTab) → (f u).id ≡ u.id)
    → s'.tabs ≡ update_tab j f s.tabs
    → s'.last_id ≡ s.last_id
    → IsGone id s
    → IsGone id s'
updated-IsGone id j f s s' keep e last g = record {
  used = rw last g.used;
  absent = ap (λ ts. elem id (ids ts)) e ∙ ap (elem id) (ids-update_tab j f s.tabs keep) ∙ g.absent;
}

pub open_referenced_entry-IsGone :
    (lower : Str → Str) (dn attribute : Str) (id : ℕ) (s : References)
    → IsWellFormed s
    → IsGone id s
    → IsGone id (open_referenced_entry lower dn attribute s)
unfolding open_referenced_entry
open_referenced_entry-IsGone lower dn attribute id s w g =
    elim (Option-cases (find_dn lower dn s.tabs)) [
      | inl e ↦
          let (kept, r, f) = opened_new lower dn attribute s w e in
          let used = g.used in
          let gone = Room-absent id s.active s.tabs kept r g.absent in
          subst (IsGone id) (sym f) (record {
            used = omega arith;
            absent =
                ap (elem id)
                  (ids-append kept (count_request (new_tab (s.last_id + 1) dn attribute) ∷ []))
                ∙ ground (arith, elem-append id (ids kept) ((s.last_id + 1) ∷ []));
          })
      | inr (t, e) ↦
          rw (open_referenced_entry, e)
            (updated-IsGone id t.id (name_attribute attribute) s _ (name_attribute-id attribute)
              refl refl g)
    ]

pub retry_reference-IsGone : (id : ℕ) (s : References) → IsGone id s → IsGone id (retry_reference s)
unfolding retry_reference restart
retry_reference-IsGone id s g = elim (Option-cases s.active) [
  | inl a ↦ rw (retry_reference, a) g
  | inr (k, a) ↦ elim (Option-cases (find_tab k s.tabs)) [
    | inl e ↦ rw (retry_reference, a, e) g
    | inr (t, e) ↦ elim (Bool-cases (is_empty t.dn)) [
      | inl n ↦ rw (retry_reference, a, e, retry_tab, n) g
      | inr n ↦
          rw (retry_reference, a, e, retry_tab, n)
            (updated-IsGone id t.id restart s _ (λ u. refl) refl refl g)
    ]
  ]
]

pub deliver_stale :
    (friendly : Str → Str) (r : Request) (response : Response) (s : References)
    → is_current r (find_tab r.tab s.tabs) ≡ false
    → deliver friendly r response s ≡ s
unfolding deliver
deliver_stale friendly r response s c = rw (deliver, c) refl

pub answer-IsGone :
    (friendly : Str → Str) (before : List Request) (r : Request) (after : List Request)
    (response : Response) (id : ℕ) (s : References)
    → IsGone id s
    → IsGone id (answer friendly before r after response s)
unfolding deliver
answer-IsGone friendly before r after response id s g =
    elim (Bool-cases (is_current r (find_tab r.tab s.tabs))) [
      | inl c ↦
          rw (answer, deliver, c)
            (updated-IsGone id r.tab (settle friendly response) s _ (settle-id friendly response)
              refl refl g)
      | inr c ↦ rw (answer, deliver, c) (record { used = g.used; absent = g.absent })
    ]

pub close_reference-IsGone : (id : ℕ) (s : References) → IsGone id s → IsGone id (close_reference s)
unfolding close_reference
close_reference-IsGone id s g = record { used = g.used; absent = refl }
