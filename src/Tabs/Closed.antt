-- ===== src/Tabs/Closed.antt =====
-- What frontend/src/lib/useReferenceTabs.ts promises of a tab that was closed, retried or is shown.
use dbx_plugin_ldap.Base.{
  ℕ, ◌+◌, ◌≤◌, ◌≡◌, inl, inr, refl, sym, ap, ◌∙◌, true, false, ◌||◌, Option, some, List, [], ◌∷◌,
  arith, Str, is_empty, elem, Option-cases,
}
use mathlib.Core.Path.{subst}
use dbx_plugin_ldap.Tabs.{
  is_active, ReferenceTab, Request, References, Response, find_tab, update_tab, close_reference_tab,
  select_reference_tab, close_active_reference, restart, retry_tab, retry_reference, dispose,
  find_dn, name_attribute, new_tab, count_request, open_referenced_entry, is_current, deliver,
}
use dbx_plugin_ldap.Tabs.Ids.{
  ids, All-elem, ids-append, ids-update_tab, elem-append, elem-remove_id, find_tab-cases,
  ids-remove_tab,
}
use dbx_plugin_ldap.Tabs.Invariant.{IsWellFormed, ids-close_reference_tab, IsShown}
use dbx_plugin_ldap.Tabs.Evict.{Room}
use dbx_plugin_ldap.Tabs.Pending.{find_tab-update_tab}
use dbx_plugin_ldap.Tabs.Kept.{found_there, close_reference_tab-IsWellFormed}
use dbx_plugin_ldap.Tabs.Opened.{opened_new, name_attribute-id}
use dbx_plugin_ldap.Tabs.Steps.{
  Step, opening, closing, selecting, closing_active, retrying, disposing, answering, Run, done,
  next, Step-IsWellFormed,
}
use dbx_plugin_ldap.Tabs.Gone.{
  IsGone, remove_id-gone, last-close_reference_tab, close_reference_tab-IsGone,
  open_referenced_entry-IsGone, close_reference-IsGone, retry_reference-IsGone, deliver_stale,
  answer-IsGone,
}

module _ (lower friendly : Str → Str) where
  Step-IsGone :
      (id : ℕ) {s t : References}
      → Step lower friendly s t
      → IsWellFormed s
      → IsGone id s
      → IsGone id t
  unfolding select_reference_tab close_active_reference dispose
  Step-IsGone id {s} (opening dn attribute) w g =
      open_referenced_entry-IsGone lower dn attribute id s w g
  Step-IsGone id {s} (closing j) w g = close_reference_tab-IsGone id j s g
  Step-IsGone id {s} (selecting j) w g = elim (Option-cases (find_tab j s.tabs)) [
    | inl e ↦ rw (select_reference_tab, e) g
    | inr (t, e) ↦ rw (select_reference_tab, e) (record { used = g.used; absent = g.absent })
  ]
  Step-IsGone id {s} closing_active w g = elim (Option-cases s.active) [
    | inl e ↦ rw (close_active_reference, e) (close_reference-IsGone id s g)
    | inr (j, e) ↦ rw (close_active_reference, e) (close_reference_tab-IsGone id j s g)
  ]
  Step-IsGone id {s} retrying w g = retry_reference-IsGone id s g
  Step-IsGone id {s} disposing w g = close_reference-IsGone id s g
  Step-IsGone id {s} (answering before r after response p) w g =
      answer-IsGone friendly before r after response id s g

  Run-IsGone :
      (id : ℕ) {s t : References}
      → Run lower friendly s t
      → IsWellFormed s
      → IsGone id s
      → IsGone id t
  Run-IsGone id done w g = g
  Run-IsGone id (next x run) w g =
      Run-IsGone id run (Step-IsWellFormed lower friendly x w) (Step-IsGone id x w g)

  -- A tab that is closed in a well-formed state stays closed in every run that follows, and no
  -- outcome of a request for it changes anything then.
  pub closed-stays :
      (id : ℕ) (s t : References)
      → IsWellFormed s
      → elem id (ids s.tabs) ≡ true
      → Run lower friendly (close_reference_tab id s) t
      → (elem id (ids t.tabs) ≡ false)
        × ((r : Request) (response : Response) → r.tab ≡ id → deliver friendly r response t ≡ t)
  closed-stays id s t w m run =
      let gone : IsGone id (close_reference_tab id s) = record {
        used =
            rw (last-close_reference_tab id s)
              (All-elem (λ k. k ≤ s.last_id) id (ids s.tabs) w.sound.below m);
        absent =
            ap (elem id) (ids-close_reference_tab id s)
            ∙ remove_id-gone id (ids s.tabs) w.sound.ascending;
      } in
      let after = Run-IsGone id run (close_reference_tab-IsWellFormed id s w) gone in
      (
        after.absent,
        λ r response e. elim (find_tab-cases id t.tabs) [
          | inl (n, _) ↦
              let stale : is_current r (find_tab r.tab t.tabs) ≡ false =
                ap (λ k. is_current r (find_tab k t.tabs)) e ∙ ap (is_current r) n in
              deliver_stale friendly r response t stale
          | inr (_, _, k, _) ↦ absurd (cc (k, after.absent))
        ],
      )

Room-active :
    (id : ℕ) (active : Option ℕ) (ts kept : List ReferenceTab)
    → Room active ts kept
    → active ≡ some id
    → elem id (ids ts) ≡ true
    → elem id (ids kept) ≡ true
Room-active id active ts kept r a h = elim r.same [
  | inl e ↦ subst (λ us. elem id (ids us) ≡ true) (sym e) h
  | inr (j, e, n, _) ↦
      let quiet : is_active j (some id) ≡ false = sym (ap (is_active j) a) ∙ n in
      subst (λ us. elem id (ids us) ≡ true) (sym e)
        (ap (elem id) (ids-remove_tab j ts) ∙ elem-remove_id id j (ids ts) (ground arith) h)
]

-- Opening an entry, in a well-formed state, does not close the tab that was active before.
pub opening-keeps_active :
    (lower : Str → Str) (dn attribute : Str) (id : ℕ) (s : References)
    → IsWellFormed s
    → s.active ≡ some id
    → elem id (ids (open_referenced_entry lower dn attribute s).tabs) ≡ true
unfolding open_referenced_entry
opening-keeps_active lower dn attribute id s w a =
    let there : elem id (ids s.tabs) ≡ true = subst (λ o. IsShown o (ids s.tabs)) a w.sound.shown in
    elim (Option-cases (find_dn lower dn s.tabs)) [
      | inl e ↦
          let (kept, r, f) = opened_new lower dn attribute s w e in
          ap (λ s'. elem id (ids s'.tabs)) f
          ∙ ap (elem id)
              (ids-append kept (count_request (new_tab (s.last_id + 1) dn attribute) ∷ []))
          ∙ elem-append id (ids kept) ((s.last_id + 1) ∷ [])
          ∙ ap (λ b. b || elem id ((s.last_id + 1) ∷ []))
              (Room-active id s.active s.tabs kept r a there)
      | inr (t, e) ↦
          rw (open_referenced_entry, e)
            (ap (elem id) (
                ids-update_tab t.id (name_attribute attribute) s.tabs (name_attribute-id attribute))
              ∙ there)
    ]

-- Retrying a tab that is shown, with a name, leaves it loading, and the outcome of any request sent
-- for it before changes nothing then.
pub retry-supersedes :
    (friendly : Str → Str) (id : ℕ) (t : ReferenceTab) (s : References) (r : Request)
    (response : Response)
    → s.active ≡ some id
    → find_tab id s.tabs ≡ some t
    → is_empty t.dn ≡ false
    → r.tab ≡ id
    → r.seq ≤ t.request_seq
    → (find_tab id (retry_reference s).tabs ≡ some (restart t))
      × (deliver friendly r response (retry_reference s) ≡ retry_reference s)
unfolding retry_reference restart
retry-supersedes friendly id t s r response a e n b old =
    let here : t.id ≡ id = (found_there id s.tabs t e).1 in
    let found : find_tab id (retry_reference s).tabs ≡ some (restart t) =
      rw (retry_reference, a, e, retry_tab, n)
        (ap (λ k. find_tab id (update_tab k restart s.tabs)) here
          ∙ find_tab-update_tab id restart s.tabs t (λ u. refl) e) in
    let stale : is_current r (find_tab r.tab (retry_reference s).tabs) ≡ false =
      ap (λ k. is_current r (find_tab k (retry_reference s).tabs)) b
      ∙ ap (is_current r) found
      ∙ ground arith in
    (found, deliver_stale friendly r response (retry_reference s) stale)
