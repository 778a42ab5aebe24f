-- ===== src/Tabs/Opened.antt =====
-- Opening a referenced entry in frontend/src/lib/useReferenceTabs.ts.
use dbx_plugin_ldap.Base.{
  suc, ◌+◌, ◌≤◌, ◌<◌, ◌≡◌, inl, inr, refl, sym, ap, ◌∙◌, true, false, not, ◌&&◌, ◌||◌, none, some,
  List, [], ◌∷◌, ◌++◌, arith, length, length-append, All, All-imp, All-append, Str, str_eq,
  is_empty, elem, ◌==◌, Bool-cases, Option-cases,
}
use mathlib.Core.Path.{subst}
use mathlib.Core.Option.{some-injective}
use dbx_plugin_ldap.Tabs.{
  ReferenceTab, ensure_dn_attributes, Request, References, find_tab, find_dn, name_attribute,
  new_tab, count_request, show_new, open_referenced_entry,
}
use dbx_plugin_ldap.Tabs.Ids.{ids, IsAscending, IsAscending-append, ids-append, elem-append}
use dbx_plugin_ldap.Tabs.Invariant.{IsWellFormed, IsServed, IsShown, is_asked, filled_of_elem}
use dbx_plugin_ldap.Tabs.Evict.{Room, evict_pushed}
use dbx_plugin_ldap.Tabs.Pending.{
  is_asked-append, IsServed-append, find_tab_of, update_tab_last, Room-IsAscending, Room-All-ids,
  Room-All,
}
use dbx_plugin_ldap.Tabs.Kept.{update-IsWellFormed, found_there}

find_dn-All :
    (lower : Str → Str) (dn : Str) (P : ReferenceTab → Type 0) (ts : List ReferenceTab)
    (t : ReferenceTab)
    → find_dn lower dn ts ≡ some t
    → All P ts
    → P t
unfolding find_dn
find_dn-All lower dn P [] t e a = absurd (cc)
find_dn-All lower dn P (u ∷ ts) t e (p, a) = elim (Bool-cases (str_eq (lower u.dn) (lower dn))) [
  | inl m ↦ subst P (some-injective u t (ground (arith, e))) p
  | inr m ↦ find_dn-All lower dn P ts t (ground (arith, e)) a
]

pub name_attribute-id :
    (attribute : Str) (u : ReferenceTab) → (name_attribute attribute u).id ≡ u.id
name_attribute-id attribute u = ground arith

attribute_unread :
    (ps : List Request) (u : ReferenceTab) (attribute : Str)
    → is_asked ps (record u { attribute = attribute }) ≡ is_asked ps u
attribute_unread [] u attribute = refl
attribute_unread (p ∷ ps) u attribute =
    ap (λ b. (p.tab == u.id && p.seq == u.request_seq) || b) (attribute_unread ps u attribute)

name_attribute-IsServed :
    (attribute : Str) (ps : List Request) (u : ReferenceTab)
    → IsServed ps u
    → IsServed ps (name_attribute attribute u)
name_attribute-IsServed attribute ps u h = elim (Bool-cases (is_empty attribute)) [
  | inl e ↦ rw e h
  | inr e ↦ rw (e, attribute_unread ps u attribute) h
]

-- The state with a new tab behind those for which there is room.
pushed-IsWellFormed :
    (s s' : References) (kept : List ReferenceTab) (t : ReferenceTab)
    → IsWellFormed s
    → Room s.active s.tabs kept
    → t.id ≡ suc s.last_id
    → s'.tabs ≡ kept ++ t ∷ []
    → s'.last_id ≡ t.id
    → s'.active ≡ some t.id
    → s'.open_now ≡ true
    → ((u : ReferenceTab) → IsServed s.pending u → IsServed s'.pending u)
    → IsServed s'.pending t
    → IsWellFormed s'
pushed-IsWellFormed s s' kept t w r i tabs last active opened old new =
    let all_ids : ids s'.tabs ≡ ids kept ++ t.id ∷ [] = ap ids tabs ∙ ids-append kept (t ∷ []) in
    let before : All (λ k. k < t.id) (ids kept) =
      All-imp (λ k. k ≤ s.last_id) (λ k. k < t.id) (λ k m. omega arith) (ids kept)
        (Room-All-ids r (λ k. k ≤ s.last_id) w.sound.below) in
    let there : elem t.id (ids s'.tabs) ≡ true =
      ap (elem t.id) all_ids ∙ ground (arith, elem-append t.id (ids kept) (t.id ∷ [])) in
    let less = r.room in
    record {
      sound = record {
        ascending =
            subst IsAscending (sym all_ids)
              (IsAscending-append (ids kept) t.id (Room-IsAscending r w.sound.ascending) before);
        below = subst (All (λ k. k ≤ s'.last_id)) (sym all_ids) (
            All-append (λ k. k ≤ s'.last_id) (ids kept) (t.id ∷ [])
              (All-imp (λ k. k < t.id) (λ k. k ≤ s'.last_id) (λ k m. omega arith) (ids kept) before)
              (omega arith, tt));
        shown = subst (λ o. IsShown o (ids s'.tabs)) (sym active) there;
        opened = opened ∙ ap not (sym (filled_of_elem t.id (ids s'.tabs) there));
        served = subst (All (IsServed s'.pending)) (sym tabs) (
            All-append (IsServed s'.pending) kept (t ∷ [])
              (All-imp (IsServed s.pending) (IsServed s'.pending) old kept
                (Room-All r (IsServed s.pending) w.sound.served))
              (new, tt));
      };
      bounded = omega (arith, ap length tabs, length-append kept (t ∷ []));
    }

-- Opening an entry that no tab shows: the tabs that are left, and the new one behind them.
pub opened_new :
    (lower : Str → Str) (dn attribute : Str) (s : References)
    → IsWellFormed s
    → find_dn lower dn s.tabs ≡ none
    → (kept : List ReferenceTab) × Room s.active s.tabs kept
      × (open_referenced_entry lower dn attribute s ≡ record s {
        open_now = true;
        tabs = kept ++ count_request (new_tab (s.last_id + 1) dn attribute) ∷ [];
        active = some (s.last_id + 1);
        last_id = s.last_id + 1;
        dialog_token = s.dialog_token + 1;
        pending =
            s.pending ++ record { tab = s.last_id + 1; seq = 1; dn = dn; is_retry = false } ∷ [];
        effects = s.effects ++ ensure_dn_attributes ∷ [];
      })
unfolding open_referenced_entry
opened_new lower dn attribute s w e =
    let t = new_tab (s.last_id + 1) dn attribute in
    let p : References = record s { dialog_token = s.dialog_token + 1; last_id = s.last_id + 1 } in
    let (kept, r, f) =
      evict_pushed s.last_id s.tabs t p w.sound.ascending w.sound.below (omega arith) w.sound.shown
        w.bounded in
    let before : All (λ k. k < s.last_id + 1) (ids kept) =
      All-imp (λ k. k ≤ s.last_id) (λ k. k < s.last_id + 1) (λ k m. omega arith) (ids kept)
        (Room-All-ids r (λ k. k ≤ s.last_id) w.sound.below) in
    (
      kept,
      r,
      rw (open_referenced_entry, e)
          (ap (show_new (s.last_id + 1) dn) f
            ∙ ap
                (λ ts. record p {
                  open_now = true;
                  tabs = ts;
                  active = some (s.last_id + 1);
                  pending =
                      s.pending
                      ++ record { tab = s.last_id + 1; seq = 1; dn = dn; is_retry = false } ∷ [];
                  effects = s.effects ++ ensure_dn_attributes ∷ [];
                })
                (update_tab_last (s.last_id + 1) count_request kept t before refl)),
    )

pub open_referenced_entry-IsWellFormed :
    (lower : Str → Str) (dn attribute : Str) (s : References)
    → IsWellFormed s
    → IsWellFormed (open_referenced_entry lower dn attribute s)
unfolding open_referenced_entry
open_referenced_entry-IsWellFormed lower dn attribute s w =
    elim (Option-cases (find_dn lower dn s.tabs)) [
      | inl e ↦
          let (kept, r, f) = opened_new lower dn attribute s w e in
          let t = count_request (new_tab (s.last_id + 1) dn attribute) in
          let asked : List Request =
            record { tab = s.last_id + 1; seq = 1; dn = dn; is_retry = false } ∷ [] in
          pushed-IsWellFormed s (open_referenced_entry lower dn attribute s) kept t w r
            (omega arith) (ap (λ s'. s'.tabs) f) (ap (λ s'. s'.last_id) f) (ap (λ s'. s'.active) f)
            (ap (λ s'. s'.open_now) f)
            (λ u h.
              subst (λ ps. IsServed ps u) (sym (ap (λ s'. s'.pending) f))
                (IsServed-append s.pending asked u h))
            (subst (λ ps. IsServed ps t) (sym (ap (λ s'. s'.pending) f))
              (ground (arith, is_asked-append s.pending asked t)))
      | inr (t, e) ↦
          let found : find_tab t.id s.tabs ≡ some t =
            find_dn-All lower dn (λ u. u.id ≡ t.id → find_tab t.id s.tabs ≡ some u) s.tabs t e
              (find_tab_of t.id s.tabs w.sound.ascending) refl in
          rw (open_referenced_entry, e)
            (update-IsWellFormed s _ t.id (name_attribute attribute) t w found
              (name_attribute-id attribute) refl refl refl (found_there t.id s.tabs t found).0
              (λ u _ h. h) (name_attribute-IsServed attribute s.pending t))
    ]
