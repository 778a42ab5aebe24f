-- ===== src/Tabs/Evict.antt =====
-- Eviction in frontend/src/lib/useReferenceTabs.ts, after a tab was added behind the others.
use dbx_plugin_ldap.Base.{
  ℕ, zero, suc, ◌≤◌, ◌<◌, ◌≡◌, ◌⊎◌, inl, inr, refl, ap, ◌∙◌, true, false, Option, some, List, [],
  ◌∷◌, ◌++◌, arith, length, length-append, All, All-imp, All-append, elem, ltb, ◌==◌, Bool-cases,
}
use dbx_plugin_ldap.Tabs.{
  ReferenceTab, References, remove_tab, is_active, close_at, close_reference_tab, first_inactive,
  evict_rounds, evict_overflow_reference_tabs, reference_tab_limit,
}
use dbx_plugin_ldap.Tabs.Ids.{
  ids, IsAscending, IsAscending-append, ids-append, ids-remove_tab, length-remove_id, elem-append,
  index_of-cases, first_other, first_inactive-ids, first_other_lem,
}
use dbx_plugin_ldap.Tabs.Invariant.{IsShown, length-ids, active_some}

pub evict_rounds_within :
    (n : ℕ) (s : References) → length s.tabs ≤ reference_tab_limit → evict_rounds n s ≡ s
unfolding evict_rounds
evict_rounds_within zero s h = refl
evict_rounds_within (suc n) s h =
    let no_more : ltb reference_tab_limit (length s.tabs) ≡ false = ground arith in rw no_more refl

pub evict_rounds_once :
    (n id : ℕ) (s : References)
    → reference_tab_limit < length s.tabs
    → first_inactive s.active s.tabs ≡ some id
    → length (close_reference_tab id s).tabs ≤ reference_tab_limit
    → evict_rounds (suc n) s ≡ close_reference_tab id s
unfolding evict_rounds
evict_rounds_once n id s h e l =
    let more : ltb reference_tab_limit (length s.tabs) ≡ true = ground arith in
    rw (more, e) (evict_rounds_within n (close_reference_tab id s) l)

pub remove_tab-append :
    (id : ℕ) (ts us : List ReferenceTab)
    → elem id (ids ts) ≡ true
    → remove_tab id (ts ++ us) ≡ remove_tab id ts ++ us
unfolding remove_tab
remove_tab-append id [] us h = absurd (cc)
remove_tab-append id (t ∷ ts) us h = elim (Bool-cases (t.id == id)) [
  | inl e ↦ rw e refl
  | inr e ↦ rw e (ap (λ r. t ∷ r) (remove_tab-append id ts us (ground arith)))
]

close_at_other :
    (id i : ℕ) (rest : List ReferenceTab) (t : ReferenceTab) (s : References)
    → is_active id s.active ≡ false
    → close_at id i (rest ++ t ∷ []) s ≡ record s { tabs = rest ++ t ∷ [] }
close_at_other id i [] t s h = rw h refl
close_at_other id i (u ∷ rest) t s h = rw h refl

-- Closing a tab that is not active, and not the last, changes nothing else.
close_other :
    (id : ℕ) (ts : List ReferenceTab) (t : ReferenceTab) (p : References)
    → elem id (ids ts) ≡ true
    → is_active id p.active ≡ false
    → close_reference_tab id (record p { tabs = ts ++ t ∷ [] })
      ≡ record p { tabs = remove_tab id ts ++ t ∷ [] }
unfolding close_reference_tab
close_other id ts t p m h = elim (index_of-cases id (ts ++ t ∷ [])) [
  | inl (_, e) ↦ absurd (grind (arith, ids-append ts (t ∷ []), elem-append id (ids ts) (t.id ∷ [])))
  | inr (i, e, _) ↦
      rw (close_reference_tab, e)
        (rw (remove_tab-append id ts (t ∷ []) m)
          (close_at_other id i (remove_tab id ts) t (record p { tabs = ts ++ t ∷ [] }) h))
]

length-remove_tab :
    (id : ℕ) (ts : List ReferenceTab)
    → elem id (ids ts) ≡ true
    → suc (length (remove_tab id ts)) ≡ length ts
length-remove_tab id ts m = omega (
  arith,
  length-ids ts,
  length-ids (remove_tab id ts),
  ap length (ids-remove_tab id ts),
  length-remove_id id (ids ts) m,
)

-- What is left of the tabs before a new one: all, or all but one that is not active.
pub record Room (active : Option ℕ) (ts kept : List ReferenceTab) : Type 0 where
  pub room : length kept < reference_tab_limit
  pub same :
      (kept ≡ ts)
      ⊎ ((id : ℕ) × (kept ≡ remove_tab id ts)
          × (is_active id active ≡ false)
          × (elem id (ids ts) ≡ true))

evict_found :
    (id : ℕ) (ts : List ReferenceTab) (t : ReferenceTab) (p : References)
    → elem id (ids ts) ≡ true
    → is_active id p.active ≡ false
    → length ts ≡ reference_tab_limit
    → first_inactive p.active (ts ++ t ∷ []) ≡ some id
    → (kept : List ReferenceTab) × Room p.active ts kept
      × (evict_overflow_reference_tabs (record p { tabs = ts ++ t ∷ [] })
          ≡ record p { tabs = kept ++ t ∷ [] })
unfolding evict_overflow_reference_tabs
evict_found id ts t p inside quiet l f =
    let long : length (ts ++ t ∷ []) ≡ suc (length ts) = omega (arith, length-append ts (t ∷ [])) in
    let closed = close_other id ts t p inside quiet in
    let shorter = length-remove_tab id ts inside in
    (
      remove_tab id ts,
      record { room = omega arith; same = inr (id, refl, quiet, inside) },
      ap (λ n. evict_rounds n (record p { tabs = ts ++ t ∷ [] })) long
          ∙ evict_rounds_once (length ts) id (record p { tabs = ts ++ t ∷ [] }) (omega arith) f
              (rw closed (omega (arith, length-append (remove_tab id ts) (t ∷ []))))
          ∙ closed,
    )

evict_one :
    (n : ℕ) (ts : List ReferenceTab) (t : ReferenceTab) (p : References) (a : ℕ)
    → IsAscending (ids ts)
    → All (λ k. k ≤ n) (ids ts)
    → t.id ≡ suc n
    → p.active ≡ some a
    → length ts ≡ reference_tab_limit
    → (kept : List ReferenceTab) × Room p.active ts kept
      × (evict_overflow_reference_tabs (record p { tabs = ts ++ t ∷ [] })
          ≡ record p { tabs = kept ++ t ∷ [] })
evict_one n ts t p a s b e h l =
    let all_ids : ids (ts ++ t ∷ []) ≡ ids ts ++ t.id ∷ [] = ids-append ts (t ∷ []) in
    let before : All (λ k. k < t.id) (ids ts) =
      All-imp (λ k. k ≤ n) (λ k. k < t.id) (λ k m. omega arith) (ids ts) b in
    let below : All (λ k. k ≤ t.id) (ids ts ++ t.id ∷ []) =
      All-append (λ k. k ≤ t.id) (ids ts) (t.id ∷ [])
        (All-imp (λ k. k < t.id) (λ k. k ≤ t.id) (λ k m. omega arith) (ids ts) before)
        (omega arith, tt) in
    let (id, f, m, other, small) =
      first_other_lem a t.id (ids ts ++ t.id ∷ []) (IsAscending-append (ids ts) t.id s before) below
        (omega (arith, length-append (ids ts) (t.id ∷ []), length-ids ts)) in
    let inside : elem id (ids ts) ≡ true = ground (arith, elem-append id (ids ts) (t.id ∷ [])) in
    evict_found id ts t p inside (ap (is_active id) h ∙ ground arith) l (
      first_inactive-ids p.active (ts ++ t ∷ [])
      ∙ ap (first_other p.active) all_ids
      ∙ ap (λ o. first_other o (ids ts ++ t.id ∷ [])) h
      ∙ f)

pub evict_pushed :
    (n : ℕ) (ts : List ReferenceTab) (t : ReferenceTab) (p : References)
    → IsAscending (ids ts)
    → All (λ k. k ≤ n) (ids ts)
    → t.id ≡ suc n
    → IsShown p.active (ids ts)
    → length ts ≤ reference_tab_limit
    → (kept : List ReferenceTab) × Room p.active ts kept
      × (evict_overflow_reference_tabs (record p { tabs = ts ++ t ∷ [] })
          ≡ record p { tabs = kept ++ t ∷ [] })
unfolding evict_overflow_reference_tabs
evict_pushed n [] t p s b e h l =
    ([], record { room = omega arith; same = inl refl }, evict_rounds_within 1 _ (omega arith))
evict_pushed n (u ∷ ts) t p s b e h l =
    elim (Bool-cases (ltb (length (u ∷ ts)) reference_tab_limit)) [
      | inl m ↦ (
        u ∷ ts,
        record { room = ground arith; same = inl refl },
        evict_rounds_within (length ((u ∷ ts) ++ t ∷ [])) (record p { tabs = (u ∷ ts) ++ t ∷ [] })
            (ground (arith, length-append ts (t ∷ []))),
      )
      | inr m ↦
          let (a, f, _) = active_some p.active u.id (ids (u ∷ ts)) h (ground arith) in
          evict_one n (u ∷ ts) t p a s b e f (ground arith)
    ]
