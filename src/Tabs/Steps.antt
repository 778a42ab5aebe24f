-- ===== src/Tabs/Steps.antt =====
-- The runs of frontend/src/lib/useReferenceTabs.ts: the user's operations, and the outcomes of the
-- requests in any order.
use dbx_plugin_ldap.Base.{
  ℕ, ◌≡◌, inl, inr, refl, sym, ap, ◌∙◌, true, false, none, some, List, [], ◌∷◌, ◌++◌, arith, All,
  Str, ◌==◌, Bool-cases,
}
use mathlib.Core.Path.{subst}
use mathlib.Core.Option.{some-injective}
use dbx_plugin_ldap.Tabs.{
  ReferenceTab, Request, References, Response, find_tab, close_reference_tab, select_reference_tab,
  close_active_reference, retry_reference, dispose, open_referenced_entry, settle, is_current,
  deliver,
}
use dbx_plugin_ldap.Tabs.Invariant.{IsWellFormed, IsServed}
use dbx_plugin_ldap.Tabs.Pending.{is_asked-split, find_tab-update_tab}
use dbx_plugin_ldap.Tabs.Kept.{
  found_there, close_reference_tab-IsWellFormed, select_reference_tab-IsWellFormed,
  close_active_reference-IsWellFormed, retry_reference-IsWellFormed, dispose-IsWellFormed,
}
use dbx_plugin_ldap.Tabs.Answers.{
  settle-id, settle-loading, answer, is_current-eq, answer-IsWellFormed,
}
use dbx_plugin_ldap.Tabs.Opened.{open_referenced_entry-IsWellFormed}

abbrev pub initial : ℕ → References
initial token = record {
  open_now = false;
  tabs = [];
  active = none;
  last_id = 0;
  dialog_token = token;
  pending = [];
  effects = [];
}

pub initial-IsWellFormed : (token : ℕ) → IsWellFormed (initial token)
initial-IsWellFormed token = record {
  sound = record { ascending = tt; below = tt; shown = refl; opened = refl; served = tt };
  bounded = omega arith;
}

module _ (lower friendly : Str → Str) where
  pub data Step : References → References → Type 0 where
    opening :
        {s : References} (dn attribute : Str) → Step s (open_referenced_entry lower dn attribute s)
    closing : {s : References} (id : ℕ) → Step s (close_reference_tab id s)
    selecting : {s : References} (id : ℕ) → Step s (select_reference_tab id s)
    closing_active : {s : References} → Step s (close_active_reference s)
    retrying : {s : References} → Step s (retry_reference s)
    disposing : {s : References} → Step s (dispose s)
    answering :
        {s : References} (before : List Request) (r : Request) (after : List Request)
        (response : Response)
        → s.pending ≡ before ++ r ∷ after
        → Step s (answer friendly before r after response s)

  pub data Run : References → References → Type 0 where
    done : {s : References} → Run s s
    next : {s t u : References} → Step s t → Run t u → Run s u

  pub Step-IsWellFormed : {s t : References} → Step s t → IsWellFormed s → IsWellFormed t
  Step-IsWellFormed {s} (opening dn attribute) w =
      open_referenced_entry-IsWellFormed lower dn attribute s w
  Step-IsWellFormed {s} (closing id) w = close_reference_tab-IsWellFormed id s w
  Step-IsWellFormed {s} (selecting id) w = select_reference_tab-IsWellFormed id s w
  Step-IsWellFormed {s} closing_active w = close_active_reference-IsWellFormed s w
  Step-IsWellFormed {s} retrying w = retry_reference-IsWellFormed s w
  Step-IsWellFormed {s} disposing w = dispose-IsWellFormed s
  Step-IsWellFormed {s} (answering before r after response p) w =
      answer-IsWellFormed friendly before r after response s p w

  pub Run-IsWellFormed : {s t : References} → Run s t → IsWellFormed s → IsWellFormed t
  Run-IsWellFormed done w = w
  Run-IsWellFormed (next x run) w = Run-IsWellFormed run (Step-IsWellFormed x w)

  -- After any run from the start, the tabs have ascending identifiers and are at most ten, one of
  -- them is active unless there are none, the panel is open if and only if there are some, and each
  -- tab that loads has a request of its own, with its current number, in flight.
  pub reachable-IsWellFormed : (token : ℕ) (s : References) → Run (initial token) s → IsWellFormed s
  reachable-IsWellFormed token s run = Run-IsWellFormed run (initial-IsWellFormed token)

found-IsServed :
    (id : ℕ) (ts : List ReferenceTab) (t : ReferenceTab) (ps : List Request)
    → find_tab id ts ≡ some t
    → All (IsServed ps) ts
    → IsServed ps t
unfolding find_tab
found-IsServed id [] t ps e a = absurd (cc)
found-IsServed id (u ∷ ts) t ps e (p, a) = elim (Bool-cases (u.id == id)) [
  | inl m ↦ subst (IsServed ps) (some-injective u t (ground (arith, e))) p
  | inr m ↦ found-IsServed id ts t ps (ground (arith, e)) a
]

-- A tab that loads, in a well-formed state, has a request in flight such that whatever the
-- outcome, delivering it leaves the tab with this outcome and no longer loading.
pub loading-ends :
    (friendly : Str → Str) (s : References) (id : ℕ) (t : ReferenceTab)
    → IsWellFormed s
    → find_tab id s.tabs ≡ some t
    → t.loading ≡ true
    → (before : List Request) × (r : Request) × (after : List Request) × (s.pending
        ≡ before ++ r ∷ after)
      × ((response : Response)
          → (find_tab id (answer friendly before r after response s).tabs
              ≡ some (settle friendly response t))
            × ((settle friendly response t).loading ≡ false))
unfolding deliver
loading-ends friendly s id t w e l =
    let (_, here) = found_there id s.tabs t e in
    let served : IsServed s.pending t = found-IsServed id s.tabs t s.pending e w.sound.served in
    let (r, before, after, p, a, b) = is_asked-split s.pending t (ground arith) in
    let asked : r.tab ≡ id = a ∙ here in
    let again : find_tab r.tab s.tabs ≡ some t =
      subst (λ k. find_tab k s.tabs ≡ some t) (sym asked) e in
    let current : is_current r (find_tab r.tab s.tabs) ≡ true =
      ap (is_current r) again ∙ is_current-eq r t b in
    (
      before,
      r,
      after,
      p,
      λ response. (
        subst
            (λ k.
              find_tab k (answer friendly before r after response s).tabs
              ≡ some (settle friendly response t))
            asked
            (rw (answer, deliver, current)
              (find_tab-update_tab r.tab (settle friendly response) s.tabs t
                (settle-id friendly response) again)),
        settle-loading friendly response t,
      ),
    )
