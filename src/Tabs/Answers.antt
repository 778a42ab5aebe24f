-- ===== src/Tabs/Answers.antt =====
-- What the outcome of a request does to the state of frontend/src/lib/useReferenceTabs.ts.
use dbx_plugin_ldap.Base.{
  ◌≡◌, ◌≢◌, inl, inr, refl, sym, ap, ◌∙◌, true, false, not, ◌||◌, Option, some, List, [], ◌∷◌, ◌++◌,
  arith, All, Str, Bool-cases, Option-cases,
}
use mathlib.Core.Path.{subst}
use dbx_plugin_ldap.Tabs.{
  ReferenceTab, Request, References, Response, entry_found, call_failed, find_tab, settle,
  is_current, deliver,
}
use dbx_plugin_ldap.Tabs.Ids.{ids}
use dbx_plugin_ldap.Tabs.Invariant.{IsWellFormed, IsServed, is_asked, filled_of_elem}
use dbx_plugin_ldap.Tabs.Pending.{is_asked-middle, find_tab_of}
use dbx_plugin_ldap.Tabs.Kept.{update-IsWellFormed, found_there}

pub settle-id :
    (friendly : Str → Str) (response : Response) (u : ReferenceTab)
    → (settle friendly response u).id ≡ u.id
unfolding settle
settle-id friendly (entry_found e) u = refl
settle-id friendly (call_failed message) u = refl

pub settle-loading :
    (friendly : Str → Str) (response : Response) (u : ReferenceTab)
    → (settle friendly response u).loading ≡ false
unfolding settle
settle-loading friendly (entry_found e) u = refl
settle-loading friendly (call_failed message) u = refl

-- The request is answered: its outcome is delivered, and it is no longer in flight.
abbrev pub answer :
    (Str → Str) → List Request → Request → List Request → Response → References → References
answer friendly before r after response s =
    deliver friendly r response (record s { pending = before ++ after })

pub is_current-eq :
    (r : Request) (t : ReferenceTab) → r.seq ≡ t.request_seq → is_current r (some t) ≡ true
is_current-eq r t e = ground arith

stale-IsServed :
    (before after : List Request) (r : Request) (o : Option ReferenceTab) (u : ReferenceTab)
    → is_current r o ≡ false
    → (u.id ≡ r.tab → o ≡ some u)
    → IsServed (before ++ r ∷ after) u
    → IsServed (before ++ after) u
stale-IsServed before after r o u c only h = elim (Bool-cases (is_asked (before ++ r ∷ after) u)) [
  | inl e ↦ elim (is_asked-middle before after r u e) [
    | inl k ↦ ground arith
    | inr (a, b) ↦ absurd (cc (c, ap (is_current r) (only (sym a)), is_current-eq r u b))
  ]
  | inr e ↦ ground arith
]

other_IsServed :
    (before after : List Request) (r : Request) (u : ReferenceTab)
    → u.id ≢ r.tab
    → IsServed (before ++ r ∷ after) u
    → IsServed (before ++ after) u
other_IsServed before after r u n h = elim (Bool-cases (is_asked (before ++ r ∷ after) u)) [
  | inl e ↦ elim (is_asked-middle before after r u e) [
    | inl k ↦ ground arith
    | inr (a, b) ↦ absurd (n (sym a))
  ]
  | inr e ↦ ground arith
]

All-and_imp :
    (P Q R : ReferenceTab → Type 0)
    → ((u : ReferenceTab) → P u → Q u → R u)
    → (us : List ReferenceTab) → All P us
    → All Q us
    → All R us
All-and_imp P Q R h [] a b = tt
All-and_imp P Q R h (u ∷ us) (p, a) (q, b) = (h u p q, All-and_imp P Q R h us a b)

pub answer-IsWellFormed :
    (friendly : Str → Str) (before : List Request) (r : Request) (after : List Request)
    (response : Response) (s : References)
    → s.pending ≡ before ++ r ∷ after
    → IsWellFormed s
    → IsWellFormed (answer friendly before r after response s)
unfolding deliver
answer-IsWellFormed friendly before r after response s p w =
    elim (Bool-cases (is_current r (find_tab r.tab s.tabs))) [
      | inl c ↦ elim (Option-cases (find_tab r.tab s.tabs)) [
        | inl e ↦ absurd (cc (c, ap (is_current r) e))
        | inr (t, e) ↦
            rw (answer, deliver, c)
              (update-IsWellFormed s _ r.tab (settle friendly response) t w e
                (settle-id friendly response) refl refl
                (w.sound.opened
                  ∙ ap not (filled_of_elem r.tab (ids s.tabs) (found_there r.tab s.tabs t e).0))
                w.sound.shown
                (λ u n h. other_IsServed before after r u n (subst (λ ps. IsServed ps u) p h))
                (λ _.
                  ap (λ l. not l || is_asked (before ++ after) (settle friendly response t))
                    (settle-loading friendly response t)))
      ]
      | inr c ↦
          rw (answer, deliver, c)
            (record {
              sound = record {
                ascending = w.sound.ascending;
                below = w.sound.below;
                shown = w.sound.shown;
                opened = w.sound.opened;
                served =
                    All-and_imp (λ u. u.id ≡ r.tab → find_tab r.tab s.tabs ≡ some u)
                      (IsServed s.pending) (IsServed (before ++ after))
                      (λ u only h.
                        stale-IsServed before after r (find_tab r.tab s.tabs) u c only
                          (subst (λ ps. IsServed ps u) p h))
                      s.tabs (find_tab_of r.tab s.tabs w.sound.ascending) w.sound.served;
              };
              bounded = w.bounded;
            })
    ]
