-- ===== src/Tabs/Tests.antt =====
-- Runs of frontend/src/lib/useReferenceTabs.ts at concrete inputs.
use dbx_plugin_ldap.Base.{
  ℕ, zero, suc, ◌≡◌, refl, true, false, some, List, [], ◌∷◌, ◌++◌, arith, Str, codes, elem,
  lower_char, ascii_lower,
}
use dbx_plugin_ldap.Tabs.{
  ReferenceTab, Request, References, Response, call_failed, find_tab, count_request, new_tab,
  restart, settle, deliver, close_reference_tab, retry_reference, open_referenced_entry,
}
use dbx_plugin_ldap.Tabs.Ids.{ids}
use dbx_plugin_ldap.Tabs.Invariant.{IsWellFormed}
use dbx_plugin_ldap.Tabs.Answers.{answer}
use dbx_plugin_ldap.Tabs.Steps.{
  initial, opening, Run, done, next, reachable-IsWellFormed, loading-ends,
}
use dbx_plugin_ldap.Tabs.Closed.{closed-stays, opening-keeps_active, retry-supersedes}

abbrev echo : Str → Str
echo message = message

abbrev ann : Str
ann = codes "uid=ann,dc=x"

abbrev bob : Str
bob = codes "uid=bob,dc=x"

abbrev member : Str
member = codes "member"

-- Two entries were opened, and neither has arrived.
abbrev two : References
unfolding open_referenced_entry lower_char
two =
    open_referenced_entry ascii_lower bob member
      (open_referenced_entry ascii_lower ann member (initial 7))

tests : Unit {0}
unfolding open_referenced_entry lower_char find_tab two
tests = tt

two-Run : Run ascii_lower echo (initial 7) two
unfolding tests
two-Run = next (opening ann member) (next (opening bob member) done)

two-IsWellFormed : IsWellFormed two
two-IsWellFormed = reachable-IsWellFormed ascii_lower echo 7 two two-Run

two_ids : ids two.tabs ≡ 1 ∷ 2 ∷ []
unfolding tests
two_ids = refl

-- Opening the first again, in other letters, opens no third tab.
again_ids :
    ids (open_referenced_entry ascii_lower (codes "UID=Ann,DC=x") member two).tabs ≡ 1 ∷ 2 ∷ []
unfolding tests
again_ids = refl

abbrev dns : ℕ → Str
dns n = n ∷ []

abbrev open_many : ℕ → References → References
open_many zero s = s
open_many (suc n) s = let s' = open_many n s in open_referenced_entry ascii_lower (dns n) [] s'

-- The eleventh tab takes the place of the oldest.
eleven_ids : ids (open_many 11 (initial 0)).tabs ≡ 2 ∷ 3 ∷ 4 ∷ 5 ∷ 6 ∷ 7 ∷ 8 ∷ 9 ∷ 10 ∷ 11 ∷ []
unfolding tests
eleven_ids = refl

reachable-IsWellFormed_example : IsWellFormed two
reachable-IsWellFormed_example = reachable-IsWellFormed ascii_lower echo 7 two two-Run

abbrev ann_tab : ReferenceTab
ann_tab = count_request (new_tab 1 ann member)

abbrev bob_tab : ReferenceTab
bob_tab = count_request (new_tab 2 bob member)

ann_found : find_tab 1 two.tabs ≡ some ann_tab
unfolding tests
ann_found = refl

bob_found : find_tab 2 two.tabs ≡ some bob_tab
unfolding tests
bob_found = refl

loading-ends_example :
    (before : List Request) × (r : Request) × (after : List Request) × (two.pending
      ≡ before ++ r ∷ after)
    × ((response : Response)
        → (find_tab 1 (answer echo before r after response two).tabs
            ≡ some (settle echo response ann_tab))
          × ((settle echo response ann_tab).loading ≡ false))
loading-ends_example = loading-ends echo two 1 ann_tab two-IsWellFormed ann_found refl

abbrev late : Request
late = record { tab = 1; seq = 1; dn = ann; is_retry = false }

one_there : elem 1 (ids two.tabs) ≡ true
unfolding tests
one_there = refl

closed-stays_example :
    (elem 1 (ids (open_referenced_entry ascii_lower ann member (close_reference_tab 1 two)).tabs)
      ≡ false)
    × ((r : Request) (response : Response)
        → r.tab ≡ 1
        → deliver echo r response
            (open_referenced_entry ascii_lower ann member (close_reference_tab 1 two))
          ≡ open_referenced_entry ascii_lower ann member (close_reference_tab 1 two))
closed-stays_example =
    closed-stays ascii_lower echo 1 two
      (open_referenced_entry ascii_lower ann member (close_reference_tab 1 two)) two-IsWellFormed
      one_there (next (opening ann member) done)

two_active : two.active ≡ some 2
unfolding tests
two_active = refl

opening-keeps_active_example :
    elem 2 (ids (open_referenced_entry ascii_lower (codes "uid=eve,dc=x") member two).tabs) ≡ true
opening-keeps_active_example =
    opening-keeps_active ascii_lower (codes "uid=eve,dc=x") member 2 two two-IsWellFormed two_active

retry-supersedes_example :
    (find_tab 2 (retry_reference two).tabs ≡ some (restart bob_tab))
    × (deliver echo
          (record { tab = 2; seq = 1; dn = bob; is_retry = false })
          (call_failed member)
          (retry_reference two)
        ≡ retry_reference two)
retry-supersedes_example =
    retry-supersedes echo 2 bob_tab two (record { tab = 2; seq = 1; dn = bob; is_retry = false })
      (call_failed member) two_active bob_found refl refl (omega arith)
