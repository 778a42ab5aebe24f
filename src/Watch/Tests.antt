-- ===== src/Watch/Tests.antt =====
-- Runs of frontend/src/lib/useTransportWatch.ts at concrete inputs.
use dbx_plugin_ldap.Base.{◌≡◌, refl, true, [], ◌∷◌, Str, codes}
use dbx_plugin_ldap.Watch.{
  Watch, unavailable_now, recovered_now, stop, host_answered, recover_answered, on_offline,
  on_online, probe,
}
use dbx_plugin_ldap.Watch.Single.{
  initial, IsSingle, Run, done, next, switch, offline, online, reachable-IsSingle,
}

tests : Unit {0}
unfolding on_offline on_online probe host_answered recover_answered stop
tests = tt

abbrev shown : Str → Watch → Watch
shown subject s = record s { active = true; subject = subject }

abbrev lost : Watch
unfolding on_offline on_online
lost = on_online true (on_offline true (shown (codes "a") initial))

lost-Run : Run true initial lost
unfolding lost tests
lost-Run = next (switch true (codes "a")) (next offline (next online done))

reachable-IsSingle_example : IsSingle lost
reachable-IsSingle_example = reachable-IsSingle true lost lost-Run

-- While `recover` works for the subject a, the user switches to b, whose outage is announced. The
-- success for a then clears the outage of b and announces a recovery, and does so after the page is
-- left, too.
abbrev late : Watch
unfolding lost on_offline host_answered recover_answered stop
late =
    recover_answered [] [] true
      (stop (on_offline true (shown (codes "b") (host_answered [] [] true lost))))

late_runs :
    (late.unavailable_subject ≡ [])
    × (late.stopped ≡ true)
    × (late.announcements
        ≡ unavailable_now (codes "a") ∷ unavailable_now (codes "b") ∷ recovered_now ∷ [])
unfolding late lost tests
late_runs = (refl, refl, refl)
