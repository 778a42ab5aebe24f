-- ===== src/Watch.antt =====
-- frontend/src/lib/useTransportWatch.ts: the watch over the way from the browser to the host. The
-- options' `active` and `subject`, and the page's visibility, are fields that change by themselves;
-- `browser` is `browserDeployment`. A probe and a recovery are in flight until their outcome comes;
-- that of a probe is a failure or not, in time or not.
pub mod Single
pub mod Tests
use dbx_plugin_ldap.Base.{
  Bool, true, false, not, ◌&&◌, ◌||◌, List, [], ◌∷◌, ◌++◌, Str, str_eq, is_empty, if◌then◌else◌,
}

pub data Announcement : Type 0 where
  unavailable_now : Str → Announcement
  recovered_now : Announcement

-- What a recovery waits for: the same-origin request, or `recover`.
pub data Stage : Type 0 where
  reaching recovering : Stage

pub record Watch : Type 0 where
  pub active : Bool
  pub visible : Bool
  pub subject : Str
  pub stopped : Bool
  pub probe_in_flight : Bool
  pub recovery_in_flight : Bool
  pub unavailable_subject : Str
  pub probes : List Str
  pub recoveries : List Stage
  pub announcements : List Announcement

abbrev pub announce : Announcement → Watch → Watch
announce a s = record s { announcements = s.announcements ++ a ∷ [] }

-- The end of a probe that was started for `subject`.
abbrev pub without_probe : List Str → List Str → Watch → Watch
without_probe before after s = record s { probe_in_flight = false; probes = before ++ after }

abbrev pub with_recoveries : List Stage → Watch → Watch
with_recoveries recoveries s = record s { recoveries = recoveries }

unfoldable pub stop : Watch → Watch
stop s = record s { stopped = true }

-- The request to the host came back, or did not.
unfoldable pub host_answered : List Stage → List Stage → Bool → Watch → Watch
host_answered before after true s = with_recoveries (before ++ recovering ∷ after) s
host_answered before after false s = record s {
  recoveries = before ++ after;
  recovery_in_flight = false;
}

-- `recover` gave true, or gave false or threw.
unfoldable pub recover_answered : List Stage → List Stage → Bool → Watch → Watch
recover_answered before after true s = announce recovered_now (record s {
  recoveries = before ++ after;
  recovery_in_flight = false;
  unavailable_subject = [];
})
recover_answered before after false s = record s {
  recoveries = before ++ after;
  recovery_in_flight = false;
}

module _ (browser : Bool) where
  unfoldable pub report_unavailable : Watch → Watch
  report_unavailable s =
      if s.stopped || not browser
      then s
      else if is_empty s.subject || not s.active || str_eq s.unavailable_subject s.subject
      then s
      else announce (unavailable_now s.subject) (record s { unavailable_subject = s.subject })

  -- Up to the first `await`.
  unfoldable pub try_recover : Watch → Watch
  try_recover s =
      if s.stopped || not browser || s.recovery_in_flight || is_empty s.unavailable_subject
      then s
      else if not s.active || not (str_eq s.subject s.unavailable_subject)
      then record s { unavailable_subject = [] }
      else record s { recovery_in_flight = true; recoveries = s.recoveries ++ reaching ∷ [] }

  -- Up to the first `await`.
  unfoldable pub probe : Watch → Watch
  unfolding try_recover
  probe s =
      if s.stopped || not browser || not s.visible
      then s
      else if not (is_empty s.unavailable_subject)
      then try_recover s
      else if s.probe_in_flight || not s.active || is_empty s.subject
      then s
      else record s { probe_in_flight = true; probes = s.probes ++ s.subject ∷ [] }

  unfoldable pub probe_ended : List Str → Str → List Str → Bool → Watch → Watch
  unfolding report_unavailable
  probe_ended before subject after failed s =
      without_probe before after
        (if failed && (str_eq s.subject subject && s.active) then report_unavailable s else s)

  unfoldable pub on_offline : Watch → Watch
  unfolding report_unavailable
  on_offline s = report_unavailable s

  unfoldable pub on_online : Watch → Watch
  unfolding try_recover
  on_online s = try_recover s

  unfoldable pub on_visibility_change : Watch → Watch
  unfolding probe
  on_visibility_change s = if s.visible then probe s else s
