-- ===== src/Watch/Single.antt =====
-- Runs of frontend/src/lib/useTransportWatch.ts: at most one probe and one recovery are in flight.
use dbx_plugin_ldap.Base.{
  ℕ, ◌+◌, ◌≡◌, inl, inr, refl, ap, ◌∙◌, Bool, true, false, not, ◌&&◌, ◌||◌, List, [], ◌∷◌, ◌++◌,
  arith, length, length-append, Str, str_eq, is_empty, if◌then◌else◌, Bool-cases,
}
use dbx_plugin_ldap.Watch.{
  Watch, Stage, reaching, recovering, stop, host_answered, recover_answered, report_unavailable,
  try_recover, probe, probe_ended, on_offline, on_online, on_visibility_change,
}

abbrev pub initial : Watch
initial = record {
  active = false;
  visible = true;
  subject = [];
  stopped = false;
  probe_in_flight = false;
  recovery_in_flight = false;
  unavailable_subject = [];
  probes = [];
  recoveries = [];
  announcements = [];
}

-- The page's events, the timer, the outcomes of what is in flight, and what changes by itself.
pub data Step (browser : Bool) : Watch → Watch → Type 0 where
  offline : {s : Watch} → Step browser s (on_offline browser s)
  online : {s : Watch} → Step browser s (on_online browser s)
  visibility :
      {s : Watch} (visible : Bool)
      → Step browser s (on_visibility_change browser (record s { visible = visible }))
  tick : {s : Watch} → Step browser s (probe browser s)
  probe_end :
      {s : Watch} (before : List Str) (subject : Str) (after : List Str) (failed : Bool)
      → s.probes ≡ before ++ subject ∷ after
      → Step browser s (probe_ended browser before subject after failed s)
  host_end :
      {s : Watch} (before after : List Stage) (reached : Bool)
      → s.recoveries ≡ before ++ reaching ∷ after
      → Step browser s (host_answered before after reached s)
  recover_end :
      {s : Watch} (before after : List Stage) (done : Bool)
      → s.recoveries ≡ before ++ recovering ∷ after
      → Step browser s (recover_answered before after done s)
  switch :
      {s : Watch} (active : Bool) (subject : Str)
      → Step browser s (record s { active = active; subject = subject })
  unmount : {s : Watch} → Step browser s (stop s)

pub data Run (browser : Bool) : Watch → Watch → Type 0 where
  done : {s : Watch} → Run browser s s
  next : {s t u : Watch} → Step browser s t → Run browser t u → Run browser s u

abbrev pub bit : Bool → ℕ
bit true = 1
bit false = 0

-- The flags say what is in flight.
pub record IsSingle (s : Watch) : Type 0 where
  pub one_probe : length s.probes ≡ bit s.probe_in_flight
  pub one_recovery : length s.recoveries ≡ bit s.recovery_in_flight

module _ (browser : Bool) where
  report_unavailable-IsSingle : (s : Watch) → IsSingle s → IsSingle (report_unavailable browser s)
  unfolding report_unavailable
  report_unavailable-IsSingle s h = elim (Bool-cases (s.stopped || not browser)) [
    | inl a ↦ rw a h
    | inr a ↦
        elim (Bool-cases
          (is_empty s.subject || not s.active || str_eq s.unavailable_subject s.subject)) [
            | inl b ↦ rw (a, b) h
            | inr b ↦ rw (a, b) (record { one_probe = h.one_probe; one_recovery = h.one_recovery })
          ]
  ]

  try_recover-IsSingle : (s : Watch) → IsSingle s → IsSingle (try_recover browser s)
  unfolding try_recover
  try_recover-IsSingle s h =
      elim (Bool-cases
        (s.stopped || not browser || s.recovery_in_flight || is_empty s.unavailable_subject)) [
          | inl a ↦ rw a h
          | inr a ↦
              elim (Bool-cases (not s.active || not (str_eq s.subject s.unavailable_subject))) [
                | inl b ↦
                    rw (a, b) (record { one_probe = h.one_probe; one_recovery = h.one_recovery })
                | inr b ↦
                    let old = h.one_recovery in
                    let idle : s.recovery_in_flight ≡ false = ground arith in
                    rw (a, b)
                      (record {
                        one_probe = h.one_probe;
                        one_recovery =
                            length-append s.recoveries (reaching ∷ [])
                            ∙ ap (λ n. n + 1) (old ∙ ap bit idle);
                      })
              ]
        ]

  probe-IsSingle : (s : Watch) → IsSingle s → IsSingle (probe browser s)
  unfolding probe
  probe-IsSingle s h = elim (Bool-cases (s.stopped || not browser || not s.visible)) [
    | inl a ↦ rw a h
    | inr a ↦ elim (Bool-cases (not (is_empty s.unavailable_subject))) [
      | inl b ↦ rw (a, b) (try_recover-IsSingle s h)
      | inr b ↦ elim (Bool-cases (s.probe_in_flight || not s.active || is_empty s.subject)) [
        | inl c ↦ rw (a, b, c) h
        | inr c ↦
            let old = h.one_probe in
            let idle : s.probe_in_flight ≡ false = ground arith in
            rw (a, b, c)
              (record {
                one_probe =
                    length-append s.probes (s.subject ∷ []) ∙ ap (λ n. n + 1) (old ∙ ap bit idle);
                one_recovery = h.one_recovery;
              })
      ]
    ]
  ]

  length-middle :
      {A : Type 0} (before after xs : List A) (x : A) (flag : Bool)
      → xs ≡ before ++ x ∷ after
      → length xs ≡ bit flag
      → length (before ++ after) ≡ 0
  length-middle before after xs x true e h =
      omega (arith, ap length e, length-append before (x ∷ after), length-append before after)
  length-middle before after xs x false e h =
      omega (arith, ap length e, length-append before (x ∷ after), length-append before after)

  reported-IsSingle :
      (s : Watch) (test : Bool)
      → IsSingle s
      → IsSingle (if test then report_unavailable browser s else s)
  reported-IsSingle s true h = report_unavailable-IsSingle s h
  reported-IsSingle s false h = h

  Step-IsSingle : {s t : Watch} → Step browser s t → IsSingle s → IsSingle t
  unfolding on_offline on_online on_visibility_change probe_ended host_answered recover_answered
      stop
  Step-IsSingle {s} offline h = report_unavailable-IsSingle s h
  Step-IsSingle {s} online h = try_recover-IsSingle s h
  Step-IsSingle {s} (visibility true) h =
      probe-IsSingle (record s { visible = true })
        (record { one_probe = h.one_probe; one_recovery = h.one_recovery })
  Step-IsSingle {s} (visibility false) h = record {
    one_probe = h.one_probe;
    one_recovery = h.one_recovery;
  }
  Step-IsSingle {s} tick h = probe-IsSingle s h
  Step-IsSingle {s} (probe_end before subject after failed e) h =
      let reported = reported-IsSingle s (failed && (str_eq s.subject subject && s.active)) h in
      record {
        one_probe = length-middle before after s.probes subject s.probe_in_flight e h.one_probe;
        one_recovery = reported.one_recovery;
      }
  Step-IsSingle {s} (host_end before after true e) h =
      let one = h.one_recovery in
      record {
        one_probe = h.one_probe;
        one_recovery = omega (
          arith,
          ap length e,
          length-append before (reaching ∷ after),
          length-append before (recovering ∷ after),
        );
      }
  Step-IsSingle {s} (host_end before after false e) h = record {
    one_probe = h.one_probe;
    one_recovery =
        length-middle before after s.recoveries reaching s.recovery_in_flight e h.one_recovery;
  }
  Step-IsSingle {s} (recover_end before after true e) h = record {
    one_probe = h.one_probe;
    one_recovery =
        length-middle before after s.recoveries recovering s.recovery_in_flight e h.one_recovery;
  }
  Step-IsSingle {s} (recover_end before after false e) h = record {
    one_probe = h.one_probe;
    one_recovery =
        length-middle before after s.recoveries recovering s.recovery_in_flight e h.one_recovery;
  }
  Step-IsSingle {s} (switch active subject) h = record {
    one_probe = h.one_probe;
    one_recovery = h.one_recovery;
  }
  Step-IsSingle {s} unmount h = record { one_probe = h.one_probe; one_recovery = h.one_recovery }

  Run-IsSingle : {s t : Watch} → Run browser s t → IsSingle s → IsSingle t
  Run-IsSingle done h = h
  Run-IsSingle (next x run) h = Run-IsSingle run (Step-IsSingle x h)

  -- After any run from the start, in any order of events and outcomes, at most one probe and at most
  -- one recovery are in flight, and each flag is set if and only if the one it stands for is.
  pub reachable-IsSingle : (s : Watch) → Run browser initial s → IsSingle s
  reachable-IsSingle s run = Run-IsSingle run (record { one_probe = refl; one_recovery = refl })
