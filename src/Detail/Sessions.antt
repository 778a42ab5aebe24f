-- ===== src/Detail/Sessions.antt =====
-- Which requests of frontend/src/lib/useEntryDetail.ts still count, and what invalidation leaves.
use dbx_plugin_ldap.Base.{
  ◌≤◌, ◌<◌, ◌≡◌, ◌≢◌, inl, inr, refl, ap, ◌∙◌, Bool, true, false, ◌&&◌, ◌||◌, Option, none, some,
  List, [], ◌∷◌, ◌++◌, arith, All, Str, str_eq, str_eq_refl, str_eq→eq, ends_with, trim, ◌==◌,
  Bool-cases,
}
use dbx_plugin_ldap.Tabs.{LdapEntry}
use dbx_plugin_ldap.Detail.{
  Editor, EntryRequest, Draft, InitialTab, is_current, active_entry_request, before_nul, after_nul,
  finish_regular, after_tick, open_entry, opening, show_cached, entry_cache_key, copy_failed,
  copy_arrived, core_failed, core_arrived, described, batch_arrived, fallback_arrived,
  deferred_arrived, deferred_failed, is_dropped, invalidate_from, invalidate, close_editor,
}
use dbx_plugin_ldap.Detail.Cache.{get}

-- Every response to the request, and every end of its waiting, leaves the state as it is.
pub record IsIgnored (lower friendly : Str → Str) (prepare_copy : LdapEntry → Draft)
    (r : EntryRequest) (s : Editor) : Type 0 where
  pub core : (e : LdapEntry) → core_arrived lower r e s ≡ s
  pub core_error : (message : Str) → core_failed friendly r message s ≡ s
  pub tick : after_tick r s ≡ s
  pub names : (e : LdapEntry) → described lower r e s ≡ s
  pub batch : (e : LdapEntry) (batches : List (List Str)) → batch_arrived lower r e batches s ≡ s
  pub fallback : (e : LdapEntry) → fallback_arrived lower r e s ≡ s
  pub regular_end : finish_regular r s ≡ s
  pub late : (e : LdapEntry) (batches : List (List Str)) → deferred_arrived lower r e batches s ≡ s
  pub late_error : (cause : Str) → deferred_failed r cause s ≡ s
  pub copy : (e : LdapEntry) → copy_arrived prepare_copy r e s ≡ s
  pub copy_error : (cause : Str) → copy_failed r cause s ≡ s

pub outdated-IsIgnored :
    (lower friendly : Str → Str) (prepare_copy : LdapEntry → Draft) (r : EntryRequest) (s : Editor)
    → r.seq < s.seq
    → IsIgnored lower friendly prepare_copy r s
unfolding core_arrived core_failed after_tick described batch_arrived fallback_arrived
    finish_regular deferred_arrived deferred_failed copy_arrived copy_failed is_current
    active_entry_request
outdated-IsIgnored lower friendly prepare_copy r s h =
    let old : r.seq == s.seq ≡ false = ground arith in
    record {
      core = λ e. rw old refl;
      core_error = λ message. rw old refl;
      tick = rw old refl;
      names = λ e. rw old refl;
      batch = λ e batches. rw old refl;
      fallback = λ e. rw old refl;
      regular_end = rw old refl;
      late = λ e batches. rw old refl;
      late_error = λ cause. rw old refl;
      copy = λ e. rw old refl;
      copy_error = λ cause. rw old refl;
    }

seq-show_cached :
    (key : Str) (o : Option LdapEntry) (s : Editor) → (show_cached key o s).seq ≡ s.seq
seq-show_cached key none s = refl
seq-show_cached key (some e) s = refl

-- Once another entry is opened, or the editor is closed, no response to a request that was sent
-- before, and no end of its waiting, changes anything.
pub superseded-IsIgnored :
    (lower friendly : Str → Str) (prepare_copy : LdapEntry → Draft) (dn : Str)
    (tab : Option InitialTab) (r : EntryRequest) (s : Editor)
    → r.seq ≤ s.seq
    → IsIgnored lower friendly prepare_copy r (open_entry lower dn tab s)
      × IsIgnored lower friendly prepare_copy r (close_editor s)
unfolding open_entry close_editor
superseded-IsIgnored lower friendly prepare_copy dn tab r s h =
    let key = entry_cache_key lower s.connection dn in
    let later = seq-show_cached key (get key s.cache) (opening dn tab s) in
    (
      outdated-IsIgnored lower friendly prepare_copy r (open_entry lower dn tab s)
          (omega (arith, later)),
      outdated-IsIgnored lower friendly prepare_copy r (close_editor s) (omega arith),
    )

before_nul-append : (s t : Str) → All (λ c. c ≢ 0) s → before_nul (s ++ 0 ∷ t) ≡ s
unfolding before_nul
before_nul-append [] t h = refl
before_nul-append (c ∷ s) t (n, h) =
    let plain : c == 0 ≡ false = ground arith in
    rw plain (ap (λ u. c ∷ u) (before_nul-append s t h))

after_nul-append : (s t : Str) → All (λ c. c ≢ 0) s → after_nul (s ++ 0 ∷ t) ≡ t
unfolding after_nul
after_nul-append [] t h = refl
after_nul-append (c ∷ s) t (n, h) =
    let plain : c == 0 ≡ false = ground arith in rw plain (after_nul-append s t h)

before_nul_whole : (s : Str) → All (λ c. c ≢ 0) s → before_nul s ≡ s
unfolding before_nul
before_nul_whole [] h = refl
before_nul_whole (c ∷ s) (n, h) =
    let plain : c == 0 ≡ false = ground arith in rw plain (ap (λ u. c ∷ u) (before_nul_whole s h))

module _ (lower : Str → Str) where
  get-invalidate_from :
      (connection normalized : Str) (descendants : Bool) (key : Str)
      (cache : List (Str × LdapEntry))
      → is_dropped connection normalized descendants key ≡ true
      → get key (invalidate_from connection normalized descendants cache) ≡ none
  unfolding get invalidate_from
  get-invalidate_from connection normalized descendants key [] h = refl
  get-invalidate_from connection normalized descendants key ((k, e) ∷ cache) h =
      elim (Bool-cases (is_dropped connection normalized descendants k)) [
        | inl d ↦ rw d (get-invalidate_from connection normalized descendants key cache h)
        | inr d ↦ elim (Bool-cases (str_eq k key)) [
          | inl same ↦
              absurd (
                cc (h, d, ap (is_dropped connection normalized descendants) (str_eq→eq k key same)))
          | inr other ↦
              rw (d, other) (get-invalidate_from connection normalized descendants key cache h)
        ]
      ]

  -- After an entry is invalidated with its descendants, the cache of this connection has no entry
  -- whose name, trimmed and in lower case, is its name or ends with a comma and its name, where the
  -- names and the connection have no NUL.
  pub get-invalidate :
      (dn below : Str) (s : Editor)
      → All (λ c. c ≢ 0) s.connection
      → All (λ c. c ≢ 0) (lower (trim below))
      → (str_eq (lower (trim below)) (lower (trim dn))
          || ends_with (lower (trim below)) (b',' ∷ lower (trim dn)))
        ≡ true
      → get (entry_cache_key lower s.connection below) (invalidate lower dn true s).cache ≡ none
  unfolding invalidate entry_cache_key
  get-invalidate dn below s clean plain h =
      let name = lower (trim below) in
      let key = s.connection ++ 0 ∷ name in
      let first : before_nul key ≡ s.connection = before_nul-append s.connection name clean in
      let second : before_nul (after_nul key) ≡ name =
        ap before_nul (after_nul-append s.connection name clean) ∙ before_nul_whole name plain in
      get-invalidate_from s.connection (lower (trim dn)) true key s.cache (
        ap
          (λ c.
            str_eq c s.connection
            && (str_eq (before_nul (after_nul key)) (lower (trim dn))
                || ends_with (before_nul (after_nul key)) (b',' ∷ lower (trim dn))))
          first
        ∙ ap
            (λ n.
              str_eq s.connection s.connection
              && (str_eq n (lower (trim dn)) || ends_with n (b',' ∷ lower (trim dn))))
            second
        ∙ ap (λ b. b && (str_eq name (lower (trim dn)) || ends_with name (b',' ∷ lower (trim dn))))
            (str_eq_refl s.connection)
        ∙ h)
