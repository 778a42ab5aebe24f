-- ===== src/Detail.antt =====
-- frontend/src/lib/useEntryDetail.ts: the session of the entry editor. `lower` is `toLowerCase`,
-- `friendly` is `friendlyLdapError`, `prepare_copy` is `prepareCopyEntry` with the editor's schema.
-- What `getConnectionId` gives is the field `connection`; the callbacks are recorded in `effects`. A
-- function with an `await` is cut there: a response comes with the request that asked for it.
pub mod Cache
pub mod Lru
pub mod Recent
pub mod Sessions
pub mod Tests
use dbx_plugin_ldap.Base.{
  ℕ, ◌+◌, Bool, true, false, not, ◌&&◌, ◌||◌, Option, none, some, List, [], ◌∷◌, ◌++◌, map, Str,
  str_eq, is_empty, ends_with, trim, ◌==◌, if◌then◌else◌,
}
use mathlib.Core.Option
use dbx_plugin_ldap.Entry.{Attribute, has_text, names_of, chunk_entry_attributes}
use dbx_plugin_ldap.Entry.Staged.{partition_entry_attributes, merge_entry_attributes}
use dbx_plugin_ldap.Tabs.{LdapEntry}
use dbx_plugin_ldap.Detail.Cache.{get, lru_set, lru_touch}

pub data InitialTab : Type 0 where
  ldif assoc : InitialTab

pub data Notice : Type 0 where
  clear_banner ensure_dn_attributes : Notice
  banner_error recent snapshot : Str → Notice
  skipped_attributes : List Str → Notice

pub record Draft : Type 0 where
  pub rdn : Option Str
  pub attributes : List Attribute
  pub parent_dn : Str
  pub skipped : List Str

pub record Prefill : Type 0 where
  pub rdn : Option Str
  pub attributes : List Attribute

pub record Editor : Type 0 where
  pub open_now : Bool
  pub entry : Option LdapEntry
  pub parent_dn : Str
  pub requested_dn : Str
  pub loading : Bool
  pub loading_more : Bool
  pub deferred_loading : Bool
  pub deferred : List Str
  pub deferred_requested : Bool
  pub load_error : Str
  pub load_error_detail : Str
  pub prefill : Option Prefill
  pub initial_tab : Option InitialTab
  pub seq : ℕ
  pub cache : List (Str × LdapEntry)
  pub connection : Str
  pub dialog_token : ℕ
  pub effects : List Notice

pub record EntryRequest : Type 0 where
  pub seq : ℕ
  pub connection : Str
  pub dn : Str

abbrev pub entry_detail_cache_limit : ℕ
entry_detail_cache_limit = 50

abbrev pub entry_attribute_batch_size : ℕ
entry_attribute_batch_size = 20

-- `request === entryRequestSeq && requestedConnection === getConnectionId()`.
unfoldable pub is_current : EntryRequest → Editor → Bool
is_current r s = r.seq == s.seq && str_eq r.connection s.connection

unfoldable pub active_entry_request : EntryRequest → Editor → Bool
unfolding is_current
active_entry_request r s = is_current r s && s.open_now

-- The two parts of `key.split("\u0000", 2)`.
unfoldable pub before_nul : Str → Str
before_nul [] = []
before_nul (c ∷ s) = let rest = before_nul s in if c == 0 then [] else c ∷ rest

unfoldable pub after_nul : Str → Str
after_nul [] = []
after_nul (c ∷ s) = let rest = after_nul s in if c == 0 then s else rest

abbrev pub note : Notice → Editor → Editor
note n s = record s { effects = s.effects ++ n ∷ [] }

unfoldable pub clear : Editor → Editor
clear s = record s { cache = [] }

unfoldable pub close_editor : Editor → Editor
close_editor s = record s {
  seq = s.seq + 1;
  open_now = false;
  loading = false;
  loading_more = false;
  deferred_loading = false;
  deferred = [];
  deferred_requested = false;
  load_error = [];
}

unfoldable pub dispose : Editor → Editor
dispose s = record s { seq = s.seq + 1 }

-- The request of `loadDeferredEditorAttributes`.
abbrev pub own_request : Editor → EntryRequest
own_request s = record { seq = s.seq; connection = s.connection; dn = s.requested_dn }

abbrev pub is_nothing : List Str → Bool
is_nothing [] = true
is_nothing (n ∷ names) = false

abbrev pub no_batch : List (List Str) → Bool
no_batch [] = true
no_batch (batch ∷ batches) = false

-- Up to the first `await`.
unfoldable pub load_deferred_editor_attributes : Editor → Editor
unfolding active_entry_request
load_deferred_editor_attributes s =
    let s' = record s { deferred_requested = true } in
    if is_empty s.requested_dn
      || is_nothing s.deferred
      || s.deferred_loading
      || not (active_entry_request (own_request s) s)
    then s'
    else record s' { deferred_loading = true }

-- The `finally` of `loadRegularEntryAttributes`.
unfoldable pub finish_regular : EntryRequest → Editor → Editor
unfolding active_entry_request load_deferred_editor_attributes
finish_regular r s =
    if active_entry_request r s
    then (let s' = record s { loading_more = false } in
        note ensure_dn_attributes (
          if s.deferred_requested && not (is_nothing s.deferred)
          then load_deferred_editor_attributes s'
          else s'))
    else s

unfoldable pub begin_regular : EntryRequest → Editor → Editor
unfolding active_entry_request
begin_regular r s = if active_entry_request r s then record s { loading_more = true } else s

-- The end of `openEntry`, after `nextTick`.
unfoldable pub after_tick : EntryRequest → Editor → Editor
unfolding is_current begin_regular
after_tick r s = if is_current r s then record (begin_regular r s) { loading = false } else s

abbrev pub any_values : List Attribute → Bool
any_values [] = false
any_values (a ∷ attributes) = not (is_nothing a.values) || any_values attributes

-- `openEntryFromDialog` up to its promise.
unfoldable pub open_entry_from_dialog : Editor → Editor
open_entry_from_dialog s = record s { dialog_token = s.dialog_token + 1 }

-- `openCopyEntry` up to its `await`, and its `catch`.
unfoldable pub open_copy_entry : Editor → Editor
open_copy_entry s = note clear_banner (record s {
  seq = s.seq + 1;
  initial_tab = none;
  loading_more = false;
  deferred_loading = false;
})

unfoldable pub copy_failed : EntryRequest → Str → Editor → Editor
copy_failed r cause s =
    if r.seq == s.seq then note (banner_error cause) (record s { loading = false }) else s

-- The `catch` and the `finally` of `loadDeferredEditorAttributes`.
unfoldable pub deferred_failed : EntryRequest → Str → Editor → Editor
unfolding active_entry_request
deferred_failed r cause s =
    if active_entry_request r s
    then note (banner_error cause) (record s { deferred_loading = false })
    else s

module _ (friendly : Str → Str) where
  unfoldable pub core_failed : EntryRequest → Str → Editor → Editor
  unfolding is_current
  core_failed r message s =
      if is_current r s
      then record s { load_error = friendly message; load_error_detail = message; loading = false }
      else s

module _ (prepare_copy : LdapEntry → Draft) where
  unfoldable pub copy_arrived : EntryRequest → LdapEntry → Editor → Editor
  copy_arrived r e s =
      if r.seq == s.seq
      then (let draft = prepare_copy e in
          let s' = note ensure_dn_attributes (record s {
            entry = none;
            requested_dn = [];
            load_error = [];
            loading = false;
            prefill = some (record { rdn = draft.rdn; attributes = draft.attributes });
            parent_dn = draft.parent_dn;
            open_now = true;
          }) in
          if is_nothing draft.skipped then s' else note (skipped_attributes draft.skipped) s')
      else s

abbrev pub is_dropped : Str → Str → Bool → Str → Bool
is_dropped connection normalized descendants key =
    str_eq (before_nul key) connection
    && (str_eq (before_nul (after_nul key)) normalized
        || (descendants && ends_with (before_nul (after_nul key)) (b',' ∷ normalized)))

unfoldable pub invalidate_from : Str → Str → Bool → List (Str × LdapEntry) → List (Str × LdapEntry)
unfolding before_nul after_nul
invalidate_from connection normalized descendants [] = []
invalidate_from connection normalized descendants ((key, entry) ∷ cache) =
    let rest = invalidate_from connection normalized descendants cache in
    if is_dropped connection normalized descendants key then rest else (key, entry) ∷ rest

abbrev pub opening : Str → Option InitialTab → Editor → Editor
opening dn tab s = note clear_banner (record s {
  seq = s.seq + 1;
  requested_dn = dn;
  initial_tab = tab;
  load_error = [];
  loading = true;
  loading_more = false;
  deferred_loading = false;
  deferred = [];
  deferred_requested = false;
  entry = none;
  open_now = true;
  prefill = none;
})

abbrev pub show_cached : Str → Option LdapEntry → Editor → Editor
show_cached key none s = s
show_cached key (some entry) s = record s {
  cache = lru_touch s.cache key;
  entry = some entry;
  loading = false;
}

module _ (lower : Str → Str) where
  unfoldable pub entry_cache_key : Str → Str → Str
  entry_cache_key connection dn = connection ++ 0 ∷ lower (trim dn)

  unfoldable pub invalidate : Str → Bool → Editor → Editor
  unfolding invalidate_from
  invalidate dn descendants s = record s {
    cache = invalidate_from s.connection (lower (trim dn)) descendants s.cache;
  }

  -- `openEntry` up to its first `await`.
  unfoldable pub open_entry : Str → Option InitialTab → Editor → Editor
  unfolding entry_cache_key get lru_touch
  open_entry dn tab s =
      let key = entry_cache_key s.connection dn in
      show_cached key (get key s.cache) (opening dn tab s)

  -- The promise of `openEntryFromDialog`.
  unfoldable pub dialog_turn : ℕ → Str → Editor → Editor
  unfolding open_entry
  dialog_turn token dn s = if token == s.dialog_token then open_entry dn (some assoc) s else s

  unfoldable pub cached : EntryRequest → LdapEntry → List (Str × LdapEntry) → List (Str × LdapEntry)
  unfolding entry_cache_key lru_set
  cached r entry cache =
      lru_set cache (entry_cache_key r.connection r.dn) entry entry_detail_cache_limit

  -- `openEntry` from its first response to `nextTick`.
  unfoldable pub core_arrived : EntryRequest → LdapEntry → Editor → Editor
  unfolding is_current cached
  core_arrived r e s =
      if is_current r s
      then note (snapshot r.dn) (
          note (recent r.dn) (record s {
            entry = some e;
            cache = cached r e s.cache;
            parent_dn = [];
            open_now = true;
            loading = false;
          }))
      else s

  abbrev pub merge_entries : Option LdapEntry → LdapEntry → LdapEntry
  merge_entries none next = next
  merge_entries (some current) next = record {
    dn = if is_empty next.dn then current.dn else next.dn;
    attributes = merge_entry_attributes lower current.attributes next.attributes;
  }

  unfoldable pub merge_editor_entry : EntryRequest → LdapEntry → Editor → Editor
  unfolding cached merge_entry_attributes
  merge_editor_entry r e s =
      let merged = merge_entries s.entry e in
      record s { entry = some merged; cache = cached r merged s.cache }

  abbrev pub select_from : List Str → List Attribute → List Attribute
  select_from wanted [] = []
  select_from wanted (a ∷ attributes) =
      if has_text (lower a.name) wanted
      then a ∷ select_from wanted attributes
      else select_from wanted attributes

  abbrev pub select_entry_attributes : LdapEntry → List Str → LdapEntry
  select_entry_attributes e names = record e {
    attributes = select_from (map lower names) e.attributes;
  }

  abbrev pub regular_batches : LdapEntry → List (List Str)
  regular_batches e =
      chunk_entry_attributes (partition_entry_attributes lower (names_of e.attributes)).regular
        entry_attribute_batch_size

  -- What follows the read of the names, up to the next `await`.
  unfoldable pub described : EntryRequest → LdapEntry → Editor → Editor
  unfolding active_entry_request merge_editor_entry finish_regular partition_entry_attributes
      chunk_entry_attributes
  described r e s =
      if active_entry_request r s
      then (let p = partition_entry_attributes lower (names_of e.attributes) in
          let s' = record s { deferred = p.deferred } in
          if any_values e.attributes
          then finish_regular r (merge_editor_entry r (select_entry_attributes e p.regular) s')
          else if no_batch (regular_batches e)
          then finish_regular r s'
          else s')
      else s

  -- The response to a batch, after which `batches` are left.
  unfoldable pub batch_arrived : EntryRequest → LdapEntry → List (List Str) → Editor → Editor
  unfolding active_entry_request merge_editor_entry finish_regular
  batch_arrived r e batches s =
      if active_entry_request r s
      then (let s' = merge_editor_entry r e s in
          if no_batch batches then finish_regular r s' else s')
      else s

  -- The read of the whole entry, after a failure.
  unfoldable pub fallback_arrived : EntryRequest → LdapEntry → Editor → Editor
  unfolding active_entry_request merge_editor_entry finish_regular partition_entry_attributes
  fallback_arrived r e s =
      if active_entry_request r s
      then (let p = partition_entry_attributes lower (names_of e.attributes) in
          finish_regular r (
            merge_editor_entry r (select_entry_attributes e p.regular)
              (record s { deferred = p.deferred })))
      else s

  unfoldable pub deferred_arrived : EntryRequest → LdapEntry → List (List Str) → Editor → Editor
  unfolding active_entry_request merge_editor_entry
  deferred_arrived r e batches s =
      if active_entry_request r s
      then (let s' = merge_editor_entry r e s in
          if no_batch batches then record s' { deferred = []; deferred_loading = false } else s')
      else s
