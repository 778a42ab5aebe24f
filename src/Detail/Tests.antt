-- ===== src/Detail/Tests.antt =====
-- Runs of frontend/src/lib/useEntryDetail.ts at concrete inputs.
use dbx_plugin_ldap.Base.{
  ℕ, ◌≤◌, ◌≡◌, ◌≢◌, refl, true, false, ◌||◌, none, some, List, [], ◌∷◌, arith, length, All, Str,
  codes, str_eq, ends_with, is_space, trim, lower_char, ascii_lower,
}
use dbx_plugin_ldap.Tabs.{LdapEntry}
use dbx_plugin_ldap.Detail.{
  Editor, EntryRequest, Draft, open_entry, close_editor, core_arrived, entry_cache_key, invalidate,
  described,
}
use dbx_plugin_ldap.Detail.Cache.{get}
use dbx_plugin_ldap.Detail.Lru.{Use, write, touch, run, recent, history, AreDistinct}
use dbx_plugin_ldap.Detail.Recent.{run-recent}
use dbx_plugin_ldap.Detail.Sessions.{IsIgnored, superseded-IsIgnored, get-invalidate}

tests : Unit {0}
unfolding open_entry core_arrived entry_cache_key invalidate described lower_char is_space
tests = tt

abbrev fresh : Editor
fresh = record {
  open_now = false;
  entry = none;
  parent_dn = [];
  requested_dn = [];
  loading = false;
  loading_more = false;
  deferred_loading = false;
  deferred = [];
  deferred_requested = false;
  load_error = [];
  load_error_detail = [];
  prefill = none;
  initial_tab = none;
  seq = 0;
  cache = [];
  connection = codes "c1";
  dialog_token = 0;
  effects = [];
}

abbrev echo : Str → Str
echo message = message

abbrev copied : LdapEntry → Draft
copied e = record { rdn = none; attributes = e.attributes; parent_dn = []; skipped = [] }

abbrev ann : Str
ann = codes "uid=ann,dc=x"

abbrev ann_entry : LdapEntry
ann_entry = record {
  dn = ann;
  attributes = record { name = codes "cn"; values = codes "Ann" ∷ [] } ∷ [];
}

abbrev first : EntryRequest
first = record { seq = 1; connection = codes "c1"; dn = ann }

abbrev read_once : Editor
unfolding open_entry core_arrived lower_char is_space
read_once = core_arrived ascii_lower first ann_entry (open_entry ascii_lower ann none fresh)

-- Opened again from the cache, the entry is shown with no loading flag and no error while the
-- refreshing read is in flight.
cached_runs :
    let s = open_entry ascii_lower ann none read_once in
    (s.entry ≡ some ann_entry)
    × (s.loading ≡ false)
    × (s.loading_more ≡ false)
    × (s.deferred_loading ≡ false)
    × (s.load_error ≡ [])
    × (s.seq ≡ 2)
unfolding tests read_once
cached_runs = (refl, refl, refl, refl, refl, refl)

abbrev uses : List (Use ℕ)
uses = write (codes "a") 1 ∷ write (codes "b") 2 ∷ touch (codes "a") ∷ write (codes "c") 3 ∷ []

run-recent_example :
    (run 2 [] uses ≡ recent 2 (history 2 [] uses))
    × (length (run 2 [] uses) ≤ 2)
    × AreDistinct (history 2 [] uses)
run-recent_example = run-recent 2 uses

superseded-IsIgnored_example :
    IsIgnored ascii_lower echo copied first
      (open_entry ascii_lower (codes "uid=bob,dc=x") none read_once)
    × IsIgnored ascii_lower echo copied first (close_editor read_once)
unfolding read_once
superseded-IsIgnored_example =
    superseded-IsIgnored ascii_lower echo copied (codes "uid=bob,dc=x") none first read_once
      (omega arith)

connection_clean : All (λ c. c ≢ 0) read_once.connection
unfolding read_once
connection_clean = (omega arith, (omega arith, tt))

name_clean : All (λ c. c ≢ 0) (ascii_lower (trim ann))
unfolding tests
name_clean = ground arith

below_run :
    (str_eq (ascii_lower (trim ann)) (ascii_lower (trim (codes "DC=x ")))
      || ends_with (ascii_lower (trim ann)) (b',' ∷ ascii_lower (trim (codes "DC=x "))))
    ≡ true
unfolding tests
below_run = refl

get-invalidate_example :
    get
      (entry_cache_key ascii_lower read_once.connection ann)
      (invalidate ascii_lower (codes "DC=x ") true read_once).cache
    ≡ none
get-invalidate_example =
    get-invalidate ascii_lower (codes "DC=x ") ann read_once connection_clean name_clean below_run
