-- ===== src/Panels.antt =====
-- The small state of the workbench: frontend/src/lib/connectionRetry.ts,
-- treeAutoRetry.ts, openTabs.ts, useRecentEntries.ts and the lists of bookmarks.ts. Numbers are
-- natural, `lower` is `toLowerCase`, and the tests of error messages are Boolean parameters.
pub mod Window
pub mod Bounds
pub mod Shown
pub mod Tests
use dbx_plugin_ldap.Base.{
  ℕ, zero, suc, ◌+◌, ◌-◌, Bool, true, false, not, ◌||◌, Option, none, some, List, [], ◌∷◌, ◌++◌,
  reverse, length, take, drop, get_elem?, Str, str_eq, is_empty, trim, ltb, leb, ◌==◌,
  if◌then◌else◌,
}
use dbx_plugin_ldap.Dn.{split_first_dn_rdn, dn_within_base}

pub data RetryDecision : Type 0 where
  retry : (attempt delay_ms : ℕ) → RetryDecision
  fail : RetryDecision

abbrev pub boot_restore_retry_max : ℕ
boot_restore_retry_max = 12

abbrev pub boot_restore_retry_delay_ms : ℕ
boot_restore_retry_delay_ms = 1000

-- `inactive` is `isConnectionInactiveError(cause)`.
unfoldable pub decide_connection_retry : Bool → ℕ → RetryDecision
decide_connection_retry inactive attempt =
    if not inactive
    then fail
    else if leb boot_restore_retry_max attempt
    then fail
    else retry (attempt + 1) boot_restore_retry_delay_ms

abbrev pub tree_auto_retry_max : ℕ
tree_auto_retry_max = 3

abbrev pub tree_auto_retry_delays_ms : List ℕ
tree_auto_retry_delays_ms = 5000 ∷ 10000 ∷ 20000 ∷ []

abbrev pub with_delay : ℕ → Option ℕ → Option RetryDecision
with_delay attempt none = none
with_delay attempt (some delay_ms) = some (retry (attempt + 1) delay_ms)

-- `transient` is `isTransientLdapError(raw)`; `none` is a delay that is `undefined`.
unfoldable pub decide_tree_auto_retry : Bool → ℕ → Option RetryDecision
decide_tree_auto_retry transient attempt =
    if not transient
    then some fail
    else if leb tree_auto_retry_max attempt
    then some fail
    else with_delay attempt (get_elem? tree_auto_retry_delays_ms attempt)

pub record BookmarkEntry : Type 0 where
  pub connection_id : Str
  pub dn : Str

abbrev pub bookmarks_max : ℕ
bookmarks_max = 20

abbrev pub recent_entries_max : ℕ
recent_entries_max = 10

module _ (lower : Str → Str) where
  abbrev pub has_key : Str → List Str → Bool
  has_key key [] = false
  has_key key (t ∷ ts) = str_eq (lower (trim t)) key || has_key key ts

  unfoldable pub append_open_tab : List Str → Str → ℕ → List Str
  append_open_tab tabs dn max =
      if has_key (lower (trim dn)) tabs
      then tabs
      else if ltb max (length (tabs ++ dn ∷ []))
      then drop (length (tabs ++ dn ∷ []) - max) (tabs ++ dn ∷ [])
      else tabs ++ dn ∷ []

  -- The texts that are not `dn` up to case.
  unfoldable pub without_dn : Str → List Str → List Str
  without_dn dn [] = []
  without_dn dn (t ∷ ts) =
      let rest = without_dn dn ts in if str_eq (lower t) (lower dn) then rest else t ∷ rest

  unfoldable pub record_recent : Str → List Str → List Str
  unfolding without_dn
  record_recent dn recent =
      if is_empty (trim dn)
      then recent
      else take recent_entries_max (trim dn ∷ without_dn (trim dn) recent)

  abbrev pub has_dn : Str → List Str → Bool
  has_dn dn [] = false
  has_dn dn (t ∷ ts) = str_eq (lower t) (lower dn) || has_dn dn ts

  -- The bookmarks of one connection; `seen` are the texts that the loop has kept.
  unfoldable pub read_from : Str → List Str → List BookmarkEntry → List Str
  read_from connection_id seen [] = []
  read_from connection_id seen (e ∷ es) =
      let skipped = read_from connection_id seen es in
      let kept = read_from connection_id (trim e.dn ∷ seen) es in
      if not (str_eq e.connection_id connection_id)
      then skipped
      else if is_empty (trim e.dn) || has_dn (trim e.dn) seen
      then skipped
      else trim e.dn ∷ kept

  unfoldable pub read_list : Str → List BookmarkEntry → List Str
  unfolding read_from
  read_list connection_id store = read_from connection_id [] store

  abbrev pub owned : Str → List Str → List BookmarkEntry
  owned connection_id [] = []
  owned connection_id (dn ∷ dns) =
      record { connection_id = connection_id; dn = dn } ∷ owned connection_id dns

  abbrev pub others : Str → List BookmarkEntry → List BookmarkEntry
  others connection_id [] = []
  others connection_id (e ∷ es) =
      let rest = others connection_id es in
      if str_eq e.connection_id connection_id then rest else e ∷ rest

  unfoldable pub write_list : Str → List Str → List BookmarkEntry → List BookmarkEntry
  write_list connection_id dns store = owned connection_id dns ++ others connection_id store

  -- The store after the call, and what the call returns.
  unfoldable pub add_bookmark : Str → Str → List BookmarkEntry → List BookmarkEntry × Bool
  unfolding read_list write_list
  add_bookmark connection_id dn store =
      if is_empty connection_id || is_empty (trim dn)
      then (store, false)
      else if has_dn (trim dn) (read_list connection_id store)
      then (store, false)
      else (
        write_list connection_id (take bookmarks_max (trim dn ∷ read_list connection_id store))
            store,
        true,
      )

  unfoldable pub remove_bookmark : Str → Str → List BookmarkEntry → List BookmarkEntry × Bool
  unfolding read_list write_list without_dn
  remove_bookmark connection_id dn store =
      let current = read_list connection_id store in
      let next = without_dn (trim dn) current in
      if is_empty (trim dn)
      then (store, false)
      else if length next == length current
      then (store, false)
      else (write_list connection_id next store, true)

  -- The loop of `dnPathChain`: the ancestors from `current` up, the base left out, and where it ended.
  -- `none` is a loop that has not ended within its rounds.
  abbrev pub put_ancestor : Str → Option (List Str × Str) → Option (List Str × Str)
  put_ancestor dn none = none
  put_ancestor dn (some (ancestors, last)) = some (dn ∷ ancestors, last)

  unfoldable pub climb : ℕ → Str → Str → Option (List Str × Str)
  unfolding split_first_dn_rdn
  climb zero base current = none
  climb (suc rounds) base current =
      let above = climb rounds base (split_first_dn_rdn current).parent_dn in
      if is_empty current || str_eq (lower current) (lower base)
      then some ([], current)
      else put_ancestor current above

  abbrev pub chain_of : Str → Option (List Str × Str) → Option (List Str)
  chain_of base none = none
  chain_of base (some (ancestors, [])) = some []
  chain_of base (some (ancestors, c ∷ last)) = some (base ∷ reverse ancestors)

  -- The rounds are one more than the target has characters.
  unfoldable pub dn_path_chain : Str → Str → Option (List Str)
  unfolding climb dn_within_base
  dn_path_chain target_dn base_dn =
      let base = trim base_dn in
      let target = trim target_dn in
      if is_empty target || is_empty base
      then some []
      else if str_eq (lower target) (lower base)
      then some (base ∷ [])
      else if not (dn_within_base lower target base)
      then some []
      else chain_of base (climb (suc (length target)) base target)
