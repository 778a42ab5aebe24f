-- ===== src/Tabs.antt =====
-- frontend/src/lib/useReferenceTabs.ts: the tabs of referenced entries beside an entry's detail.
-- The identifier `reference-N` of a tab is the number N. `lower` is `toLowerCase`, and `friendly` is
-- the text that `friendlyLdapError` shows for an error. A call of `ldapApi.entryGet` is a request in
-- `pending` until its outcome is delivered; the callbacks are recorded in `effects`.
pub mod Ids
pub mod Invariant
pub mod Evict
pub mod Kept
pub mod Answers
pub mod Opened
pub mod Pending
pub mod Steps
pub mod Gone
pub mod Closed
pub mod Tests
use dbx_plugin_ldap.Base.{
  ℕ, zero, suc, ◌+◌, ◌-◌, Bool, true, false, Option, none, some, List, [], ◌∷◌, ◌++◌, map, length,
  get_elem?, Str, str_eq, is_empty, ltb, ◌==◌, if◌then◌else◌,
}
use mathlib.Core.Option
use dbx_plugin_ldap.Entry.{Attribute}

pub record LdapEntry : Type 0 where
  pub dn : Str
  pub attributes : List Attribute

pub record ReferenceTab : Type 0 where
  pub id : ℕ
  pub dn : Str
  pub attribute : Str
  pub entry : Option LdapEntry
  pub loading : Bool
  pub load_error : Str
  pub load_error_detail : Str
  pub request_seq : ℕ

pub record Request : Type 0 where
  pub tab : ℕ
  pub seq : ℕ
  pub dn : Str
  pub is_retry : Bool

pub data Effect : Type 0 where
  ensure_dn_attributes : Effect
  recent : Str → Effect
  snapshot : Str → Effect

pub record References : Type 0 where
  pub open_now : Bool
  pub tabs : List ReferenceTab
  pub active : Option ℕ
  pub last_id : ℕ
  pub dialog_token : ℕ
  pub pending : List Request
  pub effects : List Effect

abbrev pub reference_tab_limit : ℕ
reference_tab_limit = 10

-- `tabs.find((tab) => tab.id === id)`.
unfoldable pub find_tab : ℕ → List ReferenceTab → Option ReferenceTab
find_tab id [] = none
find_tab id (t ∷ ts) = let rest = find_tab id ts in if t.id == id then some t else rest

unfoldable pub index_of : ℕ → List ReferenceTab → Option ℕ
index_of id [] = none
index_of id (t ∷ ts) =
    let rest = Option.map suc (index_of id ts) in if t.id == id then some 0 else rest

unfoldable pub remove_tab : ℕ → List ReferenceTab → List ReferenceTab
remove_tab id [] = []
remove_tab id (t ∷ ts) = let rest = remove_tab id ts in if t.id == id then ts else t ∷ rest

-- Writing through the tab that `find` gives.
unfoldable pub update_tab :
    ℕ → (ReferenceTab → ReferenceTab) → List ReferenceTab → List ReferenceTab
update_tab id f [] = []
update_tab id f (t ∷ ts) =
    let rest = update_tab id f ts in if t.id == id then f t ∷ ts else t ∷ rest

unfoldable pub close_reference : References → References
close_reference s = record s { open_now = false; tabs = []; active = none }

abbrev pub is_active : ℕ → Option ℕ → Bool
is_active id none = false
is_active id (some k) = k == id

abbrev pub id_of : Option ReferenceTab → Option ℕ
id_of none = none
id_of (some t) = some t.id

abbrev pub neighbour_of : Option ReferenceTab → List ReferenceTab → Option ℕ
neighbour_of (some t) tabs = some t.id
neighbour_of none tabs = id_of (get_elem? tabs 0)

-- `tabs[Math.max(0, index - 1)]?.id ?? tabs[0].id`.
abbrev pub neighbour : ℕ → List ReferenceTab → Option ℕ
neighbour index tabs = neighbour_of (get_elem? tabs (index - 1)) tabs

abbrev pub close_at : ℕ → ℕ → List ReferenceTab → References → References
close_at id index [] s = close_reference (record s { tabs = [] })
close_at id index (t ∷ ts) s = record s {
  tabs = t ∷ ts;
  active = if is_active id s.active then neighbour index (t ∷ ts) else s.active;
}

-- A tab's own `requestSeq` is counted up before the tab goes, so that no outcome finds it.
unfoldable pub close_reference_tab : ℕ → References → References
unfolding close_reference index_of remove_tab
close_reference_tab id s = elim (index_of id s.tabs) [
  | none ↦ s
  | some index ↦ close_at id index (remove_tab id s.tabs) s
]

-- The oldest tab that is not active.
unfoldable pub first_inactive : Option ℕ → List ReferenceTab → Option ℕ
first_inactive active [] = none
first_inactive active (t ∷ ts) =
    let rest = first_inactive active ts in if is_active t.id active then rest else some t.id

unfoldable pub evict_rounds : ℕ → References → References
unfolding first_inactive close_reference_tab
evict_rounds zero s = s
evict_rounds (suc n) s =
    if ltb reference_tab_limit (length s.tabs)
    then elim (first_inactive s.active s.tabs) [
      | none ↦ s
      | some id ↦ evict_rounds n (close_reference_tab id s)
    ]
    else s

-- Each round takes a tab away.
unfoldable pub evict_overflow_reference_tabs : References → References
unfolding evict_rounds
evict_overflow_reference_tabs s = evict_rounds (length s.tabs) s

unfoldable pub select_reference_tab : ℕ → References → References
unfolding find_tab
select_reference_tab id s = elim (find_tab id s.tabs) [
  | none ↦ s
  | some t ↦ record s { active = some id }
]

unfoldable pub close_active_reference : References → References
unfolding close_reference close_reference_tab
close_active_reference s = elim s.active [
  | none ↦ close_reference s
  | some id ↦ close_reference_tab id s
]

abbrev pub active_tab : References → Option ReferenceTab
active_tab s = elim s.active [ none ↦ none | some id ↦ find_tab id s.tabs ]

unfoldable pub restart : ReferenceTab → ReferenceTab
restart t = record t {
  entry = none;
  load_error = [];
  load_error_detail = [];
  loading = true;
  request_seq = t.request_seq + 1;
}

abbrev pub retry_tab : ReferenceTab → References → References
retry_tab t s = if is_empty t.dn then s else record s {
  tabs = update_tab t.id restart s.tabs;
  pending =
      s.pending ++ record { tab = t.id; seq = t.request_seq + 1; dn = t.dn; is_retry = true } ∷ [];
}

unfoldable pub retry_reference : References → References
unfolding restart update_tab find_tab
retry_reference s = elim (active_tab s) [ none ↦ s | some t ↦ retry_tab t s ]

unfoldable pub dispose : References → References
unfolding close_reference
dispose s = close_reference s

pub data Response : Type 0 where
  entry_found : LdapEntry → Response
  call_failed : Str → Response

abbrev pub name_attribute : Str → ReferenceTab → ReferenceTab
name_attribute attribute t = if is_empty attribute then t else record t { attribute = attribute }

abbrev pub new_tab : ℕ → Str → Str → ReferenceTab
new_tab id dn attribute = record {
  id = id;
  dn = dn;
  attribute = attribute;
  entry = none;
  loading = true;
  load_error = [];
  load_error_detail = [];
  request_seq = 0;
}

abbrev pub count_request : ReferenceTab → ReferenceTab
count_request t = record t { request_seq = t.request_seq + 1 }

-- The new tab is shown and its entry asked for. `tab.requestSeq` is 0 before.
abbrev pub show_new : ℕ → Str → References → References
show_new id dn s = record s {
  tabs = update_tab id count_request s.tabs;
  active = some id;
  open_now = true;
  pending = s.pending ++ record { tab = id; seq = 1; dn = dn; is_retry = false } ∷ [];
  effects = s.effects ++ ensure_dn_attributes ∷ [];
}

abbrev pub push_tab : ReferenceTab → References → References
push_tab t s = record s { tabs = s.tabs ++ t ∷ []; last_id = t.id }

module _ (lower : Str → Str) where
  unfoldable pub find_dn : Str → List ReferenceTab → Option ReferenceTab
  find_dn dn [] = none
  find_dn dn (t ∷ ts) =
      let rest = find_dn dn ts in if str_eq (lower t.dn) (lower dn) then some t else rest

  -- Up to the first `await`.
  unfoldable pub open_referenced_entry : Str → Str → References → References
  unfolding find_dn update_tab evict_overflow_reference_tabs
  open_referenced_entry dn attribute s =
      let s' = record s { dialog_token = s.dialog_token + 1 } in
      elim (find_dn dn s.tabs) [
        | some t ↦ record s' {
          tabs = update_tab t.id (name_attribute attribute) s.tabs;
          active = some t.id;
          open_now = true;
        }
        | none ↦
            show_new (s.last_id + 1) dn
              (evict_overflow_reference_tabs (push_tab (new_tab (s.last_id + 1) dn attribute) s'))
      ]

abbrev pub settle_effects : Request → Response → List Effect
settle_effects r (call_failed message) = []
settle_effects r (entry_found e) = if r.is_retry then [] else recent r.dn ∷ snapshot r.dn ∷ []

abbrev pub is_current : Request → Option ReferenceTab → Bool
is_current r none = false
is_current r (some t) = r.seq == t.request_seq

module _ (friendly : Str → Str) where
  abbrev pub shown_error : Str → ReferenceTab → ReferenceTab
  shown_error message t = record t {
    load_error = friendly message;
    load_error_detail = if str_eq (friendly message) message then [] else message;
    loading = false;
  }

  unfoldable pub settle : Response → ReferenceTab → ReferenceTab
  settle (entry_found e) t = record t { entry = some e; loading = false }
  settle (call_failed message) t = shown_error message t

  -- What follows the `await`, in both functions that ask.
  unfoldable pub deliver : Request → Response → References → References
  unfolding find_tab settle update_tab
  deliver r response s =
      if is_current r (find_tab r.tab s.tabs)
      then record s {
        tabs = update_tab r.tab (settle response) s.tabs;
        effects = s.effects ++ settle_effects r response;
      }
      else s
