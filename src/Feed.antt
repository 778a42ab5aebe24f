-- ===== src/Feed.antt =====
-- frontend/src/lib/logFeed.ts and auditFeed.ts: the records that the log and the audit panels hold.
-- The sidecar's numbers are natural, `now` is the local time (a finite number), and `lower` is
-- `toLowerCase`. `Array.prototype.sort` is stable, hence insertion sort.
pub mod Merge
pub mod Polling
pub mod Tests
use dbx_plugin_ldap.Base.{
  ℕ, zero, suc, ◌-◌, Bool, true, false, ◌&&◌, ◌||◌, Option, none, some, List, [], ◌∷◌, ◌++◌, length,
  take, drop, Str, codes, str_eq, is_empty, includes, trim, elem, ltb, leb, if◌then◌else◌,
}

-- A value of the parameters of an event; `number 0` also stands for a number that is not positive
-- or not finite, `other` for every other type.
pub data Value : Type 0 where
  absent other : Value
  text : Str → Value
  number : ℕ → Value

pub record EventParams : Type 0 where
  pub seq : Value
  pub at : Value
  pub level : Value
  pub method : Value
  pub action : Value
  pub operation : Value
  pub connection_id : Value
  pub target : Value
  pub detail : Value
  pub result : Value
  pub duration_ms : Value
  pub source : Value

pub data LogLevel : Type 0 where
  info warn level_error : LogLevel

pub data LogResult : Type 0 where
  granted denied failed : LogResult

pub record LogFeedItem : Type 0 where
  pub seq : ℕ
  pub at : ℕ
  pub level : LogLevel
  pub method : Str
  pub connection_id : Option Str
  pub target : Option Str
  pub detail : Option Str
  pub result : LogResult
  pub duration_ms : Option ℕ
  pub source : Option Str

pub record AuditFeedItem : Type 0 where
  pub id : ℕ
  pub action : Str
  pub target : Str
  pub result : LogResult
  pub at : ℕ
  pub detail : Option Str
  pub operation : Option Str
  pub duration_ms : Option ℕ

abbrev pub log_feed_max : ℕ
log_feed_max = 1000

abbrev pub audit_feed_max : ℕ
audit_feed_max = 100

unfoldable pub normalize_log_level : Value → LogLevel
normalize_log_level (text s) =
    if str_eq s (codes "warn") then warn else if str_eq s (codes "error") then level_error else info
normalize_log_level _ = info

unfoldable pub normalize_log_result : Value → LogResult
normalize_log_result (text s) =
    if str_eq s (codes "ok") then granted else if str_eq s (codes "denied") then denied else failed
normalize_log_result _ = failed

unfoldable pub optional_text : Value → Option Str
optional_text (text []) = none
optional_text (text (c ∷ s)) = some (c ∷ s)
optional_text _ = none

unfoldable pub positive : Value → Option ℕ
positive (number zero) = none
positive (number (suc n)) = some (suc n)
positive _ = none

abbrev pub or_else {ℓ} : {A : Type ℓ} → Option A → A → A
or_else none d = d
or_else (some a) d = a

abbrev pub any_text : Value → Str
any_text (text s) = s
any_text _ = []

unfoldable pub log_item : EventParams → ℕ → ℕ → LogFeedItem
unfolding normalize_log_level normalize_log_result optional_text positive
log_item p now seq = record {
  seq = seq;
  at = or_else (positive p.at) now;
  level = normalize_log_level p.level;
  method = or_else (optional_text p.method) (codes "ldap");
  connection_id = optional_text p.connection_id;
  target = optional_text p.target;
  detail = optional_text p.detail;
  result = normalize_log_result p.result;
  duration_ms = positive p.duration_ms;
  source = optional_text p.source;
}

unfoldable pub parse_log_event : EventParams → ℕ → Option LogFeedItem
unfolding positive log_item
parse_log_event p now = elim (positive p.seq) [ none ↦ none | some seq ↦ some (log_item p now seq) ]

unfoldable pub parse_audit_event : EventParams → ℕ → ℕ → AuditFeedItem
unfolding normalize_log_result optional_text positive
parse_audit_event p id now = record {
  id = id;
  action = or_else (optional_text p.action) (codes "ldap");
  target = any_text p.target;
  result = normalize_log_result p.result;
  at = now;
  detail = optional_text p.detail;
  operation = optional_text p.operation;
  duration_ms = positive p.duration_ms;
}

-- `next.length > max ? next.slice(next.length - max) : next`.
unfoldable pub keep_newest {ℓ} : {A : Type ℓ} → ℕ → List A → List A
keep_newest max next = if ltb max (length next) then drop (length next - max) next else next

unfoldable pub push_log_item : List LogFeedItem → LogFeedItem → ℕ → List LogFeedItem
unfolding keep_newest
push_log_item items item max = keep_newest max (items ++ item ∷ [])

unfoldable pub push_audit_item : List AuditFeedItem → AuditFeedItem → ℕ → List AuditFeedItem
push_audit_item items item max =
    if ltb max (length (item ∷ items)) then take max (item ∷ items) else item ∷ items

unfoldable pub insert_by_seq : LogFeedItem → List LogFeedItem → List LogFeedItem
insert_by_seq x [] = x ∷ []
insert_by_seq x (y ∷ ys) =
    let later = insert_by_seq x ys in if leb x.seq y.seq then x ∷ y ∷ ys else y ∷ later

unfoldable pub sort_by_seq : List LogFeedItem → List LogFeedItem
unfolding insert_by_seq
sort_by_seq [] = []
sort_by_seq (x ∷ xs) = insert_by_seq x (sort_by_seq xs)

-- The items of `tail` whose number is not known yet, as the loop of `mergeLogTail` pushes them.
unfoldable pub unknown_items : List ℕ → List LogFeedItem → List LogFeedItem
unknown_items known [] = []
unknown_items known (x ∷ xs) =
    let skipped = unknown_items known xs in
    let kept = unknown_items (x.seq ∷ known) xs in if elem x.seq known then skipped else x ∷ kept

abbrev pub seqs : List LogFeedItem → List ℕ
seqs [] = []
seqs (x ∷ xs) = x.seq ∷ seqs xs

unfoldable pub merge_log_tail : List LogFeedItem → List LogFeedItem → ℕ → List LogFeedItem
unfolding sort_by_seq unknown_items keep_newest
merge_log_tail items tail max =
    keep_newest max (sort_by_seq (items ++ unknown_items (seqs items) (sort_by_seq tail)))

-- The loop of `nextLogCursor`.
unfoldable pub cursor_from : ℕ → List LogFeedItem → ℕ
cursor_from cursor [] = cursor
cursor_from cursor (x ∷ xs) = cursor_from (if ltb cursor x.seq then x.seq else cursor) xs

unfoldable pub next_log_cursor : List LogFeedItem → ℕ
unfolding cursor_from
next_log_cursor items = cursor_from 0 items

pub record LogFeedFilter : Type 0 where
  pub level : Option LogLevel
  pub connection_id : Option Str
  pub query : Str

abbrev pub same_level : LogLevel → LogLevel → Bool
same_level info info = true
same_level warn warn = true
same_level level_error level_error = true
same_level _ _ = false

abbrev pub level_passes : Option LogLevel → LogLevel → Bool
level_passes none l = true
level_passes (some k) l = same_level k l

abbrev pub connection_passes : Option Str → Option Str → Bool
connection_passes none c = true
connection_passes (some a) none = false
connection_passes (some a) (some b) = str_eq a b

abbrev pub haystack : LogFeedItem → Str
haystack item =
    item.method
    ++ (codes " "
        ++ (or_else item.target []
            ++ (codes " "
                ++ (or_else item.detail [] ++ (codes " " ++ or_else item.connection_id [])))))

module _ (lower : Str → Str) where
  unfoldable pub log_item_passes : LogFeedFilter → LogFeedItem → Bool
  unfolding includes
  log_item_passes f item =
      level_passes f.level item.level
      && (connection_passes f.connection_id item.connection_id
          && (is_empty (lower (trim f.query))
              || includes (lower (haystack item)) (lower (trim f.query))))

  unfoldable pub filter_log_items : List LogFeedItem → LogFeedFilter → List LogFeedItem
  unfolding log_item_passes
  filter_log_items [] f = []
  filter_log_items (x ∷ xs) f =
      let rest = filter_log_items xs f in if log_item_passes f x then x ∷ rest else rest

abbrev pub has_text : Str → List Str → Bool
has_text s [] = false
has_text s (t ∷ ts) = str_eq t s || has_text s ts

unfoldable pub collect_from : List Str → List LogFeedItem → List Str
collect_from seen [] = seen
collect_from seen (x ∷ xs) = elim x.connection_id [
  | none ↦ collect_from seen xs
  | some c ↦ collect_from (if is_empty c || has_text c seen then seen else seen ++ c ∷ []) xs
]

unfoldable pub collect_connection_ids : List LogFeedItem → List Str
unfolding collect_from
collect_connection_ids items = collect_from [] items
