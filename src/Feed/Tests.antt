-- ===== src/Feed/Tests.antt =====
-- Runs of the functions of frontend/src/lib/logFeed.ts, and the theorems at concrete inputs.
use dbx_plugin_ldap.Base.{ℕ, ◌≤◌, ◌<◌, ◌≡◌, refl, none, List, [], ◌∷◌, ◌++◌, arith, length, codes}
use dbx_plugin_ldap.Feed.{
  LogFeedItem, info, granted, keep_newest, merge_log_tail, next_log_cursor, seqs, number, absent,
  EventParams, parse_log_event,
}
use dbx_plugin_ldap.Feed.Merge.{IsAscending, merge_log_tail-IsAscending}
use dbx_plugin_ldap.Feed.Polling.{merge_log_tail-next_log_cursor}

abbrev item : ℕ → LogFeedItem
item seq = record {
  seq = seq;
  at = 0;
  level = info;
  method = codes "ldap";
  connection_id = none;
  target = none;
  detail = none;
  result = granted;
  duration_ms = none;
  source = none;
}

tests : Unit {0}
unfolding merge_log_tail keep_newest next_log_cursor parse_log_event
tests = tt

abbrev panel : List LogFeedItem
panel = item 1 ∷ item 4 ∷ []

merge_runs : seqs (merge_log_tail panel (item 5 ∷ item 2 ∷ item 4 ∷ []) 3) ≡ 2 ∷ 4 ∷ 5 ∷ []
unfolding tests
merge_runs = refl

abbrev nothing : EventParams
nothing = record {
  seq = number 0;
  at = absent;
  level = absent;
  method = absent;
  action = absent;
  operation = absent;
  connection_id = absent;
  target = absent;
  detail = absent;
  result = absent;
  duration_ms = absent;
  source = absent;
}

parse_runs : parse_log_event nothing 9 ≡ none
unfolding tests
parse_runs = refl

cursor_run : next_log_cursor panel ≡ 4
unfolding tests
cursor_run = refl

merge_log_tail-IsAscending_example :
    IsAscending (merge_log_tail panel (item 5 ∷ item 2 ∷ []) 3)
    × (length (merge_log_tail panel (item 5 ∷ item 2 ∷ []) 3) ≤ 3)
merge_log_tail-IsAscending_example =
    merge_log_tail-IsAscending panel (item 5 ∷ item 2 ∷ []) 3 ((omega arith, tt), (tt, tt))

above : (n : ℕ) → 4 < n → next_log_cursor panel < n
above n h = omega (arith, cursor_run)

merge_log_tail-next_log_cursor_example :
    merge_log_tail panel (item 6 ∷ item 8 ∷ []) 3 ≡ keep_newest 3 (panel ++ item 6 ∷ item 8 ∷ [])
merge_log_tail-next_log_cursor_example =
    merge_log_tail-next_log_cursor panel (item 6 ∷ item 8 ∷ []) 3 ((omega arith, tt), (tt, tt))
      ((omega arith, tt), (tt, tt)) (above 6 (omega arith), (above 8 (omega arith), tt))
