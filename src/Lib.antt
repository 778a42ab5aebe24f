-- ===== src/Lib.antt =====
-- Verification library of LDAP Studio, the LDAP workspace of DBX. It models the pure logic of the
-- frontend, which decides what the workbench shows and what it sends to the sidecar.
--
-- Conventions. A JavaScript string is a list of its UTF-16 code units (`Base.Str`), a missing value
-- or an index of -1 is `none`, a thrown error is a constructor of a result type. What the platform
-- gives is a parameter of the definitions that use it: `lower` is `toLowerCase`, `decode_utf8` is
-- `TextDecoder.decode`. A loop over an index reads the rest of the text from the index on.
--
-- Parts and files.
-- - Base: the shared names, tests on numbers, lists and text.
-- - Dn (frontend/src/lib/dn.ts): `findTopLevelChar` is `find_top_level_char`, `splitTopLevel` is
--   `split_top_level`, and so on, each function under its own name in snake case. Dn.Scan, Dn.Trim,
--   Dn.Split, Dn.Join and Dn.Within prove; Dn.Value has the functions on RDN values.
--   `split_rounds` has one round more than the text has characters, which suffices since each round
--   but the last takes a character away.
-- - Description (frontend/src/lib/ldapFilter.ts and ldif.ts): the pattern of attribute descriptions,
--   as a machine that reads one character after the other.
-- - Filter (frontend/src/lib/ldapFilter.ts): Filter.Escape has escaping and unescaping,
--   Filter.Assertion the `build...Filter` functions, Filter.Builder the tree of the visual builder,
--   Filter.Validate the validator `validateLdapFilter`. A regular expression is a function on the
--   text. `parse_item` has levels for the nesting: `max_levels` is 101, since the source refuses a
--   depth above 100. The loop over the items of a group has as many rounds as the text has characters
--   and one more. Filter.Accept, Filter.Group, Filter.Sound, Filter.Guid, Filter.Tree, Filter.Equality
--   and Filter.Rounds prove. Filter.Query is the older query builder and Filter.Keyword the keyword
--   field of the tree; Filter.Views proves about both. Filter.Structure parses a filter's text to a
--   tree, with the same levels, and a round more than the text has characters for a group's items;
--   Filter.Clause, Filter.Item, Filter.Nodes and Filter.Rebuilt prove. The fresh identifiers of parsed
--   nodes are empty texts. The members of `Object.prototype`, which an `in` test also finds, are a
--   parameter of Filter.Query.
-- - Ldif (frontend/src/lib/ldif.ts): Ldif writes, folds and unfolds, Ldif.Parse parses; Ldif.Fold,
--   Ldif.Unfold, Ldif.Attribute, Ldif.Reach, Ldif.Reading and Ldif.RoundTrip prove. `encode` and
--   `decode` are the base64 functions.
--   The fuel of `fold_rest` is the length of the line, of which each round takes a character.
-- - Feed (frontend/src/lib/logFeed.ts, auditFeed.ts): the records of the log and audit panels.
--   Feed.Merge proves the order of merging, Feed.Polling that the cursor and merging fit together.
-- - Tree (frontend/src/lib/dnTree.ts): the nodes of the DN tree. Tree.Rows and Tree.Focus prove.
--   `localeCompare` is the parameter `collate`.
-- - Panels (frontend/src/lib/virtualScroll.ts, treeAutoRetry.ts, connectionRetry.ts, openTabs.ts,
--   useRecentEntries.ts, bookmarks.ts): the small state of the workbench. Panels.Window has the window
--   of a scrolled list, Panels.Bounds and Panels.Shown prove. The rounds of `dn_path_chain`
--   are one more than the target has characters, and each parent is shorter.
-- - Tabs (frontend/src/lib/useReferenceTabs.ts): the tabs of referenced entries as a state, with one
--   function for each operation. A function with an `await` is two: up to the call, and from its
--   outcome (`deliver`). Tabs.Steps has the runs, in which outcomes come in any order. The rounds of
--   the eviction are the number of tabs, of which each round closes one.
-- - Export (frontend/src/lib/ldapExporter.ts): the CSV and LDIF exports. Export.Reader is a reader of
--   RFC 4180 to read them back with; Export.Cells and Export.Columns prove.
-- - Detail (frontend/src/lib/useEntryDetail.ts): the session of the entry editor. A function with
--   awaits is cut at each, and a response comes with its request. Detail.Cache is the cache,
--   Detail.Lru and Detail.Recent prove that it is the recent end of the history; Detail.Sessions
--   proves about outdated requests and about invalidation.
-- - Watch (frontend/src/lib/useTransportWatch.ts): the watch over the way to the host, as a state
--   machine whose steps Watch.Single gives.
-- - Entry (frontend/src/lib/entryDiff.ts, ldapDiff.ts, stagedEntry.ts): comparing two entries, the
--   changes that saving sends, and reading an entry in steps (Entry.Staged). Entry.Same and
--   Entry.Applied prove. The rounds of `chunk_from` are the number of names, of which each round takes
--   one at least.
--
-- Not modelled: the sidecar (backend, in Go), the Vue components, the host's API, storage and theme,
-- and the translations, which are input and output or another language; formatting of dates and sizes,
-- which the platform does. The schema, the value editors, the search session and the import of
-- commands are left out for their size.
pub mod Base
pub mod Description
pub mod Detail
pub mod Dn
pub mod Entry
pub mod Export
pub mod Feed
pub mod Filter
pub mod Ldif
pub mod Panels
pub mod Tabs
pub mod Tree
pub mod Watch
