-- ===== src/Entry.antt =====
-- Entries: frontend/src/lib/entryDiff.ts, ldapDiff.ts and stagedEntry.ts. The attributes of an entry
-- are its names, each once, with their values, in the order of the object; a name is no array index.
-- `lower` is `toLowerCase`. `Array.prototype.sort` compares code units, hence insertion sort.
pub mod Staged
pub mod Same
pub mod Applied
pub mod Tests
use dbx_plugin_ldap.Base.{
  ℕ, zero, suc, Bool, true, false, ◌&&◌, ◌||◌, Option, none, some, List, [], ◌∷◌, ◌++◌, length,
  take, drop, Str, str_eq, is_empty, trim, join, ltb, ◌==◌, if◌then◌else◌,
}

pub record Attribute : Type 0 where
  pub name : Str
  pub values : List Str

pub data EntryDiffStatus : Type 0 where
  equal different only_left only_right : EntryDiffStatus

pub record EntryDiffRow : Type 0 where
  pub name : Str
  pub status : EntryDiffStatus
  pub left_values : List Str
  pub right_values : List Str

pub record Side : Type 0 where
  pub key : Str
  pub name : Str
  pub values : List Str

-- The order of code units, a shorter text first.
unfoldable pub text_leb : Str → Str → Bool
text_leb [] t = true
text_leb (c ∷ s) [] = false
text_leb (c ∷ s) (d ∷ t) = let rest = text_leb s t in ltb c d || (c == d && rest)

unfoldable pub insert_text : Str → List Str → List Str
unfolding text_leb
insert_text s [] = s ∷ []
insert_text s (t ∷ ts) =
    let later = insert_text s ts in if text_leb s t then s ∷ t ∷ ts else t ∷ later

unfoldable pub sort_texts : List Str → List Str
unfolding insert_text
sort_texts [] = []
sort_texts (t ∷ ts) = insert_text t (sort_texts ts)

abbrev pub has_text : Str → List Str → Bool
has_text s [] = false
has_text s (t ∷ ts) = str_eq t s || has_text s ts

-- `[...new Set(texts)]`.
unfoldable pub unique_from : List Str → List Str → List Str
unique_from seen [] = []
unique_from seen (t ∷ ts) =
    let skipped = unique_from seen ts in
    let kept = unique_from (t ∷ seen) ts in if has_text t seen then skipped else t ∷ kept

unfoldable pub values_equal : List Str → List Str → Bool
values_equal [] [] = true
values_equal [] (b ∷ bs) = false
values_equal (a ∷ as') [] = false
values_equal (a ∷ as') (b ∷ bs) = let rest = values_equal as' bs in str_eq a b && rest

-- One round of `attributeSide`: the values are put at the end of their attribute's.
unfoldable pub add_side : Str → Attribute → List Side → List Side
add_side key a [] = record { key = key; name = a.name; values = a.values } ∷ []
add_side key a (s ∷ sides) =
    let rest = add_side key a sides in
    if str_eq s.key key then record s { values = s.values ++ a.values } ∷ sides else s ∷ rest

unfoldable pub find_side : Str → List Side → Option Side
find_side key [] = none
find_side key (s ∷ sides) =
    let rest = find_side key sides in if str_eq s.key key then some s else rest

abbrev pub keys : List Side → List Str
keys [] = []
keys (s ∷ sides) = s.key ∷ keys sides

unfoldable pub diff_row : Str → Option Side → Option Side → EntryDiffRow
unfolding sort_texts values_equal
diff_row key none none = record {
  name = key;
  status = only_right;
  left_values = [];
  right_values = [];
}
diff_row key none (some r) = record {
  name = r.name;
  status = only_right;
  left_values = [];
  right_values = sort_texts r.values;
}
diff_row key (some l) none = record {
  name = l.name;
  status = only_left;
  left_values = sort_texts l.values;
  right_values = [];
}
diff_row key (some l) (some r) = record {
  name = l.name;
  status = if values_equal (sort_texts l.values) (sort_texts r.values) then equal else different;
  left_values = sort_texts l.values;
  right_values = sort_texts r.values;
}

unfoldable pub diff_rows : List Str → List Side → List Side → List EntryDiffRow
unfolding diff_row find_side
diff_rows [] left right = []
diff_rows (key ∷ names) left right =
    diff_row key (find_side key left) (find_side key right) ∷ diff_rows names left right

abbrev pub is_equal_status : EntryDiffStatus → Bool
is_equal_status equal = true
is_equal_status _ = false

-- The rows that differ, counted.
unfoldable pub count_differences : List EntryDiffRow → ℕ
count_differences [] = 0
count_differences (r ∷ rows) =
    let rest = count_differences rows in if is_equal_status r.status then rest else suc rest

pub data Operation : Type 0 where
  add replace delete : Operation

pub record LdapModifyChange : Type 0 where
  pub operation : Operation
  pub attribute : Str
  pub values : List Str

-- The change of one key; `none` is no change.
unfoldable pub change_of : Str → Option Attribute → Option Attribute → Option LdapModifyChange
change_of key none none = none
change_of key none (some a) =
    some (record { operation = add; attribute = a.name; values = a.values })
change_of key (some b) none = some (record { operation = delete; attribute = key; values = [] })
change_of key (some b) (some a) =
    if str_eq (join (0x0a ∷ []) b.values) (join (0x0a ∷ []) a.values)
    then none
    else some (record { operation = replace; attribute = a.name; values = a.values })

abbrev pub pushed : Option LdapModifyChange → List LdapModifyChange → List LdapModifyChange
pushed none changes = changes
pushed (some c) changes = c ∷ changes

pub record AttrRowDraftSource : Type 0 where
  pub name : Str
  pub values_text : Str
  pub source_values : Option (List Str)

-- `text.split("\n")`.
abbrev pub put_line : ℕ → List Str → List Str
put_line c [] = (c ∷ []) ∷ []
put_line c (l ∷ ls) = (c ∷ l) ∷ ls

unfoldable pub split_rows : Str → List Str
split_rows [] = [] ∷ []
split_rows (c ∷ s) = let later = split_rows s in if c == 0x0a then [] ∷ later else put_line c later

abbrev pub without_empty : List Str → List Str
without_empty [] = []
without_empty (t ∷ ts) = let rest = without_empty ts in if is_empty t then rest else t ∷ rest

unfoldable pub row_values : AttrRowDraftSource → List Str
unfolding split_rows unique_from
row_values row =
    let edited = unique_from [] (without_empty (split_rows row.values_text)) in
    elim row.source_values [
      | none ↦ edited
      | some source ↦ if str_eq row.values_text (join (0x0a ∷ []) source) then source else edited
    ]

-- The values that are not there yet, put at the end.
unfoldable pub merge_values : List Str → List Str → List Str
merge_values existing [] = existing
merge_values existing (v ∷ values) =
    merge_values (if has_text v existing then existing else existing ++ v ∷ []) values

unfoldable pub chunk_from : ℕ → List Str → ℕ → List (List Str)
chunk_from zero names size = []
chunk_from (suc rounds) [] size = []
chunk_from (suc rounds) (n ∷ names) size =
    take size (n ∷ names) ∷ chunk_from rounds (drop size (n ∷ names)) size

-- A round takes a name at least, where the size is not 0.
unfoldable pub chunk_entry_attributes : List Str → ℕ → List (List Str)
unfolding chunk_from
chunk_entry_attributes names size = chunk_from (length names) names size

abbrev pub names_of : List Attribute → List Str
names_of [] = []
names_of (a ∷ attributes) = a.name ∷ names_of attributes

module _ (lower : Str → Str) where
  unfoldable pub sides_from : List Side → List Attribute → List Side
  unfolding add_side
  sides_from sides [] = sides
  sides_from sides (a ∷ attributes) = sides_from (add_side (lower a.name) a sides) attributes

  unfoldable pub diff_ldap_entries : List Attribute → List Attribute → List EntryDiffRow
  unfolding sides_from unique_from sort_texts diff_rows
  diff_ldap_entries left right =
      let l = sides_from [] left in
      let r = sides_from [] right in diff_rows (sort_texts (unique_from [] (keys l ++ keys r))) l r

  -- The first attribute whose name is the key up to case.
  unfoldable pub first_of : Str → List Attribute → Option Attribute
  first_of key [] = none
  first_of key (a ∷ attributes) =
      let rest = first_of key attributes in if str_eq (lower a.name) key then some a else rest

  unfoldable pub changes_from :
      List Str → List Str → List Attribute → List Attribute → List LdapModifyChange
  unfolding change_of first_of
  changes_from seen [] before after = []
  changes_from seen (key ∷ names) before after =
      let skipped = changes_from seen names before after in
      let rest = changes_from (lower key ∷ seen) names before after in
      if has_text (lower key) seen
      then skipped
      else pushed (change_of key (first_of (lower key) before) (first_of (lower key) after)) rest

  unfoldable pub diff_changes : List Attribute → List Attribute → List LdapModifyChange
  unfolding changes_from
  diff_changes before after = changes_from [] (names_of before ++ names_of after) before after

  unfoldable pub add_row : Str → List Str → List Attribute → List Attribute
  unfolding merge_values
  add_row name values [] = record { name = name; values = values } ∷ []
  add_row name values (a ∷ result) =
      let rest = add_row name values result in
      if str_eq (lower a.name) (lower name)
      then record a { values = merge_values a.values values } ∷ result
      else a ∷ rest

  unfoldable pub rows_from : List Attribute → List AttrRowDraftSource → List Attribute
  unfolding add_row row_values
  rows_from result [] = result
  rows_from result (row ∷ rows) =
      rows_from
        (if is_empty (trim row.name) then result else elim (row_values row) [
          | [] ↦ result
          | ◌∷◌ v values ↦ add_row (trim row.name) (v ∷ values) result
        ])
        rows

  unfoldable pub attr_rows_to_attributes : List AttrRowDraftSource → List Attribute
  unfolding rows_from
  attr_rows_to_attributes rows = rows_from [] rows
