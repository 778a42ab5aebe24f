-- ===== src/Entry/Staged.antt =====
-- frontend/src/lib/stagedEntry.ts, and `looksBinaryAttribute` of binaryValue.ts: which attributes of
-- an entry are read late, and how a later read is merged.
use dbx_plugin_ldap.Base.{
  ◌≡◌, inl, inr, refl, Bool, true, false, not, ◌&&◌, ◌||◌, Option, none, some, List, [], ◌∷◌, ◌++◌,
  All, Str, codes, str_eq, is_empty, ends_with, trim, ◌==◌, if◌then◌else◌, Bool-cases,
}
use dbx_plugin_ldap.Base
use dbx_plugin_ldap.Entry.{Attribute, has_text}

abbrev pub association_attributes : List Str
association_attributes =
    codes "member"
    ∷ codes "uniquemember"
    ∷ codes "memberuid"
    ∷ codes "memberof"
    ∷ codes "managedby"
    ∷ codes "manager"
    ∷ codes "owner"
    ∷ codes "seealso"
    ∷ codes "secretary"
    ∷ codes "roleoccupant"
    ∷ []

abbrev pub priority_attributes : List Str
priority_attributes =
    codes "objectclass"
    ∷ codes "cn"
    ∷ codes "uid"
    ∷ codes "displayname"
    ∷ codes "description"
    ∷ codes "givenname"
    ∷ codes "sn"
    ∷ codes "mail"
    ∷ codes "createtimestamp"
    ∷ codes "modifytimestamp"
    ∷ []

-- `text.split(";")[0]`.
unfoldable pub before_semicolon : Str → Str
before_semicolon [] = []
before_semicolon (c ∷ s) = let later = c ∷ before_semicolon s in if c == b';' then [] else later

-- `delete attributes[name]`.
unfoldable pub remove_name : Str → List Attribute → List Attribute
remove_name name [] = []
remove_name name (a ∷ attributes) =
    let rest = remove_name name attributes in if str_eq a.name name then rest else a ∷ rest

-- `attributes[name] = values`: in its place where the name is there, at the end where it is not.
unfoldable pub assign : Attribute → List Attribute → List Attribute
assign b [] = b ∷ []
assign b (a ∷ attributes) =
    let rest = assign b attributes in if str_eq a.name b.name then b ∷ attributes else a ∷ rest

pub record Partition : Type 0 where
  pub regular : List Str
  pub deferred : List Str

abbrev pub put_name : Bool → Str → Partition → Partition
put_name true name p = record p { deferred = name ∷ p.deferred }
put_name false name p = record p { regular = name ∷ p.regular }

module _ (lower : Str → Str) where
  unfoldable pub looks_binary_attribute : Str → Bool
  unfolding before_semicolon
  looks_binary_attribute name =
      let bare = before_semicolon (lower (trim name)) in
      not (is_empty bare)
      && (str_eq bare (codes "userpkcs12")
          || (Base.ends_with bare (codes "photo") || Base.ends_with bare (codes "certificate")))

  unfoldable pub is_deferred_entry_attribute : Str → Bool
  unfolding before_semicolon looks_binary_attribute
  is_deferred_entry_attribute name =
      let bare = before_semicolon (lower (trim name)) in
      has_text bare association_attributes || looks_binary_attribute bare

  abbrev pub is_skipped : Str → List Str → Bool
  is_skipped name seen =
      is_empty (trim name)
      || (has_text (lower (trim name)) seen || has_text (lower (trim name)) priority_attributes)

  unfoldable pub partition_from : List Str → List Str → Partition
  unfolding is_deferred_entry_attribute
  partition_from seen [] = record { regular = []; deferred = [] }
  partition_from seen (n ∷ names) =
      let skipped = partition_from seen names in
      let rest = partition_from (lower (trim n) ∷ seen) names in
      if is_skipped n seen
      then skipped
      else put_name (is_deferred_entry_attribute (trim n)) (trim n) rest

  unfoldable pub partition_entry_attributes : List Str → Partition
  unfolding partition_from
  partition_entry_attributes names = partition_from [] names

  -- The latest spelling of each name, by its key.
  unfoldable pub spelling : Str → List (Str × Str) → Option Str
  spelling key [] = none
  spelling key ((k, name) ∷ index) =
      let rest = spelling key index in if str_eq k key then some name else rest

  abbrev pub first_spellings : List (Str × Str) → List Attribute → List (Str × Str)
  first_spellings index [] = index
  first_spellings index (a ∷ attributes) = elim (spelling (lower a.name) index) [
    | none ↦ first_spellings (index ++ (lower a.name, a.name) ∷ []) attributes
    | some name ↦ first_spellings index attributes
  ]

  abbrev pub renamed : Str → Option Str → List Attribute → List Attribute
  renamed name none attributes = attributes
  renamed name (some old) attributes =
      if str_eq old name || is_empty old then attributes else remove_name old attributes

  unfoldable pub merge_from : List (Str × Str) → List Attribute → List Attribute → List Attribute
  unfolding spelling remove_name assign
  merge_from index attributes [] = attributes
  merge_from index attributes (n ∷ next) =
      merge_from ((lower n.name, n.name) ∷ index)
        (assign n (renamed n.name (spelling (lower n.name) index) attributes)) next

  -- The attributes of `mergeEntryAttributes` where an entry is there already.
  unfoldable pub merge_entry_attributes : List Attribute → List Attribute → List Attribute
  unfolding merge_from
  merge_entry_attributes current next = merge_from (first_spellings [] current) current next

  abbrev IsSorted : Partition → Type 0
  IsSorted p =
      All (λ n. is_deferred_entry_attribute n ≡ false) p.regular
      × All (λ n. is_deferred_entry_attribute n ≡ true) p.deferred

  put_name-IsSorted :
      (b : Bool) (name : Str) (p : Partition)
      → is_deferred_entry_attribute name ≡ b
      → IsSorted p
      → IsSorted (put_name b name p)
  put_name-IsSorted true name p e (r, d) = (r, (e, d))
  put_name-IsSorted false name p e (r, d) = ((e, r), d)

  partition_from-IsSorted : (seen names : List Str) → IsSorted (partition_from seen names)
  unfolding partition_from
  partition_from-IsSorted seen [] = (tt, tt)
  partition_from-IsSorted seen (n ∷ names) = elim (Bool-cases (is_skipped n seen)) [
    | inl e ↦ rw e (partition_from-IsSorted seen names)
    | inr e ↦ rw e (
        put_name-IsSorted (is_deferred_entry_attribute (trim n)) (trim n)
          (partition_from (lower (trim n) ∷ seen) names) refl
          (partition_from-IsSorted (lower (trim n) ∷ seen) names))
  ]

  -- No attribute to read at once is a deferred one, and every attribute to read late is.
  pub partition_entry_attributes-All :
      (names : List Str)
      → All
          (λ n. is_deferred_entry_attribute n ≡ false)
          ((partition_entry_attributes names).regular)
        × All
            (λ n. is_deferred_entry_attribute n ≡ true)
            ((partition_entry_attributes names).deferred)
  unfolding partition_entry_attributes
  partition_entry_attributes-All names = partition_from-IsSorted [] names
