-- ===== src/Tree.antt =====
-- frontend/src/lib/dnTree.ts: the nodes of the DN tree, their kinds and the rows that are shown.
-- `lower` is `toLowerCase`, `print` is `String` on a number, `collate` is `localeCompare` (numeric).
pub mod Rows
pub mod Focus
pub mod Tests
use dbx_plugin_ldap.Base.{
  ℕ, zero, suc, ◌+◌, ◌-◌, Bool, true, false, not, ◌&&◌, ◌||◌, Option, none, some, List, [], ◌∷◌,
  ◌++◌, map, Str, codes, str_eq, is_empty, trim, ltb, leb, ◌==◌, if◌then◌else◌,
}
use dbx_plugin_ldap.Dn.{split_first_dn_rdn}
use mathlib.Core.List.{map}

pub record NodeState : Type 0 where
  pub dn : Str
  pub label : Str
  pub object_class : List Str
  pub expanded : Bool
  pub loaded : Bool
  pub loading : Bool
  pub child_count : Option ℕ
  pub truncated : Bool

mutual
  pub data DnTreeNode : Type 0 where
    node : NodeState → DnTreeNodes → DnTreeNode

  pub data DnTreeNodes : Type 0 where
    leaf_end : DnTreeNodes
    child : DnTreeNode → DnTreeNodes → DnTreeNodes

pub data DnNodeKind : Type 0 where
  root_kind dc_kind ou_kind cn_kind uid_kind o_kind other_kind : DnNodeKind

pub data ObjectClassNodeKind : Type 0 where
  domain container person group organization application device alias other : ObjectClassNodeKind

pub data AttributeValue : Type 0 where
  values : List Str → AttributeValue
  single : Str → AttributeValue
  missing : AttributeValue

abbrev pub trimmed_values : List Str → List Str
trimmed_values [] = []
trimmed_values (v ∷ vs) =
    let rest = trimmed_values vs in if is_empty (trim v) then rest else trim v ∷ rest

unfoldable pub is_leaf_kind : ObjectClassNodeKind → Bool
is_leaf_kind person = true
is_leaf_kind group = true
is_leaf_kind application = true
is_leaf_kind device = true
is_leaf_kind alias = true
is_leaf_kind _ = false

abbrev pub has_text : Str → List Str → Bool
has_text s [] = false
has_text s (t ∷ ts) = str_eq t s || has_text s ts

abbrev pub any_of : List Str → List Str → Bool
any_of [] classes = false
any_of (n ∷ names) classes = has_text n classes || any_of names classes

abbrev alias_names : List Str
alias_names = codes "alias" ∷ codes "referral" ∷ []

abbrev group_names : List Str
group_names =
    codes "group"
    ∷ codes "groupofnames"
    ∷ codes "groupofuniquenames"
    ∷ codes "posixgroup"
    ∷ codes "groupofurls"
    ∷ codes "groupofentries"
    ∷ []

abbrev person_names : List Str
person_names =
    codes "inetorgperson"
    ∷ codes "organizationalperson"
    ∷ codes "person"
    ∷ codes "user"
    ∷ codes "contact"
    ∷ codes "posixaccount"
    ∷ codes "account"
    ∷ []

abbrev device_names : List Str
device_names =
    codes "computer" ∷ codes "device" ∷ codes "iphost" ∷ codes "printer" ∷ codes "host" ∷ []

abbrev application_names : List Str
application_names =
    codes "applicationprocess"
    ∷ codes "applicationentity"
    ∷ codes "serviceconnectionpoint"
    ∷ codes "service"
    ∷ []

abbrev container_names : List Str
container_names =
    codes "organizationalunit"
    ∷ codes "container"
    ∷ codes "builtindomain"
    ∷ codes "builtin-domain"
    ∷ codes "builtincontainer"
    ∷ codes "domain"
    ∷ codes "locality"
    ∷ codes "country"
    ∷ []

abbrev organization_names : List Str
organization_names = codes "organization" ∷ codes "organizationalrole" ∷ []

abbrev domain_names : List Str
domain_names = codes "dcobject" ∷ codes "domainrelatedobject" ∷ codes "dnsdomain" ∷ []

-- The first list of names that meets the classes.
unfoldable pub kind_of_classes : List Str → ObjectClassNodeKind
kind_of_classes classes =
    if any_of alias_names classes
    then alias
    else if any_of group_names classes
    then group
    else if any_of person_names classes
    then person
    else if any_of device_names classes
    then device
    else if any_of application_names classes
    then application
    else if any_of container_names classes
    then container
    else if any_of organization_names classes
    then organization
    else if any_of domain_names classes
    then domain
    else other

abbrev pub is_none_left : DnTreeNodes → Bool
is_none_left leaf_end = true
is_none_left (child n ns) = false

abbrev pub is_nil : List Str → Bool
is_nil [] = true
is_nil (x ∷ xs) = false

-- `text.indexOf("=")` where it is positive, and the text before it.
abbrev pub put_first : ℕ → Option Str → Option Str
put_first c none = none
put_first c (some t) = some (c ∷ t)

unfoldable pub before_equals : Str → Option Str
before_equals [] = none
before_equals (c ∷ s) =
    let later = put_first c (before_equals s) in if c == b'=' then some [] else later

unfoldable pub kind_of_type : Str → DnNodeKind
kind_of_type type =
    if str_eq type (codes "dc")
    then dc_kind
    else if str_eq type (codes "ou")
    then ou_kind
    else if str_eq type (codes "cn")
    then cn_kind
    else if str_eq type (codes "uid")
    then uid_kind
    else if str_eq type (codes "o")
    then o_kind
    else other_kind

module _ (lower : Str → Str) where
  -- The value of the first attribute whose name is `objectclass` up to case.
  unfoldable pub object_class_of : List (Str × AttributeValue) → AttributeValue
  object_class_of [] = missing
  object_class_of ((name, value) ∷ attributes) =
      let rest = object_class_of attributes in
      if str_eq (lower name) (codes "objectclass") then value else rest

  unfoldable pub object_class_values : List (Str × AttributeValue) → List Str
  unfolding object_class_of
  object_class_values attributes = elim (object_class_of attributes) [
    | values vs ↦ trimmed_values vs
    | single v ↦ if is_empty (trim v) then [] else trim v ∷ []
    | missing ↦ []
  ]

  unfoldable pub object_class_node_kind : List Str → ObjectClassNodeKind
  unfolding kind_of_classes
  object_class_node_kind classes = kind_of_classes (map (λ v. lower (trim v)) classes)

  unfoldable pub is_dn_tree_leaf : DnTreeNode → Bool
  unfolding object_class_node_kind is_leaf_kind
  is_dn_tree_leaf (node s children) =
      (not (is_nil s.object_class) && is_leaf_kind (object_class_node_kind s.object_class))
      || (s.loaded && (is_none_left children && not s.truncated))

  unfoldable pub can_expand_dn_tree_node : DnTreeNode → Bool
  unfolding is_dn_tree_leaf
  can_expand_dn_tree_node n = not (is_dn_tree_leaf n)

  -- The type of the first RDN; empty where it has none.
  unfoldable pub rdn_type : Str → Str
  unfolding before_equals split_first_dn_rdn
  rdn_type dn = elim (before_equals ((split_first_dn_rdn dn).rdn)) [
    | none ↦ []
    | some [] ↦ []
    | some (c ∷ t) ↦ lower (trim (c ∷ t))
  ]

  unfoldable pub dn_node_kind : Str → Str → DnNodeKind
  unfolding rdn_type kind_of_type
  dn_node_kind dn base_dn =
      if not (is_empty base_dn)
        && (not (is_empty (lower (trim dn))) && str_eq (lower (trim dn)) (lower (trim base_dn)))
      then root_kind
      else kind_of_type (rdn_type dn)

  unfoldable pub group_rank : Str → ℕ
  unfolding rdn_type
  group_rank dn =
      if str_eq (rdn_type dn) (codes "ou")
      then 0
      else if str_eq (rdn_type dn) (codes "cn")
      then 1
      else 2

unfoldable pub is_fetch_truncated : ℕ → ℕ → Bool
is_fetch_truncated fetched_count page = leb page fetched_count

unfoldable pub next_fetch_limit : ℕ → ℕ → ℕ
next_fetch_limit loaded_count page = loaded_count + page

abbrev pub or_else : Option ℕ → ℕ → ℕ
or_else none d = d
or_else (some n) d = n

unfoldable pub child_badge_text : (ℕ → Str) → NodeState → ℕ → Str
child_badge_text print s loaded_count =
    if s.truncated
    then print loaded_count ++ codes "+"
    else print (or_else s.child_count loaded_count)

pub record DnTreeRow : Type 0 where
  pub state : NodeState
  pub depth : ℕ

unfoldable mutual
  pub walk : DnTreeNode → ℕ → List DnTreeRow
  walk (node s children) depth =
      let below = walk_children children (depth + 1) in
      record { state = s; depth = depth } ∷ (if s.expanded then below else [])

  pub walk_children : DnTreeNodes → ℕ → List DnTreeRow
  walk_children leaf_end depth = []
  walk_children (child n ns) depth = walk n depth ++ walk_children ns depth

unfoldable pub flatten_dn_tree : Option DnTreeNode → List DnTreeRow
unfolding walk
flatten_dn_tree none = []
flatten_dn_tree (some root) = walk root 0

pub data FocusKey : Type 0 where
  home end arrow_down arrow_up other_key : FocusKey

-- The step of an arrow, for an index below the count: `Math.max(currentIndex - 1, 0)`, where -1 is
-- `none`, and `Math.min(currentIndex + 1, count - 1)`. The other clamp changes neither.
abbrev pub before : ℕ → Option ℕ
before zero = none
before (suc i) = some i

abbrev pub max_zero : Option ℕ → Option ℕ
max_zero none = some 0
max_zero (some i) = some i

abbrev pub step_up : ℕ → Option ℕ
step_up i = max_zero (before i)

abbrev pub step_down : ℕ → ℕ → Option ℕ
step_down count i = some (if ltb (i + 1) count then i + 1 else count - 1)

unfoldable pub arrow_index : ℕ → Option ℕ → FocusKey → Option ℕ
arrow_index count none arrow_down = some 0
arrow_index count none arrow_up = some (count - 1)
arrow_index count (some i) arrow_down = if leb count i then some 0 else step_down count i
arrow_index count (some i) arrow_up = if leb count i then some (count - 1) else step_up i
arrow_index count i _ = none

-- An index of -1, given or returned, is `none`.
unfoldable pub next_tree_focus_index : ℕ → Option ℕ → FocusKey → Option ℕ
unfolding arrow_index
next_tree_focus_index zero i key = none
next_tree_focus_index (suc n) i home = some 0
next_tree_focus_index (suc n) i end = some n
next_tree_focus_index (suc n) i key = arrow_index (suc n) i key

pub data Sign : Type 0 where
  below same above : Sign

module _ (lower : Str → Str) (collate : Str → Str → Sign) where
  unfoldable pub compare_dn_for_tree : Str → Str → Sign
  unfolding group_rank
  compare_dn_for_tree left right =
      if ltb (group_rank lower left) (group_rank lower right)
      then below
      else if ltb (group_rank lower right) (group_rank lower left)
      then above
      else collate left right
