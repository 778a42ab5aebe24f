-- ===== src/Entry/Applied.antt =====
-- The changes of frontend/src/lib/ldapDiff.ts, made to the entry before, give the entry after.
use dbx_plugin_ldap.Base.{
  ◌≡◌, false, Option, none, some, List, [], ◌∷◌, Str, str_eq, join, if◌then◌else◌,
}
use dbx_plugin_ldap.Entry.{
  Attribute, Operation, add, replace, delete, LdapModifyChange, change_of, pushed, has_text,
  first_of,
}

-- The values of an attribute as one text, a value in a line; `none` where there is no attribute.
abbrev pub values_of : Option Attribute → Option Str
values_of none = none
values_of (some a) = some (join (0x0a ∷ []) a.values)

-- What a change leaves behind.
abbrev pub left_by : Operation → List Str → Option Str
left_by add values = some (join (0x0a ∷ []) values)
left_by replace values = some (join (0x0a ∷ []) values)
left_by delete values = none

module _ (lower : Str → Str) where
  -- The values at a lowercase name, in an entry.
  abbrev pub view : List Attribute → Str → Option Str
  view attributes key = values_of (first_of lower key attributes)

  -- A directory that makes the changes one after the other, by the lowercase names of attributes.
  unfoldable pub apply_changes : List LdapModifyChange → (Str → Option Str) → Str → Option Str
  apply_changes [] state key = state key
  apply_changes (c ∷ changes) state key =
      apply_changes changes
        (λ name.
          if str_eq (lower c.attribute) name then left_by c.operation c.values else state name)
        key

  lowered : List Str → List Str
  lowered [] = []
  lowered (n ∷ names) = lower n ∷ lowered names

  -- An attribute found at a lowercase name has that name.
  abbrev IsNamed : Str → Option Attribute → Type 0
  IsNamed key none = Unit
  IsNamed key (some a) = lower a.name ≡ key

  abbrev written : Str → Option Str → (Str → Option Str) → Str → Option Str
  written attribute value state name = if str_eq (lower attribute) name then value else state name

  module _ (before after : List Attribute) where
    -- A state after the change of one key: the values at that key are the new ones, the others stay.
    abbrev Moved :
        Str
        → List LdapModifyChange
        → (Str → Option Str)
        → Option Attribute
        → Option Attribute
        → Type 0
    Moved key changes state b a =
        (next : Str → Option Str) × (apply_changes (pushed (change_of key b a) changes) state
          ≡ apply_changes changes next)
        × (next (lower key) ≡ values_of a)
        × ((name : Str) → str_eq (lower key) name ≡ false → next name ≡ state name)

    -- What a state holds after the changes of the keys that are not seen yet.
    abbrev outcome : List Str → List Str → (Str → Option Str) → Str → Option Str
    outcome seen names state name =
        if has_text name seen
        then state name
        else if has_text name (lowered names)
        then view after name
        else state name
