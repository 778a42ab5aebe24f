-- ===== src/Export/Columns.antt =====
-- The columns that `extractEntryAttributeNames` of frontend/src/lib/ldapExporter.ts finds.
use dbx_plugin_ldap.Base.{
  ◌≡◌, inl, inr, refl, sym, ◌∙◌, true, false, ◌||◌, List, [], ◌∷◌, ◌++◌, append-nil, append_assoc,
  arith, All, All-imp, Str, str_eq_refl, if◌then◌else◌, Bool-cases,
}
use mathlib.Core.Path.{subst}
use dbx_plugin_ldap.Export.{
  AttributeMap, LdapExportEntry, get_attribute_map, is_seen, collect_names, collect_all,
  extract_entry_attribute_names,
}

module _ (lower : Str → Str) where
  -- No name stands among those before it, in any case.
  abbrev pub AreNew : List Str → List Str → Type 0
  AreNew before [] = Unit
  AreNew before (name ∷ names) =
      (is_seen lower name before ≡ false) × AreNew (before ++ name ∷ []) names

  is_seen-append :
      (n : Str) (xs ys : List Str)
      → is_seen lower n (xs ++ ys) ≡ (is_seen lower n xs || is_seen lower n ys)
  is_seen-append n [] ys = refl
  is_seen-append n (x ∷ xs) ys = ground (arith, is_seen-append n xs ys)

  AreNew-append :
      (before xs : List Str) (n : Str)
      → AreNew before xs
      → is_seen lower n (before ++ xs) ≡ false
      → AreNew before (xs ++ n ∷ [])
  AreNew-append before [] n h e = (subst (λ b. is_seen lower n b ≡ false) (append-nil before) e, tt)
  AreNew-append before (x ∷ xs) n (p, h) e = (
    p,
    AreNew-append (before ++ x ∷ []) xs n h
        (subst (λ b. is_seen lower n b ≡ false) (sym (append_assoc before (x ∷ []) xs)) e),
  )

  step_seen :
      (n key : Str) (ordered : List Str)
      → is_seen lower n ordered ≡ true
      → is_seen lower n (if is_seen lower key ordered then ordered else ordered ++ key ∷ []) ≡ true
  step_seen n key ordered h = elim (Bool-cases (is_seen lower key ordered)) [
    | inl e ↦ rw e h
    | inr e ↦ rw e (is_seen-append n ordered (key ∷ []) ∙ ground arith)
  ]

  step_own :
      (key : Str) (ordered : List Str)
      → is_seen lower key (if is_seen lower key ordered then ordered else ordered ++ key ∷ [])
        ≡ true
  step_own key ordered = elim (Bool-cases (is_seen lower key ordered)) [
    | inl e ↦ rw e e
    | inr e ↦ rw e (is_seen-append key ordered (key ∷ []) ∙ ground (arith, str_eq_refl (lower key)))
  ]

  collect_names-seen :
      (n : Str) (attrs : AttributeMap) (ordered : List Str)
      → is_seen lower n ordered ≡ true
      → is_seen lower n (collect_names lower attrs ordered) ≡ true
  unfolding collect_names
  collect_names-seen n [] ordered h = h
  collect_names-seen n ((key, raw) ∷ attrs) ordered h =
      collect_names-seen n attrs _ (step_seen n key ordered h)

  collect_names-All :
      (attrs : AttributeMap) (ordered : List Str)
      → All (λ a. is_seen lower a.0 (collect_names lower attrs ordered) ≡ true) attrs
  unfolding collect_names
  collect_names-All [] ordered = tt
  collect_names-All ((key, raw) ∷ attrs) ordered =
      (collect_names-seen key attrs _ (step_own key ordered), collect_names-All attrs _)

  collect_names-AreNew :
      (attrs : AttributeMap) (ordered : List Str)
      → AreNew [] ordered
      → AreNew [] (collect_names lower attrs ordered)
  unfolding collect_names
  collect_names-AreNew [] ordered h = h
  collect_names-AreNew ((key, raw) ∷ attrs) ordered h =
      elim (Bool-cases (is_seen lower key ordered)) [
        | inl e ↦ rw e (collect_names-AreNew attrs ordered h)
        | inr e ↦
            rw e
              (collect_names-AreNew attrs (ordered ++ key ∷ []) (AreNew-append [] ordered key h e))
      ]

  collect_all-seen :
      (n : Str) (entries : List LdapExportEntry) (ordered : List Str)
      → is_seen lower n ordered ≡ true
      → is_seen lower n (collect_all lower entries ordered) ≡ true
  unfolding collect_all
  collect_all-seen n [] ordered h = h
  collect_all-seen n (entry ∷ entries) ordered h =
      collect_all-seen n entries _ (collect_names-seen n (get_attribute_map entry) ordered h)

  -- Each attribute of each entry has a column.
  abbrev pub AreCovered : List Str → List LdapExportEntry → Type 0
  AreCovered names entries =
      All (λ entry. All (λ a. is_seen lower a.0 names ≡ true) (get_attribute_map entry)) entries

  collect_all-AreCovered :
      (entries : List LdapExportEntry) (ordered : List Str)
      → AreCovered (collect_all lower entries ordered) entries
  unfolding collect_all
  collect_all-AreCovered [] ordered = tt
  collect_all-AreCovered (entry ∷ entries) ordered =
      let attrs = get_attribute_map entry in
      let next = collect_names lower attrs ordered in
      (
        All-imp (λ a. is_seen lower a.0 next ≡ true)
            (λ a. is_seen lower a.0 (collect_all lower entries next) ≡ true)
            (λ a h. collect_all-seen a.0 entries next h) attrs (collect_names-All attrs ordered),
        collect_all-AreCovered entries next,
      )

  collect_all-AreNew :
      (entries : List LdapExportEntry) (ordered : List Str)
      → AreNew [] ordered
      → AreNew [] (collect_all lower entries ordered)
  unfolding collect_all
  collect_all-AreNew [] ordered h = h
  collect_all-AreNew (entry ∷ entries) ordered h =
      collect_all-AreNew entries _ (collect_names-AreNew (get_attribute_map entry) ordered h)

  -- The columns have a name for each attribute of each entry, in some case, and no two columns have
  -- the same name in lower case.
  pub extract_entry_attribute_names-AreCovered :
      (entries : List LdapExportEntry)
      → AreCovered (extract_entry_attribute_names lower entries) entries
        × AreNew [] (extract_entry_attribute_names lower entries)
  unfolding extract_entry_attribute_names
  extract_entry_attribute_names-AreCovered entries =
      (collect_all-AreCovered entries [], collect_all-AreNew entries [] tt)
