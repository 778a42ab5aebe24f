-- ===== src/Ldif/RoundTrip.antt =====
-- `parseLdif` of frontend/src/lib/ldif.ts reads what `serializeEntriesToLdif` writes.
use dbx_plugin_ldap.Base.{
  ℕ, ◌<◌, ◌≡◌, refl, sym, ap, ◌∙◌, Bool, true, false, Option, none, some, List, [], ◌∷◌, ◌++◌,
  append-nil, append_assoc, arith, length, All, All-append, Str, codes, is_space, join, leb,
  if◌then◌else◌, lower_char,
}
use dbx_plugin_ldap.Ldif.{
  new_line, LdifEntry, LdifSerializeOptions, lf, fold_line, unfold_lines, unfold_from,
  serialize_entry, serialize_entries, serialize_entries_to_ldif,
}
use dbx_plugin_ldap.Ldif.Unfold.{IsInline, split_lines-join}
use dbx_plugin_ldap.Ldif.Attribute.{IsCodec}
use dbx_plugin_ldap.Ldif.Parse.{
  Progress, result, finish, no_progress, flush, is_version_line, parse_step, parse_lines,
  parse_ldif,
}
use dbx_plugin_ldap.Ldif.Reach.{
  Reaches, parse_lines-pushed, Wrote, Wrote-nil, Wrote-append, Wrote-blank, Wrote-fold_line,
  join-Lines,
}
use dbx_plugin_ldap.Ldif.Reading.{idle, reading, AreAttributes, >>=-cases, Wrote-entry}
use mathlib.Core.Path.{subst}
use mathlib.Core.Option.{some-injective}

abbrev pub AreEntries : List LdifEntry → Type 0
AreEntries entries = All (λ e. AreAttributes [] e.attributes) entries

-- The entries that are complete when the parser stops there.
abbrev Ends : Progress → List LdifEntry → Type 0
Ends q entries = flush q ≡ idle entries

module _ (encode decode : Str → Option Str) (codec : IsCodec encode decode) (w : ℕ)
    (pos : 0 < w) where
  Wrote-more :
      (es entries : List LdifEntry) (q : Progress) (lines : List Str)
      → AreEntries entries
      → Ends q es
      → serialize_entries encode true entries w ≡ some lines
      → (q' : Progress) × Wrote decode lines q q' × Ends q' (es ++ entries)
  unfolding serialize_entries flush
  Wrote-more es [] q lines a end h = (
    q,
    subst (λ ls. Wrote decode ls q q) (some-injective _ _ h) (Wrote-nil decode q),
    end ∙ ap idle (sym (append-nil es)),
  )
  Wrote-more es (entry ∷ entries) q lines (a, as') end h =
      let (own, e, f) = >>=-cases (serialize_entry encode entry w) _ lines h in
      let (more, e', f') = >>=-cases (serialize_entries encode true entries w) _ lines f in
      let first = Wrote-entry encode decode codec w pos es entry own a e in
      let at_entry = reading es entry.dn entry.attributes in
      let (q', rest, end') = Wrote-more (es ++ entry ∷ []) entries at_entry more as' refl e' in
      let blank : Wrote decode ([] ∷ []) q (idle es) =
        subst (Wrote decode ([] ∷ []) q) end (Wrote-blank decode q) in
      (
        q',
        subst (λ ls. Wrote decode ls q q') (some-injective _ _ f')
            (Wrote-append decode ([] ∷ own) more q at_entry q'
              (Wrote-append decode ([] ∷ []) own q (idle es) at_entry blank first) rest),
        end' ∙ ap idle (append_assoc es (entry ∷ []) entries),
      )

  Wrote-entries :
      (blank : Bool) (entries : List LdifEntry) (lines : List Str)
      → AreEntries entries
      → serialize_entries encode blank entries w ≡ some lines
      → (q : Progress) × Wrote decode lines no_progress q × Ends q entries
  unfolding serialize_entries flush
  Wrote-entries true entries lines a h = Wrote-more [] entries no_progress lines a refl h
  Wrote-entries false [] lines a h = Wrote-more [] [] no_progress lines a refl h
  Wrote-entries false (entry ∷ entries) lines (a, as') h =
      let (own, e, f) = >>=-cases (serialize_entry encode entry w) _ lines h in
      let (more, e', f') = >>=-cases (serialize_entries encode true entries w) _ lines f in
      let first = Wrote-entry encode decode codec w pos [] entry own a e in
      let (q', rest, end') =
        Wrote-more (entry ∷ []) entries (reading [] entry.dn entry.attributes) more as' refl e' in
      (
        q',
        subst (λ ls. Wrote decode ls no_progress q') (some-injective _ _ f')
            (Wrote-append decode own more no_progress _ q' first rest),
        end',
      )

colon-IsInline : All IsInline (codes "version: ")
colon-IsInline = ground arith

fold_line_whole : (line : Str) → fold_line line (length line) ≡ line
unfolding fold_line
fold_line_whole line =
    let short : leb (length line) (length line) ≡ true = ground arith in rw short refl

module _ (decode : Str → Option Str) where
  Wrote-version :
      (version : Str)
      → All IsInline version
      → Wrote decode ((codes "version: " ++ version) ∷ []) no_progress no_progress
  unfolding parse_step is_version_line lower_char is_space
  Wrote-version version inline =
      subst (λ l. Wrote decode (l ∷ []) no_progress no_progress)
        (fold_line_whole (codes "version: " ++ version))
        (Wrote-fold_line decode b'v' (codes "ersion: " ++ version)
          (length (codes "version: " ++ version)) no_progress no_progress (omega arith)
          (omega arith, omega arith)
          (All-append IsInline (codes "version: ") version colon-IsInline inline) (λ n. refl))

  parse_ldif_whole :
      (text : Str)
      → parse_ldif decode text ≡ finish (parse_lines decode (unfold_lines text) (some no_progress))
  unfolding parse_ldif unfold_lines parse_step flush new_line
  parse_ldif_whole [] = refl
  parse_ldif_whole (c ∷ s) = refl

  parse_lines_settled :
      (physical : List Str) (q : Progress)
      → Reaches decode physical no_progress q
      → parse_lines decode (unfold_from 0 none physical) (some no_progress) ≡ some q
  unfolding unfold_from parse_lines
  parse_lines_settled physical q reaches =
      let x = reaches 0 none no_progress [] refl in
      ap (λ ps. parse_lines decode (unfold_from 0 none ps) (some no_progress))
        (sym (append-nil physical))
      ∙ x.reads
      ∙ parse_lines-pushed decode x.waiting x.before []
      ∙ x.settles

  physical_result :
      (physical : List Str) (q : Progress)
      → All (All IsInline) physical
      → Reaches decode physical no_progress q
      → parse_ldif decode (join (lf ∷ []) physical) ≡ finish (some q)
  unfolding unfold_lines
  physical_result [] q inline reaches =
      unfold parse_ldif unfold_from parse_lines in ap finish (parse_lines_settled [] q reaches)
  physical_result (p ∷ ps) q inline reaches =
      parse_ldif_whole (join (lf ∷ []) (p ∷ ps))
      ∙ ap (λ ls. finish (parse_lines decode (unfold_from 0 none ls) (some no_progress)))
          (split_lines-join p ps inline)
      ∙ ap finish (parse_lines_settled (p ∷ ps) q reaches)

  -- The parser's result on joined lines whose reading is known.
  parse_ldif-join :
      (lines : List Str) (q : Progress)
      → Wrote decode lines no_progress q
      → parse_ldif decode (join (lf ∷ []) lines) ≡ finish (some q)
  parse_ldif-join lines q x =
      ap (parse_ldif decode) (join-Lines x.lines) ∙ physical_result x.physical q x.inline x.reaches

  with_version :
      (version : Str) (include : Bool) (lines : List Str) (q : Progress)
      → All IsInline version
      → Wrote decode lines no_progress q
      → parse_ldif decode
          (join (lf ∷ []) (if include then (codes "version: " ++ version) ∷ lines else lines))
        ≡ finish (some q)
  with_version version false lines q inline x = parse_ldif-join lines q x
  with_version version true lines q inline x =
      parse_ldif-join ((codes "version: " ++ version) ∷ lines) q (
        Wrote-append decode ((codes "version: " ++ version) ∷ []) lines no_progress no_progress q
          (Wrote-version version inline) x)

-- Writing entries to LDIF and parsing the text gives the entries back, with no error, for each
-- width of lines that is not 0, with and without the version line, where base64 is as the platform
-- has it, each attribute has a value and a name of its own that is an attribute description, is
-- not `dn` or `changetype` in any case and not one of the methods that every object has, and the
-- version has no line break.
pub parse_ldif-serialize_entries_to_ldif :
    (encode decode : Str → Option Str) (options : LdifSerializeOptions) (entries : List LdifEntry)
    (text : Str)
    → IsCodec encode decode
    → 0 < options.line_width
    → All IsInline options.version
    → AreEntries entries
    → serialize_entries_to_ldif encode entries options ≡ some text
    → parse_ldif decode text ≡ result entries []
unfolding serialize_entries_to_ldif
parse_ldif-serialize_entries_to_ldif encode decode options entries text codec pos inline a h =
    let w = options.line_width in
    let (lines, e, f) =
      >>=-cases (serialize_entries encode options.include_version entries w) _ text h in
    let (q, x, end) =
      Wrote-entries encode decode codec w pos options.include_version entries lines a e in
    ap (parse_ldif decode) (sym (some-injective _ _ f))
    ∙ with_version decode options.version options.include_version lines q inline x
    ∙ ap (λ p. result p.entries p.errors) end
