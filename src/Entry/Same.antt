-- ===== src/Entry/Same.antt =====
-- Laws of frontend/src/lib/stagedEntry.ts: chunks hold every name.
use dbx_plugin_ldap.Base.{
  ℕ, zero, suc, ◌≤◌, ◌<◌, ◌≡◌, refl, ap, ◌∙◌, List, [], ◌∷◌, ◌++◌, arith, length, take, drop,
  length-drop, take-append-drop, Str,
}
use dbx_plugin_ldap.Entry.{chunk_from, chunk_entry_attributes}

abbrev pub join_all : List (List Str) → List Str
join_all [] = []
join_all (c ∷ chunks) = c ++ join_all chunks

chunks_join :
    (rounds : ℕ) (names : List Str) (size : ℕ)
    → 0 < size
    → length names ≤ rounds
    → join_all (chunk_from rounds names size) ≡ names
unfolding chunk_from
chunks_join zero [] size s h = refl
chunks_join zero (n ∷ names) size s h = absurd (omega (arith, h))
chunks_join (suc rounds) [] size s h = refl
chunks_join (suc rounds) (n ∷ names) (suc size) s h =
    ap (λ t. n ∷ (take size names ++ t))
      (chunks_join rounds (drop size names) (suc size) s (omega (arith, h, length-drop size names)))
    ∙ ap (λ t. n ∷ t) (take-append-drop size names)
chunks_join (suc rounds) (n ∷ names) zero s h = absurd (omega (arith, s))

-- The batches of names hold every name, in order, where the size of a batch is not 0.
pub join_all-chunk_entry_attributes :
    (names : List Str) (size : ℕ) → 0 < size → join_all (chunk_entry_attributes names size) ≡ names
unfolding chunk_entry_attributes
join_all-chunk_entry_attributes names size s = chunks_join (length names) names size s (omega arith)
