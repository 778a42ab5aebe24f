-- ===== src/Detail/Cache.antt =====
-- The cache of frontend/src/lib/useEntryDetail.ts: a JavaScript `Map` as the list of its keys and
-- values in the order of their insertion.
use dbx_plugin_ldap.Base.{
  ℕ, Option, none, some, List, [], ◌∷◌, ◌++◌, length, Str, str_eq, ltb, if◌then◌else◌,
}

module _ {ℓ} {V : Type ℓ} where
  -- `cache.get(key)`.
  unfoldable pub get : Str → List (Str × V) → Option V
  get key [] = none
  get key ((k, v) ∷ cache) = let rest = get key cache in if str_eq k key then some v else rest

  -- `cache.delete(key)`.
  unfoldable pub delete : Str → List (Str × V) → List (Str × V)
  delete key [] = []
  delete key ((k, v) ∷ cache) =
      let rest = delete key cache in if str_eq k key then cache else (k, v) ∷ rest

  -- `cache.set(key, value)`, where the key is not there.
  abbrev pub insert : Str → V → List (Str × V) → List (Str × V)
  insert key value cache = cache ++ (key, value) ∷ []

  -- Deleting the oldest key.
  abbrev pub drop_oldest : List (Str × V) → List (Str × V)
  drop_oldest [] = []
  drop_oldest (kv ∷ cache) = cache

  unfoldable pub lru_set : List (Str × V) → Str → V → ℕ → List (Str × V)
  unfolding delete
  lru_set cache key value limit =
      let next = insert key value (delete key cache) in
      if ltb limit (length next) then drop_oldest next else next

  unfoldable pub lru_touch : List (Str × V) → Str → List (Str × V)
  unfolding get delete
  lru_touch cache key = elim (get key cache) [
    | none ↦ cache
    | some value ↦ insert key value (delete key cache)
  ]
