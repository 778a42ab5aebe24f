-- ===== src/Detail/Lru.antt =====
-- `lruSet` and `lruTouch` of frontend/src/lib/useEntryDetail.ts keep the keys that were used last.
use dbx_plugin_ldap.Base.{
  ℕ, ◌-◌, ◌≡◌, inl, inr, refl, ap, false, none, some, List, [], ◌∷◌, ◌++◌, arith, length, drop, All,
  All-append, All-append_right, Str, str_eq, str_eq_refl, str_eq→eq, Bool-cases,
}
use mathlib.Core.Path.{subst}
use dbx_plugin_ldap.Detail.Cache.{get, delete, insert, lru_set, lru_touch}

pub data Use (V : Type 0) : Type 0 where
  write : Str → V → Use V
  touch : Str → Use V

str_eq_sym : (s t : Str) → str_eq s t ≡ false → str_eq t s ≡ false
str_eq_sym s t h = elim (Bool-cases (str_eq t s)) [
  | inl e ↦ absurd (cc (h, str_eq_refl s, ap (str_eq s) (str_eq→eq t s e)))
  | inr e ↦ e
]

module _ {V : Type 0} where
  abbrev pub used : ℕ → List (Str × V) → Use V → List (Str × V)
  used limit cache (write key value) = lru_set cache key value limit
  used limit cache (touch key) = lru_touch cache key

  abbrev pub run : ℕ → List (Str × V) → List (Use V) → List (Str × V)
  run limit cache [] = cache
  run limit cache (u ∷ uses) = run limit (used limit cache u) uses

  -- The last `limit` elements.
  abbrev pub recent : ℕ → List (Str × V) → List (Str × V)
  recent limit all_used = drop (length all_used - limit) all_used

  -- Every key that was ever written, the one used last at the end. A key that is touched counts as
  -- used if it is among the last `limit`.
  abbrev pub moved : ℕ → List (Str × V) → Use V → List (Str × V)
  moved limit all_used (write key value) = insert key value (delete key all_used)
  moved limit all_used (touch key) = elim (get key (recent limit all_used)) [
    | none ↦ all_used
    | some value ↦ insert key value (delete key all_used)
  ]

  abbrev pub history : ℕ → List (Str × V) → List (Use V) → List (Str × V)
  history limit all_used [] = all_used
  history limit all_used (u ∷ uses) = history limit (moved limit all_used u) uses

  abbrev pub AreDistinct : List (Str × V) → Type 0
  AreDistinct [] = Unit
  AreDistinct (kv ∷ kvs) = All (λ other. str_eq other.0 kv.0 ≡ false) kvs × AreDistinct kvs

  pub get-none :
      (key : Str) (kvs : List (Str × V))
      → get key kvs ≡ none
      → All (λ kv. str_eq kv.0 key ≡ false) kvs
  unfolding get
  get-none key [] h = tt
  get-none key ((k, v) ∷ kvs) h = elim (Bool-cases (str_eq k key)) [
    | inl e ↦ absurd (ground (arith, h))
    | inr e ↦ (e, get-none key kvs (ground (arith, h)))
  ]

  pub delete_absent :
      (key : Str) (kvs : List (Str × V))
      → All (λ kv. str_eq kv.0 key ≡ false) kvs
      → delete key kvs ≡ kvs
  unfolding delete
  delete_absent key [] h = refl
  delete_absent key ((k, v) ∷ kvs) (e, h) = rw e (ap (λ t. (k, v) ∷ t) (delete_absent key kvs h))

  pub delete-append_left :
      (key : Str) (older kvs : List (Str × V))
      → All (λ kv. str_eq kv.0 key ≡ false) kvs
      → delete key (older ++ kvs) ≡ delete key older ++ kvs
  unfolding delete
  delete-append_left key [] kvs h = delete_absent key kvs h
  delete-append_left key ((k, v) ∷ older) kvs h = elim (Bool-cases (str_eq k key)) [
    | inl e ↦ rw e refl
    | inr e ↦ rw e (ap (λ t. (k, v) ∷ t) (delete-append_left key older kvs h))
  ]

  pub delete-append_right :
      (key : Str) (older kvs : List (Str × V))
      → All (λ kv. str_eq kv.0 key ≡ false) older
      → delete key (older ++ kvs) ≡ older ++ delete key kvs
  unfolding delete
  delete-append_right key [] kvs h = refl
  delete-append_right key ((k, v) ∷ older) kvs (e, h) =
      rw e (ap (λ t. (k, v) ∷ t) (delete-append_right key older kvs h))

  get-All :
      (P : Str → Type 0) (key : Str) (value : V) (kvs : List (Str × V))
      → All (λ kv. P kv.0) kvs
      → get key kvs ≡ some value
      → P key
  unfolding get
  get-All P key value [] a h = absurd (cc)
  get-All P key value ((k, v) ∷ kvs) (p, a) h = elim (Bool-cases (str_eq k key)) [
    | inl e ↦ subst P (str_eq→eq k key e) p
    | inr e ↦ get-All P key value kvs a (ground (arith, h))
  ]

  pub older_absent :
      (key : Str) (value : V) (older kvs : List (Str × V))
      → AreDistinct (older ++ kvs)
      → get key kvs ≡ some value
      → All (λ kv. str_eq kv.0 key ≡ false) older
  older_absent key value [] kvs d h = tt
  older_absent key value ((k, v) ∷ older) kvs (a, d) h =
      let later = All-append_right (λ other. str_eq other.0 k ≡ false) older kvs a in
      let apart : str_eq key k ≡ false = get-All (λ j. str_eq j k ≡ false) key value kvs later h in
      (str_eq_sym key k apart, older_absent key value older kvs d h)

  delete-All :
      (P : Str × V → Type 0) (key : Str) (kvs : List (Str × V)) → All P kvs → All P (delete key kvs)
  unfolding delete
  delete-All P key [] a = tt
  delete-All P key ((k, v) ∷ kvs) (p, a) = elim (Bool-cases (str_eq k key)) [
    | inl e ↦ rw e a
    | inr e ↦ rw e (p, delete-All P key kvs a)
  ]

  delete-gone :
      (key : Str) (kvs : List (Str × V))
      → AreDistinct kvs
      → All (λ kv. str_eq kv.0 key ≡ false) (delete key kvs)
  unfolding delete
  delete-gone key [] d = tt
  delete-gone key ((k, v) ∷ kvs) (a, d) = elim (Bool-cases (str_eq k key)) [
    | inl e ↦ rw e (subst (λ j. All (λ other. str_eq other.0 j ≡ false) kvs) (str_eq→eq k key e) a)
    | inr e ↦ rw e (e, delete-gone key kvs d)
  ]

  insert-AreDistinct :
      (key : Str) (value : V) (kvs : List (Str × V))
      → AreDistinct kvs
      → All (λ kv. str_eq kv.0 key ≡ false) kvs
      → AreDistinct (insert key value kvs)
  insert-AreDistinct key value [] d h = (tt, tt)
  insert-AreDistinct key value ((k, v) ∷ kvs) (a, d) (e, h) = (
    All-append (λ other. str_eq other.0 k ≡ false) kvs ((key, value) ∷ []) a
        (str_eq_sym k key e, tt),
    insert-AreDistinct key value kvs d h,
  )

  delete-AreDistinct :
      (key : Str) (kvs : List (Str × V)) → AreDistinct kvs → AreDistinct (delete key kvs)
  unfolding delete
  delete-AreDistinct key [] d = tt
  delete-AreDistinct key ((k, v) ∷ kvs) (a, d) = elim (Bool-cases (str_eq k key)) [
    | inl e ↦ rw e d
    | inr e ↦
        rw e
          (delete-All (λ other. str_eq other.0 k ≡ false) key kvs a, delete-AreDistinct key kvs d)
  ]

  pub moved_key-AreDistinct :
      (key : Str) (value : V) (kvs : List (Str × V))
      → AreDistinct kvs
      → AreDistinct (insert key value (delete key kvs))
  moved_key-AreDistinct key value kvs d =
      insert-AreDistinct key value (delete key kvs) (delete-AreDistinct key kvs d)
        (delete-gone key kvs d)
