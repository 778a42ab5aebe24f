-- ===== src/Detail/Recent.antt =====
-- The cache of frontend/src/lib/useEntryDetail.ts is the recent end of its history.
use dbx_plugin_ldap.Base.{
  ℕ, suc, ◌-◌, ◌≤◌, ◌≡◌, ◌⊎◌, inl, inr, refl, sym, ap, ◌∙◌, false, none, some, List, [], ◌∷◌, ◌++◌,
  append_assoc, arith, length, drop, length-append, drop-length_append, All, Str, str_eq, ltb,
  if◌then◌else◌, Bool-cases, Option-cases,
}
use mathlib.Core.Path.{subst}
use dbx_plugin_ldap.Detail.Cache.{get, delete, insert, drop_oldest, lru_set, lru_touch}
use dbx_plugin_ldap.Detail.Lru.{
  Use, write, touch, used, run, recent, moved, history, get-none, delete_absent, delete-append_left,
  delete-append_right, older_absent, AreDistinct, moved_key-AreDistinct,
}

module _ {V : Type 0} where
  -- The history as what was evicted and the cache.
  record Split (limit : ℕ) (all_used cache : List (Str × V)) : Type 0 where
    older : List (Str × V)
    whole : all_used ≡ older ++ cache
    small : length cache ≤ limit
    full : (older ≡ []) ⊎ (length cache ≡ limit)
    distinct : AreDistinct all_used

  Split-recent :
      (limit : ℕ) (all_used cache : List (Str × V))
      → Split limit all_used cache
      → recent limit all_used ≡ cache
  Split-recent limit all_used cache s = elim s.full [
    | inl e ↦
        let same : all_used ≡ cache = s.whole ∙ ap (λ o. o ++ cache) e in
        let small = s.small in
        let nothing : length cache - limit ≡ 0 = omega arith in
        ap (λ xs. drop (length xs - limit) xs) same ∙ ap (λ n. drop n cache) nothing
    | inr e ↦
        ap (λ xs. drop (length xs - limit) xs) s.whole
        ∙ ap (λ n. drop n (s.older ++ cache)) (omega (arith, length-append s.older cache))
        ∙ drop-length_append s.older cache
  ]

  length-insert :
      (key : Str) (value : V) (kvs : List (Str × V))
      → length (insert key value kvs) ≡ suc (length kvs)
  length-insert key value kvs = omega (arith, length-append kvs ((key, value) ∷ []))

  length-delete :
      (key : Str) (value : V) (kvs : List (Str × V))
      → get key kvs ≡ some value
      → suc (length (delete key kvs)) ≡ length kvs
  unfolding get delete
  length-delete key value [] h = absurd (cc)
  length-delete key value ((k, v) ∷ kvs) h = elim (Bool-cases (str_eq k key)) [
    | inl e ↦ rw e refl
    | inr e ↦ rw e (ap suc (length-delete key value kvs (ground (arith, h))))
  ]

  -- A key of the cache moves to the end.
  Split-hit :
      (limit : ℕ) (all_used cache : List (Str × V)) (key : Str) (value old : V)
      → Split limit all_used cache
      → get key cache ≡ some old
      → Split limit (insert key value (delete key all_used)) (insert key value (delete key cache))
  Split-hit limit all_used cache key value old s h =
      let absent = older_absent key old s.older cache (subst AreDistinct s.whole s.distinct) h in
      let shorter = length-delete key old cache h in
      let longer = length-insert key value (delete key cache) in
      let small = s.small in
      record {
        older = s.older;
        whole =
            ap (λ xs. insert key value (delete key xs)) s.whole
            ∙ ap (insert key value) (delete-append_right key s.older cache absent)
            ∙ append_assoc s.older (delete key cache) ((key, value) ∷ []);
        small = omega arith;
        full = elim s.full [ inl e ↦ inl e | inr e ↦ inr (omega arith) ];
        distinct = moved_key-AreDistinct key value all_used s.distinct;
      }

  set_absent :
      (limit : ℕ) (cache : List (Str × V)) (key : Str) (value : V)
      → All (λ kv. str_eq kv.0 key ≡ false) cache
      → lru_set cache key value limit ≡ (
          if ltb limit (length (insert key value cache))
          then drop_oldest (insert key value cache)
          else insert key value cache)
  unfolding lru_set
  set_absent limit cache key value h = rw (delete_absent key cache h) refl

  set_present :
      (limit : ℕ) (cache : List (Str × V)) (key : Str) (value old : V)
      → get key cache ≡ some old
      → length cache ≤ limit
      → lru_set cache key value limit ≡ insert key value (delete key cache)
  unfolding lru_set
  set_present limit cache key value old e h =
      let fits : ltb limit (length (insert key value (delete key cache))) ≡ false =
        ground (arith, length-insert key value (delete key cache), length-delete key old cache e) in
      rw fits refl

  delete_nil : (key : Str) (kvs : List (Str × V)) → kvs ≡ [] → delete key kvs ≡ []
  unfolding delete
  delete_nil key kvs e = rw e refl

  Split-oldest :
      (limit : ℕ) (all_used older next : List (Str × V))
      → all_used ≡ older ++ next
      → length next ≡ suc limit
      → AreDistinct all_used
      → Split limit all_used (drop_oldest next)
  Split-oldest limit all_used older [] e l d = absurd (omega arith)
  Split-oldest limit all_used older (kv ∷ next) e l d = record {
    older = older ++ kv ∷ [];
    whole = e ∙ sym (append_assoc older (kv ∷ []) next);
    small = omega arith;
    full = inr (omega arith);
    distinct = d;
  }

  -- Writing a key that is not in the cache.
  Split-miss :
      (limit : ℕ) (all_used cache : List (Str × V)) (key : Str) (value : V)
      → Split limit all_used cache
      → get key cache ≡ none
      → Split limit (insert key value (delete key all_used)) (lru_set cache key value limit)
  unfolding lru_set
  Split-miss limit all_used cache key value s h =
      let absent = get-none key cache h in
      let whole : insert key value (delete key all_used)
          ≡ delete key s.older ++ insert key value cache =
        ap (λ xs. insert key value (delete key xs)) s.whole
        ∙ ap (insert key value) (delete-append_left key s.older cache absent)
        ∙ append_assoc (delete key s.older) cache ((key, value) ∷ []) in
      let next = set_absent limit cache key value absent in
      let small = s.small in
      elim (Bool-cases (ltb limit (length (insert key value cache)))) [
        | inl e ↦
            subst (Split limit (insert key value (delete key all_used))) (sym (next ∙ rw e refl)) (
              Split-oldest limit (insert key value (delete key all_used)) (delete key s.older)
                (insert key value cache) whole (ground (arith, length-insert key value cache))
                (moved_key-AreDistinct key value all_used s.distinct))
        | inr e ↦
            subst (Split limit (insert key value (delete key all_used))) (sym (next ∙ rw e refl))
              (record {
                older = delete key s.older;
                whole = whole;
                small = ground arith;
                full = elim s.full [
                  | inl f ↦ inl (delete_nil key s.older f)
                  | inr f ↦ absurd (ground (arith, length-insert key value cache))
                ];
                distinct = moved_key-AreDistinct key value all_used s.distinct;
              })
      ]

  Split-used :
      (limit : ℕ) (all_used cache : List (Str × V)) (u : Use V)
      → Split limit all_used cache
      → Split limit (moved limit all_used u) (used limit cache u)
  unfolding lru_set lru_touch
  Split-used limit all_used cache (write key value) s = elim (Option-cases (get key cache)) [
    | inl e ↦ Split-miss limit all_used cache key value s e
    | inr (old, e) ↦
        subst (Split limit (insert key value (delete key all_used)))
          (sym (set_present limit cache key value old e s.small))
          (Split-hit limit all_used cache key value old s e)
  ]
  Split-used limit all_used cache (touch key) s =
      let end = Split-recent limit all_used cache s in
      elim (Option-cases (get key cache)) [
        | inl e ↦
            let miss : get key (recent limit all_used) ≡ none = ap (get key) end ∙ e in
            rw (moved, lru_touch, miss, e) s
        | inr (old, e) ↦
            let hit : get key (recent limit all_used) ≡ some old = ap (get key) end ∙ e in
            rw (moved, lru_touch, hit, e) (Split-hit limit all_used cache key old old s e)
      ]

  Split-run :
      (limit : ℕ) (uses : List (Use V)) (all_used cache : List (Str × V))
      → Split limit all_used cache
      → Split limit (history limit all_used uses) (run limit cache uses)
  Split-run limit [] all_used cache s = s
  Split-run limit (u ∷ uses) all_used cache s =
      Split-run limit uses _ _ (Split-used limit all_used cache u s)

  -- After any uses from the empty cache, the cache is the recent end of the history, as far as the
  -- limit goes, and it holds no key twice and never more than the limit.
  pub run-recent :
      (limit : ℕ) (uses : List (Use V))
      → (run limit [] uses ≡ recent limit (history limit [] uses))
        × (length (run limit [] uses) ≤ limit)
        × AreDistinct (history limit [] uses)
  run-recent limit uses =
      let s = Split-run limit uses [] [] (record {
        older = [];
        whole = refl;
        small = omega arith;
        full = inl refl;
        distinct = tt;
      }) in
      (sym (Split-recent limit _ _ s), s.small, s.distinct)
