-- ===== src/Cache/Deletion.antt =====
-- DEL with several keys, and `cache_invalidate_pattern` of backend/cache/src/cache.rs. What SCAN finds,
-- page by page, is a list: a page has keys, has none, or fails.
use fullstackhex.Base.{
  ℕ, ◌+◌, ◌≡◌, refl, ap, ◌∙◌, length-append, Bool, true, false, inl, inr, Bool-cases, Text, codes,
  List, [], ◌∷◌, ◌++◌, length, Option, none, text_eq, text_eq_refl, text_eq_iff, if◌then◌else◌,
  Result, ok, err, arith,
}
use fullstackhex.Base.Exec.{pure, throw, ◌>>◌}
use fullstackhex.Domain.Errors.{command_failed}
use fullstackhex.Cache.Redis.{Redis, Reply, Entry, has_member}
use fullstackhex.Cache.Client.{World, CacheM, call, make_key}

module _ (R : Redis) where
  open R use {Db, lookup, del}

  abbrev pub del_all : List Text → Db → Db
  del_all [] d = d
  del_all (k ∷ ks) d = del_all ks (del k d)

  -- DEL wants a key at least.
  abbrev pub del_reply : List Text → Db → Reply (Unit {0}) × Db
  del_reply [] d = (err (codes "ERR wrong number of arguments for 'del' command"), d)
  del_reply (k ∷ ks) d = (ok tt, del_all (k ∷ ks) d)

  -- The loop over the pages, with the count so far.
  unfoldable pub invalidate_pages : List (Result Text (List Text)) → ℕ → CacheM R ℕ
  invalidate_pages [] count = pure count
  invalidate_pages (err e ∷ pages) count = throw (command_failed e)
  invalidate_pages (ok [] ∷ pages) count = invalidate_pages pages count
  invalidate_pages (ok (k ∷ ks) ∷ pages) count = do
    call R (del_reply (k ∷ ks))
    invalidate_pages pages (count + length (k ∷ ks))

  -- `scan` gives the pages for a full pattern.
  unfoldable pub cache_invalidate_pattern :
      (Text → List (Result Text (List Text))) → Text → Text → Text → CacheM R ℕ
  unfolding invalidate_pages
  cache_invalidate_pattern scan prefix namespace pattern =
      invalidate_pages (scan (make_key prefix namespace pattern)) 0

  same_none : (b : Bool) → ◌≡◌ {A = Option Entry} (if b then none else none) none
  same_none true = refl
  same_none false = refl

  gone-del_all :
      (k : Text) (ks : List Text) (d : Db) → lookup d k ≡ none → lookup (del_all ks d) k ≡ none
  gone-del_all k [] d h = h
  gone-del_all k (j ∷ ks) d h =
      gone-del_all k ks (del j d) (rw (R.lookup-del j d k, h) (same_none (text_eq j k)))

  pub del_all-gone :
      (k : Text) (ks : List Text) (d : Db) → has_member k ks ≡ true → lookup (del_all ks d) k ≡ none
  del_all-gone k [] d h = absurd (cc h)
  del_all-gone k (j ∷ ks) d h = elim (Bool-cases (text_eq k j)) [
    | inl e ↦
        gone-del_all k ks (del j d)
          (rw (R.lookup-del j d k, (text_eq_iff k j).0 e, text_eq_refl j) refl)
    | inr e ↦ del_all-gone k ks (del j d) (rw e at h)
  ]

  kept-del_all :
      (k : Text) (ks : List Text) (d : Db)
      → has_member k ks ≡ false
      → lookup (del_all ks d) k ≡ lookup d k
  kept-del_all k [] d h = refl
  kept-del_all k (j ∷ ks) d h = elim (Bool-cases (text_eq j k)) [
    | inl e ↦ absurd (cc (rw ((text_eq_iff j k).0 e, text_eq_refl k) at h))
    | inr e ↦ kept-del_all k ks (del j d) (ground (arith, h)) ∙ rw (R.lookup-del j d k, e) refl
  ]

  -- All the keys of the pages, where no page fails.
  abbrev pub all_keys : List (List Text) → List Text
  all_keys [] = []
  all_keys (ks ∷ pages) = ks ++ all_keys pages

  abbrev pub found : List (List Text) → List (Result Text (List Text))
  found [] = []
  found (ks ∷ pages) = ok ks ∷ found pages

  del_all-append : (ks js : List Text) (d : Db) → del_all (ks ++ js) d ≡ del_all js (del_all ks d)
  del_all-append [] js d = refl
  del_all-append (k ∷ ks) js d = del_all-append ks js (del k d)

  invalidate_pages-quiet :
      (pages : List (List Text)) (count : ℕ) (w : World R)
      → w.net ≡ []
      → invalidate_pages (found pages) count w
        ≡ (ok (count + length (all_keys pages)), record w { db = del_all (all_keys pages) w.db })
  unfolding invalidate_pages
  invalidate_pages-quiet [] count w q = ap (λ n. (ok n, w)) (omega arith)
  invalidate_pages-quiet ([] ∷ pages) count w q = invalidate_pages-quiet pages count w q
  invalidate_pages-quiet ((k ∷ ks) ∷ pages) count w q =
      let v : World R = record w { db = del_all (k ∷ ks) w.db; net = [] } in
      rw (q, del_all-append ks (all_keys pages) (del k w.db), length-append ks (all_keys pages))
        (invalidate_pages-quiet pages (count + length (k ∷ ks)) v refl
          ∙ ap (λ n. (ok n, record v { db = del_all (all_keys pages) v.db })) (omega arith))

  -- On a quiet network, where SCAN fails on no page: every key that SCAN found is gone afterwards,
  -- every other key has the entry that it had, and the count returned is that of the keys found.
  pub cache_invalidate_pattern_exact :
      (scan : Text → List (Result Text (List Text))) (prefix namespace pattern : Text)
      (pages : List (List Text)) (w : World R) (key : Text)
      → w.net ≡ []
      → scan (make_key prefix namespace pattern) ≡ found pages
      → ((cache_invalidate_pattern scan prefix namespace pattern w).0
          ≡ ok (length (all_keys pages)))
        × (lookup (cache_invalidate_pattern scan prefix namespace pattern w).1.db key
            ≡ (if has_member key (all_keys pages) then none else lookup w.db key))
  unfolding cache_invalidate_pattern
  cache_invalidate_pattern_exact scan prefix namespace pattern pages w key q e =
      rw (e, invalidate_pages-quiet pages 0 w q)
        (
          ap ok (omega arith),
          elim (Bool-cases (has_member key (all_keys pages))) [
            | inl m ↦ rw m (del_all-gone key (all_keys pages) w.db m)
            | inr m ↦ rw m (kept-del_all key (all_keys pages) w.db m)
          ],
        )
