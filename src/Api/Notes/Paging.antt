-- ===== src/Api/Notes/Paging.antt =====
-- backend/api/src/notes.rs: following the cursors of `list_notes` from page to page.
use mathlib.Core.List.{map-append}
use fullstackhex.Domain.Errors.{ApiError}
use fullstackhex.Base.{
  arith, ℕ, zero, suc, ◌+◌, ◌<◌, ◌^◌, ◌≡◌, true, false, Text, List, [], ◌∷◌, ◌++◌, append_assoc,
  Option, none, some, Result, ok, err, All, length, take, filter, map, ltb, refl, ap, sym, ◌∙◌, inl,
  inr, Bool-cases, ℤ, pos, negsuc, codes, ◌-◌, subst, take-all,
}
use fullstackhex.Api.Rows.{Row, Key, key, below, newest_first, after_cursor, owned, select_page}
use fullstackhex.Api.Rows.Order.{
  Descending, DistinctIds, newest_first-Descending, filter-Descending, filter-below, filter-and,
  All-newest_first, All-filter, All-middle,
}
use fullstackhex.Api.Cursor.{Libraries, encode_cursor, cursor_of}
use fullstackhex.Api.Notes.{
  Note, Page, Notes, list_notes, page_of, last_cursor, summary, clamp_limit, db_pool, cast_cursor,
}
use fullstackhex.Api.Notes.Cursor.{Lawful, decode-encode_cursor}

clamp_limit-pos : (n : ℤ) → (k : ℕ) × (clamp_limit n ≡ suc k)
unfolding clamp_limit
clamp_limit-pos (negsuc n) = (0, refl)
clamp_limit-pos (pos n) = elim (Bool-cases (ltb n 1)) [
  | inl e ↦ (0, rw e refl)
  | inr e ↦ elim (Bool-cases (ltb 100 n)) [
    | inl f ↦ (99, rw (e, f) refl)
    | inr f ↦ (n - 1, rw (e, f) (ground arith))
  ]
]

plus_one : (k : ℕ) → k + 1 ≡ suc k
plus_one k = omega arith

module _ {A : Type 0} where
  take-take : (k : ℕ) (xs : List A) → take k (take (suc k) xs) ≡ take k xs
  take-take zero xs = refl
  take-take (suc k) [] = refl
  take-take (suc k) (x ∷ xs) = ap (λ ys. x ∷ ys) (take-take k xs)

  -- The test for one row more sees the whole list.
  more-take : (k : ℕ) (xs : List A) → ltb k (length (take (suc k) xs)) ≡ ltb k (length xs)
  more-take zero [] = refl
  more-take zero (x ∷ xs) = ground arith
  more-take (suc k) [] = refl
  more-take (suc k) (x ∷ xs) = ground (arith, more-take k xs)

  -- A list longer than a page: the page, its last element, and what follows.
  split-page :
      (k : ℕ) (xs : List A)
      → suc k < length xs
      → (pre : List A) × (z : A) × (bs : List A) × (xs ≡ pre ++ z ∷ bs)
        × (take (suc k) xs ≡ pre ++ z ∷ [])
        × (length bs < length xs)
  split-page k [] h = absurd (omega (arith, h))
  split-page zero (x ∷ xs) h = ([], x, xs, refl, refl, omega arith)
  split-page (suc k) (x ∷ xs) h =
      let (pre, z, bs, e, t, l) = split-page k xs (omega (arith, h)) in
      (x ∷ pre, z, bs, ap (λ ys. x ∷ ys) e, ap (λ ys. x ∷ ys) t, omega (arith, l))

module _ (lib : Libraries) where
  page_of-take :
      (u : Text) (k : ℕ) (zs : List Row) → page_of lib u k (take (k + 1) zs) ≡ page_of lib u k zs
  unfolding page_of
  page_of-take u k zs = rw (plus_one k, take-take k zs, more-take k zs) refl

  last_cursor-map :
      (u : Text) (pre : List Row) (z : Row)
      → last_cursor lib (map (summary lib u) (pre ++ z ∷ []))
        ≡ some (encode_cursor lib z.created_at (lib.show_uuid z.id))
  unfolding last_cursor
  last_cursor-map u [] z = refl
  last_cursor-map u (a ∷ []) z = refl
  last_cursor-map u (a ∷ b ∷ pre) z = last_cursor-map u (b ∷ pre) z

  abbrev prepend : List Note → Option (List Note) → Option (List Note)
  prepend items none = none
  prepend items (some rest) = some (items ++ rest)

  abbrev turn :
      (Text → Notes → Option (List Note)) → List Note → Notes → Option Text → Option (List Note)
  turn ask items t none = some items
  turn ask items t (some c) = prepend items (ask c t)

  abbrev go_on :
      (Text → Notes → Option (List Note)) → Result ApiError Page × Notes → Option (List Note)
  go_on ask (err e, t) = none
  go_on ask (ok page, t) = turn ask page.items t page.next_cursor

  -- A client that asks for the first page and then for the page of each next cursor, with the
  -- number of requests it is ready to make; none when a request fails or the number is used up.
  abbrev pub follow : ℕ → Text → ℤ → Option Text → Notes → Option (List Note)
  follow zero u per_page cursor s = none
  follow (suc n) u per_page cursor s =
      go_on (λ c t. follow n u per_page (some c) t) (list_notes lib u cursor per_page s)

abbrev pub healthy : List Row → ℕ → (ℕ → ℕ) → Notes
healthy rows now fresh = record {
  rows = rows;
  queries = [];
  now = now;
  fresh = fresh;
  connected = true;
}

-- A time that a cursor can carry.
abbrev pub IsStamp : Libraries → Row → Type 0
IsStamp lib r = (r.created_at < 2 ^ 63) × (lib.is_time (pos r.created_at) ≡ true)

filter-true : (xs : List Row) → filter (λ r. true) xs ≡ xs
filter-true [] = refl
filter-true (x ∷ xs) = ap (λ ys. x ∷ ys) (filter-true xs)

module _ (lib : Libraries) (rows : List Row) (now : ℕ) (fresh : ℕ → ℕ) (user : Text) (u : ℕ)
    (per_page : ℤ) (known : lib.cast_uuid user ≡ some u) where
  abbrev pub mine : List Row
  mine = filter (owned u) (newest_first rows)

  select_page-mine :
      (k : Option Key) (n : ℕ) → select_page u k n rows ≡ take n (filter (after_cursor k) mine)
  unfolding select_page
  select_page-mine k n = ap (take n) (filter-and (owned u) (after_cursor k) (newest_first rows))

  list_notes-page :
      (cursor : Option Text) (k : Option Key)
      → cast_cursor lib
          (codes "failed to list notes")
          (cursor_of lib cursor)
          (healthy rows now fresh)
        ≡ (ok k, healthy rows now fresh)
      → list_notes lib user cursor per_page (healthy rows now fresh) ≡ (
        ok (page_of lib user (clamp_limit per_page) (filter (after_cursor k) mine)),
        healthy rows now fresh,
      )
  unfolding list_notes db_pool
  list_notes-page cursor k h =
      rw
        (
          known,
          h,
          select_page-mine k (clamp_limit per_page + 1),
          page_of-take lib user (clamp_limit per_page) (filter (after_cursor k) mine),
        )
        refl

  abbrev here : Notes
  here = healthy rows now fresh

  abbrev cursor_at : Row → Text
  cursor_at z = encode_cursor lib z.created_at (lib.show_uuid z.id)

  -- A cursor and the position that it stands for.
  abbrev Resolves : Option Text → Option Key → Type 0
  Resolves cursor k =
      cast_cursor lib (codes "failed to list notes") (cursor_of lib cursor) here ≡ (ok k, here)

  page_of-last :
      (limit : ℕ) (zs : List Row)
      → ltb limit (length zs) ≡ false
      → page_of lib user limit zs ≡ record {
        items = map (summary lib user) zs;
        next_cursor = none;
        has_more = false;
        per_page = limit;
      }
  unfolding page_of
  page_of-last limit zs h = rw (h, take-all limit zs (ground arith)) refl

  page_of-more :
      (limit : ℕ) (zs pre : List Row) (z : Row)
      → ltb limit (length zs) ≡ true
      → take limit zs ≡ pre ++ z ∷ []
      → page_of lib user limit zs ≡ record {
        items = map (summary lib user) (pre ++ z ∷ []);
        next_cursor = some (cursor_at z);
        has_more = true;
        per_page = limit;
      }
  unfolding page_of
  page_of-more limit zs pre z h t = rw (h, t, last_cursor-map lib user pre z) refl

  module _ (lawful : Lawful lib) (stamped : All (IsStamp lib) rows)
      (distinct : DistinctIds rows) where
    cursor_at-Resolves : (z : Row) → IsStamp lib z → Resolves (some (cursor_at z)) (some (key z))
    cursor_at-Resolves z (small, time) =
        rw
          (
            decode-encode_cursor lib lawful z.created_at z.id small,
            time,
            lawful.uuid_valid z.id,
            lawful.cast-show z.id,
          )
          refl

    mine-Descending : Descending mine
    mine-Descending =
        filter-Descending (owned u) (newest_first rows) (newest_first-Descending rows distinct)

    mine-stamped : All (IsStamp lib) mine
    mine-stamped =
        All-filter (IsStamp lib) (owned u) (newest_first rows)
          (All-newest_first (IsStamp lib) rows stamped)

    follow-from :
        (n : ℕ) (cursor : Option Text) (k : Option Key) (ys zs : List Row)
        → Resolves cursor k
        → filter (after_cursor k) mine ≡ zs
        → mine ≡ ys ++ zs
        → length zs < n
        → follow lib n user per_page cursor here ≡ some (map (summary lib user) zs)
    follow-from zero cursor k ys zs h f e l = absurd (omega (arith, l))
    follow-from (suc n) cursor k ys zs h f e l =
        let (m, c) = clamp_limit-pos per_page in
        let ask : Text → Notes → Option (List Note) =
          λ x s. follow lib n user per_page (some x) s in
        let page =
          ap (go_on lib ask) (list_notes-page cursor k h)
          ∙ ap (λ x. go_on lib ask (ok (page_of lib user (clamp_limit per_page) x), here)) f in
        elim (Bool-cases (ltb (clamp_limit per_page) (length zs))) [
          | inl t ↦
              let (pre, z, bs, e1, e2, l1) = split-page m zs (ground (arith, c)) in
              let whole = e ∙ ap (λ x. ys ++ x) e1 in
              let parts = whole ∙ sym (append_assoc ys pre (z ∷ bs)) in
              page
              ∙ ap (λ x. go_on lib ask (ok x, here))
                  (page_of-more (clamp_limit per_page) zs pre z t (rw c e2))
              ∙ ap (prepend lib (map (summary lib user) (pre ++ z ∷ []))) (
                  follow-from n (some (cursor_at z)) (some (key z)) ((ys ++ pre) ++ z ∷ []) bs
                    (cursor_at-Resolves z (
                      All-middle (IsStamp lib) (ys ++ pre) z bs
                        (subst (All (IsStamp lib)) parts mine-stamped)))
                    (ap (filter (below (key z))) parts
                      ∙ filter-below (ys ++ pre) z bs (subst Descending parts mine-Descending))
                    (parts ∙ sym (append_assoc (ys ++ pre) (z ∷ []) bs)) (omega (arith, l, l1)))
              ∙ ap some (
                  sym (map-append (summary lib user) (pre ++ z ∷ []) bs)
                  ∙ ap (map (summary lib user)) (append_assoc pre (z ∷ []) bs ∙ sym e1))
          | inr t ↦
              page ∙ ap (λ x. go_on lib ask (ok x, here)) (page_of-last (clamp_limit per_page) zs t)
        ]

    -- A client that follows the cursors of `list_notes` from the first page on, whatever page size
    -- it asks for, gets every note of its user, each exactly once, from the newest to the oldest,
    -- within one request more than there are notes, provided that no query fails and the ids are
    -- distinct.
    pub follow_complete :
        (n : ℕ)
        → length (filter (owned u) (newest_first rows)) < n
        → follow lib n user per_page none (healthy rows now fresh)
          ≡ some (map (summary lib user) (filter (owned u) (newest_first rows)))
    follow_complete n h = follow-from n none none [] mine refl (filter-true mine) refl h
