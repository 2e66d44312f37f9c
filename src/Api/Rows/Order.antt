-- ===== src/Api/Rows/Order.antt =====
-- The order of the notes table: strictly from the newest to the oldest when ids are distinct, and
-- what a keyset cursor leaves of a list in that order.
use fullstackhex.Base.{
  arith, ◌≡◌, ◌≢◌, Bool, true, false, ◌&&◌, List, [], ◌∷◌, ◌++◌, filter, All, refl, Bool-cases, inl,
  inr,
}
use fullstackhex.Api.Rows.{Row, key, below, insert, newest_first}

-- `y` comes after `x`.
abbrev pub Older : Row → Row → Type 0
Older x y = below (key x) y ≡ true

abbrev pub Descending : List Row → Type 0
Descending [] = Unit
Descending (x ∷ xs) = All (Older x) xs × Descending xs

-- The primary key.
abbrev pub DistinctIds : List Row → Type 0
DistinctIds [] = Unit
DistinctIds (x ∷ xs) = All (λ y. x.id ≢ y.id) xs × DistinctIds xs

Older-trans : (x y z : Row) → Older x y → Older y z → Older x z
unfolding below
Older-trans x y z h k = ground arith

Older-total : (x y : Row) → x.id ≢ y.id → below (key x) y ≡ false → Older y x
unfolding below
Older-total x y ne h = ground arith

Older-asym : (x y : Row) → Older x y → below (key y) x ≡ false
unfolding below
Older-asym x y h = ground arith

Older-irrefl : (x : Row) → below (key x) x ≡ false
unfolding below
Older-irrefl x = ground arith

All-Older : (x y : Row) (zs : List Row) → Older x y → All (Older y) zs → All (Older x) zs
All-Older x y [] h hs = tt
All-Older x y (z ∷ zs) h (k, ks) = (Older-trans x y z h k, All-Older x y zs h ks)

module _ {κ} (P : Row → Type κ) where
  All-insert : (r : Row) (xs : List Row) → P r → All P xs → All P (insert r xs)
  unfolding insert
  All-insert r [] p hs = (p, hs)
  All-insert r (x ∷ xs) p (h, hs) = elim (Bool-cases (below (key r) x)) [
    | inl e ↦ rw e (p, (h, hs))
    | inr e ↦ rw e (h, All-insert r xs p hs)
  ]

  pub All-middle : (ys : List Row) (z : Row) (zs : List Row) → All P (ys ++ z ∷ zs) → P z
  All-middle [] z zs (h, hs) = h
  All-middle (y ∷ ys) z zs (h, hs) = All-middle ys z zs hs

  pub All-newest_first : (xs : List Row) → All P xs → All P (newest_first xs)
  unfolding newest_first
  All-newest_first [] hs = hs
  All-newest_first (x ∷ xs) (h, hs) = All-insert x (newest_first xs) h (All-newest_first xs hs)

  pub All-filter : (p : Row → Bool) (xs : List Row) → All P xs → All P (filter p xs)
  All-filter p [] hs = hs
  All-filter p (x ∷ xs) (h, hs) = elim (Bool-cases (p x)) [
    | inl e ↦ rw e (h, All-filter p xs hs)
    | inr e ↦ rw e (All-filter p xs hs)
  ]

insert-Descending :
    (r : Row) (xs : List Row) → All (λ y. r.id ≢ y.id) xs → Descending xs → Descending (insert r xs)
unfolding insert
insert-Descending r [] ne d = (tt, tt)
insert-Descending r (x ∷ xs) (n, ns) (h, d) = elim (Bool-cases (below (key r) x)) [
  | inl e ↦ rw e ((e, All-Older r x xs e h), (h, d))
  | inr e ↦ rw e (All-insert (Older x) r xs (Older-total r x n e) h, insert-Descending r xs ns d)
]

pub newest_first-Descending : (xs : List Row) → DistinctIds xs → Descending (newest_first xs)
unfolding newest_first
newest_first-Descending [] d = tt
newest_first-Descending (x ∷ xs) (n, d) =
    insert-Descending x (newest_first xs) (All-newest_first (λ y. x.id ≢ y.id) xs n)
      (newest_first-Descending xs d)

pub filter-Descending : (p : Row → Bool) (xs : List Row) → Descending xs → Descending (filter p xs)
filter-Descending p [] d = d
filter-Descending p (x ∷ xs) (h, d) = elim (Bool-cases (p x)) [
  | inl e ↦ rw e (All-filter (Older x) p xs h, filter-Descending p xs d)
  | inr e ↦ rw e (filter-Descending p xs d)
]

filter-All : (p : Row → Bool) (xs : List Row) → All (λ y. p y ≡ true) xs → filter p xs ≡ xs
filter-All p [] h = refl
filter-All p (x ∷ xs) (h, hs) = rw (h, filter-All p xs hs) refl

-- The rows below the last one of a part that was read are those that were not read.
pub filter-below :
    (ys : List Row) (z : Row) (zs : List Row)
    → Descending (ys ++ z ∷ zs)
    → filter (below (key z)) (ys ++ z ∷ zs) ≡ zs
filter-below [] z zs (h, d) = rw (Older-irrefl z) (filter-All (below (key z)) zs h)
filter-below (y ∷ ys) z zs (h, d) =
    rw (Older-asym y z (All-middle (Older y) ys z zs h)) (filter-below ys z zs d)

pub filter-and :
    (p q : Row → Bool) (xs : List Row) → filter (λ r. p r && q r) xs ≡ filter q (filter p xs)
filter-and p q [] = refl
filter-and p q (x ∷ xs) = elim (Bool-cases (p x)) [
  | inl e ↦ elim (Bool-cases (q x)) [
    | inl f ↦ rw (e, f, filter-and p q xs) refl
    | inr f ↦ rw (e, f, filter-and p q xs) refl
  ]
  | inr e ↦ rw (e, filter-and p q xs) refl
]
