-- ===== src/Api/Rows.antt =====
-- The table `notes` and what the queries of backend/api/src/notes.rs denote on it.
pub mod Order
use fullstackhex.Base.{
  ℕ, ◌+◌, Bool, true, false, not, ◌&&◌, ◌||◌, Text, length, take, filter, ltb, ◌==◌, List, [], ◌∷◌,
  Option, none, some, if◌then◌else◌, ℤ, pos, negsuc,
}

-- A row of the table.
pub record Row : Type 0 where
  pub id : ℕ
  pub user : ℕ
  pub title : Text
  pub body : Text
  pub created_at : ℕ
  pub updated_at : ℕ

-- A row's position: the newest first, and the greater id first among rows of one time.
abbrev pub Key : Type 0
Key = ℤ × ℕ

abbrev pub key : Row → Key
key r = (pos r.created_at, r.id)

-- `(created_at, id) < (ts, id)`
unfoldable pub below : Key → Row → Bool
below (negsuc n, i) r = false
below (pos n, i) r = ltb r.created_at n || (r.created_at == n && ltb r.id i)

-- `ORDER BY created_at DESC, id DESC`
unfoldable pub insert : Row → List Row → List Row
unfolding below
insert r [] = r ∷ []
insert r (x ∷ xs) = let rest = insert r xs in if below (key r) x then r ∷ x ∷ xs else x ∷ rest

unfoldable pub newest_first : List Row → List Row
unfolding insert
newest_first [] = []
newest_first (r ∷ rs) = insert r (newest_first rs)

abbrev pub after_cursor : Option Key → Row → Bool
after_cursor none r = true
after_cursor (some k) r = below k r

abbrev pub owned : ℕ → Row → Bool
owned u r = r.user == u

-- The query of `list_notes`.
unfoldable pub select_page : ℕ → Option Key → ℕ → List Row → List Row
unfolding newest_first below
select_page u cursor limit rows =
    take limit (filter (λ r. owned u r && after_cursor cursor r) (newest_first rows))

abbrev pub is_note : ℕ → ℕ → Row → Bool
is_note i u r = r.id == i && owned u r

abbrev pub first : List Row → Option Row
first [] = none
first (r ∷ rs) = some r

unfoldable pub insert_note : ℕ → Text → Text → ℕ → ℕ → List Row → Row × List Row
insert_note u title body i now rows =
    let row : Row = record {
      id = i;
      user = u;
      title = title;
      body = body;
      created_at = now;
      updated_at = now;
    } in
    (row, row ∷ rows)

abbrev pub revised : Text → Text → ℕ → Row → Row
revised title body now r = record r { title = title; body = body; updated_at = now }

unfoldable pub revise : (Row → Bool) → (Row → Row) → List Row → List Row
revise p f [] = []
revise p f (r ∷ rs) = let rest = revise p f rs in if p r then f r ∷ rest else r ∷ rest

unfoldable pub update_rows : ℕ → ℕ → Text → Text → ℕ → List Row → Option Row × List Row
unfolding revise
update_rows i u title body now rows =
    let new = revise (is_note i u) (revised title body now) rows in
    (first (filter (is_note i u) new), new)

-- The rows left, and how many are gone.
unfoldable pub delete_rows : ℕ → ℕ → List Row → ℕ × List Row
delete_rows i u rows = (length (filter (is_note i u) rows), filter (λ r. not (is_note i u r)) rows)
