-- ===== src/Api/Notes/Owner.antt =====
-- backend/api/src/notes.rs: a user's handlers see and change only the user's own rows.
use fullstackhex.Base.{
  arith, ℕ, ◌≡◌, ◌≢◌, not, Text, codes, List, [], ◌∷◌, some, Result, ok, filter, refl, Option-cases,
  inl, inr, Option, none, ℤ,
}
use fullstackhex.Base.Exec.{bind-keeps, lift, ◌>>=◌}
use fullstackhex.Domain.Errors.{ApiError}
use fullstackhex.Api.Rows.{
  Row, owned, is_note, insert_note, revise, revised, update_rows, delete_rows,
}
use fullstackhex.Api.Cursor.{Libraries}
use fullstackhex.Cache.Client.{Outcome, done, lost, late}
use fullstackhex.Api.Notes.{
  list_notes, get_note, cast_cursor, read_rows, Notes, NotesM, create_note, update_note,
  delete_note, detail, db_pool, check_id, validate_note, write_rows, written, draw_id, clock, cast,
  found,
}

-- What another user has in the table.
abbrev pub rows_of : ℕ → Notes → List Row
rows_of v s = filter (owned v) s.rows

insert_note-others :
    (u v i now : ℕ) (title body : Text) (rows : List Row)
    → u ≢ v
    → filter (owned v) (insert_note u title body i now rows).1 ≡ filter (owned v) rows
unfolding insert_note
insert_note-others u v i now title body rows ne = ground (arith, ne)

revise-others :
    (u v i now : ℕ) (title body : Text) (rows : List Row)
    → u ≢ v
    → filter (owned v) (revise (is_note i u) (revised title body now) rows) ≡ filter (owned v) rows
unfolding revise
revise-others u v i now title body [] ne = refl
revise-others u v i now title body (r ∷ rows) ne =
    ground (arith, ne, revise-others u v i now title body rows ne)

delete-others :
    (u v i : ℕ) (rows : List Row)
    → u ≢ v
    → filter (owned v) (filter (λ r. not (is_note i u r)) rows) ≡ filter (owned v) rows
delete-others u v i [] ne = refl
delete-others u v i (r ∷ rows) ne = ground (arith, ne, delete-others u v i rows ne)

-- A handler's part that leaves another user's rows alone.
pub record Keeps {A : Type 0} (v : ℕ) (m : NotesM A) : Type 0 where
  pub kept : (s : Notes) → rows_of v (m s).1 ≡ rows_of v s

Keeps-bind :
    {A B : Type 0} {v : ℕ} (m : NotesM A) (f : A → NotesM B)
    → Keeps v m
    → ((a : A) → Keeps v (f a))
    → Keeps v (m >>= f)
Keeps-bind {v = v} m f h k = record {
  kept = bind-keeps (rows_of v) m f (λ s. h.kept s) (λ a s. (k a).kept s);
}

Keeps-lift : {A : Type 0} {v : ℕ} (r : Result ApiError A) → Keeps v (lift r)
Keeps-lift r = record { kept = λ s. refl }

written-keeps :
    {A : Type 0} (v : ℕ) (context : Text) (o : Outcome) (s : Notes) (r : A × List Row)
    → filter (owned v) r.1 ≡ rows_of v s
    → rows_of v (written context o s r).1 ≡ rows_of v s
written-keeps v context (lost e) s r h = refl
written-keeps v context done s (a, rows) h = h
written-keeps v context (late e) s (a, rows) h = h

Keeps-write_rows :
    {A : Type 0} {v : ℕ} (context : Text) (f : List Row → A × List Row)
    → ((rows : List Row) → filter (owned v) (f rows).1 ≡ filter (owned v) rows)
    → Keeps v (write_rows context f)
Keeps-write_rows {v = v} context f h = record {
  kept = λ s. written-keeps v context _ _ (f s.rows) (h s.rows);
}

Keeps-db_pool : {v : ℕ} → Keeps v db_pool
unfolding db_pool
Keeps-db_pool = record { kept = λ s. refl }

Keeps-cast_cursor :
    {v : ℕ} (lib : Libraries) (context : Text) (k : Option (ℤ × Text))
    → Keeps v (cast_cursor lib context k)
Keeps-cast_cursor lib context none = record { kept = λ s. refl }
Keeps-cast_cursor lib context (some (micros, id)) =
    Keeps-bind (cast lib context id) _ (Keeps-lift _) (λ i. record { kept = λ s. refl })

-- The handlers that read change no rows.
pub list_notes-Keeps :
    (lib : Libraries) (user : Text) (v : ℕ) (cursor : Option Text) (per_page : ℤ)
    → Keeps v (list_notes lib user cursor per_page)
unfolding list_notes
list_notes-Keeps lib user v cursor per_page = Keeps-bind db_pool _ Keeps-db_pool (λ a.
    Keeps-bind (cast lib (codes "failed to list notes") user) _ (Keeps-lift _) (λ u.
      Keeps-bind (cast_cursor lib (codes "failed to list notes") _) _ (Keeps-cast_cursor lib _ _)
        (λ k.
          Keeps-bind (read_rows _ _) _ (record { kept = λ s. refl })
            (λ rows. record { kept = λ s. refl }))))

pub get_note-Keeps :
    (lib : Libraries) (user : Text) (v : ℕ) (id : Text) → Keeps v (get_note lib user id)
unfolding get_note
get_note-Keeps lib user v id = Keeps-bind (check_id lib id) _ (Keeps-lift _) (λ a.
    Keeps-bind db_pool _ Keeps-db_pool (λ b.
      Keeps-bind (cast lib (codes "failed to get note") id) _ (Keeps-lift _) (λ i.
        Keeps-bind (cast lib (codes "failed to get note") user) _ (Keeps-lift _) (λ u.
          Keeps-bind (read_rows _ _) _ (record { kept = λ s. refl })
            (λ row.
              Keeps-bind (lift (found lib row)) _ (Keeps-lift _)
                (λ r. record { kept = λ s. refl }))))))

module _ (lib : Libraries) (user : Text) (v : ℕ) (other : lib.cast_uuid user ≢ some v) where
  -- What is left to do once the user's id is cast.
  Keeps-cast :
      {B : Type 0} (context : Text) (f : ℕ → NotesM B)
      → ((u : ℕ) → u ≢ v → Keeps v (f u))
      → Keeps v (cast lib context user >>= f)
  Keeps-cast context f h = elim (Option-cases (lib.cast_uuid user)) [
    | inl e ↦ record { kept = λ s. rw e refl }
    | inr (u, e) ↦ record { kept = λ s. rw e ((h u (λ q. other (cc (e, q)))).kept s) }
  ]

  pub create_note-Keeps : (title body : Text) → Keeps v (create_note lib user title body)
  unfolding create_note
  create_note-Keeps title body = Keeps-bind db_pool _ Keeps-db_pool (λ a.
      Keeps-bind (lift (validate_note title body)) _ (Keeps-lift _) (λ b.
        Keeps-cast (codes "failed to create note") _ (λ u ne.
          Keeps-bind (draw_id lib) _ (record { kept = λ s. refl })
            (λ i.
              Keeps-bind (clock lib) _ (record { kept = λ s. refl })
                (λ now.
                  Keeps-bind
                    (write_rows (codes "failed to create note") (insert_note u title body i now)) _
                    (Keeps-write_rows _ _ (λ rows. insert_note-others u v i now title body rows ne))
                    (λ row. Keeps-lift (ok (detail lib row))))))))

  pub update_note-Keeps : (id title body : Text) → Keeps v (update_note lib user id title body)
  unfolding update_note update_rows
  update_note-Keeps id title body = Keeps-bind (check_id lib id) _ (Keeps-lift _) (λ a.
      Keeps-bind db_pool _ Keeps-db_pool (λ b.
        Keeps-bind (lift (validate_note title body)) _ (Keeps-lift _) (λ c.
          Keeps-bind (cast lib (codes "failed to update note") id) _ (Keeps-lift _) (λ i.
            Keeps-cast (codes "failed to update note") _ (λ u ne.
              Keeps-bind (clock lib) _ (record { kept = λ s. refl })
                (λ now.
                  Keeps-bind
                    (write_rows (codes "failed to update note") (update_rows i u title body now)) _
                    (Keeps-write_rows _ _ (λ rows. revise-others u v i now title body rows ne))
                    (λ row.
                      Keeps-bind (lift (found lib row)) _ (Keeps-lift _)
                        (λ r. Keeps-lift (ok (detail lib r))))))))))

  pub delete_note-Keeps : (id : Text) → Keeps v (delete_note lib user id)
  unfolding delete_note delete_rows
  delete_note-Keeps id = Keeps-bind (check_id lib id) _ (Keeps-lift _) (λ a.
      Keeps-bind db_pool _ Keeps-db_pool (λ b.
        Keeps-bind (cast lib (codes "failed to delete note") id) _ (Keeps-lift _) (λ i.
          Keeps-cast (codes "failed to delete note") _ (λ u ne.
            Keeps-bind (write_rows (codes "failed to delete note") (delete_rows i u)) _
              (Keeps-write_rows _ _ (λ rows. delete-others u v i rows ne))
              (λ gone. Keeps-lift _)))))

  -- Creating, updating and deleting notes as one user leaves the notes of every other user as they
  -- were, whatever ids the requests name and however they end.
  pub notes_isolated :
      (s : Notes) (id title body : Text)
      → (rows_of v (create_note lib user title body s).1 ≡ rows_of v s)
        × (rows_of v (update_note lib user id title body s).1 ≡ rows_of v s)
        × (rows_of v (delete_note lib user id s).1 ≡ rows_of v s)
  notes_isolated s id title body = (
    (create_note-Keeps title body).kept s,
    (update_note-Keeps id title body).kept s,
    (delete_note-Keeps id).kept s,
  )
