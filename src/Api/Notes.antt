-- ===== src/Api/Notes.antt =====
-- backend/api/src/notes.rs, with Note and the inputs of backend/domain/src/lib.rs. A query's text is
-- read as what it denotes on the table `notes`; a query may fail, before or after it took effect. Times are microseconds since the
-- epoch, and a row's ids are the numbers that their UUIDs write. Logging and counters are left out.
pub mod Cursor
pub mod Paging
pub mod Owner
use fullstackhex.Api.Blank.{is_blank}
use fullstackhex.Api.Cursor.{Libraries, encode_cursor, decode_cursor, cursor_of}
use fullstackhex.Base.{
  ℕ, zero, suc, ◌+◌, Bool, true, false, not, ◌&&◌, ◌||◌, Text, codes, is_space, is_empty,
  split_once, trim, decimal, length, take, filter, map, ltb, leb, ◌==◌, List, [], ◌∷◌, ◌++◌, Option,
  none, some, if◌then◌else◌, Result, ok, err, fail_if, ok_or, ℤ, pos, negsuc, parse_i64,
}
use fullstackhex.Api.Rows.{
  Row, Key, select_page, is_note, first, insert_note, update_rows, delete_rows,
}
use fullstackhex.Base.Exec.{Exec, pure, lift, ◌>>=◌, ◌>>◌}
use fullstackhex.Cache.Client.{Outcome, done, lost, late}
use fullstackhex.Domain.Errors.{
  ApiError, validation_error, not_found, internal_error, service_unavailable,
}

-- A note of the API.
pub record Note : Type 0 where
  pub id : Text
  pub user_id : Text
  pub title : Text
  pub body : Text
  pub created_at : ℕ
  pub updated_at : ℕ

-- `PaginatedNotes`
pub record Page : Type 0 where
  pub items : List Note
  pub next_cursor : Option Text
  pub has_more : Bool
  pub per_page : ℕ

-- The table, the outcomes of the queries to come, the clock and the ids to come; and whether a pool is
-- connected.
pub record Notes : Type 0 where
  pub rows : List Row
  pub queries : List Outcome
  pub now : ℕ
  pub fresh : ℕ → ℕ
  pub connected : Bool

abbrev pub NotesM : Type 0 → Type 0
NotesM A = Exec Notes ApiError A

-- The checks of `create_note` and `update_note`.
unfoldable pub validate_note : Text → Text → Result ApiError (Unit {0})
unfolding is_blank
validate_note title body =
    if is_blank title
    then err (validation_error (codes "title is required"))
    else if ltb 255 (length title)
    then err (validation_error (codes "title must be 255 characters or fewer"))
    else if ltb 100000 (length body)
    then err (validation_error (codes "body must be 100KB or fewer"))
    else ok tt

-- `params.per_page.clamp(1, 100)`
unfoldable pub clamp_limit : ℤ → ℕ
clamp_limit (negsuc n) = 1
clamp_limit (pos n) = if ltb n 1 then 1 else if ltb 100 n then 100 else n

-- `state.db_pool()`
unfoldable pub db_pool : Notes → Result ApiError (Unit {0}) × Notes
db_pool s =
    (if s.connected then ok tt else err (service_unavailable (codes "database not configured")), s)

abbrev outcome : {A : Type 0} → Text → Outcome → A → Result ApiError A
outcome context done a = ok a
outcome context (lost e) a = err (internal_error context)
outcome context (late e) a = err (internal_error context)

abbrev next : List Outcome → Outcome × List Outcome
next [] = (done, [])
next (o ∷ os) = (o, os)

-- `.map_err(|e| db_err(e, context))` on a query that reads, or that writes; a failed one may
-- have been carried out all the same.
abbrev pub read_rows : {A : Type 0} → Text → (List Row → A) → NotesM A
read_rows context f s =
    let (failed, rest) = next s.queries in
    (outcome context failed (f s.rows), record s { queries = rest })

abbrev pub written :
    {A : Type 0} → Text → Outcome → Notes → A × List Row → Result ApiError A × Notes
written context done s (a, rows) = (ok a, record s { rows = rows })
written context (lost e) s r = (err (internal_error context), s)
written context (late e) s (a, rows) = (err (internal_error context), record s { rows = rows })

abbrev pub write_rows : {A : Type 0} → Text → (List Row → A × List Row) → NotesM A
write_rows context f s =
    let (failed, rest) = next s.queries in
    written context failed (record s { queries = rest }) (f s.rows)

module _ (lib : Libraries) where
  -- The casts of a query's parameters, which fail with the query.
  abbrev pub cast : Text → Text → NotesM ℕ
  cast context id = lift (ok_or (lib.cast_uuid id) (internal_error context))

  abbrev pub cast_cursor : Text → Option (ℤ × Text) → NotesM (Option Key)
  cast_cursor context none = pure none
  cast_cursor context (some (micros, id)) = do i ← cast context id; pure (some (micros, i))

  abbrev pub summary : Text → Row → Note
  summary user_id r = record {
    id = lib.show_uuid r.id;
    user_id = user_id;
    title = r.title;
    body = [];
    created_at = r.created_at;
    updated_at = r.updated_at;
  }

  abbrev pub detail : Row → Note
  detail r = record {
    id = lib.show_uuid r.id;
    user_id = lib.show_uuid r.user;
    title = r.title;
    body = r.body;
    created_at = r.created_at;
    updated_at = r.updated_at;
  }

  unfoldable pub last_cursor : List Note → Option Text
  unfolding encode_cursor
  last_cursor [] = none
  last_cursor (n ∷ []) = some (encode_cursor lib n.created_at n.id)
  last_cursor (n ∷ m ∷ ns) = last_cursor (m ∷ ns)

  -- One row more than the limit tells of another page.
  unfoldable pub page_of : Text → ℕ → List Row → Page
  unfolding last_cursor
  page_of user_id limit rows =
      let more = ltb limit (length rows) in
      let items = map (summary user_id) (take limit rows) in
      record {
        items = items;
        next_cursor = if more then last_cursor items else none;
        has_more = more;
        per_page = limit;
      }

  abbrev list_failed : Text
  list_failed = codes "failed to list notes"

  unfoldable pub list_notes : Text → Option Text → ℤ → NotesM Page
  unfolding db_pool select_page decode_cursor page_of clamp_limit
  list_notes user_id cursor per_page = do
    db_pool
    u ← cast list_failed user_id
    k ← cast_cursor list_failed (cursor_of lib cursor)
    rows ← read_rows list_failed (select_page u k (clamp_limit per_page + 1))
    pure (page_of user_id (clamp_limit per_page) rows)

  -- Ids that neither `Uuid::parse_str` nor the cast refuses.
  abbrev pub check_id : Text → NotesM (Unit {0})
  check_id id =
      lift (if lib.is_uuid id then ok tt else err (validation_error (codes "invalid note id")))

  abbrev pub found : {A : Type 0} → Option A → Result ApiError A
  found row = ok_or row (not_found (codes "note not found"))

  abbrev pub draw_id : NotesM ℕ
  draw_id s = (ok (s.fresh 0), record s { fresh = λ n. s.fresh (suc n) })

  abbrev pub clock : NotesM ℕ
  clock s = (ok s.now, s)

  unfoldable pub create_note : Text → Text → Text → NotesM Note
  unfolding db_pool validate_note insert_note
  create_note user_id title body = do
    db_pool
    lift (validate_note title body)
    u ← cast (codes "failed to create note") user_id
    i ← draw_id
    now ← clock
    row ← write_rows (codes "failed to create note") (insert_note u title body i now)
    pure (detail row)

  unfoldable pub get_note : Text → Text → NotesM Note
  unfolding db_pool
  get_note user_id id = do
    check_id id
    db_pool
    i ← cast (codes "failed to get note") id
    u ← cast (codes "failed to get note") user_id
    row ← read_rows (codes "failed to get note") (λ rows. first (filter (is_note i u) rows))
    r ← lift (found row)
    pure (detail r)

  unfoldable pub update_note : Text → Text → Text → Text → NotesM Note
  unfolding db_pool validate_note update_rows
  update_note user_id id title body = do
    check_id id
    db_pool
    lift (validate_note title body)
    i ← cast (codes "failed to update note") id
    u ← cast (codes "failed to update note") user_id
    now ← clock
    row ← write_rows (codes "failed to update note") (update_rows i u title body now)
    r ← lift (found row)
    pure (detail r)

  unfoldable pub delete_note : Text → Text → NotesM (Unit {0})
  unfolding db_pool delete_rows
  delete_note user_id id = do
    check_id id
    db_pool
    i ← cast (codes "failed to delete note") id
    u ← cast (codes "failed to delete note") user_id
    gone ← write_rows (codes "failed to delete note") (delete_rows i u)
    lift (if ltb 0 gone then ok tt else err (not_found (codes "note not found")))
