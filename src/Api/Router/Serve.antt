-- ===== src/Api/Router/Serve.antt =====
-- A request for a note from the outermost layer of its route to its handler: the layers of
-- backend/api/src/lib.rs, the extraction of the user, and the handlers of backend/api/src/notes.rs, whose
-- first parameter is that user.
use mathlib.Core.List.{Memᴰ}
use fullstackhex.Base.{
  true, ℕ, ℤ, ◌≡◌, ◌≢◌, refl, ap, ◌∙◌, Text, List, Option, some, Option-cases, inl, inr, Result, ok,
  err,
}
use fullstackhex.Domain.Errors.{ApiError}
use fullstackhex.Auth.Config.{AuthConfig}
use fullstackhex.Auth.App.{Platform, App}
use fullstackhex.Auth.Request.{Request, AuthRejection}
use fullstackhex.Auth.Middleware.{AuthUser, auth_middleware}
use fullstackhex.Api.Cursor.{Libraries}
use fullstackhex.Api.Notes.{
  Notes, Note, Page, NotesM, list_notes, create_note, get_note, update_note, delete_note,
}
use fullstackhex.Api.Notes.Owner.{
  rows_of, list_notes-Keeps, get_note-Keeps, create_note-Keeps, update_note-Keeps,
  delete_note-Keeps,
}
use fullstackhex.Api.Router.{Layer, Route, Axum, AppState, build_router}
use fullstackhex.Api.Router.Stack.{
  Extensions, Outcome, unavailable, reached, run_layers, no_extensions, extract_user,
}
use fullstackhex.Api.Router.Users.{handlers_see_user}

-- What a request asks of the notes.
pub data NoteCall : Type 0 where
  list : Option Text → ℤ → NoteCall
  create : Text → Text → NoteCall
  get : Text → NoteCall
  update : Text → Text → Text → NoteCall
  delete : Text → NoteCall

pub data NoteAnswer : Type 0 where
  page : Page → NoteAnswer
  note : Note → NoteAnswer
  no_content : NoteAnswer

abbrev answered :
    {A : Type 0} → (A → NoteAnswer) → Result ApiError A × Notes → Result ApiError NoteAnswer × Notes
answered f (ok a, s) = (ok (f a), s)
answered f (err e, s) = (err e, s)

-- The handler of a call, for the id of the user that was extracted.
unfoldable pub handle : Libraries → NoteCall → Text → NotesM NoteAnswer
handle lib (list cursor per_page) user_id s =
    answered page (list_notes lib user_id cursor per_page s)
handle lib (create title body) user_id s = answered note (create_note lib user_id title body s)
handle lib (get id) user_id s = answered note (get_note lib user_id id s)
handle lib (update id title body) user_id s =
    answered note (update_note lib user_id id title body s)
handle lib (delete id) user_id s = answered (λ u. no_content) (delete_note lib user_id id s)

pub data Response : Type 0 where
  maintenance : Response
  rejected : AuthRejection → Response
  handled : Result ApiError NoteAnswer → Response

unfoldable pub run_handler :
    Libraries → NoteCall → Result AuthRejection AuthUser → Notes → Response × Notes
unfolding handle
run_handler lib c (err e) s = (rejected e, s)
run_handler lib c (ok u) s = let r = handle lib c u.user_id s in (handled r.0, r.1)

unfoldable pub after_layers :
    Libraries → NoteCall → Result AuthRejection Outcome → Notes → Response × Notes
unfolding run_handler extract_user
after_layers lib c (err e) s = (rejected e, s)
after_layers lib c (ok unavailable) s = (maintenance, s)
after_layers lib c (ok (reached f)) s = run_handler lib c (extract_user f) s

module _ (p : Platform) (config : AuthConfig) (prefix : Text) (lib : Libraries) where
  -- What is left of the notes when a request has been served on a route with these layers.
  unfoldable pub serve_note : List Layer → Request → NoteCall → App p → Notes → Response × Notes
  unfolding after_layers
  serve_note ls req c a s =
      after_layers lib c (run_layers p config prefix req ls no_extensions a).0 s

  answered-keeps :
      {A : Type 0} (v : ℕ) (f : A → NoteAnswer) (r : Result ApiError A × Notes) (s : Notes)
      → rows_of v r.1 ≡ rows_of v s
      → rows_of v (answered f r).1 ≡ rows_of v s
  answered-keeps v f (ok a, t) s h = h
  answered-keeps v f (err e, t) s h = h

  handle-keeps :
      (c : NoteCall) (user_id : Text) (v : ℕ) (s : Notes)
      → lib.cast_uuid user_id ≢ some v
      → rows_of v (handle lib c user_id s).1 ≡ rows_of v s
  unfolding handle
  handle-keeps (list cursor per_page) user_id v s ne =
      answered-keeps v page (list_notes lib user_id cursor per_page s) s
        ((list_notes-Keeps lib user_id v cursor per_page).kept s)
  handle-keeps (create title body) user_id v s ne =
      answered-keeps v note (create_note lib user_id title body s) s
        ((create_note-Keeps lib user_id v ne title body).kept s)
  handle-keeps (get id) user_id v s ne =
      answered-keeps v note (get_note lib user_id id s) s ((get_note-Keeps lib user_id v id).kept s)
  handle-keeps (update id title body) user_id v s ne =
      answered-keeps v note (update_note lib user_id id title body s) s
        ((update_note-Keeps lib user_id v ne id title body).kept s)
  handle-keeps (delete id) user_id v s ne =
      answered-keeps v (λ u. no_content) (delete_note lib user_id id s) s
        ((delete_note-Keeps lib user_id v ne id).kept s)

  extracted-keeps :
      (c : NoteCall) (f : Extensions) (v : ℕ) (s : Notes)
      → ((u : AuthUser) → f.user ≡ some u → lib.cast_uuid u.user_id ≢ some v)
      → rows_of v (run_handler lib c (extract_user f) s).1 ≡ rows_of v s
  unfolding run_handler extract_user
  extracted-keeps c f v s ne = elim (Option-cases f.user) [
    | inl e ↦ rw e refl
    | inr (u, e) ↦ rw e (handle-keeps c u.user_id v s (ne u e))
  ]

  module _ {R : Type 0} (axum : Axum R) where
    -- With authentication configured, a request for a note on any route, whatever it asks and however it
    -- ends, leaves the notes of everybody as they were but for the user whom the auth middleware found.
    pub served_notes_isolated :
        (c : AppState) (x : Route) (req : Request) (call : NoteCall) (a : App p) (s : Notes) (v : ℕ)
        → c.has_auth ≡ true
        → Memᴰ x (axum.routes (build_router axum c))
        → ((u : AuthUser)
            → (auth_middleware p config prefix c.has_redis req a).0 ≡ ok (some u)
            → lib.cast_uuid u.user_id ≢ some v)
        → rows_of v (serve_note x.layers req call a s).1 ≡ rows_of v s
    unfolding serve_note after_layers
    served_notes_isolated c x req call a s v e m ne =
        go (run_layers p config prefix req x.layers no_extensions a) refl
      where
        go :
            (r : Result AuthRejection Outcome × App p)
            → run_layers p config prefix req x.layers no_extensions a ≡ r
            → rows_of v (after_layers lib call r.0 s).1 ≡ rows_of v s
        go (err q, t) h = refl
        go (ok unavailable, t) h = refl
        go (ok (reached f), t) h = extracted-keeps call f v s (λ u k.
            ne u (
              ap (λ r. r.0) (handlers_see_user p config prefix req axum c x f a t e m h) ∙ ap ok k))
