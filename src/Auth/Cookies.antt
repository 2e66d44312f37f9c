-- ===== src/Auth/Cookies.antt =====
-- backend/auth/src/cookies.rs: reading a value out of a `Cookie` header, and the text of a
-- `Set-Cookie` header. Which byte strings the HTTP library takes for a header's value is a
-- parameter, and so are the random bytes of a CSRF token.
pub mod Laws
use fullstackhex.Base.{
  ℕ, Bool, true, false, Text, codes, List, [], ◌∷◌, ◌++◌, Option, none, some, decimal, split, trim,
  strip_prefix, is_empty, if◌then◌else◌, Result, ok, err, ◌>>=◌,
}
use fullstackhex.Domain.Errors.{ApiError, internal_error}

-- `.find_map(|c| c.trim().strip_prefix(&prefix))`
unfoldable pub find_prefix : Text → List Text → Option Text
find_prefix prefix [] = none
find_prefix prefix (c ∷ cs) = elim (strip_prefix prefix (trim c)) [
  | some v ↦ some v
  | none ↦ find_prefix prefix cs
]

abbrev pub some_non_empty : Option Text → Option Text
some_non_empty none = none
some_non_empty (some v) = if is_empty v then none else some v

unfoldable pub parse_cookie_value : Text → Text → Option Text
unfolding find_prefix
parse_cookie_value cookie_header name =
    some_non_empty (find_prefix (name ++ codes "=") (split b';' cookie_header))

-- The text of one `Set-Cookie` header.
unfoldable pub cookie_text : Text → Text → ℕ → Bool → Bool → Text
cookie_text name value max_age http_only secure =
    name
    ++ (codes "="
        ++ (value
            ++ (codes "; Path=/; Max-Age="
                ++ (decimal max_age
                    ++ (codes "; SameSite=Lax"
                        ++ ((if http_only then codes "; HttpOnly" else [])
                            ++ (if secure then codes "; Secure" else [])))))))

module _ (is_header_value : Text → Bool) where
  -- The `Set-Cookie` headers so far, and the one appended.
  unfoldable pub set_cookie :
      List Text → Text → Text → ℕ → Bool → Bool → Result ApiError (List Text)
  set_cookie headers name value max_age http_only secure =
      let cookie = cookie_text name value max_age http_only secure in
      if is_header_value cookie
      then ok (headers ++ cookie ∷ [])
      else err (internal_error (codes "failed to construct Set-Cookie header"))

  abbrev set_session : List Text → Option Text → ℕ → Bool → Result ApiError (List Text)
  set_session headers none jwt_expiry secure = ok headers
  set_session headers (some sid) jwt_expiry secure =
      set_cookie headers (codes "session") sid jwt_expiry true secure

  -- The headers and the CSRF token, which `generate_csrf_token` drew or failed to draw.
  unfoldable pub set_auth_cookies :
      Result ApiError Text
      → List Text
      → Text
      → Text
      → Option Text
      → ℕ
      → ℕ
      → Bool
      → Result ApiError (List Text × Text)
  unfolding set_cookie
  set_auth_cookies drawn headers access_token refresh_token session_id jwt_expiry refresh_expiry
        secure =
      do
        csrf_token ← drawn
        h1 ← set_cookie headers (codes "access_token") access_token jwt_expiry true secure
        h2 ← set_cookie h1 (codes "refresh_token") refresh_token refresh_expiry true secure
        h3 ← set_cookie h2 (codes "csrf_token") csrf_token jwt_expiry false secure
        h4 ← set_session h3 session_id jwt_expiry secure
        ok (h4, csrf_token)
