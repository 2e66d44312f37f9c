-- ===== src/Auth/OauthState.antt =====
-- `parse_stored_oauth_state`, `validate_oauth_state_match` and `parse_provider` of
-- backend/auth/src/routes.rs, and `OAuthProvider` of backend/auth/src/oauth.rs. JSON is a
-- parameter: `from_json` gives the string fields of a text that parses.
use fullstackhex.Base.{
  text_ne, inl, inr, ap, Bool-cases, ◌≡◌, ◌↔◌, ◌⊎◌, Text, codes, ◌++◌, Option, none, some, map,
  to_lower, text_eq, text_eq_iff, is_empty, if◌then◌else◌, Result, ok, err, arith, refl,
}
use fullstackhex.Domain.Errors.{ApiError, unauthorized, validation_error}

pub data OAuthProvider : Type 0 where
  google git_hub : OAuthProvider

-- `Display for OAuthProvider`
abbrev pub show_provider : OAuthProvider → Text
show_provider google = codes "google"
show_provider git_hub = codes "github"

show_provider-injective : (p q : OAuthProvider) → show_provider p ≡ show_provider q → p ≡ q
show_provider-injective google google h = refl
show_provider-injective google git_hub h = absurd (text_ne (codes "google") (codes "github") refl h)
show_provider-injective git_hub google h = absurd (text_ne (codes "github") (codes "google") refl h)
show_provider-injective git_hub git_hub h = refl

-- No character beyond ASCII has a lower case among the letters of the two names.
unfoldable pub parse_provider : Text → Result ApiError OAuthProvider
parse_provider s =
    let lower = map to_lower s in
    if text_eq lower (codes "google")
    then ok google
    else if text_eq lower (codes "github")
    then ok git_hub
    else err (validation_error (codes "Unknown OAuth provider: " ++ s))

pub record StoredOAuthState : Type 0 where
  pub provider : Text
  pub session_id : Option Text

-- `.filter(|s| !s.is_empty())`
abbrev pub non_empty : Option Text → Option Text
non_empty none = none
non_empty (some s) = if is_empty s then none else some s

-- The `provider` field and the `session_id` field of a state that is JSON.
read_fields : Option Text → Option Text → Result ApiError StoredOAuthState
read_fields (some provider) session_id =
    ok (record { provider = provider; session_id = non_empty session_id })
read_fields none session_id =
    err (unauthorized (codes "Invalid OAuth state: JSON without provider"))

-- A stored value that parsed as JSON, or the older format, the bare provider.
read_state : Option (Text → Option Text) → Text → Result ApiError StoredOAuthState
unfolding read_fields
read_state (some field) stored = read_fields (field (codes "provider")) (field (codes "session_id"))
read_state none stored =
    if is_empty stored
    then err (unauthorized (codes "Invalid OAuth state"))
    else ok (record { provider = stored; session_id = none })

module _ (from_json : Text → Option (Text → Option Text)) where
  unfoldable pub parse_stored_oauth_state : Text → Result ApiError StoredOAuthState
  unfolding read_state
  parse_stored_oauth_state stored = read_state (from_json stored) stored

-- The session that the state is bound to against the session of the callback.
abbrev check_session : Option Text → Option Text → Result ApiError (Unit {0})
check_session none current = ok tt
check_session (some bound) none = err (unauthorized (codes "OAuth requires an active session"))
check_session (some bound) (some sid) =
    if text_eq sid bound then ok tt else err (unauthorized (codes "OAuth session mismatch"))

unfoldable pub validate_oauth_state_match :
    StoredOAuthState → Text → Option Text → Result ApiError (Unit {0})
validate_oauth_state_match stored expected_provider current_session_id =
    if text_eq stored.provider expected_provider
    then check_session stored.session_id current_session_id
    else err (unauthorized (codes "OAuth provider mismatch"))

check_session_iff :
    (bound current : Option Text)
    → (check_session bound current ≡ ok tt) ↔ ((bound ≡ none) ⊎ (bound ≡ current))
check_session_iff none current = (λ h. inl refl, λ h. refl)
check_session_iff (some b) none = (λ h. cc, λ h. ground arith)
check_session_iff (some b) (some sid) =
    (λ h. ground (arith, text_eq_iff sid b), λ h. ground (arith, text_eq_iff sid b))

-- A stored state is accepted exactly for its own provider and, if it is bound to a session, for
-- that session and no other.
pub validate_oauth_state_match_iff :
    (stored : StoredOAuthState) (expected : Text) (current : Option Text)
    → (validate_oauth_state_match stored expected current ≡ ok tt) ↔ (
        (stored.provider ≡ expected) × ((stored.session_id ≡ none) ⊎ (stored.session_id ≡ current)))
unfolding validate_oauth_state_match
validate_oauth_state_match_iff stored expected current =
    elim (Bool-cases (text_eq stored.provider expected)) [
      | inl e ↦ (
        λ h. ((text_eq_iff _ _).0 e, (check_session_iff stored.session_id current).0 (simp e at h)),
        λ h. simp e ((check_session_iff stored.session_id current).1 h.1),
      )
      | inr e ↦ (λ h. cc (simp e at h), λ h. cc (e, (text_eq_iff stored.provider expected).1 h.0))
    ]

module _ (from_json : Text → Option (Text → Option Text)) (to_json : Text → Option Text → Text)
    (json_round_trip : (provider : Text) (session : Option Text)
      → (field : Text → Option Text) × (from_json (to_json provider session) ≡ some field)
        × (field (codes "provider") ≡ some provider)
        × (field (codes "session_id") ≡ session)) where
  -- What the redirect stores, as JSON, is read back by the callback: it passes exactly for the
  -- provider of the redirect, and for the session of the redirect if that had a non-empty one.
  pub oauth_state_round_trip :
      (provider expected : OAuthProvider) (session current : Option Text)
      → (s : StoredOAuthState) × (parse_stored_oauth_state from_json
            (to_json (show_provider provider) session)
          ≡ ok s)
        × ((validate_oauth_state_match s (show_provider expected) current ≡ ok tt) ↔ (
            (provider ≡ expected) × ((non_empty session ≡ none) ⊎ (non_empty session ≡ current))))
  unfolding parse_stored_oauth_state
  oauth_state_round_trip provider expected session current =
      let (field, parsed, is_provider, is_session) =
        json_round_trip (show_provider provider) session in
      let s : StoredOAuthState = record {
        provider = show_provider provider;
        session_id = non_empty session;
      } in
      let m = validate_oauth_state_match_iff s (show_provider expected) current in
      (
        s,
        rw (parsed, is_provider, is_session),
        (
          λ h. (show_provider-injective provider expected (m.0 h).0, (m.0 h).1),
          λ h. m.1 (ap show_provider h.0, h.1),
        ),
      )
