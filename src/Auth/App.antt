-- ===== src/Auth/App.antt =====
-- What the handlers of backend/auth/src/routes.rs and the middleware run on: the services that the
-- source does not implement, as one parameter, and the state that a request can change.
use fullstackhex.Auth.Blacklist.{Blacklist}
use fullstackhex.Base.{
  ℕ, suc, Bool, Text, codes, List, [], ◌∷◌, ◌++◌, Option, Result, ok, err, map_err,
}
use fullstackhex.Base.Exec.{Exec}
use fullstackhex.Domain.Errors.{ApiError, CacheError, internal_error, of_cache}
use fullstackhex.Cache.Redis.{Redis}
use fullstackhex.Cache.Client.{World, Session, Outcome, done, lost, late}
use fullstackhex.Cache.Store.{Codec}
use fullstackhex.Auth.ClientIp.{IpAddr}
use fullstackhex.Auth.OauthState.{OAuthProvider}

-- A row of the table `users`.
pub record UserRow : Type 0 where
  pub id : Text
  pub email : Text
  pub name : Option Text
  pub provider : Text
  pub password_hash : Option Text

-- The queries of the auth routes, with the new state of the database where they write; a query that
-- fails is the network's doing, except for the unique violation.
pub record Postgres : Type 1 where
  pub Db : Type 0
  pub find_by_email : Db → Text → Option UserRow
  pub find_by_id : Db → Text → Option UserRow
  -- INSERT with email, name and hash: the new id, or none for a unique violation.
  pub insert_local : Text → Option Text → Text → Db → Option Text × Db
  -- UPDATE of a local user's hash: the number of rows.
  pub update_password : Text → Text → Db → ℕ × Db
  pub delete_notes : Text → Db → Db
  pub delete_user : Text → Db → ℕ × Db
  -- INSERT with a new id, or on a known email only a new name: the row's id.
  pub upsert_oauth : Text → Text → Option Text → Text → Db → Text × Db

-- `Claims` of backend/auth/src/jwt.rs.
pub record Claims : Type 0 where
  pub sub : Text
  pub email : Text
  pub name : Option Text
  pub provider : Text
  pub exp : ℕ
  pub iat : ℕ
  pub iss : Text
  pub jti : Text

-- `OAuthUserInfo` of backend/auth/src/oauth.rs.
pub record OAuthUserInfo : Type 0 where
  pub provider_id : Text
  pub email : Text
  pub name : Option Text

-- The error kinds that `validate_token` tells apart.
pub data JwtError : Type 0 where
  expired_signature : JwtError
  other : Text → JwtError

pub record Platform : Type 1 where
  pub redis : Redis
  pub postgres : Postgres
  pub text_codec : Codec Text
  pub bool_codec : Codec Bool
  pub session_codec : Codec Session
  -- Argon2: hashing with a salt, and verification, which fails on a text that is no hash.
  pub hash_password : Text → Text → Result Text Text
  pub verify_hash : Text → Text → Result Text Bool
  -- JWT: signing with a secret, and checking signature, issuer and expiry at a time in seconds.
  pub sign_claims : Text → Claims → Result Text Text
  pub read_claims : Text → Text → ℕ → Text → Result JwtError Claims
  pub show_ip : IpAddr → Text
  pub is_header_value : Text → Bool
  pub from_json : Text → Option (Text → Option Text)
  pub to_json : Text → Option Text → Text
  -- The redirect URL of a provider with its fresh state, and the exchange of a code.
  pub authorize_url : OAuthProvider → Text → Text → Text
  pub exchange_code : OAuthProvider → Text → Result ApiError OAuthUserInfo

module _ (p : Platform) where
  -- `queries` are the outcomes of the SQL queries to come; the drawn texts of `getrandom` may fail.
  -- `blacklist` is BLACKLIST_CACHE: none until the cell is initialised.
  pub record App : Type 0 where
    pub cache : World p.redis
    pub pg : p.postgres.Db
    pub queries : List Outcome
    pub entropy : ℕ → Result Text Text
    pub blacklist : Blacklist

  abbrev pub AppM : Type 0 → Type 0
  AppM A = Exec App ApiError A

  abbrev pub with_cache :
      {A : Type 0} → App → Result CacheError A × World p.redis → Result CacheError A × App
  with_cache s (r, w) = (r, record s { cache = w })

  -- A cache operation with its own error, and one whose error is converted by `?`.
  abbrev pub cached : {A : Type 0} → Exec (World p.redis) CacheError A → Exec App CacheError A
  cached m s = with_cache s (m s.cache)

  abbrev pub convert : {A : Type 0} → Result CacheError A × App → Result ApiError A × App
  convert (r, s) = (map_err of_cache r, s)

  abbrev pub redis : {A : Type 0} → Exec (World p.redis) CacheError A → AppM A
  redis m s = convert (cached m s)

  -- A call whose failure the handler looks at, or only logs.
  abbrev pub as_value : {A E : Type 0} → Result E A × App → Result ApiError (Result E A) × App
  as_value (r, s) = (ok r, s)

  abbrev pub attempt : {A E : Type 0} → Exec App E A → AppM (Result E A)
  attempt m s = as_value (m s)

  abbrev pub server_error : ApiError
  server_error = internal_error (codes "Internal server error")

  abbrev pub answer :
      {A : Type 0} → Outcome → (p.postgres.Db → A × p.postgres.Db) → List Outcome → AppM A
  answer done f rest s = let (a, d) = f s.pg in (ok a, record s { pg = d; queries = rest })
  answer (lost e) f rest s = (err server_error, record s { queries = rest })
  answer (late e) f rest s = (err server_error, record s { pg = (f s.pg).1; queries = rest })

  -- A query; its failure is logged and answered by "Internal server error".
  abbrev pub query : {A : Type 0} → (p.postgres.Db → A × p.postgres.Db) → AppM A
  query f s = elim s.queries [ [] ↦ answer done f [] s | o ∷ rest ↦ answer o f rest s ]

  abbrev pub relabelled : {A : Type 0} → Text → Result ApiError A × App → Result ApiError A × App
  relabelled text (ok a, s) = (ok a, s)
  relabelled text (err e, s) = (err (internal_error text), s)

  -- A query whose failure is answered by a text of its own.
  abbrev pub query_or : {A : Type 0} → Text → (p.postgres.Db → A × p.postgres.Db) → AppM A
  query_or text f s = relabelled text (query f s)

  -- 32 random bytes in hexadecimal, or the failure under a label.
  abbrev pub random_hex : Text → AppM Text
  random_hex label s = (
    map_err (λ e. internal_error (label ++ e)) (s.entropy 0),
    record s { entropy = λ n. s.entropy (suc n) },
  )

  -- `Uuid::new_v4().to_string()`
  abbrev pub new_uuid : AppM Text
  new_uuid s = (
    ok (s.cache.random 0),
    record s { cache = record s.cache { random = λ n. s.cache.random (suc n) } },
  )

  -- `CsrfToken::new_random`: the next of the texts to come.
  abbrev pub new_csrf_state : AppM Text
  new_csrf_state s = (
    ok (s.cache.random 0),
    record s { cache = record s.cache { random = λ n. s.cache.random (suc n) } },
  )
