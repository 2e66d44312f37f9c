-- ===== src/Auth/Routes/Tokens/Keeps.antt =====
-- The steps that the handlers of backend/auth/src/routes.rs share, and the database.
use fullstackhex.Base.{
  err, ◌⊎◌, inl, inr, arith, ℕ, ◌≡◌, ◌∙◌, refl, sym, ap, Text, codes, List, [], ◌∷◌, Option, ok,
  map_err-ok, ◌++◌,
}
use fullstackhex.Base.Exec.{Exec, bind-ok, bind-keeps, ◌>>=◌}
use fullstackhex.Domain.Errors.{ApiError, internal_error}
use fullstackhex.Cache.Client.{Outcome, done, lost, late}
use fullstackhex.Cache.Store.{cache_set}
use fullstackhex.Cache.RateLimit.{rate_limit_check}
use fullstackhex.Auth.Config.{AuthConfig}
use fullstackhex.Auth.App.{Platform, App, query, answer, redis, random_hex}
use fullstackhex.Auth.Routes.Tokens.{
  UserInfo, check_rate_limit, create_token, hash_password, new_refresh_token, new_session,
  auth_cookies, session_cookie,
}

module _ (p : Platform) where
  -- A state that a step which keeps the database has reached.
  pub step-pg :
      {A : Type 0} (m : Exec (App p) ApiError A) (s t : App p) (a : A)
      → ((x : App p) → (m x).1.pg ≡ x.pg)
      → m s ≡ (ok a, t)
      → t.pg ≡ s.pg
  step-pg m s t a keeps h = ap (λ x. x.1.pg) (sym h) ∙ keeps s

  -- A property of the answer, by a sequence whose parts keep the database.
  pub then-pg :
      {A B : Type 0} (Q : B → Type 0) (m : Exec (App p) ApiError A)
      (f : A → Exec (App p) ApiError B)
      → ((x : App p) → (m x).1.pg ≡ x.pg)
      → ((a : A) (x t : App p) (b : B) → f a x ≡ (ok b, t) → Q b × (t.pg ≡ x.pg))
      → (s t : App p) (b : B) → (m >>= f) s ≡ (ok b, t)
      → Q b × (t.pg ≡ s.pg)
  then-pg Q m f keeps rest s t b h =
      let (a, u, e, k) = bind-ok m f s t b h in
      let (holds, same) = rest a u t b k in (holds, same ∙ step-pg m s u a keeps e)

  answer-ok :
      {A : Type 0} (o : Outcome) (f : p.postgres.Db → A × p.postgres.Db) (rest : List Outcome)
      (s t : App p) (a : A)
      → answer p o f rest s ≡ (ok a, t)
      → f s.pg ≡ (a, t.pg)
  answer-ok done f rest s t a h =
      let value : (f s.pg).0 ≡ a = grind arith in
      let after : (f s.pg).1 ≡ t.pg = ap (λ x. x.1.pg) h in
      ap (λ x. (x, (f s.pg).1)) value ∙ ap (λ d. (a, d)) after
  answer-ok (lost e) f rest s t a h = absurd (cc h)
  answer-ok (late e) f rest s t a h = absurd (cc h)

  -- A query that is answered has run once, on the database at hand.
  pub query-ok :
      {A : Type 0} (f : p.postgres.Db → A × p.postgres.Db) (qs : List Outcome) (s t : App p) (a : A)
      → query p f (record s { queries = qs }) ≡ (ok a, t)
      → f s.pg ≡ (a, t.pg)
  query-ok f [] s t a h = answer-ok done f [] s t a h
  query-ok f (o ∷ qs) s t a h = answer-ok o f qs (record s { queries = o ∷ qs }) t a h

  -- A query that fails has not run, or has run once and lost its answer.
  pub query-err :
      {A : Type 0} (f : p.postgres.Db → A × p.postgres.Db) (qs : List Outcome) (s t : App p)
      (x : ApiError)
      → query p f (record s { queries = qs }) ≡ (err x, t)
      → (t.pg ≡ s.pg) ⊎ (f s.pg ≡ ((f s.pg).0, t.pg))
  query-err f [] s t x h = absurd (cc h)
  query-err f (done ∷ qs) s t x h = absurd (cc h)
  query-err f (lost e ∷ qs) s t x h = inl (ap (λ y. y.1.pg) (sym h))
  query-err f (late e ∷ qs) s t x h = inr (ap (λ y. ((f s.pg).0, y.1.pg)) h)

  pub query-read :
      {A : Type 0} (f : p.postgres.Db → A) (s t : App p) (a : A)
      → query p (λ d. (f d, d)) s ≡ (ok a, t)
      → a ≡ f s.pg
  query-read f s t a h = ap (λ x. x.0) (sym (query-ok (λ d. (f d, d)) s.queries s t a h))

module _ (p : Platform) (config : AuthConfig) (prefix : Text) where
  pub check_rate_limit-pg :
      (key : Text) (window max : ℕ) (s : App p)
      → (check_rate_limit p config prefix key window max s).1.pg ≡ s.pg
  unfolding check_rate_limit
  check_rate_limit-pg key window max s =
      bind-keeps (λ x. x.pg) (redis p (rate_limit_check p.redis prefix key window max)) _
        (λ x. refl) (λ a x. refl) s

  pub create_token-pg :
      (user : UserInfo) (s : App p) → (create_token p config prefix user s).1.pg ≡ s.pg
  unfolding create_token
  create_token-pg user s = refl

  pub hash_password-pg :
      (password : Text) (s : App p) → (hash_password p config prefix password s).1.pg ≡ s.pg
  unfolding hash_password
  hash_password-pg password s =
      bind-keeps (λ x. x.pg) (random_hex p (codes "Password hash error: ")) _ (λ x. refl)
        (λ a x. refl) s

  -- A password that is hashed is hashed with some salt.
  pub hash_password-ok :
      (password : Text) (s t : App p) (hash : Text)
      → hash_password p config prefix password s ≡ (ok hash, t)
      → (salt : Text) × (p.hash_password salt password ≡ ok hash)
  unfolding hash_password
  hash_password-ok password s t hash h =
      let (salt, s1, e, h1) = bind-ok (random_hex p (codes "Password hash error: ")) _ s t hash h in
      (
        salt,
        map_err-ok (λ e. internal_error (codes "Password hash error: " ++ e))
            (p.hash_password salt password) hash (ap (λ x. x.0) h1),
      )

  pub new_refresh_token-pg :
      (user_id : Text) (s : App p) → (new_refresh_token p config prefix user_id s).1.pg ≡ s.pg
  unfolding new_refresh_token
  new_refresh_token-pg user_id s =
      bind-keeps (λ x. x.pg) (random_hex p (codes "failed to generate refresh token: ")) _
        (λ x. refl)
        (λ token x.
          bind-keeps (λ y. y.pg)
            (redis p (
              cache_set p.redis prefix p.text_codec (codes "refresh") token user_id
                config.refresh_expiry))
            _ (λ y. refl) (λ a y. refl) x)
        s

  pub new_session-pg :
      (user : UserInfo) (s : App p) → (new_session p config prefix user s).1.pg ≡ s.pg
  unfolding new_session
  new_session-pg user s = refl

  pub auth_cookies-pg :
      (access refresh : Text) (id : Option Text) (s : App p)
      → (auth_cookies p config prefix access refresh id s).1.pg ≡ s.pg
  unfolding auth_cookies
  auth_cookies-pg access refresh id s = refl

  pub session_cookie-pg :
      (headers : List Text) (id : Text) (s : App p)
      → (session_cookie p config prefix headers id s).1.pg ≡ s.pg
  unfolding session_cookie
  session_cookie-pg headers id s = refl
