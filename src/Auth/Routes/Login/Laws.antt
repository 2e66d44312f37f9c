-- ===== src/Auth/Routes/Login/Laws.antt =====
-- Who gets tokens from `login` of backend/auth/src/routes.rs.
use fullstackhex.Base.{
  arith, ◌≡◌, ◌≢◌, ◌∙◌, inl, inr, refl, sym, ap, subst, Bool, true, false, Text, codes, List, ◌++◌,
  Option, none, some, Result, ok, err, Result-cases,
}
use fullstackhex.Base.Exec.{lift, ◌>>◌, bind-ok}
use fullstackhex.Domain.Errors.{ApiError}
use fullstackhex.Cache.Backoff.{backoff_check, backoff_increment}
use fullstackhex.Auth.Config.{AuthConfig}
use fullstackhex.Auth.ClientIp.{HeaderMap, IpAddr, client_ip}
use fullstackhex.Auth.App.{Platform, App, UserRow, query, attempt, cached}
use fullstackhex.Auth.Routes.Tokens.{TokenResponse, verify_password, check_rate_limit}
use fullstackhex.Auth.Routes.Tokens.Keeps.{check_rate_limit-pg, query-read}
use fullstackhex.Auth.Routes.Login.{
  LoginRequest, invalid_credentials, verified, check_hash, authenticate, throttle, login,
  backoff_verdict,
}

module _ (p : Platform) (config : AuthConfig) (prefix : Text) where
  -- The three ways in which a login fails on what it found under the e-mail address.
  pub data Rejected (password : Text) : Option UserRow → Type 0 where
    no_account : Rejected password none
    no_hash : (u : UserRow) → u.password_hash ≡ none → Rejected password (some u)
    wrong_password :
        (u : UserRow) (hash : Text)
        → u.password_hash ≡ some hash
        → p.verify_hash password hash ≡ ok false
        → Rejected password (some u)

  Rejected-same :
      (ip password : Text) (found : Option UserRow) (s : App p)
      → Rejected password found
      → authenticate p config prefix ip password found s
        ≡ authenticate p config prefix ip password none s
  unfolding authenticate check_hash verify_password verified
  Rejected-same ip password _ s no_account = refl
  Rejected-same ip password _ s (no_hash u e) = rw e refl
  Rejected-same ip password _ s (wrong_password u hash e wrong) = rw (e, wrong) refl

  -- A login without an account, one without a password hash and one with a wrong password are not
  -- told apart: each is answered "Invalid credentials", whatever becomes of recording it, and leaves
  -- the state in which the failure has been recorded for the address.
  pub authenticate-uniform :
      (ip password : Text) (found : Option UserRow) (s : App p)
      → Rejected password found
      → authenticate p config prefix ip password found s ≡ (
        err invalid_credentials,
        record s { cache = (backoff_increment p.redis prefix ip (codes "login") s.cache).1 },
      )
  unfolding authenticate
  authenticate-uniform ip password found s r = Rejected-same ip password found s r

  refuse-ok :
      (ip password : Text) (s t : App p) (row : UserRow)
      → authenticate p config prefix ip password none s ≢ (ok row, t)
  unfolding authenticate
  refuse-ok ip password s t row h = cc h

  verified-ok :
      (ip : Text) (u row : UserRow) (b : Bool) (s t : App p)
      → verified p config prefix ip u b s ≡ (ok row, t)
      → (b ≡ true) × (u ≡ row)
  unfolding verified
  verified-ok ip u row true s t h = (refl, grind arith)
  verified-ok ip u row false s t h = absurd (cc h)

  check_hash-ok :
      (ip password : Text) (u row : UserRow) (stored : Option Text) (s t : App p)
      → u.password_hash ≡ stored
      → check_hash p config prefix ip password u stored s ≡ (ok row, t)
      → (h : Text) × (some u ≡ some row)
        × (row.password_hash ≡ some h)
        × (p.verify_hash password h ≡ ok true)
  unfolding check_hash verify_password
  check_hash-ok ip password u row none s t e h = absurd (cc h)
  check_hash-ok ip password u row (some hash) s t e h =
      elim (Result-cases (p.verify_hash password hash)) [
        | inl (b, v) ↦
            let (is_true, same) = verified-ok ip u row b s t (rw v at h) in
            (hash, ap some same, subst (λ x. x.password_hash ≡ some hash) same e, v ∙ ap ok is_true)
        | inr (x, v) ↦ absurd (cc (rw v at h))
      ]

  authenticate-ok :
      (ip password : Text) (found : Option UserRow) (s t : App p) (row : UserRow)
      → authenticate p config prefix ip password found s ≡ (ok row, t)
      → (hash : Text) × (found ≡ some row)
        × (row.password_hash ≡ some hash)
        × (p.verify_hash password hash ≡ ok true)
  unfolding authenticate
  authenticate-ok ip password none s t row h = absurd (refuse-ok ip password s t row h)
  authenticate-ok ip password (some u) s t row h =
      check_hash-ok ip password u row u.password_hash s t refl h

  lifts-pg :
      (a b c : Result ApiError (Unit {0})) (s : App p) → ((do lift a; lift b; lift c) s).1.pg ≡ s.pg
  lifts-pg (ok _) (ok _) c s = refl
  lifts-pg (ok _) (err e) c s = refl
  lifts-pg (err e) b c s = refl

  throttle-pg :
      (ip : Text) (body : LoginRequest) (s : App p)
      → (throttle p config prefix ip body s).1.pg ≡ s.pg
  unfolding throttle
  throttle-pg ip body s =
      let s1 = (attempt p (cached p (backoff_check p.redis prefix ip (codes "login"))) s).1 in
      let email_limit =
        check_rate_limit p config prefix (codes "login:email:" ++ body.email)
          config.rate_limits.login_email_window_secs config.rate_limits.login_email_max in
      let s2 = (email_limit s1).1 in
      let ip_limit =
        check_rate_limit p config prefix (codes "login:ip:" ++ ip)
          config.rate_limits.login_ip_window_secs config.rate_limits.login_ip_max in
      lifts-pg (backoff_verdict (cached p (backoff_check p.redis prefix ip (codes "login")) s).0)
        (email_limit s1).0 (ip_limit s2).0 (ip_limit s2).1
      ∙ (check_rate_limit-pg p config prefix (codes "login:ip:" ++ ip)
            config.rate_limits.login_ip_window_secs config.rate_limits.login_ip_max s2
          ∙ check_rate_limit-pg p config prefix (codes "login:email:" ++ body.email)
              config.rate_limits.login_email_window_secs config.rate_limits.login_email_max s1)

  -- A login that succeeds has found a row for the e-mail address, whose password hash verifies
  -- against the password.
  pub login_sound :
      (trust_proxy : Bool) (headers : HeaderMap) (peer : Option IpAddr) (body : LoginRequest)
      (s t : App p) (cookies : List Text) (r : TokenResponse)
      → login p config prefix trust_proxy headers peer body s ≡ (ok (cookies, r), t)
      → (row : UserRow) × (hash : Text) × (p.postgres.find_by_email s.pg body.email ≡ some row)
        × (row.password_hash ≡ some hash)
        × (p.verify_hash body.password hash ≡ ok true)
  unfolding login
  login_sound trust_proxy headers peer body s t cookies r h =
      let ip = client_ip p.show_ip trust_proxy headers peer in
      let (_, s1, e1, h1) = bind-ok (throttle p config prefix ip body) _ s t (cookies, r) h in
      let (found, s2, e2, h2) =
        bind-ok (query p (λ d. (p.postgres.find_by_email d body.email, d))) _ s1 t (cookies, r)
          h1 in
      let (row, s3, e3, h3) =
        bind-ok (authenticate p config prefix ip body.password found) _ s2 t (cookies, r) h2 in
      let same = query-read p (λ d. p.postgres.find_by_email d body.email) s1 s2 found e2 in
      let kept : s1.pg ≡ s.pg = ap (λ x. x.1.pg) (sym e1) ∙ throttle-pg ip body s in
      let (hash, is_row, has_hash, matches) = authenticate-ok ip body.password found s2 s3 row e3 in
      (
        row,
        hash,
        ap (λ d. p.postgres.find_by_email d body.email) (sym kept) ∙ (sym same ∙ is_row),
        has_hash,
        matches,
      )
