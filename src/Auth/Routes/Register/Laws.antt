-- ===== src/Auth/Routes/Register/Laws.antt =====
-- What `register` of backend/auth/src/routes.rs writes to the database.
use fullstackhex.Base.{
  ◌≡◌, ◌∙◌, refl, sym, ap, subst, Text, codes, List, ◌++◌, Option, none, some, Bool, Result, ok,
  err,
}
use fullstackhex.Base.Exec.{lift, bind-elim, ◌>>=◌}
use fullstackhex.Domain.Errors.{ApiError}
use fullstackhex.Auth.Config.{AuthConfig}
use fullstackhex.Auth.ClientIp.{HeaderMap, IpAddr, client_ip}
use fullstackhex.Auth.Registration.{RegisterRequest, validate_registration}
use fullstackhex.Auth.App.{Platform, App, UserRow, query}
use fullstackhex.Auth.Routes.Tokens.{
  TokenResponse, UserInfo, check_rate_limit, create_token, hash_password, new_refresh_token,
  new_session, auth_cookies, session_cookie,
}
use fullstackhex.Auth.Routes.Tokens.Keeps.{
  step-pg, then-pg, query-ok, check_rate_limit-pg, create_token-pg, hash_password-pg,
  hash_password-ok, new_refresh_token-pg, new_session-pg, auth_cookies-pg, session_cookie-pg,
}
use fullstackhex.Auth.Routes.Register.{register, open_account, welcome, refuse_existing, inserted}

module _ (p : Platform) (config : AuthConfig) (prefix : Text) where
  -- A hash of the password with some salt, and the insertion that turns one database into another.
  abbrev pub Inserts : RegisterRequest → p.postgres.Db → Text → p.postgres.Db → Type 0
  Inserts body before id after =
      (salt hash : Text) × (p.hash_password salt body.password ≡ ok hash)
      × (p.postgres.insert_local body.email body.name hash before ≡ (some id, after))

  refuse_existing-ok :
      (found : Option UserRow) → refuse_existing p config prefix found ≡ ok tt → found ≡ none
  refuse_existing-ok none h = refl
  refuse_existing-ok (some u) h = absurd (cc h)

  abbrev answered : UserInfo → Result ApiError (List Text × TokenResponse) → UserInfo
  answered user (ok (cookies, r)) = r.user
  answered user (err e) = user

  inserted-ok :
      (row : Option Text) (id : Text) → inserted p config prefix row ≡ ok id → row ≡ some id
  inserted-ok none id h = absurd (cc h)
  inserted-ok (some x) id h = cc h

  abbrev account : RegisterRequest → Text → UserInfo
  account body id = record {
    id = id;
    email = body.email;
    name = body.name;
    provider = codes "local";
  }

  -- The steps after the insertion keep the database, and answer with the user.
  welcome-ok :
      (user : UserInfo) (s t : App p) (x : List Text × TokenResponse)
      → welcome p config prefix user s ≡ (ok x, t)
      → (x.1.user ≡ user) × (t.pg ≡ s.pg)
  unfolding welcome
  welcome-ok user =
      let given = λ (x : List Text × TokenResponse). x.1.user ≡ user in
      then-pg p given (create_token p config prefix user) _ (create_token-pg p config prefix user)
        λ access.
          then-pg p given (new_refresh_token p config prefix user.id) _
            (new_refresh_token-pg p config prefix user.id)
            λ refresh.
              then-pg p given (auth_cookies p config prefix access refresh none) _
                (auth_cookies-pg p config prefix access refresh none)
                λ drawn.
                  then-pg p given (new_session p config prefix user) _
                    (new_session-pg p config prefix user)
                    λ id.
                      then-pg p given (session_cookie p config prefix drawn.0 id) _
                        (session_cookie-pg p config prefix drawn.0 id)
                        λ headers s t x h.
                          (sym (ap (λ y. answered user y.0) h), sym (ap (λ y. y.1.pg) h))

  abbrev look : RegisterRequest → p.postgres.Db → Option UserRow × p.postgres.Db
  look body d = (p.postgres.find_by_email d body.email, d)

  -- From the insertion on.
  insert-ok :
      (body : RegisterRequest) (hash : Text) (s t : App p) (x : List Text × TokenResponse)
      → (do
        row ← query p (p.postgres.insert_local body.email body.name hash)
        id ← lift (inserted p config prefix row)
        welcome p config prefix (account body id))
          s
        ≡ (ok x, t)
      → p.postgres.insert_local body.email body.name hash s.pg ≡ (some x.1.user.id, t.pg)
  insert-ok body hash s t x h =
      let insertion = p.postgres.insert_local body.email body.name hash in
      bind-elim _ (query p insertion) _ s t x h λ row u e k.
        bind-elim _ (lift (inserted p config prefix row)) _ u t x k λ id v e' k'.
          let (is_user, kept) = welcome-ok (account body id) v t x k' in
          let is_row : row ≡ some x.1.user.id =
            inserted-ok row id (ap (λ y. y.0) e') ∙ ap (λ n. some n.id) (sym is_user) in
          let after : u.pg ≡ t.pg = ap (λ y. y.1.pg) e' ∙ sym kept in
          query-ok p insertion s.queries s u row e
          ∙ (ap (λ y. (y, u.pg)) is_row ∙ ap (λ d. (some x.1.user.id, d)) after)

  -- From the look for the e-mail address on.
  open_account-ok :
      (body : RegisterRequest) (s t : App p) (x : List Text × TokenResponse)
      → open_account p config prefix body s ≡ (ok x, t)
      → (p.postgres.find_by_email s.pg body.email ≡ none) × Inserts body s.pg x.1.user.id t.pg
  unfolding open_account
  open_account-ok body s t x h = bind-elim _ (query p (look body)) _ s t x h λ found u e k.
      bind-elim _ (lift (refuse_existing p config prefix found)) _ u t x k λ _ v e1 k1.
        bind-elim _ (hash_password p config prefix body.password) _ v t x k1 λ hash w e2 k2.
          let read = query-ok p (look body) s.queries s u found e in
          let (salt, hashed) = hash_password-ok p config prefix body.password v w hash e2 in
          let same : w.pg ≡ s.pg =
            step-pg p (hash_password p config prefix body.password) v w hash
              (hash_password-pg p config prefix body.password) e2
            ∙ (sym (ap (λ y. y.1.pg) e1) ∙ sym (ap (λ y. y.1) read)) in
          (
            ap (λ y. y.0) read ∙ refuse_existing-ok found (ap (λ y. y.0) e1),
            (
              salt,
              hash,
              hashed,
              ap (p.postgres.insert_local body.email body.name hash) (sym same)
                  ∙ insert-ok body hash w t x k2,
            ),
          )

  -- A registration that succeeds was valid, found no row for its e-mail address, and has changed the
  -- database by one insertion alone: that of its e-mail address, its name and a hash of its password,
  -- which gave the id that it answers with.
  pub register_sound :
      (trust_proxy : Bool) (headers : HeaderMap) (peer : Option IpAddr) (body : RegisterRequest)
      (s t : App p) (cookies : List Text) (r : TokenResponse)
      → register p config prefix trust_proxy headers peer body s ≡ (ok (cookies, r), t)
      → (validate_registration body ≡ ok tt)
        × (p.postgres.find_by_email s.pg body.email ≡ none)
        × Inserts body s.pg r.user.id t.pg
  unfolding register
  register_sound trust_proxy headers peer body s t cookies r h =
      let ip = client_ip p.show_ip trust_proxy headers peer in
      let limit =
        check_rate_limit p config prefix (codes "register:" ++ ip)
          config.rate_limits.register_window_secs config.rate_limits.register_max in
      bind-elim _ limit _ s t (cookies, r) h
        λ _ s1 e1 h1.
          bind-elim _ (lift (validate_registration body)) _ s1 t (cookies, r) h1
            λ _ s2 e2 h2.
              let same : s2.pg ≡ s.pg =
                step-pg p (lift (validate_registration body)) s1 s2 tt (λ x. refl) e2
                ∙ step-pg p limit s s1 tt
                    (check_rate_limit-pg p config prefix (codes "register:" ++ ip)
                      config.rate_limits.register_window_secs config.rate_limits.register_max)
                    e1 in
              let (missing, opened) = open_account-ok body s2 t (cookies, r) h2 in
              let (missing', opened') =
                subst
                  (λ d.
                    (p.postgres.find_by_email d body.email ≡ none) × Inserts body d r.user.id t.pg)
                  same (missing, opened) in
              (ap (λ x. x.0) e2, missing', opened')
