-- ===== src/Api/Live/Accept.antt =====
-- Whom `validate_ws_connection` of backend/api/src/live.rs lets in.
use fullstackhex.Domain.Errors.{CacheError}
use fullstackhex.Base.{
  ◌/◌, ◌≡◌, Text, Option, none, some, Result, ok, err, Bool-cases, Option-cases, Result-cases, inl,
  inr, ◌⊎◌, true, refl, text_eq, text_eq_iff, ap, subst, sym, ◌∙◌,
}
use fullstackhex.Base.Exec.{bind-ok, lift, continue, pure, bind-keeps}
use fullstackhex.Cache.Client.{Session}
use fullstackhex.Cache.Session.{session_get}
use fullstackhex.Auth.Config.{AuthConfig}
use fullstackhex.Auth.App.{Platform, App, Claims, cached}
use fullstackhex.Api.Live.{
  Live, LiveConfig, WsHeaders, validate_ws_connection, ws_user, cookie_authenticated, admit,
  check_origin, look_up, session_cookie, owner, credentials, required, take_permit, admitted,
  Refusal, Slots,
}

module _ (p : Platform) (c : LiveConfig) where
  -- The two ways of proving who one is: a token that verifies, or the cookie of a session that the
  -- lookup finds.
  abbrev pub Known : AuthConfig → WsHeaders → Option Text → Text → Live p → Type 0
  Known a headers token user s =
      ((t : Text) × (claims : Claims) × (token ≡ some t)
        × (p.read_claims a.jwt_secret a.jwt_issuer (s.app.cache.now_ms / 1000) t ≡ ok claims)
        × (claims.sub ≡ user))
      ⊎ ((id : Text) × (session : Session) × (b : App p) × (token ≡ none)
          × (session_cookie p c headers.cookie ≡ some id)
          × (cached p (session_get p.redis c.prefix p.session_codec id) s.app ≡ (ok session, b))
          × (session.user_id ≡ user))

  owner_ok :
      (s t : Live p) (r : Result CacheError Session × App p) (u : Text)
      → owner p c s r ≡ (ok (some u), t)
      → (session : Session) × (b : App p) × (r ≡ (ok session, b)) × (session.user_id ≡ u)
  owner_ok s t (ok session, b) u h = (session, b, refl, cc h)
  owner_ok s t (err e, b) u h = absurd (cc h)

  look_up_ok :
      (s t : Live p) (id : Option Text) (u : Text)
      → look_up p c id s ≡ (ok (some u), t)
      → (i : Text) × (session : Session) × (b : App p) × (id ≡ some i)
        × (cached p (session_get p.redis c.prefix p.session_codec i) s.app ≡ (ok session, b))
        × (session.user_id ≡ u)
  look_up_ok s t none u h = absurd (cc h)
  look_up_ok s t (some i) u h = elim (Bool-cases c.redis_enabled) [
    | inl e ↦ let o = owner_ok s t _ u (rw e at h) in (i, o.0, o.1, refl, o.2, o.3)
    | inr e ↦ absurd (cc (rw e at h))
  ]

  credentials_ok :
      (a : AuthConfig) (headers : WsHeaders) (token : Option Text) (s t : Live p) (u : Text)
      → credentials p c a headers token s ≡ (ok (some u), t)
      → Known a headers token u s
  unfolding cookie_authenticated
  credentials_ok a headers none s t u h =
      let l = look_up_ok s t (session_cookie p c headers.cookie) u h in
      inr (l.0, l.1, l.2, refl, l.3, l.4, l.5)
  credentials_ok a headers (some tok) s t u h =
      elim (Result-cases
        (p.read_claims a.jwt_secret a.jwt_issuer (s.app.cache.now_ms / 1000) tok)) [
          | inl (claims, e) ↦ inl (tok, claims, refl, e, cc (rw e at h))
          | inr (x, e) ↦ absurd (cc (rw e at h))
        ]

  -- The user's identity that a permitted upgrade counts under, with authentication configured.
  ws_user_ok :
      (a : AuthConfig) (headers : WsHeaders) (token : Option Text) (s t : Live p) (u : Option Text)
      → ws_user p c (some a) headers token s ≡ (ok u, t)
      → (v : Text) × (u ≡ some v) × Known a headers token v s
  unfolding ws_user
  ws_user_ok a headers token s t u h =
      let (w, x, e, k) = bind-ok (credentials p c a headers token) (required p c) s t u h in
      elim (Option-cases w) [
        | inl n ↦ absurd (cc (rw n at k))
        | inr (v, n) ↦ (v, cc (rw n at k), credentials_ok a headers token s x v (rw n at e))
      ]

  owner_slots :
      (s : Live p) (r : Result CacheError Session × App p) → (owner p c s r).1.slots ≡ s.slots
  owner_slots s (ok session, b) = refl
  owner_slots s (err e, b) = refl

  look_up_slots : (id : Option Text) (s : Live p) → (look_up p c id s).1.slots ≡ s.slots
  look_up_slots none s = refl
  look_up_slots (some i) s = elim (Bool-cases c.redis_enabled) [
    | inl e ↦ rw e (owner_slots s _)
    | inr e ↦ rw e refl
  ]

  credentials_slots :
      (a : AuthConfig) (headers : WsHeaders) (token : Option Text) (s : Live p)
      → (credentials p c a headers token s).1.slots ≡ s.slots
  unfolding cookie_authenticated
  credentials_slots a headers none s = look_up_slots (session_cookie p c headers.cookie) s
  credentials_slots a headers (some tok) s = refl

  required_slots : (u : Option Text) (s : Live p) → (required p c u s).1.slots ≡ s.slots
  required_slots none s = refl
  required_slots (some v) s = refl

  ws_user_slots :
      (a : AuthConfig) (headers : WsHeaders) (token : Option Text) (s : Live p)
      → (ws_user p c (some a) headers token s).1.slots ≡ s.slots
  unfolding ws_user
  ws_user_slots a headers token =
      bind-keeps (λ x. x.slots) (credentials p c a headers token) (required p c)
        (credentials_slots a headers token) required_slots

  check_origin_ok :
      (allowed origin : Option Text)
      → check_origin allowed origin ≡ ok tt
      → (o : Text) → allowed ≡ some o
      → origin ≡ some o
  unfolding check_origin
  check_origin_ok none origin h o k = absurd (cc k)
  check_origin_ok (some a) none h o k = absurd (cc h)
  check_origin_ok (some a) (some b) h o k = elim (Bool-cases (text_eq b a)) [
    | inl e ↦ cc ((text_eq_iff b a).0 e, k)
    | inr e ↦ absurd (cc (rw e at h))
  ]

  admitted_ok :
      (s t : Live p) (q : Result Refusal (Unit {0}) × Slots) (user u : Option Text)
      → continue (admitted p c s q) (λ _. pure user) ≡ (ok u, t)
      → (u ≡ user) × (q ≡ (ok tt, t.slots))
  admitted_ok s t (ok x, z) user u h = (cc (ap (λ r. r.0) h), cc (ap (λ r. r.1.slots) h))
  admitted_ok s t (err e, z) user u h = absurd (cc h)

  take_permit_ok :
      (user u : Option Text) (s t : Live p)
      → take_permit p c user s ≡ (ok u, t)
      → (u ≡ user)
        × (c.redis_enabled ≡ true)
        × (admit c.per_user_max user s.slots ≡ (ok tt, t.slots))
  unfolding take_permit
  take_permit_ok user u s t h = elim (Bool-cases c.redis_enabled) [
    | inl e ↦
        let (v, k) = admitted_ok s t (admit c.per_user_max user s.slots) user u (rw e at h) in
        (v, e, k)
    | inr e ↦ absurd (cc (rw e at h))
  ]

  accepted :
      (a : AuthConfig) (headers : WsHeaders) (token : Option Text) (s s1 s2 t : Live p)
      (o : Unit {0}) (u user : Option Text)
      → (check_origin c.allowed_origin headers.origin ≡ ok o) × (s ≡ s1)
      → ws_user p c (some a) headers token s1 ≡ (ok u, s2)
      → take_permit p c u s2 ≡ (ok user, t)
      → ((v : Text) × (user ≡ some v) × Known a headers token v s)
        × ((o : Text) → c.allowed_origin ≡ some o → headers.origin ≡ some o)
        × (c.redis_enabled ≡ true)
        × (admit c.per_user_max user s.slots ≡ (ok tt, t.slots))
  accepted a headers token s s1 s2 t o u user (e1, same) e2 e3 =
      let (v, ev, known) = ws_user_ok a headers token s1 s2 u e2 in
      let (mine, enabled, slot) = take_permit_ok u user s2 t e3 in
      let kept = ws_user_slots a headers token s1 in
      (
        (v, mine ∙ ev, subst (λ x. Known a headers token v x) (sym same) known),
        check_origin_ok c.allowed_origin headers.origin e1,
        enabled,
        rw mine (
            subst (λ x. admit c.per_user_max u x ≡ (ok tt, t.slots))
              (sym (ap (λ r. r.1.slots) e2) ∙ kept ∙ sym (ap (λ x. x.slots) same)) slot),
      )

  -- With authentication configured, an upgrade is permitted only for a known user: one whose token
  -- verifies, or whose session cookie names a session that the lookup finds; with an allowed origin
  -- configured, only from it; and only with Redis configured, and a slot
  -- taken.
  pub live_accept_sound :
      (a : AuthConfig) (headers : WsHeaders) (token : Option Text) (s t : Live p)
      (user : Option Text)
      → c.auth ≡ some a
      → validate_ws_connection p c headers token s ≡ (ok user, t)
      → ((v : Text) × (user ≡ some v) × Known a headers token v s)
        × ((o : Text) → c.allowed_origin ≡ some o → headers.origin ≡ some o)
        × (c.redis_enabled ≡ true)
        × (admit c.per_user_max user s.slots ≡ (ok tt, t.slots))
  unfolding validate_ws_connection
  live_accept_sound a headers token s t user ha h =
      let (o, s1, e1, h1) =
        bind-ok (lift (check_origin c.allowed_origin headers.origin)) _ s t user h in
      let (u, s2, e2, e3) =
        bind-ok (ws_user p c c.auth headers token) (take_permit p c) s1 t user h1 in
      accepted a headers token s s1 s2 t o u user (ap (λ r. r.0) e1, ap (λ r. r.1) e1)
        (subst (λ x. ws_user p c x headers token s1 ≡ (ok u, s2)) ha e2) e3
