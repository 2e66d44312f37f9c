-- ===== src/Auth/Routes/Password/Laws.antt =====
-- What `reset_password` of backend/auth/src/routes.rs asks for.
use fullstackhex.Base.{
  ℕ, ◌==◌, arith, ◌≡◌, ◌≢◌, ◌∙◌, ◌⊎◌, inl, inr, refl, sym, ap, subst, Text, codes, [], Option, none,
  some, Result, ok, err, fail_if, eq_iff, Result-cases, Option-cases, ok_or,
}
use fullstackhex.Base.Exec.{lift, bind-elim, bind-cases, bind-keeps, ◌>>=◌, ◌>>◌}
use fullstackhex.Domain.Errors.{ApiError, unauthorized}
use fullstackhex.Cache.Client.{make_key, string_of}
use fullstackhex.Cache.Store.{cache_get, cache_delete}
use fullstackhex.Cache.Session.{session_destroy_all_for_user}
use fullstackhex.Auth.Config.{AuthConfig}
use fullstackhex.Auth.App.{Platform, App, AppM, redis, query}
use fullstackhex.Auth.Routes.Tokens.{hash_password}
use fullstackhex.Auth.Routes.Tokens.Keeps.{
  step-pg, query-ok, query-err, hash_password-pg, hash_password-ok,
}
use fullstackhex.Auth.Routes.Password.{
  ResetPasswordRequest, reset_password, validate_reset, bad_reset_token,
}

module _ (p : Platform) (config : AuthConfig) (prefix : Text) where
  stored-get :
      (key : Text) (s t : App p) (v : Option Text)
      → s.cache.net ≡ []
      → redis p (cache_get p.redis prefix p.text_codec (codes "reset") key) s ≡ (ok v, t)
      → (user_id : Text) → v ≡ some user_id
      → (text : Text) × (string_of (p.redis.lookup s.cache.db (make_key prefix (codes "reset") key))
          ≡ ok (some text))
        × (p.text_codec.decode text ≡ some user_id)
  unfolding cache_get
  stored-get key s t v quiet h user_id e =
      elim (Result-cases
        (string_of (p.redis.lookup s.cache.db (make_key prefix (codes "reset") key)))) [
          | inl (none, f) ↦ absurd (cc (e, rw (quiet, f) at h))
          | inl (some text, f) ↦ elim (Option-cases (p.text_codec.decode text)) [
            | inl g ↦ absurd (cc (rw (quiet, f, g) at h))
            | inr (u, g) ↦ (text, f, g ∙ cc (e, rw (quiet, f, g) at h))
          ]
          | inr (x, f) ↦ absurd (cc (rw (quiet, f) at h))
        ]

  ok_or-ok :
      (o : Option Text) (e : ApiError) (s t : App p) (a : Text)
      → lift (ok_or o e) s ≡ (ok a, t)
      → o ≡ some a
  ok_or-ok none e s t a h = absurd (cc h)
  ok_or-ok (some b) e s t a h = grind arith

  -- What a body must bring, and what is then written: for a token that is stored for a user, the
  -- hash of the password with some salt, in the row of that user and no other.
  abbrev pub Resets : ResetPasswordRequest → App p → ℕ → p.postgres.Db → Type 0
  Resets body s rows after =
      (user_id text salt hash : Text) × (validate_reset body ≡ ok tt)
      × (string_of (p.redis.lookup s.cache.db (make_key prefix (codes "reset") body.token))
          ≡ ok (some text))
      × (p.text_codec.decode text ≡ some user_id)
      × (p.hash_password salt body.password ≡ ok hash)
      × (p.postgres.update_password hash user_id s.pg ≡ (rows, after))

  -- The steps after the update.
  abbrev finishing : ResetPasswordRequest → Text → ℕ → AppM p (Unit {0})
  finishing body user_id rows = do
    redis p (cache_delete p.redis prefix (codes "reset") body.token)
    lift (
        fail_if (rows == 0)
          (unauthorized (codes "Cannot reset password for OAuth-linked accounts")))
    redis p (session_destroy_all_for_user p.redis prefix p.session_codec user_id)

  finishing-pg :
      (body : ResetPasswordRequest) (user_id : Text) (rows : ℕ) (s : App p)
      → (finishing body user_id rows s).1.pg ≡ s.pg
  finishing-pg body user_id rows s =
      bind-keeps (λ x. x.pg) (redis p (cache_delete p.redis prefix (codes "reset") body.token)) _
        (λ x. refl)
        (λ _ x.
          bind-keeps (λ y. y.pg)
            (lift (
              fail_if (rows == 0)
                (unauthorized (codes "Cannot reset password for OAuth-linked accounts"))))
            (λ _. redis p (session_destroy_all_for_user p.redis prefix p.session_codec user_id))
            (λ y. refl) (λ _ y. refl) x)
        s

  finishing-rows :
      (body : ResetPasswordRequest) (user_id : Text) (rows : ℕ) (s t : App p)
      → finishing body user_id rows s ≡ (ok tt, t)
      → rows ≢ 0
  finishing-rows body user_id rows s t h none_changed =
      bind-elim _ (redis p (cache_delete p.redis prefix (codes "reset") body.token)) _ s t tt h
        λ _ u e k.
          bind-elim _
            (lift (
              fail_if (rows == 0)
                (unauthorized (codes "Cannot reset password for OAuth-linked accounts"))))
            _ u t tt k λ _ v e' k'. cc (e', (eq_iff rows 0).1 none_changed)

  -- A failure that leaves the database as it was.
  abbrev pub Untouched : App p → App p → Result ApiError (Unit {0}) → Type 0
  Untouched s t r = (r ≢ ok tt) × (t.pg ≡ s.pg)

  untouched :
      (s t : App p) (r : Result ApiError (Unit {0})) (x : ApiError)
      → t.pg ≡ s.pg
      → r ≡ err x
      → Untouched s t r
  untouched s t r x same e = (λ q. cc (q, e), same)

  -- From the update on.
  update-cases :
      (body : ResetPasswordRequest) (user_id hash : Text) (s t : App p)
      (r : Result ApiError (Unit {0}))
      → (do rows ← query p (p.postgres.update_password hash user_id); finishing body user_id rows) s
        ≡ (r, t)
      → Untouched s t r
        ⊎ ((rows : ℕ) × (p.postgres.update_password hash user_id s.pg ≡ (rows, t.pg))
            × ((r ≢ ok tt) ⊎ (rows ≢ 0)))
  update-cases body user_id hash s t r h =
      let update = p.postgres.update_password hash user_id in
      bind-cases _ (query p update) (finishing body user_id) s t r h
        (λ x e q. elim (query-err p update s.queries s t x e) [
          | inl same ↦ inl (untouched s t r x same q)
          | inr ran ↦ inr ((update s.pg).0, ran, inl (λ z. cc (z, q)))
        ])
        λ rows u e k.
          let kept : u.pg ≡ t.pg = sym (finishing-pg body user_id rows u) ∙ ap (λ y. y.1.pg) k in
          let ran = query-ok p update s.queries s u rows e ∙ ap (λ d. (rows, d)) kept in
          inr (
            rows,
            ran,
            elim (Result-cases r) [
              | inl (_, z) ↦ inr (finishing-rows body user_id rows u t (k ∙ ap (λ y. (y, t)) z))
              | inr (x, z) ↦ inl (λ y. cc (y, z))
            ],
          )

  -- From the hashing on, for a token that is stored.
  hashed-cases :
      (body : ResetPasswordRequest) (s s3 t : App p) (r : Result ApiError (Unit {0}))
      (user_id : Text)
      → validate_reset body ≡ ok tt
      → (text : Text) × (string_of
            (p.redis.lookup s.cache.db (make_key prefix (codes "reset") body.token))
          ≡ ok (some text))
        × (p.text_codec.decode text ≡ some user_id)
      → s3.pg ≡ s.pg
      → (do
        hash ← hash_password p config prefix body.password
        rows ← query p (p.postgres.update_password hash user_id)
        finishing body user_id rows)
          s3
        ≡ (r, t)
      → Untouched s t r ⊎ ((rows : ℕ) × Resets body s rows t.pg × ((r ≢ ok tt) ⊎ (rows ≢ 0)))
  hashed-cases body s s3 t r user_id valid (text, at_key, decodes) same h =
      bind-cases _ (hash_password p config prefix body.password) _ s3 t r h
        (λ x e q. inl (
          untouched s t r x
            (ap (λ y. y.1.pg) (sym e) ∙ (hash_password-pg p config prefix body.password s3 ∙ same))
            q))
        λ hash s4 e k.
          let (salt, hashed) = hash_password-ok p config prefix body.password s3 s4 hash e in
          let same4 : s4.pg ≡ s.pg =
            step-pg p (hash_password p config prefix body.password) s3 s4 hash
              (hash_password-pg p config prefix body.password) e
            ∙ same in
          elim (update-cases body user_id hash s4 t r k) [
            | inl (fails, kept) ↦ inl (fails, kept ∙ same4)
            | inr (rows, ran, ends) ↦ inr (
              rows,
              (
                user_id,
                text,
                salt,
                hash,
                valid,
                at_key,
                decodes,
                hashed,
                ap (p.postgres.update_password hash user_id) (sym same4) ∙ ran,
              ),
              ends,
            )
          ]

  -- On a quiet network, however a reset ends: either it fails and leaves the database as it was, or
  -- the password and token passed the checks, the token was stored for a user, and the database has
  -- changed by one update alone, that of this user's row to a hash of the new password; the reset
  -- succeeds only if that changed a row.
  pub reset_password_sound :
      (body : ResetPasswordRequest) (s t : App p) (r : Result ApiError (Unit {0}))
      → s.cache.net ≡ []
      → reset_password p config prefix body s ≡ (r, t)
      → Untouched s t r ⊎ ((rows : ℕ) × Resets body s rows t.pg × ((r ≢ ok tt) ⊎ (rows ≢ 0)))
  unfolding reset_password
  reset_password_sound body s t r quiet h =
      bind-cases _ (lift (validate_reset body)) _ s t r h
        (λ x e q. inl (untouched s t r x (ap (λ y. y.1.pg) (sym e)) q))
        λ _ s1 e1 h1.
          bind-cases _ (redis p (cache_get p.redis prefix p.text_codec (codes "reset") body.token))
            _ s1 t r h1
            (λ x e q.
              inl (untouched s t r x (ap (λ y. y.1.pg) (sym e) ∙ ap (λ y. y.1.pg) (sym e1)) q))
            λ found s2 e2 h2.
              let same2 : s2.pg ≡ s.pg = ap (λ y. y.1.pg) (sym e2) ∙ ap (λ y. y.1.pg) (sym e1) in
              bind-cases _ (lift (ok_or found (bad_reset_token p config prefix))) _ s2 t r h2
                (λ x e q. inl (untouched s t r x (ap (λ y. y.1.pg) (sym e) ∙ same2) q))
                λ user_id s3 e3 h3.
                  let same3 : s3.pg ≡ s.pg = ap (λ y. y.1.pg) (sym e3) ∙ same2 in
                  let stored =
                    stored-get body.token s s2 found quiet
                      (subst
                        (λ y.
                          redis p (cache_get p.redis prefix p.text_codec (codes "reset") body.token)
                            y
                          ≡ (ok found, s2))
                        (ap (λ y. y.1) (sym e1)) e2)
                      user_id (ok_or-ok found (bad_reset_token p config prefix) s2 s3 user_id e3) in
                  hashed-cases body s s3 t r user_id (ap (λ y. y.0) e1) stored same3 h3
