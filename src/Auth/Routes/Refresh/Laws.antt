-- ===== src/Auth/Routes/Refresh/Laws.antt =====
-- The single use of a refresh token in `refresh` of backend/auth/src/routes.rs.
use fullstackhex.Base.{
  ◌≡◌, ◌∙◌, inl, inr, refl, sym, ap, Text, codes, [], none, some, text_eq_refl, ok, err,
  Result-cases, Bool-cases, is_empty,
}
use fullstackhex.Base.Exec.{bind-ok}
use fullstackhex.Cache.Client.{World, make_key, string_of}
use fullstackhex.Cache.Store.{refresh_token_rotate}
use fullstackhex.Auth.Config.{AuthConfig}
use fullstackhex.Auth.App.{Platform, App, redis}
use fullstackhex.Auth.Routes.Refresh.{take_token, bad_refresh_token}

module _ (p : Platform) (config : AuthConfig) (prefix : Text) where
  abbrev token_key : Text → Text
  token_key token = make_key prefix (codes "refresh") token

  take-missing :
      (token : Text) (s : App p)
      → s.cache.net ≡ []
      → p.redis.lookup s.cache.db (token_key token) ≡ none
      → (take_token p config prefix token s).0 ≡ err bad_refresh_token
  unfolding take_token refresh_token_rotate
  take-missing token s quiet missing = rw (quiet, missing) refl

  rotate-deletes :
      (token v : Text) (w : World p.redis)
      → w.net ≡ []
      → string_of (p.redis.lookup w.db (token_key token)) ≡ ok (some v)
      → (refresh_token_rotate p.redis prefix p.text_codec token w).1.db
        ≡ p.redis.del (token_key token) w.db
  unfolding refresh_token_rotate
  rotate-deletes token v w quiet e = elim (Bool-cases (is_empty v)) [
    | inl f ↦ rw (quiet, e, f) refl
    | inr f ↦ rw (quiet, e, f) refl
  ]

  take-state :
      (token owner : Text) (s t : App p)
      → take_token p config prefix token s ≡ (ok owner, t)
      → t.cache ≡ (refresh_token_rotate p.redis prefix p.text_codec token s.cache).1
  unfolding take_token
  take-state token owner s t h =
      let (o, s1, e, h1) =
        bind-ok (redis p (refresh_token_rotate p.redis prefix p.text_codec token)) _ s t owner h in
      ap (λ x. x.1.cache) (sym h1) ∙ ap (λ x. x.1.cache) (sym e)

  take-gone :
      (token owner : Text) (s t : App p)
      → s.cache.net ≡ []
      → take_token p config prefix token s ≡ (ok owner, t)
      → p.redis.lookup t.cache.db (token_key token) ≡ none
  unfolding take_token refresh_token_rotate
  take-gone token owner s t quiet h =
      elim (Result-cases (string_of (p.redis.lookup s.cache.db (token_key token)))) [
        | inl (none, e) ↦ absurd (cc (rw (quiet, e) at h))
        | inl (some v, e) ↦
            rw
              (
                take-state token owner s t h,
                rotate-deletes token v s.cache quiet e,
                p.redis.lookup-del (token_key token) s.cache.db (token_key token),
                text_eq_refl (token_key token),
              )
              refl
        | inr (x, e) ↦ absurd (cc (rw (quiet, e) at h))
      ]

  -- A refresh token that was taken on a quiet network is refused from then on, by any process that
  -- calls Redis while the token's key has not been written again.
  pub refresh_token_once :
      (token owner : Text) (s t u : App p)
      → s.cache.net ≡ []
      → take_token p config prefix token s ≡ (ok owner, t)
      → u.cache.net ≡ []
      → p.redis.lookup u.cache.db (token_key token) ≡ p.redis.lookup t.cache.db (token_key token)
      → (take_token p config prefix token u).0 ≡ err bad_refresh_token
  refresh_token_once token owner s t u quiet h quiet' same =
      take-missing token u quiet' (same ∙ take-gone token owner s t quiet h)
