-- ===== src/Auth/Routes/Oauth/State.antt =====
-- The single use of a state in `oauth_callback` of backend/auth/src/routes.rs.
use fullstackhex.Base.{
  ◌≡◌, ◌∙◌, inl, inr, refl, sym, ap, Text, codes, [], Option, none, text_eq_refl, ok, err,
  Result-cases, ok_or,
}
use fullstackhex.Base.Exec.{lift, bind-ok}
use fullstackhex.Domain.Errors.{ApiError, unauthorized}
use fullstackhex.Cache.Client.{World, make_key, string_of}
use fullstackhex.Cache.Store.{cache_get_delete}
use fullstackhex.Auth.Config.{AuthConfig}
use fullstackhex.Auth.OauthState.{OAuthProvider, parse_stored_oauth_state}
use fullstackhex.Auth.App.{Platform, App, redis}
use fullstackhex.Auth.Routes.Oauth.{take_state}

module _ (p : Platform) (config : AuthConfig) (prefix : Text) where
  abbrev state_key : Text → Text
  state_key state = make_key prefix (codes "oauth_csrf") state

  abbrev pub expired : ApiError
  expired = unauthorized (codes "Invalid or expired OAuth state")

  getdel-deletes :
      (state : Text) (w : World p.redis) (v : Option Text)
      → w.net ≡ []
      → string_of (p.redis.lookup w.db (state_key state)) ≡ ok v
      → (cache_get_delete p.redis prefix p.text_codec (codes "oauth_csrf") state w).1.db
        ≡ p.redis.del (state_key state) w.db
  unfolding cache_get_delete
  getdel-deletes state w v quiet e = rw (quiet, e) refl

  getdel-readable :
      (state : Text) (s t : App p) (found : Option Text)
      → s.cache.net ≡ []
      → redis p (cache_get_delete p.redis prefix p.text_codec (codes "oauth_csrf") state) s
        ≡ (ok found, t)
      → (v : Option Text) × (string_of (p.redis.lookup s.cache.db (state_key state)) ≡ ok v)
  unfolding cache_get_delete
  getdel-readable state s t found quiet h =
      elim (Result-cases (string_of (p.redis.lookup s.cache.db (state_key state)))) [
        | inl (v, e) ↦ (v, e)
        | inr (x, e) ↦ absurd (cc (rw (quiet, e) at h))
      ]

  take-missing :
      (provider : OAuthProvider) (state : Text) (header : Option Text) (s : App p)
      → s.cache.net ≡ []
      → p.redis.lookup s.cache.db (state_key state) ≡ none
      → (take_state p config prefix provider state header s).0 ≡ err expired
  unfolding take_state cache_get_delete
  take-missing provider state header s quiet missing = rw (quiet, missing) refl

  take-gone :
      (provider : OAuthProvider) (state : Text) (header : Option Text) (s t : App p)
      → s.cache.net ≡ []
      → take_state p config prefix provider state header s ≡ (ok tt, t)
      → p.redis.lookup t.cache.db (state_key state) ≡ none
  unfolding take_state
  take-gone provider state header s t quiet h =
      let (found, s1, e1, h1) =
        bind-ok (redis p (cache_get_delete p.redis prefix p.text_codec (codes "oauth_csrf") state))
          _ s t tt h in
      let (stored, s2, e2, h2) = bind-ok (lift (ok_or found expired)) _ s1 t tt h1 in
      let (parsed, s3, e3, h3) =
        bind-ok (lift (parse_stored_oauth_state p.from_json stored)) _ s2 t tt h2 in
      let (v, readable) = getdel-readable state s s1 found quiet e1 in
      let kept : t.cache.db
          ≡ (cache_get_delete p.redis prefix p.text_codec (codes "oauth_csrf") state s.cache).1.db =
        ap (λ x. x.1.cache.db) (sym h3)
        ∙ (ap (λ x. x.1.cache.db) (sym e3)
            ∙ (ap (λ x. x.1.cache.db) (sym e2) ∙ ap (λ x. x.1.cache.db) (sym e1))) in
      rw
        (
          kept,
          getdel-deletes state s.cache v quiet readable,
          p.redis.lookup-del (state_key state) s.cache.db (state_key state),
          text_eq_refl (state_key state),
        )
        refl

  -- A state that a callback has taken on a quiet network is refused from then on, for any provider
  -- and session, while the state's key has not been written again.
  pub oauth_state_once :
      (provider other : OAuthProvider) (state : Text) (header other_header : Option Text)
      (s t u : App p)
      → s.cache.net ≡ []
      → take_state p config prefix provider state header s ≡ (ok tt, t)
      → u.cache.net ≡ []
      → p.redis.lookup u.cache.db (state_key state) ≡ p.redis.lookup t.cache.db (state_key state)
      → (take_state p config prefix other state other_header u).0 ≡ err expired
  oauth_state_once provider other state header other_header s t u quiet h quiet' same =
      take-missing other state other_header u quiet'
        (same ∙ take-gone provider state header s t quiet h)
