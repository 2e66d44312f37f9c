-- ===== src/Auth/Provider/Laws.antt =====
-- backend/auth/src/oauth.rs: where the address that a sign-in rests on comes from.
use mathlib.Core.List.{Memᴰ}
use fullstackhex.Base.{
  ◌≡◌, ◌⊎◌, refl, sym, ◌∙◌, subst, inl, inr, Bool, true, false, not, Bool-cases, Text, codes, List,
  [], ◌∷◌, ◌++◌, Option, none, some, Result, ok, err, map_err, map_err-ok, fail_if, ok_or, ◌>>=◌,
}
use fullstackhex.Domain.Errors.{internal_error}
use fullstackhex.Auth.OauthState.{OAuthProvider, google, git_hub}
use fullstackhex.Auth.Provider.{
  Web, OAuthService, OAuthUserInfo, ConfiguredClient, GoogleUserInfo, GitHubUser, GitHubEmail,
  HttpResponse, is_success, get_client, exchange_code, fetch, fetch_user_info,
  fetch_google_user_info, fetch_github_user_info, fetch_github_primary_email, github_email,
  first_primary, google_user, github_user, github_emails, bearer, agent, no_email, show_i64,
  or_login,
}

result_bind-ok :
    {E A B : Type 0} (r : Result E A) (f : A → Result E B) (b : B)
    → (r >>= f) ≡ ok b
    → (a : A) × (r ≡ ok a) × (f a ≡ ok b)
result_bind-ok (ok a) f b h = (a, refl, h)
result_bind-ok (err e) f b h = absurd (cc h)

ok_or-ok : {E A : Type 0} (o : Option A) (e : E) (a : A) → ok_or o e ≡ ok a → o ≡ some a
ok_or-ok none e a h = absurd (cc h)
ok_or-ok (some b) e a h = cc h

fail_if-ok : {E : Type 0} (b : Bool) (e : E) (u : Unit {0}) → fail_if (not b) e ≡ ok u → b ≡ true
fail_if-ok true e u h = refl
fail_if-ok false e u h = absurd (cc h)

module _ (web : Web) where
  -- The resource was answered with a success, and its body reads as the value.
  Answered : {A : Type 0} → Text → List (Text × Text) → (Text → Result Text A) → A → Type 0
  Answered url headers read a =
      (resp : HttpResponse) × (web.get url headers ≡ ok resp)
      × (is_success resp.status ≡ true)
      × (read resp.body ≡ ok a)

  fetch-ok :
      {A : Type 0} (f g h url : Text) (headers : List (Text × Text)) (read : Text → Result Text A)
      (a : A)
      → fetch web f g h url headers read ≡ ok a
      → Answered url headers read a
  unfolding fetch Answered
  fetch-ok f g h url headers read a q =
      let (resp, got, r) =
        result_bind-ok (map_err (λ e. internal_error (f ++ e)) (web.get url headers)) _ a q in
      let (u, passed, s) = result_bind-ok (fail_if (not (is_success resp.status)) _) _ a r in
      (resp, map_err-ok _ _ resp got, fail_if-ok _ _ u passed, map_err-ok _ _ a s)

  -- A primary address of the list.
  Primary : Text → List GitHubEmail → Type 0
  Primary email es = (e : GitHubEmail) × Memᴰ e es × (e.primary ≡ true) × (e.email ≡ email)

  first_primary-Primary :
      (es : List GitHubEmail) (email : Text) → first_primary web es ≡ some email → Primary email es
  unfolding Primary
  first_primary-Primary [] email h = absurd (cc h)
  first_primary-Primary (e ∷ es) email h = elim (Bool-cases e.primary) [
    | inl p ↦ (e, Memᴰ.head refl, p, cc (rw p at h))
    | inr p ↦
        let (f, m, q, r) = first_primary-Primary es email (rw p at h) in (f, Memᴰ.tail m, q, r)
  ]

  -- The public address is the user's, or there is none and the address is a primary one.
  Chosen : Text → Option Text → Text → Type 0
  unfolding Answered Primary
  Chosen token public email =
      (public ≡ some email)
      ⊎ ((es : List GitHubEmail) × (public ≡ none)
          × Answered (codes "https://api.github.com/user/emails")
              (bearer web token ∷ agent web ∷ []) web.read_github_emails es
          × Primary email es)

  -- Where an address comes from, for an access token.
  unfoldable pub Vouched : OAuthProvider → Text → Text → Type 0
  unfolding Answered Chosen
  Vouched google token email =
      (u : GoogleUserInfo) × Answered (codes "https://www.googleapis.com/oauth2/v2/userinfo")
        (bearer web token ∷ []) web.read_google_user u
      × (u.email ≡ email)
  Vouched git_hub token email =
      (u : GitHubUser) × Answered (codes "https://api.github.com/user")
        (bearer web token ∷ agent web ∷ []) web.read_github_user u
      × Chosen token u.email email

  google-ok :
      (token : Text) (u : GoogleUserInfo)
      → google_user web token ≡ ok u
      → Answered
          (codes "https://www.googleapis.com/oauth2/v2/userinfo")
          (bearer web token ∷ [])
          web.read_google_user
          u
  unfolding google_user
  google-ok token u q =
      fetch-ok (codes "Google userinfo request failed: ") (codes "Google userinfo failed: HTTP ")
        (codes "Google userinfo parse failed: ") _ _ web.read_google_user u q

  github-ok :
      (token : Text) (u : GitHubUser)
      → github_user web token ≡ ok u
      → Answered
          (codes "https://api.github.com/user")
          (bearer web token ∷ agent web ∷ [])
          web.read_github_user
          u
  unfolding github_user
  github-ok token u q =
      fetch-ok (codes "GitHub user request failed: ") (codes "GitHub user failed: HTTP ")
        (codes "GitHub user parse failed: ") _ _ web.read_github_user u q

  emails-ok :
      (token : Text) (es : List GitHubEmail)
      → github_emails web token ≡ ok es
      → Answered
          (codes "https://api.github.com/user/emails")
          (bearer web token ∷ agent web ∷ [])
          web.read_github_emails
          es
  unfolding github_emails
  emails-ok token es q =
      fetch-ok (codes "GitHub email request failed: ") (codes "GitHub email request failed: HTTP ")
        (codes "GitHub email parse failed: ") _ _ web.read_github_emails es q

  primary_email-ok :
      (token : Text) (found : Option Text)
      → fetch_github_primary_email web token ≡ ok found
      → (es : List GitHubEmail) × (github_emails web token ≡ ok es) × (found ≡ first_primary web es)
  unfolding fetch_github_primary_email
  primary_email-ok token found h =
      let (es, q, s) =
        result_bind-ok (github_emails web token) (λ es. ok (first_primary web es)) found h in
      (es, q, cc s)

  github_email-ok :
      (token : Text) (public : Option Text) (email : Text)
      → github_email web token public ≡ ok email
      → Chosen token public email
  unfolding github_email Chosen
  github_email-ok token (some e) email h = inl (cc h)
  github_email-ok token none email h =
      let (found, f, r) =
        result_bind-ok (fetch_github_primary_email web token) (λ o. ok_or o (no_email web)) email
          h in
      let (es, q, s) = primary_email-ok token found f in
      inr (
        es,
        refl,
        emails-ok token es q,
        first_primary-Primary es email (sym s ∙ ok_or-ok found (no_email web) email r),
      )

  google_info : GoogleUserInfo → OAuthUserInfo
  google_info u = record { provider = google; provider_id = u.id; email = u.email; name = u.name }

  github_info : GitHubUser → Text → OAuthUserInfo
  unfolding show_i64
  github_info u email = record {
    provider = git_hub;
    provider_id = show_i64 u.id;
    email = email;
    name = some (or_login web u.name u.login);
  }

  fetch_user_info-Vouched :
      (provider : OAuthProvider) (token : Text) (info : OAuthUserInfo)
      → fetch_user_info web provider token ≡ ok info
      → (info.provider ≡ provider) × Vouched provider token info.email
  unfolding fetch_user_info fetch_google_user_info fetch_github_user_info Vouched google_info
      github_info
  fetch_user_info-Vouched google token info h =
      let (u, q, r) = result_bind-ok (google_user web token) (λ u. ok (google_info u)) info h in
      (cc r, (u, google-ok token u q, cc r))
  fetch_user_info-Vouched git_hub token info h =
      let (u, q, r) =
        result_bind-ok (github_user web token)
          (λ u. github_email web token u.email >>= λ email. ok (github_info u email)) info h in
      let (email, s, v) =
        result_bind-ok (github_email web token u.email) (λ email. ok (github_info u email)) info
          r in
      (
        cc v,
        (
          u,
          github-ok token u q,
          subst (Chosen token u.email) (cc v) (github_email-ok token u.email email s),
        ),
      )

  -- A code that is exchanged for a user: the provider is configured and gave an access token for the
  -- code, the user is that provider's, and the address is the one that the provider's profile names
  -- for that token, or at GitHub, for a profile that names none, a primary one of the user's list.
  pub exchange_code_sound :
      (s : OAuthService) (provider : OAuthProvider) (code : Text) (info : OAuthUserInfo)
      → exchange_code web s provider code ≡ ok info
      → (client : ConfiguredClient) × (token : Text) × (get_client s provider ≡ ok client)
        × (web.exchange_code client code ≡ ok token)
        × (info.provider ≡ provider)
        × Vouched provider token info.email
  unfolding exchange_code
  exchange_code_sound s provider code info h =
      let (client, c, r) =
        result_bind-ok (get_client s provider)
          (λ client.
            map_err (λ e. internal_error (codes "Token exchange failed: " ++ e))
              (web.exchange_code client code)
            >>= fetch_user_info web provider)
          info h in
      let (token, e, v) =
        result_bind-ok
          (map_err (λ e. internal_error (codes "Token exchange failed: " ++ e))
            (web.exchange_code client code))
          (fetch_user_info web provider) info r in
      let w = fetch_user_info-Vouched provider token info v in
      (client, token, c, map_err-ok _ _ token e, w.0, w.1)
