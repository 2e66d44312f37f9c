-- ===== src/Storage/Routes/Confinement.antt =====
-- backend/storage/src/routes.rs: where the requests of the object routes go.
use fullstackhex.Base.{
  ◌≡◌, ◌⊎◌, inl, inr, Text, codes, text_eq, text_eq_iff, List, [], ◌∷◌, Option, none, some, Result,
  ok, refl, ap, sym, ◌∙◌, Result-cases, Bool-cases, fail_if, not, subst,
}
use fullstackhex.Base.Exec.{lift, ◌>>=◌, bind-keeps, continue-keeps}
use fullstackhex.Domain.Errors.{ApiError}
use fullstackhex.Storage.Keys.{validate_storage_key, user_key}
use fullstackhex.Storage.Config.{StorageConfig}
use fullstackhex.Storage.Sign.{
  Crypto, Url, SignedRequest, build_object_url, presigned_url, sign_request_unsigned, sign_request,
  or_text,
}
use fullstackhex.Storage.Client.{
  HttpRequest, HttpResponse, Wire, WireM, object_url, send, upload_streaming, download_streaming,
  request, is_success, http_status, missing, check_length, announced,
}
use fullstackhex.Storage.Client
use fullstackhex.Storage.Multipart.{XmlEvent}
use fullstackhex.Storage.Routes.{
  upload, download, delete, presign, check_method, presign_method, PresignRequest, PresignResponse,
  or_else,
}

module _ (lib : Crypto) (c : StorageConfig) where
  -- At most one request was sent, and it went to the object of the key.
  abbrev pub SentTo : Text → List HttpRequest → List HttpRequest → Type 0
  SentTo key before now =
      (now ≡ before)
      ⊎ ((url : Url) × (r : HttpRequest) × (build_object_url lib c.endpoint c.bucket key ≡ ok url)
          × (r.url ≡ url.text)
          × (now ≡ r ∷ before))

  send_sent : (context : Text) (r : HttpRequest) (s : Wire) → (send context r s).1.sent ≡ r ∷ s.sent
  send_sent context r s = sent_as s.answers refl
    where
      sent_as : (answers : _) → s.answers ≡ answers → (send context r s).1.sent ≡ r ∷ s.sent
      sent_as [] e = rw e refl
      sent_as (a ∷ rest) e = rw e refl

  record Quiet {A : Type 0} (m : WireM A) : Type 0 where
    pub quiet : (s : Wire) → (m s).1.sent ≡ s.sent

  Quiet-lift : {A : Type 0} (r : Result ApiError A) → Quiet (lift r)
  Quiet-lift r = record { quiet = λ s. refl }

  Quiet-bind :
      {A B : Type 0} (m : WireM A) (f : A → WireM B)
      → Quiet m
      → ((a : A) → Quiet (f a))
      → Quiet (m >>= f)
  Quiet-bind m f h k = record {
    quiet = bind-keeps (λ s. s.sent) m f (λ s. h.quiet s) (λ a s. (k a).quiet s);
  }

  bind-keeps-after :
      {A : Type 0} (context : Text) (r : HttpRequest) (rest : HttpResponse → WireM A)
      → ((resp : HttpResponse) → Quiet (rest resp))
      → (s : Wire) → ((send context r >>= rest) s).1.sent ≡ r ∷ s.sent
  bind-keeps-after context r rest quiet s =
      continue-keeps (λ t. t.sent) (send context r s) rest (λ resp t. (quiet resp).quiet t)
      ∙ send_sent context r s

  -- An operation on one object: the URL, the signature, the request, and what is made of the answer.
  sent-once :
      {A : Type 0} (key context : Text) (sign : Url → Text → Result ApiError SignedRequest)
      (req : Url → SignedRequest → HttpRequest) (rest : HttpResponse → WireM A)
      → ((url : Url) (g : SignedRequest) → (req url g).url ≡ url.text)
      → ((resp : HttpResponse) → Quiet (rest resp))
      → (s : Wire)
      → SentTo key s.sent
          ((object_url lib c key >>= λ url.
              (λ s. (sign url s.amz_date, s)) >>= λ g. send context (req url g) >>= rest)
            s).1.sent
  sent-once key context sign req rest at quiet s =
      elim (Result-cases (build_object_url lib c.endpoint c.bucket key)) [
        | inr (e, h) ↦ inl (rw h refl)
        | inl (url, h) ↦ elim (Result-cases (sign url s.amz_date)) [
          | inr (e, k) ↦ inl (rw (h, k) refl)
          | inl (g, k) ↦ inr (
            url,
            req url g,
            h,
            at url g,
            rw (h, k) (bind-keeps-after context (req url g) rest quiet s),
          )
        ]
      ]

  upload_streaming-SentTo :
      (key content_type body : Text) (s : Wire)
      → SentTo key s.sent (upload_streaming lib c key content_type body s).1.sent
  unfolding upload_streaming
  upload_streaming-SentTo key content_type body s =
      sent-once key (codes "Upload failed: ")
        (λ url at. sign_request_unsigned lib c at (codes "PUT") url.text content_type)
        (λ url g. request lib c (codes "PUT") url.text g (some content_type) body) _ (λ url g. refl)
        (λ resp. Quiet-lift _) s

  download_streaming-SentTo :
      (key : Text) (s : Wire) → SentTo key s.sent (download_streaming lib c key s).1.sent
  unfolding download_streaming
  download_streaming-SentTo key s =
      sent-once key (codes "Download failed: ")
        (λ url at. sign_request_unsigned lib c at (codes "GET") url.text [])
        (λ url g. request lib c (codes "GET") url.text g none []) _ (λ url g. refl)
        (λ resp.
          Quiet-bind (lift (fail_if (not (is_success resp)) (missing lib c key))) _ (Quiet-lift _)
            (λ a.
              Quiet-bind (lift (check_length lib c key (announced lib c resp.content_length))) _
                (Quiet-lift _) (λ b. Quiet-lift (ok resp))))
        s

  delete-SentTo : (key : Text) (s : Wire) → SentTo key s.sent (Client.delete lib c key s).1.sent
  unfolding Client.delete
  delete-SentTo key s =
      sent-once key (codes "Delete failed: ")
        (λ url at. sign_request lib c at (codes "DELETE") url.text [] [])
        (λ url g. request lib c (codes "DELETE") url.text g none []) _ (λ url g. refl)
        (λ resp. Quiet-lift _) s

  -- What follows does not send.
  then-Quiet :
      {A B : Type 0} (key : Text) (op : WireM A) (f : A → WireM B) (s : Wire)
      → ((a : A) → Quiet (f a))
      → SentTo key s.sent (op s).1.sent
      → SentTo key s.sent ((op >>= f) s).1.sent
  then-Quiet key op f s q h =
      subst (SentTo key s.sent) (sym (continue-keeps (λ t. t.sent) (op s) f (λ a t. (q a).quiet t)))
        h

  -- A request goes to the object of a valid key, or nothing is sent.
  abbrev pub Confined : (Text → Option Text) → Text → Text → Wire → Wire → Type 0
  Confined decode user_id key s t =
      (t.sent ≡ s.sent)
      ⊎ ((validate_storage_key decode key ≡ ok tt) × SentTo (user_key user_id key) s.sent t.sent)

  checked_first :
      {A : Type 0} (decode : Text → Option Text) (user_id key : Text) (op : WireM A) (s : Wire)
      → SentTo (user_key user_id key) s.sent (op s).1.sent
      → Confined decode user_id key s ((lift (validate_storage_key decode key) >>= λ u. op) s).1
  checked_first decode user_id key op s h = elim (Result-cases (validate_storage_key decode key)) [
    | inr (e, k) ↦ inl (rw k refl)
    | inl (u, k) ↦ inr (k, rw k h)
  ]

  -- The object routes `upload`, `download` and `delete` of a user send nothing for a key that does
  -- not validate, and otherwise at most one request, to the URL of the object whose key is the given
  -- one under the user's prefix.
  pub object_routes-Confined :
      (xml_events : Text → List XmlEvent) (decode : Text → Option Text) (user_id key body : Text)
      (s : Wire)
      → Confined decode user_id key s (upload lib c xml_events decode user_id key body s).1
        × Confined decode user_id key s (download lib c xml_events decode user_id key s).1
        × Confined decode user_id key s (delete lib c xml_events decode user_id key s).1
  unfolding upload download delete
  object_routes-Confined xml_events decode user_id key body s = (
    checked_first decode user_id key _ s (
        then-Quiet (user_key user_id key)
          (upload_streaming lib c (user_key user_id key) (codes "application/octet-stream") body) _
          s (λ a. Quiet-lift (ok 201))
          (upload_streaming-SentTo (user_key user_id key) (codes "application/octet-stream") body
            s)),
    checked_first decode user_id key _ s (
        then-Quiet (user_key user_id key) (download_streaming lib c (user_key user_id key)) _ s
          (λ resp.
            Quiet-lift (ok (or_text resp.content_type (codes "application/octet-stream"), resp)))
          (download_streaming-SentTo (user_key user_id key) s)),
    checked_first decode user_id key _ s (
        then-Quiet (user_key user_id key) (Client.delete lib c (user_key user_id key)) _ s
          (λ a. Quiet-lift (ok 204)) (delete-SentTo (user_key user_id key) s)),
  )

  check_method_ok :
      (m : Text) (u : Unit {0}) → check_method m ≡ ok u → (m ≡ codes "GET") ⊎ (m ≡ codes "PUT")
  unfolding check_method
  check_method_ok m u h = elim (Bool-cases (text_eq m (codes "GET"))) [
    | inl e ↦ inl ((text_eq_iff m (codes "GET")).0 e)
    | inr e ↦ elim (Bool-cases (text_eq m (codes "PUT"))) [
      | inl f ↦ inr ((text_eq_iff m (codes "PUT")).0 f)
      | inr f ↦ absurd (cc (rw (e, f) at h))
    ]
  ]

  -- A presigned URL is made only for the methods GET and PUT and for a valid key, it is the signed
  -- URL of that key under the user's prefix for that method and life time, and no request is sent.
  pub presign_sound :
      (xml_events : Text → List XmlEvent) (decode : Text → Option Text) (user_id : Text)
      (body : PresignRequest) (s t : Wire) (r : PresignResponse)
      → presign lib c xml_events decode user_id body s ≡ (ok r, t)
      → ((r.method ≡ codes "GET") ⊎ (r.method ≡ codes "PUT"))
        × (validate_storage_key decode body.key ≡ ok tt)
        × (presigned_url lib c s.amz_date (user_key user_id body.key) r.method r.expires_in
            ≡ ok r.url)
        × (t ≡ s)
  unfolding presign
  presign_sound xml_events decode user_id body s t r h =
      elim (Result-cases (check_method (presign_method body.method))) [
        | inr (e, f) ↦ absurd (cc (rw f at h))
        | inl (u, f) ↦ elim (Result-cases (validate_storage_key decode body.key)) [
          | inr (e, g) ↦ absurd (cc (rw (f, g) at h))
          | inl (v, g) ↦
              elim (Result-cases (
                presigned_url lib c s.amz_date (user_key user_id body.key)
                  (presign_method body.method) (or_else body.expiry_secs 3600))) [
                    | inr (e, k) ↦ absurd (cc (rw (f, g, k) at h))
                    | inl (url, k) ↦
                        let made = rw (f, g, k) at h in
                        let m : presign_method body.method ≡ r.method = cc made in
                        let life : or_else body.expiry_secs 3600 ≡ r.expires_in = cc made in
                        let at : url ≡ r.url = cc made in
                        (
                          rw (sym m) (check_method_ok (presign_method body.method) u f),
                          g,
                          rw (sym m, sym life) (k ∙ ap ok at),
                          cc made,
                        )
                  ]
        ]
      ]
