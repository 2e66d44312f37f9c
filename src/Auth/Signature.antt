-- ===== src/Auth/Signature.antt =====
-- The HMAC signature of the user that is forwarded to the sidecar, of
-- backend/auth/src/middleware.rs. JSON printing and HMAC-SHA256 are parameters.
use fullstackhex.Base.{
  inl, inr, ℕ, ◌≡◌, ◌≢◌, ◌↔◌, ◌<◌, refl, Bool, true, false, Text, codes, [], ◌∷◌, List, is_empty,
  ◌++◌, arith, if◌then◌else◌, Result, Result-cases, ok, err, map_err, ◌>>=◌, sym,
}
use fullstackhex.Domain.Errors.{ApiError, internal_error}
use fullstackhex.Storage.Sign.{hex}
use fullstackhex.Auth.Util.{IsBytes, constant_time_str_eq, constant_time_eq_iff}

-- The values of the fields of the payload.
pub data JsonValue : Type 0 where
  string : Text → JsonValue
  number : ℕ → JsonValue

unfoldable pub verify_expected : Text → Result ApiError Text → Bool
verify_expected signature (err e) = false
verify_expected signature (ok expected) = constant_time_str_eq expected signature

-- The signed payload.
unfoldable pub auth_payload : (List (Text × JsonValue) → Text) → Text → Text → Text → ℕ → Text
auth_payload to_json user_id email name timestamp = to_json (
    (codes "user_id", string user_id)
    ∷ (codes "email", string email)
    ∷ (codes "name", string name)
    ∷ (codes "timestamp", number timestamp)
    ∷ [])

module _ (to_json : List (Text × JsonValue) → Text) (hmac : Text → Text → Result Text Text) where
  unfoldable pub compute_auth_signature : Text → Text → Text → Text → ℕ → Result ApiError Text
  unfolding auth_payload hex
  compute_auth_signature secret user_id email name timestamp =
      if is_empty secret then err (internal_error (codes "SIDECAR_SHARED_SECRET is empty")) else do
        mac ←
            map_err (λ e. internal_error (codes "HMAC init failed: " ++ e))
              (hmac secret (auth_payload to_json user_id email name timestamp))
        ok (hex mac)

  unfoldable pub verify_auth_signature : Text → Text → Text → Text → ℕ → Text → Bool
  unfolding compute_auth_signature
  verify_auth_signature secret user_id email name timestamp signature =
      verify_expected signature (compute_auth_signature secret user_id email name timestamp)

hex_byte : (b : ℕ) → b < 256 → IsBytes (hex (b ∷ []))
unfolding hex
hex_byte b h = (ground arith, (ground arith, tt))

hex-IsBytes : (t : Text) → IsBytes t → IsBytes (hex t)
unfolding hex
hex-IsBytes [] h = tt
hex-IsBytes (b ∷ bs) (p, h) = let d = hex_byte b p in (d.0, (d.1.0, hex-IsBytes bs h))

verify_expected_iff :
    (signature expected : Text)
    → IsBytes signature
    → IsBytes expected
    → (verify_expected signature (ok expected) ≡ true) ↔ (expected ≡ signature)
unfolding verify_expected constant_time_str_eq
verify_expected_iff signature expected hs he = constant_time_eq_iff expected signature he hs

module _ (to_json : List (Text × JsonValue) → Text) (hmac : Text → Text → Result Text Text)
    (digest_bytes : (key text mac : Text) → hmac key text ≡ ok mac → IsBytes mac) where
  -- A forwarded user is accepted exactly if the secret is not empty, a digest of the user's payload
  -- under that secret is made, and the signature is the hex text of that digest; digests and the
  -- signature are byte strings.
  pub verify_auth_signature_iff :
      (secret user_id email name : Text) (timestamp : ℕ) (signature : Text)
      → IsBytes signature
      → (verify_auth_signature to_json hmac secret user_id email name timestamp signature ≡ true)
        ↔ ((secret ≢ [])
            × ((mac : Text) × (hmac secret (auth_payload to_json user_id email name timestamp)
                  ≡ ok mac)
                × (signature ≡ hex mac)))
  unfolding verify_auth_signature compute_auth_signature verify_expected
  verify_auth_signature_iff [] user_id email name timestamp signature hs =
      (λ h. cc h, λ h. absurd (h.0 refl))
  verify_auth_signature_iff (k ∷ ks) user_id email name timestamp signature hs =
      elim (Result-cases (hmac (k ∷ ks) (auth_payload to_json user_id email name timestamp))) [
        | inl (mac, e) ↦
            let d =
              verify_expected_iff signature (hex mac) hs
                (hex-IsBytes mac (digest_bytes (k ∷ ks) _ mac e)) in
            rw e (λ h. (λ n. cc n, (mac, refl, sym (d.0 h))), λ (n, (m, q, s)). d.1 (cc (s, q)))
        | inr (e, q) ↦ rw q (λ h. cc h, λ (n, (m, z, s)). absurd (cc z))
      ]
