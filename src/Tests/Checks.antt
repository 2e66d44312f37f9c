-- ===== src/Tests/Checks.antt =====
-- The theorems on the forwarded user's signature and on the health checks, for small inputs.
use fullstackhex.Storage.Trim.{trim}
use fullstackhex.Base.{
  refl, arith, ◌≡◌, ◌≢◌, ◌↔◌, true, Text, codes, List, [], ◌∷◌, some, ok, err, Result, subst,
}
use fullstackhex.Auth.Signature.{
  JsonValue, auth_payload, verify_auth_signature, verify_auth_signature_iff,
}
use fullstackhex.Storage.Sign.{hex}
use fullstackhex.Auth.Util.{IsBytes}
use fullstackhex.Api.Health.{just_status, locked_check}
use fullstackhex.Api.Health.Spacing.{
  World, Reach, initial, later, passes, check, Spaced, stores-Spaced,
}

-- Every object prints as "{}", and every digest is the bytes 1 and 2.
abbrev to_json : List (Text × JsonValue) → Text
to_json fields = codes "{}"

abbrev hmac : Text → Text → Result Text Text
hmac key text = ok (1 ∷ 2 ∷ [])

abbrev secret : Text
secret = codes "shared"

digest-IsBytes : (key text mac : Text) → hmac key text ≡ ok mac → IsBytes mac
digest-IsBytes key text mac e =
    subst (λ r. IsBytes (digest_of r)) e (omega arith, (omega arith, tt))
  where
    digest_of : Result Text Text → Text
    digest_of (ok d) = d
    digest_of (err m) = []

verify_auth_signature_iff_example :
    (verify_auth_signature to_json hmac secret (codes "u") (codes "e") (codes "n") 7 (codes "0102")
      ≡ true)
    ↔ ((secret ≢ [])
        × ((mac : Text) × (hmac secret (auth_payload to_json (codes "u") (codes "e") (codes "n") 7)
              ≡ ok mac)
            × (codes "0102" ≡ hex mac)))
verify_auth_signature_iff_example =
    verify_auth_signature_iff to_json hmac digest-IsBytes secret (codes "u") (codes "e") (codes "n")
      7 (codes "0102") (omega arith, (omega arith, (omega arith, (omega arith, tt))))

-- A probe at 5, a fast path, and another probe once more than a second has gone by.
abbrev two_probes : World
two_probes = record {
  cell = record { cache = some (1000000020, just_status (codes "error")); probes = 2 };
  clock = 1000000020;
  stores = (1000000020, just_status (codes "error")) ∷ (7, just_status (codes "ok")) ∷ [];
}

two_probes-Reach : Reach 5 two_probes
unfolding locked_check
two_probes-Reach =
    later
      (later (later initial (check 5 7 (just_status (codes "ok")) (omega arith) (omega arith)))
        (passes 9 (omega arith)))
      (check 1000000007 1000000020 (just_status (codes "error")) (omega arith) (omega arith))

stores-Spaced_example : Spaced two_probes.stores
stores-Spaced_example = stores-Spaced two_probes-Reach

-- "\u{2003} a b\u{a0}"
trimmed : trim (0xE2 ∷ 0x80 ∷ 0x83 ∷ 32 ∷ 97 ∷ 32 ∷ 98 ∷ 0xC2 ∷ 0xA0 ∷ []) ≡ 97 ∷ 32 ∷ 98 ∷ []
unfolding trim
trimmed = refl
