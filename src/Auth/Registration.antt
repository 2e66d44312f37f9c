-- ===== src/Auth/Registration.antt =====
-- `validate_registration` of backend/auth/src/routes.rs, and the same checks in `reset_password`.
-- `len()` of a Rust string is its number of bytes.
use fullstackhex.Base.{
  ◌≡◌, ◌↔◌, ◌≤◌, ◌||◌, not, Option, Text, codes, is_empty, contains, length, ltb, Result, ok,
  fail_if, ◌>>◌, arith, true,
}
use fullstackhex.Domain.Errors.{ApiError, validation_error}

pub record RegisterRequest : Type 0 where
  pub email : Text
  pub password : Text
  pub name : Option Text

-- `if email.is_empty() || !email.contains('@')`
unfoldable pub invalid_email : Text → Result ApiError (Unit {0})
invalid_email email =
    fail_if (is_empty email || not (contains b'@' email)) (validation_error (codes "Invalid email"))

-- The two checks on a password's length.
unfoldable pub password_length : Text → Result ApiError (Unit {0})
password_length password = do
  fail_if (ltb (length password) 8)
      (validation_error (codes "Password must be at least 8 characters"))
  fail_if (ltb 1024 (length password))
      (validation_error (codes "Password must be at most 1024 characters"))
  ok tt

unfoldable pub validate_registration : RegisterRequest → Result ApiError (Unit {0})
unfolding invalid_email password_length
validate_registration body = do invalid_email body.email; password_length body.password

-- A registration passes exactly if its email holds an "@" and its password has 8 to 1024 bytes.
pub validate_registration_iff :
    (body : RegisterRequest)
    → (validate_registration body ≡ ok tt) ↔ (
        (contains b'@' body.email ≡ true)
        × (8 ≤ length body.password)
        × (length body.password ≤ 1024))
unfolding validate_registration contains
validate_registration_iff body = (λ h. ground arith, λ h. ground arith)
