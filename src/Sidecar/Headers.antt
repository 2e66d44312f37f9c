-- ===== src/Sidecar/Headers.antt =====
-- `validate_header_value` of backend/py-sidecar/src/lib.rs.
use fullstackhex.Base.{
  arith, ◌≡◌, ◌↔◌, ◌≤◌, false, ℕ, Text, codes, ◌++◌, contains, length, ltb, ◌||◌, Result, ok,
  fail_if, ◌>>◌,
}
use fullstackhex.Sidecar.Errors.{SidecarError, invalid_input}

abbrev pub max_header_value_len : ℕ
max_header_value_len = 256

unfoldable pub validate_header_value : Text → Text → Result SidecarError (Unit {0})
validate_header_value name value = do
  fail_if (contains 13 value || contains 10 value)
      (invalid_input (name ++ codes " contains invalid characters"))
  fail_if (ltb max_header_value_len (length value))
      (invalid_input (name ++ codes " exceeds maximum length (256 bytes)"))
  ok tt

-- A header value is accepted exactly if it has no carriage return and no line feed, so that it
-- cannot end its line, and is no longer than the limit.
pub validate_header_value_iff :
    (name value : Text)
    → (validate_header_value name value ≡ ok tt) ↔ (
        (contains 13 value ≡ false)
        × (contains 10 value ≡ false)
        × (length value ≤ max_header_value_len))
unfolding validate_header_value
validate_header_value_iff name value = (λ h. ground arith, λ h. ground arith)
