-- ===== src/Api/Notes/Cursor.antt =====
-- The keyset cursor of backend/api/src/notes.rs, written and read again.
use fullstackhex.Base.{
  arith, ℕ, ◌<◌, ◌^◌, ◌≡◌, true, false, Text, split_once, decimal, [], ◌∷◌, ◌++◌, some, All,
  All-append, ◌==◌, refl, ap, ◌∙◌, pos, parse_i64-decimal, decimal-IsDigit, IsDigit,
}
use fullstackhex.Api.Cursor.{
  Libraries, encode_cursor, decode_cursor, raw_of, fields_of, pieces, with_id,
}

abbrev pub IsAscii : Text → Type 0
IsAscii t = All (λ c. c < 128) t

-- What the code relies on: Base64 decodes what it encodes, ASCII is UTF-8, the UUIDs that the
-- database prints are ASCII, parse, and read back as the same id.
pub record Lawful (lib : Libraries) : Type 0 where
  pub decode-encode : (t : Text) → lib.b64_decode (lib.b64_encode t) ≡ some t
  pub ascii_utf8 : (t : Text) → IsAscii t → lib.is_utf8 t ≡ true
  pub uuid_ascii : (i : ℕ) → IsAscii (lib.show_uuid i)
  pub uuid_valid : (i : ℕ) → lib.is_uuid (lib.show_uuid i) ≡ true
  pub cast-show : (i : ℕ) → lib.cast_uuid (lib.show_uuid i) ≡ some i

not_colon : (c : ℕ) → IsDigit c → (c == b':') ≡ false
not_colon c h = ground (arith, h.1)

split_once-digits : (a b : Text) → All IsDigit a → split_once b':' (a ++ b':' ∷ b) ≡ some (a, b)
unfolding split_once
split_once-digits [] b h = refl
split_once-digits (c ∷ a) b (h, hs) = rw (not_colon c h, split_once-digits a b hs) refl

digits-IsAscii : (a : Text) → All IsDigit a → IsAscii a
digits-IsAscii [] h = tt
digits-IsAscii (c ∷ a) (h, hs) = (omega (arith, h.1), digits-IsAscii a hs)

module _ (lib : Libraries) (lawful : Lawful lib) where
  fields-decimal :
      (n : ℕ) (id : Text) → n < 2 ^ 63 → fields_of lib (decimal n ++ b':' ∷ id) ≡ some (pos n, id)
  fields-decimal n id h =
      ap (pieces lib) (split_once-digits (decimal n) id (decimal-IsDigit n))
      ∙ ap (λ x. with_id lib x id) (parse_i64-decimal n h)

  raw-decimal :
      (n : ℕ) (id : Text)
      → IsAscii id
      → n < 2 ^ 63
      → raw_of lib (some (decimal n ++ b':' ∷ id)) ≡ some (pos n, id)
  raw-decimal n id ascii h =
      rw
        (lawful.ascii_utf8 (decimal n ++ b':' ∷ id) (
          All-append (λ c. c < 128) (decimal n) (b':' ∷ id)
            (digits-IsAscii (decimal n) (decimal-IsDigit n)) (omega arith, ascii)))
        (fields-decimal n id h)

  -- A cursor decodes to the time and the id that it was made from.
  pub decode-encode_cursor :
      (created_at : ℕ) (i : ℕ)
      → created_at < 2 ^ 63
      → decode_cursor lib (encode_cursor lib created_at (lib.show_uuid i))
        ≡ some (pos created_at, lib.show_uuid i)
  unfolding decode_cursor encode_cursor
  decode-encode_cursor created_at i h =
      ap (raw_of lib) (lawful.decode-encode (decimal created_at ++ b':' ∷ lib.show_uuid i))
      ∙ raw-decimal created_at (lib.show_uuid i) (lawful.uuid_ascii i) h
