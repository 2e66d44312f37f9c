-- ===== src/Api/Cursor.antt =====
-- The cursor of a page of notes, in backend/api/src/notes.rs. Base64, UUID texts, the validity of
-- UTF-8 and the range of a calendar time are parameters.
use fullstackhex.Base.{
  ℕ, Bool, ◌&&◌, Text, ◌∷◌, ◌++◌, Option, none, some, split_once, decimal, if◌then◌else◌, ℤ,
  parse_i64,
}

pub record Libraries : Type 0 where
  pub b64_encode : Text → Text
  pub b64_decode : Text → Option Text
  pub is_utf8 : Text → Bool
  -- `Uuid::parse_str` succeeds; the cast `::uuid` of the database; `::text` of a UUID.
  pub is_uuid : Text → Bool
  pub cast_uuid : Text → Option ℕ
  pub show_uuid : ℕ → Text
  -- `DateTime::from_timestamp_micros` succeeds.
  pub is_time : ℤ → Bool

module _ (lib : Libraries) where
  unfoldable pub encode_cursor : ℕ → Text → Text
  encode_cursor created_at id = lib.b64_encode (decimal created_at ++ b':' ∷ id)

  abbrev pub with_id : Option ℤ → Text → Option (ℤ × Text)
  with_id none id = none
  with_id (some micros) id = some (micros, id)

  abbrev pub pieces : Option (Text × Text) → Option (ℤ × Text)
  pieces none = none
  pieces (some (micros, id)) = with_id (parse_i64 micros) id

  abbrev pub fields_of : Text → Option (ℤ × Text)
  fields_of raw = pieces (split_once b':' raw)

  abbrev pub raw_of : Option Text → Option (ℤ × Text)
  raw_of none = none
  raw_of (some bytes) = if lib.is_utf8 bytes then fields_of bytes else none

  unfoldable pub decode_cursor : Text → Option (ℤ × Text)
  decode_cursor cursor = raw_of (lib.b64_decode cursor)

  -- `DateTime::from_timestamp_micros(micros).zip(Uuid::parse_str(&id).ok().map(|_| id))`
  abbrev pub usable : Option (ℤ × Text) → Option (ℤ × Text)
  usable none = none
  usable (some (micros, id)) =
      if lib.is_time micros && lib.is_uuid id then some (micros, id) else none

  abbrev pub cursor_of : Option Text → Option (ℤ × Text)
  cursor_of none = none
  cursor_of (some c) = usable (decode_cursor c)
