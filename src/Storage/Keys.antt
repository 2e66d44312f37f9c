-- ===== src/Storage/Keys.antt =====
-- backend/storage/src/routes.rs: which keys a client may name, and where they are put. The decoding
-- of percent escapes is a parameter; the components of a path are those of a Unix system.
pub mod Confined
use fullstackhex.Base.{
  Bool, true, false, ◌||◌, Text, codes, List, [], ◌∷◌, ◌++◌, Option, none, some, text_eq, contains,
  split, is_empty, any, Result, ok, err, if◌then◌else◌,
}
use fullstackhex.Domain.Errors.{ApiError, validation_error}

abbrev pub invalid_key : ApiError
invalid_key = validation_error (codes "Invalid storage key")

-- `Component::ParentDir` among the components.
unfoldable pub has_parent_dir : Text → Bool
has_parent_dir path = any (text_eq (codes "..")) (split b'/' path)

abbrev check_decoded : Option Text → Result ApiError (Unit {0})
check_decoded none = err (validation_error (codes "Invalid storage key encoding"))
check_decoded (some decoded) =
    if contains 0 decoded || contains 92 decoded
    then err invalid_key
    else if has_parent_dir decoded
    then err invalid_key
    else ok tt

unfoldable pub validate_storage_key : (Text → Option Text) → Text → Result ApiError (Unit {0})
unfolding has_parent_dir
validate_storage_key decode key =
    if is_empty key then err invalid_key else check_decoded (decode key)

-- format!("users/{}/{}", user_id, key)
unfoldable pub user_key : Text → Text → Text
user_key user_id key = codes "users/" ++ (user_id ++ b'/' ∷ key)
