-- ===== src/Tests/World.antt =====
-- A concrete world in which the theorems are applied: the in-memory server, tables as lists, and
-- codecs that join fields with terminators.
use fullstackhex.Base.{
  ℕ, zero, suc, ◌≡◌, refl, ap, Bool, true, false, Text, codes, List, [], ◌∷◌, Option, none, some,
  text_eq, if◌then◌else◌, ok,
}
use fullstackhex.Cache.Memory.{memory, empty}
use fullstackhex.Cache.Client.{World, Session}
use fullstackhex.Cache.Store.{Codec}
use fullstackhex.Auth.Config.{AuthConfig, both}
use fullstackhex.Auth.App.{Platform, Postgres, App, UserRow}

abbrev pub write : Text → Text → Text
write [] rest = 0 ∷ rest
write (c ∷ t) rest = suc c ∷ write t rest

abbrev pub follow_on : ℕ → Option (Text × Text) → Option (Text × Text)
follow_on c none = none
follow_on c (some (t, rest)) = some (c ∷ t, rest)

abbrev pub read : Text → Option (Text × Text)
read [] = none
read (zero ∷ rest) = some ([], rest)
read (suc c ∷ rest) = follow_on c (read rest)

pub read-write : (t rest : Text) → read (write t rest) ≡ some (t, rest)
read-write [] rest = refl
read-write (c ∷ t) rest = ap (follow_on c) (read-write t rest)

abbrev pub write_option : Option Text → Text
write_option none = []
write_option (some t) = write t []

abbrev pub read_option : Text → Option Text
read_option [] = none
read_option (c ∷ t) = elim (read (c ∷ t)) [ none ↦ none | some (n, rest) ↦ some n ]

abbrev pub after_mark : Text → Option Text
after_mark [] = none
after_mark (c ∷ t) = some t

abbrev pub text_codec : Codec Text
text_codec = record {
  encode = λ t. b'"' ∷ t;
  decode = after_mark;
  decode-encode = λ t. refl;
  encode-ne-nil = λ t h. cc h;
}

abbrev pub bit : Bool → ℕ
bit true = 1
bit false = 0

abbrev pub read_bit : Text → Option Bool
read_bit [] = none
read_bit (zero ∷ t) = some false
read_bit (suc c ∷ t) = some true

pub read_bit-bit : (b : Bool) → read_bit (bit b ∷ []) ≡ some b
read_bit-bit true = refl
read_bit-bit false = refl

abbrev pub bool_codec : Codec Bool
bool_codec = record {
  encode = λ b. bit b ∷ [];
  decode = read_bit;
  decode-encode = read_bit-bit;
  encode-ne-nil = λ b h. cc h;
}

abbrev pub write_session : Session → Text
write_session s =
    s.created_at ∷ write s.user_id (write s.email (write s.provider (write_option s.name)))

abbrev pub with_provider : ℕ → Text → Text → Option (Text × Text) → Option Session
with_provider at user_id email none = none
with_provider at user_id email (some (provider, rest)) = some (record {
  user_id = user_id;
  email = email;
  name = read_option rest;
  provider = provider;
  created_at = at;
})

abbrev pub with_email : ℕ → Text → Option (Text × Text) → Option Session
with_email at user_id none = none
with_email at user_id (some (email, rest)) = with_provider at user_id email (read rest)

abbrev pub with_user : ℕ → Option (Text × Text) → Option Session
with_user at none = none
with_user at (some (user_id, rest)) = with_email at user_id (read rest)

abbrev pub read_session : Text → Option Session
read_session [] = none
read_session (at ∷ rest) = with_user at (read rest)

pub read_option-write : (o : Option Text) → read_option (write_option o) ≡ o
read_option-write none = refl
read_option-write (some []) = refl
read_option-write (some (c ∷ t)) = rw (read_option, read-write (c ∷ t) []) refl

pub read_session-write : (s : Session) → read_session (write_session s) ≡ some s
read_session-write s =
    rw
      (
        read-write s.user_id (write s.email (write s.provider (write_option s.name))),
        read-write s.email (write s.provider (write_option s.name)),
        read-write s.provider (write_option s.name),
        read_option-write s.name,
      )
      refl

abbrev pub session_codec : Codec Session
session_codec = record {
  encode = write_session;
  decode = read_session;
  decode-encode = read_session-write;
  encode-ne-nil = λ s h. cc h;
}

abbrev pub find_row : List UserRow → Text → Option UserRow
find_row [] email = none
find_row (u ∷ us) email = if text_eq u.email email then some u else find_row us email

abbrev pub find_id : List UserRow → Text → Option UserRow
find_id [] id = none
find_id (u ∷ us) id = if text_eq u.id id then some u else find_id us id

abbrev pub postgres : Postgres
postgres = record {
  Db = List UserRow;
  find_by_email = find_row;
  find_by_id = find_id;
  insert_local = λ email name hash d. (
    some email,
    record {
      id = email;
      email = email;
      name = name;
      provider = codes "local";
      password_hash = some hash;
    }
        ∷ d,
  );
  update_password = λ hash id d. (1, d);
  delete_notes = λ id d. d;
  delete_user = λ id d. (1, d);
  upsert_oauth = λ id email name provider d. (id, d);
}

abbrev pub to_json : Text → Option Text → Text
to_json provider session = write provider (write_option session)

abbrev pub field_of : Text → Option Text → Text → Option Text
field_of provider session name = if text_eq name (codes "provider") then some provider else session

abbrev pub fields : Option (Text × Text) → Option (Text → Option Text)
fields none = none
fields (some (provider, rest)) = some (field_of provider (read_option rest))

abbrev pub from_json : Text → Option (Text → Option Text)
from_json text = fields (read text)

abbrev pub platform : Platform
platform = record {
  redis = memory;
  postgres = postgres;
  text_codec = text_codec;
  bool_codec = bool_codec;
  session_codec = session_codec;
  hash_password = λ salt password. ok password;
  verify_hash = λ password hash. ok (text_eq password hash);
  sign_claims = λ secret c. ok c.jti;
  read_claims = λ secret issuer now token. ok (record {
    sub = codes "alice";
    email = codes "a@b";
    name = none;
    provider = codes "local";
    exp = now;
    iat = now;
    iss = issuer;
    jti = token;
  });
  show_ip = λ ip. codes "ip";
  is_header_value = λ t. true;
  from_json = from_json;
  to_json = to_json;
  authorize_url = λ provider url state. url;
  exchange_code =
      λ provider code. ok (record { provider_id = code; email = codes "a@b"; name = none });
}

abbrev pub config : AuthConfig
config = record {
  jwt_secret = codes "secret";
  jwt_issuer = codes "issuer";
  jwt_expiry = 900;
  refresh_expiry = 604800;
  auth_mode = both;
  google_client_id = none;
  google_client_secret = none;
  github_client_id = none;
  github_client_secret = none;
  oauth_redirect_url = none;
  sidecar_shared_secret = none;
  fail_open_on_redis_error = true;
  rate_limits = record {
    register_max = 5;
    register_window_secs = 900;
    login_email_max = 5;
    login_email_window_secs = 300;
    login_ip_max = 10;
    login_ip_window_secs = 300;
    forgot_max = 3;
    forgot_window_secs = 900;
    oauth_callback_max = 10;
    oauth_callback_window_secs = 60;
  };
  cookie_secure = true;
}

abbrev pub alice : UserRow
alice = record {
  id = codes "alice";
  email = codes "a@b";
  name = none;
  provider = codes "local";
  password_hash = some (codes "hunter22");
}

abbrev pub session : Session
session = record {
  user_id = codes "alice";
  email = codes "a@b";
  name = none;
  provider = codes "local";
  created_at = 5;
}

abbrev pub world : World memory
world = record { db = empty; net = []; now_ms = 1000000; random = λ n. n ∷ []; sessions = [] }

abbrev pub app : App platform
app = record {
  cache = world;
  pg = alice ∷ [];
  queries = [];
  entropy = λ n. ok (n ∷ []);
  blacklist = none;
}
