-- ===== src/Storage/Config.antt =====
-- `StorageConfig` of backend/storage/src/lib.rs. The environment is a function from names to values.
use fullstackhex.Base.{
  Bool, true, false, ◌||◌, Text, codes, text_eq, Option, none, some, if◌then◌else◌,
}
use fullstackhex.Domain.Flags.{Env}

pub record StorageConfig : Type 0 where
  pub endpoint : Text
  pub public_endpoint : Text
  pub access_key : Text
  pub secret_key : Text
  pub bucket : Text
  pub region : Text
  pub auto_create_bucket : Bool

abbrev or_else {ℓ} : {A : Type ℓ} → Option A → A → A
or_else none a = a
or_else (some b) a = b

-- `str::parse::<bool>`, or true.
abbrev auto_create : Option Text → Bool
auto_create none = true
auto_create (some v) = if text_eq v (codes "false") then false else true

unfoldable pub with_keys : Env → Text → Text → Text → Option StorageConfig
with_keys env endpoint access_key secret_key =
    if text_eq access_key (codes "CHANGE_ME") || text_eq secret_key (codes "CHANGE_ME")
    then none
    else some (record {
      endpoint = endpoint;
      public_endpoint = or_else (env (codes "RUSTFS_PUBLIC_ENDPOINT")) endpoint;
      access_key = access_key;
      secret_key = secret_key;
      bucket = or_else (env (codes "RUSTFS_BUCKET")) (codes "fullstackhex");
      region = or_else (env (codes "RUSTFS_REGION")) (codes "us-east-1");
      auto_create_bucket = auto_create (env (codes "RUSTFS_AUTO_CREATE_BUCKET"));
    })

-- `from_env`: none without the endpoint, the access key or the secret key.
unfoldable pub from_env : Env → Option StorageConfig
unfolding with_keys
from_env env = elim (env (codes "RUSTFS_ENDPOINT")) [
  | none ↦ none
  | some endpoint ↦ elim (env (codes "RUSTFS_ACCESS_KEY")) [
    | none ↦ none
    | some access_key ↦ elim (env (codes "RUSTFS_SECRET_KEY")) [
      | none ↦ none
      | some secret_key ↦ with_keys env endpoint access_key secret_key
    ]
  ]
]
