-- ===== src/Config.antt =====
-- Configuration. Source: crates/server/src/config.rs. The environment is a function from names to
-- their values, where they are set and are valid UTF-8; paths are their text. Whether the file exists
-- and what it holds once parsed, with the default for every key that it leaves out, is an argument.
use openxet.Base.{
  Bool, List, Option, Result, [], err, false, if◌then◌else◌, ltb, none, not, ok, some, suc, true,
  zero, ℕ, ◌*◌, ◌++◌, ◌==◌, ◌>>=◌, ◌^◌, ◌||◌, ◌∷◌,
}
use mathlib.Core.Option
use openxet.Text.{Text, codes, eq_text, is_empty}
use openxet.Text.Decimal.{decimal, parse_u64}
use openxet.Auth.{Scope, read, write, admin}
use openxet.Auth.Oidc.{space_len}

pub record ServerConfig : Type 0 where
  pub host : Text
  pub port : ℕ
  pub frontend_dir : Text
  pub public_url : Option Text

pub record StorageConfig : Type 0 where
  pub backend : Text
  pub data_dir : Text
  pub index_backend : Text
  pub postgres_url : Option Text
  pub postgres_max_connections : ℕ
  pub s3_bucket : Option Text
  pub s3_region : Option Text
  pub s3_endpoint : Option Text
  pub s3_public_endpoint : Option Text
  pub s3_access_key_id : Option Text
  pub s3_secret_access_key : Option Text
  pub s3_allow_http : Option Bool
  pub gcs_bucket : Option Text
  pub gcs_service_account_path : Option Text
  pub azure_container : Option Text
  pub azure_account : Option Text
  pub azure_access_key : Option Text

pub record AuthConfig : Type 0 where
  pub enabled : Bool
  pub shard_key_ttl_seconds : ℕ
  pub oidc_issuers : List Text
  pub oidc_audience : Option Text
  pub oidc_read_role : Text
  pub oidc_write_role : Text
  pub oidc_admin_role : Text
  pub oidc_default_scope : Option Scope
  pub jwks_ttl_seconds : ℕ
  pub xorb_url_secret : Option Text

pub record GcConfig : Type 0 where
  pub grace_seconds : ℕ
  pub min_grace_seconds : ℕ
  pub interval_seconds : Option ℕ

pub record AppConfig : Type 0 where
  pub server : ServerConfig
  pub storage : StorageConfig
  pub auth : AuthConfig
  pub gc : GcConfig

pub record Cli : Type 0 where
  pub host : Option Text
  pub port : Option ℕ
  pub data_dir : Option Text

abbrev pub default_server : ServerConfig
default_server = record {
  host = codes "0.0.0.0";
  port = 8080;
  frontend_dir = codes "./web/dist";
  public_url = none;
}

abbrev pub default_storage : StorageConfig
default_storage = record {
  backend = codes "filesystem";
  data_dir = codes "./.data";
  index_backend = codes "sqlite";
  postgres_url = none;
  postgres_max_connections = 10;
  s3_bucket = none;
  s3_region = none;
  s3_endpoint = none;
  s3_public_endpoint = none;
  s3_access_key_id = none;
  s3_secret_access_key = none;
  s3_allow_http = none;
  gcs_bucket = none;
  gcs_service_account_path = none;
  azure_container = none;
  azure_account = none;
  azure_access_key = none;
}

abbrev pub default_auth : AuthConfig
default_auth = record {
  enabled = true;
  shard_key_ttl_seconds = 3600;
  oidc_issuers = [];
  oidc_audience = none;
  oidc_read_role = codes "openxet:read";
  oidc_write_role = codes "openxet:write";
  oidc_admin_role = codes "openxet:admin";
  oidc_default_scope = none;
  jwks_ttl_seconds = 900;
  xorb_url_secret = none;
}

abbrev pub default_gc : GcConfig
default_gc = record {
  grace_seconds = 24 * 60 * 60;
  min_grace_seconds = 60 * 60;
  interval_seconds = none;
}

abbrev pub default_config : AppConfig
default_config = record {
  server = default_server;
  storage = default_storage;
  auth = default_auth;
  gc = default_gc;
}

-- A value that is given replaces the one before.
abbrev pub set {ℓ} : {A : Type ℓ} → Option A → A → A
set none a = a
set (some v) a = v

abbrev pub set_some {ℓ} : {A : Type ℓ} → Option A → Option A → Option A
set_some none a = a
set_some (some v) a = some v

-- `parse` at a width below 2 ^ 64: the grammar is that of `u64`, with a smaller bound.
parse_below : ℕ → Text → Option ℕ
parse_below bound s = elim (parse_u64 s) [
  | none ↦ none
  | some n ↦ if ltb n bound then some n else none
]

unfoldable pub parsed : ℕ → Option Text → Option ℕ
unfolding parse_below
parsed bound none = none
parsed bound (some s) = parse_below bound s

nonempty : Option Text → Option Text
nonempty none = none
nonempty (some s) = if is_empty s then none else some s

is_on : Text → Bool
is_on s = not (eq_text s (codes "false") || eq_text s (codes "0"))

is_true : Text → Bool
is_true s = eq_text s (codes "true") || eq_text s (codes "1")

-- `trim`, with the bytes of a white-space character still to skip.
all_space : ℕ → Text → Bool
all_space skip [] = true
all_space (suc skip) (c ∷ s) = all_space skip s
all_space zero (c ∷ s) = elim (space_len (c ∷ s)) [ zero ↦ false | suc skip ↦ all_space skip s ]

trim_end : Text → Text
unfolding all_space
trim_end [] = []
trim_end (c ∷ s) = let rest = trim_end s in if all_space 0 (c ∷ s) then [] else c ∷ rest

trim_from : ℕ → Text → Text
unfolding trim_end
trim_from skip [] = []
trim_from (suc skip) (c ∷ s) = trim_from skip s
trim_from zero (c ∷ s) = elim (space_len (c ∷ s)) [
  | zero ↦ trim_end (c ∷ s)
  | suc skip ↦ trim_from skip s
]

unfoldable pub trim : Text → Text
unfolding trim_from
trim s = trim_from 0 s

push_trimmed : Text → List Text → List Text
push_trimmed s parts = if is_empty (trim s) then parts else trim s ∷ parts

-- `split(',')` with each part trimmed, and the empty ones left out.
issuers_from : Text → Text → List Text
unfolding push_trimmed
issuers_from part [] = push_trimmed part []
issuers_from part (c ∷ s) =
    let same = issuers_from (part ++ c ∷ []) s in
    let next = issuers_from [] s in if c == b',' then push_trimmed part next else same

unfoldable pub issuers_of : Text → List Text
unfolding issuers_from
issuers_of s = issuers_from [] s

unfoldable pub named_scope : Text → Option Scope
named_scope s =
    if eq_text (trim s) (codes "read")
    then some read
    else if eq_text (trim s) (codes "write")
    then some write
    else if eq_text (trim s) (codes "admin")
    then some admin
    else none

unfoldable pub env_server : (Text → Option Text) → ServerConfig → ServerConfig
env_server env c = record {
  host = set (env (codes "OPENXET_HOST")) c.host;
  port = set (parsed (2 ^ 16) (env (codes "OPENXET_PORT"))) c.port;
  frontend_dir = set (env (codes "OPENXET_FRONTEND_DIR")) c.frontend_dir;
  public_url = set_some (env (codes "OPENXET_PUBLIC_URL")) c.public_url;
}

unfoldable pub env_storage : (Text → Option Text) → StorageConfig → StorageConfig
unfolding is_true
env_storage env c = record {
  backend = set (env (codes "OPENXET_STORAGE_BACKEND")) c.backend;
  data_dir = set (env (codes "OPENXET_DATA_DIR")) c.data_dir;
  index_backend = set (env (codes "OPENXET_INDEX_BACKEND")) c.index_backend;
  postgres_url = set_some (env (codes "OPENXET_POSTGRES_URL")) c.postgres_url;
  postgres_max_connections =
      set (parsed (2 ^ 32) (env (codes "OPENXET_POSTGRES_MAX_CONNECTIONS")))
        c.postgres_max_connections;
  s3_bucket = set_some (env (codes "OPENXET_S3_BUCKET")) c.s3_bucket;
  s3_region = set_some (env (codes "OPENXET_S3_REGION")) c.s3_region;
  s3_endpoint = set_some (env (codes "OPENXET_S3_ENDPOINT")) c.s3_endpoint;
  s3_public_endpoint = set_some (env (codes "OPENXET_S3_PUBLIC_ENDPOINT")) c.s3_public_endpoint;
  s3_access_key_id = set_some (env (codes "OPENXET_S3_ACCESS_KEY_ID")) c.s3_access_key_id;
  s3_secret_access_key =
      set_some (env (codes "OPENXET_S3_SECRET_ACCESS_KEY")) c.s3_secret_access_key;
  s3_allow_http =
      set_some (Option.map is_true (env (codes "OPENXET_S3_ALLOW_HTTP"))) c.s3_allow_http;
  gcs_bucket = set_some (env (codes "OPENXET_GCS_BUCKET")) c.gcs_bucket;
  gcs_service_account_path =
      set_some (env (codes "OPENXET_GCS_SERVICE_ACCOUNT_PATH")) c.gcs_service_account_path;
  azure_container = set_some (env (codes "OPENXET_AZURE_CONTAINER")) c.azure_container;
  azure_account = set_some (env (codes "OPENXET_AZURE_ACCOUNT")) c.azure_account;
  azure_access_key = set_some (env (codes "OPENXET_AZURE_ACCESS_KEY")) c.azure_access_key;
}

unfoldable pub env_auth : (Text → Option Text) → AuthConfig → AuthConfig
unfolding is_on nonempty
env_auth env c = record {
  enabled = set (Option.map is_on (env (codes "OPENXET_AUTH_ENABLED"))) c.enabled;
  shard_key_ttl_seconds =
      set (parsed (2 ^ 64) (env (codes "OPENXET_SHARD_KEY_TTL"))) c.shard_key_ttl_seconds;
  oidc_issuers = set (Option.map issuers_of (env (codes "OPENXET_OIDC_ISSUERS"))) c.oidc_issuers;
  oidc_audience = set_some (env (codes "OPENXET_OIDC_AUDIENCE")) c.oidc_audience;
  oidc_read_role = set (env (codes "OPENXET_OIDC_READ_ROLE")) c.oidc_read_role;
  oidc_write_role = set (env (codes "OPENXET_OIDC_WRITE_ROLE")) c.oidc_write_role;
  oidc_admin_role = set (env (codes "OPENXET_OIDC_ADMIN_ROLE")) c.oidc_admin_role;
  oidc_default_scope =
      set (Option.map named_scope (env (codes "OPENXET_OIDC_DEFAULT_SCOPE"))) c.oidc_default_scope;
  jwks_ttl_seconds = set (parsed (2 ^ 64) (env (codes "OPENXET_JWKS_TTL"))) c.jwks_ttl_seconds;
  xorb_url_secret = set_some (nonempty (env (codes "OPENXET_XORB_URL_SECRET"))) c.xorb_url_secret;
}

unfoldable pub env_gc : (Text → Option Text) → GcConfig → GcConfig
env_gc env c = record {
  grace_seconds = set (parsed (2 ^ 64) (env (codes "OPENXET_GC_GRACE_SECONDS"))) c.grace_seconds;
  min_grace_seconds =
      set (parsed (2 ^ 64) (env (codes "OPENXET_GC_MIN_GRACE_SECONDS"))) c.min_grace_seconds;
  interval_seconds =
      set_some (parsed (2 ^ 64) (env (codes "OPENXET_GC_INTERVAL_SECONDS"))) c.interval_seconds;
}

unfoldable pub apply_env_overrides : (Text → Option Text) → AppConfig → AppConfig
apply_env_overrides env c = record {
  server = env_server env c.server;
  storage = env_storage env c.storage;
  auth = env_auth env c.auth;
  gc = env_gc env c.gc;
}

unfoldable pub apply_cli : Cli → AppConfig → AppConfig
apply_cli cli c = record c {
  server = record c.server { host = set cli.host c.server.host; port = set cli.port c.server.port };
  storage = record c.storage { data_dir = set cli.data_dir c.storage.data_dir };
}

unfoldable pub read_config : Option (Result Text AppConfig) → Result Text AppConfig
read_config none = ok default_config
read_config (some file) = file

grace_message : AppConfig → Text
grace_message c =
    codes "gc.grace_seconds ("
    ++ (decimal c.gc.grace_seconds
        ++ (codes ") is below gc.min_grace_seconds ("
            ++ (decimal c.gc.min_grace_seconds ++ codes ")")))

check_grace : AppConfig → Result Text AppConfig
unfolding grace_message
check_grace c =
    if ltb c.gc.grace_seconds c.gc.min_grace_seconds then err (grace_message c) else ok c

unfoldable pub load :
    (Text → Option Text) → Cli → Option (Result Text AppConfig) → Result Text AppConfig
unfolding check_grace
load env cli file =
    read_config file >>= λ c. check_grace (apply_env_overrides env (apply_cli cli c))

unfoldable pub base_url : AppConfig → Text
base_url c = codes "http://" ++ (c.server.host ++ b':' ∷ decimal c.server.port)
