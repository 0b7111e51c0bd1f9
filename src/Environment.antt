-- ===== src/Environment.antt =====
-- internal/config/env.go and internal/config/paths.go: the configuration of the process, read from
-- environment variables. os.Getenv is a function on names; godotenv.Load, which is a library, is
-- its outcome, with the variables after it.
pub mod Ranges
pub mod Bounds
pub mod Secret
pub mod Validate
use Prim.Native.Char.{Char}
use Prim.Native.String.{◌++◌}
use rw_node_go.Common.{
  ℤ, pos, negsuc, int_eq, int_lt, Bool, false, not, ◌&&◌, ◌||◌, String, ◌==◌, if◌then◌else◌, Result,
  ok, err, ◌>>=◌,
}
use rw_node_go.Golang.Strings.{trim_space, to_lower}
use rw_node_go.Golang.Numbers.{parse_int, parse_bool}

pub record Config : Type 0 where
  pub node_port : ℤ
  pub internal_rest_port : ℤ
  pub hysteria_listen_port : ℤ
  pub secret_key : String
  pub node_tls_client_auth : String
  pub sni_verification : Bool
  pub log_level : String
  pub log_color : String
  pub rw_node_dir : String
  pub request_body_limit_bytes : ℤ
  pub require_secret_key : Bool

abbrev pub default_node_port : ℤ
default_node_port = pos 2222

abbrev pub default_internal_rest_port : ℤ
default_internal_rest_port = pos 61001

abbrev pub default_log_level : String
default_log_level = "info"

abbrev pub default_log_color : String
default_log_color = "always"

abbrev pub default_rw_node_dir : String
default_rw_node_dir = "/opt/rw-node-go"

abbrev pub default_request_body_limit_bytes : ℤ
default_request_body_limit_bytes = pos 1073741824

abbrev pub default_node_tls_client_auth : String
default_node_tls_client_auth = "mtls"

abbrev pub default_xray_asset_dir : String
default_xray_asset_dir = "/usr/local/share/xray"

-- The variables, by name; a variable that is not set is empty.
abbrev pub Variables : Type 0
Variables = String → String

-- What godotenv.Load comes to: the variables with those of the file .env, no such file, or an error.
pub data DotEnv : Type 0 where
  dot_env_read : Variables → DotEnv
  dot_env_missing : DotEnv
  dot_env_error : String → DotEnv

module _ (getenv : Variables) where
  unfoldable pub env_string : String → String → String
  env_string key fallback =
      let value = trim_space (getenv key) in if not (value == "") then value else fallback

  unfoldable pub xray_asset_dir : String
  xray_asset_dir =
      let location = trim_space (getenv "XRAY_LOCATION_ASSET") in
      let asset = trim_space (getenv "XRAY_ASSET_DIR") in
      if not (location == "")
      then location
      else if not (asset == "")
      then asset
      else default_xray_asset_dir

module _ (quote : String → String) (getenv : Variables) where
  abbrev pub boolean_parsed : String → Result Bool → Result Bool
  boolean_parsed key (err e) = err (key ++ " must be a boolean: " ++ e)
  boolean_parsed key (ok b) = ok b

  unfoldable pub env_bool : String → Bool → Result Bool
  env_bool key fallback =
      let value = trim_space (getenv key) in
      if value == "" then ok fallback else boolean_parsed key (parse_bool quote value)

  abbrev pub port_parsed : String → Result ℤ → Result ℤ
  port_parsed key (err e) = err (key ++ " must be an integer: " ++ e)
  port_parsed key (ok parsed) =
      if int_lt parsed (pos 1) || int_lt (pos 65535) parsed
      then err (key ++ " must be between 1 and 65535")
      else ok parsed

  unfoldable pub env_port : String → ℤ → Result ℤ
  env_port key fallback =
      let value = trim_space (getenv key) in
      if value == "" then ok fallback else port_parsed key (parse_int quote "Atoi" value)

  unfoldable pub env_optional_port : String → Result ℤ
  unfolding env_port
  env_optional_port key =
      let value = trim_space (getenv key) in
      if value == "" || value == "0" then ok (pos 0) else env_port key (pos 0)

  abbrev pub limit_parsed : String → Result ℤ → Result ℤ
  limit_parsed key (err e) = err (key ++ " must be an integer: " ++ e)
  limit_parsed key (ok parsed) =
      if int_lt parsed (pos 0)
      then err (key ++ " must be greater than or equal to 0")
      else ok parsed

  unfoldable pub env_non_negative_int64 : String → ℤ → Result ℤ
  env_non_negative_int64 key fallback =
      let value = trim_space (getenv key) in
      if value == "" then ok fallback else limit_parsed key (parse_int quote "ParseInt" value)

-- `other` is Unicode's table of lower case past ASCII.
module _ (other : Char → Char) where
  unfoldable pub normalize_node_tls_client_auth : String → String
  normalize_node_tls_client_auth value = to_lower other (trim_space value)

  unfoldable pub valid_node_tls_client_auth : String → Bool
  unfolding normalize_node_tls_client_auth
  valid_node_tls_client_auth value =
      let mode = normalize_node_tls_client_auth value in
      mode == "mtls" || mode == "optional" || mode == "none"

  unfoldable pub normalize_log_level : String → String
  normalize_log_level value = to_lower other (trim_space value)

  unfoldable pub valid_log_level : String → Bool
  unfolding normalize_log_level
  valid_log_level value =
      let level = normalize_log_level value in
      level == "debug" || level == "info" || level == "warn" || level == "error"

  unfoldable pub normalize_log_color : String → String
  normalize_log_color value = to_lower other (trim_space value)

  unfoldable pub valid_log_color : String → Bool
  unfolding normalize_log_color
  valid_log_color value =
      let color = normalize_log_color value in color == "always" || color == "never"

  unfoldable pub tls_client_auth_mode : Config → String
  unfolding normalize_node_tls_client_auth
  tls_client_auth_mode c =
      let mode = normalize_node_tls_client_auth (c.node_tls_client_auth) in
      if mode == "" then default_node_tls_client_auth else mode

  -- slog.Level
  unfoldable pub slog_level : Config → ℤ
  unfolding normalize_log_level
  slog_level c =
      let level = normalize_log_level (c.log_level) in
      if level == "debug"
      then negsuc 3
      else if level == "warn"
      then pos 4
      else if level == "error"
      then pos 8
      else pos 0

  unfoldable pub log_color_enabled : Config → Bool
  unfolding normalize_log_color
  log_color_enabled c = not (normalize_log_color (c.log_color) == "never")

  -- The checks at the end of Load.
  unfoldable pub checked : Config → Result Config
  unfolding valid_node_tls_client_auth valid_log_level valid_log_color
  checked cfg =
      if int_eq (cfg.node_port) (cfg.internal_rest_port)
      then err "NODE_PORT and INTERNAL_REST_PORT must be different"
      else if cfg.require_secret_key && cfg.secret_key == ""
      then err "SECRET_KEY is required"
      else if not (valid_node_tls_client_auth (cfg.node_tls_client_auth))
      then err "NODE_TLS_CLIENT_AUTH must be one of: mtls, optional, none"
      else if not (valid_log_level (cfg.log_level))
      then err "LOG_LEVEL must be one of: debug, info, warn, error"
      else if not (valid_log_color (cfg.log_color))
      then err "LOG_COLOR must be one of: always, never"
      else ok cfg

  -- The configuration, with the texts that have no failure.
  abbrev pub assembled : Variables → ℤ → ℤ → ℤ → ℤ → Bool → Bool → Config
  assembled getenv node_port internal_rest_port hysteria_listen_port limit require sni = record {
    node_port = node_port;
    internal_rest_port = internal_rest_port;
    hysteria_listen_port = hysteria_listen_port;
    secret_key = trim_space (getenv "SECRET_KEY");
    node_tls_client_auth =
        normalize_node_tls_client_auth
          (env_string getenv "NODE_TLS_CLIENT_AUTH" default_node_tls_client_auth);
    sni_verification = sni;
    log_level = normalize_log_level (env_string getenv "LOG_LEVEL" default_log_level);
    log_color = normalize_log_color (env_string getenv "LOG_COLOR" default_log_color);
    rw_node_dir = env_string getenv "RW_NODE_DIR" default_rw_node_dir;
    request_body_limit_bytes = limit;
    require_secret_key = require;
  }

  unfoldable pub load_variables : (String → String) → Variables → Result Config
  unfolding env_port env_optional_port env_non_negative_int64 env_bool env_string checked
  load_variables quote getenv = do
    node_port ← env_port quote getenv "NODE_PORT" default_node_port
    internal_rest_port ← env_port quote getenv "INTERNAL_REST_PORT" default_internal_rest_port
    hysteria_listen_port ← env_optional_port quote getenv "HYSTERIA_LISTEN_PORT"
    limit ←
        env_non_negative_int64 quote getenv "REQUEST_BODY_LIMIT_BYTES"
          default_request_body_limit_bytes
    require ← env_bool quote getenv "REQUIRE_SECRET_KEY" false
    sni ← env_bool quote getenv "SNI_VERIFICATION" false
    checked (assembled getenv node_port internal_rest_port hysteria_listen_port limit require sni)

  unfoldable pub load : (String → String) → Variables → DotEnv → Result Config
  unfolding load_variables
  load quote getenv (dot_env_read after) = load_variables quote after
  load quote getenv dot_env_missing = load_variables quote getenv
  load quote getenv (dot_env_error e) = err ("load .env: " ++ e)
