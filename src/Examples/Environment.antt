-- ===== src/Examples/Environment.antt =====
-- The theorems on the configuration and the validation of the secret at concrete inputs.
use Prim.Native.Char.{Char}
use rw_node_go.Common.{
  ℕ, pos, ◌≡◌, refl, ◌↔◌, false, String, List, [], ◌∷◌, ◌==◌, if◌then◌else◌, Option, none, some,
  Result, ok, nat_eq,
}
use rw_node_go.Environment.{Config, Variables, dot_env_missing}
use rw_node_go.Environment.Bounds.{IsLoaded, load-IsLoaded}
use rw_node_go.Environment.Secret.{NodePayload}
use rw_node_go.Environment.Validate.{Crypto, rsa_private, rsa_public, validate_node_payload}
use rw_node_go.Environment.Validate.Sound.{IsSound, validate_node_payload_iff}

abbrev pub same_letter : Char → Char
same_letter c = c

abbrev same_text : String → String
same_text s = s

abbrev variables : Variables
variables key =
    if key == "NODE_PORT"
    then " 8443 "
    else if key == "SECRET_KEY"
    then "secret"
    else if key == "LOG_COLOR"
    then "NEVER"
    else ""

abbrev pub loaded_config : Config
loaded_config = record {
  node_port = pos 8443;
  internal_rest_port = pos 61001;
  hysteria_listen_port = pos 0;
  secret_key = "secret";
  node_tls_client_auth = "mtls";
  sni_verification = false;
  log_level = "info";
  log_color = "never";
  rw_node_dir = "/opt/rw-node-go";
  request_body_limit_bytes = pos 1073741824;
  require_secret_key = false;
}

load-IsLoaded_example : IsLoaded same_letter loaded_config
unfolding rw_node_go.Environment.load rw_node_go.Golang.Strings.trim_space
    rw_node_go.Golang.Strings.trim_right rw_node_go.Golang.Strings.trim_left
    rw_node_go.Golang.Strings.is_space rw_node_go.Golang.Numbers.parse_int
    rw_node_go.Golang.Strings.to_lower rw_node_go.Golang.Strings.lower_by
load-IsLoaded_example =
    load-IsLoaded same_letter same_text variables dot_env_missing loaded_config refl

abbrev pub payload : NodePayload
payload = record {
  ca_cert_pem = "CA";
  jwt_public_key = "JWT";
  node_cert_pem = "NODE";
  node_key_pem = "KEY";
}

abbrev pub to_bytes : String → Result (List ℕ)
to_bytes s = ok (1 ∷ 2 ∷ [])

abbrev pub to_payload : List ℕ → Result NodePayload
to_payload bytes = ok payload

abbrev pub pem_bytes : String → Option (List ℕ)
pem_bytes s =
    if s == "CA"
    then some (1 ∷ [])
    else if s == "NODE"
    then some (2 ∷ [])
    else if s == "KEY"
    then some (3 ∷ [])
    else if s == "JWT"
    then some (4 ∷ [])
    else none

abbrev pub first_byte : List ℕ → ℕ
first_byte [] = 0
first_byte (b ∷ bytes) = b

-- Certificates and keys that are numbers: 1 is the authority, 2 the node, 9 the node's public key.
abbrev pub numbers : Crypto ℕ ℕ
numbers = record {
  pem_decode = pem_bytes;
  parse_x509 = λ bytes. ok (first_byte bytes);
  not_before = λ c. 10;
  not_after = λ c. 20;
  format_time = λ t. "later";
  sha256_hex = λ c. "00";
  check_signature_from = λ c signer. if nat_eq signer 1 then none else some "bad signature";
  cert_public_key = λ c. 9;
  parse_pkcs8 = λ bytes. some (rsa_private 9);
  parse_pkcs1 = λ bytes. none;
  parse_ec = λ bytes. none;
  marshal_pkix = λ k. ok (k ∷ []);
  parse_pkix = λ bytes. ok rsa_public;
}

validate_node_payload_iff_example :
    ((validate_node_payload ℕ ℕ numbers 15 payload).1 ≡ none) ↔ IsSound ℕ ℕ numbers 15 payload
validate_node_payload_iff_example = validate_node_payload_iff ℕ ℕ numbers 15 payload
