-- ===== src/Http/Server.antt =====
-- internal/httpapi/server.go: how the server is put together from the configuration, what its main
-- handler does with a request before a route gets it, which listeners are open, and the errors of
-- its end. The listen addresses and the timeouts are left out.
pub mod Guarded
use Prim.Native.Char.{Char}
use Prim.Native.String.{◌++◌}
use rw_node_go.Common.{
  prefixed, ℕ, ℤ, pos, negsuc, Bool, true, false, not, ◌&&◌, String, List, [], ◌∷◌, is_empty, ◌==◌,
  if◌then◌else◌, Option, none, some, Result, ok, err, ◌>>=◌,
}
use rw_node_go.Golang.Strings.{join}
use rw_node_go.Environment.{Config, tls_client_auth_mode}
use rw_node_go.Environment.Secret.{NodePayload, decode_secret_key}
use rw_node_go.Environment.Validate.{Crypto, PayloadCheck, validate_node_payload}
use rw_node_go.Http.Tokens.{Outcome, pass, refuse, Parse, jwt_middleware}
use rw_node_go.Http.Body.{Bytes, Decoded, Forwarded, zstd_middleware_with_limit}
use rw_node_go.Http.Tls.{TlsConfig, tls_config_from_secret_with_options}

-- The libraries: base64 and JSON, the certificates, HKDF, TLS, the JWT library and the zstd decoder.
pub record Libraries (Certificate Public Key : Type 0) : Type 0 where
  pub decode_base64 : String → Result Bytes
  pub unmarshal : Bytes → Result NodePayload
  pub crypto : Crypto Certificate Public
  pub hkdf : String → Result Bytes
  pub load_key_pair : String → String → Option String
  pub append_certs : String → Bool
  pub parse_rsa_public_key : String → Result Key
  pub parse_token : Parse Key
  pub new_reader : Bytes → Result Decoded

-- The settings of the main listener; the key is that of the middleware for tokens, if it is there.
pub record Server (Key : Type 0) : Type 0 where
  pub tls_config : Option TlsConfig
  pub use_tls : Bool
  pub token_key : Option Key
  pub body_limit : ℕ

-- The limit of a configuration, which is not negative.
abbrev pub limit_of : ℤ → ℕ
limit_of (pos n) = n
limit_of (negsuc n) = 0

-- A request as far as the middleware reads it.
pub record Request : Type 0 where
  pub path : String
  pub authorization : String
  pub content_encoding : String
  pub body : Bytes

abbrev pub refused {ℓ} : {A : Type ℓ} → Option String → A → Result A
refused none a = ok a
refused (some e) a = err e

module _ (Certificate Public Key : Type 0) (libraries : Libraries Certificate Public Key)
    (other : Char → Char) where
  unfoldable pub parse_jwt_public_key : String → Result Key
  parse_jwt_public_key pem_value =
      prefixed "parse jwt public key: " (libraries.parse_rsa_public_key pem_value)

  abbrev pub secured : Config → TlsConfig → Key → Server Key
  secured cfg tls key = record {
    tls_config = some tls;
    use_tls = true;
    token_key = some key;
    body_limit = limit_of cfg.request_body_limit_bytes;
  }

  abbrev pub plain : Config → Server Key
  plain cfg = record {
    tls_config = none;
    use_tls = false;
    token_key = none;
    body_limit = limit_of cfg.request_body_limit_bytes;
  }

  abbrev pub validated : ℕ → NodePayload → Result NodePayload
  validated now payload =
      refused (validate_node_payload Certificate Public libraries.crypto now payload).1 payload

  unfoldable pub new_secured : ℕ → Config → Result (Server Key)
  unfolding decode_secret_key validate_node_payload tls_config_from_secret_with_options
      parse_jwt_public_key tls_client_auth_mode
  new_secured now cfg = do
    payload ← decode_secret_key Bytes libraries.decode_base64 libraries.unmarshal cfg.secret_key
    sound ← validated now payload
    tls ←
        tls_config_from_secret_with_options libraries.hkdf other libraries.load_key_pair
          libraries.append_certs sound (tls_client_auth_mode other cfg) cfg.sni_verification
    key ← parse_jwt_public_key sound.jwt_public_key
    ok (secured cfg tls key)

  unfoldable pub new_server : ℕ → Config → Result (Server Key)
  unfolding new_secured
  new_server now cfg =
      let with_tls = new_secured now cfg in
      if not (cfg.secret_key == "") then with_tls else ok (plain cfg)

  abbrev pub after_token : Server Key → Request → Outcome (Unit {0}) → Outcome Forwarded
  after_token server request (refuse status) = refuse status
  after_token server request (pass unit) = pass (
      zstd_middleware_with_limit other libraries.new_reader server.body_limit
        request.content_encoding request.body)

  abbrev pub checked_token : Option Key → Request → Outcome (Unit {0})
  checked_token none request = pass tt
  checked_token (some key) request =
      jwt_middleware Key libraries.parse_token other key request.path request.authorization

  -- The handler of the main server: the token, then the body, then the router.
  unfoldable pub serve : Server Key → Request → Outcome Forwarded
  unfolding jwt_middleware zstd_middleware_with_limit
  serve server request = after_token server request (checked_token server.token_key request)

-- The listeners that are open when ListenAndServe comes to serve, or that it closed before it
-- returned an error; `internal` and `main` are the errors of the two calls of net.Listen.
pub record Opened : Type 0 where
  pub listening : List String
  pub closed : List String
  pub failure : Option String

abbrev pub only_internal : String → Opened
only_internal e = record {
  listening = "internal server" ∷ [];
  closed = "internal server" ∷ [];
  failure = some e;
}

abbrev pub open_main : Option String → Opened
open_main none = record {
  listening = "internal server" ∷ "main server" ∷ [];
  closed = [];
  failure = none;
}
open_main (some e) = only_internal ("main server: " ++ e)

unfoldable pub open_listeners : Bool → Bool → Option String → Option String → Opened
open_listeners use_tls has_tls_config (some e) main = record {
  listening = [];
  closed = [];
  failure = some ("internal server: " ++ e);
}
open_listeners use_tls has_tls_config none main =
    if use_tls && not has_tls_config
    then only_internal "TLS enabled without TLS config"
    else open_main main

-- The results of the two goroutines in the order in which they come: the first error, and if the
-- servers were closed for it.
unfoldable pub first_error : Option String → List (Option String) → Option String
first_error found [] = found
first_error none (result ∷ results) = first_error result results
first_error (some e) (result ∷ results) = first_error (some e) results

abbrev pub errors_of : Option String → Option String → List String
errors_of none none = []
errors_of (some a) none = ("internal server: " ++ a) ∷ []
errors_of none (some b) = ("main server: " ++ b) ∷ []
errors_of (some a) (some b) = ("internal server: " ++ a) ∷ ("main server: " ++ b) ∷ []

-- errors.Join
abbrev pub joined : List String → Option String
joined [] = none
joined (e ∷ errors) = some (join "\n" (e ∷ errors))

-- Both servers are shut down, whatever the first answers.
unfoldable pub shutdown : Option String → Option String → Option String
shutdown internal main = joined (errors_of internal main)
