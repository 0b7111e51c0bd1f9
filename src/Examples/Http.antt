-- ===== src/Examples/Http.antt =====
-- The theorems on the HTTP interface at concrete inputs.
use rw_node_go.Common.{
  ℕ, ◌≡◌, refl, ◌≢◌, ◌↔◌, ◌≤◌, ◌<◌, Bool, true, false, String, List, [], ◌∷◌, ◌==◌, Option, none,
  some, Result, ok, nat_eq, eq_iff, arith,
}
use rw_node_go.Http.Tokens.{Method, Verifies, bearer_token}
use rw_node_go.Http.Body.{
  Decoded, decode_body, forward, max_int64, decode_body_whole, decode_body_wraps,
}
use rw_node_go.Http.Tls.{
  TlsConfig, require_and_verify_client_cert, config_for_client, derive_sni, config_for_client_iff,
}
use rw_node_go.Http.Server.{new_server, serve, Libraries, Server, Request}
use rw_node_go.Http.Server.Guarded.{serve_signed}
use rw_node_go.Examples.Environment.{
  same_letter, loaded_config, payload, to_bytes, to_payload, numbers,
}

abbrev rs256 : Method
rs256 = record { is_rsa = true; alg = "RS256" }

abbrev verdict : Bool → Option ℕ → Option Bool
verdict true (some key) = some (nat_eq key 7)
verdict _ _ = none

-- One token, which names RS256 and is signed with the key 7.
abbrev one_token : String → (Method → Option ℕ) → Option Bool
one_token token key_of = verdict (token == "good") (key_of rs256)

abbrev Signed : String → Method → ℕ → Type 0
Signed token method key = (token ≡ "good") × (method ≡ rs256) × (key ≡ 7)

verdict_lem : (t : Bool) (k : Option ℕ) → verdict t k ≡ some true → (t ≡ true) × (k ≡ some 7)
verdict_lem true (some key) h = ground arith
verdict_lem true none h = cc
verdict_lem false k h = cc

one_token-Verifies : Verifies ℕ one_token same_letter Signed
one_token-Verifies token key_of h =
    let (good, seven) = verdict_lem (token == "good") (key_of rs256) h in
    (rs256, 7, seven, ((eq_iff token "good").0 good, refl, refl))

abbrev output : List ℕ
output =
    0 ∷ 1 ∷ 2 ∷ 3 ∷ 4 ∷ 5 ∷ 6 ∷ 7 ∷ 8 ∷ 9 ∷ 10 ∷ 11 ∷ 12 ∷ 13 ∷ 14 ∷ 15 ∷ 16 ∷ 17 ∷ 18 ∷ 19 ∷ 20
    ∷ 21 ∷ []

abbrev hkdf : String → Result (List ℕ)
hkdf key = ok output

abbrev key_pair : String → String → Option String
key_pair cert key = none

abbrev certs : String → Bool
certs pem = true

abbrev libraries : Libraries ℕ ℕ ℕ
libraries = record {
  decode_base64 = to_bytes;
  unmarshal = to_payload;
  crypto = numbers;
  hkdf = hkdf;
  load_key_pair = key_pair;
  append_certs = certs;
  parse_rsa_public_key = λ pem. ok 7;
  parse_token = one_token;
  new_reader = λ body. ok record { content = body; failed = none };
}

abbrev server : Server ℕ
server = record {
  tls_config = some record { client_auth = require_and_verify_client_cert; expected = none };
  use_tls = true;
  token_key = some 7;
  body_limit = 1073741824;
}

abbrev request : Request
request = record {
  path = "/node/xray/start";
  authorization = "Bearer good";
  content_encoding = "";
  body = 1 ∷ 2 ∷ [];
}

serve_signed_example :
    (key : ℕ) × (token : String) × (method : Method) × (server.token_key ≡ some key)
    × (bearer_token same_letter request.authorization ≡ some token)
    × (method.alg ≡ "RS256")
    × Signed token method key
unfolding new_server rw_node_go.Golang.Strings.trim_space rw_node_go.Golang.Strings.trim_right
    rw_node_go.Golang.Strings.trim_left rw_node_go.Golang.Strings.join
    rw_node_go.Golang.Strings.split_lines rw_node_go.Golang.Strings.replace_pair
    rw_node_go.Golang.Strings.is_space rw_node_go.Environment.Validate.parse_certificate
    rw_node_go.Environment.Validate.equal_bytes rw_node_go.Golang.Strings.to_lower
    rw_node_go.Golang.Strings.lower_by serve rw_node_go.Common.has rw_node_go.Golang.Strings.fields
    rw_node_go.Golang.Strings.words
serve_signed_example =
    serve_signed ℕ ℕ ℕ libraries same_letter Signed 15 loaded_config server request
      (forward (1 ∷ 2 ∷ [])) one_token-Verifies (λ e. cc e) refl refl

abbrev three_bytes : Decoded
three_bytes = record { content = 1 ∷ 2 ∷ 3 ∷ []; failed = none }

decode_body_whole_example :
    (decoded : Decoded) × (ok three_bytes ≡ ok decoded)
    × (1 ∷ 2 ∷ 3 ∷ [] ≡ decoded.content)
    × (decoded.failed ≡ none)
    × (0 < 4 → 3 ≤ 4)
unfolding decode_body
decode_body_whole_example = decode_body_whole 4 (ok three_bytes) (1 ∷ 2 ∷ 3 ∷ []) (omega arith) refl

decode_body_wraps_example : decode_body max_int64 (ok three_bytes) ≡ forward []
decode_body_wraps_example = decode_body_wraps three_bytes

abbrev gated_config : TlsConfig
gated_config = record {
  client_auth = require_and_verify_client_cert;
  expected = some "000102030405060708090a0b0c0d0e0f.1011121314.io";
}

config_for_client_iff_example :
    (config_for_client gated_config "node.example" ≡ ok gated_config)
    ↔ (derive_sni hkdf same_letter key_pair certs payload ≡ ok "node.example")
unfolding rw_node_go.Http.Tls.tls_config_from_secret_with_options rw_node_go.Golang.Strings.to_lower
    rw_node_go.Golang.Strings.trim_space rw_node_go.Golang.Strings.trim_right
    rw_node_go.Golang.Strings.trim_left rw_node_go.Golang.Strings.is_space
    rw_node_go.Golang.Strings.lower_by
config_for_client_iff_example =
    config_for_client_iff hkdf same_letter key_pair certs payload "mtls" gated_config "node.example"
      refl
