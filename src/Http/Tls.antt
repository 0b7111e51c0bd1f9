-- ===== src/Http/Tls.antt =====
-- internal/httpapi/tls.go: the TLS settings of the main API and the server name that gates it.
-- HKDF-SHA256 and the parsing of certificates are parameters.
use Prim.Native.Nat.{◌/◌, ◌%◌}
use Prim.Native.Char.{Char, code}
use Prim.Native.String.{◌++◌}
use mathlib.Core.Path.{subst}
use rw_node_go.Common.{
  take, ap, sym, ◌∙◌, ℕ, zero, suc, Bool, true, not, ◌&&◌, ◌||◌, ◌≡◌, refl, ◌↔◌, String, List, [],
  ◌∷◌, leb, nat_eq, ◌==◌, eq_iff, if◌then◌else◌, Option, none, some, Result, ok, err, arith,
}
use rw_node_go.Golang.Strings.{trim_space, to_lower, split_lines, has_prefix}
use rw_node_go.Environment.Secret.{NodePayload}
use rw_node_go.Http.Body.{Bytes}

-- tls.ClientAuthType, as far as it is used.
pub data ClientAuthType : Type 0 where
  no_client_cert : ClientAuthType
  verify_client_cert_if_given : ClientAuthType
  require_and_verify_client_cert : ClientAuthType

unfoldable pub tls_client_auth : (Char → Char) → String → ClientAuthType
tls_client_auth other mode =
    let lower = to_lower other (trim_space mode) in
    if lower == "optional"
    then verify_client_cert_if_given
    else if lower == "none"
    then no_client_cert
    else require_and_verify_client_cert

abbrev pub sni_tlds : List String
sni_tlds = "com" ∷ "net" ∷ "org" ∷ "io" ∷ "dev" ∷ "app" ∷ []

abbrev pub is_base64 : Char → Bool
is_base64 c =
    (leb b'A' (code c) && leb (code c) b'Z')
    || (leb b'a' (code c) && leb (code c) b'z')
    || (leb b'0' (code c) && leb (code c) b'9')
    || nat_eq (code c) b'+'
    || nat_eq (code c) b'/'
    || nat_eq (code c) b'='

unfoldable pub base64_only : String → String
base64_only String.[] = String.[]
base64_only (String.◌∷◌ c s) =
    let rest = base64_only s in if is_base64 c then String.◌∷◌ c rest else rest

unfoldable pub canon_lines : List String → String
unfolding base64_only
canon_lines [] = ""
canon_lines (line ∷ lines) =
    let rest = canon_lines lines in
    let trimmed = trim_space line in
    if has_prefix trimmed "-----" then rest else base64_only trimmed ++ rest

unfoldable pub canon_base64 : String → String
unfolding canon_lines
canon_base64 pem_value = canon_lines (split_lines pem_value)

-- One hexadecimal digit.
abbrev pub hex_digit : ℕ → String → String
hex_digit n String.[] = ""
hex_digit zero (String.◌∷◌ c s) = String.◌∷◌ c ""
hex_digit (suc n) (String.◌∷◌ c s) = hex_digit n s

-- hex.EncodeToString
unfoldable pub hex_encode : Bytes → String
hex_encode [] = ""
hex_encode (b ∷ bytes) =
    hex_digit (b / 16) "0123456789abcdef"
    ++ hex_digit (b % 16) "0123456789abcdef"
    ++ hex_encode bytes

unfoldable pub drop {ℓ} : {A : Type ℓ} → ℕ → List A → List A
drop zero xs = xs
drop (suc n) [] = []
drop (suc n) (x ∷ xs) = drop n xs

-- xs[n], which the code only reads within the length.
abbrev pub element {ℓ} : {A : Type ℓ} → A → ℕ → List A → A
element fallback n [] = fallback
element fallback zero (x ∷ xs) = x
element fallback (suc n) (x ∷ xs) = element fallback n xs

unfoldable pub sni_of : Bytes → String
unfolding hex_encode drop take
sni_of okm =
    let tld = element "" (element 0 21 okm % 6) sni_tlds in
    hex_encode (take 16 okm) ++ "." ++ hex_encode (take 5 (drop 16 okm)) ++ "." ++ tld

pub record TlsConfig : Type 0 where
  pub client_auth : ClientAuthType
  -- GetConfigForClient: the expected server name, if it is set.
  pub expected : Option String

abbrev pub gate : Option String → TlsConfig → String → Result TlsConfig
gate none config server_name = ok config
gate (some name) config server_name =
    if not (server_name == name) then err "unknown sni" else ok config

-- The server name is compared as a whole.
unfoldable pub config_for_client : TlsConfig → String → Result TlsConfig
config_for_client config server_name = gate config.expected config server_name

gate-ok :
    (o : Option String) (config : TlsConfig) (name server_name : String)
    → o ≡ some name
    → (gate o config server_name ≡ ok config) ↔ (name ≡ server_name)
gate-ok none config name server_name h = cc
gate-ok (some n) config name server_name h =
    let same : n ≡ name = cc h in
    subst (λ m. (gate (some m) config server_name ≡ ok config) ↔ (name ≡ server_name)) (sym same)
      (ground (arith, eq_iff server_name name))

abbrev pub sni_result : Result Bytes → Result String
sni_result (ok okm) = ok (sni_of okm)
sni_result (err e) = err ("derive sni: " ++ e)

-- `load_key_pair` and `append_certs` are X509KeyPair and AppendCertsFromPEM.
module _ (hkdf : String → Result Bytes) (other : Char → Char)
    (load_key_pair : String → String → Option String) (append_certs : String → Bool) where
  unfoldable pub derive_sni : NodePayload → Result String
  unfolding sni_of canon_base64
  derive_sni payload =
      sni_result (hkdf (canon_base64 payload.jwt_public_key ++ canon_base64 payload.ca_cert_pem))

  abbrev pub gated : ClientAuthType → Result String → Result TlsConfig
  gated auth (err e) = err e
  gated auth (ok expected) = ok record { client_auth = auth; expected = some expected }

  abbrev pub with_key_pair : Option String → NodePayload → String → Bool → Result TlsConfig
  with_key_pair (some e) payload mode sni_verification = err ("load node keypair: " ++ e)
  with_key_pair none payload mode sni_verification =
      let auth = tls_client_auth other mode in
      let verified = gated auth (derive_sni payload) in
      if not (append_certs payload.ca_cert_pem)
      then err "load client CA"
      else if sni_verification
      then verified
      else ok record { client_auth = auth; expected = none }

  unfoldable pub tls_config_from_secret_with_options :
      NodePayload → String → Bool → Result TlsConfig
  unfolding derive_sni tls_client_auth
  tls_config_from_secret_with_options payload mode sni_verification =
      with_key_pair (load_key_pair payload.node_cert_pem payload.node_key_pem) payload mode
        sni_verification

  gated-expected :
      (auth : ClientAuthType) (name : Result String) (config : TlsConfig)
      → gated auth name ≡ ok config
      → (expected : String) × (name ≡ ok expected) × (config.expected ≡ some expected)
  gated-expected auth (err e) config h = cc
  gated-expected auth (ok expected) config h = (expected, refl, cc)

  with_key_pair-gated :
      (loaded : Option String) (payload : NodePayload) (mode : String) (config : TlsConfig)
      → with_key_pair loaded payload mode true ≡ ok config
      → gated (tls_client_auth other mode) (derive_sni payload) ≡ ok config
  with_key_pair-gated (some e) payload mode config h = cc
  with_key_pair-gated none payload mode config h = ground arith

  -- With the verification on, a handshake gets the settings exactly if it names the server by the
  -- name that is derived from the payload.
  pub config_for_client_iff :
      (payload : NodePayload) (mode : String) (config : TlsConfig) (server_name : String)
      → tls_config_from_secret_with_options payload mode true ≡ ok config
      → (config_for_client config server_name ≡ ok config) ↔ (derive_sni payload ≡ ok server_name)
  unfolding tls_config_from_secret_with_options config_for_client
  config_for_client_iff payload mode config server_name h =
      let loaded = load_key_pair payload.node_cert_pem payload.node_key_pem in
      let (name, derived, set) =
        gated-expected (tls_client_auth other mode) (derive_sni payload) config
          (with_key_pair-gated loaded payload mode config h) in
      let opens = gate-ok config.expected config name server_name set in
      (λ g. derived ∙ ap ok (opens.0 g), λ g. opens.1 (cc (derived, g)))
