-- ===== src/Environment/Validate.antt =====
-- ValidateNodePayload of internal/config/validate.go. What the code calls of crypto/x509,
-- encoding/pem and crypto/sha256 is a record of functions; bytes are lists of numbers.
pub mod Keys
pub mod Reports
pub mod Sound
use Prim.Native.String.{◌++◌}
use rw_node_go.Common.{
  ℕ, Bool, true, false, not, ◌&&◌, String, List, [], ◌∷◌, if◌then◌else◌, nat_eq, ltb, length,
  is_empty, Option, none, some, Result, ok, err,
}
use rw_node_go.Golang.Strings.{join, first_characters, first_line}
use rw_node_go.Environment.Secret.{NodePayload}

abbrev pub Bytes : Type 0
Bytes = List ℕ

-- The dynamic type of a private key that ParsePKCS8PrivateKey returns, with its public key.
pub data PrivateKey (Public : Type 0) : Type 0 where
  rsa_private : Public → PrivateKey Public
  ecdsa_private : Public → PrivateKey Public
  ed25519_private : Public → PrivateKey Public
  signer_private : Public → PrivateKey Public
  other_private : String → PrivateKey Public

-- The dynamic type of a public key that ParsePKIXPublicKey returns.
pub data PublicKind : Type 0 where
  rsa_public : PublicKind
  other_public : String → PublicKind

-- The libraries. A time is the number of nanoseconds since a fixed moment.
pub record Crypto (Certificate Public : Type 0) : Type 0 where
  pub pem_decode : String → Option Bytes
  pub parse_x509 : Bytes → Result Certificate
  pub not_before : Certificate → ℕ
  pub not_after : Certificate → ℕ
  pub format_time : ℕ → String
  pub sha256_hex : Certificate → String
  pub check_signature_from : Certificate → Certificate → Option String
  pub cert_public_key : Certificate → Public
  pub parse_pkcs8 : Bytes → Option (PrivateKey Public)
  pub parse_pkcs1 : Bytes → Option Public
  pub parse_ec : Bytes → Option Public
  pub marshal_pkix : Public → Result Bytes
  pub parse_pkix : Bytes → Result PublicKind

pub record PayloadCheck : Type 0 where
  pub check_name : String
  pub is_ok : Bool
  pub detail : String

-- The closure `add`.
unfoldable pub check : String → String → Option String → PayloadCheck
check name text (some e) = record { check_name = name; is_ok = false; detail = first_line e }
check name text none = record { check_name = name; is_ok = true; detail = text }

abbrev pub each_equal : Bytes → Bytes → Bool
each_equal [] b = true
each_equal (x ∷ a) [] = false
each_equal (x ∷ a) (y ∷ b) = nat_eq x y && each_equal a b

unfoldable pub equal_bytes : Bytes → Bytes → Bool
equal_bytes a b = if not (nat_eq (length a) (length b)) then false else each_equal a b

unfoldable pub failures : List PayloadCheck → List String
failures [] = []
failures (c ∷ checks) =
    let rest = failures checks in
    if not c.is_ok then (c.check_name ++ " (" ++ c.detail ++ ")") ∷ rest else rest

unfoldable pub report : List PayloadCheck → List PayloadCheck × Option String
unfolding failures
report checks =
    let failed = failures checks in
    if not (is_empty failed)
    then (checks, some ("SECRET_KEY payload validation failed: " ++ join "; " failed))
    else (checks, none)

abbrev pub failure {ℓ} : {A : Type ℓ} → Result A → Option String
failure (ok a) = none
failure (err e) = some e

module _ (Certificate Public : Type 0) (crypto : Crypto Certificate Public) where
  abbrev pub parse_block : Option Bytes → Result Certificate
  parse_block none = err "no PEM block"
  parse_block (some block) = crypto.parse_x509 block

  unfoldable pub parse_certificate : String → Result Certificate
  parse_certificate pem_value = parse_block (crypto.pem_decode pem_value)

  unfoldable pub short_fingerprint : Result Certificate → String
  short_fingerprint (err e) = ""
  short_fingerprint (ok cert) = first_characters 24 (crypto.sha256_hex cert)

  -- The public key of a private key, in the order in which the formats are tried.
  abbrev pub public_of_private : PrivateKey Public → Result Public
  public_of_private (rsa_private public) = ok public
  public_of_private (ecdsa_private public) = ok public
  public_of_private (ed25519_private public) = ok public
  public_of_private (signer_private public) = ok public
  public_of_private (other_private name) =
      err ("node key type " ++ name ++ " has no extractable public key")

  abbrev pub first_format :
      Option (PrivateKey Public) → Option Public → Option Public → Result Public
  first_format (some key) _ _ = public_of_private key
  first_format none (some public) _ = ok public
  first_format none none (some public) = ok public
  first_format none none none = err "unsupported node key format"

  abbrev pub compare_keys : Result Bytes → Result Bytes → Option String
  compare_keys (err e) _ = some ("marshal cert public key: " ++ e)
  compare_keys (ok a) (err e) = some ("marshal node key public key: " ++ e)
  compare_keys (ok a) (ok b) =
      if not (equal_bytes a b) then some "key does not match cert" else none

  abbrev pub compare_public : Certificate → Result Public → Option String
  compare_public cert (err e) = some e
  compare_public cert (ok public) =
      compare_keys (crypto.marshal_pkix (crypto.cert_public_key cert)) (crypto.marshal_pkix public)

  abbrev pub public_of_block : Option Bytes → Result Public
  public_of_block none = err "no PEM block"
  public_of_block (some block) =
      first_format (crypto.parse_pkcs8 block) (crypto.parse_pkcs1 block) (crypto.parse_ec block)

  -- The error, or `none`.
  unfoldable pub verify_key_matches_cert : String → Result Certificate → Option String
  verify_key_matches_cert key_pem (err e) = some "cert unavailable"
  verify_key_matches_cert key_pem (ok cert) =
      compare_public cert (public_of_block (crypto.pem_decode key_pem))

  abbrev pub rsa_kind : Result PublicKind → Option String
  rsa_kind (err e) = some ("parse jwt public key: " ++ e)
  rsa_kind (ok (other_public name)) = some ("jwt public key is " ++ name ++ ", want RSA for RS256")
  rsa_kind (ok rsa_public) = none

  abbrev pub rsa_block : Option Bytes → Option String
  rsa_block none = some "no PEM block"
  rsa_block (some block) = rsa_kind (crypto.parse_pkix block)

  unfoldable pub verify_rsa_public_key : String → Option String
  verify_rsa_public_key pem_value = rsa_block (crypto.pem_decode pem_value)

  unfoldable pub validity_check : ℕ → Result Certificate → PayloadCheck
  unfolding check
  validity_check now (err e) = check "CA not expired" "" (some "CA unavailable")
  validity_check now (ok ca) =
      if ltb now (crypto.not_before ca)
      then check "CA not expired" "" (some "not yet valid")
      else if ltb (crypto.not_after ca) now
      then check "CA not expired" "" (some "expired")
      else check "CA not expired" ("until " ++ crypto.format_time (crypto.not_after ca)) none

  unfoldable pub self_check : Result Certificate → PayloadCheck
  unfolding check
  self_check (err e) = check "CA self-signature" "" (some "CA unavailable")
  self_check (ok ca) = check "CA self-signature" "valid" (crypto.check_signature_from ca ca)

  unfoldable pub signed_check : Result Certificate → Result Certificate → PayloadCheck
  unfolding check
  signed_check (ok ca) (ok node) =
      check "node signed by CA" "valid" (crypto.check_signature_from node ca)
  signed_check _ _ = check "node signed by CA" "" (some "cert unavailable")

  -- The seven checks, from the two certificates, the check of the node's key and that of the
  -- tokens' key.
  unfoldable pub checks_of :
      ℕ
      → Result Certificate
      → Result Certificate
      → Option String
      → Option String
      → List PayloadCheck
  unfolding check validity_check self_check signed_check
  checks_of now ca node key jwt =
      check "CA parses" (short_fingerprint ca) (failure ca)
      ∷ validity_check now ca
      ∷ self_check ca
      ∷ check "node cert parses" (short_fingerprint node) (failure node)
      ∷ signed_check ca node
      ∷ check "node key matches cert" "valid" key
      ∷ check "jwt public key" "ok" jwt
      ∷ []

  unfoldable pub validate_node_payload : ℕ → NodePayload → List PayloadCheck × Option String
  unfolding checks_of report verify_key_matches_cert verify_rsa_public_key
  validate_node_payload now payload =
      let ca = parse_certificate payload.ca_cert_pem in
      let node = parse_certificate payload.node_cert_pem in
      report (
        checks_of now ca node (verify_key_matches_cert payload.node_key_pem node)
          (verify_rsa_public_key payload.jwt_public_key))
