-- ===== src/Environment/Secret.antt =====
-- DecodeSecretKey and NormalizePEM of internal/config/env.go. encoding/base64 and encoding/json are
-- parameters: `decode_base64` gives the bytes and `unmarshal` the payload, or the text of an error.
use rw_node_go.Common.{
  prefixed, Bool, true, false, String, List, [], ◌∷◌, ◌==◌, eq_iff, if◌then◌else◌, Result, ok, err,
  ◌>>=◌, bind-ok, ◌≡◌, ◌≢◌, refl, arith, Bool-cases, inl, inr,
}
use rw_node_go.Golang.Strings.{
  trim_left, trim_right, trim_space, trim_space_again, replace_pair, split_lines, join,
}

pub record NodePayload : Type 0 where
  pub ca_cert_pem : String
  pub jwt_public_key : String
  pub node_cert_pem : String
  pub node_key_pem : String

-- The lines, trimmed, with one blank line for several.
unfoldable pub collapse : Bool → List String → List String
collapse last_blank [] = []
collapse last_blank (line ∷ lines) =
    let trimmed = trim_space line in
    let after_blank = collapse true lines in
    let after_text = collapse false lines in
    if trimmed == ""
    then (if last_blank then after_blank else "" ∷ after_blank)
    else trimmed ∷ after_text

-- The first replacement is of a backslash and an n, the second of a carriage return and a line feed.
unfoldable pub normalize_pem : String → String
unfolding collapse
normalize_pem value =
    let unix = replace_pair 13 10 (replace_pair 92 110 value) in
    trim_space (join "\n" (collapse false (split_lines (trim_space unix))))

abbrev pub normalized : NodePayload → NodePayload
normalized p = record {
  ca_cert_pem = normalize_pem p.ca_cert_pem;
  jwt_public_key = normalize_pem p.jwt_public_key;
  node_cert_pem = normalize_pem p.node_cert_pem;
  node_key_pem = normalize_pem p.node_key_pem;
}

unfoldable pub complete : NodePayload → Result NodePayload
complete p =
    if p.ca_cert_pem == ""
    then err "SECRET_KEY payload missing caCertPem"
    else if p.jwt_public_key == ""
    then err "SECRET_KEY payload missing jwtPublicKey"
    else if p.node_cert_pem == ""
    then err "SECRET_KEY payload missing nodeCertPem"
    else if p.node_key_pem == ""
    then err "SECRET_KEY payload missing nodeKeyPem"
    else ok p

module _ (Bytes : Type 0) (decode_base64 : String → Result Bytes)
    (unmarshal : Bytes → Result NodePayload) where
  unfoldable pub decode_secret_key : String → Result NodePayload
  unfolding complete normalize_pem
  decode_secret_key secret_key = do
    raw ← prefixed "decode SECRET_KEY: " (decode_base64 (trim_space secret_key))
    payload ← prefixed "parse SECRET_KEY payload: " (unmarshal raw)
    complete (normalized payload)

  -- A part of the payload that is there, without spaces around it.
  abbrev pub IsPresent : String → Type 0
  IsPresent s = (s ≢ "") × (trim_space s ≡ s)

  complete-ok :
      (p q : NodePayload)
      → complete p ≡ ok q
      → (p ≡ q)
        × (p.ca_cert_pem ≢ "")
        × (p.jwt_public_key ≢ "")
        × (p.node_cert_pem ≢ "")
        × (p.node_key_pem ≢ "")
  unfolding complete
  complete-ok p q h = ground (
    arith,
    eq_iff p.ca_cert_pem "",
    eq_iff p.jwt_public_key "",
    eq_iff p.node_cert_pem "",
    eq_iff p.node_key_pem "",
  )

  normalize_pem_trimmed : (s : String) → trim_space (normalize_pem s) ≡ normalize_pem s
  unfolding normalize_pem
  normalize_pem_trimmed s = trim_space_again _

  complete-IsPresent :
      (p q : NodePayload)
      → complete (normalized p) ≡ ok q
      → IsPresent q.ca_cert_pem
        × IsPresent q.jwt_public_key
        × IsPresent q.node_cert_pem
        × IsPresent q.node_key_pem
  complete-IsPresent p q h =
      let (same, ca, jwt, cert, key) = complete-ok (normalized p) q h in
      rw (← same) (
        (ca, normalize_pem_trimmed p.ca_cert_pem),
        (jwt, normalize_pem_trimmed p.jwt_public_key),
        (cert, normalize_pem_trimmed p.node_cert_pem),
        (key, normalize_pem_trimmed p.node_key_pem),
      )

  -- A secret key that DecodeSecretKey accepts gives four parts, none of them empty and none with
  -- spaces around it.
  pub decode_secret_key-IsPresent :
      (secret_key : String) (q : NodePayload)
      → decode_secret_key secret_key ≡ ok q
      → IsPresent q.ca_cert_pem
        × IsPresent q.jwt_public_key
        × IsPresent q.node_cert_pem
        × IsPresent q.node_key_pem
  unfolding decode_secret_key
  decode_secret_key-IsPresent secret_key q h =
      let (raw, hr, h1) =
        bind-ok (prefixed "decode SECRET_KEY: " (decode_base64 (trim_space secret_key))) _ _ h in
      let (p, hp, h2) = bind-ok (prefixed "parse SECRET_KEY payload: " (unmarshal raw)) _ _ h1 in
      complete-IsPresent p q h2

-- Collapsing lines that are collapsed already changes nothing: every line is trimmed and no two
-- blank lines follow each other.
pub collapse_again :
    (last_blank : Bool) (lines : List String)
    → collapse last_blank (collapse last_blank lines) ≡ collapse last_blank lines
unfolding collapse trim_space trim_right trim_left
collapse_again b [] = refl
collapse_again true (line ∷ lines) = elim (Bool-cases (trim_space line == "")) [
  | inl e ↦ simp e (collapse_again true lines)
  | inr e ↦ simp e (simp (trim_space_again line, e) (simp (collapse_again false lines) refl))
]
collapse_again false (line ∷ lines) = elim (Bool-cases (trim_space line == "")) [
  | inl e ↦ simp e (simp (collapse_again true lines) refl)
  | inr e ↦ simp e (simp (trim_space_again line, e) (simp (collapse_again false lines) refl))
]
