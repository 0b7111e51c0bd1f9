-- ===== src/Environment/Validate/Sound.antt =====
-- When ValidateNodePayload of internal/config/validate.go accepts a payload.
use Prim.Native.String.{String, ◌++◌}
use rw_node_go.Common.{
  ◌&&◌, ℕ, true, false, ◌≡◌, refl, ◌↔◌, ◌≤◌, Option, none, some, Result, ok, err, ap, sym, ◌∙◌,
}
use rw_node_go.Environment.Secret.{NodePayload}
use rw_node_go.Environment.Validate.{
  verify_key_matches_cert, verify_rsa_public_key, short_fingerprint, validate_node_payload,
  checks_of, self_check, signed_check, Crypto, check, parse_certificate, validity_check,
  public_of_block,
}
use rw_node_go.Environment.Validate.Keys.{KeyMatches, IsRsa, compare_public_iff, rsa_block_iff}
use rw_node_go.Environment.Validate.Reports.{all_ok, report_iff, check-ok, window_iff, seven_ok}

module _ (Certificate Public : Type 0) (crypto : Crypto Certificate Public) where
  -- The certificates parse, the authority is valid now and signed by itself, the node's
  -- certificate is signed by it and matches the node's key, and the tokens' key is an RSA key.
  abbrev pub IsSound : ℕ → NodePayload → Type 0
  IsSound now payload =
      (ca : Certificate) × (node : Certificate) × (parse_certificate Certificate Public crypto
          payload.ca_cert_pem
        ≡ ok ca)
      × (parse_certificate Certificate Public crypto payload.node_cert_pem ≡ ok node)
      × (crypto.not_before ca ≤ now)
      × (now ≤ crypto.not_after ca)
      × (crypto.check_signature_from ca ca ≡ none)
      × (crypto.check_signature_from node ca ≡ none)
      × KeyMatches Certificate Public crypto payload.node_key_pem node
      × IsRsa Certificate Public crypto payload.jwt_public_key

  validity_check_iff :
      (now : ℕ) (ca : Certificate)
      → ((validity_check Certificate Public crypto now (ok ca)).is_ok ≡ true)
        ↔ ((crypto.not_before ca ≤ now) × (now ≤ crypto.not_after ca))
  unfolding validity_check check
  validity_check_iff now ca =
      window_iff (crypto.not_before ca) (crypto.not_after ca) now
        (check "CA not expired" "" (some "not yet valid"))
        (check "CA not expired" "" (some "expired"))
        (check "CA not expired" ("until " ++ crypto.format_time (crypto.not_after ca)) none) refl
        refl refl

  checks_of_sound :
      (now : ℕ) (ca node : Result Certificate) (key jwt : Option String)
      → all_ok (checks_of Certificate Public crypto now ca node key jwt) ≡ true
      → (c : Certificate) × (n : Certificate) × (ca ≡ ok c)
        × (node ≡ ok n)
        × (crypto.not_before c ≤ now)
        × (now ≤ crypto.not_after c)
        × (crypto.check_signature_from c c ≡ none)
        × (crypto.check_signature_from n c ≡ none)
        × (key ≡ none)
        × (jwt ≡ none)
  unfolding checks_of self_check signed_check
  checks_of_sound now (err e) node key jwt h = let absurd : false ≡ true = h in cc absurd
  checks_of_sound now (ok c) (err e) key jwt h =
      let (valid, self, node, signed, matches, rsa) =
        seven_ok (check "CA parses" (short_fingerprint Certificate Public crypto (ok c)) none)
          (validity_check Certificate Public crypto now (ok c))
          (self_check Certificate Public crypto (ok c)) (check "node cert parses" "" (some e))
          (signed_check Certificate Public crypto (ok c) (err e))
          (check "node key matches cert" "valid" key) (check "jwt public key" "ok" jwt) h in
      let unparsed : some e ≡ none = (check-ok "node cert parses" "" (some e)).0 node in cc unparsed
  checks_of_sound now (ok c) (ok n) key jwt h =
      let self_signed = crypto.check_signature_from c c in
      let node_signed = crypto.check_signature_from n c in
      let (valid, self, node, signed, matches, rsa) =
        seven_ok (check "CA parses" (short_fingerprint Certificate Public crypto (ok c)) none)
          (validity_check Certificate Public crypto now (ok c))
          (check "CA self-signature" "valid" self_signed)
          (check "node cert parses" (short_fingerprint Certificate Public crypto (ok n)) none)
          (check "node signed by CA" "valid" node_signed)
          (check "node key matches cert" "valid" key) (check "jwt public key" "ok" jwt) h in
      let (low, high) = (validity_check_iff now c).0 valid in
      (
        c,
        n,
        refl,
        refl,
        low,
        high,
        (check-ok "CA self-signature" "valid" self_signed).0 self,
        (check-ok "node signed by CA" "valid" node_signed).0 signed,
        (check-ok "node key matches cert" "valid" key).0 matches,
        (check-ok "jwt public key" "ok" jwt).0 rsa,
      )

  checks_of-IsOk :
      (now : ℕ) (c n : Certificate) (key jwt : Option String)
      → crypto.not_before c ≤ now
      → now ≤ crypto.not_after c
      → crypto.check_signature_from c c ≡ none
      → crypto.check_signature_from n c ≡ none
      → key ≡ none
      → jwt ≡ none
      → all_ok (checks_of Certificate Public crypto now (ok c) (ok n) key jwt) ≡ true
  unfolding checks_of self_check signed_check check
  checks_of-IsOk now c n key jwt low high self signed matches rsa =
      let valid = (validity_check_iff now c).1 (low, high) in
      rw (self, signed, matches, rsa) (ap (λ b. b && true) valid)

  abbrev key_of : NodePayload → Result Public
  key_of payload =
      public_of_block Certificate Public crypto (crypto.pem_decode payload.node_key_pem)

  -- ValidateNodePayload reports no error exactly for a payload that is sound at that time: the
  -- certificates of the authority and of the node parse, the authority's is valid and signed by
  -- itself, the node's is signed by it and has the public key of the node's private key, and the
  -- key for tokens is an RSA key.
  pub validate_node_payload_iff :
      (now : ℕ) (payload : NodePayload)
      → ((validate_node_payload Certificate Public crypto now payload).1 ≡ none)
        ↔ IsSound now payload
  unfolding validate_node_payload verify_key_matches_cert verify_rsa_public_key
  validate_node_payload_iff now payload =
      let ca_parsed = parse_certificate Certificate Public crypto payload.ca_cert_pem in
      let node_parsed = parse_certificate Certificate Public crypto payload.node_cert_pem in
      let verify_key = verify_key_matches_cert Certificate Public crypto payload.node_key_pem in
      let rsa_result = verify_rsa_public_key Certificate Public crypto payload.jwt_public_key in
      let checks =
        checks_of Certificate Public crypto now ca_parsed node_parsed (verify_key node_parsed)
          rsa_result in
      (
        λ h.
            let (ca, node, pa, pn, low, high, self, signed, matches, rsa) =
              checks_of_sound now ca_parsed node_parsed (verify_key node_parsed) rsa_result
                ((report_iff checks).0 h) in
            (
              ca,
              node,
              pa,
              pn,
              low,
              high,
              self,
              signed,
              (compare_public_iff Certificate Public crypto node (key_of payload)).0
                  (sym (ap verify_key pn) ∙ matches),
              (rsa_block_iff Certificate Public crypto (crypto.pem_decode payload.jwt_public_key)).0
                  rsa,
            ),
        λ (ca, node, pa, pn, low, high, self, signed, matches, rsa). (report_iff checks).1 (
            rw (pa, pn)
              (checks_of-IsOk now ca node (verify_key (ok node)) rsa_result low high self signed
                ((compare_public_iff Certificate Public crypto node (key_of payload)).1 matches)
                ((rsa_block_iff Certificate Public crypto
                    (crypto.pem_decode payload.jwt_public_key)).1
                  rsa))),
      )
