-- ===== src/Environment/Validate/Keys.antt =====
-- The keys of the payload in internal/config/validate.go: that of the node, and that of the tokens.
use Prim.Native.String.{String}
use rw_node_go.Common.{
  if◌then◌else◌, Bool, true, false, not, ◌≡◌, refl, ◌↔◌, [], ◌∷◌, length, Option, none, some,
  Result, ok, err, arith, ap, sym, ◌∙◌,
}
use rw_node_go.Environment.Validate.{
  Bytes, Crypto, equal_bytes, each_equal, other_public, PublicKind, rsa_public, rsa_block, rsa_kind,
  compare_keys, compare_public, public_of_block,
}

each_equal_same : (a : Bytes) → each_equal a a ≡ true
each_equal_same [] = refl
each_equal_same (x ∷ a) = ground (arith, each_equal_same a)

each_equal-equal : (a b : Bytes) → length a ≡ length b → each_equal a b ≡ true → a ≡ b
each_equal-equal [] [] l h = refl
each_equal-equal [] (y ∷ b) l h = ground arith
each_equal-equal (x ∷ a) [] l h = cc
each_equal-equal (x ∷ a) (y ∷ b) l h = ground (arith, each_equal-equal a b)

-- The comparison of two byte slices decides that they are equal.
pub equal_bytes_iff : (a b : Bytes) → (equal_bytes a b ≡ true) ↔ (a ≡ b)
unfolding equal_bytes
equal_bytes_iff a b = (
  λ h. each_equal-equal a b (ground arith) (ground arith),
  λ e. rw e (ground (arith, each_equal_same b)),
)

denied_iff : (e : String) (b : Bool) → ((if not b then some e else none) ≡ none) ↔ (b ≡ true)
denied_iff e true = (λ h. refl, λ h. refl)
denied_iff e false = (λ h. cc, λ h. cc)

abbrev result_or {ℓ κ} : {A : Type ℓ} {B : Type κ} → A → (A → B) → Result A → B
result_or a f (ok x) = f x
result_or a f (err e) = f a

abbrev option_or {ℓ κ} : {A : Type ℓ} {B : Type κ} → A → (A → B) → Option A → B
option_or a f (some x) = f x
option_or a f none = f a

module _ (Certificate Public : Type 0) (crypto : Crypto Certificate Public) where
  -- The public key of the certificate and that of the private key have the same encoding.
  abbrev pub KeyMatches : String → Certificate → Type 0
  KeyMatches key_pem cert =
      (public : Public) × (code : Bytes) × (public_of_block Certificate Public crypto
          (crypto.pem_decode key_pem)
        ≡ ok public)
      × (crypto.marshal_pkix (crypto.cert_public_key cert) ≡ ok code)
      × (crypto.marshal_pkix public ≡ ok code)

  -- The key of the tokens is an RSA key.
  abbrev pub IsRsa : String → Type 0
  IsRsa pem_value =
      (block : Bytes) × (crypto.pem_decode pem_value ≡ some block)
      × (crypto.parse_pkix block ≡ ok rsa_public)

  compare_keys_iff :
      (x y : Result Bytes)
      → (compare_keys Certificate Public crypto x y ≡ none)
        ↔ ((code : Bytes) × (x ≡ ok code) × (y ≡ ok code))
  compare_keys_iff (err e) y = (λ h. cc, λ (c, p, q). cc p)
  compare_keys_iff (ok a) (err e) = (λ h. cc, λ (c, p, q). cc q)
  compare_keys_iff (ok a) (ok b) = (
    λ h. (
      a,
      refl,
      ap ok (
          sym (
            (equal_bytes_iff a b).0
              ((denied_iff "key does not match cert" (equal_bytes a b)).0 h))),
    ),
    λ (c, p, q).
        (denied_iff "key does not match cert" (equal_bytes a b)).1
          ((equal_bytes_iff a b).1 (cc (p, q))),
  )

  pub compare_public_iff :
      (cert : Certificate) (r : Result Public)
      → (compare_public Certificate Public crypto cert r ≡ none) ↔ (
          (public : Public) × (code : Bytes) × (r ≡ ok public)
          × (crypto.marshal_pkix (crypto.cert_public_key cert) ≡ ok code)
          × (crypto.marshal_pkix public ≡ ok code))
  compare_public_iff cert (err e) = (λ h. cc, λ (p, c, q, x, y). cc q)
  compare_public_iff cert (ok key) =
      let keys =
        compare_keys_iff (crypto.marshal_pkix (crypto.cert_public_key cert))
          (crypto.marshal_pkix key) in
      (
        λ h. let (code, x, y) = keys.0 h in (key, code, refl, x, y),
        λ (p, c, q, x, y). keys.1 (c, x, ap (result_or key (λ k. crypto.marshal_pkix k)) q ∙ y),
      )

  rsa_kind_only :
      (r : Result PublicKind) → rsa_kind Certificate Public crypto r ≡ none → r ≡ ok rsa_public
  rsa_kind_only (err e) h = cc
  rsa_kind_only (ok (other_public name)) h = cc
  rsa_kind_only (ok rsa_public) h = refl

  pub rsa_block_iff :
      (o : Option Bytes)
      → (rsa_block Certificate Public crypto o ≡ none)
        ↔ ((block : Bytes) × (o ≡ some block) × (crypto.parse_pkix block ≡ ok rsa_public))
  rsa_block_iff none = (λ h. cc, λ (b, e, f). cc e)
  rsa_block_iff (some block) = (
    λ h. (block, refl, rsa_kind_only (crypto.parse_pkix block) h),
    λ (b, e, f).
        ap (rsa_kind Certificate Public crypto)
          (ap (option_or block (λ c. crypto.parse_pkix c)) e ∙ f),
  )
