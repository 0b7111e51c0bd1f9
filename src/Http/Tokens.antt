-- ===== src/Http/Tokens.antt =====
-- internal/httpapi/jwt.go and the guard of the internal port in internal/httpapi/middleware.go.
use Prim.Native.Char.{Char}
use mathlib.Core.Path.{subst}
use rw_node_go.Common.{
  sym, has, ℕ, Bool, true, false, not, ◌||◌, ◌≡◌, refl, String, List, [], ◌∷◌, nat_eq, ◌==◌, eq_iff,
  if◌then◌else◌, Option, none, some, arith,
}
use rw_node_go.Golang.Strings.{fields, to_lower}

-- A handler passes the request on, or closes the connection with this status as its fallback.
pub data Outcome {ℓ} (A : Type ℓ) : Type ℓ where
  pass : A → Outcome A
  refuse : ℕ → Outcome A

-- strings.EqualFold, by the table `fold` of Unicode past ASCII.
unfoldable pub equal_fold : (Char → Char) → String → String → Bool
equal_fold fold s t = to_lower fold s == to_lower fold t

unfoldable pub bearer_parts : (Char → Char) → List String → Option String
unfolding equal_fold
bearer_parts fold (scheme ∷ value ∷ []) =
    if not (equal_fold fold scheme "Bearer") || value == "" then none else some value
bearer_parts fold _ = none

unfoldable pub bearer_token : (Char → Char) → String → Option String
unfolding bearer_parts
bearer_token fold header = bearer_parts fold (fields header)

-- The signing method that a token names.
pub record Method : Type 0 where
  pub is_rsa : Bool
  pub alg : String

-- Parse of golang-jwt: the text of a token and the function that gives the key for its method; the
-- answer says if the token is valid, and `none` is an error.
abbrev pub Parse : Type 0 → Type 0
Parse Key = String → (Method → Option Key) → Option Bool

module _ (Key : Type 0) (parse : Parse Key) (fold : Char → Char) where
  -- The closure that Parse calls.
  unfoldable pub key_for : Key → Method → Option Key
  key_for public_key method =
      if not method.is_rsa || not (method.alg == "RS256") then none else some public_key

  abbrev pub is_valid : Option Bool → Bool
  is_valid none = false
  is_valid (some valid) = valid

  abbrev pub with_token : Key → Option String → Outcome (Unit {0})
  with_token public_key none = refuse 401
  with_token public_key (some value) =
      if not (is_valid (parse value (key_for public_key))) then refuse 401 else pass tt

  -- JWTMiddlewareWithExemptPaths on the path and the header Authorization of a request.
  unfoldable pub jwt_middleware_with_exempt_paths :
      Key → List String → String → String → Outcome (Unit {0})
  unfolding key_for bearer_token
  jwt_middleware_with_exempt_paths public_key exempt path authorization =
      let checked = with_token public_key (bearer_token fold authorization) in
      if has path exempt then pass tt else checked

  unfoldable pub jwt_middleware : Key → String → String → Outcome (Unit {0})
  unfolding jwt_middleware_with_exempt_paths
  jwt_middleware public_key = jwt_middleware_with_exempt_paths public_key []

  -- What golang-jwt documents: a valid token is signed with the key that the function gave for the
  -- method that the token names.
  abbrev pub Verifies : (String → Method → Key → Type 0) → Type 0
  Verifies Signed =
      (token : String) (key_of : Method → Option Key)
      → parse token key_of ≡ some true
      → (method : Method) × (key : Key) × (key_of method ≡ some key) × Signed token method key

  key_for_rsa :
      (public_key key : Key) (method : Method)
      → key_for public_key method ≡ some key
      → (method.is_rsa ≡ true) × (method.alg ≡ "RS256") × (public_key ≡ key)
  unfolding key_for
  key_for_rsa public_key key method h = ground (arith, eq_iff method.alg "RS256")

  valid_some : (o : Option Bool) → is_valid o ≡ true → o ≡ some true
  valid_some none h = cc
  valid_some (some b) h = rw h refl

  with_token-pass :
      (public_key : Key) (found : Option String)
      → with_token public_key found ≡ pass tt
      → (token : String) × (found ≡ some token) × (parse token (key_for public_key) ≡ some true)
  with_token-pass public_key none h = cc
  with_token-pass public_key (some token) h =
      (token, refl, valid_some (parse token (key_for public_key)) (ground arith))

  -- A request that the middleware lets through has a bearer token that is signed with the node's
  -- public key by RS256, if the JWT library verifies what it says it does.
  pub jwt_middleware_signed :
      (Signed : String → Method → Key → Type 0) (public_key : Key) (path authorization : String)
      → Verifies Signed
      → jwt_middleware public_key path authorization ≡ pass tt
      → (token : String) × (method : Method) × (bearer_token fold authorization ≡ some token)
        × (method.is_rsa ≡ true)
        × (method.alg ≡ "RS256")
        × Signed token method public_key
  unfolding jwt_middleware fields has
  jwt_middleware_signed Signed public_key path authorization verifies h =
      let (token, found, valid) = with_token-pass public_key (bearer_token fold authorization) h in
      let (method, key, given, signed) = verifies token (key_for public_key) valid in
      let (rsa, alg, same) = key_for_rsa public_key key method given in
      (token, method, found, rsa, alg, subst (Signed token method) (sym same) signed)

-- The local address of a request, if it is one of TCP: the port and if the IP is a loopback.
unfoldable pub gin_internal_port_guard : ℕ → Option (ℕ × Bool) → Outcome (Unit {0})
gin_internal_port_guard expected none = refuse 404
gin_internal_port_guard expected (some (port, is_loopback)) =
    if not (nat_eq port expected) || not is_loopback then refuse 404 else pass tt
