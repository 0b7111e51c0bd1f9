-- ===== src/Http/Server/Guarded.antt =====
-- The server of internal/httpapi/server.go as a whole: a request that comes to a route, and the
-- listeners when it does not start.
use Prim.Native.Char.{Char}
use rw_node_go.Common.{
  ℕ, Bool, true, false, ◌≡◌, refl, ◌≢◌, String, [], ◌==◌, eq_iff, Option, none, some, ok, bind-ok,
  arith, sym, ap,
}
use rw_node_go.Environment.{Config, tls_client_auth_mode}
use rw_node_go.Environment.Secret.{decode_secret_key}
use rw_node_go.Http.Tokens.{
  Outcome, pass, refuse, Method, bearer_token, jwt_middleware_signed, Verifies,
}
use rw_node_go.Http.Body.{Bytes, Forwarded}
use rw_node_go.Http.Tls.{tls_config_from_secret_with_options, TlsConfig}
use rw_node_go.Http.Server.{
  Libraries, Server, Request, parse_jwt_public_key, secured, validated, new_secured, new_server,
  after_token, checked_token, serve, open_listeners,
}

module _ (Certificate Public Key : Type 0) (libraries : Libraries Certificate Public Key)
    (other : Char → Char) where
  -- A server with a secret has TLS settings and a key for tokens.
  abbrev IsSecured : Server Key → Type 0
  IsSecured server =
      (tls : TlsConfig) × (key : Key) × (server.tls_config ≡ some tls)
      × (server.token_key ≡ some key)

  new_secured-IsSecured :
      (now : ℕ) (cfg : Config) (server : Server Key)
      → new_secured Certificate Public Key libraries other now cfg ≡ ok server
      → IsSecured server
  unfolding new_secured
  new_secured-IsSecured now cfg server h =
      let (payload, h0, h1) =
        bind-ok (decode_secret_key Bytes libraries.decode_base64 libraries.unmarshal cfg.secret_key)
          _ _ h in
      let (sound, h2, h3) =
        bind-ok (validated Certificate Public Key libraries other now payload) _ _ h1 in
      let (tls, h4, h5) =
        bind-ok
          (tls_config_from_secret_with_options libraries.hkdf other libraries.load_key_pair
            libraries.append_certs sound (tls_client_auth_mode other cfg) cfg.sni_verification)
          _ _ h3 in
      let (key, h6, h7) =
        bind-ok (parse_jwt_public_key Certificate Public Key libraries other sound.jwt_public_key) _
          _ h5 in
      let same : secured Certificate Public Key libraries other cfg tls key ≡ server = cc h7 in
      (tls, key, ap (λ s. s.tls_config) (sym same), ap (λ s. s.token_key) (sym same))

  after_token-pass :
      (server : Server Key) (request : Request) (outcome : Outcome (Unit {0}))
      (forwarded : Forwarded)
      → after_token Certificate Public Key libraries other server request outcome ≡ pass forwarded
      → outcome ≡ pass tt
  after_token-pass server request (refuse status) forwarded h = cc
  after_token-pass server request (pass unit) forwarded h = refl

  -- On a server that was made with a secret, a request that reaches the router carries a bearer
  -- token that is signed by RS256 with the server's key, if the JWT library verifies what it says.
  pub serve_signed :
      (Signed : String → Method → Key → Type 0) (now : ℕ) (cfg : Config) (server : Server Key)
      (request : Request) (forwarded : Forwarded)
      → Verifies Key libraries.parse_token other Signed
      → cfg.secret_key ≢ ""
      → new_server Certificate Public Key libraries other now cfg ≡ ok server
      → serve Certificate Public Key libraries other server request ≡ pass forwarded
      → (key : Key) × (token : String) × (method : Method) × (server.token_key ≡ some key)
        × (bearer_token other request.authorization ≡ some token)
        × (method.alg ≡ "RS256")
        × Signed token method key
  unfolding new_server serve
  serve_signed Signed now cfg server request forwarded verifies filled made served =
      let secret : (cfg.secret_key == "") ≡ false = ground (arith, eq_iff cfg.secret_key "") in
      let (tls, key, set_tls, set_key) =
        new_secured-IsSecured now cfg server (simp secret at made) in
      let passed =
        after_token-pass server request
          (checked_token Certificate Public Key libraries other server.token_key request) forwarded
          served in
      let (token, method, found, rsa, alg, signed) =
        jwt_middleware_signed Key libraries.parse_token other Signed key request.path
          request.authorization verifies (rw set_key at passed) in
      (key, token, method, set_key, found, alg, signed)

-- When ListenAndServe fails before it serves, every listener that it opened is closed again; when it
-- does not fail, both are open.
pub open_listeners-closed :
    (use_tls has_tls_config : Bool) (internal main : Option String)
    → let opened = open_listeners use_tls has_tls_config internal main in
      (opened.failure ≢ none → opened.closed ≡ opened.listening)
      × (opened.failure ≡ none → (opened.closed ≡ []) × (internal ≡ none) × (main ≡ none))
unfolding open_listeners
open_listeners-closed use_tls has_tls_config (some e) main = (λ h. refl, λ h. cc)
open_listeners-closed true false none main = (λ h. refl, λ h. cc)
open_listeners-closed true true none none = (λ h. elim (h refl) [ ], λ h. (refl, refl, refl))
open_listeners-closed true true none (some e) = (λ h. refl, λ h. cc)
open_listeners-closed false c none none = (λ h. elim (h refl) [ ], λ h. (refl, refl, refl))
open_listeners-closed false c none (some e) = (λ h. refl, λ h. cc)
