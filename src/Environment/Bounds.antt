-- ===== src/Environment/Bounds.antt =====
-- What holds of every configuration that config.Load of internal/config/env.go returns.
use Prim.Native.Char.{Char}
use rw_node_go.Common.{
  bind-ok, true, false, not, ℤ, pos, negsuc, int_eq, ◌≡◌, refl, ◌≢◌, ◌⊎◌, inl, inr, String, ◌==◌,
  eq_iff, ok, arith,
}
use rw_node_go.Environment.{
  assembled, load, load_variables, DotEnv, dot_env_read, dot_env_missing, dot_env_error, env_bool,
  Config, Variables, env_port, env_optional_port, env_non_negative_int64, checked,
  valid_node_tls_client_auth, valid_log_level, valid_log_color, log_color_enabled,
  normalize_log_color, tls_client_auth_mode, normalize_node_tls_client_auth,
}
use rw_node_go.Environment.Ranges.{
  IsWithin, env_port-IsWithin, env_optional_port-IsWithin, env_non_negative_int64-IsWithin,
}

-- What Load promises of a configuration.
pub record IsLoaded (other : Char → Char) (c : Config) : Type 0 where
  node_port_bounds : IsWithin 1 65535 c.node_port
  internal_port_bounds : IsWithin 1 65535 c.internal_rest_port
  hysteria_port_bounds : IsWithin 0 65535 c.hysteria_listen_port
  limit_bounds : IsWithin 0 9223372036854775807 c.request_body_limit_bytes
  ports_differ : c.node_port ≢ c.internal_rest_port
  secret_given : c.require_secret_key ≡ true → c.secret_key ≢ ""
  known_mode :
      (tls_client_auth_mode other c ≡ "mtls")
      ⊎ (tls_client_auth_mode other c ≡ "optional")
      ⊎ (tls_client_auth_mode other c ≡ "none")
  known_level : valid_log_level other c.log_level ≡ true
  known_color : log_color_enabled other c ≡ (normalize_log_color other c.log_color == "always")

module _ (other : Char → Char) where
  int_eq-pos : (a b : ℤ) → int_eq a b ≡ false → a ≢ b
  int_eq-pos (pos a) (pos b) h e = ground arith
  int_eq-pos (pos a) (negsuc b) h e = cc
  int_eq-pos (negsuc a) (pos b) h e = cc
  int_eq-pos (negsuc a) (negsuc b) h e = ground arith

  checked-same : (c d : Config) → checked other c ≡ ok d → c ≡ d
  unfolding checked
  checked-same c d h = ground arith

  checked-ports :
      (c d : Config) → checked other c ≡ ok d → int_eq c.node_port c.internal_rest_port ≡ false
  unfolding checked
  checked-ports c d h = ground arith

  checked-secret :
      (c d : Config) → checked other c ≡ ok d → c.require_secret_key ≡ true → c.secret_key ≢ ""
  unfolding checked
  checked-secret c d h r e = ground (arith, eq_iff c.secret_key "")

  checked-mode :
      (c d : Config)
      → checked other c ≡ ok d
      → (tls_client_auth_mode other c ≡ "mtls")
        ⊎ (tls_client_auth_mode other c ≡ "optional")
        ⊎ (tls_client_auth_mode other c ≡ "none")
  unfolding checked valid_node_tls_client_auth tls_client_auth_mode
  checked-mode c d h =
      let mode = normalize_node_tls_client_auth other c.node_tls_client_auth in
      ground (arith, eq_iff mode "mtls", eq_iff mode "optional", eq_iff mode "none", eq_iff mode "")

  checked-level : (c d : Config) → checked other c ≡ ok d → valid_log_level other c.log_level ≡ true
  unfolding checked
  checked-level c d h = ground arith

  checked-color :
      (c d : Config)
      → checked other c ≡ ok d
      → (normalize_log_color other c.log_color ≡ "always")
        ⊎ (normalize_log_color other c.log_color ≡ "never")
  unfolding checked valid_log_color
  checked-color c d h =
      let color = normalize_log_color other c.log_color in
      ground (arith, eq_iff color "always", eq_iff color "never")

  enabled_iff_always :
      (color : String)
      → (color ≡ "always") ⊎ (color ≡ "never")
      → not (color == "never") ≡ (color == "always")
  enabled_iff_always color (inl e) = rw e refl
  enabled_iff_always color (inr e) = rw e refl

  checked-IsLoaded :
      (c d : Config)
      → IsWithin 1 65535 c.node_port
      → IsWithin 1 65535 c.internal_rest_port
      → IsWithin 0 65535 c.hysteria_listen_port
      → IsWithin 0 9223372036854775807 c.request_body_limit_bytes
      → checked other c ≡ ok d
      → IsLoaded other d
  unfolding log_color_enabled
  checked-IsLoaded c d n i y l h = rw (← checked-same c d h) (record {
    node_port_bounds = n;
    internal_port_bounds = i;
    hysteria_port_bounds = y;
    limit_bounds = l;
    ports_differ = int_eq-pos c.node_port c.internal_rest_port (checked-ports c d h);
    secret_given = checked-secret c d h;
    known_mode = checked-mode c d h;
    known_level = checked-level c d h;
    known_color = enabled_iff_always (normalize_log_color other c.log_color) (checked-color c d h);
  })

  load_variables-IsLoaded :
      (quote : String → String) (getenv : Variables) (d : Config)
      → load_variables other quote getenv ≡ ok d
      → IsLoaded other d
  unfolding load_variables
  load_variables-IsLoaded quote getenv d h =
      let (p, hp, h1) = bind-ok (env_port quote getenv "NODE_PORT" (pos 2222)) _ _ h in
      let (q, hq, h2) = bind-ok (env_port quote getenv "INTERNAL_REST_PORT" (pos 61001)) _ _ h1 in
      let (y, hy, h3) = bind-ok (env_optional_port quote getenv "HYSTERIA_LISTEN_PORT") _ _ h2 in
      let (l, hl, h4) =
        bind-ok (env_non_negative_int64 quote getenv "REQUEST_BODY_LIMIT_BYTES" (pos 1073741824)) _
          _ h3 in
      let (r, hr, h5) = bind-ok (env_bool quote getenv "REQUIRE_SECRET_KEY" false) _ _ h4 in
      let (t, ht, h6) = bind-ok (env_bool quote getenv "SNI_VERIFICATION" false) _ _ h5 in
      checked-IsLoaded (assembled other getenv p q y l r t) d
        (env_port-IsWithin quote getenv "NODE_PORT" 2222 p (omega arith) (omega arith) hp)
        (env_port-IsWithin quote getenv "INTERNAL_REST_PORT" 61001 q (omega arith) (omega arith) hq)
        (env_optional_port-IsWithin quote getenv "HYSTERIA_LISTEN_PORT" y hy)
        (env_non_negative_int64-IsWithin quote getenv "REQUEST_BODY_LIMIT_BYTES" 1073741824 l
          (omega arith) hl)
        h6

  -- Load gives a configuration that keeps to every limit: the two ports of the node are between 1
  -- and 65535 and differ, the port of hysteria is at most 65535 (0 for none), the limit of bodies is
  -- an int64 that is not negative, a secret is there if it is required, the mode of client
  -- authentication is one of the three, the level is known, and colour is on exactly for "always".
  pub load-IsLoaded :
      (quote : String → String) (getenv : Variables) (dot_env : DotEnv) (c : Config)
      → load other quote getenv dot_env ≡ ok c
      → IsLoaded other c
  unfolding load
  load-IsLoaded quote getenv (dot_env_read after) c h = load_variables-IsLoaded quote after c h
  load-IsLoaded quote getenv dot_env_missing c h = load_variables-IsLoaded quote getenv c h
  load-IsLoaded quote getenv (dot_env_error e) c h = cc
