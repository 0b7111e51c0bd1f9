-- ===== src/Http/Routes.antt =====
-- internal/httpapi/router.go: the tables of routes, and what answers a request for a path. The match
-- by gin of a method and a whole path is that of the first route with both; any other request is
-- refused with 404 as the fallback. That gin redirects a path with a slash too many is left out.
use rw_node_go.Common.{
  Bool, true, ◌&&◌, ◌≡◌, refl, String, List, [], ◌∷◌, ◌==◌, if◌then◌else◌, Option, none, some,
  arith, ℕ,
}
use rw_node_go.Http.Tokens.{Outcome, pass, refuse, gin_internal_port_guard}

-- The handlers of the controllers.
pub data Endpoint : Type 0 where
  xray_start : Endpoint
  xray_stop : Endpoint
  xray_healthcheck : Endpoint
  handler_add_user : Endpoint
  handler_add_users : Endpoint
  handler_remove_user : Endpoint
  handler_remove_users : Endpoint
  handler_drop_users_connections : Endpoint
  handler_drop_ips : Endpoint
  stats_get_system_stats : Endpoint
  stats_get_users_stats : Endpoint
  stats_get_user_online_status : Endpoint
  stats_get_user_ip_list : Endpoint
  stats_get_users_ip_list : Endpoint
  stats_get_inbound_stats : Endpoint
  stats_get_outbound_stats : Endpoint
  stats_get_all_inbounds_stats : Endpoint
  stats_get_all_outbounds_stats : Endpoint
  stats_get_combined_stats : Endpoint
  stats_get_geocheck : Endpoint
  plugin_sync : Endpoint
  plugin_collect_torrent_blocker_reports : Endpoint
  plugin_block_ips : Endpoint
  plugin_unblock_ips : Endpoint
  plugin_recreate_tables : Endpoint
  internal_get_config : Endpoint

pub record Route : Type 0 where
  pub verb : String
  pub path : String
  pub endpoint : Endpoint

abbrev post : String → Endpoint → Route
post path endpoint = record { verb = "POST"; path = path; endpoint = endpoint }

abbrev fetch : String → Endpoint → Route
fetch path endpoint = record { verb = "GET"; path = path; endpoint = endpoint }

unfoldable pub main_routes : List Route
main_routes =
    post "/node/xray/start" xray_start
    ∷ fetch "/node/xray/stop" xray_stop
    ∷ fetch "/node/xray/healthcheck" xray_healthcheck
    ∷ post "/node/handler/add-user" handler_add_user
    ∷ post "/node/handler/add-users" handler_add_users
    ∷ post "/node/handler/remove-user" handler_remove_user
    ∷ post "/node/handler/remove-users" handler_remove_users
    ∷ post "/node/handler/drop-users-connections" handler_drop_users_connections
    ∷ post "/node/handler/drop-ips" handler_drop_ips
    ∷ fetch "/node/stats/get-system-stats" stats_get_system_stats
    ∷ post "/node/stats/get-users-stats" stats_get_users_stats
    ∷ post "/node/stats/get-user-online-status" stats_get_user_online_status
    ∷ post "/node/stats/get-user-ip-list" stats_get_user_ip_list
    ∷ fetch "/node/stats/get-users-ip-list" stats_get_users_ip_list
    ∷ post "/node/stats/get-inbound-stats" stats_get_inbound_stats
    ∷ post "/node/stats/get-outbound-stats" stats_get_outbound_stats
    ∷ post "/node/stats/get-all-inbounds-stats" stats_get_all_inbounds_stats
    ∷ post "/node/stats/get-all-outbounds-stats" stats_get_all_outbounds_stats
    ∷ post "/node/stats/get-combined-stats" stats_get_combined_stats
    ∷ post "/node/stats/get-geocheck" stats_get_geocheck
    ∷ post "/node/plugin/sync" plugin_sync
    ∷ post "/node/plugin/torrent-blocker/collect" plugin_collect_torrent_blocker_reports
    ∷ post "/node/plugin/nftables/block-ips" plugin_block_ips
    ∷ post "/node/plugin/nftables/unblock-ips" plugin_unblock_ips
    ∷ post "/node/plugin/nftables/recreate-tables" plugin_recreate_tables
    ∷ []

unfoldable pub internal_routes : List Route
internal_routes = fetch "/internal/get-config" internal_get_config ∷ []

unfoldable pub find_route : String → String → List Route → Outcome Endpoint
find_route verb path [] = refuse 404
find_route verb path (route ∷ routes) =
    let later = find_route verb path routes in
    if route.verb == verb && route.path == path then pass route.endpoint else later

abbrev pub guarded {ℓ} : {A : Type ℓ} → Outcome (Unit {0}) → Outcome A → Outcome A
guarded (refuse status) outcome = refuse status
guarded (pass unit) outcome = outcome

-- NewRouter and NewInternalRouter, after the body limit.
unfoldable pub route_main : String → String → Outcome Endpoint
unfolding main_routes find_route
route_main verb path = find_route verb path main_routes

unfoldable pub route_internal : ℕ → Option (ℕ × Bool) → String → String → Outcome Endpoint
unfolding internal_routes find_route gin_internal_port_guard
route_internal port address verb path =
    guarded (gin_internal_port_guard port address) (find_route verb path internal_routes)

guarded-pass {ℓ} :
    {A : Type ℓ} (guard : Outcome (Unit {0})) (outcome : Outcome A) (a : A)
    → guarded guard outcome ≡ pass a
    → guard ≡ pass tt
guarded-pass (refuse status) outcome a h = cc
guarded-pass (pass unit) outcome a h = refl

local_address :
    (port : ℕ) (address : Option (ℕ × Bool))
    → gin_internal_port_guard port address ≡ pass tt
    → address ≡ some (port, true)
unfolding gin_internal_port_guard
local_address port none h = cc
local_address port (some (p, loopback)) h = ground arith

-- A request that reaches an internal handler came over a loopback address to the internal port.
pub route_internal_local :
    (port : ℕ) (address : Option (ℕ × Bool)) (verb path : String) (endpoint : Endpoint)
    → route_internal port address verb path ≡ pass endpoint
    → address ≡ some (port, true)
unfolding route_internal
route_internal_local port address verb path endpoint h = local_address port address (
    guarded-pass (gin_internal_port_guard port address) (find_route verb path internal_routes)
      endpoint h)
