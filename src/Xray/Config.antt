-- ===== src/Xray/Config.antt =====
-- internal/xray/config.go: the panel's configuration, checked and instrumented.
-- `hysteria_listen_port` is a port of the environment, so it is not negative.
pub mod Tags
pub mod Policy
pub mod Ports
use rw_node_go.Common.{
  ℕ, Bool, true, false, ◌||◌, Option, none, some, String, ◌==◌, nat_eq, if◌then◌else◌, Result, ok,
  err,
}
use rw_node_go.Json.{
  Value, bool, int, arr, obj, Items, nil, cons, Fields, end, get, put, as_array, is_text, clone_map,
}

abbrev pub api_tag : String
api_tag = "REMNAWAVE_API"

abbrev pub api_inbound_tag : String
api_inbound_tag = "REMNAWAVE_API_INBOUND"

pub record ConfigBuilder : Type 0 where
  pub stats_user_online : Bool
  pub hysteria_listen_port : ℕ

unfoldable pub ensure_map : Option Value → Fields
unfolding clone_map
ensure_map (some (obj m)) = clone_map m
ensure_map _ = end

abbrev pub ensure_array : Option Value → Items
ensure_array (some (arr xs)) = xs
ensure_array _ = nil

-- The inner loop of hasTag: an item that is no map is passed over.
unfoldable pub has_tagged_item : String → Items → Bool
has_tagged_item tag nil = false
has_tagged_item tag (cons (obj item) rest) =
    is_text (get "tag" item) tag || has_tagged_item tag rest
has_tagged_item tag (cons _ rest) = has_tagged_item tag rest

unfoldable pub has_tag : Fields → String → Bool
unfolding has_tagged_item
has_tag config tag =
    has_tagged_item tag (ensure_array (get "inbounds" config))
    || has_tagged_item tag (ensure_array (get "outbounds" config))

-- The loop of applyHysteriaListenPort writes into the maps that the configuration holds.
unfoldable pub set_ports : ℕ → Items → Items
set_ports port nil = nil
set_ports port (cons (obj inbound) rest) =
    cons
      (obj (
        if is_text (get "protocol" inbound) "hysteria"
        then put "port" (int port) inbound
        else inbound))
      (set_ports port rest)
set_ports port (cons v rest) = cons v (set_ports port rest)

abbrev write_inbounds : ℕ → Option Items → Fields → Fields
write_inbounds port none config = config
write_inbounds port (some xs) config = put "inbounds" (arr (set_ports port xs)) config

unfoldable pub apply_hysteria_listen_port : Fields → ℕ → Fields
unfolding set_ports
apply_hysteria_listen_port config port =
    if nat_eq port 0 then config else write_inbounds port (as_array (get "inbounds" config)) config

unfoldable pub with_level0 : Bool → Fields → Fields
with_level0 online level0 =
    put "statsUserOnline" (bool online)
      (put "statsUserDownlink" (bool true) (put "statsUserUplink" (bool true) level0))

unfoldable pub with_system : Fields → Fields
with_system system = put "statsOutboundUplink" (bool true) (
    put "statsOutboundDownlink" (bool true)
      (put "statsInboundUplink" (bool true) (put "statsInboundDownlink" (bool true) system)))

unfoldable pub with_policy : Bool → Fields → Fields
unfolding with_level0 with_system
with_policy online policy =
    let levels = ensure_map (get "levels" policy) in
    let level0 = with_level0 online (ensure_map (get "0" levels)) in
    let leveled = put "levels" (obj (put "0" (obj level0) levels)) policy in
    put "system" (obj (with_system (ensure_map (get "system" leveled)))) leveled

-- What Build writes once the tags are found free.
unfoldable pub instrument : ConfigBuilder → Fields → Fields
unfolding with_policy apply_hysteria_listen_port
instrument b given =
    let config = apply_hysteria_listen_port given b.hysteria_listen_port in
    let counted = put "stats" (obj (ensure_map (get "stats" config))) config in
    put "policy" (obj (with_policy b.stats_user_online (ensure_map (get "policy" counted)))) counted

unfoldable pub build : ConfigBuilder → Fields → Result Fields
unfolding has_tag instrument clone_map
build b panel_config =
    let config = clone_map panel_config in
    if has_tag config api_tag
    then err "xray config tag \"REMNAWAVE_API\" conflicts with Remnawave API tag"
    else if has_tag config api_inbound_tag
    then err "xray config tag \"REMNAWAVE_API_INBOUND\" conflicts with Remnawave API inbound tag"
    else ok (instrument b config)
