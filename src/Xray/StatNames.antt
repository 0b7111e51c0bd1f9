-- ===== src/Xray/StatNames.antt =====
-- internal/xray/stats.go: the names of the traffic counters and online maps of xray-core.
mod Split
pub mod RoundTrip
use Prim.Native.String.{◌++◌}
use rw_node_go.Common.{
  ℕ, zero, suc, Bool, true, false, ◌&&◌, ◌||◌, not, Option, none, some, String, List, [], ◌∷◌, ◌==◌,
  if◌then◌else◌,
}
unfoldable pub use Split.{split}

-- fmt.Sprintf with the format constants, `%s` being the name.
abbrev pub traffic_name : String → String → String → String
traffic_name kind name direction =
    kind ++ (">>>" ++ (name ++ (">>>" ++ ("traffic" ++ (">>>" ++ direction)))))

abbrev pub stats_user_uplink : String → String
stats_user_uplink name = traffic_name "user" name "uplink"

abbrev pub stats_user_downlink : String → String
stats_user_downlink name = traffic_name "user" name "downlink"

abbrev pub stats_user_online : String → String
stats_user_online name = "user" ++ (">>>" ++ (name ++ (">>>" ++ "online")))

abbrev pub stats_inbound_uplink : String → String
stats_inbound_uplink tag = traffic_name "inbound" tag "uplink"

abbrev pub stats_inbound_downlink : String → String
stats_inbound_downlink tag = traffic_name "inbound" tag "downlink"

abbrev pub stats_outbound_uplink : String → String
stats_outbound_uplink tag = traffic_name "outbound" tag "uplink"

abbrev pub stats_outbound_downlink : String → String
stats_outbound_downlink tag = traffic_name "outbound" tag "downlink"

pub data Direction : Type 0 where
  uplink downlink : Direction

-- The tests on the parts of a traffic name. The direction is one of two texts.
unfoldable pub traffic_parts : List String → String → Option (String × Direction)
traffic_parts (p0 ∷ p1 ∷ p2 ∷ p3 ∷ []) prefix =
    if not (p0 == prefix) || not (p2 == "traffic")
    then none
    else if p1 == "" || (not (p3 == "uplink") && not (p3 == "downlink"))
    then none
    else some (p1, if p3 == "uplink" then Direction.uplink else Direction.downlink)
traffic_parts _ prefix = none

unfoldable pub parse_traffic_stat_name : String → String → Option (String × Direction)
unfolding traffic_parts split
parse_traffic_stat_name name prefix = traffic_parts (split name) prefix

unfoldable pub online_parts : List String → Option String
online_parts (p0 ∷ p1 ∷ p2 ∷ []) =
    if not (p0 == "user") || p1 == "" || not (p2 == "online") then none else some p1
online_parts _ = none

unfoldable pub parse_online_stat_name : String → Option String
unfolding online_parts split
parse_online_stat_name name = online_parts (split name)
