-- ===== src/Examples/Stats.antt =====
-- The theorems on the statistics at concrete inputs.
use rw_node_go.Common.{◌≡◌, refl, false, some, [], ◌∷◌, lookup}
use rw_node_go.Xray.StatNames.{uplink, parse_traffic_stat_name}
use rw_node_go.Xray.StatNames.RoundTrip.{is_plain, direction_text, parse-traffic_name}
use rw_node_go.Xray.Stats.{Counters, visit_counters}
use rw_node_go.Xray.Stats.Totals.{total_of, counted, visit_counters-counted}

abbrev counters : Counters
counters =
    ("user>>>alice>>>traffic>>>uplink", 70)
    ∷ ("inbound>>>vless-in>>>traffic>>>downlink", 5)
    ∷ ("user>>>alice>>>traffic>>>downlink", 9)
    ∷ []

parse-traffic_name_example :
    parse_traffic_stat_name "user>>>alice>>>traffic>>>uplink" "user" ≡ some ("alice", uplink)
unfolding is_plain direction_text
parse-traffic_name_example = parse-traffic_name "user" "user" "alice" uplink refl refl (λ e. cc)

visit_counters-counted_example :
    total_of uplink (lookup "alice" (visit_counters "user" false counters []).0) ≡ 70
unfolding counted parse_traffic_stat_name
visit_counters-counted_example = visit_counters-counted "user" false counters "alice" uplink
