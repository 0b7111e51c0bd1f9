-- ===== src/Xray/Stats.antt =====
-- The traffic queries of internal/xray/core.go over the counters of xray-core's stats manager.
-- A counter's int64 value is a number below 2 ^ 64, its bit pattern, so sums wrap as Go's do.
pub mod Reset
pub mod Kinds
pub mod Totals
use Prim.Native.Nat.{◌%◌, ◌^◌}
use rw_node_go.Common.{
  ℕ, ◌+◌, Bool, true, false, ◌&&◌, Option, none, some, String, List, [], ◌∷◌, Dict, lookup, insert,
  sort, text_le, nat_eq, if◌then◌else◌,
}
use rw_node_go.Xray.StatNames.{
  stats_inbound_uplink, stats_inbound_downlink, stats_outbound_uplink, stats_outbound_downlink,
  Direction, uplink, downlink, parse_traffic_stat_name,
}

abbrev pub int64_mod : ℕ
int64_mod = 18446744073709551616

abbrev pub add64 : ℕ → ℕ → ℕ
add64 a b = (a + b) % int64_mod

-- The counters that the manager visits, with their names.
abbrev pub Counters : Type 0
Counters = Dict ℕ

-- UserTrafficStats, InboundTrafficStats and OutboundTrafficStats: a name and its two totals.
pub record Traffic : Type 0 where
  pub name : String
  pub downlink : ℕ
  pub uplink : ℕ

abbrev pub no_traffic : String → Traffic
no_traffic name = record { name = name; downlink = 0; uplink = 0 }

unfoldable pub apply_direction : Direction → ℕ → Traffic → Traffic
apply_direction uplink value t = record t { uplink = add64 t.uplink value }
apply_direction downlink value t = record t { downlink = add64 t.downlink value }

abbrev pub or_new : String → Option Traffic → Traffic
or_new name none = no_traffic name
or_new name (some t) = t

-- What the visitor does with one counter: the totals by name, and the counter's new value.
unfoldable pub visit : Bool → Option (String × Direction) → ℕ → Dict Traffic → Dict Traffic × ℕ
unfolding apply_direction
visit reset none value totals = (totals, value)
visit reset (some (name, direction)) value totals = (
  insert name (apply_direction direction value (or_new name (lookup name totals))) totals,
  if reset then 0 else value,
)

-- VisitCounters with that visitor, which never stops early.
unfoldable pub visit_counters : String → Bool → Counters → Dict Traffic → Dict Traffic × Counters
unfolding visit
visit_counters prefix reset [] totals = (totals, [])
visit_counters prefix reset ((name, value) ∷ counters) totals =
    let (totals', value') = visit reset (parse_traffic_stat_name name prefix) value totals in
    let (final, counters') = visit_counters prefix reset counters totals' in
    (final, (name, value') ∷ counters')

abbrev pub traffic_le : Traffic → Traffic → Bool
traffic_le a b = text_le a.name b.name

unfoldable pub values : Dict Traffic → List Traffic
values [] = []
values ((k, t) ∷ m) = t ∷ values m

-- The loop of UsersStats leaves out who has no traffic.
unfoldable pub with_traffic : Dict Traffic → List Traffic
with_traffic [] = []
with_traffic ((k, t) ∷ m) =
    let rest = with_traffic m in if nat_eq t.uplink 0 && nat_eq t.downlink 0 then rest else t ∷ rest

unfoldable pub users_stats : Bool → Counters → List Traffic × Counters
unfolding visit_counters with_traffic
users_stats reset counters =
    let (totals, counters') = visit_counters "user" reset counters [] in
    (sort traffic_le (with_traffic totals), counters')

unfoldable pub all_inbound_stats : Bool → Counters → List Traffic × Counters
unfolding visit_counters values
all_inbound_stats reset counters =
    let (totals, counters') = visit_counters "inbound" reset counters [] in
    (sort traffic_le (values totals), counters')

unfoldable pub all_outbound_stats : Bool → Counters → List Traffic × Counters
unfolding visit_counters values
all_outbound_stats reset counters =
    let (totals, counters') = visit_counters "outbound" reset counters [] in
    (sort traffic_le (values totals), counters')

abbrev or_zero : Option ℕ → ℕ
or_zero none = 0
or_zero (some n) = n

abbrev reset_if : Bool → String → Option ℕ → Counters → Counters
reset_if true name (some n) counters = insert name 0 counters
reset_if _ name _ counters = counters

-- A counter that is not there reads 0 and is not created.
unfoldable pub embedded_counter_value : String → Bool → Counters → ℕ × Counters
embedded_counter_value name reset counters =
    let value = lookup name counters in (or_zero value, reset_if reset name value counters)

-- InboundStats and OutboundStats: the two counters of a tag, each read on its own.
unfoldable pub inbound_stats : String → Bool → Counters → Traffic × Counters
unfolding embedded_counter_value
inbound_stats tag reset counters =
    let (up, counters1) = embedded_counter_value (stats_inbound_uplink tag) reset counters in
    let (down, counters2) = embedded_counter_value (stats_inbound_downlink tag) reset counters1 in
    (record { name = tag; downlink = down; uplink = up }, counters2)

unfoldable pub outbound_stats : String → Bool → Counters → Traffic × Counters
unfolding embedded_counter_value
outbound_stats tag reset counters =
    let (up, counters1) = embedded_counter_value (stats_outbound_uplink tag) reset counters in
    let (down, counters2) = embedded_counter_value (stats_outbound_downlink tag) reset counters1 in
    (record { name = tag; downlink = down; uplink = up }, counters2)
