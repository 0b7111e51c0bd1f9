-- ===== src/Xray/Core/Stats.antt =====
-- The `StatsClient` interface of internal/xray/core.go over the world of a core. A query with
-- `reset` may change the world, and so may any other.
use rw_node_go.Common.{ℕ, Bool, String, List, Result}
use rw_node_go.Xray.Core.{Core}
use rw_node_go.Xray.Core.Types.{IpLastSeen}
use rw_node_go.Xray.Stats.{Traffic}

-- The sizes and counts of the Go runtime, and the uptime in seconds.
pub record SysStats : Type 0 where
  pub num_goroutine : ℕ
  pub num_gc : ℕ
  pub alloc : ℕ
  pub total_alloc : ℕ
  pub sys : ℕ
  pub mallocs : ℕ
  pub frees : ℕ
  pub live_objects : ℕ
  pub pause_total_ns : ℕ
  pub uptime : ℕ

pub record UserIpList : Type 0 where
  pub username : String
  pub ips : List IpLastSeen

pub record StatsClient (core : Core) : Type 0 where
  pub sys_stats : core.World → Result SysStats × core.World
  pub users_stats : Bool → core.World → Result (List Traffic) × core.World
  pub user_online_status : String → core.World → Result Bool × core.World
  pub user_ip_list : String → Bool → core.World → Result (List IpLastSeen) × core.World
  pub users_ip_list : Bool → core.World → Result (List UserIpList) × core.World
  pub inbound_stats : String → Bool → core.World → Result Traffic × core.World
  pub outbound_stats : String → Bool → core.World → Result Traffic × core.World
  pub all_inbound_stats : Bool → core.World → Result (List Traffic) × core.World
  pub all_outbound_stats : Bool → core.World → Result (List Traffic) × core.World
