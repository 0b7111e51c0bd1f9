-- ===== src/Xray/Core/Embedded/Queries.antt =====
-- `embeddedStatsClient` of internal/xray/core.go: the queries of the embedded core's statistics,
-- and the interface they fill. The counters live in the instance; what the manager and the Go
-- runtime answer is the parameter.
use Prim.Native.Nat.{◌%◌}
use rw_node_go.Common.{
  ℕ, ◌+◌, ◌-◌, Bool, Option, none, some, String, List, [], ◌∷◌, Result, ok, err, ltb, is_empty, has,
  sort, text_le, if◌then◌else◌,
}
use rw_node_go.Xray.StatNames.{parse_online_stat_name, stats_user_online}
use rw_node_go.Xray.Stats
use rw_node_go.Xray.Stats.{Counters, Traffic, int64_mod}
use rw_node_go.Xray.Core.Types.{DropOutcome}
use rw_node_go.Xray.Core.Stats.{SysStats, UserIpList, StatsClient}
use rw_node_go.Xray.Core.Embedded
use rw_node_go.Xray.Core.Embedded.{Library, EmbeddedCore}
use rw_node_go.Xray.Core.Embedded.Clients.{user_ip_list, online_ips}
use rw_node_go.Xray.Core.Filled.{EmbeddedWorld, embedded}

-- runtime.MemStats, as far as it is read, and runtime.NumGoroutine.
pub record MemStats : Type 0 where
  pub num_goroutine : ℕ
  pub num_gc : ℕ
  pub alloc : ℕ
  pub total_alloc : ℕ
  pub sys : ℕ
  pub mallocs : ℕ
  pub frees : ℕ
  pub pause_total_ns : ℕ

pub record StatsLibrary (l : Library) : Type 0 where
  pub counters : l.Instance → Counters
  pub put_counters : Counters → l.Instance → l.Instance
  pub online_count : String → l.Instance → ℕ
  pub all_online_users : l.Instance → List String
  pub mem_stats : MemStats

-- uint32 and uint64 wrap.
unfoldable pub sys_stats_of : MemStats → ℕ → SysStats
sys_stats_of m uptime = record {
  num_goroutine = m.num_goroutine % 4294967296;
  num_gc = m.num_gc;
  alloc = m.alloc;
  total_alloc = m.total_alloc;
  sys = m.sys;
  mallocs = m.mallocs;
  frees = m.frees;
  live_objects = (m.mallocs + int64_mod - m.frees) % int64_mod;
  pause_total_ns = m.pause_total_ns;
  uptime = uptime;
}

abbrev pub username_le : UserIpList → UserIpList → Bool
username_le a b = text_le a.username b.username

module _ (l : Library) (s : StatsLibrary l) where
  open l use {Instance, has_stats_manager, online_map}

  -- The loop of onlineUsersIPList, with the names that were seen. A user without addresses is left
  -- out, but counts as seen.
  unfoldable pub online_users : List String → List String → Instance → List UserIpList
  online_users [] seen i = []
  online_users (raw ∷ raws) seen i = elim (parse_online_stat_name raw) [
    | none ↦ online_users raws seen i
    | some username ↦
        let ips = online_ips l (online_map raw i) in
        if has username seen
        then online_users raws seen i
        else if is_empty ips
        then online_users raws (username ∷ seen) i
        else record { username = username; ips = ips } ∷ online_users raws (username ∷ seen) i
  ]

  unfoldable pub online_users_ip_list : Instance → List UserIpList
  unfolding online_users
  online_users_ip_list i = sort username_le (online_users (s.all_online_users i) [] i)

  -- A query of the manager: its error, or what it reads from the instance.
  abbrev pub managed_query : {A : Type 0} → (Instance → A) → Option String → Instance → Result A
  managed_query read (some e) i = err e
  managed_query read none i = ok (read i)

  abbrev pub queried : {A : Type 0} → (Instance → A) → Option Instance → Result A
  queried read none = err "xray is not running"
  queried read (some i) = managed_query read (has_stats_manager i) i

  -- A query of the counters, which may set some to zero.
  abbrev pub counter_query :
      {A : Type 0}
      → (Counters → A × Counters)
      → Option String
      → Instance
      → EmbeddedCore l
      → Result A × EmbeddedCore l
  counter_query query (some e) i c = (err e, c)
  counter_query query none i c =
      let (a, counters) = query (s.counters i) in
      (ok a, record c { instance_of = some (s.put_counters counters i) })

  abbrev pub counted_query :
      {A : Type 0}
      → (Counters → A × Counters)
      → Option Instance
      → EmbeddedCore l
      → Result A × EmbeddedCore l
  counted_query query none c = (err "xray is not running", c)
  counted_query query (some i) c = counter_query query (has_stats_manager i) i c

  unfoldable pub user_online_status : String → EmbeddedCore l → Result Bool
  user_online_status username c =
      queried (λ i. ltb 0 (s.online_count (stats_user_online username) i)) c.instance_of

  unfoldable pub users_ip_list : Bool → EmbeddedCore l → Result (List UserIpList)
  unfolding online_users_ip_list
  users_ip_list reset c = queried online_users_ip_list c.instance_of

  -- A query of the core as one of the world.
  abbrev pub in_world :
      {A : Type 0}
      → (EmbeddedCore l → Result A × EmbeddedCore l)
      → EmbeddedWorld l
      → Result A × EmbeddedWorld l
  in_world query w = let (r, c) = query w.core in (r, record w { core = c })

  abbrev pub embedded_stats : (drop : String → DropOutcome) → StatsClient (embedded l drop)
  embedded_stats drop = record {
    sys_stats = λ w. (ok (sys_stats_of s.mem_stats (Embedded.uptime l w.now w.core)), w);
    users_stats = λ reset. in_world (λ c. counted_query (Stats.users_stats reset) c.instance_of c);
    user_online_status = λ u w. (user_online_status u w.core, w);
    user_ip_list = λ u reset w. (user_ip_list l u reset w.core, w);
    users_ip_list = λ reset w. (users_ip_list reset w.core, w);
    inbound_stats =
        λ tag reset. in_world (λ c. counted_query (Stats.inbound_stats tag reset) c.instance_of c);
    outbound_stats =
        λ tag reset. in_world (λ c. counted_query (Stats.outbound_stats tag reset) c.instance_of c);
    all_inbound_stats =
        λ reset. in_world (λ c. counted_query (Stats.all_inbound_stats reset) c.instance_of c);
    all_outbound_stats =
        λ reset. in_world (λ c. counted_query (Stats.all_outbound_stats reset) c.instance_of c);
  }
