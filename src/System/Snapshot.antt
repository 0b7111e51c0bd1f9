-- ===== src/System/Snapshot.antt =====
-- DefaultSnapshotter.SnapshotStats of internal/system/stats.go. The provider's answers, the host name
-- and the facts of the Go runtime are parameters; an answer is `none` if it is an error or nil. A
-- float64 is its text.
use rw_node_go.Common.{
  ℕ, ◌<◌, ◌≢◌, not, String, List, [], ◌∷◌, ltb, nat_eq, is_empty, ◌==◌, eq_iff, if◌then◌else◌,
  Option, none, some, arith,
}
use rw_node_go.System.Sampler.{NetworkInterface, NetworkSampler, snapshot}

pub record HostInfo : Type 0 where
  pub hostname : String
  pub platform : String
  pub kernel_version : String
  pub os : String
  pub kernel_arch : String
  pub platform_version : String

pub record VirtualMemory : Type 0 where
  pub total : ℕ
  pub available : ℕ
  pub free : ℕ
  pub used : ℕ

pub record Runtime : Type 0 where
  pub goarch : String
  pub goos : String
  pub num_cpu : ℕ
  pub go_version : String
  pub os_hostname : Option String

-- The interface systemProvider. The memory is asked for twice.
pub record Provider : Type 0 where
  pub host_info : Option HostInfo
  pub uptime : Option ℕ
  pub virtual_memory : Option VirtualMemory
  pub virtual_memory_again : Option VirtualMemory
  pub cpu_counts : Option ℕ
  pub cpu_models : Option (List String)
  pub load_avg : Option (String × String × String)
  pub net_interfaces : Option (List String)

-- contracts.NodeSystemInfo and contracts.NodeSystemStats
pub record NodeSystemInfo : Type 0 where
  pub arch : String
  pub cpus : ℕ
  pub cpu_model : String
  pub memory_total : ℕ
  pub node_hostname : String
  pub node_platform : String
  pub release : String
  pub type_name : String
  pub version : String
  pub network_interfaces : List String

pub record NodeSystemStats : Type 0 where
  pub memory_free : ℕ
  pub memory_used : ℕ
  pub system_uptime : ℕ
  pub load_averages : List String
  pub network : Option NetworkInterface

-- A text replaced by another that is not empty.
abbrev pub unless_empty : String → String → String
unless_empty new old = if not (new == "") then new else old

abbrev pub value_or {ℓ} : {A : Type ℓ} → A → Option A → A
value_or old none = old
value_or old (some new) = new

unfoldable pub with_host : Option HostInfo → NodeSystemInfo → NodeSystemInfo
with_host none info = info
with_host (some h) info = record {
  arch = unless_empty h.kernel_arch info.arch;
  cpus = info.cpus;
  cpu_model = info.cpu_model;
  memory_total = info.memory_total;
  node_hostname = unless_empty h.hostname info.node_hostname;
  node_platform = unless_empty h.platform info.node_platform;
  release = unless_empty h.kernel_version info.release;
  type_name = unless_empty h.os info.type_name;
  version = unless_empty h.platform_version info.version;
  network_interfaces = info.network_interfaces;
}

unfoldable pub first_cpu_model : List String → String
first_cpu_model [] = ""
first_cpu_model (model ∷ models) =
    let later = first_cpu_model models in if not (model == "") then model else later

abbrev pub cpus_or : ℕ → Option ℕ → ℕ
cpus_or cpus none = cpus
cpus_or cpus (some count) = if ltb 0 count then count else cpus

abbrev pub model_or : String → Option (List String) → String
model_or model none = model
model_or model (some models) = if not (is_empty models) then first_cpu_model models else model

abbrev pub total_or : ℕ → Option VirtualMemory → ℕ
total_or total none = total
total_or total (some memory) = memory.total

abbrev pub free_of : Option VirtualMemory → ℕ
free_of none = 0
free_of (some memory) = if nat_eq memory.available 0 then memory.free else memory.available

abbrev pub used_of : Option VirtualMemory → ℕ
used_of none = 0
used_of (some memory) = memory.used

abbrev pub load_of : Option (String × String × String) → List String
load_of none = "0" ∷ "0" ∷ "0" ∷ []
load_of (some (one, five, fifteen)) = one ∷ five ∷ fifteen ∷ []

abbrev pub shown_of : Option NetworkSampler → Option NetworkInterface
shown_of none = none
shown_of (some sampler) = snapshot sampler

unfoldable pub runtime_info : Runtime → NodeSystemInfo
runtime_info r = record {
  arch = r.goarch;
  cpus = r.num_cpu;
  cpu_model = "";
  memory_total = 0;
  node_hostname = value_or "" r.os_hostname;
  node_platform = r.goos;
  release = "";
  type_name = r.goos;
  version = r.go_version;
  network_interfaces = [];
}

unfoldable pub system_info : Runtime → Provider → NodeSystemInfo
unfolding runtime_info with_host first_cpu_model
system_info r p =
    let info = with_host p.host_info (runtime_info r) in
    record {
      arch = info.arch;
      cpus = cpus_or info.cpus p.cpu_counts;
      cpu_model = model_or info.cpu_model p.cpu_models;
      memory_total = total_or info.memory_total p.virtual_memory;
      node_hostname = info.node_hostname;
      node_platform = info.node_platform;
      release = info.release;
      type_name = info.type_name;
      version = info.version;
      network_interfaces = value_or info.network_interfaces p.net_interfaces;
    }

unfoldable pub system_stats : Provider → Option NetworkSampler → NodeSystemStats
system_stats p sampler = record {
  memory_free = free_of p.virtual_memory_again;
  memory_used = used_of p.virtual_memory_again;
  system_uptime = value_or 0 p.uptime;
  load_averages = load_of p.load_avg;
  network = shown_of sampler;
}

unfoldable pub snapshot_stats :
    Runtime → Provider → Option NetworkSampler → NodeSystemInfo × NodeSystemStats
unfolding system_info system_stats
snapshot_stats r p sampler = (system_info r p, system_stats p sampler)

filled_or : (new old : String) → old ≢ "" → unless_empty new old ≢ ""
filled_or new old h e = ground (arith, eq_iff new "")

host_filled :
    (h : Option HostInfo) (r : Runtime)
    → r.goarch ≢ ""
    → r.goos ≢ ""
    → r.go_version ≢ ""
    → let info = with_host h (runtime_info r) in
      (info.arch ≢ "") × (info.type_name ≢ "") × (info.node_platform ≢ "") × (info.version ≢ "")
unfolding with_host runtime_info
host_filled none r a o v = (a, o, o, v)
host_filled (some h) r a o v = (
  filled_or h.kernel_arch r.goarch a,
  filled_or h.os r.goos o,
  filled_or h.platform r.goos o,
  filled_or h.platform_version r.go_version v,
)

cpus_filled :
    (h : Option HostInfo) (r : Runtime) (count : Option ℕ)
    → 0 < r.num_cpu
    → 0 < cpus_or (with_host h (runtime_info r)).cpus count
unfolding with_host runtime_info
cpus_filled none r none n = n
cpus_filled (some h) r none n = n
cpus_filled none r (some c) n = ground arith
cpus_filled (some h) r (some c) n = ground arith

-- Whatever the provider answers, the payload names an architecture, a type, a platform and a
-- version, and has a processor at least, if the Go runtime does.
pub snapshot_stats-IsFilled :
    (r : Runtime) (p : Provider) (sampler : Option NetworkSampler)
    → r.goarch ≢ ""
    → r.goos ≢ ""
    → r.go_version ≢ ""
    → 0 < r.num_cpu
    → let info = (snapshot_stats r p sampler).0 in
      (info.arch ≢ "")
      × (info.type_name ≢ "")
      × (info.node_platform ≢ "")
      × (info.version ≢ "")
      × (0 < info.cpus)
unfolding snapshot_stats system_info with_host runtime_info
snapshot_stats-IsFilled r p sampler a o v n =
    let (fa, ft, fp, fv) = host_filled p.host_info r a o v in
    (fa, ft, fp, fv, cpus_filled p.host_info r p.cpu_counts n)
