-- ===== src/Controller/Stats.antt =====
-- internal/controller/stats_controller.go: the statistics that the panel reads. A request is what
-- ShouldBindJSON gives. `format_time` is the RFC 3339 text of a Unix time, and `host` the statistics
-- of the machine. The traffic records of contracts/stats.go have the fields of those of the client.
pub mod Answers
pub mod Reset
use rw_node_go.Common.{
  ℕ, Bool, true, false, ◌&&◌, Option, none, some, String, List, [], ◌∷◌, map, Result, ok, err,
  nat_eq, sort, text_le, if◌then◌else◌,
}
use rw_node_go.Geocheck.Runner.{Request as GeocheckRequest, ExecRunner, Machine, run}
use rw_node_go.Xray.Core.{Core}
use rw_node_go.Xray.Core.Types.{IpLastSeen}
use rw_node_go.Xray.Core.Stats.{SysStats, UserIpList, StatsClient}
use rw_node_go.Xray.Stats.{Traffic}
use rw_node_go.Controller.Handler.{stats_client}

-- An envelope with a response, or the official error with its message and code.
pub data Answer (A : Type 0) : Type 0 where
  answered : A → Answer A
  refused : String → String → Answer A

pub record TaggedStatsRequest : Type 0 where
  pub tag : String
  pub reset : Bool

pub record SystemStatsResponse (Host : Type 0) : Type 0 where
  pub xray_info : SysStats
  pub reports_count : ℕ
  pub system : Host

pub record IpSeen : Type 0 where
  pub ip : String
  pub last_seen : String

pub record UserIps : Type 0 where
  pub user_id : String
  pub ips : List IpSeen

pub record CombinedStatsResponse : Type 0 where
  pub inbounds : List Traffic
  pub outbounds : List Traffic

-- A user without traffic is left out.
unfoldable pub contract_user_traffic_stats : List Traffic → List Traffic
contract_user_traffic_stats [] = []
contract_user_traffic_stats (user ∷ users) =
    let rest = contract_user_traffic_stats users in
    if nat_eq user.uplink 0 && nat_eq user.downlink 0 then rest else user ∷ rest

abbrev pub user_le : UserIps → UserIps → Bool
user_le a b = text_le a.user_id b.user_id

module _ (format_time : ℕ → String) where
  unfoldable pub contract_ip_last_seen_list : List IpLastSeen → List IpSeen
  contract_ip_last_seen_list = map (λ i. record { ip = i.ip; last_seen = format_time i.last_seen })

  abbrev pub contract_user_ips : UserIpList → UserIps
  contract_user_ips u = record { user_id = u.username; ips = contract_ip_last_seen_list u.ips }

  unfoldable pub contract_users_ip_list : List UserIpList → List UserIps
  unfolding contract_ip_last_seen_list
  contract_users_ip_list users = sort user_le (map contract_user_ips users)

-- What a query of the client becomes: the view of what it found, or the official error.
abbrev pub official : {A B : Type 0} → String → String → (A → B) → Result A → Answer B
official message code view (err e) = refused message code
official message code view (ok a) = answered (view a)

-- What a query becomes where a failure is answered like an empty result.
abbrev pub or_empty : {A B : Type 0} → B → (A → B) → Result A → B
or_empty empty view (err e) = empty
or_empty empty view (ok a) = view a

abbrev pub geocheck_answer : Result String → Answer String
geocheck_answer (err e) = refused e "A018"
geocheck_answer (ok report) = answered report

module _ (core : Core) (stats : StatsClient core) where
  open core use {World}

  -- The part of a handler that follows its request: without a client it answers `failed`, else what
  -- becomes of the query.
  abbrev pub asked :
      {A B : Type 0}
      → Option String
      → B
      → (Result A → B)
      → (World → Result A × World)
      → World
      → B × World
  asked (some e) failed becomes query w = (failed, w)
  asked none failed becomes query w = let (r, w') = query w in (becomes r, w')

  unfoldable pub get_system_stats :
      {Host : Type 0} → Host → World → Answer (SystemStatsResponse Host) × World
  get_system_stats host w =
      asked (stats_client core w) (refused "Failed to get system stats" "A010")
        (official "Failed to get system stats" "A010"
          (λ s. record { xray_info = s; reports_count = 0; system = host }))
        stats.sys_stats w

  unfoldable pub get_users_stats : Result Bool → World → Answer (List Traffic) × World
  unfolding contract_user_traffic_stats
  get_users_stats (err e) w = (refused "Failed to get users stats" "A011", w)
  get_users_stats (ok reset) w =
      asked (stats_client core w) (refused "Failed to get users stats" "A011")
        (official "Failed to get users stats" "A011" contract_user_traffic_stats)
        (stats.users_stats reset) w

  unfoldable pub get_user_online_status : Result String → World → Bool × World
  get_user_online_status (err e) w = (false, w)
  get_user_online_status (ok username) w =
      asked (stats_client core w) false (or_empty false (λ b. b))
        (stats.user_online_status username) w

  unfoldable pub get_user_ip_list : (ℕ → String) → Result String → World → List IpSeen × World
  unfolding contract_ip_last_seen_list
  get_user_ip_list format_time (err e) w = ([], w)
  get_user_ip_list format_time (ok user_id) w =
      asked (stats_client core w) [] (or_empty [] (contract_ip_last_seen_list format_time))
        (stats.user_ip_list user_id true) w

  unfoldable pub get_users_ip_list : (ℕ → String) → World → List UserIps × World
  unfolding contract_users_ip_list
  get_users_ip_list format_time w =
      asked (stats_client core w) [] (or_empty [] (contract_users_ip_list format_time))
        (stats.users_ip_list true) w

  unfoldable pub get_inbound_stats : Result TaggedStatsRequest → World → Answer Traffic × World
  get_inbound_stats (err e) w = (refused "Failed to get inbound stats" "A012", w)
  get_inbound_stats (ok r) w =
      asked (stats_client core w) (refused "Failed to get inbound stats" "A012")
        (official "Failed to get inbound stats" "A012" (λ t. t)) (stats.inbound_stats r.tag r.reset)
        w

  unfoldable pub get_outbound_stats : Result TaggedStatsRequest → World → Answer Traffic × World
  get_outbound_stats (err e) w = (refused "Failed to get outbound stats" "A013", w)
  get_outbound_stats (ok r) w =
      asked (stats_client core w) (refused "Failed to get outbound stats" "A013")
        (official "Failed to get outbound stats" "A013" (λ t. t))
        (stats.outbound_stats r.tag r.reset) w

  unfoldable pub get_all_inbounds_stats : Result Bool → World → Answer (List Traffic) × World
  get_all_inbounds_stats (err e) w = (refused "Failed to get inbounds stats" "A015", w)
  get_all_inbounds_stats (ok reset) w =
      asked (stats_client core w) (refused "Failed to get inbounds stats" "A015")
        (official "Failed to get inbounds stats" "A015" (λ t. t)) (stats.all_inbound_stats reset) w

  unfoldable pub get_all_outbounds_stats : Result Bool → World → Answer (List Traffic) × World
  get_all_outbounds_stats (err e) w = (refused "Failed to get outbounds stats" "A016", w)
  get_all_outbounds_stats (ok reset) w =
      asked (stats_client core w) (refused "Failed to get outbounds stats" "A016")
        (official "Failed to get outbounds stats" "A016" (λ t. t)) (stats.all_outbound_stats reset)
        w

  -- Both queries are made, and then both errors are looked at.
  abbrev pub combined : Result (List Traffic) → Result (List Traffic) → Answer CombinedStatsResponse
  combined (ok inbounds) (ok outbounds) =
      answered (record { inbounds = inbounds; outbounds = outbounds })
  combined _ _ = refused "Failed to get combined stats" "A017"

  abbrev pub combined_with : Option String → Bool → World → Answer CombinedStatsResponse × World
  combined_with (some e) reset w = (refused "Failed to get combined stats" "A017", w)
  combined_with none reset w =
      let (inbounds, w1) = stats.all_inbound_stats reset w in
      let (outbounds, w2) = stats.all_outbound_stats reset w1 in (combined inbounds outbounds, w2)

  unfoldable pub get_combined_stats : Result Bool → World → Answer CombinedStatsResponse × World
  get_combined_stats (err e) w = (refused "Failed to get combined stats" "A017", w)
  get_combined_stats (ok reset) w = combined_with (stats_client core w) reset w

-- The runner is missing, or what it answers.
unfoldable pub get_geocheck :
    Machine → Option ExecRunner → Result GeocheckRequest → Answer String × Option ExecRunner
get_geocheck m runner (err e) = (refused "Failed to get geocheck report" "A018", runner)
get_geocheck m none (ok request) = (refused "Failed to get geocheck report" "A018", none)
get_geocheck m (some runner) (ok request) =
    let (report, runner') = run m request runner in (geocheck_answer report, some runner')
