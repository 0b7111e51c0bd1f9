-- ===== src/Controller/Lifecycle.antt =====
-- internal/controller/xray_controller.go: starting and stopping Xray, and the health check.
-- json.MarshalIndent and PrepareGeodata, which writes asset files for the core to read, are
-- parameters. A request is what ShouldBindJSON gives. HashesFromContract copies its argument field
-- by field, so the two types are one here. The system statistics of an answer and the log are left
-- out.
pub mod Logged
pub mod Synced
pub mod Keeps
pub mod Again
pub mod Tracked
pub mod Exclusive
pub mod Raced
use rw_node_go.Common.{
  Bool, true, false, not, Option, none, some, String, Result, ok, err, ◌==◌, if◌then◌else◌,
}
use rw_node_go.Json.{Fields}
use rw_node_go.State.Hashes.{Hashes}
use rw_node_go.State.Runtime.{
  RuntimeState, set_xray_running, set_xray_internal_status_cached, set_xray_started,
}
use rw_node_go.State.Restart.{RestartDecision, restart_decision}
use rw_node_go.State.Inbounds.{set_inbound_protocols_from_config}
use rw_node_go.Xray.Config.{ConfigBuilder, build}
use rw_node_go.Xray.Core.{Core}
use rw_node_go.Controller.Node.{Node}

pub record StartXrayRequest : Type 0 where
  pub force_restart : Bool
  pub hashes : Hashes
  pub xray_config : Fields

pub record StartXrayResponse : Type 0 where
  pub is_started : Bool
  pub version : Option String
  pub error : Option String
  pub node_version : String

pub record HealthcheckResponse : Type 0 where
  pub is_alive : Bool
  pub xray_internal_status_cached : Bool
  pub xray_version : Option String
  pub node_version : String

-- An answer with the versions that the state holds.
abbrev pub start_answer : Bool → Option String → RuntimeState → StartXrayResponse
start_answer started e s = record {
  is_started = started;
  version = s.xray_version;
  error = e;
  node_version = s.node_version;
}

unfoldable pub healthcheck : RuntimeState → HealthcheckResponse
healthcheck s = record {
  is_alive = true;
  xray_internal_status_cached = s.xray_internal_status_cached;
  xray_version = s.xray_version;
  node_version = s.node_version;
}

-- A version that the core does not tell, or that is empty, is nil.
abbrev pub version_of : Result String → Option String
version_of (ok v) = if v == "" then none else some v
version_of (err e) = none

module _ (core : Core) where
  open core use {World, is_running}

  -- `start_processing` tells that a start is under way.
  pub record XrayNode : Type 0 where
    pub node : Node core
    pub start_processing : Bool

  unfoldable pub sync_start_failure_state : Node core → Node core
  sync_start_failure_state n =
      if is_running n.world
      then record {
        state = set_xray_internal_status_cached true (set_xray_running true n.state);
        world = n.world;
      }
      else record { state = set_xray_running false n.state; world = n.world }

  -- What each failing path of Start ends with.
  unfoldable pub fail_start : String → Node core → StartXrayResponse × Node core
  unfolding sync_start_failure_state
  fail_start e n =
      let failed = sync_start_failure_state n in (start_answer false (some e) failed.state, failed)

  -- What follows the call of the core's Start.
  unfoldable pub finish_start :
      Option String → Hashes → Fields → Node core → StartXrayResponse × Node core
  unfolding fail_start
  finish_start (some e) hashes config n = fail_start e n
  finish_start none hashes config n =
      let s =
        set_inbound_protocols_from_config config
          (set_xray_started (version_of (core.version n.world)) config hashes n.state) in
      (start_answer true none s, record { state = s; world = n.world })

  unfoldable pub start_marshaled :
      Result String → Hashes → Fields → Node core → StartXrayResponse × Node core
  unfolding finish_start
  start_marshaled (err e) hashes config n = fail_start e n
  start_marshaled (ok bytes) hashes config n =
      let (e, w) = core.start bytes n.world in
      finish_start e hashes config (record { state = n.state; world = w })

  -- Stop forgets that Xray runs, whatever the core answers.
  unfoldable pub stop : XrayNode → XrayNode
  stop n = record n {
    node = record {
      state = set_xray_running false n.node.state;
      world = (core.stop n.node.world).1;
    };
  }

  unfoldable pub try_begin_start : XrayNode → Bool × XrayNode
  try_begin_start n =
      if n.start_processing then (false, n) else (true, record n { start_processing = true })

  unfoldable pub end_start : XrayNode → XrayNode
  end_start n = record n { start_processing = false }

  module _ (marshal : Fields → Result String) (prepare_geodata : Fields → World → World)
      (builder : ConfigBuilder) where
    unfoldable pub start_built : Result Fields → Hashes → Node core → StartXrayResponse × Node core
    unfolding start_marshaled
    start_built (err e) hashes n = fail_start e n
    start_built (ok config) hashes n =
        start_marshaled (marshal config) hashes config
          (record { state = n.state; world = prepare_geodata config n.world })

    unfoldable pub launch : StartXrayRequest → Node core → StartXrayResponse × Node core
    unfolding start_built
    launch r n = start_built (build builder r.xray_config) r.hashes n

    -- When no restart is due, what the health check says decides.
    unfoldable pub keep_or_launch :
        Option String → StartXrayRequest → Node core → StartXrayResponse × Node core
    unfolding launch
    keep_or_launch none r n =
        let s = set_xray_internal_status_cached true n.state in
        (start_answer true none s, record { state = s; world = n.world })
    keep_or_launch (some e) r n =
        launch r (record { state = set_xray_internal_status_cached false n.state; world = n.world })

    unfoldable pub start_decided :
        RestartDecision → StartXrayRequest → Node core → StartXrayResponse × Node core
    unfolding keep_or_launch
    start_decided decision r n =
        if not decision.should_restart then keep_or_launch (core.health n.world) r n else launch r n

    unfoldable pub start_request :
        Result StartXrayRequest → Node core → StartXrayResponse × Node core
    unfolding start_decided
    start_request (err e) n = (start_answer false (some e) n.state, n)
    start_request (ok r) n =
        start_decided (restart_decision r.force_restart r.hashes (is_running n.world) n.state) r n

    -- Start, from the guard to the deferred endStart.
    unfoldable pub start : Result StartXrayRequest → XrayNode → StartXrayResponse × XrayNode
    unfolding start_request try_begin_start end_start
    start request n =
        let (begun, n1) = try_begin_start n in
        if not begun
        then (start_answer false (some "Request already in progress") n.node.state, n)
        else (let (answer, node) = start_request request n1.node in
            (answer, end_start (record n1 { node = node })))
