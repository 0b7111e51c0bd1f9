-- ===== src/Controller/Lifecycle/Raced.antt =====
-- A Stop of internal/controller/xray_controller.go that runs while a Start is between its call of
-- the core and its writes: the guard startProcessing holds off other starts, not a stop.
use rw_node_go.Common.{◌≡◌, ap, true, false, none, some, Option, String}
use rw_node_go.Json.{Fields}
use rw_node_go.State.Hashes.{Hashes}
use rw_node_go.State.Runtime.{RuntimeState, set_xray_started, set_xray_running}
use rw_node_go.State.Inbounds.Kept.{set_inbound_protocols_from_config_lem}
use rw_node_go.Xray.Core.{Core, IsCore}
use rw_node_go.Controller.Node.{Node}
use rw_node_go.Controller.Lifecycle.{XrayNode, version_of, stop, finish_start, healthcheck}

module _ (core : Core) where
  -- What the core answers to Start, then the whole of Stop, then the rest of Start.
  abbrev pub resumed : Option String → core.World → Hashes → Fields → XrayNode core → Node core
  resumed e w hashes config n =
      let stopped = stop core (record n { node = record { state = n.node.state; world = w } }) in
      (finish_start core e hashes config stopped.node).1

  abbrev pub raced : String → Hashes → Fields → XrayNode core → Node core
  raced bytes hashes config n =
      let (e, w) = core.start bytes n.node.world in resumed e w hashes config n

  resumed_lem :
      (e : Option String) (w : core.World) (hashes : Hashes) (config : Fields) (n : XrayNode core)
      → IsCore core
      → e ≡ none
      → (core.is_running (resumed e w hashes config n).world ≡ false)
        × ((resumed e w hashes config n).state.xray_running ≡ true)
        × ((healthcheck (resumed e w hashes config n).state).xray_internal_status_cached ≡ true)
  unfolding stop finish_start set_xray_started healthcheck
  resumed_lem none w hashes config n laws h =
      let world = (core.stop w).1 in
      let running =
        set_xray_started (version_of (core.version world)) config hashes
          (set_xray_running false n.node.state) in
      let kept = set_inbound_protocols_from_config_lem config running in
      (
        laws.stop_stops w,
        ap (λ (t : RuntimeState). t.xray_running) kept,
        ap (λ (t : RuntimeState). t.xray_internal_status_cached) kept,
      )
  resumed_lem (some e) w hashes config n laws h = cc

  -- If the core starts without an error and a Stop runs before Start writes the state, the node ends
  -- with a core that does not run, a state that says it runs, and a health check that reports it.
  pub stop_between :
      (bytes : String) (hashes : Hashes) (config : Fields) (n : XrayNode core)
      → IsCore core
      → (core.start bytes n.node.world).0 ≡ none
      → (core.is_running (raced bytes hashes config n).world ≡ false)
        × ((raced bytes hashes config n).state.xray_running ≡ true)
        × ((healthcheck (raced bytes hashes config n).state).xray_internal_status_cached ≡ true)
  stop_between bytes hashes config n laws started =
      let (e, w) = core.start bytes n.node.world in resumed_lem e w hashes config n laws started
