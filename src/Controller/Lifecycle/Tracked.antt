-- ===== src/Controller/Lifecycle/Tracked.antt =====
-- The bookkeeping of inbounds through a start.
use rw_node_go.Common.{
  true, false, Option, none, some, String, Result, ok, err, Bool-cases, inl, inr, refl,
}
use rw_node_go.Json.{Fields}
use rw_node_go.State.Hashes.{Hashes}
use rw_node_go.State.Runtime.{RuntimeState, set_xray_internal_status_cached, set_xray_started}
use rw_node_go.State.Restart.{restart_decision}
use rw_node_go.State.Inbounds.Tracked.{
  IsTracked, set_xray_started-IsTracked, set_inbound_protocols_from_config-IsTracked,
}
use rw_node_go.Xray.Config.{ConfigBuilder, build}
use rw_node_go.Xray.Core.{Core}
use rw_node_go.Controller.Node.{Node}
use rw_node_go.Controller.Lifecycle.{
  StartXrayRequest, XrayNode, version_of, fail_start, finish_start, start_marshaled, start_built,
  launch, keep_or_launch, start_decided, start_request, start, try_begin_start, end_start,
}
use rw_node_go.Controller.Lifecycle.Keeps.{SameButRunning, fail_start_keeps}

IsTracked-SameButRunning : (s t : RuntimeState) → SameButRunning s t → IsTracked s → IsTracked t
IsTracked-SameButRunning s t e h = rw e (record {
  users_known = h.users_known;
  protocols_known = h.protocols_known;
  tags_named = h.tags_named;
})

module _ (core : Core) where
  fail_start-IsTracked :
      (e : String) (n : Node core) → IsTracked n.state → IsTracked (fail_start core e n).1.state
  fail_start-IsTracked e n =
      IsTracked-SameButRunning n.state (fail_start core e n).1.state (fail_start_keeps core e n)

  finish_start-IsTracked :
      (e : Option String) (hashes : Hashes) (config : Fields) (n : Node core)
      → IsTracked n.state
      → IsTracked (finish_start core e hashes config n).1.state
  unfolding finish_start
  finish_start-IsTracked (some e) hashes config n h = fail_start-IsTracked e n h
  finish_start-IsTracked none hashes config n h =
      let version = version_of (core.version n.world) in
      set_inbound_protocols_from_config-IsTracked config
        (set_xray_started version config hashes n.state)
        (set_xray_started-IsTracked version config hashes n.state)

  start_marshaled-IsTracked :
      (bytes : Result String) (hashes : Hashes) (config : Fields) (n : Node core)
      → IsTracked n.state
      → IsTracked (start_marshaled core bytes hashes config n).1.state
  unfolding start_marshaled
  start_marshaled-IsTracked (err e) hashes config n h = fail_start-IsTracked e n h
  start_marshaled-IsTracked (ok bytes) hashes config n h =
      finish_start-IsTracked (core.start bytes n.world).0 hashes config
        (record { state = n.state; world = (core.start bytes n.world).1 }) h

  module _ (marshal : Fields → Result String) (prepare_geodata : Fields → core.World → core.World)
      (builder : ConfigBuilder) where
    start_built-IsTracked :
        (c : Result Fields) (hashes : Hashes) (n : Node core)
        → IsTracked n.state
        → IsTracked (start_built core marshal prepare_geodata builder c hashes n).1.state
    unfolding start_built
    start_built-IsTracked (err e) hashes n h = fail_start-IsTracked e n h
    start_built-IsTracked (ok config) hashes n h =
        start_marshaled-IsTracked (marshal config) hashes config
          (record { state = n.state; world = prepare_geodata config n.world }) h

    keep_or_launch-IsTracked :
        (e : Option String) (r : StartXrayRequest) (n : Node core)
        → IsTracked n.state
        → IsTracked (keep_or_launch core marshal prepare_geodata builder e r n).1.state
    unfolding keep_or_launch set_xray_internal_status_cached launch
    keep_or_launch-IsTracked none r n h =
        IsTracked-SameButRunning n.state (set_xray_internal_status_cached true n.state) refl h
    keep_or_launch-IsTracked (some e) r n h =
        let s = set_xray_internal_status_cached false n.state in
        start_built-IsTracked (build builder r.xray_config) r.hashes
          (record { state = s; world = n.world }) (IsTracked-SameButRunning n.state s refl h)

    start_request-IsTracked :
        (r : Result StartXrayRequest) (n : Node core)
        → IsTracked n.state
        → IsTracked (start_request core marshal prepare_geodata builder r n).1.state
    unfolding start_request start_decided launch
    start_request-IsTracked (err e) n h = h
    start_request-IsTracked (ok r) n h =
        let d = restart_decision r.force_restart r.hashes (core.is_running n.world) n.state in
        elim (Bool-cases d.should_restart) [
          | inl e ↦ simp e (start_built-IsTracked (build builder r.xray_config) r.hashes n h)
          | inr e ↦ simp e (keep_or_launch-IsTracked (core.health n.world) r n h)
        ]

    -- Start keeps the bookkeeping of inbounds consistent on each of its paths: if before it only
    -- known inbounds have users or a protocol, and no inbound is known under the empty tag, so it is
    -- afterwards.
    pub start-IsTracked :
        (r : Result StartXrayRequest) (n : XrayNode core)
        → IsTracked n.node.state
        → IsTracked (start core marshal prepare_geodata builder r n).1.node.state
    unfolding start try_begin_start end_start
    start-IsTracked r n h = elim (Bool-cases n.start_processing) [
      | inl e ↦ simp e h
      | inr e ↦ simp e (start_request-IsTracked r n.node h)
    ]
