-- ===== src/Controller/Lifecycle/Keeps.antt =====
-- What a start that fails keeps, and what a start that succeeds leaves for the next one.
use rw_node_go.Common.{
  ◌≡◌, refl, false, Option, none, some, Result, ok, err, String, Bool-cases, inl, inr,
}
use rw_node_go.Json.{Fields}
use rw_node_go.State.Hashes.{Hashes}
use rw_node_go.State.Runtime.{RuntimeState, set_xray_running, set_xray_internal_status_cached}
use rw_node_go.State.Restart.{RestartDecision, restart_decision}
use rw_node_go.Xray.Config.{ConfigBuilder, build}
use rw_node_go.Xray.Core.{Core}
use rw_node_go.Controller.Node.{Node}
use rw_node_go.Controller.Lifecycle.{
  StartXrayRequest, XrayNode, fail_start, finish_start, start_marshaled, start_built, launch,
  keep_or_launch, start_decided, start_request, start, try_begin_start, end_start,
}

-- The state, but for whether Xray runs, is as before.
abbrev pub SameButRunning : RuntimeState → RuntimeState → Type 0
SameButRunning s t = t ≡ record s {
  xray_running = t.xray_running;
  xray_internal_status_cached = t.xray_internal_status_cached;
}

module _ (core : Core) where
  pub fail_start_keeps :
      (e : String) (n : Node core) → SameButRunning n.state (fail_start core e n).1.state
  unfolding fail_start set_xray_running set_xray_internal_status_cached
  fail_start_keeps e n = elim (Bool-cases (core.is_running n.world)) [
    | inl r ↦ simp r refl
    | inr r ↦ simp r refl
  ]

  finish_start_keeps :
      (e : Option String) (hashes : Hashes) (config : Fields) (n : Node core)
      → (finish_start core e hashes config n).0.is_started ≡ false
      → SameButRunning n.state (finish_start core e hashes config n).1.state
  unfolding finish_start
  finish_start_keeps none hashes config n h = cc
  finish_start_keeps (some e) hashes config n h = fail_start_keeps e n

  start_marshaled_keeps :
      (bytes : Result String) (hashes : Hashes) (config : Fields) (n : Node core)
      → (start_marshaled core bytes hashes config n).0.is_started ≡ false
      → SameButRunning n.state (start_marshaled core bytes hashes config n).1.state
  unfolding start_marshaled
  start_marshaled_keeps (err e) hashes config n h = fail_start_keeps e n
  start_marshaled_keeps (ok bytes) hashes config n h =
      finish_start_keeps (core.start bytes n.world).0 hashes config
        (record { state = n.state; world = (core.start bytes n.world).1 }) h

  module _ (marshal : Fields → Result String) (prepare_geodata : Fields → core.World → core.World)
      (builder : ConfigBuilder) where
    start_built_keeps :
        (c : Result Fields) (hashes : Hashes) (n : Node core)
        → (start_built core marshal prepare_geodata builder c hashes n).0.is_started ≡ false
        → SameButRunning n.state
            (start_built core marshal prepare_geodata builder c hashes n).1.state
    unfolding start_built
    start_built_keeps (err e) hashes n h = fail_start_keeps e n
    start_built_keeps (ok config) hashes n h =
        start_marshaled_keeps (marshal config) hashes config
          (record { state = n.state; world = prepare_geodata config n.world }) h

    keep_or_launch_keeps :
        (e : Option String) (r : StartXrayRequest) (n : Node core)
        → (keep_or_launch core marshal prepare_geodata builder e r n).0.is_started ≡ false
        → SameButRunning n.state (keep_or_launch core marshal prepare_geodata builder e r n).1.state
    unfolding keep_or_launch set_xray_internal_status_cached launch
    keep_or_launch_keeps none r n h = cc
    keep_or_launch_keeps (some e) r n h =
        start_built_keeps (build builder r.xray_config) r.hashes
          (record { state = set_xray_internal_status_cached false n.state; world = n.world }) h

    start_decided_keeps :
        (d : RestartDecision) (r : StartXrayRequest) (n : Node core)
        → (start_decided core marshal prepare_geodata builder d r n).0.is_started ≡ false
        → SameButRunning n.state (start_decided core marshal prepare_geodata builder d r n).1.state
    unfolding start_decided launch
    start_decided_keeps d r n = elim (Bool-cases d.should_restart) [
      | inl e ↦ simp e (start_built_keeps (build builder r.xray_config) r.hashes n)
      | inr e ↦ simp e (keep_or_launch_keeps (core.health n.world) r n)
    ]

    start_request_keeps :
        (r : Result StartXrayRequest) (n : Node core)
        → (start_request core marshal prepare_geodata builder r n).0.is_started ≡ false
        → SameButRunning n.state (start_request core marshal prepare_geodata builder r n).1.state
    unfolding start_request
    start_request_keeps (err e) n h = refl
    start_request_keeps (ok r) n h =
        start_decided_keeps
          (restart_decision r.force_restart r.hashes (core.is_running n.world) n.state) r n h

    -- A start that is not answered as started keeps the state but for the two flags that tell
    -- whether Xray runs: the configuration, the hashes, the version and the users stay as they were.
    pub start_keeps :
        (r : Result StartXrayRequest) (n : XrayNode core)
        → (start core marshal prepare_geodata builder r n).0.is_started ≡ false
        → SameButRunning n.node.state (start core marshal prepare_geodata builder r n).1.node.state
    unfolding start try_begin_start end_start
    start_keeps r n = elim (Bool-cases n.start_processing) [
      | inl e ↦ simp e (λ h. refl)
      | inr e ↦ simp e (start_request_keeps r n.node)
    ]
