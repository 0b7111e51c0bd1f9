-- ===== src/Controller/Lifecycle/Synced.antt =====
-- The state and the core agree on whether Xray runs.
use rw_node_go.Common.{
  ◌≡◌, ◌∙◌, sym, refl, true, false, Option, none, some, Result, ok, err, String, ap, Bool-cases,
  inl, inr,
}
use rw_node_go.Json.{Fields}
use rw_node_go.State.Hashes.{Hashes}
use rw_node_go.State.Runtime.{
  RuntimeState, set_xray_running, set_xray_internal_status_cached, set_xray_started,
}
use rw_node_go.State.Restart.{RestartDecision, restart_decision}
use rw_node_go.State.Inbounds.Kept.{set_inbound_protocols_from_config_lem}
use rw_node_go.Xray.Config.{ConfigBuilder, build}
use rw_node_go.Xray.Core.{Core, IsCore}
use rw_node_go.Controller.Node.{Node}
use rw_node_go.Controller.Lifecycle.{
  StartXrayRequest, XrayNode, version_of, fail_start, finish_start, start_marshaled, start_built,
  launch, keep_or_launch, start_decided, start_request, start, stop, try_begin_start, end_start,
}

-- XrayRunning and XrayInternalStatusCached are what the core says.
pub record IsSynced (core : Core) (n : Node core) : Type 0 where
  pub running : n.state.xray_running ≡ core.is_running n.world
  pub cached : n.state.xray_internal_status_cached ≡ core.is_running n.world

module _ (core : Core) where
  fail_start-IsSynced : (e : String) (n : Node core) → IsSynced core (fail_start core e n).1
  unfolding fail_start set_xray_running set_xray_internal_status_cached
  fail_start-IsSynced e n = elim (Bool-cases (core.is_running n.world)) [
    | inl r ↦ record { running = simp r refl; cached = simp r refl }
    | inr r ↦ record { running = simp r refl; cached = simp r refl }
  ]

  started-IsSynced :
      (hashes : Hashes) (config : Fields) (n : Node core)
      → core.is_running n.world ≡ true
      → IsSynced core (finish_start core none hashes config n).1
  unfolding finish_start set_xray_started
  started-IsSynced hashes config n r =
      let s = set_xray_started (version_of (core.version n.world)) config hashes n.state in
      let kept = set_inbound_protocols_from_config_lem config s in
      record {
        running = ap (λ (t : RuntimeState). t.xray_running) kept ∙ sym r;
        cached = ap (λ (t : RuntimeState). t.xray_internal_status_cached) kept ∙ sym r;
      }

  -- Stop leaves the state and the core agreeing that Xray does not run, also where the core
  -- answers an error.
  pub stop-IsSynced : (n : XrayNode core) → IsCore core → IsSynced core (stop core n).node
  unfolding stop set_xray_running
  stop-IsSynced n h = record {
    running = sym (h.stop_stops n.node.world);
    cached = sym (h.stop_stops n.node.world);
  }

  finish_start-IsSynced :
      (e : Option String) (hashes : Hashes) (config : Fields) (n : Node core)
      → (e ≡ none → core.is_running n.world ≡ true)
      → IsSynced core (finish_start core e hashes config n).1
  unfolding finish_start
  finish_start-IsSynced none hashes config n r = started-IsSynced hashes config n (r refl)
  finish_start-IsSynced (some e) hashes config n r = fail_start-IsSynced e n

  start_marshaled-IsSynced :
      (bytes : Result String) (hashes : Hashes) (config : Fields) (n : Node core)
      → IsCore core
      → IsSynced core (start_marshaled core bytes hashes config n).1
  unfolding start_marshaled
  start_marshaled-IsSynced (err e) hashes config n h = fail_start-IsSynced e n
  start_marshaled-IsSynced (ok bytes) hashes config n h =
      finish_start-IsSynced (core.start bytes n.world).0 hashes config
        (record { state = n.state; world = (core.start bytes n.world).1 })
        (h.start_runs bytes n.world)

  module _ (marshal : Fields → Result String) (prepare_geodata : Fields → core.World → core.World)
      (builder : ConfigBuilder) where
    start_built-IsSynced :
        (c : Result Fields) (hashes : Hashes) (n : Node core)
        → IsCore core
        → IsSynced core (start_built core marshal prepare_geodata builder c hashes n).1
    unfolding start_built
    start_built-IsSynced (err e) hashes n h = fail_start-IsSynced e n
    start_built-IsSynced (ok config) hashes n h =
        start_marshaled-IsSynced (marshal config) hashes config
          (record { state = n.state; world = prepare_geodata config n.world }) h

    keep_or_launch-IsSynced :
        (e : Option String) (r : StartXrayRequest) (n : Node core)
        → IsCore core
        → (e ≡ none → core.is_running n.world ≡ true)
        → IsSynced core n
        → IsSynced core (keep_or_launch core marshal prepare_geodata builder e r n).1
    unfolding keep_or_launch set_xray_internal_status_cached launch
    keep_or_launch-IsSynced none r n h k s = record { running = s.running; cached = sym (k refl) }
    keep_or_launch-IsSynced (some e) r n h k s =
        start_built-IsSynced (build builder r.xray_config) r.hashes
          (record { state = set_xray_internal_status_cached false n.state; world = n.world }) h

    start_decided-IsSynced :
        (d : RestartDecision) (r : StartXrayRequest) (n : Node core)
        → IsCore core
        → IsSynced core n
        → IsSynced core (start_decided core marshal prepare_geodata builder d r n).1
    unfolding start_decided launch
    start_decided-IsSynced d r n h s = elim (Bool-cases d.should_restart) [
      | inl e ↦ simp e (start_built-IsSynced (build builder r.xray_config) r.hashes n h)
      | inr e ↦
          simp e (keep_or_launch-IsSynced (core.health n.world) r n h (h.healthy_runs n.world) s)
    ]

    start_request-IsSynced :
        (r : Result StartXrayRequest) (n : Node core)
        → IsCore core
        → IsSynced core n
        → IsSynced core (start_request core marshal prepare_geodata builder r n).1
    unfolding start_request
    start_request-IsSynced (err e) n h s = s
    start_request-IsSynced (ok r) n h s =
        start_decided-IsSynced
          (restart_decision r.force_restart r.hashes (core.is_running n.world) n.state) r n h s

    -- Where the state and the core agree on whether Xray runs, they do after Start, on each of its
    -- paths, for any core that keeps to its interface.
    pub start-IsSynced :
        (r : Result StartXrayRequest) (n : XrayNode core)
        → IsCore core
        → IsSynced core n.node
        → IsSynced core (start core marshal prepare_geodata builder r n).1.node
    unfolding start try_begin_start end_start
    start-IsSynced r n h s = elim (Bool-cases n.start_processing) [
      | inl e ↦ simp e s
      | inr e ↦ simp e (start_request-IsSynced r n.node h s)
    ]
