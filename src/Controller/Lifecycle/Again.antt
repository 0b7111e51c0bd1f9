-- ===== src/Controller/Lifecycle/Again.antt =====
-- A start that repeats the one before.
use rw_node_go.Common.{
  ◌≡◌, refl, true, false, Option, none, some, Result, ok, err, String, ap, Bool-cases, inl, inr,
}
use rw_node_go.Json.{Fields}
use rw_node_go.State.Hashes.{Hashes}
use rw_node_go.State.Runtime.{RuntimeState, set_xray_internal_status_cached, set_xray_started}
use rw_node_go.State.Restart.{restart_decision}
use rw_node_go.State.Restart.Reasons.{no_restart_iff}
use rw_node_go.State.Hashes.Same.{SameInbounds}
use rw_node_go.State.Inbounds.Kept.{set_inbound_protocols_from_config_lem}
use rw_node_go.Xray.Config.{ConfigBuilder, build}
use rw_node_go.Xray.Core.{Core, IsCore}
use rw_node_go.Controller.Node.{Node}
use rw_node_go.Controller.Lifecycle.{
  StartXrayRequest, XrayNode, version_of, fail_start, finish_start, start_marshaled, start_built,
  launch, keep_or_launch, start_decided, start_request, start, try_begin_start, end_start,
}

-- The remembered hashes are the given ones, as far as the restart check tells them apart.
abbrev pub Remembers : Hashes → RuntimeState → Type 0
Remembers hashes s =
    (s.has_last_hashes ≡ true)
    × (s.last_hashes.empty_config ≡ hashes.empty_config)
    × SameInbounds s.last_hashes.inbounds hashes.inbounds

module _ (core : Core) where
  finish_start-Remembers :
      (e : Option String) (hashes : Hashes) (config : Fields) (n : Node core)
      → (finish_start core e hashes config n).0.is_started ≡ true
      → Remembers hashes (finish_start core e hashes config n).1.state
  unfolding finish_start fail_start set_xray_started
  finish_start-Remembers (some e) hashes config n h = cc
  finish_start-Remembers none hashes config n h =
      let kept =
        set_inbound_protocols_from_config_lem config
          (set_xray_started (version_of (core.version n.world)) config hashes n.state) in
      (
        ap (λ (t : RuntimeState). t.has_last_hashes) kept,
        ap (λ (t : RuntimeState). t.last_hashes.empty_config) kept,
        rw (ap (λ (t : RuntimeState). t.last_hashes) kept) (λ x. refl),
      )

  start_marshaled-Remembers :
      (bytes : Result String) (hashes : Hashes) (config : Fields) (n : Node core)
      → (start_marshaled core bytes hashes config n).0.is_started ≡ true
      → Remembers hashes (start_marshaled core bytes hashes config n).1.state
  unfolding start_marshaled fail_start
  start_marshaled-Remembers (err e) hashes config n h = cc
  start_marshaled-Remembers (ok bytes) hashes config n h =
      finish_start-Remembers (core.start bytes n.world).0 hashes config
        (record { state = n.state; world = (core.start bytes n.world).1 }) h

  module _ (marshal : Fields → Result String) (prepare_geodata : Fields → core.World → core.World)
      (builder : ConfigBuilder) where
    start_built-Remembers :
        (c : Result Fields) (hashes : Hashes) (n : Node core)
        → (start_built core marshal prepare_geodata builder c hashes n).0.is_started ≡ true
        → Remembers hashes (start_built core marshal prepare_geodata builder c hashes n).1.state
    unfolding start_built fail_start
    start_built-Remembers (err e) hashes n h = cc
    start_built-Remembers (ok config) hashes n h =
        start_marshaled-Remembers (marshal config) hashes config
          (record { state = n.state; world = prepare_geodata config n.world }) h

    keep_or_launch-Remembers :
        (e : Option String) (r : StartXrayRequest) (n : Node core)
        → Remembers r.hashes n.state
        → (keep_or_launch core marshal prepare_geodata builder e r n).0.is_started ≡ true
        → Remembers r.hashes (keep_or_launch core marshal prepare_geodata builder e r n).1.state
    unfolding keep_or_launch set_xray_internal_status_cached launch
    keep_or_launch-Remembers none r n m h = m
    keep_or_launch-Remembers (some e) r n m h =
        start_built-Remembers (build builder r.xray_config) r.hashes
          (record { state = set_xray_internal_status_cached false n.state; world = n.world }) h

    start_request-Remembers :
        (r : StartXrayRequest) (n : Node core)
        → (start_request core marshal prepare_geodata builder (ok r) n).0.is_started ≡ true
        → Remembers r.hashes (start_request core marshal prepare_geodata builder (ok r) n).1.state
    unfolding start_request start_decided launch
    start_request-Remembers r n =
        let d = restart_decision r.force_restart r.hashes (core.is_running n.world) n.state in
        elim (Bool-cases d.should_restart) [
          | inl e ↦ simp e (start_built-Remembers (build builder r.xray_config) r.hashes n)
          | inr e ↦ simp e (
              let (_, _, known, base, same) =
                (no_restart_iff r.force_restart r.hashes (core.is_running n.world) n.state).0 e in
              keep_or_launch-Remembers (core.health n.world) r n (known, base, same))
        ]

    -- A request that repeats remembered hashes, unforced, on a healthy core.
    repeat_keeps :
        (r : StartXrayRequest) (n : Node core)
        → Remembers r.hashes n.state
        → core.is_running n.world ≡ true
        → core.health n.world ≡ none
        → ((start_request core marshal prepare_geodata builder
              (ok (record r { force_restart = false }))
              n).0.is_started
            ≡ true)
          × ((start_request core marshal prepare_geodata builder
                (ok (record r { force_restart = false }))
                n).1.world
              ≡ n.world)
    unfolding start_request start_decided keep_or_launch
    repeat_keeps r n m c h =
        simp (c, (no_restart_iff false r.hashes true n.state).1 (refl, refl, m.0, m.1, m.2), h)
          (refl, refl)

    -- For a core that keeps to its interface, after a start that is answered as started, and that
    -- leaves the core healthy, the same request, not forced, is again answered as started and
    -- leaves the core alone.
    pub start_again :
        (r : StartXrayRequest) (n : XrayNode core)
        → IsCore core
        → (start core marshal prepare_geodata builder (ok r) n).0.is_started ≡ true
        → core.health (start core marshal prepare_geodata builder (ok r) n).1.node.world ≡ none
        → let n1 = (start core marshal prepare_geodata builder (ok r) n).1 in
          let again =
            start core marshal prepare_geodata builder
              (ok (record r { force_restart = false }))
              n1 in
          (again.0.is_started ≡ true) × (again.1.node.world ≡ n1.node.world)
    unfolding start try_begin_start end_start
    start_again r n c = elim (Bool-cases n.start_processing) [
      | inl e ↦ simp e (λ h. cc)
      | inr e ↦ simp e (λ h o.
          repeat_keeps r (start_request core marshal prepare_geodata builder (ok r) n.node).1
            (start_request-Remembers r n.node h)
            (c.healthy_runs
              (start_request core marshal prepare_geodata builder (ok r) n.node).1.world o)
            o)
    ]
