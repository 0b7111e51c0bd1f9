-- ===== src/Examples/Lifecycle.antt =====
-- The theorems on starting and stopping at concrete inputs.
use rw_node_go.Common.{false, ◌≤◌, refl, true, ◌≡◌, ok, err}
use rw_node_go.State.Inbounds.Tracked.{IsTracked, new_runtime_state-IsTracked}
use rw_node_go.Xray.Core.Types.{dropped}
use rw_node_go.Xray.Core.Embedded
use rw_node_go.Xray.Core.Filled.{embedded-IsCore}
use rw_node_go.Controller.Lifecycle.{start, start_request}
use rw_node_go.Controller.Lifecycle.Synced.{IsSynced, start-IsSynced}
use rw_node_go.Controller.Lifecycle.Keeps.{SameButRunning, start_keeps}
use rw_node_go.Controller.Lifecycle.Again.{start_again}
use rw_node_go.State.Restart.{restart_decision}
use rw_node_go.Xray.Config.{build}
use rw_node_go.Json.{get}
use rw_node_go.Controller.Lifecycle.Tracked.{start-IsTracked}
use rw_node_go.Controller.Lifecycle.{try_begin_start, healthcheck}
use rw_node_go.Controller.Lifecycle.Raced.{raced, stop_between}
use rw_node_go.Controller.Lifecycle.Exclusive.{System, begin, turn_away, here, next, one_start}
use rw_node_go.Examples.Fixtures.{
  two_hashes, config, toy, core, stopped, running, start_two, marshal, prepare, with_port,
}

stopped-IsSynced : IsSynced core stopped.node
unfolding Embedded.is_running
stopped-IsSynced = record { running = refl; cached = refl }

start-IsSynced_example :
    IsSynced core (start core marshal prepare with_port (ok start_two) stopped).1.node
start-IsSynced_example =
    start-IsSynced core marshal prepare with_port (ok start_two) stopped
      (embedded-IsCore toy (λ ip. dropped)) stopped-IsSynced

start_keeps_example :
    SameButRunning running.node.state
      (start core marshal prepare with_port (err "invalid character") running).1.node.state
unfolding start start_request
start_keeps_example =
    start_keeps core marshal prepare with_port (err "invalid character") running refl

start-IsTracked_example :
    IsTracked (start core marshal prepare with_port (ok start_two) stopped).1.node.state
start-IsTracked_example =
    start-IsTracked core marshal prepare with_port (ok start_two) stopped
      (new_runtime_state-IsTracked "2.6.1")

start_again_example :
    let n1 = (start core marshal prepare with_port (ok start_two) stopped).1 in
    let again = start core marshal prepare with_port (ok start_two) n1 in
    (again.0.is_started ≡ true) × (again.1.node.world ≡ n1.node.world)
unfolding start restart_decision Embedded.is_running build get Embedded.start Embedded.health
start_again_example =
    start_again core marshal prepare with_port start_two stopped
      (embedded-IsCore toy (λ ip. dropped)) refl refl

-- The first start passes the guard, the second is turned away.
abbrev idle : System core
idle = record { xray = stopped; starting = 0 }

abbrev begun : System core
begun = record { xray = record stopped { start_processing = true }; starting = 1 }

one_start_example : begun.starting ≤ 1
unfolding try_begin_start
one_start_example = one_start core idle begun refl refl (
    next idle begun begun (begin idle refl)
      (next begun begun begun (turn_away begun refl) (here begun)))

stop_between_example :
    let ended = raced core "{}" two_hashes config stopped in
    (core.is_running ended.world ≡ false)
    × (ended.state.xray_running ≡ true)
    × ((healthcheck ended.state).xray_internal_status_cached ≡ true)
unfolding Embedded.start
stop_between_example =
    stop_between core "{}" two_hashes config stopped (embedded-IsCore toy (λ ip. dropped)) refl
