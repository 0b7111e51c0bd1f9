-- ===== src/Xray/Core/Filled.antt =====
-- `EmbeddedCore` fills the interface that the controllers use.
use rw_node_go.Common.{ℕ, true, String}
use rw_node_go.Xray.Core.{Core, IsCore}
use rw_node_go.Xray.Core.Types.{DropOutcome}
use rw_node_go.Xray.Core.Embedded
use rw_node_go.Xray.Core.Embedded.{Library, EmbeddedCore}
use rw_node_go.Xray.Core.Embedded.Clients
use rw_node_go.Xray.Core.Embedded.Lifecycle

module _ (l : Library) where
  -- The core and the time, in nanoseconds, at which the next call is made.
  pub record EmbeddedWorld : Type 0 where
    pub core : EmbeddedCore l
    pub now : ℕ

  -- What the dropper answers is the parameter.
  abbrev pub embedded : (String → DropOutcome) → Core
  embedded drop = record {
    World = EmbeddedWorld;
    is_running = λ w. Embedded.is_running l w.core;
    start =
        λ config w. let (e, c) = Embedded.start l config w.now w.core in (e, record w { core = c });
    stop = λ w. let (e, c) = Embedded.stop l w.core in (e, record w { core = c });
    health = λ w. Embedded.health l w.core;
    version = λ w. Embedded.version l w.core;
    has_handler = λ w. true;
    add_user = λ spec w. let (e, c) = Clients.add_user l spec w.core in (e, record w { core = c });
    remove_user = λ tag username w.
        let (e, c) = Clients.remove_user l tag username w.core in (e, record w { core = c });
    has_stats = λ w. true;
    user_ip_list = λ username reset w. (Clients.user_ip_list l username reset w.core, w);
    drop_ip = λ ip w. (drop ip, w);
  }

  -- The embedded core does what the controllers rely on, whatever the library answers.
  pub embedded-IsCore : (drop : String → DropOutcome) → IsCore (embedded drop)
  embedded-IsCore drop = record {
    start_runs = λ config w h. Lifecycle.start_runs l config w.now w.core h;
    stop_stops = λ w. Lifecycle.stop_stops l w.core;
    healthy_runs = λ w h. Lifecycle.healthy_runs l w.core h;
  }
