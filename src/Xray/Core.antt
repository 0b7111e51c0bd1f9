-- ===== src/Xray/Core.antt =====
-- The `Core`, `HandlerClient` and `StatsClient` interfaces of internal/xray/core.go, as the
-- controllers see them, and the connection dropper of internal/system/conntrack.go. A call may
-- change the world behind the interface. Contexts only bound the time of a call: a call that runs
-- out of time is one that returns an error.
pub mod Types
pub mod Embedded
pub mod Filled
pub mod Stats
use rw_node_go.Common.{◌≡◌, true, false, ℕ, Bool, Option, none, some, String, List, Result}
use rw_node_go.Json.{Fields}
use rw_node_go.Xray.Core.Types.{IpLastSeen, DropOutcome}
use rw_node_go.Xray.Users.{UserSpec}

-- An error is its text. A nil core is one that is not running; `has_handler` and `has_stats` are
-- the tests of the clients against nil.
pub record Core : Type 1 where
  pub World : Type 0
  pub is_running : World → Bool
  pub start : String → World → Option String × World
  pub stop : World → Option String × World
  pub health : World → Option String
  pub version : World → Result String
  pub has_handler : World → Bool
  pub add_user : UserSpec → World → Option String × World
  pub remove_user : String → String → World → Option String × World
  pub has_stats : World → Bool
  pub user_ip_list : String → Bool → World → Result (List IpLastSeen) × World
  pub drop_ip : String → World → DropOutcome × World

-- What the controllers rely on.
pub record IsCore (c : Core) : Type 0 where
  pub start_runs :
      (config : String) (w : c.World)
      → (c.start config w).0 ≡ none
      → c.is_running (c.start config w).1 ≡ true
  pub stop_stops : (w : c.World) → c.is_running (c.stop w).1 ≡ false
  pub healthy_runs : (w : c.World) → c.health w ≡ none → c.is_running w ≡ true
