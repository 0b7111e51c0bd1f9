-- ===== src/Controller/Node.antt =====
-- What a handler works on: the runtime state, and the world behind the core's interface.
use rw_node_go.State.Runtime.{RuntimeState}
use rw_node_go.Xray.Core.{Core}

pub record Node (core : Core) : Type 0 where
  pub state : RuntimeState
  pub world : core.World
