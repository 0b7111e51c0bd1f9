-- ===== src/Examples/Core.antt =====
-- The theorems on the embedded core at concrete inputs.
use rw_node_go.Common.{arith, [], ◌∷◌}
use rw_node_go.Xray.Core.{IsCore}
use rw_node_go.Xray.Core.Types.{dropped}
use rw_node_go.Xray.Core.Embedded
use rw_node_go.Xray.Core.Embedded.{created, EmbeddedCore, new_embedded_core}
use rw_node_go.Xray.Core.Embedded.Lifecycle.{
  IsAccounted, created_count, closed_count, start-IsAccounted,
}
use rw_node_go.Xray.Core.Filled.{embedded-IsCore}
use rw_node_go.Examples.Fixtures.{toy, running_core, core}

-- The core that runs, with the creation of its instance on record.
abbrev created_core : EmbeddedCore toy
created_core = record running_core { events = created 0 ∷ [] }

created_core-IsAccounted : IsAccounted toy created_core
unfolding created_count closed_count
created_core-IsAccounted = record { made = λ k. ground arith; balance = λ k. ground arith }

start-IsAccounted_example : IsAccounted toy (Embedded.start toy "{}" 12 created_core).1
unfolding created_count closed_count
start-IsAccounted_example = start-IsAccounted toy "{}" 12 created_core created_core-IsAccounted

embedded-IsCore_example : IsCore core
embedded-IsCore_example = embedded-IsCore toy (λ ip. dropped)
