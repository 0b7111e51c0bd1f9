-- ===== src/Examples/State.antt =====
-- The theorems on the runtime state at concrete inputs.
use rw_node_go.Common.{◌≡◌, true, false, ◌↔◌}
use rw_node_go.State.Hashes.{same_hashes}
use rw_node_go.State.Hashes.Same.{SameInbounds, same_hashes_iff}
use rw_node_go.State.Restart.{restart_decision}
use rw_node_go.State.Restart.Reasons.{no_restart_iff}
use rw_node_go.Examples.Fixtures.{two_hashes, swapped_hashes, running_state}

same_hashes_iff_example : (same_hashes two_hashes swapped_hashes ≡ true) ↔ (
    (two_hashes.empty_config ≡ swapped_hashes.empty_config)
    × SameInbounds two_hashes.inbounds swapped_hashes.inbounds)
same_hashes_iff_example = same_hashes_iff two_hashes swapped_hashes

no_restart_iff_example :
    ((restart_decision false swapped_hashes true running_state).should_restart ≡ false) ↔ (
      (false ≡ false)
      × (true ≡ true)
      × (true ≡ true)
      × (two_hashes.empty_config ≡ swapped_hashes.empty_config)
      × SameInbounds two_hashes.inbounds swapped_hashes.inbounds)
no_restart_iff_example = no_restart_iff false swapped_hashes true running_state

-- Here an inbound is missing from the request, and the count tells.
