-- ===== src/State/Inbounds/Kept.antt =====
-- What the operations on inbounds leave alone.
use rw_node_go.Common.{◌≡◌, refl, String, [], ◌∷◌, Dict, add, insert}
use rw_node_go.Json.{Fields}
use rw_node_go.State.Runtime.{RuntimeState}
use rw_node_go.State.Inbounds.{
  set_protocols, inbound_protocols_from_config, set_inbound_protocols_from_config,
}

set_protocols_lem :
    (m : Dict String) (s : RuntimeState)
    → set_protocols m s ≡ record s {
      known_inbound_tag = (set_protocols m s).known_inbound_tag;
      inbound_protocols = (set_protocols m s).inbound_protocols;
    }
unfolding set_protocols
set_protocols_lem [] s = refl
set_protocols_lem ((tag, protocol) ∷ m) s = set_protocols_lem m (record s {
  known_inbound_tag = add tag s.known_inbound_tag;
  inbound_protocols = insert tag protocol s.inbound_protocols;
})

-- Only the known tags and the protocols change.
pub set_inbound_protocols_from_config_lem :
    (config : Fields) (s : RuntimeState)
    → set_inbound_protocols_from_config config s ≡ record s {
      known_inbound_tag = (set_inbound_protocols_from_config config s).known_inbound_tag;
      inbound_protocols = (set_inbound_protocols_from_config config s).inbound_protocols;
    }
unfolding set_inbound_protocols_from_config
set_inbound_protocols_from_config_lem config s =
    set_protocols_lem (inbound_protocols_from_config config) s
