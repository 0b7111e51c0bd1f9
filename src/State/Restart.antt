-- ===== src/State/Restart.antt =====
-- `RestartDecision` of internal/state/runtime.go.
pub mod Reasons
use rw_node_go.Common.{
  int_eq, ◌≡◌, Bool, true, false, ◌&&◌, ◌||◌, not, Option, none, some, String, List, [], ◌∷◌,
  length, nat_eq, ◌==◌, if◌then◌else◌,
}
use rw_node_go.State.Hashes.{InboundHash, Hashes, same_hashes}
use rw_node_go.State.Runtime.{RuntimeState}

pub data RestartReason : Type 0 where
  force_restart core_not_running no_previous_hashes empty_config_hash_changed inbound_count_changed
        inbound_removed inbound_hash_changed up_to_date :
      RestartReason

pub record RestartDecision : Type 0 where
  pub should_restart : Bool
  pub reason : RestartReason
  pub inbound_tag : String
  pub previous_hash : String
  pub incoming_hash : String

abbrev pub restart : RestartReason → String → String → String → RestartDecision
restart reason tag previous incoming = record {
  should_restart = true;
  reason = reason;
  inbound_tag = tag;
  previous_hash = previous;
  incoming_hash = incoming;
}

abbrev pub no_restart : RestartDecision
no_restart = record {
  should_restart = false;
  reason = RestartReason.up_to_date;
  inbound_tag = "";
  previous_hash = "";
  incoming_hash = "";
}

-- incomingByTag[tag] after the loop that fills it: the last inbound with the tag.
unfoldable pub by_tag : String → List InboundHash → Option InboundHash
by_tag tag [] = none
by_tag tag (x ∷ xs) =
    let later = by_tag tag xs in
    elim later [ some y ↦ some y | none ↦ if x.tag == tag then some x else none ]

-- One round of the loop over the previous inbounds, for what the map holds at its tag.
unfoldable pub compare_inbound : InboundHash → Option InboundHash → Option RestartDecision
compare_inbound previous none =
    some (restart RestartReason.inbound_removed previous.tag previous.hash "")
compare_inbound previous (some incoming) =
    if not (previous.hash == incoming.hash)
      || not (int_eq previous.users_count incoming.users_count)
    then some (restart RestartReason.inbound_hash_changed previous.tag previous.hash incoming.hash)
    else none

abbrev pub or_else : Option RestartDecision → RestartDecision → RestartDecision
or_else (some d) later = d
or_else none later = later

-- A change found in a round returns at once; the last return is that of a loop without one.
unfoldable pub first_change : List InboundHash → List InboundHash → RestartDecision
unfolding compare_inbound by_tag
first_change [] incoming = restart RestartReason.inbound_hash_changed "" "" ""
first_change (previous ∷ rest) incoming =
    or_else (compare_inbound previous (by_tag previous.tag incoming)) (first_change rest incoming)

unfoldable pub restart_decision : Bool → Hashes → Bool → RuntimeState → RestartDecision
unfolding first_change
restart_decision force hashes core_running s =
    if force || not core_running
    then (if force
        then restart RestartReason.force_restart "" "" ""
        else restart RestartReason.core_not_running "" "" "")
    else if not s.has_last_hashes
    then restart RestartReason.no_previous_hashes "" "" ""
    else if same_hashes s.last_hashes hashes
    then no_restart
    else if not (s.last_hashes.empty_config == hashes.empty_config)
    then restart RestartReason.empty_config_hash_changed "" s.last_hashes.empty_config
        hashes.empty_config
    else if not (nat_eq (length s.last_hashes.inbounds) (length hashes.inbounds))
    then restart RestartReason.inbound_count_changed "" "" ""
    else first_change s.last_hashes.inbounds hashes.inbounds
