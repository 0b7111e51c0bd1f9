-- ===== src/State/Inbounds.antt =====
-- internal/state/inbounds.go: the tags, protocols and users of the inbounds.
pub mod Tracked
pub mod Users
pub mod Kept
use rw_node_go.Common.{
  ◌≡◌, refl, Bool, true, false, ◌||◌, Option, none, some, String, List, [], ◌∷◌, Dict, lookup,
  insert, has, add, remove, sort_texts, ◌==◌, if◌then◌else◌,
}
use rw_node_go.Json.{Value, Items, nil, cons, Fields, obj, get, as_map, as_array, text_or_empty}
use rw_node_go.State.Runtime.{RuntimeState}

unfoldable pub known_inbound_tags : RuntimeState → List String
known_inbound_tags s = sort_texts s.known_inbound_tag

abbrev know : String → RuntimeState → RuntimeState
know tag s = record s { known_inbound_tag = add tag s.known_inbound_tag }

unfoldable pub add_known_inbound_tag : String → RuntimeState → RuntimeState
add_known_inbound_tag tag s = if tag == "" then s else know tag s

unfoldable pub add_known_inbound_tags : List String → RuntimeState → RuntimeState
unfolding add_known_inbound_tag
add_known_inbound_tags [] s = s
add_known_inbound_tags (tag ∷ tags) s = add_known_inbound_tags tags (add_known_inbound_tag tag s)

unfoldable pub set_inbound_protocol : String → String → RuntimeState → RuntimeState
set_inbound_protocol tag protocol s = if tag == "" || protocol == "" then s else record s {
  known_inbound_tag = add tag s.known_inbound_tag;
  inbound_protocols = insert tag protocol s.inbound_protocols;
}

abbrev or_empty : Option String → String
or_empty none = ""
or_empty (some s) = s

unfoldable pub inbound_protocol : String → RuntimeState → String
inbound_protocol tag s = or_empty (lookup tag s.inbound_protocols)

-- A nil inner map reads as an empty one.
abbrev pub users_of : Option (List String) → List String
users_of none = []
users_of (some users) = users

unfoldable pub add_user_to_inbound : String → String → RuntimeState → RuntimeState
add_user_to_inbound tag user s = if tag == "" || user == "" then s else record s {
  inbound_users = insert tag (add user (users_of (lookup tag s.inbound_users))) s.inbound_users;
  known_inbound_tag = add tag s.known_inbound_tag;
}

abbrev delete_user : Option (List String) → String → String → RuntimeState → RuntimeState
delete_user none tag user s = s
delete_user (some users) tag user s = record s {
  inbound_users = insert tag (remove user users) s.inbound_users;
}

unfoldable pub remove_user_from_inbound : String → String → RuntimeState → RuntimeState
remove_user_from_inbound tag user s =
    if tag == "" || user == "" then s else delete_user (lookup tag s.inbound_users) tag user s

unfoldable pub inbound_user_hashes : String → RuntimeState → List String
inbound_user_hashes tag s = sort_texts (users_of (lookup tag s.inbound_users))

-- One round of the loop over the inbounds: what is no map, and a round that continues, adds nothing.
abbrev inbound_entry : Value → Dict String → Dict String
inbound_entry (obj inbound) protocols =
    let tag = text_or_empty (get "tag" inbound) in
    let protocol = text_or_empty (get "protocol" inbound) in
    if tag == "" || protocol == "" then protocols else insert tag protocol protocols
inbound_entry _ protocols = protocols

unfoldable pub protocols_of : Items → Dict String → Dict String
protocols_of nil protocols = protocols
protocols_of (cons inbound rest) protocols = protocols_of rest (inbound_entry inbound protocols)

abbrev protocols_of_inbounds : Option Items → Dict String
protocols_of_inbounds none = []
protocols_of_inbounds (some inbounds) = protocols_of inbounds []

unfoldable pub inbound_protocols_from_config : Fields → Dict String
unfolding protocols_of
inbound_protocols_from_config config = protocols_of_inbounds (as_array (get "inbounds" config))

unfoldable pub set_protocols : Dict String → RuntimeState → RuntimeState
set_protocols [] s = s
set_protocols ((tag, protocol) ∷ rest) s = set_protocols rest (record s {
  known_inbound_tag = add tag s.known_inbound_tag;
  inbound_protocols = insert tag protocol s.inbound_protocols;
})

-- The early return for an empty map and the loop over it agree.
unfoldable pub set_inbound_protocols_from_config : Fields → RuntimeState → RuntimeState
unfolding inbound_protocols_from_config set_protocols
set_inbound_protocols_from_config config s = set_protocols (inbound_protocols_from_config config) s
