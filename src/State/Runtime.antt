-- ===== src/State/Runtime.antt =====
-- internal/state/runtime.go: the state, its snapshot and the writes of the Xray lifecycle.
-- Every method holds the lock for its whole body, so each is one step on the record.
use rw_node_go.Common.{
  Bool, true, false, Option, none, String, List, [], ◌∷◌, Dict, add, ◌==◌, if◌then◌else◌,
}
use rw_node_go.Json.{Fields, end, clone_map}
use rw_node_go.State.Hashes.{InboundHash, Hashes}

pub record RuntimeState : Type 0 where
  pub xray_running : Bool
  pub xray_internal_status_cached : Bool
  pub xray_version : Option String
  pub node_version : String
  pub current_config : Fields
  pub last_hashes : Hashes
  pub has_last_hashes : Bool
  pub inbound_users : Dict (List String)
  pub known_inbound_tag : List String
  pub inbound_protocols : Dict String

abbrev pub no_hashes : Hashes
no_hashes = record { empty_config = ""; inbounds = [] }

-- `node_version` is version.NodeVersion.
abbrev pub new_runtime_state : String → RuntimeState
new_runtime_state version = record {
  xray_running = false;
  xray_internal_status_cached = false;
  xray_version = none;
  node_version = version;
  current_config = end;
  last_hashes = no_hashes;
  has_last_hashes = false;
  inbound_users = [];
  known_inbound_tag = [];
  inbound_protocols = [];
}

unfoldable pub set_xray_running : Bool → RuntimeState → RuntimeState
set_xray_running running s =
    if running
    then record s { xray_running = true }
    else record s { xray_running = false; xray_internal_status_cached = false }

unfoldable pub set_xray_internal_status_cached : Bool → RuntimeState → RuntimeState
set_xray_internal_status_cached cached s =
    if cached
    then record s { xray_internal_status_cached = true }
    else record s { xray_internal_status_cached = false; xray_running = false }

-- The loop that ends SetXrayStarted: the tags of the new hashes, without the empty one.
unfoldable pub known_tags : List InboundHash → List String → List String
known_tags [] tags = tags
known_tags (inbound ∷ rest) tags =
    known_tags rest (if inbound.tag == "" then tags else add inbound.tag tags)

-- The copies of version, config and hashes are equal to what they copy.
unfoldable pub set_xray_started : Option String → Fields → Hashes → RuntimeState → RuntimeState
unfolding known_tags clone_map
set_xray_started version config hashes s = record s {
  xray_running = true;
  xray_internal_status_cached = true;
  xray_version = version;
  current_config = clone_map config;
  last_hashes = hashes;
  has_last_hashes = true;
  inbound_users = [];
  known_inbound_tag = known_tags hashes.inbounds [];
  inbound_protocols = [];
}

pub record Snapshot : Type 0 where
  pub xray_running : Bool
  pub xray_internal_status_cached : Bool
  pub xray_version : Option String
  pub node_version : String
  pub current_config : Fields
  pub last_hashes : Hashes

unfoldable pub snapshot : RuntimeState → Snapshot
unfolding clone_map
snapshot s = record {
  xray_running = s.xray_running;
  xray_internal_status_cached = s.xray_internal_status_cached;
  xray_version = s.xray_version;
  node_version = s.node_version;
  current_config = clone_map s.current_config;
  last_hashes = s.last_hashes;
}
