-- ===== src/Examples/Fixtures.antt =====
-- Data for the examples: hashes, a configuration, and a library that keeps its users in a list.
use rw_node_go.Common.{
  pos, true, false, not, ◌&&◌, Option, none, some, String, List, [], ◌∷◌, Result, ok, ◌==◌,
  if◌then◌else◌,
}
use rw_node_go.Json.{text, arr, obj, nil, cons, Fields, end, field}
use rw_node_go.State.Hashes.{InboundHash, Hashes}
use rw_node_go.State.Runtime.{RuntimeState, new_runtime_state}
use rw_node_go.Xray.Config.{ConfigBuilder}
use rw_node_go.Xray.Users.{ProtocolUser}
use rw_node_go.Xray.Core.{Core}
use rw_node_go.Xray.Core.Types.{dropped}
use rw_node_go.Xray.Core.Embedded.{Library, EmbeddedCore, managed, ready}
use rw_node_go.Xray.Core.Filled.{embedded}
use rw_node_go.Controller.Node.{Node}
use rw_node_go.Controller.Lifecycle.{XrayNode, StartXrayRequest}

abbrev pub vless_hash : InboundHash
vless_hash = record { users_count = pos 2; hash = "aa"; tag = "vless-in" }

abbrev pub trojan_hash : InboundHash
trojan_hash = record { users_count = pos 1; hash = "bb"; tag = "trojan-in" }

abbrev pub two_hashes : Hashes
two_hashes = record { empty_config = "base"; inbounds = vless_hash ∷ trojan_hash ∷ [] }

abbrev pub swapped_hashes : Hashes
swapped_hashes = record { empty_config = "base"; inbounds = trojan_hash ∷ vless_hash ∷ [] }

-- A state that runs with two inbounds, one of them with two users.
abbrev pub running_state : RuntimeState
running_state = record (new_runtime_state "2.6.1") {
  xray_running = true;
  xray_internal_status_cached = true;
  last_hashes = two_hashes;
  has_last_hashes = true;
  known_inbound_tag = "vless-in" ∷ "trojan-in" ∷ [];
  inbound_users = ("vless-in", "u1" ∷ "u2" ∷ []) ∷ [];
}

abbrev pub hysteria_inbound : Fields
hysteria_inbound = field "tag" (text "hy-in") (field "protocol" (text "hysteria") end)

abbrev pub vless_inbound : Fields
vless_inbound = field "tag" (text "vless-in") (field "protocol" (text "vless") end)

abbrev pub config : Fields
config =
    field "log" (obj (field "loglevel" (text "info") end))
      (field "inbounds" (arr (cons (obj hysteria_inbound) (cons (obj vless_inbound) nil))) end)

abbrev pub with_port : ConfigBuilder
with_port = record { stats_user_online = true; hysteria_listen_port = 8443 }

-- The users of a toy instance, by tag and email.
abbrev pub Accounts : Type 0
Accounts = List (String × String)

abbrev pub drop_account : String → String → Accounts → Option String × Accounts
drop_account tag email [] = (some "no such user", [])
drop_account tag email ((t, e) ∷ rest) =
    let (o, kept) = drop_account tag email rest in
    if t == tag && e == email then (none, rest) else (o, (t, e) ∷ kept)

-- A library of which every call succeeds but the removal of a user that is not there.
abbrev pub toy : Library
toy = record {
  Config = String;
  Instance = Accounts;
  Manager = String;
  MemoryUser = ProtocolUser;
  valid_json = λ s. not (s == "");
  load_config = λ s. ok s;
  new_instance = λ c. ok [];
  start_instance = λ i. ready;
  close_instance = λ i. none;
  library_version = "26.1.0";
  manager_of = λ tag i. managed tag;
  to_memory_user = λ u. ok u;
  manager_add_user = λ tag u i. (none, (tag, u.email) ∷ i);
  manager_remove_user = λ tag email i. drop_account tag email i;
  has_stats_manager = λ i. none;
  online_map = λ u i. none;
}

abbrev pub core : Core
core = embedded toy (λ ip. dropped)

-- The core as it is made, and with an instance that has a user.
abbrev pub stopped_core : EmbeddedCore toy
stopped_core = record {
  instance_of = none;
  pointer = 0;
  next = 0;
  version = "26.1.0";
  started_at = 0;
  events = [];
}

abbrev pub running_core : EmbeddedCore toy
running_core = record stopped_core {
  instance_of = some (("vless-in", "alice") ∷ []);
  next = 1;
  started_at = 7;
}

abbrev pub stopped_node : Node core
stopped_node = record {
  state = new_runtime_state "2.6.1";
  world = record { core = stopped_core; now = 9 };
}

abbrev pub running_node : Node core
running_node = record { state = running_state; world = record { core = running_core; now = 9 } }

abbrev pub stopped : XrayNode core
stopped = record { node = stopped_node; start_processing = false }

abbrev pub running : XrayNode core
running = record { node = running_node; start_processing = false }

abbrev pub start_two : StartXrayRequest
start_two = record { force_restart = false; hashes = two_hashes; xray_config = config }

abbrev pub marshal : Fields → Result String
marshal c = ok "{}"

abbrev pub prepare : Fields → core.World → core.World
prepare c w = w
