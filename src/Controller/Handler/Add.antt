-- ===== src/Controller/Handler/Add.antt =====
-- AddUser and AddUsers of internal/controller/handler_controller.go. `encode` is
-- base64.StdEncoding.EncodeToString on the bytes of a text.
use rw_node_go.Common.{
  Bool, true, false, not, ◌||◌, Option, none, some, String, List, [], ◌∷◌, Result, ok, err, ◌==◌,
  if◌then◌else◌,
}
use rw_node_go.Common.{pos}
use rw_node_go.State.Runtime.{RuntimeState}
use rw_node_go.State.Inbounds.{
  known_inbound_tags, add_known_inbound_tag, set_inbound_protocol, add_user_to_inbound,
}
use rw_node_go.Xray.Core.{Core}
use rw_node_go.Xray.Users.{
  UserSpec, protocol_vless, protocol_trojan, protocol_shadowsocks, protocol_shadowsocks22,
  protocol_hysteria,
}
use rw_node_go.Controller.Node.{Node}
use rw_node_go.Controller.Requests.{
  UserInboundData, UserHashData, AddUserRequest, BulkUserInboundData, BulkUserData, GenericResponse,
}
use rw_node_go.Controller.Handler.{
  err_if, first_error, succeeded, response, handler_client, remove_from,
}
use rw_node_go.Controller.Handler.Drop.{current_user_ips, drop_all}

unfoldable pub user_spec : UserInboundData → UserSpec
user_spec item = record {
  protocol = item.type;
  tag = item.tag;
  username = item.username;
  password = item.password;
  uuid = item.uuid;
  flow = item.flow;
  cipher_type = item.cipher_type;
  key = "";
}

unfoldable pub bulk_user_spec : (String → String) → BulkUserInboundData → BulkUserData → UserSpec
bulk_user_spec encode item user =
    if item.type == protocol_trojan
    then record spec { password = user.trojan_password }
    else if item.type == protocol_vless
    then record spec { uuid = user.vless_uuid }
    else if item.type == protocol_shadowsocks
    then record spec { password = user.ss_password; cipher_type = pos 0 }
    else if item.type == protocol_shadowsocks22
    then record spec { key = encode user.ss_password }
    else if item.type == protocol_hysteria
    then record spec { password = user.vless_uuid }
    else spec
  where
    spec : UserSpec
    spec = record {
      protocol = item.type;
      tag = item.tag;
      username = user.user_id;
      password = "";
      uuid = "";
      flow = item.flow;
      cipher_type = pos 0;
      key = "";
    }

-- The first loop of AddUser.
unfoldable pub know_items : List UserInboundData → RuntimeState → RuntimeState
know_items [] s = s
know_items (item ∷ items) s =
    know_items items (set_inbound_protocol item.tag item.type (add_known_inbound_tag item.tag s))

-- `prev != nil && *prev != ""`
abbrev pub previous : Option String → Option String
previous none = none
previous (some p) = if p == "" then none else some p

abbrev pub or_hash : Option String → String → String
or_hash none hash = hash
or_hash (some p) hash = p

abbrev pub remember : Option String → String → String → RuntimeState → RuntimeState
remember none tag hash s = add_user_to_inbound tag hash s
remember (some e) tag hash s = s

module _ (core : Core) where
  open core use {World, add_user}

  -- One call of client.AddUser: a user that was added is remembered under the hash.
  unfoldable pub add_one : UserSpec → String → Node core → Option String × Node core
  add_one spec hash n =
      let (e, w) = add_user spec n.world in
      (e, record { state = remember e spec.tag hash n.state; world = w })

  unfoldable pub add_items :
      List UserInboundData
      → String
      → Bool
      → Option String
      → Node core
      → Bool × Option String × Node core
  unfolding add_one user_spec
  add_items [] hash success first n = (success, first, n)
  add_items (item ∷ items) hash success first n =
      let (e, n') = add_one (user_spec item) hash n in
      add_items items hash (succeeded e || success) (first_error first e) n'

  -- On a re-registration the user's addresses are read before the removal.
  abbrev pub reconnect_ips : Option String → String → World → List String × World
  reconnect_ips none username w = ([], w)
  reconnect_ips (some p) username w = current_user_ips core username w

  -- The removal of AddUser: the addresses are read, the user is removed from every known inbound,
  -- and the connections of the addresses are dropped.
  unfoldable pub forget_user : String → UserHashData → Node core → Node core
  unfolding remove_from current_user_ips drop_all
  forget_user username hashes n =
      let prev = previous hashes.prev_vless_uuid in
      let (ips, w) = reconnect_ips prev username n.world in
      let (done, e, m) =
        remove_from core username (or_hash prev hashes.vless_uuid) (known_inbound_tags n.state)
          false none (record { state = n.state; world = w }) in
      let (dropped, w') = drop_all core ips true m.world in record { state = m.state; world = w' }

  -- Everything of AddUser that comes after the client is there.
  unfoldable pub replace_user :
      String → List UserInboundData → UserHashData → Node core → Bool × Option String × Node core
  unfolding add_items forget_user
  replace_user username items hashes n =
      add_items items hashes.vless_uuid false none (forget_user username hashes n)

  abbrev pub added : Bool × Option String × Node core → GenericResponse × Node core
  added (success, e, n) = (response success (err_if (not success) e), n)

  abbrev pub add_with :
      Option String
      → String
      → List UserInboundData
      → UserHashData
      → Node core
      → GenericResponse × Node core
  add_with (some e) username items hashes n = (response false (some e), n)
  add_with none username items hashes n = added (replace_user username items hashes n)

  abbrev pub add_known :
      List UserInboundData → UserHashData → Node core → GenericResponse × Node core
  add_known [] hashes n = (response true none, n)
  add_known (item ∷ items) hashes n =
      add_with (handler_client core n.world) item.username (item ∷ items) hashes
        (record { state = know_items (item ∷ items) n.state; world = n.world })

  unfoldable pub add_user_request : Result AddUserRequest → Node core → GenericResponse × Node core
  unfolding know_items handler_client replace_user
  add_user_request (err e) n = (response false (some e), n)
  add_user_request (ok r) n = add_known r.items r.hash_data n
