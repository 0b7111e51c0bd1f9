-- ===== src/Examples/Handler.antt =====
-- The theorems on the users' handlers at concrete inputs.
use rw_node_go.Common.{
  add, sort, sort_texts, text_le, ◌≡◌, refl, true, false, some, none, ok, [], ◌∷◌, lookup, has,
  arith,
}
use rw_node_go.Common.{pos}
use rw_node_go.State.Inbounds.Tracked.{IsTracked}
use rw_node_go.State.Inbounds.Users.{has_user}
use rw_node_go.State.Inbounds.{known_inbound_tags, set_inbound_protocol, add_known_inbound_tag}
use rw_node_go.Xray.Core.Embedded
use rw_node_go.Xray.Core.Embedded.Clients
use rw_node_go.Controller.Requests.{
  UserInboundData, UserHashData, AddUserRequest, RemoveUserRequest, AddUsersRequest,
}
use rw_node_go.Controller.Handler.{handler_client}
use rw_node_go.Controller.Handler.Add.{add_user_request, forget_user, know_items, user_spec}
use rw_node_go.Controller.Handler.Bulk.{add_users_request}
use rw_node_go.Controller.Handler.Remove.{remove_user, remove_users}
use rw_node_go.Controller.Handler.BulkTracked.{add_users_request-IsTracked}
use rw_node_go.Controller.Handler.Tracked.{add_user_request-IsTracked}
use rw_node_go.Controller.Handler.ForgetsAll.{has_user-remove_users}
use rw_node_go.Controller.Handler.Forgets.{
  any_succeeded, first_failed, removal_errors, remove_user_answer, has_user-remove_user,
}
use rw_node_go.Controller.Handler.Registers.{added_to, has_user-add_user}
use rw_node_go.Controller.Handler.Answers.{Registered, add_user_registers}
use rw_node_go.Examples.Fixtures.{core, running_node, running_state}

running_state-IsTracked : IsTracked running_state
unfolding lookup has
running_state-IsTracked = record {
  users_known = λ tag users e. ground arith;
  protocols_known = λ tag p e. ground arith;
  tags_named = refl;
}

-- Alice moves from the hash u1 to u9.
abbrev alice_item : UserInboundData
alice_item = record {
  type = "vless";
  tag = "vless-in";
  username = "alice";
  password = "";
  uuid = "u9";
  flow = "";
  cipher_type = pos 0;
  iv_check = false;
}

abbrev alice_hashes : UserHashData
alice_hashes = record { vless_uuid = "u9"; prev_vless_uuid = some "u1" }

abbrev add_alice : AddUserRequest
add_alice = record { items = alice_item ∷ []; hash_data = alice_hashes }

abbrev remove_alice : RemoveUserRequest
remove_alice = record {
  username = "alice";
  hash_data = record { vless_uuid = "u1"; prev_vless_uuid = none };
}

abbrev add_bob : AddUsersRequest
add_bob = record {
  affected_inbound_tags = "trojan-in" ∷ [];
  users =
      record {
        inbound_data = record { type = "trojan"; tag = "trojan-in"; flow = "" } ∷ [];
        user_data = record {
          user_id = "bob";
          hash_uuid = "u7";
          vless_uuid = "u7";
          trojan_password = "secret";
          ss_password = "";
        };
      }
      ∷ [];
}

add_user_request-IsTracked_example :
    IsTracked (add_user_request core (ok add_alice) running_node).1.state
add_user_request-IsTracked_example =
    add_user_request-IsTracked core (ok add_alice) running_node running_state-IsTracked

add_users_request-IsTracked_example :
    IsTracked (add_users_request core (λ s. s) (ok add_bob) running_node).1.state
add_users_request-IsTracked_example =
    add_users_request-IsTracked core (λ s. s) (ok add_bob) running_node running_state-IsTracked

has_user-remove_users_example :
    has_user "vless-in" "u1"
      (remove_users core
        (ok (record { user_id = "alice"; hash_uuid = "u1" } ∷ []))
        running_node).1.state
    ≡ false
unfolding handler_client Embedded.is_running has
has_user-remove_users_example =
    has_user-remove_users core (record { user_id = "alice"; hash_uuid = "u1" } ∷ []) running_node
      "vless-in" "u1" running_state-IsTracked refl (refl, tt)

has_user-remove_user_example :
    has_user "vless-in" "u1" (remove_user core (ok remove_alice) running_node).1.state ≡ false
unfolding handler_client Embedded.is_running
has_user-remove_user_example =
    has_user-remove_user core remove_alice running_node "vless-in" "u1" running_state-IsTracked refl
      refl

-- The toy core has alice in one of the two inbounds, so one removal fails.
remove_user_answer_example :
    ((remove_user core (ok remove_alice) running_node).0.success ≡ true)
    × ((remove_user core (ok remove_alice) running_node).0.error
        ≡ some "xray handler remove user from inbound \"trojan-in\": no such user")
unfolding handler_client removal_errors any_succeeded first_failed Embedded.is_running
    known_inbound_tags sort_texts sort text_le Clients.remove_user remove_user
remove_user_answer_example = remove_user_answer core remove_alice running_node refl refl

has_user-add_user_example :
    has_user "vless-in" "u9" (add_user_request core (ok add_alice) running_node).1.state ≡ true
unfolding handler_client Embedded.is_running added_to Clients.add_user forget_user
    Clients.user_ip_list known_inbound_tags sort_texts sort know_items set_inbound_protocol add has
    add_known_inbound_tag text_le Clients.remove_user user_spec
has_user-add_user_example =
    has_user-add_user core alice_item [] alice_hashes running_node "vless-in" "u9"
      running_state-IsTracked refl refl

add_user_registers_example :
    Registered "u9" (add_user_request core (ok add_alice) running_node).1.state (alice_item ∷ [])
unfolding handler_client add_user_request Embedded.is_running Clients.add_user Clients.user_ip_list
    Clients.remove_user known_inbound_tags sort_texts sort text_le set_inbound_protocol
    add_known_inbound_tag add has
add_user_registers_example =
    add_user_registers core add_alice running_node (refl, tt) refl refl refl

-- There is no client while the core is stopped.
