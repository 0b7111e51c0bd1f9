-- ===== src/Controller/Handler/Bulk.antt =====
-- AddUsers of internal/controller/handler_controller.go.
use rw_node_go.Common.{
  Bool, false, not, ◌&&◌, ◌||◌, Option, none, some, String, List, [], ◌∷◌, Result, ok, err,
  is_empty,
}
use rw_node_go.State.Runtime.{RuntimeState}
use rw_node_go.State.Inbounds.{
  known_inbound_tags, add_known_inbound_tag, add_known_inbound_tags, set_inbound_protocol,
}
use rw_node_go.Xray.Core.{Core}
use rw_node_go.Controller.Node.{Node}
use rw_node_go.Controller.Requests.{
  BulkUserInboundData, BulkUserData, BulkUserRequest, AddUsersRequest, GenericResponse,
}
use rw_node_go.Controller.Handler.{
  err_if, first_error, succeeded, response, handler_client, remove_from,
}
use rw_node_go.Controller.Handler.Add.{bulk_user_spec, add_one}

unfoldable pub know_bulk_items : List BulkUserInboundData → RuntimeState → RuntimeState
know_bulk_items [] s = s
know_bulk_items (item ∷ items) s = know_bulk_items items (add_known_inbound_tag item.tag s)

unfoldable pub know_users : List BulkUserRequest → RuntimeState → RuntimeState
unfolding know_bulk_items
know_users [] s = s
know_users (user ∷ users) s = know_users users (know_bulk_items user.inbound_data s)

module _ (core : Core) (encode : String → String) where
  unfoldable pub add_bulk_items :
      List BulkUserInboundData
      → BulkUserData
      → Bool
      → Option String
      → Node core
      → Bool × Option String × Node core
  unfolding add_one bulk_user_spec
  add_bulk_items [] user success first n = (success, first, n)
  add_bulk_items (item ∷ items) user success first n =
      let (e, n') =
        add_one core (bulk_user_spec encode item user) user.vless_uuid
          (record { state = set_inbound_protocol item.tag item.type n.state; world = n.world }) in
      add_bulk_items items user (succeeded e || success) (first_error first e) n'

  -- The results of the removal are dropped.
  unfoldable pub forget_bulk_user : BulkUserData → Node core → Node core
  unfolding remove_from
  forget_bulk_user user n =
      (remove_from core user.user_id user.hash_uuid (known_inbound_tags n.state) false none n).2

  unfoldable pub add_each :
      List BulkUserRequest → Bool → Option String → Node core → Bool × Option String × Node core
  unfolding add_bulk_items forget_bulk_user
  add_each [] success first n = (success, first, n)
  add_each (user ∷ users) success first n =
      let (success', first', n') =
        add_bulk_items user.inbound_data user.user_data success first
          (forget_bulk_user user.user_data n) in
      add_each users success' first' n'

  abbrev pub answered : Bool → Bool × Option String × Node core → GenericResponse × Node core
  answered nobody (success, e, n) =
      (response (success || nobody) (err_if (not success && not nobody) e), n)

  abbrev pub add_with :
      Option String → List BulkUserRequest → Node core → GenericResponse × Node core
  add_with (some e) users n = (response false (some e), n)
  add_with none users n = answered (is_empty users) (add_each users false none n)

  unfoldable pub add_users_request :
      Result AddUsersRequest → Node core → GenericResponse × Node core
  unfolding know_users handler_client add_each
  add_users_request (err e) n = (response false (some e), n)
  add_users_request (ok r) n = add_with (handler_client core n.world) r.users (record {
    state = know_users r.users (add_known_inbound_tags r.affected_inbound_tags n.state);
    world = n.world;
  })
