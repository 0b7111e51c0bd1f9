-- ===== src/Controller/Handler/Remove.antt =====
-- RemoveUser and RemoveUsers of internal/controller/handler_controller.go.
use rw_node_go.Common.{
  Bool, true, false, ◌&&◌, Option, none, some, String, List, [], ◌∷◌, Result, ok, err, is_empty,
  if◌then◌else◌,
}
use rw_node_go.State.Inbounds.{known_inbound_tags}
use rw_node_go.Xray.Core.{Core}
use rw_node_go.Controller.Node.{Node}
use rw_node_go.Controller.Requests.{RemoveUserRequest, RemoveUsersItem, GenericResponse}
use rw_node_go.Controller.Handler.{
  first_error, response, handler_client, remove_from_all_known_inbounds,
}

module _ (core : Core) where
  abbrev pub answered : Bool × Option String × Node core → GenericResponse × Node core
  answered (success, e, n) = (response success e, n)

  abbrev pub remove_with :
      Option String → RemoveUserRequest → Node core → GenericResponse × Node core
  remove_with (some e) r n = (response false (some e), n)
  remove_with none r n =
      answered (remove_from_all_known_inbounds core r.username r.hash_data.vless_uuid n)

  unfoldable pub remove_user : Result RemoveUserRequest → Node core → GenericResponse × Node core
  unfolding handler_client remove_from_all_known_inbounds
  remove_user (err e) n = (response false (some e), n)
  remove_user (ok r) n =
      if is_empty (known_inbound_tags n.state)
      then (response true none, n)
      else remove_with (handler_client core n.world) r n

  -- The loop over the users of RemoveUsers: the error is that of the first user that failed.
  unfoldable pub remove_each :
      List RemoveUsersItem → Bool → Option String → Node core → Bool × Option String × Node core
  unfolding remove_from_all_known_inbounds
  remove_each [] success first n = (success, first, n)
  remove_each (u ∷ us) success first n =
      let (done, e, n') = remove_from_all_known_inbounds core u.user_id u.hash_uuid n in
      remove_each us (done && success) (if done then first else first_error first e) n'

  abbrev pub remove_each_with :
      Option String → List RemoveUsersItem → Node core → GenericResponse × Node core
  remove_each_with (some e) us n = (response false (some e), n)
  remove_each_with none us n = answered (remove_each us true none n)

  unfoldable pub remove_users :
      Result (List RemoveUsersItem) → Node core → GenericResponse × Node core
  unfolding handler_client remove_each
  remove_users (err e) n = (response false (some e), n)
  remove_users (ok us) n =
      if is_empty (known_inbound_tags n.state)
      then (response true none, n)
      else remove_each_with (handler_client core n.world) us n
