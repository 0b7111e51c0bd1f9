-- ===== src/Controller/Handler/BulkTracked.antt =====
-- The bookkeeping of inbounds through AddUsers.
use rw_node_go.Common.{Bool, false, Option, none, some, String, List, [], ◌∷◌, Result, ok, err}
use rw_node_go.State.Runtime.{RuntimeState}
use rw_node_go.State.Inbounds.{known_inbound_tags}
use rw_node_go.State.Inbounds.Tracked.{
  IsTracked, add_known_inbound_tag-IsTracked, add_known_inbound_tags-IsTracked,
  set_inbound_protocol-IsTracked,
}
use rw_node_go.Xray.Core.{Core}
use rw_node_go.Controller.Node.{Node}
use rw_node_go.Controller.Requests.{
  BulkUserInboundData, BulkUserData, BulkUserRequest, AddUsersRequest,
}
use rw_node_go.Controller.Handler.{handler_client}
use rw_node_go.Controller.Handler.Bulk
use rw_node_go.Controller.Handler.Tracked.{remove_from-IsTracked, add_one-IsTracked}

module _ (core : Core) (encode : String → String) where
  add_bulk_items-IsTracked :
      (items : List BulkUserInboundData) (user : BulkUserData) (success : Bool)
      (first : Option String) (n : Node core)
      → IsTracked n.state
      → IsTracked (Bulk.add_bulk_items core encode items user success first n).2.state
  unfolding Bulk.add_bulk_items
  add_bulk_items-IsTracked [] user success first n h = h
  add_bulk_items-IsTracked (item ∷ items) user success first n h =
      add_bulk_items-IsTracked items user _ _ _ (
        add_one-IsTracked core _ user.vless_uuid _
          (set_inbound_protocol-IsTracked item.tag n.state h item.type))

  forget_bulk_user-IsTracked :
      (user : BulkUserData) (n : Node core)
      → IsTracked n.state
      → IsTracked (Bulk.forget_bulk_user core encode user n).state
  unfolding Bulk.forget_bulk_user
  forget_bulk_user-IsTracked user n h =
      remove_from-IsTracked core user.user_id user.hash_uuid (known_inbound_tags n.state) false none
        n h

  add_each-IsTracked :
      (users : List BulkUserRequest) (success : Bool) (first : Option String) (n : Node core)
      → IsTracked n.state
      → IsTracked (Bulk.add_each core encode users success first n).2.state
  unfolding Bulk.add_each
  add_each-IsTracked [] success first n h = h
  add_each-IsTracked (user ∷ users) success first n h =
      let forgotten = Bulk.forget_bulk_user core encode user.user_data n in
      let (success', first', n') =
        Bulk.add_bulk_items core encode user.inbound_data user.user_data success first forgotten in
      add_each-IsTracked users success' first' n' (
        add_bulk_items-IsTracked user.inbound_data user.user_data success first forgotten
          (forget_bulk_user-IsTracked user.user_data n h))

  know_bulk_items-IsTracked :
      (items : List BulkUserInboundData) (s : RuntimeState)
      → IsTracked s
      → IsTracked (Bulk.know_bulk_items items s)
  unfolding Bulk.know_bulk_items
  know_bulk_items-IsTracked [] s h = h
  know_bulk_items-IsTracked (item ∷ items) s h =
      know_bulk_items-IsTracked items _ (add_known_inbound_tag-IsTracked item.tag s h)

  know_users-IsTracked :
      (users : List BulkUserRequest) (s : RuntimeState)
      → IsTracked s
      → IsTracked (Bulk.know_users users s)
  unfolding Bulk.know_users
  know_users-IsTracked [] s h = h
  know_users-IsTracked (user ∷ users) s h =
      know_users-IsTracked users _ (know_bulk_items-IsTracked user.inbound_data s h)

  bulk_add_with-IsTracked :
      (client : Option String) (users : List BulkUserRequest) (n : Node core)
      → IsTracked n.state
      → IsTracked (Bulk.add_with core encode client users n).1.state
  bulk_add_with-IsTracked (some e) users n h = h
  bulk_add_with-IsTracked none users n h = add_each-IsTracked users false none n h

  -- AddUsers keeps the bookkeeping of inbounds consistent, whatever the request and whatever the core
  -- answers: if before it only known inbounds have users or a protocol, and no inbound is known
  -- under the empty tag, so it is afterwards.
  pub add_users_request-IsTracked :
      (r : Result AddUsersRequest) (n : Node core)
      → IsTracked n.state
      → IsTracked (Bulk.add_users_request core encode r n).1.state
  unfolding Bulk.add_users_request
  add_users_request-IsTracked (err e) n h = h
  add_users_request-IsTracked (ok r) n h =
      bulk_add_with-IsTracked (handler_client core n.world) r.users _ (
        know_users-IsTracked r.users _
          (add_known_inbound_tags-IsTracked r.affected_inbound_tags n.state h))
