-- ===== src/Controller/Handler/Tracked.antt =====
-- The bookkeeping of inbounds through the handlers.
use rw_node_go.Common.{
  Bool, true, false, Option, none, some, String, List, [], ◌∷◌, Result, ok, err, Bool-cases, inl,
  inr, is_empty,
}
use rw_node_go.State.Runtime.{RuntimeState}
use rw_node_go.State.Inbounds.{known_inbound_tags}
use rw_node_go.State.Inbounds.Tracked.{
  IsTracked, add_known_inbound_tag-IsTracked, set_inbound_protocol-IsTracked,
  add_user_to_inbound-IsTracked, remove_user_from_inbound-IsTracked,
}
use rw_node_go.Xray.Core.{Core}
use rw_node_go.Xray.Users.{UserSpec}
use rw_node_go.Controller.Node.{Node}
use rw_node_go.Controller.Requests.{
  UserInboundData, UserHashData, AddUserRequest, RemoveUserRequest, RemoveUsersItem,
}
use rw_node_go.Controller.Handler.{handler_client, remove_from, remove_from_all_known_inbounds}
use rw_node_go.Controller.Handler.Remove
use rw_node_go.Controller.Handler.Add

module _ (core : Core) where
  pub remove_from-IsTracked :
      (username hash : String) (tags : List String) (success : Bool) (first : Option String)
      (n : Node core)
      → IsTracked n.state
      → IsTracked (remove_from core username hash tags success first n).2.state
  unfolding remove_from
  remove_from-IsTracked username hash [] success first n h = h
  remove_from-IsTracked username hash (tag ∷ tags) success first n h =
      remove_from-IsTracked username hash tags _ _ _
        (remove_user_from_inbound-IsTracked tag n.state h hash)

  remove_each-IsTracked :
      (us : List RemoveUsersItem) (success : Bool) (first : Option String) (n : Node core)
      → IsTracked n.state
      → IsTracked (Remove.remove_each core us success first n).2.state
  unfolding Remove.remove_each
  remove_each-IsTracked [] success first n h = h
  remove_each-IsTracked (u ∷ us) success first n h =
      remove_each-IsTracked us _ _ _
        (remove_from-IsTracked u.user_id u.hash_uuid (known_inbound_tags n.state) false none n h)

  remember-IsTracked :
      (e : Option String) (tag hash : String) (s : RuntimeState)
      → IsTracked s
      → IsTracked (Add.remember e tag hash s)
  remember-IsTracked none tag hash s h = add_user_to_inbound-IsTracked tag s h hash
  remember-IsTracked (some e) tag hash s h = h

  pub add_one-IsTracked :
      (spec : UserSpec) (hash : String) (n : Node core)
      → IsTracked n.state
      → IsTracked (Add.add_one core spec hash n).1.state
  unfolding Add.add_one
  add_one-IsTracked spec hash n h = remember-IsTracked _ spec.tag hash n.state h

  add_items-IsTracked :
      (items : List UserInboundData) (hash : String) (success : Bool) (first : Option String)
      (n : Node core)
      → IsTracked n.state
      → IsTracked (Add.add_items core items hash success first n).2.state
  unfolding Add.add_items
  add_items-IsTracked [] hash success first n h = h
  add_items-IsTracked (item ∷ items) hash success first n h =
      add_items-IsTracked items hash _ _ _ (add_one-IsTracked (Add.user_spec item) hash n h)

  pub know_items-IsTracked :
      (items : List UserInboundData) (s : RuntimeState)
      → IsTracked s
      → IsTracked (Add.know_items items s)
  unfolding Add.know_items
  know_items-IsTracked [] s h = h
  know_items-IsTracked (item ∷ items) s h = know_items-IsTracked items _ (
      set_inbound_protocol-IsTracked item.tag _ (add_known_inbound_tag-IsTracked item.tag s h)
        item.type)

  forget_user-IsTracked :
      (username : String) (hashes : UserHashData) (n : Node core)
      → IsTracked n.state
      → IsTracked (Add.forget_user core username hashes n).state
  unfolding Add.forget_user
  forget_user-IsTracked username hashes n h =
      let prev = Add.previous hashes.prev_vless_uuid in
      remove_from-IsTracked username (Add.or_hash prev hashes.vless_uuid)
        (known_inbound_tags n.state) false none
        (record { state = n.state; world = (Add.reconnect_ips core prev username n.world).1 }) h

  replace_user-IsTracked :
      (username : String) (items : List UserInboundData) (hashes : UserHashData) (n : Node core)
      → IsTracked n.state
      → IsTracked (Add.replace_user core username items hashes n).2.state
  unfolding Add.replace_user
  replace_user-IsTracked username items hashes n h =
      add_items-IsTracked items hashes.vless_uuid false none
        (Add.forget_user core username hashes n) (forget_user-IsTracked username hashes n h)

  add_with-IsTracked :
      (client : Option String) (username : String) (items : List UserInboundData)
      (hashes : UserHashData) (n : Node core)
      → IsTracked n.state
      → IsTracked (Add.add_with core client username items hashes n).1.state
  add_with-IsTracked (some e) username items hashes n h = h
  add_with-IsTracked none username items hashes n h =
      replace_user-IsTracked username items hashes n h

  -- AddUser keeps the bookkeeping of inbounds consistent, whatever the request and whatever the core
  -- answers: if before it only known inbounds have users or a protocol, and no inbound is known
  -- under the empty tag, so it is afterwards.
  pub add_user_request-IsTracked :
      (r : Result AddUserRequest) (n : Node core)
      → IsTracked n.state
      → IsTracked (Add.add_user_request core r n).1.state
  unfolding Add.add_user_request
  add_user_request-IsTracked (err e) n h = h
  add_user_request-IsTracked (ok r) n h = known r.items
    where
      known :
          (items : List UserInboundData)
          → IsTracked (Add.add_known core items r.hash_data n).1.state
      known [] = h
      known (item ∷ items) =
          add_with-IsTracked (handler_client core n.world) item.username (item ∷ items) r.hash_data
            _ (know_items-IsTracked (item ∷ items) n.state h)

  remove_with-IsTracked :
      (client : Option String) (r : RemoveUserRequest) (n : Node core)
      → IsTracked n.state
      → IsTracked (Remove.remove_with core client r n).1.state
  unfolding remove_from_all_known_inbounds
  remove_with-IsTracked (some e) r n h = h
  remove_with-IsTracked none r n h =
      remove_from-IsTracked r.username r.hash_data.vless_uuid (known_inbound_tags n.state) false
        none n h

  -- RemoveUser keeps the bookkeeping of inbounds consistent, whatever the request and whatever the core
  -- answers: if before it only known inbounds have users or a protocol, and no inbound is known
  -- under the empty tag, so it is afterwards.
  pub remove_user-IsTracked :
      (r : Result RemoveUserRequest) (n : Node core)
      → IsTracked n.state
      → IsTracked (Remove.remove_user core r n).1.state
  unfolding Remove.remove_user
  remove_user-IsTracked (err e) n h = h
  remove_user-IsTracked (ok r) n h = elim (Bool-cases (is_empty (known_inbound_tags n.state))) [
    | inl e ↦ rw e h
    | inr e ↦ rw e (remove_with-IsTracked (handler_client core n.world) r n h)
  ]

  remove_each_with-IsTracked :
      (client : Option String) (us : List RemoveUsersItem) (n : Node core)
      → IsTracked n.state
      → IsTracked (Remove.remove_each_with core client us n).1.state
  remove_each_with-IsTracked (some e) us n h = h
  remove_each_with-IsTracked none us n h = remove_each-IsTracked us true none n h

  -- RemoveUsers keeps the bookkeeping of inbounds consistent, whatever the request and whatever the core
  -- answers: if before it only known inbounds have users or a protocol, and no inbound is known
  -- under the empty tag, so it is afterwards.
  pub remove_users-IsTracked :
      (r : Result (List RemoveUsersItem)) (n : Node core)
      → IsTracked n.state
      → IsTracked (Remove.remove_users core r n).1.state
  unfolding Remove.remove_users
  remove_users-IsTracked (err e) n h = h
  remove_users-IsTracked (ok us) n h = elim (Bool-cases (is_empty (known_inbound_tags n.state))) [
    | inl e ↦ rw e h
    | inr e ↦ rw e (remove_each_with-IsTracked (handler_client core n.world) us n h)
  ]
