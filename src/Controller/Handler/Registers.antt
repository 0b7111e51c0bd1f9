-- ===== src/Controller/Handler/Registers.antt =====
-- What adding a user registers and forgets, and what it leaves alone.
use rw_node_go.Common.{
  some, eq_iff, ◌≡◌, ◌∙◌, refl, ap, Bool, false, not, ◌&&◌, ◌||◌, Option, none, String, List, [],
  ◌∷◌, ok, has, lookup, arith, ◌==◌, Dict,
}
use rw_node_go.State.Runtime.{RuntimeState}
use rw_node_go.State.Inbounds.{users_of, add_known_inbound_tag, set_inbound_protocol}
use rw_node_go.State.Inbounds.Tracked.{IsTracked}
use rw_node_go.State.Inbounds.Users.{has_user, has_user-add}
use rw_node_go.Xray.Core.{Core}
use rw_node_go.Controller.Node.{Node}
use rw_node_go.Controller.Requests.{UserInboundData, UserHashData}
use rw_node_go.Controller.Handler.{
  first_error, succeeded, handler_client, remove_from_all_known_inbounds,
}
use rw_node_go.Controller.Handler.Forgets.{has_user-remove_from_all}
use rw_node_go.Controller.Handler.Tracked.{know_items-IsTracked}
use rw_node_go.Controller.Handler.Add.{
  remember, user_spec, know_items, add_one, add_items, forget_user, replace_user, previous, or_hash,
  add_user_request, reconnect_ips,
}

inbound_users-know_items :
    (items : List UserInboundData) (s : RuntimeState)
    → (know_items items s).inbound_users ≡ s.inbound_users
unfolding know_items set_inbound_protocol add_known_inbound_tag
inbound_users-know_items [] s = refl
inbound_users-know_items (item ∷ items) s =
    inbound_users-know_items items
      (set_inbound_protocol item.tag item.type (add_known_inbound_tag item.tag s))
    ∙ ground arith

has_user-know_items :
    (items : List UserInboundData) (s : RuntimeState) (t u : String)
    → has_user t u (know_items items s) ≡ has_user t u s
has_user-know_items items s t u =
    ap (λ (m : Dict (List String)). has u (users_of (lookup t m)))
      (inbound_users-know_items items s)

module _ (core : Core) where
  -- The core took a user of the items into the inbound, when they were offered to it in their order.
  unfoldable pub added_to : String → List UserInboundData → core.World → Bool
  added_to t [] w = false
  added_to t (item ∷ items) w =
      let (e, w') = core.add_user (user_spec item) w in
      let later = added_to t items w' in succeeded e && item.tag == t || later

  -- What a hash that was offered leaves in an inbound, where neither is empty.
  abbrev pub registered : String → String → String → Bool → Bool
  registered hash t u took = not (t == "") && (not (hash == "") && (hash == u && took))

  has_user-remember :
      (e : Option String) (tag hash : String) (s : RuntimeState) (t u : String)
      → has_user t u (remember e tag hash s)
        ≡ (registered hash t u (succeeded e && tag == t) || has_user t u s)
  has_user-remember none tag hash s t u = ground (arith, eq_iff tag t, has_user-add tag hash t u s)
  has_user-remember (some e) tag hash s t u = ground arith

  registered_later :
      (hash t u : String) (first later held : Bool)
      → (registered hash t u later || (registered hash t u first || held))
        ≡ (registered hash t u (first || later) || held)
  registered_later hash t u first later held = ground arith

  has_user-add_items :
      (items : List UserInboundData) (hash : String) (success : Bool) (first : Option String)
      (n : Node core) (t u : String)
      → has_user t u (add_items core items hash success first n).2.state
        ≡ (registered hash t u (added_to t items n.world) || has_user t u n.state)
  unfolding add_items add_one added_to
  has_user-add_items [] hash success first n t u = ground arith
  has_user-add_items (item ∷ items) hash success first n t u =
      let (e, w) = core.add_user (user_spec item) n.world in
      let n' : Node core = record { state = remember e item.tag hash n.state; world = w } in
      has_user-add_items items hash (succeeded e || success) (first_error first e) n' t u
      ∙ ap (λ b. registered hash t u (added_to t items w) || b)
          (has_user-remember e item.tag hash n.state t u)
      ∙ registered_later hash t u (succeeded e && item.tag == t) (added_to t items w)
          (has_user t u n.state)

  has_user-forget_user :
      (username : String) (hashes : UserHashData) (n : Node core) (t u : String)
      → IsTracked n.state
      → (or_hash (previous hashes.prev_vless_uuid) hashes.vless_uuid == "") ≡ false
      → has_user t u (forget_user core username hashes n).state ≡ (
          not (or_hash (previous hashes.prev_vless_uuid) hashes.vless_uuid == u)
          && has_user t u n.state)
  unfolding forget_user remove_from_all_known_inbounds
  has_user-forget_user username hashes n t u h e =
      let prev = previous hashes.prev_vless_uuid in
      has_user-remove_from_all core username (or_hash prev hashes.vless_uuid)
        (record { state = n.state; world = (reconnect_ips core prev username n.world).1 }) t u h e

  has_user-replace_user :
      (item : UserInboundData) (items : List UserInboundData) (hashes : UserHashData)
      (n : Node core) (t u : String)
      → IsTracked n.state
      → (or_hash (previous hashes.prev_vless_uuid) hashes.vless_uuid == "") ≡ false
      → has_user t u (replace_user core item.username (item ∷ items) hashes n).2.state ≡ (
          registered hashes.vless_uuid t u
            (added_to t (item ∷ items) (forget_user core item.username hashes n).world)
          || (not (or_hash (previous hashes.prev_vless_uuid) hashes.vless_uuid == u)
              && has_user t u n.state))
  unfolding replace_user
  has_user-replace_user item items hashes n t u h e =
      has_user-add_items (item ∷ items) hashes.vless_uuid false none
        (forget_user core item.username hashes n) t u
      ∙ ap
          (λ b.
            registered hashes.vless_uuid t u
              (added_to t (item ∷ items) (forget_user core item.username hashes n).world)
            || b)
          (has_user-forget_user item.username hashes n t u h e)

  -- If there is a client, only known inbounds have users, the request has items and the hash to be
  -- removed is not empty, then after AddUser a hash is registered in an inbound exactly if it is the
  -- new one, the two are not empty and the core took an item into that inbound, or if it was
  -- registered there before and is not the one to be removed: the previous hash of the user, or the
  -- new one where there is no previous. So it is whatever the core answers to the removals.
  pub has_user-add_user :
      (item : UserInboundData) (items : List UserInboundData) (hashes : UserHashData)
      (n : Node core) (t u : String)
      → IsTracked n.state
      → handler_client core n.world ≡ none
      → (or_hash (previous hashes.prev_vless_uuid) hashes.vless_uuid == "") ≡ false
      → has_user t u
          (add_user_request core
            (ok (record { items = item ∷ items; hash_data = hashes }))
            n).1.state
        ≡ (registered hashes.vless_uuid t u (
              added_to t
                (item ∷ items)
                (forget_user core item.username hashes
                  (record { state = know_items (item ∷ items) n.state; world = n.world })).world)
            || (not (or_hash (previous hashes.prev_vless_uuid) hashes.vless_uuid == u)
                && has_user t u n.state))
  unfolding add_user_request
  has_user-add_user item items hashes n t u h c e =
      let s = know_items (item ∷ items) n.state in
      let known : Node core = record { state = s; world = n.world } in
      simp c (
        has_user-replace_user item items hashes known t u
          (know_items-IsTracked core (item ∷ items) n.state h) e
        ∙ ap
            (λ b.
              registered hashes.vless_uuid t u
                (added_to t (item ∷ items) (forget_user core item.username hashes known).world)
              || (not (or_hash (previous hashes.prev_vless_uuid) hashes.vless_uuid == u) && b))
            (has_user-know_items (item ∷ items) n.state t u))
