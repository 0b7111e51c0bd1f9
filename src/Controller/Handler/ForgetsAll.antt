-- ===== src/Controller/Handler/ForgetsAll.antt =====
-- What RemoveUsers of internal/controller/handler_controller.go forgets.
use rw_node_go.Common.{
  ◌≡◌, ◌∙◌, refl, ap, Bool, true, false, not, ◌&&◌, ◌||◌, Option, none, String, List, [], ◌∷◌, ok,
  Bool-cases, inl, inr, is_empty, has, arith, ◌==◌, All,
}
use rw_node_go.State.Inbounds.{known_inbound_tags}
use rw_node_go.State.Inbounds.Tracked.{IsTracked}
use rw_node_go.State.Inbounds.Users.{has_user}
use rw_node_go.Xray.Core.{Core}
use rw_node_go.Controller.Node.{Node}
use rw_node_go.Controller.Requests.{RemoveUsersItem}
use rw_node_go.Controller.Handler.{handler_client}
use rw_node_go.Controller.Handler.Remove.{remove_each, remove_users}
use rw_node_go.Controller.Handler.Tracked.{remove_from-IsTracked}
use rw_node_go.Controller.Handler.Forgets.{has_user-remove_from_all, has_user-unknown}

-- The hashes of a request.
abbrev pub hashes_of : List RemoveUsersItem → List String
hashes_of [] = []
hashes_of (user ∷ users) = user.hash_uuid ∷ hashes_of users

-- Every user of a request has a hash.
abbrev pub AreHashed : List RemoveUsersItem → Type 0
AreHashed = All (λ (user : RemoveUsersItem). (user.hash_uuid == "") ≡ false)

forgotten_too : (h hs u : Bool) → (not hs && (not h && u)) ≡ (not (h || hs) && u)
forgotten_too h hs u = ground arith

module _ (core : Core) where
  has_user-remove_each :
      (users : List RemoveUsersItem) (success : Bool) (first : Option String) (n : Node core)
      (t u : String)
      → IsTracked n.state
      → AreHashed users
      → has_user t u (remove_each core users success first n).2.state
        ≡ (not (has u (hashes_of users)) && has_user t u n.state)
  unfolding remove_each has
  has_user-remove_each [] success first n t u h hashed = refl
  has_user-remove_each (user ∷ users) success first n t u h (hash, hashed) =
      has_user-remove_each users _ _ _ t u
        (remove_from-IsTracked core user.user_id user.hash_uuid (known_inbound_tags n.state) false
          none n h)
        hashed
      ∙ ap (λ b. not (has u (hashes_of users)) && b)
          (has_user-remove_from_all core user.user_id user.hash_uuid n t u h hash)
      ∙ forgotten_too (user.hash_uuid == u) (has u (hashes_of users)) (has_user t u n.state)

  -- If there is a client, only known inbounds have users and no hash of the request is empty,
  -- RemoveUsers forgets each hash of the request in every inbound and no other hash, whatever the
  -- core answers to the single removals.
  pub has_user-remove_users :
      (users : List RemoveUsersItem) (n : Node core) (t u : String)
      → IsTracked n.state
      → handler_client core n.world ≡ none
      → AreHashed users
      → has_user t u (remove_users core (ok users) n).1.state
        ≡ (not (has u (hashes_of users)) && has_user t u n.state)
  unfolding remove_users
  has_user-remove_users users n t u h c hashed =
      elim (Bool-cases (is_empty (known_inbound_tags n.state))) [
        | inr k ↦ simp (c, k) (has_user-remove_each users true none n t u h hashed)
        | inl k ↦ simp k (has_user-unknown t u n.state (not (has u (hashes_of users))) h k)
      ]
