-- ===== src/Controller/Handler/Forgets.antt =====
-- What a removal forgets, and when it answers with success.
use rw_node_go.Common.{
  ◌≡◌, ◌∙◌, refl, Bool, true, false, not, ◌&&◌, ◌||◌, Option, none, some, String, List, [], ◌∷◌, ok,
  Bool-cases, inl, inr, is_empty, has, lookup, arith, ◌==◌,
}
use rw_node_go.State.Runtime.{RuntimeState}
use rw_node_go.State.Inbounds.{known_inbound_tags, users_of}
use rw_node_go.State.Inbounds.Tracked.{IsTracked}
use rw_node_go.State.Inbounds.Users.{has_user, has_user-remove, known_inbound_tags_lem}
use rw_node_go.Xray.Core.{Core}
use rw_node_go.Controller.Node.{Node}
use rw_node_go.Controller.Requests.{RemoveUserRequest}
use rw_node_go.Controller.Handler.{
  succeeded, first_error, handler_client, remove_at, remove_from, remove_from_all_known_inbounds,
}
use rw_node_go.Controller.Handler.Remove.{remove_user}

users_of-known :
    (tag user : String) (s : RuntimeState) (o : Option (List String))
    → lookup tag s.inbound_users ≡ o
    → IsTracked s
    → has user (users_of o) ≡ true
    → has tag s.known_inbound_tag ≡ true
unfolding has
users_of-known tag user s none e h u = cc
users_of-known tag user s (some users) e h u = h.users_known tag users e

-- Only a known inbound has users.
pub has_user-known :
    (tag user : String) (s : RuntimeState)
    → IsTracked s
    → has_user tag user s ≡ true
    → has tag (known_inbound_tags s) ≡ true
has_user-known tag user s h u =
    (known_inbound_tags_lem s tag).1
    ∙ users_of-known tag user s (lookup tag s.inbound_users) refl h u

guard_redundant : (b c d : Bool) → (d ≡ true → b ≡ true) → (not (b && c) && d) ≡ (not c && d)
guard_redundant b c d h = ground arith

no_user : (d c : Bool) → (d ≡ true → ⊥) → d ≡ (c && d)
no_user d c h = ground (arith, h)

nothing_known : (t : String) (tags : List String) → is_empty tags ≡ true → has t tags ≡ true → ⊥
unfolding has
nothing_known t [] e h = cc
nothing_known t (tag ∷ tags) e h = cc

-- Where no inbound is known there is no user to forget.
pub has_user-unknown :
    (t u : String) (s : RuntimeState) (kept : Bool)
    → IsTracked s
    → is_empty (known_inbound_tags s) ≡ true
    → has_user t u s ≡ (kept && has_user t u s)
has_user-unknown t u s kept h k =
    no_user (has_user t u s) kept
      (λ held. nothing_known t (known_inbound_tags s) k (has_user-known t u s h held))

-- Some removal had no error; the first error.
unfoldable pub any_succeeded : List (Option String) → Bool
any_succeeded [] = false
any_succeeded (e ∷ es) = succeeded e || any_succeeded es

unfoldable pub first_failed : List (Option String) → Option String
first_failed [] = none
first_failed (e ∷ es) = first_error e (first_failed es)

first_error-none : (e : Option String) → e ≡ first_error e none
first_error-none none = refl
first_error-none (some e) = refl

first_error_assoc :
    (a b c : Option String) → first_error (first_error a b) c ≡ first_error a (first_error b c)
first_error_assoc none b c = refl
first_error_assoc (some a) b c = refl

or_left_comm : (a b c : Bool) → (a || (b || c)) ≡ ((b || a) || c)
or_left_comm a b c = ground arith

or_false : (a : Bool) → (a || false) ≡ a
or_false a = ground arith

module _ (core : Core) where
  has_user-remove_from :
      (username hash : String) (tags : List String) (success : Bool) (first : Option String)
      (n : Node core) (t u : String)
      → (hash == "") ≡ false
      → has "" tags ≡ false
      → has_user t u (remove_from core username hash tags success first n).2.state
        ≡ (not (has t tags && hash == u) && has_user t u n.state)
  unfolding remove_from has
  has_user-remove_from username hash [] success first n t u e h = refl
  has_user-remove_from username hash (tag ∷ tags) success first n t u e h =
      has_user-remove_from username hash tags _ _ (remove_at core username hash tag n).1 t u e
        (ground arith)
      ∙ ground (arith, has_user-remove tag hash t u n.state)

  -- A removal over all known inbounds forgets the hash in every inbound and keeps every other user,
  -- whatever the core answers to the single removals.
  pub has_user-remove_from_all :
      (username hash : String) (n : Node core) (t u : String)
      → IsTracked n.state
      → (hash == "") ≡ false
      → has_user t u (remove_from_all_known_inbounds core username hash n).2.state
        ≡ (not (hash == u) && has_user t u n.state)
  unfolding remove_from_all_known_inbounds
  has_user-remove_from_all username hash n t u h e =
      has_user-remove_from username hash (known_inbound_tags n.state) false none n t u e
        ((known_inbound_tags_lem n.state "").1 ∙ h.tags_named)
      ∙ guard_redundant _ _ _ (has_user-known t u n.state h)

  -- What the core answers to the removals of a user from the tags, in their order.
  unfoldable pub removal_errors : String → List String → core.World → List (Option String)
  removal_errors username [] w = []
  removal_errors username (tag ∷ tags) w =
      let (e, w') = core.remove_user tag username w in e ∷ removal_errors username tags w'

  remove_from_answer :
      (username hash : String) (tags : List String) (success : Bool) (first : Option String)
      (n : Node core)
      → ((remove_from core username hash tags success first n).0
          ≡ (any_succeeded (removal_errors username tags n.world) || success))
        × ((remove_from core username hash tags success first n).1
            ≡ first_error first (first_failed (removal_errors username tags n.world)))
  unfolding remove_from removal_errors any_succeeded first_failed
  remove_from_answer username hash [] success first n = (refl, first_error-none first)
  remove_from_answer username hash (tag ∷ tags) success first n =
      let (e, n') = remove_at core username hash tag n in
      let (p, q) =
        remove_from_answer username hash tags (succeeded e || success) (first_error first e) n' in
      (
        p
            ∙ or_left_comm (any_succeeded (removal_errors username tags n'.world)) (succeeded e)
                success,
        q ∙ first_error_assoc first e (first_failed (removal_errors username tags n'.world)),
      )

  -- With a client and at least one known inbound, RemoveUser answers with success exactly when the
  -- core removed the user from at least one of the known inbounds, and reports the first error
  -- among them, if there is one, also beside a success.
  pub remove_user_answer :
      (r : RemoveUserRequest) (n : Node core)
      → handler_client core n.world ≡ none
      → is_empty (known_inbound_tags n.state) ≡ false
      → let errors = removal_errors r.username (known_inbound_tags n.state) n.world in
        ((remove_user core (ok r) n).0.success ≡ any_succeeded errors)
        × ((remove_user core (ok r) n).0.error ≡ first_failed errors)
  unfolding remove_user remove_from_all_known_inbounds
  remove_user_answer r n c k =
      let tags = known_inbound_tags n.state in
      let (p, q) = remove_from_answer r.username r.hash_data.vless_uuid tags false none n in
      simp (c, k) (p ∙ or_false _, q)

  -- If there is a client, only known inbounds have users and the request's hash is not empty,
  -- RemoveUser forgets that hash in every inbound and no other hash, also where the core reports
  -- errors.
  pub has_user-remove_user :
      (r : RemoveUserRequest) (n : Node core) (t u : String)
      → IsTracked n.state
      → handler_client core n.world ≡ none
      → (r.hash_data.vless_uuid == "") ≡ false
      → has_user t u (remove_user core (ok r) n).1.state
        ≡ (not (r.hash_data.vless_uuid == u) && has_user t u n.state)
  unfolding remove_user
  has_user-remove_user r n t u h c e = elim (Bool-cases (is_empty (known_inbound_tags n.state))) [
    | inr k ↦ simp (c, k) (has_user-remove_from_all r.username r.hash_data.vless_uuid n t u h e)
    | inl k ↦ simp k (has_user-unknown t u n.state _ h k)
  ]
