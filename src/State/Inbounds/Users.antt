-- ===== src/State/Inbounds/Users.antt =====
-- Which users an inbound has after an operation, and the two sorted listings.
use rw_node_go.Common.{
  ◌≡◌, refl, Bool, ◌||◌, ◌&&◌, not, Option, none, some, String, List, lookup, has, add, remove,
  arith, Bool-cases, inl, inr, eq_iff, has-add, has-remove, has-sort_texts, lookup-insert, ◌==◌,
  IsSorted, text_le, sort_texts-IsSorted,
}
use rw_node_go.State.Runtime.{RuntimeState}
use rw_node_go.State.Inbounds.{
  known_inbound_tags, users_of, add_user_to_inbound, delete_user, remove_user_from_inbound,
}

-- The state remembers the user hash for the inbound.
abbrev pub has_user : String → String → RuntimeState → Bool
has_user tag user s = has user (users_of (lookup tag s.inbound_users))

-- Adding a user with a tag and a hash that are not empty adds that pair and changes no other; with
-- an empty tag or hash it changes none.
pub has_user-add :
    (tag user t u : String) (s : RuntimeState)
    → has_user t u (add_user_to_inbound tag user s)
      ≡ ((not (tag == "" || user == "") && (tag == t && user == u)) || has_user t u s)
unfolding add_user_to_inbound
has_user-add tag user t u s = ground (
  arith,
  eq_iff tag t,
  lookup-insert tag t (add user (users_of (lookup tag s.inbound_users))) s.inbound_users,
  has-add user u (users_of (lookup tag s.inbound_users)),
)

has_user-delete :
    (o : Option (List String)) (tag user t u : String) (s : RuntimeState)
    → lookup tag s.inbound_users ≡ o
    → has_user t u (delete_user o tag user s) ≡ (not (tag == t && user == u) && has_user t u s)
unfolding has
has_user-delete none tag user t u s e = ground (arith, eq_iff tag t)
has_user-delete (some users) tag user t u s e = ground (
  arith,
  eq_iff tag t,
  lookup-insert tag t (remove user users) s.inbound_users,
  has-remove user u users,
)

-- Removing a user hash from an inbound removes that pair and keeps every other one; with an empty
-- tag or hash it removes none.
pub has_user-remove :
    (tag user t u : String) (s : RuntimeState)
    → has_user t u (remove_user_from_inbound tag user s)
      ≡ (not (not (tag == "" || user == "") && (tag == t && user == u)) && has_user t u s)
unfolding remove_user_from_inbound
has_user-remove tag user t u s = elim (Bool-cases (tag == "" || user == "")) [
  | inl e ↦ simp e refl
  | inr e ↦ simp e (has_user-delete (lookup tag s.inbound_users) tag user t u s refl)
]

-- The listing of the known tags is sorted and has exactly the known tags.
pub known_inbound_tags_lem :
    (s : RuntimeState) (tag : String)
    → IsSorted text_le (known_inbound_tags s)
      × (has tag (known_inbound_tags s) ≡ has tag s.known_inbound_tag)
unfolding known_inbound_tags
known_inbound_tags_lem s tag =
    (sort_texts-IsSorted s.known_inbound_tag, has-sort_texts tag s.known_inbound_tag)
