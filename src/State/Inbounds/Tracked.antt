-- ===== src/State/Inbounds/Tracked.antt =====
-- The invariant of the inbound bookkeeping, and what its operations do to the users.
use rw_node_go.Common.{
  ◌≡◌, refl, true, false, ◌||◌, Option, none, some, String, List, [], ◌∷◌, Dict, lookup, insert,
  has, add, remove, arith, Bool-cases, inl, inr, eq_iff, has-add, lookup-insert, ◌==◌,
  if◌then◌else◌,
}
use rw_node_go.Json.{Value, Items, nil, cons, Fields, obj, get, as_array, text_or_empty}
use rw_node_go.State.Hashes.{InboundHash, Hashes}
use rw_node_go.State.Runtime.{RuntimeState, known_tags, new_runtime_state, set_xray_started}
use rw_node_go.State.Inbounds.{
  add_known_inbound_tag, add_known_inbound_tags, set_inbound_protocol, users_of,
  add_user_to_inbound, delete_user, remove_user_from_inbound, set_protocols, inbound_entry,
  protocols_of, protocols_of_inbounds, set_inbound_protocols_from_config,
  inbound_protocols_from_config,
}

-- Every inbound with users or a protocol is known, and no known tag is empty.
pub record IsTracked (s : RuntimeState) : Type 0 where
  pub users_known :
      (tag : String) (users : List String)
      → lookup tag s.inbound_users ≡ some users
      → has tag s.known_inbound_tag ≡ true
  pub protocols_known :
      (tag protocol : String)
      → lookup tag s.inbound_protocols ≡ some protocol
      → has tag s.known_inbound_tag ≡ true
  pub tags_named : has "" s.known_inbound_tag ≡ false

pub add_known_inbound_tag-IsTracked :
    (tag : String) (s : RuntimeState) → IsTracked s → IsTracked (add_known_inbound_tag tag s)
unfolding add_known_inbound_tag
add_known_inbound_tag-IsTracked tag s h = record {
  users_known =
      λ t u e. ground (arith, h.users_known t u, has-add tag t s.known_inbound_tag, eq_iff tag t);
  protocols_known =
      λ t p e. ground (arith, h.protocols_known t p, has-add tag t s.known_inbound_tag);
  tags_named = ground (arith, h.tags_named, has-add tag "" s.known_inbound_tag);
}

pub add_known_inbound_tags-IsTracked :
    (tags : List String) (s : RuntimeState)
    → IsTracked s
    → IsTracked (add_known_inbound_tags tags s)
unfolding add_known_inbound_tags
add_known_inbound_tags-IsTracked [] s h = h
add_known_inbound_tags-IsTracked (tag ∷ tags) s h =
    add_known_inbound_tags-IsTracked tags (add_known_inbound_tag tag s)
      (add_known_inbound_tag-IsTracked tag s h)

module _ (tag : String) (s : RuntimeState) (h : IsTracked s) where
  pub set_inbound_protocol-IsTracked :
      (protocol : String) → IsTracked (set_inbound_protocol tag protocol s)
  unfolding set_inbound_protocol
  set_inbound_protocol-IsTracked protocol = record {
    users_known = λ t u e. ground (arith, h.users_known t u, has-add tag t s.known_inbound_tag);
    protocols_known = λ t p e. ground (
      arith,
      h.protocols_known t p,
      has-add tag t s.known_inbound_tag,
      lookup-insert tag t protocol s.inbound_protocols,
    );
    tags_named = ground (arith, h.tags_named, has-add tag "" s.known_inbound_tag);
  }

  pub add_user_to_inbound-IsTracked : (user : String) → IsTracked (add_user_to_inbound tag user s)
  unfolding add_user_to_inbound
  add_user_to_inbound-IsTracked user = record {
    users_known = λ t u e. ground (
      arith,
      h.users_known t u,
      has-add tag t s.known_inbound_tag,
      lookup-insert tag t (add user (users_of (lookup tag s.inbound_users))) s.inbound_users,
    );
    protocols_known =
        λ t p e. ground (arith, h.protocols_known t p, has-add tag t s.known_inbound_tag);
    tags_named = ground (arith, h.tags_named, has-add tag "" s.known_inbound_tag);
  }

  delete_user-IsTracked :
      (o : Option (List String)) (user : String)
      → lookup tag s.inbound_users ≡ o
      → IsTracked (delete_user o tag user s)
  delete_user-IsTracked none user e = h
  delete_user-IsTracked (some users) user e = record {
    users_known = λ t u f. ground (
      arith,
      h.users_known t u,
      h.users_known tag users,
      eq_iff tag t,
      lookup-insert tag t (remove user users) s.inbound_users,
    );
    protocols_known = h.protocols_known;
    tags_named = h.tags_named;
  }

  pub remove_user_from_inbound-IsTracked :
      (user : String) → IsTracked (remove_user_from_inbound tag user s)
  unfolding remove_user_from_inbound
  remove_user_from_inbound-IsTracked user = elim (Bool-cases (tag == "" || user == "")) [
    | inl e ↦ simp e h
    | inr e ↦ simp e (delete_user-IsTracked (lookup tag s.inbound_users) user refl)
  ]

-- No entry of a dictionary has the empty text as its key.
abbrev IsNamed : Dict String → Type 0
IsNamed [] = Unit
IsNamed ((tag, protocol) ∷ rest) = ((tag == "") ≡ false) × IsNamed rest

insert-IsNamed :
    (tag protocol : String) (m : Dict String)
    → (tag == "") ≡ false
    → IsNamed m
    → IsNamed (insert tag protocol m)
unfolding insert
insert-IsNamed tag protocol [] e h = (e, tt)
insert-IsNamed tag protocol ((t, p) ∷ m) e h = elim (Bool-cases (t == tag)) [
  | inl f ↦ rw f (e, h.1)
  | inr f ↦ rw f (h.0, insert-IsNamed tag protocol m e h.1)
]

set_protocols-IsTracked :
    (m : Dict String) (s : RuntimeState) → IsNamed m → IsTracked s → IsTracked (set_protocols m s)
unfolding set_protocols
set_protocols-IsTracked [] s n h = h
set_protocols-IsTracked ((tag, protocol) ∷ m) s n h = set_protocols-IsTracked m _ n.1 (record {
  users_known = λ t u e. ground (arith, h.users_known t u, has-add tag t s.known_inbound_tag);
  protocols_known = λ t p e. ground (
    arith,
    h.protocols_known t p,
    has-add tag t s.known_inbound_tag,
    lookup-insert tag t protocol s.inbound_protocols,
  );
  tags_named = ground (arith, h.tags_named, has-add tag "" s.known_inbound_tag);
})

inbound_entry-IsNamed : (v : Value) (m : Dict String) → IsNamed m → IsNamed (inbound_entry v m)
inbound_entry-IsNamed (obj inbound) m h = elim (Bool-cases (tag == "" || protocol == "")) [
  | inl e ↦ rw e h
  | inr e ↦ rw e (insert-IsNamed tag protocol m (ground arith) h)
]
  where
    tag : String
    tag = text_or_empty (get "tag" inbound)

    protocol : String
    protocol = text_or_empty (get "protocol" inbound)
inbound_entry-IsNamed _ m h = h

protocols_of-IsNamed : (xs : Items) (m : Dict String) → IsNamed m → IsNamed (protocols_of xs m)
unfolding protocols_of
protocols_of-IsNamed nil m h = h
protocols_of-IsNamed (cons v xs) m h =
    protocols_of-IsNamed xs (inbound_entry v m) (inbound_entry-IsNamed v m h)

protocols_of_inbounds-IsNamed : (o : Option Items) → IsNamed (protocols_of_inbounds o)
protocols_of_inbounds-IsNamed none = tt
protocols_of_inbounds-IsNamed (some xs) = protocols_of-IsNamed xs [] tt

pub set_inbound_protocols_from_config-IsTracked :
    (config : Fields) (s : RuntimeState)
    → IsTracked s
    → IsTracked (set_inbound_protocols_from_config config s)
unfolding set_inbound_protocols_from_config
set_inbound_protocols_from_config-IsTracked config s =
    set_protocols-IsTracked (inbound_protocols_from_config config) s
      (protocols_of_inbounds-IsNamed (as_array (get "inbounds" config)))

known_tags-named :
    (xs : List InboundHash) (tags : List String)
    → has "" tags ≡ false
    → has "" (known_tags xs tags) ≡ false
unfolding known_tags
known_tags-named [] tags h = h
known_tags-named (x ∷ xs) tags h =
    known_tags-named xs (if x.tag == "" then tags else add x.tag tags)
      (ground (arith, has-add x.tag "" tags))

-- A start forgets all users and protocols, so the invariant holds after it whatever came before.
pub set_xray_started-IsTracked :
    (version : Option String) (config : Fields) (hashes : Hashes) (s : RuntimeState)
    → IsTracked (set_xray_started version config hashes s)
unfolding set_xray_started lookup has
set_xray_started-IsTracked version config hashes s = record {
  users_known = λ t u e. ground arith;
  protocols_known = λ t p e. ground arith;
  tags_named = known_tags-named hashes.inbounds [] refl;
}

pub new_runtime_state-IsTracked : (version : String) → IsTracked (new_runtime_state version)
unfolding lookup has
new_runtime_state-IsTracked version = record {
  users_known = λ t u e. ground arith;
  protocols_known = λ t p e. ground arith;
  tags_named = refl;
}
