-- ===== src/Controller/Handler/Answers.antt =====
-- What the answer of AddUser tells about the users that are registered.
use rw_node_go.Common.{
  ◌≡◌, ◌∙◌, refl, Bool, true, false, ◌||◌, ◌⊎◌, Option, none, some, String, List, [], ◌∷◌, ok,
  Bool-cases, inl, inr, is_empty, arith, eq_refl, ◌==◌,
}
use rw_node_go.State.Runtime.{RuntimeState}
use rw_node_go.State.Inbounds.Users.{has_user, has_user-add}
use rw_node_go.Xray.Core.{Core}
use rw_node_go.Controller.Node.{Node}
use rw_node_go.Controller.Requests.{UserInboundData, UserHashData, AddUserRequest}
use rw_node_go.Controller.Handler.{succeeded, first_error, handler_client}
use rw_node_go.Controller.Handler.Add.{
  add_with, forget_user, user_spec, know_items, add_one, add_items, replace_user, add_user_request,
  add_known,
}

-- The items of a request whose inbound now has the user.
abbrev pub Registered : String → RuntimeState → List UserInboundData → Type 0
Registered hash s [] = ⊥
Registered hash s (item ∷ items) = (has_user item.tag hash s ≡ true) ⊎ Registered hash s items

abbrev pub IsTagged : List UserInboundData → Type 0
IsTagged [] = Unit
IsTagged (item ∷ items) = ((item.tag == "") ≡ false) × IsTagged items

module _ (core : Core) where
  has_user-add_one_mono :
      (item : UserInboundData) (hash : String) (n : Node core) (t u : String)
      → has_user t u n.state ≡ true
      → has_user t u (add_one core (user_spec item) hash n).1.state ≡ true
  unfolding add_one user_spec
  has_user-add_one_mono item hash n t u h = ground (arith, has_user-add item.tag hash t u n.state)

  has_user-add_items_mono :
      (items : List UserInboundData) (hash : String) (success : Bool) (first : Option String)
      (n : Node core) (t u : String)
      → has_user t u n.state ≡ true
      → has_user t u (add_items core items hash success first n).2.state ≡ true
  unfolding add_items
  has_user-add_items_mono [] hash success first n t u h = h
  has_user-add_items_mono (item ∷ items) hash success first n t u h =
      has_user-add_items_mono items hash _ _ (add_one core (user_spec item) hash n).1 t u
        (has_user-add_one_mono item hash n t u h)

  add_one_registers :
      (item : UserInboundData) (hash : String) (n : Node core)
      → (item.tag == "") ≡ false
      → (hash == "") ≡ false
      → succeeded (add_one core (user_spec item) hash n).0 ≡ true
      → has_user item.tag hash (add_one core (user_spec item) hash n).1.state ≡ true
  unfolding add_one user_spec
  add_one_registers item hash n t e h =
      ground
        (arith, eq_refl hash, eq_refl item.tag, has_user-add item.tag hash item.tag hash n.state)

  add_items_registers :
      (items : List UserInboundData) (hash : String) (success : Bool) (first : Option String)
      (n : Node core)
      → IsTagged items
      → (hash == "") ≡ false
      → (add_items core items hash success first n).0 ≡ true
      → (success ≡ true) ⊎ Registered hash (add_items core items hash success first n).2.state items
  unfolding add_items
  add_items_registers [] hash success first n tags e h = inl h
  add_items_registers (item ∷ items) hash success first n tags e h =
      let (o, n') = add_one core (user_spec item) hash n in
      elim (add_items_registers items hash (succeeded o || success) (first_error first o) n' tags.1
        e h) [
          | inr later ↦ inr (inr later)
          | inl now ↦ elim (Bool-cases (succeeded o)) [
            | inl added ↦ inr (
                inl (
                  has_user-add_items_mono items hash _ _ n' item.tag hash
                    (add_one_registers item hash n tags.0 e added)))
            | inr other ↦ inl (ground arith)
          ]
        ]

  add_items_failure :
      (items : List UserInboundData) (hash : String) (success : Bool) (first : Option String)
      (n : Node core)
      → (add_items core items hash success first n).0 ≡ false
      → (success ≡ false) × ((add_items core items hash success first n).2.state ≡ n.state)
  unfolding add_items add_one
  add_items_failure [] hash success first n h = (h, refl)
  add_items_failure (item ∷ items) hash success first n h =
      let (o, n') = add_one core (user_spec item) hash n in
      let (p, q) =
        add_items_failure items hash (succeeded o || success) (first_error first o) n' h in
      (ground arith, q ∙ ground arith)

  add_with_registers :
      (e : Option String) (username : String) (items : List UserInboundData) (hashes : UserHashData)
      (n : Node core)
      → IsTagged items
      → (hashes.vless_uuid == "") ≡ false
      → (add_with core e username items hashes n).0.success ≡ true
      → Registered hashes.vless_uuid (add_with core e username items hashes n).1.state items
  unfolding replace_user
  add_with_registers (some e) username items hashes n tags v h = cc
  add_with_registers none username items hashes n tags v h =
      elim (add_items_registers items hashes.vless_uuid false none
        (forget_user core username hashes n) tags v h) [ inl f ↦ cc | inr r ↦ r ]

  add_known_registers :
      (items : List UserInboundData) (hashes : UserHashData) (n : Node core)
      → IsTagged items
      → (hashes.vless_uuid == "") ≡ false
      → is_empty items ≡ false
      → (add_known core items hashes n).0.success ≡ true
      → Registered hashes.vless_uuid (add_known core items hashes n).1.state items
  add_known_registers [] hashes n tags v i h = cc
  add_known_registers (item ∷ items) hashes n tags v i h =
      add_with_registers (handler_client core n.world) item.username (item ∷ items) hashes
        (record { state = know_items (item ∷ items) n.state; world = n.world }) tags v h

  -- AddUser answers a request that adds something, under a hash and to named inbounds, with
  -- success only when one of the inbounds of the request now has the user under that hash.
  pub add_user_registers :
      (r : AddUserRequest) (n : Node core)
      → IsTagged r.items
      → (r.hash_data.vless_uuid == "") ≡ false
      → is_empty r.items ≡ false
      → (add_user_request core (ok r) n).0.success ≡ true
      → Registered r.hash_data.vless_uuid (add_user_request core (ok r) n).1.state r.items
  unfolding add_user_request
  add_user_registers r n tags v i h = add_known_registers r.items r.hash_data n tags v i h

  add_with_failure :
      (e : Option String) (username : String) (items : List UserInboundData) (hashes : UserHashData)
      (n : Node core)
      → (add_with core e username items hashes n).0.success ≡ false
      → (add_with core e username items hashes n).1.state
        ≡ elim e [ none ↦ (forget_user core username hashes n).state | some x ↦ n.state ]
  unfolding replace_user
  add_with_failure (some e) username items hashes n h = refl
  add_with_failure none username items hashes n h =
      (add_items_failure items hashes.vless_uuid false none (forget_user core username hashes n)
        h).1

  -- Where AddUser answers a request with items without success, the inbounds of the request are
  -- known afterwards, and where there is a client the previous user is forgotten; nothing else of
  -- the state changes.
  pub add_user_failure :
      (item : UserInboundData) (items : List UserInboundData) (hashes : UserHashData)
      (n : Node core)
      → (add_user_request core
          (ok (record { items = item ∷ items; hash_data = hashes }))
          n).0.success
        ≡ false
      → let known : Node core = record {
        state = know_items (item ∷ items) n.state;
        world = n.world;
      } in
        (add_user_request core (ok (record { items = item ∷ items; hash_data = hashes })) n).1.state
        ≡ elim (handler_client core n.world) [
          | none ↦ (forget_user core item.username hashes known).state
          | some x ↦ known.state
        ]
  unfolding add_user_request
  add_user_failure item items hashes n h =
      add_with_failure (handler_client core n.world) item.username (item ∷ items) hashes
        (record { state = know_items (item ∷ items) n.state; world = n.world }) h
