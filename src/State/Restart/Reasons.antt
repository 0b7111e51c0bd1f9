-- ===== src/State/Restart/Reasons.antt =====
-- When a start request restarts the core, and which reason it reports.
use rw_node_go.Common.{
  int_eq, nat_eq, length, ◌⊎◌, ◌≢◌, ◌==◌, ◌||◌, not, ◌≡◌, refl, ◌↔◌, Bool, true, false, Option,
  none, some, String, List, [], ◌∷◌, arith, eq_iff, Bool-cases, inl, inr,
}
use rw_node_go.State.Hashes.{InboundHash, Hashes, same_hashes}
use rw_node_go.State.Hashes.Same.{SameInbounds, same_hashes_iff}
use rw_node_go.State.Runtime.{RuntimeState}
use rw_node_go.State.Restart.{
  or_else, RestartReason, RestartDecision, by_tag, compare_inbound, first_change, restart_decision,
}

first_change-restarts : (xs ys : List InboundHash) → (first_change xs ys).should_restart ≡ true
unfolding first_change
first_change-restarts [] ys = refl
first_change-restarts (x ∷ xs) ys = ground (arith, first_change-restarts xs ys)

decides_same :
    (force : Bool) (hashes : Hashes) (core_running : Bool) (s : RuntimeState)
    → ((restart_decision force hashes core_running s).should_restart ≡ false) ↔ (
        (force ≡ false)
        × (core_running ≡ true)
        × (s.has_last_hashes ≡ true)
        × (same_hashes s.last_hashes hashes ≡ true))
unfolding restart_decision
decides_same force hashes core_running s = (
  λ h. ground (arith, first_change-restarts s.last_hashes.inbounds hashes.inbounds),
  λ h. ground arith,
)

-- The decision is not to restart exactly when the request is not forced, the core runs, hashes of an
-- earlier start are known, and the new hashes have the same base hash and the same inbound entries
-- equally often.
pub no_restart_iff :
    (force : Bool) (hashes : Hashes) (core_running : Bool) (s : RuntimeState)
    → ((restart_decision force hashes core_running s).should_restart ≡ false) ↔ (
        (force ≡ false)
        × (core_running ≡ true)
        × (s.has_last_hashes ≡ true)
        × (s.last_hashes.empty_config ≡ hashes.empty_config)
        × SameInbounds s.last_hashes.inbounds hashes.inbounds)
no_restart_iff force hashes core_running s =
    let same = same_hashes_iff s.last_hashes hashes in
    let decides = decides_same force hashes core_running s in
    (
      λ h. let (a, b, c, e) = decides.0 h in (a, b, c, (same.0 e).0, (same.0 e).1),
      λ h. decides.1 (h.0, h.1, h.2, same.1 (h.3, h.4)),
    )

-- Some inbound of the list has the tag.
abbrev pub HasTag : String → List InboundHash → Type 0
HasTag tag [] = ⊥
HasTag tag (x ∷ xs) = (x.tag ≡ tag) ⊎ HasTag tag xs

-- What each reason says of the request and of the hashes that the state remembers.
abbrev pub Justified : RestartReason → String → Bool → Hashes → Bool → RuntimeState → Type 0
Justified RestartReason.force_restart tag force hashes running s = force ≡ true
Justified RestartReason.core_not_running tag force hashes running s =
    (force ≡ false) × (running ≡ false)
Justified RestartReason.no_previous_hashes tag force hashes running s = s.has_last_hashes ≡ false
Justified RestartReason.empty_config_hash_changed tag force hashes running s =
    s.last_hashes.empty_config ≢ hashes.empty_config
Justified RestartReason.inbound_count_changed tag force hashes running s =
    length s.last_hashes.inbounds ≢ length hashes.inbounds
Justified RestartReason.inbound_removed tag force hashes running s =
    HasTag tag s.last_hashes.inbounds × ¬ HasTag tag hashes.inbounds
Justified RestartReason.inbound_hash_changed tag force hashes running s =
    ¬ SameInbounds s.last_hashes.inbounds hashes.inbounds
Justified RestartReason.up_to_date tag force hashes running s =
    SameInbounds s.last_hashes.inbounds hashes.inbounds

by_tag-none : (tag : String) (xs : List InboundHash) → by_tag tag xs ≡ none → ¬ HasTag tag xs
unfolding by_tag
by_tag-none tag [] h t = t
by_tag-none tag (x ∷ xs) h (inl e) = ground (arith, eq_iff x.tag tag)
by_tag-none tag (x ∷ xs) h (inr t) = by_tag-none tag xs (ground arith) t

abbrev IsChange : RestartReason → String → List InboundHash → List InboundHash → Type 0
IsChange RestartReason.inbound_removed tag xs ys = HasTag tag xs × ¬ HasTag tag ys
IsChange RestartReason.inbound_hash_changed tag xs ys = Unit
IsChange _ tag xs ys = ⊥

IsChange-cons :
    (x : InboundHash) (r : RestartReason) (tag : String) (xs ys : List InboundHash)
    → IsChange r tag xs ys
    → IsChange r tag (x ∷ xs) ys
IsChange-cons x RestartReason.inbound_removed tag xs ys h = (inr h.0, h.1)
IsChange-cons x _ tag xs ys h = h

IsChange-or_else :
    (x : InboundHash) (xs ys : List InboundHash) (o : Option InboundHash) (d : RestartDecision)
    → by_tag x.tag ys ≡ o
    → IsChange d.reason d.inbound_tag xs ys
    → IsChange
        (or_else (compare_inbound x o) d).reason
        (or_else (compare_inbound x o) d).inbound_tag
        (x ∷ xs)
        ys
unfolding compare_inbound
IsChange-or_else x xs ys none d e h = (inl refl, by_tag-none x.tag ys e)
IsChange-or_else x xs ys (some y) d e h =
    elim (Bool-cases (not (x.hash == y.hash) || not (int_eq x.users_count y.users_count))) [
      | inl c ↦ rw c tt
      | inr c ↦ rw c (IsChange-cons x d.reason d.inbound_tag xs ys h)
    ]

first_change-IsChange :
    (xs ys : List InboundHash)
    → IsChange (first_change xs ys).reason (first_change xs ys).inbound_tag xs ys
unfolding first_change
first_change-IsChange [] ys = tt
first_change-IsChange (x ∷ xs) ys =
    IsChange-or_else x xs ys (by_tag x.tag ys) (first_change xs ys) refl
      (first_change-IsChange xs ys)

module _ (force : Bool) (hashes : Hashes) (running : Bool) (s : RuntimeState) where
  IsChange-Justified :
      (r : RestartReason) (tag : String)
      → same_hashes s.last_hashes hashes ≡ false
      → s.last_hashes.empty_config ≡ hashes.empty_config
      → IsChange r tag s.last_hashes.inbounds hashes.inbounds
      → Justified r tag force hashes running s
  IsChange-Justified RestartReason.inbound_removed tag d e h = h
  IsChange-Justified RestartReason.inbound_hash_changed tag d e h =
      λ same. cc (d, (same_hashes_iff s.last_hashes hashes).1 (e, same))
  IsChange-Justified RestartReason.force_restart tag d e h = absurd h
  IsChange-Justified RestartReason.core_not_running tag d e h = absurd h
  IsChange-Justified RestartReason.no_previous_hashes tag d e h = absurd h
  IsChange-Justified RestartReason.empty_config_hash_changed tag d e h = absurd h
  IsChange-Justified RestartReason.inbound_count_changed tag d e h = absurd h
  IsChange-Justified RestartReason.up_to_date tag d e h = absurd h

-- The reason that is logged with a decision is true of the request and of the remembered hashes,
-- on every branch: a removed inbound was remembered and its tag is gone, a changed hash means that
-- the inbound entries differ, and "up to date" that they do not.
pub restart_reason :
    (force : Bool) (hashes : Hashes) (running : Bool) (s : RuntimeState)
    → let d = restart_decision force hashes running s in
      Justified d.reason d.inbound_tag force hashes running s
unfolding restart_decision
restart_reason true hashes running s = refl
restart_reason false hashes false s = (refl, refl)
restart_reason false hashes true s = elim (Bool-cases s.has_last_hashes) [
  | inr a ↦ simp a refl
  | inl a ↦ elim (Bool-cases (same_hashes s.last_hashes hashes)) [
    | inl b ↦ simp (a, b) ((same_hashes_iff s.last_hashes hashes).0 b).1
    | inr b ↦ elim (Bool-cases (s.last_hashes.empty_config == hashes.empty_config)) [
      | inr c ↦
          simp (a, b, c) (ground (arith, eq_iff s.last_hashes.empty_config hashes.empty_config))
      | inl c ↦
          elim (Bool-cases (nat_eq (length s.last_hashes.inbounds) (length hashes.inbounds))) [
            | inr d ↦ simp (a, b, c, d) (ground arith)
            | inl d ↦
                simp (a, b, c, d)
                  (IsChange-Justified false hashes true s
                    (first_change s.last_hashes.inbounds hashes.inbounds).reason
                    (first_change s.last_hashes.inbounds hashes.inbounds).inbound_tag b
                    ((eq_iff s.last_hashes.empty_config hashes.empty_config).0 c)
                    (first_change-IsChange s.last_hashes.inbounds hashes.inbounds))
          ]
    ]
  ]
]
