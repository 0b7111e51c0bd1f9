-- ===== src/State/Hashes/Same.antt =====
-- `same_hashes` decides equality of the inbounds as multisets.
use rw_node_go.Common.{
  ◌+◌, ◌-◌, ◌≤◌, ◌<◌, ◌≡◌, refl, sym, ◌↔◌, true, List, [], ◌∷◌, length, eq_iff, if◌then◌else◌,
  arith,
}
use rw_node_go.State.Hashes.{
  InboundHash, Hashes, Counts, same_inbound, same_inbound_iff, set_count, count_up, count_down,
  count_up_lem, same_hashes, occurrences,
}

-- Every inbound occurs equally often in both lists.
abbrev pub SameInbounds : List InboundHash → List InboundHash → Type 0
SameInbounds xs ys = (x : InboundHash) → occurrences x xs ≡ occurrences x ys

count_down-le :
    (xs : List InboundHash) (c : Counts) (y : InboundHash)
    → count_down xs c ≡ true
    → occurrences y xs ≤ c y
unfolding count_down occurrences
count_down-le [] c y h = omega arith
count_down-le (x ∷ xs) c y h =
    ground (arith, count_down-le xs (set_count x (c x - 1) c) y, same_inbound_iff x y)

count_down_of_le :
    (xs : List InboundHash) (c : Counts)
    → ((y : InboundHash) → occurrences y xs ≤ c y)
    → count_down xs c ≡ true
unfolding count_down occurrences
count_down_of_le [] c h = refl
count_down_of_le (x ∷ xs) c h = ground (
  arith,
  h x,
  same_inbound_iff x x,
  count_down_of_le xs (set_count x (c x - 1) c)
      (λ y. ground (arith, h y, h x, same_inbound_iff x y, same_inbound_iff x x)),
)

-- The list without its first occurrence of an inbound.
without : InboundHash → List InboundHash → List InboundHash
without x [] = []
without x (y ∷ ys) = if same_inbound y x then ys else y ∷ without x ys

occurrences-without :
    (x y : InboundHash) (ys : List InboundHash)
    → occurrences y (without x ys)
      ≡ (if same_inbound x y then occurrences y ys - 1 else occurrences y ys)
unfolding without occurrences
occurrences-without x y [] = ground arith
occurrences-without x y (z ∷ zs) = ground (
  arith,
  occurrences-without x y zs,
  same_inbound_iff x y,
  same_inbound_iff z x,
  same_inbound_iff z y,
)

length-without :
    (x : InboundHash) (ys : List InboundHash)
    → 0 < occurrences x ys
    → length ys ≡ length (without x ys) + 1
unfolding without occurrences
length-without x [] h = omega arith
length-without x (y ∷ ys) h = ground (arith, length-without x ys)

module _ (x : InboundHash) (xs ys : List InboundHash) where
  occurs_once_more :
      ((y : InboundHash) → occurrences y (x ∷ xs) ≤ occurrences y ys) → 0 < occurrences x ys
  unfolding occurrences
  occurs_once_more h = ground (arith, h x, same_inbound_iff x x)

  without-le :
      ((y : InboundHash) → occurrences y (x ∷ xs) ≤ occurrences y ys)
      → (y : InboundHash) → occurrences y xs ≤ occurrences y (without x ys)
  unfolding occurrences
  without-le h y = ground (arith, occurrences-without x y ys, h y)

  occurrences-cons_without :
      (y : InboundHash)
      → 0 < occurrences x ys
      → occurrences y xs ≡ occurrences y (without x ys)
      → occurrences y (x ∷ xs) ≡ occurrences y ys
  unfolding occurrences
  occurrences-cons_without y p e = ground (arith, occurrences-without x y ys, same_inbound_iff x y)

-- Two lists of one length, the first within the second, hold the same inbounds.
occurrences-eq_of_le :
    (xs ys : List InboundHash)
    → length xs ≡ length ys
    → ((y : InboundHash) → occurrences y xs ≤ occurrences y ys)
    → SameInbounds xs ys
unfolding occurrences
occurrences-eq_of_le [] [] e h y = refl
occurrences-eq_of_le [] (y ∷ ys) e h z = absurd (omega arith)
occurrences-eq_of_le (x ∷ xs) ys e h y =
    let held = occurs_once_more x xs ys h in
    occurrences-cons_without x xs ys y held (
      occurrences-eq_of_le xs (without x ys) (omega (arith, length-without x ys held, e))
        (without-le x xs ys h) y)

length_le :
    (xs ys : List InboundHash)
    → ((y : InboundHash) → occurrences y xs ≤ occurrences y ys)
    → length xs ≤ length ys
length_le [] ys h = omega arith
length_le (x ∷ xs) ys h = omega (
  arith,
  length-without x ys (occurs_once_more x xs ys h),
  length_le xs (without x ys) (without-le x xs ys h),
)

length_of_SameInbounds : (xs ys : List InboundHash) → SameInbounds xs ys → length xs ≡ length ys
length_of_SameInbounds xs ys h =
    omega
      (arith, length_le xs ys (λ y. omega (arith, h y)), length_le ys xs (λ y. omega (arith, h y)))

-- The restart check finds two hash sets equal exactly when their base hashes are equal and every
-- inbound entry occurs equally often in both, in whatever order.
pub same_hashes_iff :
    (a b : Hashes)
    → (same_hashes a b ≡ true)
      ↔ ((a.empty_config ≡ b.empty_config) × SameInbounds a.inbounds b.inbounds)
unfolding same_hashes
same_hashes_iff a b = (
  λ h. (
    ground (arith, eq_iff a.empty_config b.empty_config),
    λ x. sym (
        occurrences-eq_of_le b.inbounds a.inbounds (ground arith)
          (λ y. ground (
            arith,
            count_up_lem a.inbounds (λ x. 0) y,
            count_down-le b.inbounds (count_up a.inbounds (λ x. 0)) y,
          ))
          x),
  ),
  λ h. ground (
    arith,
    eq_iff a.empty_config b.empty_config,
    length_of_SameInbounds a.inbounds b.inbounds h.1,
    count_down_of_le b.inbounds (count_up a.inbounds (λ x. 0))
        (λ y. ground (arith, count_up_lem a.inbounds (λ x. 0) y, h.1 y)),
  ),
)
