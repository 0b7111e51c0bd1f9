-- ===== src/State/Hashes.antt =====
-- internal/state/hashes.go, and `sameHashes` and `HashesFromContract` of internal/state/runtime.go.
pub mod Same
use rw_node_go.Common.{
  ℕ, ◌+◌, ◌-◌, ◌≡◌, ◌↔◌, Bool, true, false, ◌&&◌, not, String, List, [], ◌∷◌, length, nat_eq, ◌==◌,
  eq_iff, if◌then◌else◌, arith, ℤ, int_eq,
}

pub record InboundHash : Type 0 where
  pub users_count : ℤ
  pub hash : String
  pub tag : String

pub record Hashes : Type 0 where
  pub empty_config : String
  pub inbounds : List InboundHash

-- `==` on the struct: every field.
unfoldable pub same_inbound : InboundHash → InboundHash → Bool
same_inbound a b = int_eq a.users_count b.users_count && a.hash == b.hash && a.tag == b.tag

pub same_inbound_iff : (a b : InboundHash) → (same_inbound a b ≡ true) ↔ (a ≡ b)
unfolding same_inbound
same_inbound_iff a b = ground (arith, eq_iff a.hash b.hash, eq_iff a.tag b.tag)

-- map[InboundHash]int. The loop returns before a count would fall below 0, so ℕ is enough.
abbrev pub Counts : Type 0
Counts = InboundHash → ℕ

abbrev pub set_count : InboundHash → ℕ → Counts → Counts
set_count x n c y = if same_inbound x y then n else c y

-- for _, inbound := range a.Inbounds { counts[inbound]++ }
unfoldable pub count_up : List InboundHash → Counts → Counts
count_up [] c = c
count_up (x ∷ xs) c = count_up xs (set_count x (c x + 1) c)

-- The loop over b.Inbounds: counts[inbound]--, and `return false` below zero.
unfoldable pub count_down : List InboundHash → Counts → Bool
count_down [] c = true
count_down (x ∷ xs) c =
    let rest = count_down xs (set_count x (c x - 1) c) in if nat_eq (c x) 0 then false else rest

unfoldable pub same_hashes : Hashes → Hashes → Bool
unfolding count_up count_down
same_hashes a b =
    if not (a.empty_config == b.empty_config)
    then false
    else if not (nat_eq (length a.inbounds) (length b.inbounds))
    then false
    else count_down b.inbounds (count_up a.inbounds (λ x. 0))

-- How often an inbound occurs in a list: the description that the two loops are held to.
unfoldable pub occurrences : InboundHash → List InboundHash → ℕ
occurrences x [] = 0
occurrences x (y ∷ ys) = (if same_inbound y x then 1 else 0) + occurrences x ys

pub count_up_lem :
    (xs : List InboundHash) (c : Counts) (y : InboundHash)
    → count_up xs c y ≡ c y + occurrences y xs
unfolding count_up occurrences
count_up_lem [] c y = omega arith
count_up_lem (x ∷ xs) c y =
    ground (arith, count_up_lem xs (set_count x (c x + 1) c) y, same_inbound_iff x y)
