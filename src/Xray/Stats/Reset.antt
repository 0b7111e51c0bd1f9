-- ===== src/Xray/Stats/Reset.antt =====
-- What a query with `reset` leaves in the counters, and what the next query reads.
use rw_node_go.Common.{
  ℕ, ◌≡◌, refl, Bool, true, false, Option, none, some, String, [], ◌∷◌, Dict, lookup, insert, arith,
  Bool-cases, inl, inr, ◌==◌, sort,
}
use rw_node_go.Xray.StatNames.{Direction, uplink, downlink, parse_traffic_stat_name}
use rw_node_go.Xray.Stats.{
  Counters, Traffic, apply_direction, or_new, visit, visit_counters, with_traffic, users_stats,
  all_inbound_stats, all_outbound_stats,
}

abbrev pub reset_value : Bool → Option (String × Direction) → ℕ → ℕ
reset_value true (some p) value = 0
reset_value _ _ value = value

-- The counters with those of the kind set to zero, if a reset is asked for; all others stand.
unfoldable pub zeroed : String → Bool → Counters → Counters
zeroed prefix reset [] = []
zeroed prefix reset ((name, value) ∷ rest) =
    (name, reset_value reset (parse_traffic_stat_name name prefix) value) ∷ zeroed prefix reset rest

visit-value :
    (reset : Bool) (p : Option (String × Direction)) (value : ℕ) (m : Dict Traffic)
    → (visit reset p value m).1 ≡ reset_value reset p value
unfolding visit
visit-value true none value m = refl
visit-value false none value m = refl
visit-value true (some p) value m = refl
visit-value false (some p) value m = refl

pub visit_counters-zeroed :
    (prefix : String) (reset : Bool) (counters : Counters) (m : Dict Traffic)
    → (visit_counters prefix reset counters m).1 ≡ zeroed prefix reset counters
unfolding visit_counters zeroed
visit_counters-zeroed prefix reset [] m = refl
visit_counters-zeroed prefix reset ((name, value) ∷ rest) m =
    let p = parse_traffic_stat_name name prefix in
    λ i.
      (name, visit-value reset p value m i)
      ∷ visit_counters-zeroed prefix reset rest (visit reset p value m).0 i

-- A query with a reset sets exactly the counters of its own kind to zero; one without changes none.
pub stats_reset :
    (reset : Bool) (counters : Counters)
    → ((users_stats reset counters).1 ≡ zeroed "user" reset counters)
      × ((all_inbound_stats reset counters).1 ≡ zeroed "inbound" reset counters)
      × ((all_outbound_stats reset counters).1 ≡ zeroed "outbound" reset counters)
unfolding users_stats all_inbound_stats all_outbound_stats
stats_reset reset counters = (
  visit_counters-zeroed "user" reset counters [],
  visit_counters-zeroed "inbound" reset counters [],
  visit_counters-zeroed "outbound" reset counters [],
)

-- No name of the totals has traffic.
abbrev IsIdle : Dict Traffic → Type 0
IsIdle [] = Unit
IsIdle ((k, t) ∷ m) = (t.uplink ≡ 0) × (t.downlink ≡ 0) × IsIdle m

with_traffic-IsIdle : (m : Dict Traffic) → IsIdle m → with_traffic m ≡ []
unfolding with_traffic
with_traffic-IsIdle [] h = refl
with_traffic-IsIdle ((k, t) ∷ m) h = simp (h.0, h.1, with_traffic-IsIdle m h.2)

IsIdle-insert :
    (k : String) (t : Traffic) (m : Dict Traffic)
    → t.uplink ≡ 0
    → t.downlink ≡ 0
    → IsIdle m
    → IsIdle (insert k t m)
unfolding insert
IsIdle-insert k t [] u d h = (u, d, tt)
IsIdle-insert k t ((j, w) ∷ m) u d h = elim (Bool-cases (j == k)) [
  | inl e ↦ rw e (u, d, h.2)
  | inr e ↦ rw e (h.0, h.1, IsIdle-insert k t m u d h.2)
]

or_new-idle :
    (k n : String) (m : Dict Traffic)
    → IsIdle m
    → ((or_new n (lookup k m)).uplink ≡ 0) × ((or_new n (lookup k m)).downlink ≡ 0)
unfolding lookup
or_new-idle k n [] h = (refl, refl)
or_new-idle k n ((j, w) ∷ m) h = elim (Bool-cases (j == k)) [
  | inl e ↦ simp e (h.0, h.1)
  | inr e ↦ simp e (or_new-idle k n m h.2)
]

visit-IsIdle :
    (reset : Bool) (p : Option (String × Direction)) (value : ℕ) (m : Dict Traffic)
    → IsIdle m
    → IsIdle (visit reset p (reset_value true p value) m).0
unfolding visit apply_direction
visit-IsIdle reset none value m h = h
visit-IsIdle reset (some (n, uplink)) value m h =
    let old = or_new-idle n n m h in IsIdle-insert n _ m (omega (arith, old)) old.1 h
visit-IsIdle reset (some (n, downlink)) value m h =
    let old = or_new-idle n n m h in IsIdle-insert n _ m old.0 (omega (arith, old)) h

visit_counters-IsIdle :
    (prefix : String) (reset : Bool) (counters : Counters) (m : Dict Traffic)
    → IsIdle m
    → IsIdle (visit_counters prefix reset (zeroed prefix true counters) m).0
unfolding visit_counters zeroed
visit_counters-IsIdle prefix reset [] m h = h
visit_counters-IsIdle prefix reset ((name, value) ∷ rest) m h =
    visit_counters-IsIdle prefix reset rest _
      (visit-IsIdle reset (parse_traffic_stat_name name prefix) value m h)

-- After the users' statistics were read with a reset, reading them again finds no user with
-- traffic, as long as no counter has moved in between.
pub users_stats_after_reset :
    (again : Bool) (counters : Counters) → (users_stats again (users_stats true counters).1).0 ≡ []
unfolding users_stats sort
users_stats_after_reset again counters = rw (
  visit_counters-zeroed "user" true counters [],
  with_traffic-IsIdle _ (visit_counters-IsIdle "user" again counters [] tt),
)
