-- ===== src/Xray/Stats/Kinds.antt =====
-- The three kinds of counters do not get in each other's way.
use rw_node_go.Common.{
  ℕ, ◌≡◌, ◌∙◌, refl, ap, Bool, false, Option, none, some, String, List, [], ◌∷◌, Dict, arith,
  eq_iff, ◌==◌,
}
use rw_node_go.Xray.StatNames.{Direction, split, traffic_parts, parse_traffic_stat_name}
use rw_node_go.Xray.Stats.{
  Counters, Traffic, visit, visit_counters, users_stats, all_inbound_stats, all_outbound_stats,
}
use rw_node_go.Xray.Stats.Reset.{zeroed, reset_value, visit_counters-zeroed}

-- A name that is of one kind is of no other.
traffic_parts-other :
    (parts : List String) (kind other : String) (p : String × Direction)
    → traffic_parts parts kind ≡ some p
    → (kind == other) ≡ false
    → traffic_parts parts other ≡ none
unfolding traffic_parts
traffic_parts-other (p0 ∷ p1 ∷ p2 ∷ p3 ∷ []) kind other p h e =
    ground (arith, eq_iff p0 kind, eq_iff p0 other, eq_iff kind other)
traffic_parts-other [] kind other p h e = refl
traffic_parts-other (p0 ∷ []) kind other p h e = refl
traffic_parts-other (p0 ∷ p1 ∷ []) kind other p h e = refl
traffic_parts-other (p0 ∷ p1 ∷ p2 ∷ []) kind other p h e = refl
traffic_parts-other (p0 ∷ p1 ∷ p2 ∷ p3 ∷ p4 ∷ ps) kind other p h e = refl

-- What a reset does to one counter is not seen by a query of another kind.
visit-reset_value :
    (again reset : Bool) (p q : Option (String × Direction)) (value : ℕ) (m : Dict Traffic)
    → ((x : String × Direction) → p ≡ some x → q ≡ none)
    → (visit again q (reset_value reset p value) m).0 ≡ (visit again q value m).0
unfolding visit
visit-reset_value again reset none q value m h = ground arith
visit-reset_value again reset (some x) q value m h = simp (h x refl) refl

visit_counters-zeroed_other :
    (kind other : String) (again reset : Bool) (counters : Counters) (m : Dict Traffic)
    → (kind == other) ≡ false
    → (visit_counters other again (zeroed kind reset counters) m).0
      ≡ (visit_counters other again counters m).0
unfolding visit_counters zeroed parse_traffic_stat_name
visit_counters-zeroed_other kind other again reset [] m e = refl
visit_counters-zeroed_other kind other again reset ((name, value) ∷ rest) m e =
    let p = parse_traffic_stat_name name kind in
    let q = parse_traffic_stat_name name other in
    visit_counters-zeroed_other kind other again reset rest
      (visit again q (reset_value reset p value) m).0 e
    ∙ ap (λ t. (visit_counters other again rest t).0)
        (visit-reset_value again reset p q value m
          (λ x h. traffic_parts-other (split name) kind other x h e))

-- A query of the users, with a reset or without, changes neither what the next query of the
-- inbounds answers nor what the next one of the outbounds does, and a query of the inbounds does
-- not change what the next ones of the users and of the outbounds answer.
pub kinds_apart :
    (reset again : Bool) (counters : Counters)
    → ((all_inbound_stats again (users_stats reset counters).1).0
        ≡ (all_inbound_stats again counters).0)
      × ((all_outbound_stats again (users_stats reset counters).1).0
          ≡ (all_outbound_stats again counters).0)
      × ((users_stats again (all_inbound_stats reset counters).1).0
          ≡ (users_stats again counters).0)
      × ((all_outbound_stats again (all_inbound_stats reset counters).1).0
          ≡ (all_outbound_stats again counters).0)
unfolding users_stats all_inbound_stats all_outbound_stats
kinds_apart reset again counters =
    let users = visit_counters-zeroed "user" reset counters [] in
    let inbounds = visit_counters-zeroed "inbound" reset counters [] in
    (
      rw (users, visit_counters-zeroed_other "user" "inbound" again reset counters [] refl) refl,
      rw (users, visit_counters-zeroed_other "user" "outbound" again reset counters [] refl) refl,
      rw (inbounds, visit_counters-zeroed_other "inbound" "user" again reset counters [] refl) refl,
      rw (inbounds, visit_counters-zeroed_other "inbound" "outbound" again reset counters [] refl)
          refl,
    )
