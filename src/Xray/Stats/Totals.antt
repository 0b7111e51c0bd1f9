-- ===== src/Xray/Stats/Totals.antt =====
-- The totals of a traffic query against a sum over the counters.
use Prim.Native.Nat.{◌%◌}
use rw_node_go.Common.{
  ℕ, ◌+◌, ◌<◌, Bool-cases, inl, inr, ◌≡◌, refl, Bool, true, false, ◌&&◌, Option, none, some, String,
  [], ◌∷◌, Dict, lookup, lookup-insert, arith, eq_iff, eq_refl, ◌==◌, if◌then◌else◌,
}
use rw_node_go.Xray.StatNames.{Direction, uplink, downlink, parse_traffic_stat_name}
use rw_node_go.Xray.Stats.{
  int64_mod, add64, Counters, Traffic, apply_direction, or_new, visit, visit_counters,
}

abbrev same_direction : Direction → Direction → Bool
same_direction uplink uplink = true
same_direction downlink downlink = true
same_direction _ _ = false

-- What one counter contributes to the total of a name in a direction.
abbrev share : Option (String × Direction) → ℕ → String → Direction → ℕ
share none value name d = 0
share (some (n, e)) value name d = if n == name && same_direction e d then value else 0

-- The plain sum of the counters of a name in a direction.
unfoldable pub counted : String → Counters → String → Direction → ℕ
counted prefix [] name d = 0
counted prefix ((n, value) ∷ rest) name d =
    share (parse_traffic_stat_name n prefix) value name d + counted prefix rest name d

abbrev pub total : Direction → Traffic → ℕ
total uplink t = t.uplink
total downlink t = t.downlink

abbrev pub total_of : Direction → Option Traffic → ℕ
total_of d none = 0
total_of d (some t) = total d t

total-apply :
    (e d : Direction) (value : ℕ) (t : Traffic)
    → total d (apply_direction e value t)
      ≡ (if same_direction e d then add64 (total d t) value else total d t)
unfolding apply_direction
total-apply uplink uplink value t = refl
total-apply uplink downlink value t = refl
total-apply downlink uplink value t = refl
total-apply downlink downlink value t = refl

total-or_new :
    (d : Direction) (n : String) (o : Option Traffic) → total d (or_new n o) ≡ total_of d o
total-or_new uplink n none = refl
total-or_new downlink n none = refl
total-or_new d n (some t) = refl

total-visit :
    (reset : Bool) (p : Option (String × Direction)) (value : ℕ) (m : Dict Traffic) (name : String)
    (d : Direction)
    → total_of d (lookup name m) < int64_mod
    → total_of d (lookup name (visit reset p value m).0)
      ≡ (total_of d (lookup name m) + share p value name d) % int64_mod
unfolding visit
total-visit reset none value m name d h = omega arith
total-visit reset (some (n, e)) value m name d h = elim (Bool-cases (n == name)) [
  | inr q ↦ simp (lookup-insert, q) (omega arith)
  | inl q ↦
      simp (lookup-insert, (eq_iff n name).0 q)
        (ground (
          arith,
          eq_refl name,
          total-apply e d value (or_new name (lookup name m)),
          total-or_new d name (lookup name m),
        ))
]

visit_counters-from :
    (prefix : String) (reset : Bool) (counters : Counters) (m : Dict Traffic) (name : String)
    (d : Direction)
    → total_of d (lookup name m) < int64_mod
    → total_of d (lookup name (visit_counters prefix reset counters m).0)
      ≡ (total_of d (lookup name m) + counted prefix counters name d) % int64_mod
unfolding visit_counters counted
visit_counters-from prefix reset [] m name d h = omega arith
visit_counters-from prefix reset ((n, value) ∷ rest) m name d h =
    let p = parse_traffic_stat_name n prefix in
    let here = total-visit reset p value m name d h in
    omega (
      arith,
      here,
      visit_counters-from prefix reset rest (visit reset p value m).0 name d (omega (arith, here)),
    )

-- For every name and direction a query counts the sum of the counters that are parsed to them,
-- modulo 2 ^ 64.
pub visit_counters-counted :
    (prefix : String) (reset : Bool) (counters : Counters) (name : String) (d : Direction)
    → total_of d (lookup name (visit_counters prefix reset counters []).0)
      ≡ counted prefix counters name d % int64_mod
unfolding lookup
visit_counters-counted prefix reset counters name d =
    omega (arith, visit_counters-from prefix reset counters [] name d (omega arith))
