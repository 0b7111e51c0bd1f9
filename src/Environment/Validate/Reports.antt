-- ===== src/Environment/Validate/Reports.antt =====
-- The list of checks in internal/config/validate.go: when the report has no error.
use Prim.Native.String.{String}
use rw_node_go.Common.{
  ◌&&◌, if◌then◌else◌, ltb, ℕ, Bool, true, false, ◌≡◌, refl, ◌↔◌, ◌≤◌, List, [], ◌∷◌, is_empty,
  Option, none, some, arith, sym, ◌∙◌, inl, inr, Bool-cases,
}
use rw_node_go.Environment.Validate.{PayloadCheck, check, failures, report}

-- Every check of a list is positive.
abbrev pub all_ok : List PayloadCheck → Bool
all_ok [] = true
all_ok (c ∷ checks) = c.is_ok && all_ok checks

failures_iff : (checks : List PayloadCheck) → is_empty (failures checks) ≡ all_ok checks
unfolding failures
failures_iff [] = refl
failures_iff (c ∷ checks) = elim (Bool-cases c.is_ok) [
  | inl e ↦ simp e (failures_iff checks)
  | inr e ↦ simp e refl
]

pub report_iff : (checks : List PayloadCheck) → ((report checks).1 ≡ none) ↔ (all_ok checks ≡ true)
unfolding report
report_iff checks = elim (Bool-cases (is_empty (failures checks))) [
  | inl e ↦ (λ h. sym (failures_iff checks) ∙ e, λ h. simp e refl)
  | inr e ↦ (λ h. cc (simp e at h), λ h. cc (sym (failures_iff checks) ∙ e, h))
]

pub check-ok :
    (name text : String) (o : Option String) → ((check name text o).is_ok ≡ true) ↔ (o ≡ none)
unfolding check
check-ok name text none = (λ h. refl, λ h. refl)
check-ok name text (some e) = (λ h. cc, λ h. cc)

pub window_iff :
    (low high now : ℕ) (early late good : PayloadCheck)
    → early.is_ok ≡ false
    → late.is_ok ≡ false
    → good.is_ok ≡ true
    → ((if ltb now low then early else if ltb high now then late else good).is_ok ≡ true)
      ↔ ((low ≤ now) × (now ≤ high))
window_iff low high now early late good e l g = elim (Bool-cases (ltb now low)) [
  | inl p ↦ simp p (λ h. cc (e, h), λ h. ground arith)
  | inr p ↦ elim (Bool-cases (ltb high now)) [
    | inl q ↦ simp (p, q) (λ h. cc (l, h), λ h. ground arith)
    | inr q ↦ simp (p, q) (λ h. (ground arith, ground arith), λ h. g)
  ]
]

and_split : (a b : Bool) → (a && b) ≡ true → (a ≡ true) × (b ≡ true)
and_split true b h = (refl, h)
and_split false b h = cc h

-- Seven checks that are all positive.
pub seven_ok :
    (a b c d e f g : PayloadCheck)
    → all_ok (a ∷ b ∷ c ∷ d ∷ e ∷ f ∷ g ∷ []) ≡ true
    → (b.is_ok ≡ true)
      × (c.is_ok ≡ true)
      × (d.is_ok ≡ true)
      × (e.is_ok ≡ true)
      × (f.is_ok ≡ true)
      × (g.is_ok ≡ true)
seven_ok a b c d e f g h =
    let (pa, h1) = and_split a.is_ok (all_ok (b ∷ c ∷ d ∷ e ∷ f ∷ g ∷ [])) h in
    let (pb, h2) = and_split b.is_ok (all_ok (c ∷ d ∷ e ∷ f ∷ g ∷ [])) h1 in
    let (pc, h3) = and_split c.is_ok (all_ok (d ∷ e ∷ f ∷ g ∷ [])) h2 in
    let (pd, h4) = and_split d.is_ok (all_ok (e ∷ f ∷ g ∷ [])) h3 in
    let (pe, h5) = and_split e.is_ok (all_ok (f ∷ g ∷ [])) h4 in
    let (pf, h6) = and_split f.is_ok (all_ok (g ∷ [])) h5 in
    let (pg, h7) = and_split g.is_ok true h6 in (pb, pc, pd, pe, pf, pg)
