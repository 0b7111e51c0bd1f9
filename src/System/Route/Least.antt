-- ===== src/System/Route/Least.antt =====
-- Which default route defaultInterfaceFromRoute of internal/system/stats.go picks.
use mathlib.Core.Path.{subst}
use rw_node_go.Common.{
  sym, ap, ◌∙◌, inl, inr, String, int_lt, pos, negsuc, refl, ◌≡◌, ◌≢◌, true, false, ◌||◌, none,
  some, Option-cases, Bool-cases, ◌==◌, eq_iff, arith, length, ◌<◌, ok, ℤ, ◌⊎◌, List, [], ◌∷◌, All,
  Option,
}
use rw_node_go.Golang.Strings.{words, fields, with_field, is_space, split_lines}
use rw_node_go.System.Route.{
  default_route, better, best_route, item, after_header, default_interface_from_route,
}

-- The default routes among the lines.
abbrev pub some_first {ℓ} : {A : Type ℓ} → Option A → List A → List A
some_first none rest = rest
some_first (some a) rest = a ∷ rest

unfoldable pub default_routes : List String → List (String × ℤ)
default_routes [] = []
default_routes (line ∷ lines) = some_first (default_route line) (default_routes lines)

-- A pair stands in a list.
abbrev pub HasRoute : String × ℤ → List (String × ℤ) → Type 0
HasRoute r [] = ⊥
HasRoute r (q ∷ qs) = (q ≡ r) ⊎ HasRoute r qs

int_le_trans : (a b c : ℤ) → int_lt b a ≡ false → int_lt c b ≡ false → int_lt c a ≡ false
int_le_trans (pos a) (pos b) (pos c) p q = ground arith
int_le_trans (pos a) (pos b) (negsuc c) p q = ground arith
int_le_trans (pos a) (negsuc b) c p q = cc
int_le_trans (negsuc a) (pos b) (pos c) p q = refl
int_le_trans (negsuc a) (pos b) (negsuc c) p q = cc
int_le_trans (negsuc a) (negsuc b) (pos c) p q = refl
int_le_trans (negsuc a) (negsuc b) (negsuc c) p q = ground arith

int_le_total : (a b : ℤ) → int_lt a b ≡ true → int_lt b a ≡ false
int_le_total (pos a) (pos b) h = ground arith
int_le_total (pos a) (negsuc b) h = cc
int_le_total (negsuc a) (pos b) h = refl
int_le_total (negsuc a) (negsuc b) h = ground arith

int_le_refl : (a : ℤ) → int_lt a a ≡ false
int_le_refl (pos a) = ground arith
int_le_refl (negsuc a) = ground arith

-- No route of the list has a lower metric.
abbrev pub IsLeast : ℤ → List (String × ℤ) → Type 0
IsLeast metric = All (λ r. int_lt r.1 metric ≡ false)

with_field_filled :
    (word : String) (later : List String)
    → All (λ f. f ≢ "") later
    → All (λ f. f ≢ "") (with_field word later)
with_field_filled String.[] later h = h
with_field_filled (String.◌∷◌ c s) later h = (λ e. cc e, h)

words_filled : (s : String) → All (λ f. f ≢ "") (words s).1
unfolding words
words_filled String.[] = tt
words_filled (String.◌∷◌ c s) = elim (Bool-cases (is_space c)) [
  | inl e ↦ rw e (with_field_filled (words s).0 (words s).1 (words_filled s))
  | inr e ↦ rw e (words_filled s)
]

first_filled :
    (columns : List String) → All (λ f. f ≢ "") columns → 0 < length columns → item 0 columns ≢ ""
first_filled [] h l = ground arith
first_filled (x ∷ xs) h l = h.0

-- The interface of a default route has a name.
named : (line name : String) (metric : ℤ) → default_route line ≡ some (name, metric) → name ≢ ""
unfolding default_route fields
named line name metric h e =
    let columns = fields line in
    let filled = with_field_filled (words line).0 (words line).1 (words_filled line) in
    first_filled columns filled (ground arith) (ground arith)

named_routes : (lines : List String) → All (λ r. r.0 ≢ "") (default_routes lines)
unfolding default_routes
named_routes [] = tt
named_routes (line ∷ lines) = elim (Option-cases (default_route line)) [
  | inl e ↦ rw e (named_routes lines)
  | inr (r, e) ↦ rw e (named line r.0 r.1 e, named_routes lines)
]

-- The loop over the default routes alone.
unfoldable fold_best : String × ℤ → List (String × ℤ) → String × ℤ
unfolding better
fold_best best [] = best
fold_best best (r ∷ rs) = fold_best (better (some r) best) rs

fold_step :
    (o : Option (String × ℤ)) (best : String × ℤ) (rs : List (String × ℤ))
    → fold_best (better o best) rs ≡ fold_best best (some_first o rs)
unfolding fold_best better
fold_step none best rs = refl
fold_step (some r) best rs = refl

best_route-fold :
    (best : String × ℤ) (lines : List String)
    → best_route best lines ≡ fold_best best (default_routes lines)
unfolding best_route default_routes fold_best
best_route-fold best [] = refl
best_route-fold best (line ∷ lines) =
    best_route-fold (better (default_route line) best) lines
    ∙ fold_step (default_route line) best (default_routes lines)

fold_taken :
    (best r : String × ℤ) (rs : List (String × ℤ))
    → (best.0 == "" || int_lt r.1 best.1) ≡ true
    → fold_best best (r ∷ rs) ≡ fold_best r rs
unfolding fold_best better
fold_taken best r rs g = rw g refl

fold_kept :
    (best r : String × ℤ) (rs : List (String × ℤ))
    → (best.0 == "" || int_lt r.1 best.1) ≡ false
    → fold_best best (r ∷ rs) ≡ fold_best best rs
unfolding fold_best better
fold_kept best r rs g = rw g refl

fold_end : (best : String × ℤ) → fold_best best [] ≡ best
unfolding fold_best
fold_end best = refl

-- The route stands among the others, and none has a lower metric.
abbrev pub Picks : String × ℤ → List (String × ℤ) → Type 0
Picks r rs = HasRoute r rs × IsLeast r.1 rs

-- The pick among routes that have names, from one that has.
pick_from :
    (best : String × ℤ) (rs : List (String × ℤ))
    → best.0 ≢ ""
    → All (λ r. r.0 ≢ "") rs
    → Picks (fold_best best rs) (best ∷ rs)
pick_from best [] h a =
    subst (λ p. Picks p (best ∷ [])) (sym (fold_end best)) (inl refl, (int_le_refl best.1, tt))
pick_from best (r ∷ rs) h a = elim (Bool-cases (best.0 == "" || int_lt r.1 best.1)) [
  | inl g ↦
      let (stands, least) = pick_from r rs a.0 a.1 in
      let lower = int_le_total r.1 best.1 (ground (arith, eq_iff best.0 "")) in
      subst (λ p. Picks p (best ∷ r ∷ rs)) (sym (fold_taken best r rs g))
        (inr stands, (int_le_trans (fold_best r rs).1 r.1 best.1 least.0 lower, least))
  | inr g ↦
      let (stands, least) = pick_from best rs h a.1 in
      let lower : int_lt r.1 best.1 ≡ false = ground (arith, eq_iff best.0 "") in
      subst (λ p. Picks p (best ∷ r ∷ rs)) (sym (fold_kept best r rs g))
        (
          elim stands [ inl q ↦ inl q | inr q ↦ inr (inr q) ],
          (least.0, (int_le_trans (fold_best best rs).1 best.1 r.1 least.0 lower, least.1)),
        )
]

pick_first :
    (rs : List (String × ℤ))
    → All (λ r. r.0 ≢ "") rs
    → (fold_best ("", pos 0) rs).0 ≢ ""
    → Picks (fold_best ("", pos 0) rs) rs
pick_first [] a h = elim (h (ap (λ p. p.0) (fold_end ("", pos 0)))) [ ]
pick_first (r ∷ rs) a h =
    subst (λ p. Picks p (r ∷ rs)) (sym (fold_taken ("", pos 0) r rs refl)) (pick_from r rs a.0 a.1)

-- The default interface is that of a default route of the table, and no default route of the table
-- has a lower metric.
pub default_interface_lem :
    (text name : String)
    → default_interface_from_route text ≡ ok name
    → (metric : ℤ) × HasRoute (name, metric) (default_routes (after_header (split_lines text)))
      × IsLeast metric (default_routes (after_header (split_lines text)))
unfolding default_interface_from_route
default_interface_lem text name h =
    let lines = after_header (split_lines text) in
    let best = best_route ("", pos 0) lines in
    let filled : best.0 ≢ "" = λ e. ground (arith, eq_iff best.0 "") in
    let same : best.0 ≡ name = ground arith in
    let (stands, least) =
      pick_first (default_routes lines) (named_routes lines)
        (λ e. filled (ap (λ r. r.0) (best_route-fold ("", pos 0) lines) ∙ e)) in
    (
      best.1,
      rw (← same) (rw (best_route-fold ("", pos 0) lines) stands),
      rw (best_route-fold ("", pos 0) lines) least,
    )
