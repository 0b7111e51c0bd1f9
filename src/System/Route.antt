-- ===== src/System/Route.antt =====
-- defaultInterfaceFromRoute of internal/system/stats.go and HasNetAdmin of
-- internal/system/netadmin.go, over the text of the files that they read.
pub mod Least
use Prim.Native.Nat.{◌/◌, ◌%◌}
use Prim.Native.Char.{Char}
use Prim.Native.String.{◌++◌}
use rw_node_go.Common.{
  ℕ, zero, suc, ℤ, pos, negsuc, int_lt, Bool, true, false, not, ◌||◌, ◌≡◌, refl, ◌≢◌, ◌⊎◌, inl, inr,
  String, List, [], ◌∷◌, All, length, ltb, nat_eq, ◌==◌, eq_iff, if◌then◌else◌, Option, none, some,
  Result, ok, err, arith, Bool-cases, Option-cases,
}
use rw_node_go.Golang.Strings.{fields, words, with_field, split_lines, has_prefix, is_space}
use rw_node_go.Golang.Numbers.{parse_int, parse_hex}

abbrev pub route_default_destination : String
route_default_destination = "00000000"

abbrev pub route_field_count : ℕ
route_field_count = 11

abbrev pub route_metric_field : ℕ
route_metric_field = 6

abbrev pub cap_net_admin : ℕ
cap_net_admin = 12

-- xs[n], which the code only reads within the length.
abbrev pub item : ℕ → List String → String
item n [] = ""
item zero (x ∷ xs) = x
item (suc n) (x ∷ xs) = item n xs

abbrev pub metric_of : Result ℤ → ℤ
metric_of (ok metric) = metric
metric_of (err e) = pos 0

-- The interface and the metric of a line that is a default route.
unfoldable pub default_route : String → Option (String × ℤ)
default_route line =
    let columns = fields line in
    if ltb (length columns) route_field_count
    then none
    else if not (item 1 columns == route_default_destination)
    then none
    else some
        (item 0 columns, metric_of (parse_int (λ s. s) "Atoi" (item route_metric_field columns)))

-- One line: the interface and the metric that are the best so far.
unfoldable pub better : Option (String × ℤ) → String × ℤ → String × ℤ
better none best = best
better (some (interface, metric)) (best_interface, best_metric) =
    if best_interface == "" || int_lt metric best_metric
    then (interface, metric)
    else (best_interface, best_metric)

unfoldable pub best_route : String × ℤ → List String → String × ℤ
unfolding default_route better
best_route best [] = best
best_route best (line ∷ lines) = best_route (better (default_route line) best) lines

abbrev pub after_header : List String → List String
after_header [] = []
after_header (line ∷ lines) = lines

unfoldable pub default_interface_from_route : String → Result String
unfolding best_route
default_interface_from_route text =
    let (interface, metric) = best_route ("", pos 0) (after_header (split_lines text)) in
    if interface == "" then err "default route not found" else ok interface

abbrev pub has_bit : Option ℕ → Bool
has_bit none = false
has_bit (some value) = not (nat_eq ((value / 4096) % 2) 0)

unfoldable pub net_admin_line : List String → Bool
net_admin_line columns =
    if not (nat_eq (length columns) 2) then false else has_bit (parse_hex (item 1 columns))

unfoldable pub net_admin_lines : List String → Bool
unfolding net_admin_line
net_admin_lines [] = false
net_admin_lines (line ∷ lines) =
    let later = net_admin_lines lines in
    if not (has_prefix line "CapEff:") then later else net_admin_line (fields line)

-- The operating system and what reading /proc/self/status gives.
unfoldable pub has_net_admin : String → Result String → Bool
unfolding net_admin_lines
has_net_admin goos (err e) = false
has_net_admin goos (ok status) =
    if not (goos == "linux") then false else net_admin_lines (split_lines status)
