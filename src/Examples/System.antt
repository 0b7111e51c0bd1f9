-- ===== src/Examples/System.antt =====
-- The theorem on the default route at concrete inputs.
use rw_node_go.Common.{ℤ, refl, String}
use rw_node_go.Golang.Strings.{split_lines}
use rw_node_go.System.Route.{after_header}
use rw_node_go.System.Route.Least.{default_routes, HasRoute, IsLeast, default_interface_lem}

abbrev table : String
table =
    "header\nwg0 00000000 0 0 0 0 200 0 0 0 0\neth0 00000000 0 0 0 0 100 0 0 0 0\neth1 0000FEA9 0 0 0 0 1 0 0 0 0\n"

default_interface_lem_example :
    (metric : ℤ) × HasRoute ("eth0", metric) (default_routes (after_header (split_lines table)))
    × IsLeast metric (default_routes (after_header (split_lines table)))
unfolding rw_node_go.System.Route.default_interface_from_route split_lines
    rw_node_go.Golang.Strings.fields rw_node_go.Golang.Strings.words
    rw_node_go.Golang.Strings.is_space rw_node_go.Golang.Numbers.parse_int
default_interface_lem_example = default_interface_lem table "eth0" refl
