-- ===== src/Xray/Routing.antt =====
-- internal/xray/routing.go: the rules that are added to and removed from the router of the running
-- core. net.ParseIP and the router of xray-core are parameters; `quote` is the verb %q.
use Prim.Native.String.{◌++◌}
use rw_node_go.Common.{ℕ, ◌||◌, String, List, Option, none, some, if◌then◌else◌}
use rw_node_go.Golang.Strings.{contains}

-- net.IP: its form of four bytes, if it has one, and that of sixteen.
pub record Ip : Type 0 where
  pub to4 : Option (List ℕ)
  pub to16 : List ℕ

-- router.RoutingRule, as it is filled.
pub record Rule : Type 0 where
  pub rule_tag : String
  pub target_tag : String
  pub cidr_ip : List ℕ
  pub cidr_prefix : ℕ

-- What the instance of the core gives for the type of a router.
pub data Feature : Type 0 where
  no_instance : Feature
  no_feature : Feature
  no_dynamic_rules : Feature
  dynamic_router : Feature

abbrev pub cidr_of : Option (List ℕ) → List ℕ → List ℕ × ℕ
cidr_of (some four) sixteen = (four, 32)
cidr_of none sixteen = (sixteen, 128)

unfoldable pub routing_cidr : Ip → List ℕ × ℕ
routing_cidr ip = cidr_of ip.to4 ip.to16

unfoldable pub router : Feature → Option String
router no_instance = some "xray is not running"
router no_feature = some "xray routing feature is unavailable"
router no_dynamic_rules = some "xray routing feature does not support dynamic rules"
router dynamic_router = none

module _ (World : Type 0) (feature : World → Feature) (parse_ip : String → Option Ip)
    (quote : String → String) (add_rule : Rule → World → Option String × World)
    (remove : String → World → Option String × World) where
  abbrev pub add_failure : String → Option String × World → Option String × World
  add_failure rule_tag (none, w) = (none, w)
  add_failure rule_tag (some e, w) =
      (some ("add xray routing rule " ++ quote rule_tag ++ ": " ++ e), w)

  abbrev pub add_parsed : String → String → String → Option Ip → World → Option String × World
  add_parsed rule_tag source_ip outbound_tag none w =
      (some ("invalid IP address: " ++ source_ip), w)
  add_parsed rule_tag source_ip outbound_tag (some ip) w =
      let (bytes, prefix) = routing_cidr ip in
      let rule : Rule = record {
        rule_tag = rule_tag;
        target_tag = outbound_tag;
        cidr_ip = bytes;
        cidr_prefix = prefix;
      } in
      add_failure rule_tag (add_rule rule w)

  abbrev pub add_routed : Option String → String → String → String → World → Option String × World
  add_routed (some e) rule_tag source_ip outbound_tag w = (some e, w)
  add_routed none rule_tag source_ip outbound_tag w =
      add_parsed rule_tag source_ip outbound_tag (parse_ip source_ip) w

  unfoldable pub add_source_ip_rule : String → String → String → World → Option String × World
  unfolding router routing_cidr
  add_source_ip_rule rule_tag source_ip outbound_tag w =
      add_routed (router (feature w)) rule_tag source_ip outbound_tag w

  -- A rule that is not there, or has no tag, is no error.
  abbrev pub remove_failure : String → Option String × World → Option String × World
  remove_failure rule_tag (none, w) = (none, w)
  remove_failure rule_tag (some e, w) =
      if contains e "not found" || contains e "empty tag"
      then (none, w)
      else (some ("remove xray routing rule " ++ quote rule_tag ++ ": " ++ e), w)

  abbrev pub remove_routed : Option String → String → World → Option String × World
  remove_routed (some e) rule_tag w = (some e, w)
  remove_routed none rule_tag w = remove_failure rule_tag (remove rule_tag w)

  unfoldable pub remove_rule : String → World → Option String × World
  unfolding router contains
  remove_rule rule_tag w = remove_routed (router (feature w)) rule_tag w
