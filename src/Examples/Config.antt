-- ===== src/Examples/Config.antt =====
-- The theorems on the configuration builder at concrete inputs.
use rw_node_go.Common.{◌≡◌, refl, true, ◌↔◌, ◌⊎◌, some, IsOk}
use rw_node_go.Json.{bool, get}
use rw_node_go.Xray.Config.{api_tag, api_inbound_tag, build, instrument, has_tag, has_tagged_item}
use rw_node_go.Xray.Config.Tags.{Takes, build_accepts_iff}
use rw_node_go.Xray.Config.Policy.{level0_of, level_of, system_of, build_policy}
use rw_node_go.Examples.Fixtures.{config, with_port}

build_accepts_iff_example :
    IsOk (build with_port config) ↔ (¬ (Takes config api_tag ⊎ Takes config api_inbound_tag))
build_accepts_iff_example = build_accepts_iff with_port config

build_policy_example :
    (get "statsUserOnline" (level0_of (instrument with_port config)) ≡ some (bool true))
    × (level_of "statsUserOnline" (instrument with_port config) ≡ level_of "statsUserOnline" config)
    × (get "statsUserOnline" (system_of (instrument with_port config))
        ≡ get "statsUserOnline" (system_of config))
unfolding build has_tag has_tagged_item get
build_policy_example =
    build_policy with_port config (instrument with_port config) "statsUserOnline" refl
