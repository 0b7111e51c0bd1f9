-- ===== src/Controller/Lifecycle/Logged.antt =====
-- What internal/controller/xray_controller.go reads off a configuration for its log.
use rw_node_go.Common.{◌≡◌, ℕ, ◌+◌, Bool, true, false, Option, none, some, String, ok, arith}
use rw_node_go.Json.{Value, bool, Items, nil, cons, Fields, get, get-put, as_map, as_array}
use rw_node_go.Xray.Config.{ConfigBuilder, build, instrument, with_level0}
use rw_node_go.Xray.Config.Tags.{build-ok}

unfoldable items_len : Items → ℕ
items_len nil = 0
items_len (cons v xs) = 1 + items_len xs

abbrev len_of : Option Items → ℕ
len_of none = 0
len_of (some xs) = items_len xs

unfoldable pub array_len : Option Value → ℕ
unfolding items_len
array_len v = len_of (as_array v)

abbrev has : Option Fields → Bool
has none = false
has (some m) = true

unfoldable pub has_map : Option Value → Bool
has_map v = has (as_map v)

abbrev rules_len : Option Fields → ℕ
rules_len none = 0
rules_len (some routing) = array_len (get "rules" routing)

unfoldable pub routing_rules_len : Fields → ℕ
routing_rules_len config = rules_len (as_map (get "routing" config))

-- v.(map[string]any)[key], nil where the assertion fails.
abbrev at : Option Fields → String → Option Value
at none k = none
at (some m) k = get k m

abbrev is_true : Option Value → Bool
is_true (some (bool b)) = b
is_true _ = false

unfoldable pub stats_user_online_enabled : Fields → Bool
stats_user_online_enabled config =
    is_true
      (at (as_map (at (as_map (at (as_map (get "policy" config)) "levels")) "0")) "statsUserOnline")

enabled-instrument :
    (b : ConfigBuilder) (config : Fields)
    → stats_user_online_enabled (instrument b config) ≡ b.stats_user_online
unfolding instrument with_level0 stats_user_online_enabled
enabled-instrument b config = simp get-put (ground arith)

-- Of every configuration that the builder accepts, the log tells that the online statistics are
-- enabled just when the builder was told to enable them.
pub enabled-build :
    (b : ConfigBuilder) (config d : Fields)
    → build b config ≡ ok d
    → stats_user_online_enabled d ≡ b.stats_user_online
enabled-build b config d h = rw (← build-ok b config d h) (enabled-instrument b config)
