-- ===== src/Panel/Smoke.antt =====
-- cmd/panel-integration/main.go: the commands that only read. The log is left out.
use Prim.Native.String.{◌++◌}
use rw_node_go.Common.{Option, none, some, String, ◌==◌, List, [], ◌∷◌, if◌then◌else◌}
use rw_node_go.Golang.Strings.{trim_space}
use rw_node_go.Panel.Client.{PanelClient, PanelResponse}
use rw_node_go.Panel.Requests.{Tools, get_request}
use rw_node_go.Panel.Nodes.{Decoders, get_node_status_summary_by_hint}
use rw_node_go.Panel.Wait.{split_smoke_paths}

module _ {World : Type 0} (t : Tools World) where
  -- fmt.Errorf("prefix: %w", err) of an error, if there is one
  abbrev pub described :
      String → (Option PanelResponse × Option String) × World → Option String × World
  described prefix ((response, none), w) = (none, w)
  described prefix ((response, some e), w) = (some (prefix ++ e), w)

  unfoldable pub run_smoke : PanelClient → String → World → Option String × World
  run_smoke client smoke_path w =
      let path = trim_space smoke_path in
      described "panel smoke request failed: "
        (get_request t client (if path == "" then "/api/system/metadata" else path) w)

  abbrev pub unless_failed :
      (World → Option String × World) → Option String × World → Option String × World
  unless_failed next (some e, w) = (some e, w)
  unless_failed next (none, w) = next w

  unfoldable pub smoke_paths : PanelClient → List String → World → Option String × World
  smoke_paths client [] w = (none, w)
  smoke_paths client (path ∷ paths) w = unless_failed (smoke_paths client paths) (
      described ("panel extended smoke request " ++ path ++ " failed: ")
        (get_request t client path w))

  unfoldable pub run_extended_smoke : PanelClient → String → World → Option String × World
  unfolding smoke_paths
  run_extended_smoke client raw w =
      if trim_space raw == ""
      then (none, w)
      else smoke_paths client (split_smoke_paths (trim_space raw)) w

  unfoldable pub run_node : Decoders → PanelClient → String → World → Option String × World
  run_node d client node w =
      let hint = trim_space node in
      let (lookup, w') = get_node_status_summary_by_hint t d client hint w in
      if hint == ""
      then (some "PANEL_NODE_ID is required for node status lookup", w)
      else described "panel node status lookup failed: " ((lookup.response, lookup.failure), w')
