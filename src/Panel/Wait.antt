-- ===== src/Panel/Wait.antt =====
-- cmd/panel-integration/main.go: the commands that drive a node through the panel. The clock and the
-- wait for the next poll are parameters on the `World`; the log and the usage text are left out. The
-- loop of waitForNode goes on fuel.
use Prim.Native.Char.{Char, code}
use Prim.Native.String.{[], ◌∷◌, ◌++◌}
use rw_node_go.Common.{
  ℕ, zero, suc, ◌+◌, Bool, not, ◌&&◌, ◌||◌, Option, none, some, String, ◌==◌, List, nat_eq, ltb,
  if◌then◌else◌,
}
use rw_node_go.Golang.Strings.{trim_space}
use rw_node_go.Panel.Client.{PanelClient}
use rw_node_go.Panel.Requests.{Tools}
use rw_node_go.Panel.Nodes.{
  NodeStatusSummary, Decoders, is_trimmed_uuid, get_node_status_summary_by_uuid, node_action,
}

-- Nanoseconds: 30 * time.Second and 2 * time.Minute
abbrev pub half_minute : ℕ
half_minute = 30000000000

abbrev pub two_minutes : ℕ
two_minutes = 120000000000

unfoldable pub command_timeout : String → ℕ → ℕ → ℕ
command_timeout command enable_timeout disable_timeout =
    if command == "enable"
    then enable_timeout + half_minute
    else if command == "disable"
    then disable_timeout + half_minute
    else if command == "extended-smoke"
    then two_minutes
    else half_minute

abbrev pub is_separator : Char → Bool
is_separator c = nat_eq (code c) 44 || nat_eq (code c) 10 || nat_eq (code c) 59

abbrev pub with_path : String → List String → List String
with_path field paths = if trim_space field == "" then paths else List.◌∷◌ (trim_space field) paths

-- strings.FieldsFunc: the field that the text begins with, and the paths after it.
unfoldable pub split_fields : String → String × List String
split_fields [] = ([], List.[])
split_fields (c ∷ s) =
    let (field, later) = split_fields s in
    if is_separator c then ([], with_path field later) else (c ∷ field, later)

unfoldable pub split_smoke_paths : String → List String
unfolding split_fields
split_smoke_paths raw = let (field, later) = split_fields raw in with_path field later

-- The clock, and a wait of some nanoseconds that the end of the context interrupts with an error.
pub record Clock (World : Type 0) : Type 0 where
  pub now : World → ℕ
  pub wait : ℕ → World → Option String × World

-- The last status and the error of a wait.
pub record Waited : Type 0 where
  pub current : Option NodeStatusSummary
  pub failure : Option String

module _ {World : Type 0} (t : Tools World) (d : Decoders) (clock : Clock World) where
  abbrev pub after_wait :
      (Option NodeStatusSummary → World → Option (Waited × World))
      → Option NodeStatusSummary
      → Option String × World
      → Option (Waited × World)
  after_wait again last (some e, w) = some (record { current = last; failure = some e }, w)
  after_wait again last (none, w) = again last w

  abbrev pub polled :
      ℕ
      → ℕ
      → (NodeStatusSummary → Bool)
      → (Option NodeStatusSummary → World → Option (Waited × World))
      → NodeStatusSummary
      → World
      → Option (Waited × World)
  polled interval deadline matches again current w =
      if matches current
      then some (record { current = some current; failure = none }, w)
      else if ltb deadline (clock.now w)
      then some (
        record { current = some current; failure = some "timed out waiting for panel node status" },
        w,
      )
      else after_wait again (some current) (clock.wait interval w)

  abbrev pub looked_up :
      String
      → ℕ
      → ℕ
      → (NodeStatusSummary → Bool)
      → (Option NodeStatusSummary → World → Option (Waited × World))
      → Option NodeStatusSummary
      → Option String
      → Option NodeStatusSummary
      → World
      → Option (Waited × World)
  looked_up uuid interval deadline matches again last (some e) found w =
      some (record { current = last; failure = some ("poll panel node " ++ uuid ++ ": " ++ e) }, w)
  looked_up uuid interval deadline matches again last none (some current) w =
      polled interval deadline matches again current w
  looked_up uuid interval deadline matches again last none none w =
      some (record { current = last; failure = some "" }, w)

  unfoldable pub wait_for_node :
      ℕ
      → PanelClient
      → String
      → ℕ
      → ℕ
      → (NodeStatusSummary → Bool)
      → Option NodeStatusSummary
      → World
      → Option (Waited × World)
  unfolding get_node_status_summary_by_uuid
  wait_for_node zero client uuid interval deadline matches last w = none
  wait_for_node (suc n) client uuid interval deadline matches last w =
      let (lookup, w') = get_node_status_summary_by_uuid t d client uuid w in
      looked_up uuid interval deadline matches
        (wait_for_node n client uuid interval deadline matches) last lookup.failure lookup.found w'

-- What the two commands differ in: the action, the words of their errors and the status that is
-- waited for.
pub record Command : Type 0 where
  pub action : String
  pub lookup : String
  pub state : String
  pub matches : NodeStatusSummary → Bool

abbrev pub enable_command : Command
enable_command = record {
  action = "enable";
  lookup = "node enable/connect lookup";
  state = "connected";
  matches = λ s. s.is_connected && not s.is_disabled;
}

abbrev pub disable_command : Command
disable_command = record {
  action = "disable";
  lookup = "node disable lookup";
  state = "disabled";
  matches = λ s. s.is_disabled;
}

module _ {World : Type 0} (t : Tools World) (d : Decoders) (clock : Clock World)
    (describe : NodeStatusSummary → String) where
  abbrev pub not_become : Command → Option NodeStatusSummary → String → String
  not_become command none e = e
  not_become command (some current) e =
      "panel node did not become " ++ command.state ++ ": " ++ describe current ++ ": " ++ e

  abbrev pub waited : Command → Option (Waited × World) → Option (Option String × World)
  waited command none = none
  waited command (some (r, w)) = elim r.failure [
    | none ↦ some (none, w)
    | some e ↦ some (some (not_become command r.current e), w)
  ]

  abbrev pub acted :
      ℕ
      → PanelClient
      → Command
      → String
      → ℕ
      → ℕ
      → Option String
      → World
      → Option (Option String × World)
  acted fuel client command uuid timeout interval (some e) w =
      some (some (command.action ++ " panel node " ++ uuid ++ ": " ++ e), w)
  acted fuel client command uuid timeout interval none w = waited command (
      wait_for_node t d clock fuel client uuid interval (clock.now w + timeout) command.matches none
        w)

  abbrev pub resolved :
      ℕ
      → PanelClient
      → Command
      → ℕ
      → ℕ
      → Option String
      → Option NodeStatusSummary
      → World
      → Option (Option String × World)
  resolved fuel client command timeout interval (some e) found w =
      some (some ("resolve panel node: " ++ e), w)
  resolved fuel client command timeout interval none none w = some (some "", w)
  resolved fuel client command timeout interval none (some summary) w =
      let (lookup, w') = node_action t d client summary.uuid command.action w in
      acted fuel client command summary.uuid timeout interval lookup.failure w'

  -- runEnable and runDisable; `node` is the variable PANEL_NODE_ID.
  unfoldable pub run_command :
      ℕ → PanelClient → Command → String → ℕ → ℕ → World → Option (Option String × World)
  unfolding wait_for_node node_action get_node_status_summary_by_uuid
  run_command fuel client command node timeout interval w =
      let uuid = trim_space node in
      let (lookup, w') = get_node_status_summary_by_uuid t d client uuid w in
      let answer = resolved fuel client command timeout interval lookup.failure lookup.found w' in
      if uuid == ""
      then some (some ("PANEL_NODE_ID is required for " ++ command.lookup), w)
      else if not (is_trimmed_uuid uuid)
      then some (
        some
            "PANEL_NODE_ID must be a full node UUID for enable/disable commands because they modify real Panel node state",
        w,
      )
      else if nat_eq interval 0
      then some (some "poll interval must be positive", w)
      else answer
