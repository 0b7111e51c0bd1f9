-- ===== src/Panel/Nodes.antt =====
-- internal/testkit/panel_client.go: the nodes of the panel and their status. The decoders of the two
-- shapes of an answer are parameters: the field `response` as one object, or as a list of them.
use Prim.Native.Char.{Char, code}
use Prim.Native.String.{[], ◌∷◌, ◌++◌}
use rw_node_go.Common.{
  ℕ, zero, suc, Bool, true, false, not, ◌&&◌, ◌||◌, Option, none, some, String, ◌==◌, List, Result,
  ok, err, nat_eq, leb, if◌then◌else◌, map,
}
use rw_node_go.Golang.Strings.{trim_space, to_lower, contains, is_blank}
use rw_node_go.Json.{Value, bool, Fields, get, text_or_empty}
use rw_node_go.Http.Body.{Bytes}
use rw_node_go.Http.Tokens.{equal_fold}
use rw_node_go.Panel.Client.{PanelClient, PanelResponse}
use rw_node_go.Panel.Requests.{Tools, get_request, post_request}

pub record NodeStatusSummary : Type 0 where
  pub uuid : String
  pub name : String
  pub address : String
  pub port : Option Value
  pub is_connected : Bool
  pub is_connecting : Bool
  pub is_disabled : Bool
  pub last_status_change : Option Value
  pub last_status_message : Option Value
  pub country_code : String

-- boolValue
abbrev pub true_value : Option Value → Bool
true_value (some (bool b)) = b
true_value _ = false

unfoldable pub node_status_summary_from_map : Fields → NodeStatusSummary
unfolding get
node_status_summary_from_map item = record {
  uuid = text_or_empty (get "uuid" item);
  name = text_or_empty (get "name" item);
  address = text_or_empty (get "address" item);
  port = get "port" item;
  is_connected = true_value (get "isConnected" item);
  is_connecting = true_value (get "isConnecting" item);
  is_disabled = true_value (get "isDisabled" item);
  last_status_change = get "lastStatusChange" item;
  last_status_message = get "lastStatusMessage" item;
  country_code = text_or_empty (get "countryCode" item);
}

unfoldable pub is_hex : Char → Bool
is_hex c =
    (leb 48 (code c) && leb (code c) 57)
    || (leb 65 (code c) && leb (code c) 70)
    || (leb 97 (code c) && leb (code c) 102)

-- The rest after n hexadecimal digits, and after a dash.
unfoldable pub after_hex : ℕ → String → Option String
unfolding is_hex
after_hex zero s = some s
after_hex (suc n) [] = none
after_hex (suc n) (c ∷ s) = let rest = after_hex n s in if is_hex c then rest else none

abbrev pub after_dash : Option String → Option String
after_dash (some (c ∷ s)) = if nat_eq (code c) 45 then some s else none
after_dash _ = none

abbrev pub hex_after : ℕ → Option String → Option String
hex_after n none = none
hex_after n (some s) = after_hex n s

abbrev pub is_end : Option String → Bool
is_end none = false
is_end (some s) = is_blank s

-- isUUID: uuidPattern
unfoldable pub is_uuid : String → Bool
unfolding after_hex
is_uuid s =
    let first = after_dash (after_hex 8 s) in
    let second = after_dash (hex_after 4 first) in
    let third = after_dash (hex_after 4 second) in
    let fourth = after_dash (hex_after 4 third) in is_end (hex_after 12 fourth)

-- IsUUID
abbrev pub is_trimmed_uuid : String → Bool
is_trimmed_uuid s = is_uuid (trim_space s)

module _ (other : Char → Char) where
  unfoldable pub node_summary_matches_hint : NodeStatusSummary → String → Bool
  unfolding equal_fold contains to_lower
  node_summary_matches_hint summary hint =
      if hint == ""
      then false
      else if equal_fold other summary.uuid hint
          || equal_fold other summary.name hint
          || equal_fold other summary.address hint
      then true
      else if contains (to_lower other summary.uuid) hint
      then true
      else if contains (to_lower other summary.name) hint
      then true
      else if contains (to_lower other summary.address) hint
      then true
      else false

  unfoldable pub matching : List NodeStatusSummary → String → List NodeStatusSummary
  unfolding node_summary_matches_hint
  matching List.[] hint = List.[]
  matching (List.◌∷◌ summary summaries) hint =
      let rest = matching summaries hint in
      if node_summary_matches_hint summary hint then List.◌∷◌ summary rest else rest

-- A summary or none, the response that the panel gave or none, and an error or none.
pub record Lookup (A : Type 0) : Type 0 where
  pub found : Option A
  pub response : Option PanelResponse
  pub failure : Option String

abbrev pub refusal : {A : Type 0} → Option PanelResponse → String → Lookup A
refusal response e = record { found = none; response = response; failure = some e }

abbrev pub finding : {A : Type 0} → Option PanelResponse → A → Lookup A
finding response a = record { found = some a; response = response; failure = none }

-- The decoders, and the encoders of a path segment and of a quoted text.
pub record Decoders : Type 0 where
  pub nodes_of : Bytes → Result (List Fields)
  pub node_of : Bytes → Result Fields
  pub path_escape : String → String
  pub quote : String → String

module _ {World : Type 0} (t : Tools World) (d : Decoders) where
  -- What a call answers when it has an error; a call without an error has a response.
  abbrev pub answered :
      {A : Type 0}
      → (PanelResponse → Lookup A)
      → (Option PanelResponse × Option String) × World
      → Lookup A × World
  answered next ((response, some e), w) = (refusal response e, w)
  answered next ((none, none), w) = (refusal none "", w)
  answered next ((some response, none), w) = (next response, w)

  abbrev pub decoded_nodes : PanelResponse → Lookup (List NodeStatusSummary)
  decoded_nodes response = elim (d.nodes_of response.body) [
    | err e ↦ refusal (some response) ("decode panel nodes response: " ++ e)
    | ok items ↦ finding (some response) (map node_status_summary_from_map items)
  ]

  unfoldable pub get_node_status_summary :
      PanelClient → World → Lookup (List NodeStatusSummary) × World
  unfolding node_status_summary_from_map
  get_node_status_summary client w = answered decoded_nodes (get_request t client "/api/nodes" w)

  -- A node that has none of the three names is not one.
  abbrev pub named : String → PanelResponse → NodeStatusSummary → Lookup NodeStatusSummary
  named what response summary =
      if summary.uuid == "" && summary.name == "" && summary.address == ""
      then refusal (some response) ("panel node" ++ what ++ " response missing expected fields")
      else finding (some response) summary

  abbrev pub decoded_node : String → PanelResponse → Lookup NodeStatusSummary
  decoded_node what response = elim (d.node_of response.body) [
    | err e ↦ refusal (some response) ("decode panel node" ++ what ++ " response: " ++ e)
    | ok item ↦ named what response (node_status_summary_from_map item)
  ]

  unfoldable pub get_node_status_summary_by_uuid :
      PanelClient → String → World → Lookup NodeStatusSummary × World
  unfolding is_uuid node_status_summary_from_map
  get_node_status_summary_by_uuid client uuid w =
      let node = trim_space uuid in
      if node == ""
      then (refusal none "panel node uuid is required", w)
      else if not (is_uuid node)
      then (refusal none ("panel node uuid must be a valid uuid: " ++ d.quote node), w)
      else answered (decoded_node "") (get_request t client ("/api/nodes/" ++ d.path_escape node) w)

  -- enable and disable
  unfoldable pub node_action :
      PanelClient → String → String → World → Lookup NodeStatusSummary × World
  unfolding is_uuid node_status_summary_from_map
  node_action client uuid action w =
      let node = trim_space uuid in
      if node == ""
      then (refusal none "panel node uuid is required", w)
      else if not (is_uuid node)
      then (refusal none ("panel node uuid must be a valid uuid: " ++ d.quote node), w)
      else answered (decoded_node (" " ++ action)) (
          post_request t client ("/api/nodes/" ++ d.path_escape node ++ "/actions/" ++ action) none
            w)

  abbrev pub one_match :
      String → Option PanelResponse → List NodeStatusSummary → Lookup NodeStatusSummary
  one_match hint response List.[] = refusal response ("no panel node matched hint " ++ d.quote hint)
  one_match hint response (List.◌∷◌ summary List.[]) = finding response summary
  one_match hint response _ =
      refusal response ("multiple panel nodes matched hint " ++ d.quote hint)

  abbrev pub hinted_nodes :
      String
      → Option PanelResponse
      → Option String
      → Option (List NodeStatusSummary)
      → Lookup NodeStatusSummary
  hinted_nodes hint response (some e) nodes = refusal response e
  hinted_nodes hint response none none = refusal response ""
  hinted_nodes hint response none (some nodes) =
      one_match hint response (matching t.other nodes (to_lower t.other hint))

  abbrev pub hinted :
      String → Lookup (List NodeStatusSummary) × World → Lookup NodeStatusSummary × World
  hinted hint (nodes, w) = (hinted_nodes hint nodes.response nodes.failure nodes.found, w)

  unfoldable pub get_node_status_summary_by_hint :
      PanelClient → String → World → Lookup NodeStatusSummary × World
  unfolding is_uuid matching get_node_status_summary get_node_status_summary_by_uuid
  get_node_status_summary_by_hint client hint w =
      let node = trim_space hint in
      if node == ""
      then (refusal none "panel node hint is required", w)
      else if is_uuid node
      then get_node_status_summary_by_uuid client node w
      else hinted node (get_node_status_summary client w)
