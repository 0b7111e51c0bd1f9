-- ===== src/Examples/Panel.antt =====
-- The theorems on the panel's client, the log handler and the contract gate at concrete inputs.
use Prim.Native.String.{same, String}
use Prim.Native.String
use Prim.Native.Char.{Char}
use rw_node_go.Common.{
  not, sym, if_all, ◌==◌, ℕ, ◌≡◌, refl, ap, ◌∙◌, ◌↔◌, ◌+◌, pos, true, false, List, [], ◌∷◌, map,
  Option, none, some, Result, ok, err, arith,
}
use rw_node_go.Json.{bool, Value, text, obj, field, end}
use rw_node_go.Golang.Strings.{trim_right, is_space, trim_left, trim_space}
use rw_node_go.Panel.Alike.{Alike}
use rw_node_go.Panel.Client.{
  replied, PanelResponse, Url, PanelClient, broken, not_sent, resolve_url,
}
use rw_node_go.Panel.Requests.{Tools, sent_to, do_request, get_request}
use rw_node_go.Panel.Nodes.{
  NodeStatusSummary, Lookup, Decoders, get_node_status_summary_by_uuid, answered, is_uuid,
}
use rw_node_go.Panel.Wait.{Clock, enable_command, run_command}
use rw_node_go.Panel.Ends.{IsSteady, HasEnded, run_command-HasEnded}
use rw_node_go.Panel.Reached.{Aimed, run_command-Aimed}
use rw_node_go.Logview.Handler.{
  Attr, other as other_value, LogRecord, Derive, with_attrs, with_group, new_text_handler, handle,
  colorize, is_table_record,
}
use rw_node_go.Logview.Colors.{
  derived, attrs_of, groups_of, attrs_first, AddsAttrs, append_assoc, colored_same, group_lost,
}
use rw_node_go.Contractdiff.{Manifest}
use rw_node_go.Contractdiff.Unchanged.{SameFiles}
use rw_node_go.Contractdiff.Gate.{Flags, run}
use rw_node_go.Contractdiff.Gated.{gate_iff}

abbrev same_letter : Char → Char
same_letter c = c

abbrev no_patterns : String → String
no_patterns s = s

abbrev panel_config : Value
panel_config = obj (field "api-key" (text "0123456789") (field "name" (text "node") end))

-- The same but for the middle of the key.
abbrev renewed_config : Value
renewed_config = obj (field "api-key" (text "0123xxxxx6789") (field "name" (text "node") end))

-- A panel that cannot be reached, and a world that is the time.
abbrev tools : Tools ℕ
tools = record {
  url_text = λ url. "https://panel";
  marshal = λ v. ok [];
  unmarshal = λ bytes. err "empty";
  marshal_indent = λ v. ok "";
  text_of = λ bytes. "";
  digits_of = λ n. "0";
  valid_request = λ method url. ok tt;
  other = same_letter;
  replace_patterns = no_patterns;
  send = λ request w. (not_sent (broken "refused"), w);
}

abbrev decoders : Decoders
decoders = record {
  nodes_of = λ bytes. ok [];
  node_of = λ bytes. ok end;
  path_escape = λ s. s;
  quote = λ s. s;
}

abbrev clock : Clock ℕ
clock = record { now = λ w. w; wait = λ interval w. (none, w + interval) }

abbrev panel : PanelClient
panel = record {
  base_url = record { scheme = "https"; host = "panel"; path = ""; raw_query = "" };
  api_key = "key";
  node_id = "";
}

abbrev node : String
node = "00000000-0000-0000-0000-000000000001"

sent_still :
    (client : PanelClient) (path : String) (target : Result Url) (w : ℕ)
    → (sent_to tools client
        (record { method = "GET"; path = path; query = none; body = none })
        target
        w).1
      ≡ w
sent_still client path (err e) w = refl
sent_still client path (ok url) w = refl

-- A request does not take time.
request_still :
    (client : PanelClient) (path : String) (w : ℕ) → (get_request tools client path w).1 ≡ w
unfolding do_request
request_still client path w =
    if_all (λ (r : (Option PanelResponse × Option String) × ℕ). r.1 ≡ w) (trim_space "GET" == "") _
      _ refl (sent_still client path (resolve_url client path none) w)

answered_still :
    {A : Type 0} (next : PanelResponse → Lookup A) (r : (Option PanelResponse × Option String) × ℕ)
    → (answered tools decoders next r).1 ≡ r.1
answered_still next ((response, some e), w) = refl
answered_still next ((none, none), w) = refl
answered_still next ((some response, none), w) = refl

lookup_still :
    (client : PanelClient) (uuid : String) (w : ℕ)
    → (get_node_status_summary_by_uuid tools decoders client uuid w).1 ≡ w
unfolding get_node_status_summary_by_uuid
lookup_still client uuid w =
    let P = λ (r : Lookup NodeStatusSummary × ℕ). r.1 ≡ w in
    let asked = get_request tools client (String.◌++◌ "/api/nodes/" (trim_space uuid)) w in
    if_all P (trim_space uuid == "") _ _ refl (
      if_all P (not (is_uuid (trim_space uuid))) _ _ refl
        (answered_still _ asked ∙ request_still client _ w))

steady : IsSteady tools decoders clock
steady =
    (λ client uuid w. omega (arith, lookup_still client uuid w), λ interval w waits. omega arith)

abbrev node_status : NodeStatusSummary → String
node_status s = s.uuid

run_command-HasEnded_example :
    HasEnded tools decoders clock node_status panel enable_command
      (run_command tools decoders clock node_status 4 panel enable_command node 12 5 0)
run_command-HasEnded_example =
    run_command-HasEnded tools decoders clock node_status panel enable_command 3 node 12 5 0 steady
      (omega arith)

-- A panel that knows the node, and knows it as connected.
abbrev answering : Tools ℕ
answering = record tools {
  send = λ request w.
      (replied (record { status = 200; content = []; content_type = ""; failed = none }), w);
}

abbrev connected : Decoders
connected = record decoders {
  node_of = λ bytes. ok (field "uuid" (text node) (field "isConnected" (bool true) end));
}

run_command-Aimed_example :
    Aimed answering connected clock node_status panel enable_command node 0 (some (none, 0))
unfolding run_command trim_space trim_right trim_left is_space do_request
run_command-Aimed_example =
    run_command-Aimed answering connected clock node_status panel enable_command 3 node 10 5 0

-- A text handler that writes the groups, the keys and the message.
abbrev keys : List Attr → String
keys [] = ""
keys (a ∷ attrs) = String.◌++◌ a.key (keys attrs)

abbrev names : List String → String
names [] = ""
names (g ∷ gs) = String.◌++◌ g (names gs)

abbrev line : List Derive → LogRecord → String
line ds r = String.◌++◌ (names (groups_of ds)) (String.◌++◌ (keys (attrs_of ds)) r.message)

abbrev no_error : String → Option String
no_error s = none

line-AddsAttrs : AddsAttrs line no_error
line-AddsAttrs = (
  λ ds r. refl,
  λ a b ds r.
      ap (λ attrs. String.◌++◌ (names (groups_of ds)) (String.◌++◌ (keys attrs) r.message))
        (sym (append_assoc a b (attrs_of ds))),
)

abbrev started : LogRecord
started = record { level = pos 0; message = "started\n"; attrs = [] }

abbrev port : Attr
port = record { key = "port"; value = other_value "2222" }

colored_same_example :
    (handle line no_error
      (derived (new_text_handler true) (attrs_first ((port ∷ []) ∷ []) ("http" ∷ [])))
      started).0
    ≡ map
        (colorize started.level)
        (handle line no_error
          (derived (new_text_handler false) (attrs_first ((port ∷ []) ∷ []) ("http" ∷ [])))
          started).0
unfolding is_table_record
colored_same_example =
    colored_same line no_error ((port ∷ []) ∷ []) ("http" ∷ []) started line-AddsAttrs refl

group_lost_example :
    ((handle line no_error
        (derived (new_text_handler false) (with_group "http" ∷ with_attrs (port ∷ []) ∷ []))
        started).0
      ≡ line (with_group "http" ∷ with_attrs (port ∷ []) ∷ []) started ∷ [])
    × ((handle line no_error
          (derived (new_text_handler true) (with_group "http" ∷ with_attrs (port ∷ []) ∷ []))
          started).0
        ≡ colorize started.level (line (with_attrs (port ∷ []) ∷ with_group "http" ∷ []) started)
          ∷ [])
unfolding is_table_record
group_lost_example = group_lost line no_error "http" port [] started refl

abbrev contract : Manifest
contract = record {
  source = "github.com/remnawave/node";
  tag = "3.4.1";
  files = record { path = "libs/contract/api/a.ts"; sha256 = "00" } ∷ [];
}

abbrev release_flags : Flags
release_flags = record {
  tag = "";
  baseline_path = "baseline.json";
  repo = "remnawave/node";
  source_dir = "official";
  write_baseline = false;
}

abbrev load_contract : String → Result Manifest
load_contract path = ok contract

abbrev no_download : String → String → Result String
no_download tag repo = err "offline"

abbrev scan_contract : String → String → String → Result Manifest
scan_contract root source tag = ok contract

abbrev save_contract : String → Manifest → Option String
save_contract path manifest = none

gate_iff_example :
    ((run load_contract no_download scan_contract save_contract release_flags).failure ≡ none)
    ↔ SameFiles contract contract
gate_iff_example =
    gate_iff load_contract no_download scan_contract save_contract release_flags contract contract
      "official" (λ h. cc) (λ h. cc) refl refl refl refl
