-- ===== src/Controller/Internal.antt =====
-- internal/controller/internal_controller.go, and `derivePanelSni` and `NewRegistry` of
-- internal/controller/registry.go as far as they decide what the controllers get.
use rw_node_go.Common.{
  not, ◌&&◌, ◌≡◌, String, Option, some, ◌==◌, if◌then◌else◌, Result, ok, err, ap, ◌∙◌, Bool-cases,
  inl, inr,
}
use rw_node_go.Golang.Strings.{trim_space}
use rw_node_go.Json.{Fields, text, get, put, get-put, clone_map, clone_map_lem}
use rw_node_go.State.Hashes.{Hashes}
use rw_node_go.State.Runtime.{RuntimeState, snapshot, set_xray_started}
use rw_node_go.Environment.Secret.{NodePayload, decode_secret_key}
use rw_node_go.Http.Body.{Bytes}

-- The answer of /internal/get-config; a nil configuration is the empty one.
unfoldable pub get_config : String → RuntimeState → Fields
unfolding snapshot
get_config panel_sni s =
    let config = (snapshot s).current_config in
    if not (panel_sni == "") then put "panelSni" (text panel_sni) config else config

-- The name that the payload gives, or none: a failure leaves it empty.
abbrev pub sni_or_empty : Result String → String
sni_or_empty (err e) = ""
sni_or_empty (ok sni) = sni

module _ (decode_base64 : String → Result Bytes) (unmarshal : Bytes → Result NodePayload)
    (derive : NodePayload → Result String) where
  abbrev pub derived : Result NodePayload → String
  derived (err e) = ""
  derived (ok payload) = sni_or_empty (derive payload)

  unfoldable pub derive_panel_sni : (String → String) → String
  unfolding decode_secret_key
  derive_panel_sni getenv =
      let secret_key = trim_space (getenv "SECRET_KEY") in
      let sni = derived (decode_secret_key Bytes decode_base64 unmarshal secret_key) in
      if secret_key == "" then "" else sni

-- After a start the answer has the configuration that was started, key by key, and beside it only
-- the derived name, where there is one.
pub get_config_started :
    (panel_sni key : String) (version : Option String) (config : Fields) (hashes : Hashes)
    (s : RuntimeState)
    → get key (get_config panel_sni (set_xray_started version config hashes s)) ≡ (
        if not (panel_sni == "") && "panelSni" == key
        then some (text panel_sni)
        else get key config)
unfolding get_config set_xray_started
get_config_started panel_sni key version config hashes s =
    let copied = clone_map_lem (clone_map config) ∙ clone_map_lem config in
    elim (Bool-cases (panel_sni == "")) [
      | inl e ↦ simp e (ap (get key) copied)
      | inr e ↦ simp e (
          get-put "panelSni" key (text panel_sni) (clone_map (clone_map config))
          ∙ ap (λ m. if "panelSni" == key then some (text panel_sni) else get key m) copied)
    ]
