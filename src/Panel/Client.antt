-- ===== src/Panel/Client.antt =====
-- internal/testkit/panel_client.go: the client of the panel, its requests and what it makes of the
-- answers. url.Parse is a parameter. The default HTTP client and the logger are left out.
use Prim.Native.Char.{code}
use Prim.Native.String.{[], ◌∷◌, ◌++◌}
use rw_node_go.Common.{
  ℕ, not, ◌&&◌, ◌||◌, Option, none, some, String, ◌==◌, Result, ok, err, nat_eq, leb, if◌then◌else◌,
}
use rw_node_go.Golang.Strings.{trim_space, is_blank}
use rw_node_go.Json.{Value}
use rw_node_go.Http.Body.{Bytes}

pub record Url : Type 0 where
  pub scheme : String
  pub host : String
  pub path : String
  pub raw_query : String

pub record PanelClientConfig : Type 0 where
  pub base_url : String
  pub api_key : String
  pub node_id : String

pub record PanelClient : Type 0 where
  pub base_url : Url
  pub api_key : String
  pub node_id : String

pub record PanelRequest : Type 0 where
  pub method : String
  pub path : String
  pub query : Option String
  pub body : Option Value

pub record PanelResponse : Type 0 where
  pub method : String
  pub url : String
  pub status_code : ℕ
  pub body : Bytes
  pub pretty_body : String
  pub content_type : String
  pub error_category : String

-- An error of the HTTP client: a timeout or another one, with its text.
pub data HttpError : Type 0 where
  timed_out : String → HttpError
  broken : String → HttpError

abbrev pub error_text : HttpError → String
error_text (timed_out e) = e
error_text (broken e) = e

pub record HttpRequest : Type 0 where
  pub method : String
  pub url : String
  pub accept : String
  pub authorization : String
  pub content_type : Option String
  pub body : Option Bytes

-- An answer, with its body up to an error of the reader.
pub record Reply : Type 0 where
  pub status : ℕ
  pub content_type : String
  pub content : Bytes
  pub failed : Option HttpError

pub data Sent : Type 0 where
  replied : Reply → Sent
  not_sent : HttpError → Sent

-- 1 << 20
abbrev pub response_limit : ℕ
response_limit = 1048576

unfoldable pub classify_status : ℕ → String
classify_status status =
    if nat_eq status 0
    then "not_sent"
    else if nat_eq status 401 || nat_eq status 403
    then "auth_error"
    else if nat_eq status 404
    then "not_found"
    else if leb 500 status
    then "panel_server_error"
    else if leb 400 status
    then "panel_client_error"
    else "ok"

unfoldable pub classify_http_error : Option HttpError → ℕ → String
unfolding classify_status
classify_http_error (some (timed_out e)) status = "timeout"
classify_http_error (some (broken e)) status = "network_error"
classify_http_error none status = classify_status status

module _ (parse : String → Result Url) where
  abbrev pub checked_url : Result Url → String → String → Result PanelClient
  checked_url (err e) api_key node_id = err ("parse PANEL_BASE_URL: " ++ e)
  checked_url (ok url) api_key node_id =
      if not (url.scheme == "http") && not (url.scheme == "https")
      then err "PANEL_BASE_URL must use http or https"
      else if url.host == ""
      then err "PANEL_BASE_URL must include a host"
      else if api_key == ""
      then err "PANEL_API_KEY is required"
      else ok (record { base_url = url; api_key = api_key; node_id = node_id })

  unfoldable pub new_panel_client : PanelClientConfig → Result PanelClient
  new_panel_client cfg =
      let base_url = trim_space cfg.base_url in
      if base_url == ""
      then err "PANEL_BASE_URL is required"
      else checked_url (parse base_url) (trim_space cfg.api_key) (trim_space cfg.node_id)

  unfoldable pub new_panel_client_from_env : (String → String) → Result PanelClient
  unfolding new_panel_client
  new_panel_client_from_env getenv = new_panel_client (record {
    base_url = getenv "PANEL_BASE_URL";
    api_key = getenv "PANEL_API_KEY";
    node_id = getenv "PANEL_NODE_ID";
  })

-- strings.TrimLeft and strings.TrimRight of slashes
unfoldable pub trim_left_slashes : String → String
trim_left_slashes [] = []
trim_left_slashes (c ∷ s) =
    let rest = trim_left_slashes s in if nat_eq (code c) 47 then rest else c ∷ s

unfoldable pub trim_right_slashes : String → String
trim_right_slashes [] = []
trim_right_slashes (c ∷ s) =
    let rest = trim_right_slashes s in if nat_eq (code c) 47 && is_blank rest then [] else c ∷ rest

abbrev pub with_query : Option String → Url → Url
with_query none url = url
with_query (some query) url = record url { raw_query = query }

unfoldable pub resolve_url : PanelClient → String → Option String → Result Url
unfolding trim_left_slashes trim_right_slashes
resolve_url client path query =
    if trim_space path == ""
    then err "panel request path is required"
    else ok (
        with_query query (record client.base_url {
          path = trim_right_slashes client.base_url.path ++ ("/" ++ trim_left_slashes path);
        }))
