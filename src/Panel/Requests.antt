-- ===== src/Panel/Requests.antt =====
-- internal/testkit/panel_client.go: a request to the panel and what becomes of the answer. The
-- encoders and the HTTP client are parameters, and a `World` is what the requests change; the log is
-- left out.
use Prim.Native.Char.{Char}
use Prim.Native.String.{◌++◌}
use rw_node_go.Common.{
  ℕ, ◌||◌, Option, none, some, String, ◌==◌, length, take, Result, ok, err, ltb, leb, if◌then◌else◌,
}
use rw_node_go.Golang.Strings.{trim_space}
use rw_node_go.Json.{Value}
use rw_node_go.Http.Body.{Bytes}
use rw_node_go.Panel.Redact.{redact_text, redact_json}
use rw_node_go.Panel.Client.{
  Url, PanelClient, PanelRequest, PanelResponse, HttpError, error_text, HttpRequest, Reply, Sent,
  replied, not_sent, response_limit, classify_http_error, resolve_url,
}

-- io.ReadAll of the io.LimitReader: what was read, and the error.
unfoldable pub read_reply : Reply → Bytes × Option HttpError
unfolding take
read_reply reply =
    if leb response_limit (length reply.content)
    then (take response_limit reply.content, none)
    else (reply.content, reply.failed)

-- What the client needs of the libraries; `trim` is bytes.TrimSpace.
pub record Tools (World : Type 0) : Type 0 where
  pub url_text : Url → String
  pub marshal : Value → Result Bytes
  pub unmarshal : Bytes → Result Value
  pub marshal_indent : Value → Result String
  pub text_of : Bytes → String
  pub digits_of : ℕ → String
  pub valid_request : String → String → Result (Unit {0})
  pub other : Char → Char
  pub replace_patterns : String → String
  pub send : HttpRequest → World → Sent × World

module _ {World : Type 0} (t : Tools World) where
  abbrev pub pretty_decoded : String → Result Value → String
  pretty_decoded raw (err e) = redact_text t.other t.replace_patterns raw
  pretty_decoded raw (ok v) = elim (t.marshal_indent (redact_json t.other t.replace_patterns v)) [
    | err e ↦ redact_text t.other t.replace_patterns raw
    | ok out ↦ out
  ]

  unfoldable pub pretty_json : Bytes → String
  unfolding redact_text redact_json
  pretty_json content =
      if trim_space (t.text_of content) == ""
      then ""
      else pretty_decoded (trim_space (t.text_of content)) (t.unmarshal content)

  abbrev pub response_of : String → String → Reply → Bytes × Option HttpError → PanelResponse
  response_of method url reply (body, failed) = record {
    method = method;
    url = url;
    status_code = reply.status;
    body = body;
    pretty_body = pretty_json body;
    content_type = reply.content_type;
    error_category = classify_http_error failed reply.status;
  }

  -- The error that goes with a response.
  abbrev pub response_error : Option HttpError → ℕ → String → Option String
  response_error (some e) status category = some ("read panel response: " ++ error_text e)
  response_error none status category =
      if ltb status 200 || leb 300 status
      then some ("panel request failed: status=" ++ t.digits_of status ++ " category=" ++ category)
      else none

  abbrev pub received :
      String → String → Sent × World → (Option PanelResponse × Option String) × World
  received method url (not_sent e, w) =
      ((none, some (classify_http_error (some e) 0 ++ ": " ++ error_text e)), w)
  received method url (replied reply, w) =
      let read = read_reply reply in
      let response = response_of method url reply read in
      ((some response, response_error read.1 reply.status response.error_category), w)

  -- The body that goes with a request: none, its bytes, or an error.
  abbrev pub body_of : Option Value → Result (Option Bytes)
  body_of none = ok none
  body_of (some v) = elim (t.marshal v) [
    | err e ↦ err ("marshal panel request body: " ++ e)
    | ok bytes ↦ ok (some bytes)
  ]

  abbrev pub content_type_of : Option Value → Option String
  content_type_of none = none
  content_type_of (some v) = some "application/json"

  abbrev pub failure : String → World → (Option PanelResponse × Option String) × World
  failure e w = ((none, some e), w)

  abbrev pub sent_valid :
      PanelClient
      → PanelRequest
      → String
      → Option Bytes
      → Result (Unit {0})
      → World
      → (Option PanelResponse × Option String) × World
  sent_valid client req url body (err e) w = failure ("create panel request: " ++ e) w
  sent_valid client req url body (ok u) w = received req.method url (
      t.send
        (record {
          method = req.method;
          url = url;
          accept = "application/json";
          authorization = "Bearer " ++ client.api_key;
          content_type = content_type_of req.body;
          body = body;
        })
        w)

  abbrev pub sent_with :
      PanelClient
      → PanelRequest
      → String
      → Result (Option Bytes)
      → World
      → (Option PanelResponse × Option String) × World
  sent_with client req url (err e) w = failure e w
  sent_with client req url (ok body) w =
      sent_valid client req url body (t.valid_request req.method url) w

  abbrev pub sent_to :
      PanelClient
      → PanelRequest
      → Result Url
      → World
      → (Option PanelResponse × Option String) × World
  sent_to client req (err e) w = failure e w
  sent_to client req (ok target) w = sent_with client req (t.url_text target) (body_of req.body) w

  -- `Do`
  unfoldable pub do_request :
      PanelClient → PanelRequest → World → (Option PanelResponse × Option String) × World
  unfolding resolve_url pretty_json read_reply classify_http_error
  do_request client req w =
      if trim_space req.method == ""
      then failure "panel request method is required" w
      else sent_to client req (resolve_url client req.path req.query) w

  abbrev pub get_request :
      PanelClient → String → World → (Option PanelResponse × Option String) × World
  get_request client path =
      do_request client (record { method = "GET"; path = path; query = none; body = none })

  abbrev pub post_request :
      PanelClient → String → Option Value → World → (Option PanelResponse × Option String) × World
  post_request client path body =
      do_request client (record { method = "POST"; path = path; query = none; body = body })
