-- ===== src/Controller/Handler.antt =====
-- internal/controller/handler_controller.go: users of the running core. A request is what
-- ShouldBindJSON gives: the decoded body or an error. Logging is left out.
pub mod Add
pub mod Remove
pub mod Drop
pub mod Bulk
pub mod Tracked
pub mod BulkTracked
pub mod Forgets
pub mod ForgetsAll
pub mod Registers
pub mod Answers
use rw_node_go.Common.{
  Bool, true, false, not, ◌||◌, Option, none, some, String, List, [], ◌∷◌, Result, ok, err, ◌==◌,
  is_empty, if◌then◌else◌,
}
use rw_node_go.State.Inbounds.{known_inbound_tags, remove_user_from_inbound}
use rw_node_go.Xray.Core.{Core}
use rw_node_go.Controller.Node.{Node}
use rw_node_go.Controller.Requests.{GenericResponse}

-- errIf
abbrev pub err_if : Bool → Option String → Option String
err_if true (some e) = some e
err_if true none = some "xray handler operation failed"
err_if false e = none

-- `if firstErr == nil { firstErr = err }`
abbrev pub first_error : Option String → Option String → Option String
first_error none e = e
first_error (some first) e = some first

-- A round without an error counts as a success.
abbrev pub succeeded : Option String → Bool
succeeded none = true
succeeded (some e) = false

abbrev pub response : Bool → Option String → GenericResponse
response success e = record { success = success; error = e }

module _ (core : Core) where
  open core use {World, is_running, has_handler, has_stats, remove_user}

  -- handlerClient: `none` when there is a client.
  unfoldable pub handler_client : World → Option String
  handler_client w =
      if not (is_running w)
      then some "xray core not running"
      else if not (has_handler w)
      then some "xray handler client is unavailable"
      else none

  unfoldable pub stats_client : World → Option String
  stats_client w =
      if not (is_running w)
      then some "xray core not running"
      else if not (has_stats w)
      then some "xray stats client is unavailable"
      else none

  -- One round over the known tags: the core is asked to remove the user, and whatever it answers
  -- the hash is forgotten.
  unfoldable pub remove_at : String → String → String → Node core → Option String × Node core
  remove_at username hash tag n =
      let (e, w) = remove_user tag username n.world in
      (e, record { state = remove_user_from_inbound tag hash n.state; world = w })

  -- The loop with the results of the rounds so far.
  unfoldable pub remove_from :
      String
      → String
      → List String
      → Bool
      → Option String
      → Node core
      → Bool × Option String × Node core
  unfolding remove_at
  remove_from username hash [] success first n = (success, first, n)
  remove_from username hash (tag ∷ tags) success first n =
      let (e, n') = remove_at username hash tag n in
      remove_from username hash tags (succeeded e || success) (first_error first e) n'

  unfoldable pub remove_from_all_known_inbounds :
      String → String → Node core → Bool × Option String × Node core
  unfolding remove_from
  remove_from_all_known_inbounds username hash n =
      remove_from username hash (known_inbound_tags n.state) false none n
