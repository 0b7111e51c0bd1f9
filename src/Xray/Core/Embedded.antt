-- ===== src/Xray/Core/Embedded.antt =====
-- `EmbeddedCore` of internal/xray/core.go: the lifecycle of the embedded instance and the handler
-- client. What the source calls of xray-core and of encoding/json is the parameter. Each instance
-- gets a number when it is created, which stands for its pointer: the events say which instance was
-- created and on which one Close is called.
pub mod Clients
pub mod Lifecycle
pub mod Queries
use Prim.Native.Nat.{◌/◌, min}
use Prim.Native.String.{◌++◌}
use rw_node_go.Common.{
  ℕ, ◌+◌, ◌-◌, Bool, true, false, ◌||◌, not, Option, none, some, String, List, [], ◌∷◌, Result, ok,
  err, ltb, nat_eq, ◌==◌, if◌then◌else◌,
}
use rw_node_go.Xray.Core.Types.{IpLastSeen}
use rw_node_go.Xray.Users.{UserSpec, ProtocolUser, build_protocol_user}

-- How a start call that is bounded by a context ends; `timed_out` has the error of the context.
pub data StartOutcome : Type 0 where
  ready : StartOutcome
  failed timed_out : String → StartOutcome

-- The user manager of an inbound, or the first check that does not find it.
pub data Managed (M : Type 0) : Type 0 where
  no_feature wrong_feature no_users no_dynamic_users : Managed M
  no_inbound : String → Managed M
  managed : M → Managed M

pub record Library : Type 1 where
  pub Config : Type 0
  pub Instance : Type 0
  pub Manager : Type 0
  pub MemoryUser : Type 0
  pub valid_json : String → Bool
  pub load_config : String → Result Config
  pub new_instance : Config → Result Instance
  pub start_instance : Instance → StartOutcome
  pub close_instance : Instance → Option String
  pub library_version : String
  pub manager_of : String → Instance → Managed Manager
  pub to_memory_user : ProtocolUser → Result MemoryUser
  pub manager_add_user : Manager → MemoryUser → Instance → Option String × Instance
  pub manager_remove_user : Manager → String → Instance → Option String × Instance
  pub has_stats_manager : Instance → Option String
  pub online_map : String → Instance → Option (List IpLastSeen)

-- The instance with a number was created, closed at once, or is closed by a goroutine once its start
-- returns.
pub data Event : Type 0 where
  created : ℕ → Event
  closed : ℕ → Event
  close_after_start : ℕ → Event

module _ (l : Library) where
  open l use {
    Instance, valid_json, load_config, new_instance, start_instance, close_instance,
    library_version, manager_of, to_memory_user, manager_add_user, manager_remove_user,
  }

  -- Times are in nanoseconds, and 0 is the zero time. The newest event comes first. `pointer` is the
  -- number of the instance that is held, where there is one, and `next` that of the next to be made.
  pub record EmbeddedCore : Type 0 where
    pub instance_of : Option Instance
    pub pointer : ℕ
    pub next : ℕ
    pub version : String
    pub started_at : ℕ
    pub events : List Event

  unfoldable pub new_embedded_core : EmbeddedCore
  new_embedded_core = record {
    instance_of = none;
    pointer = 0;
    next = 0;
    version = library_version;
    started_at = 0;
    events = [];
  }

  abbrev close_old : Option Instance → ℕ → List Event → List Event
  close_old none pointer events = events
  close_old (some old) pointer events = closed pointer ∷ events

  -- The instance is taken out of the core, and then closed; its error is dropped.
  unfoldable pub take_out : EmbeddedCore → EmbeddedCore
  take_out c = record c {
    instance_of = none;
    started_at = 0;
    events = close_old c.instance_of c.pointer c.events;
  }

  -- startInstanceWithContext on the instance with the number `pointer`, and what Start does after it.
  unfoldable pub finish_start :
      StartOutcome → ℕ → ℕ → Instance → EmbeddedCore → Option String × EmbeddedCore
  finish_start ready now pointer i c = (
    none,
    record c {
      instance_of = some i;
      pointer = pointer;
      version = library_version;
      started_at = now;
    },
  )
  finish_start (failed e) now pointer i c = (
    some ("start embedded xray instance: " ++ e),
    record c { events = closed pointer ∷ c.events },
  )
  finish_start (timed_out e) now pointer i c = (
    some ("xray core did not become ready in time: " ++ e),
    record c { events = close_after_start pointer ∷ c.events },
  )

  -- newXrayInstance has made an instance.
  unfoldable pub create : EmbeddedCore → EmbeddedCore
  create c = record c { next = c.next + 1; events = created c.next ∷ c.events }

  unfoldable pub start_created : Result Instance → ℕ → EmbeddedCore → Option String × EmbeddedCore
  unfolding take_out finish_start create
  start_created (err e) now c = (some ("create embedded xray instance: " ++ e), c)
  start_created (ok i) now c = finish_start (start_instance i) now c.next i (take_out (create c))

  unfoldable pub start_loaded : Result l.Config → ℕ → EmbeddedCore → Option String × EmbeddedCore
  unfolding start_created
  start_loaded (err e) now c = (some ("load embedded xray config: " ++ e), c)
  start_loaded (ok config) now c = start_created (new_instance config) now c

  unfoldable pub start : String → ℕ → EmbeddedCore → Option String × EmbeddedCore
  unfolding start_loaded
  start config_json now c =
      if not (valid_json config_json)
      then (some "xray config is not valid JSON", c)
      else start_loaded (load_config config_json) now c

  abbrev close_error : Option String → Option String
  close_error none = none
  close_error (some e) = some ("stop embedded xray instance: " ++ e)

  abbrev stop_error : Option Instance → Option String
  stop_error none = none
  stop_error (some i) = close_error (close_instance i)

  unfoldable pub stop : EmbeddedCore → Option String × EmbeddedCore
  unfolding take_out
  stop c = (stop_error c.instance_of, take_out c)

  abbrev pub is_some : Option Instance → Bool
  is_some none = false
  is_some (some i) = true

  unfoldable pub is_running : EmbeddedCore → Bool
  is_running c = is_some c.instance_of

  unfoldable pub health : EmbeddedCore → Option String
  unfolding is_running
  health c = if not (is_running c) then some "xray is not running" else none

  unfoldable pub version : EmbeddedCore → Result String
  version c = if c.version == "" then ok library_version else ok c.version

  -- The seconds are a whole number here; the source truncates a float64.
  unfoldable pub uptime : ℕ → EmbeddedCore → ℕ
  unfolding is_running
  uptime now c =
      if not (is_running c) || nat_eq c.started_at 0 || ltb now c.started_at
      then 0
      else min ((now - c.started_at) / 1000000000) 4294967295
