-- ===== src/Compose/Project.antt =====
-- `ComposeProject` of compose/_project.py: the state that its methods share. What the system does is
-- a `Host`, whose answers may depend on all that was asked of it before.
pub mod Command
pub mod Waiting
pub mod Startup
pub mod Shutdown
pub mod Lifecycle
pub mod Frames
pub mod Creations
pub mod Leaks
pub mod Clean
pub mod Calls
pub mod Histories
mod Tests
use agentdocker_lite.Base.{ℕ, Bool, Option, List, [], ◌∷◌, Result, ok, err}
use agentdocker_lite.Text.{Text}
use agentdocker_lite.Dict.{Dict}
use agentdocker_lite.Compose.Yaml.{Value, Fields, Items}
use agentdocker_lite.Compose.Service.{Service}
use agentdocker_lite.Compose.Health.{Config, Status}

-- A sandbox, a shared network.
abbrev pub Box : Type 0
Box = ℕ

abbrev pub Net : Type 0
Net = ℕ

-- An exception, by its message.
abbrev pub Failure : Type 0
Failure = Text

-- What was done to the system.
pub data Event : Type 0 where
  volume_dir_made volume_dir_removed : Event
  network_created network_destroyed : Text → Net → Event
  created deleted : Text → Box → Event
  box_reset : Text → Box → Event
  started : Text → Text → Event
  signalled : Text → Box → Event
  monitor_started monitor_stopped : Text → Event
  seen_healthy : Text → Event
  image_deleted : Text → Event

-- The last event first.
abbrev pub Log : Type 0
Log = List Event

pub record ImageConfig : Type 0 where
  pub cmd : Value
  pub entrypoint : Value

pub record Host : Type 0 where
  pub image_config : Log → Text → Result Failure ImageConfig
  pub make_volume_dir : Log → Result Failure (Unit {0})
  pub volume_dir_exists : Log → Bool
  pub volumes : Log → Service → Result Failure (List Text)
  pub network : Log → Text → List Text → Result Failure Net
  pub sandbox : Log → Service → List Text → Option Net → Result Failure Box
  pub reset : Log → Box → Result Failure (Unit {0})
  pub run_background : Log → Box → Text → Result Failure Text
  -- The durations and `retries` of a health check.
  pub monitor_config : Fields → Result Failure Config
  -- A monitor's status at a poll.
  pub status : Log → Text → ℕ → Status
  pub delete_image : Log → Text → Bool
  -- shlex.join, and str
  pub join : Items → Result Failure Text
  pub show : Value → Text

-- The attributes that the methods assign. `live` is `_live_instances`.
pub record Project : Type 0 where
  pub sandboxes : Dict Box
  pub bg_handles : Dict Text
  pub health_monitors : Dict Config
  pub shared_nets : Dict Net
  pub has_volume_dir : Bool
  pub image_cmds : Dict Value
  pub image_entrypoints : Dict Value
  pub live : List ℕ
  pub log : Log

-- A method's result beside the state it leaves, also when it raises.
abbrev pub Run : Type 0 → Type 0
Run A = Result Failure A × Project

abbrev pub and_then : {A B : Type 0} → Run A → (A → Project → Run B) → Run B
and_then (ok a, p) f = f a p
and_then (err e, p) f = (err e, p)

-- The method returns, with nothing.
abbrev pub done : Project → Run (Unit {0})
done p = (ok tt, p)

abbrev pub record_event : Event → Project → Project
record_event e p = record p { log = e ∷ p.log }
