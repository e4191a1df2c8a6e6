-- ===== src/Compose/Project/Lifecycle.antt =====
-- The public methods of `ComposeProject`, in compose/_project.py: its registration, `up`, `reset`,
-- `run` and `health_status`.
use agentdocker_lite.Base.{
  ℕ, Bool, true, false, Option, none, some, List, [], ◌∷◌, ◌++◌, if◌then◌else◌, Result, ok, err,
}
use agentdocker_lite.Text.{Text, codes}
use agentdocker_lite.Dict.{Dict, get, put}
use agentdocker_lite.Compose.Service.{Service}
use agentdocker_lite.Compose.Health.{Status}
use agentdocker_lite.Compose.Project.{
  Host, Project, Box, Failure, Run, and_then, done, record_event, volume_dir_made, box_reset,
}
use agentdocker_lite.Compose.Project.Command.{start_service}
use agentdocker_lite.Compose.Project.Waiting.{wait_all_healthy}
use agentdocker_lite.Compose.Project.Startup.{start_all}
use agentdocker_lite.Compose.Project.Shutdown.{down}

-- The attributes that `__init__` leaves, and the registration at its end.
unfoldable pub construct : ℕ → List ℕ → Project
construct id live = record {
  sandboxes = [];
  bg_handles = [];
  health_monitors = [];
  shared_nets = [];
  has_volume_dir = false;
  image_cmds = [];
  image_entrypoints = [];
  live = live ++ id ∷ [];
  log = [];
}

-- self._sandboxes.get(service), which `run` asks before it runs the command
unfoldable pub running_box : Text → Project → Result Failure Box
unfolding get
running_box service p = elim (get service p.sandboxes) [
  | none ↦ err (codes "KeyError")
  | some box ↦ ok box
]

-- The status of each service, none where it has no monitor.
unfoldable pub health_status : (Text → Status) → List Text → Project → Dict (Option Status)
unfolding get put
health_status status [] p = []
health_status status (name ∷ names) p =
    let rest = health_status status names p in
    elim (get name p.health_monitors) [
      | none ↦ (name, none) ∷ rest
      | some cfg ↦ (name, some (status name)) ∷ rest
    ]

module _ (host : Host) (id : ℕ) (defs : Dict Service) (order : List Text)
    (image_map : Dict Text) where
  -- The body of the `try` of `up`.
  unfoldable pub bring_up : ℕ → Bool → Project → Run (Unit {0})
  unfolding start_all wait_all_healthy
  bring_up polls detach p =
      and_then (start_all host image_map polls detach defs order p)
        (λ started p'. if detach then done p' else wait_all_healthy host polls order p')

  -- `up` behind its first test. `polls` is the number of polls within the timeout.
  unfoldable pub up_stopped : ℕ → Bool → Project → Run (Unit {0})
  unfolding bring_up down
  up_stopped polls detach p = elim (host.make_volume_dir p.log) [
    | err e ↦ (err e, record p { has_volume_dir = true })
    | ok made ↦
        let run =
          bring_up polls detach
            (record_event volume_dir_made (record p { has_volume_dir = true })) in
        elim run.0 [
          | ok finished ↦ (ok tt, run.1)
          | err e ↦ (err e, down host id defs order image_map false true run.1)
        ]
  ]

  unfoldable pub up : ℕ → Bool → Project → Run (Unit {0})
  unfolding up_stopped
  up polls detach p = elim p.sandboxes [
    | box ∷ boxes ↦ (err (codes "Project already running. Call down() first."), p)
    | [] ↦ up_stopped polls detach p
  ]

  -- The first loop of `reset`.
  unfoldable pub reset_boxes : List Text → Project → Run (Unit {0})
  unfolding get
  reset_boxes [] p = done p
  reset_boxes (name ∷ names) p = elim (get name defs) [
    | none ↦ (err (codes "KeyError"), p)
    | some svc ↦ elim (get name p.sandboxes) [
      | none ↦ reset_boxes names p
      | some box ↦ elim (host.reset p.log box) [
        | err e ↦ (err e, p)
        | ok cleared ↦ reset_boxes names (record_event (box_reset name box) p)
      ]
    ]
  ]

  unfoldable pub restart_services : List Text → Project → Run (Unit {0})
  unfolding start_service get
  restart_services [] p = done p
  restart_services (name ∷ names) p = elim (get name defs) [
    | none ↦ (err (codes "KeyError"), p)
    | some svc ↦ and_then (start_service host name svc p) (λ started p'. restart_services names p')
  ]

  unfoldable pub reset : Project → Run (Unit {0})
  unfolding reset_boxes restart_services
  reset p = and_then (reset_boxes order p) (λ cleared p'. restart_services order p')
