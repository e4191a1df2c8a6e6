-- ===== src/Compose/Project/Waiting.antt =====
-- `_start_health_monitor`, `_wait_healthy` and `_wait_all_healthy` of compose/_project.py, and
-- `_healthcheck_cmd` of compose/_network.py. A wait is given the number of its polls.
use agentdocker_lite.Base.{
  ℕ, zero, suc, ◌+◌, Bool, true, false, none, some, List, [], ◌∷◌, if◌then◌else◌, Result, ok, err,
  ◌>>=◌,
}
use agentdocker_lite.Text.{join_texts, Text, codes}
use agentdocker_lite.Dict.{get, put, remove}
use agentdocker_lite.Compose.Yaml.{Value, str, list, dict, Items, nil, cons, Fields, get_field}
use agentdocker_lite.Compose.Service.{Service}
use agentdocker_lite.Compose.Health.{starting, healthy, unhealthy}
use agentdocker_lite.Compose.Project.{
  Host, Project, Failure, Log, Run, done, record_event, monitor_started, monitor_stopped,
  seen_healthy,
}
use agentdocker_lite.Compose.Yaml.{truthy, is_text}

-- " ".join(vs), which wants strings
unfoldable pub join_items : Items → Result Failure (List Text)
join_items nil = ok []
join_items (cons (str s) vs) = (join_items vs >>= λ rest. ok (s ∷ rest))
join_items (cons v vs) = err (codes "TypeError")

module _ (host : Host) where
  unfoldable pub healthcheck_cmd : Value → Result Failure Text
  unfolding is_text join_items join_texts
  healthcheck_cmd (str s) = ok s
  healthcheck_cmd (list (cons v vs)) =
      if is_text (codes "CMD") v
      then host.join vs
      else if is_text (codes "CMD-SHELL") v
      then (join_items vs >>= λ parts. ok (join_texts (codes " ") parts))
      else if is_text (codes "NONE") v
      then ok []
      else host.join (cons v vs)
  healthcheck_cmd _ = ok []

  -- The monitor's command, none where the service has no check; what is no mapping has no `get`.
  unfoldable pub monitor_cmd : Value → Result Failure Text
  unfolding truthy get_field healthcheck_cmd
  monitor_cmd (dict hc) = elim (get_field (codes "test") hc) [
    | none ↦ ok []
    | some test ↦ if truthy test then healthcheck_cmd test else ok []
  ]
  monitor_cmd v = if truthy v then err (codes "AttributeError") else ok []

  abbrev pub fields_of : Value → Fields
  fields_of (dict hc) = hc
  fields_of _ = Fields.end

  -- self._health_monitors.pop(name, None), and `stop` on what it returns
  unfoldable pub stop_monitor : Text → Project → Project
  unfolding get remove
  stop_monitor name p = elim (get name p.health_monitors) [
    | none ↦ p
    | some m ↦
        record_event (monitor_stopped name)
          (record p { health_monitors = remove name p.health_monitors })
  ]

  unfoldable pub create_monitor : Text → Service → Project → Run (Unit {0})
  unfolding get put
  create_monitor name svc p = elim (get name p.sandboxes) [
    | none ↦ (err (codes "KeyError"), p)
    | some box ↦ elim (host.monitor_config (fields_of svc.healthcheck)) [
      | err e ↦ (err e, p)
      | ok cfg ↦ done (
          record_event (monitor_started name)
            (record p { health_monitors = put name cfg p.health_monitors }))
    ]
  ]

  unfoldable pub start_health_monitor : Text → Service → Project → Run (Unit {0})
  unfolding monitor_cmd stop_monitor create_monitor
  start_health_monitor name svc p = elim (monitor_cmd svc.healthcheck) [
    | err e ↦ (err e, p)
    | ok [] ↦ done p
    | ok (c ∷ cmd) ↦ create_monitor name svc (stop_monitor name p)
  ]

  -- The loop of `_wait_healthy`: whether it returns.
  unfoldable pub poll : Log → Text → ℕ → ℕ → Bool
  poll log name zero i = false
  poll log name (suc polls) i = elim (host.status log name i) [
    | healthy ↦ true
    | unhealthy ↦ false
    | starting ↦ poll log name polls (i + 1)
  ]

  unfoldable pub wait_healthy : ℕ → Text → Project → Run (Unit {0})
  unfolding poll get stop_monitor
  wait_healthy polls name p = elim (get name p.health_monitors) [
    | none ↦ done p
    | some cfg ↦ elim (poll p.log name polls 0) [
      | true ↦ done (record_event (seen_healthy name) p)
      | false ↦ (err (codes "Health check failed"), stop_monitor name p)
    ]
  ]

  -- The `for` of `_wait_all_healthy`: `all_ok`, or the error.
  unfoldable pub sweep : Project → ℕ → List Text → Bool → Result Failure Bool
  unfolding get
  sweep p i [] all_ok = ok all_ok
  sweep p i (name ∷ names) all_ok = elim (get name p.health_monitors) [
    | none ↦ sweep p i names all_ok
    | some cfg ↦ elim (host.status p.log name i) [
      | unhealthy ↦ err (codes "Health check failed")
      | healthy ↦ sweep p i names all_ok
      | starting ↦ sweep p i names false
    ]
  ]

  unfoldable pub sweeps : Project → List Text → ℕ → ℕ → Result Failure (Unit {0})
  unfolding sweep
  sweeps p names zero i = err (codes "Health check timeout")
  sweeps p names (suc polls) i = elim (sweep p i names true) [
    | err e ↦ err e
    | ok true ↦ ok tt
    | ok false ↦ sweeps p names polls (i + 1)
  ]

  -- [n for n in self._startup_order if n in self._health_monitors]
  unfoldable pub monitored : Project → List Text → List Text
  unfolding get
  monitored p [] = []
  monitored p (name ∷ names) =
      let rest = monitored p names in
      elim (get name p.health_monitors) [ none ↦ rest | some cfg ↦ name ∷ rest ]

  unfoldable pub wait_all_healthy : ℕ → List Text → Project → Run (Unit {0})
  unfolding sweeps monitored
  wait_all_healthy polls order p = elim (monitored p order) [
    | [] ↦ done p
    | name ∷ names ↦ (sweeps p (name ∷ names) polls 0, p)
  ]
