-- ===== src/Compose/Project/Startup.antt =====
-- `_resolve_image`, `_create_sandbox` and the loop of `up` of compose/_project.py. The fields of the
-- sandbox's configuration are not spelled out: the host makes a sandbox of the service, the volumes
-- and the network. Errors in writing /etc/hosts, /etc/resolv.conf and the sysctls are only logged.
use agentdocker_lite.Base.{
  ℕ, Bool, ◌||◌, Option, none, some, List, [], ◌∷◌, if◌then◌else◌, Result, ok, err,
}
use agentdocker_lite.Text.{Text, codes, text_eq}
use agentdocker_lite.Dict.{Dict, get, put}
use agentdocker_lite.Compose.Service.{Service}
use agentdocker_lite.Compose.Project.{
  Host, Project, Box, Net, Failure, Run, and_then, done, record_event, network_created, created,
}
use agentdocker_lite.Compose.Yaml.{is_text}
use agentdocker_lite.Compose.Project.Command.{start_service}
use agentdocker_lite.Compose.Project.Waiting.{start_health_monitor, wait_healthy}

-- svc.networks or ["default"], the first
abbrev pub primary_net : List Text → Text
primary_net [] = codes "default"
primary_net (net ∷ nets) = net

abbrev pub add_sandbox : Text → Box → Project → Project
add_sandbox name box p = record p { sandboxes = put name box p.sandboxes }

module _ (host : Host) (image_map : Dict Text) where
  unfoldable pub resolve_image : Service → Result Failure Text
  unfolding get
  resolve_image svc = elim (get svc.name image_map) [
    | none ↦ err (codes "ValueError")
    | some [] ↦ err (codes "ValueError")
    | some (c ∷ image) ↦ ok (c ∷ image)
  ]

  -- The network that the service joins: none, the one that is there, or a new one.
  unfoldable pub join_network : Service → Project → Run (Option Net)
  unfolding is_text get put
  join_network svc p =
      if is_text (codes "none") svc.network_mode || is_text (codes "host") svc.network_mode
      then (ok none, p)
      else elim (get (primary_net svc.networks) p.shared_nets) [
        | some net ↦ (ok (some net), p)
        | none ↦ elim (host.network p.log (primary_net svc.networks) svc.ports) [
          | err e ↦ (err e, p)
          | ok net ↦ (
            ok (some net),
            record_event (network_created (primary_net svc.networks) net)
                (record p { shared_nets = put (primary_net svc.networks) net p.shared_nets }),
          )
        ]
      ]

  -- The image's command and entrypoint are kept for `_cmd_string`.
  unfoldable pub load_image_config : Service → Text → Project → Run (Unit {0})
  unfolding put
  load_image_config svc image p = elim (host.image_config p.log image) [
    | err e ↦ (err e, p)
    | ok cfg ↦ done (record p {
      image_cmds = put svc.name cfg.cmd p.image_cmds;
      image_entrypoints = put svc.name cfg.entrypoint p.image_entrypoints;
    })
  ]

  unfoldable pub make_sandbox : Text → Service → List Text → Option Net → Project → Run Box
  make_sandbox name svc volumes net p = elim (host.sandbox p.log svc volumes net) [
    | err e ↦ (err e, p)
    | ok box ↦ (ok box, record_event (created name box) p)
  ]

  unfoldable pub create_sandbox : Text → Service → Project → Run Box
  unfolding resolve_image load_image_config join_network make_sandbox
  create_sandbox name svc p =
      and_then (resolve_image svc, p)
        (λ image p0. and_then (load_image_config svc image p0) (λ loaded p1.
          and_then (host.volumes p1.log svc, p1)
            (λ volumes p2.
              and_then (join_network svc p2) (λ net p3. make_sandbox name svc volumes net p3))))

  -- The loop over `depends_on`.
  unfoldable pub wait_deps : ℕ → Dict Text → Project → Run (Unit {0})
  unfolding text_eq wait_healthy
  wait_deps polls [] p = done p
  wait_deps polls ((dep, condition) ∷ deps) p =
      and_then
        (if text_eq condition (codes "service_healthy")
          then wait_healthy host polls dep p
          else done p)
        (λ waited p'. wait_deps polls deps p')

  unfoldable pub start_one : ℕ → Bool → Text → Service → Project → Run (Unit {0})
  unfolding wait_deps create_sandbox start_service start_health_monitor put
  start_one polls detach name svc p =
      and_then (if detach then done p else wait_deps polls svc.depends_on p) (λ waited p1.
        and_then (create_sandbox name svc p1) (λ box p2.
          and_then (start_service host name svc (add_sandbox name box p2))
            (λ started p3. start_health_monitor host name svc p3)))

  unfoldable pub start_all : ℕ → Bool → Dict Service → List Text → Project → Run (Unit {0})
  unfolding start_one get
  start_all polls detach defs [] p = done p
  start_all polls detach defs (name ∷ names) p = elim (get name defs) [
    | none ↦ (err (codes "KeyError"), p)
    | some svc ↦
        and_then (start_one polls detach name svc p)
          (λ started p'. start_all polls detach defs names p')
  ]
