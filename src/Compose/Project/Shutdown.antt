-- ===== src/Compose/Project/Shutdown.antt =====
-- `down` of compose/_project.py. Sleeping, and errors of the system that `down` only logs, change
-- nothing here. An event `deleted` is a call of `delete`, however it ends. A `stop_grace_period` that is
-- infinite, for which `int` raises, is left out.
use agentdocker_lite.Base.{
  ℕ, Bool, false, ◌&&◌, Option, none, some, List, [], ◌∷◌, ◌++◌, ◌==◌, if◌then◌else◌,
}
use agentdocker_lite.Text.{Text}
use agentdocker_lite.Dict.{Dict, get, remove}
use agentdocker_lite.Compose.Service.{Service}
use agentdocker_lite.Compose.Health.{Config}
use agentdocker_lite.Compose.Project.{
  Host, Project, Box, Net, Log, record_event, monitor_stopped, signalled, deleted,
  network_destroyed, volume_dir_removed, image_deleted,
}
use agentdocker_lite.Compose.Yaml.{truthy}

-- reversed(names)
unfoldable pub reversed : List Text → List Text
reversed [] = []
reversed (name ∷ names) = reversed names ++ name ∷ []

-- list.remove(x), with its ValueError ignored
unfoldable pub remove_first : ℕ → List ℕ → List ℕ
remove_first x [] = []
remove_first x (y ∷ ys) = let rest = remove_first x ys in if y == x then ys else y ∷ rest

unfoldable pub stop_all : Dict Config → Log → Log
stop_all [] log = log
stop_all ((name, cfg) ∷ monitors) log = stop_all monitors (monitor_stopped name ∷ log)

unfoldable pub stop_monitors : Project → Project
unfolding stop_all
stop_monitors p = record p { log = stop_all p.health_monitors p.log; health_monitors = [] }

-- handle and svc and svc.stop_signal
unfoldable pub wants_signal : Option Text → Option Service → Bool
unfolding truthy
wants_signal (some (c ∷ handle)) (some svc) = truthy svc.stop_signal
wants_signal _ _ = false

unfoldable pub signal_main : Dict Service → Text → Box → Project → Project
unfolding wants_signal get remove
signal_main defs name box p =
    let handle = get name p.bg_handles in
    let p' = record p { bg_handles = remove name p.bg_handles } in
    if wants_signal handle (get name defs) then record_event (signalled name box) p' else p'

unfoldable pub delete_one : Dict Service → Text → Project → Project
unfolding signal_main get remove
delete_one defs name p = elim (get name p.sandboxes) [
  | none ↦ p
  | some box ↦
      record_event (deleted name box)
        (signal_main defs name box (record p { sandboxes = remove name p.sandboxes }))
]

unfoldable pub delete_all : Dict Service → List Text → Project → Project
unfolding delete_one
delete_all defs [] p = p
delete_all defs (name ∷ names) p = delete_all defs names (delete_one defs name p)

unfoldable pub destroy_nets : Dict Net → Log → Log
destroy_nets [] log = log
destroy_nets ((name, net) ∷ nets) log = destroy_nets nets (network_destroyed name net ∷ log)

unfoldable pub drop_nets : Project → Project
unfolding destroy_nets
drop_nets p = record p { log = destroy_nets p.shared_nets p.log; shared_nets = [] }

module _ (host : Host) where
  unfoldable pub drop_volumes : Bool → Project → Project
  drop_volumes volumes p =
      if volumes && (p.has_volume_dir && host.volume_dir_exists p.log)
      then record_event volume_dir_removed (record p { has_volume_dir = false })
      else p

  -- The first image that cannot be deleted ends the loop, which is in a `try`.
  unfoldable pub delete_images : List (Text × Text) → Log → Log
  delete_images [] log = log
  delete_images ((name, image) ∷ images) log =
      let rest = delete_images images (image_deleted image ∷ log) in
      if host.delete_image log image then rest else log

  unfoldable pub drop_images : Dict Text → Bool → Project → Project
  unfolding delete_images
  drop_images image_map rmi p = if rmi then record p { log = delete_images image_map p.log } else p

  unfoldable pub unregister : ℕ → Project → Project
  unfolding remove_first
  unregister id p = record p { live = remove_first id p.live }

  -- `id` is the instance, `rmi` whether the argument is given.
  unfoldable pub down : ℕ → Dict Service → List Text → Dict Text → Bool → Bool → Project → Project
  unfolding stop_monitors delete_all reversed drop_nets drop_volumes drop_images unregister
  down id defs order image_map rmi volumes p = unregister id (
      drop_images image_map rmi
        (drop_volumes volumes (drop_nets (delete_all defs (reversed order) (stop_monitors p)))))
