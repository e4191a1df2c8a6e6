-- ===== src/Compose/Project/Tests.antt =====
-- A web service behind a database. On one host all goes well, on the other the web service's sandbox
-- cannot be made.
use agentdocker_lite.Base.{◌≡◌, refl, Bool, true, false, List, [], ◌∷◌, if◌then◌else◌, ok, err}
use agentdocker_lite.Text.{Text, codes, text_eq, contains}
use agentdocker_lite.Dict.{Dict, keys}
use agentdocker_lite.Compose.Yaml.{null, str}
use agentdocker_lite.Compose.Service.{Service, default_service}
use agentdocker_lite.Compose.Health.{healthy}
use agentdocker_lite.Compose.Topo
use agentdocker_lite.Compose.Topo.{topo_sort}
use agentdocker_lite.Compose.Project.{Host, Project}
use agentdocker_lite.Compose.Project.Shutdown.{down, remove_first}
use agentdocker_lite.Compose.Project.Lifecycle.{construct, up}
use agentdocker_lite.Compose.Project.Histories.{
  NothingLeft, constructed, after_up, down-NothingLeft, up_raises-NothingLeft, up_after_down-live,
}

abbrev host : Bool → Host
host fine = record {
  image_config = λ log image. ok (record { cmd = str (codes "serve"); entrypoint = null });
  make_volume_dir = λ log. ok tt;
  volume_dir_exists = λ log. true;
  volumes = λ log svc. ok [];
  network = λ log name ports. ok 7;
  sandbox = λ log svc volumes net.
      if text_eq svc.name (codes "db") then ok 1 else if fine then ok 2 else err (codes "no space");
  reset = λ log box. ok tt;
  run_background = λ log box cmd. ok (codes "h");
  monitor_config = λ fields. err (codes "KeyError");
  status = λ log name i. healthy;
  delete_image = λ log image. true;
  join = λ vs. ok [];
  show = λ v. codes "serve";
}

abbrev defs : Dict Service
defs =
    (
      codes "web",
      record (default_service (codes "web")) {
        depends_on = (codes "db", codes "service_healthy") ∷ [];
      },
    )
    ∷ (codes "db", default_service (codes "db"))
    ∷ []

abbrev order : List Text
order = codes "db" ∷ codes "web" ∷ []

abbrev images : Dict Text
images = (codes "web", codes "nginx") ∷ (codes "db", codes "postgres") ∷ []

abbrev fresh : Project
fresh = construct 3 []

no_sandboxes : fresh.sandboxes ≡ []
unfolding construct
no_sandboxes = refl

sorted : topo_sort defs ≡ Topo.ok order
unfolding topo_sort Topo.for_each keys Topo.visit contains Topo.deps_of text_eq Topo.enter
    Topo.leave
sorted = refl

abbrev running : Project
running = (up (host true) 3 defs order images 5 false fresh).1

both_run : running.sandboxes ≡ (codes "db", 1) ∷ (codes "web", 2) ∷ []
unfolding up construct
both_run = refl

raised : (up (host false) 3 defs order images 5 false fresh).0 ≡ err (codes "no space")
unfolding up construct
raised = refl

restarted :
    (up
      (host true)
      3
      defs
      order
      images
      5
      false
      (down (host true) 3 defs order images false true running)).0
    ≡ ok tt
unfolding up construct
restarted = refl

down-NothingLeft_example : NothingLeft (down (host true) 3 defs order images false true running)
down-NothingLeft_example =
    down-NothingLeft (host true) 3 defs order images false true running sorted
      (after_up 5 false fresh (constructed []))

up_raises-NothingLeft_example : NothingLeft (up (host false) 3 defs order images 5 false fresh).1
up_raises-NothingLeft_example =
    up_raises-NothingLeft (host false) 3 defs order images 5 false fresh (codes "no space") sorted
      (constructed []) no_sandboxes raised

up_after_down-live_example :
    (up
      (host true)
      3
      defs
      order
      images
      5
      false
      (down (host true) 3 defs order images false true running)).1.live
    ≡ remove_first 3 running.live
up_after_down-live_example =
    up_after_down-live (host true) 3 defs order images 5 false false true running sorted
      (after_up 5 false fresh (constructed [])) restarted
