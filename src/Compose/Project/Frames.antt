-- ===== src/Compose/Project/Frames.antt =====
-- Which methods leave the sandboxes and the registry as they are.
use agentdocker_lite.Base.{
  ℕ, ◌+◌, ◌≡◌, refl, ◌∙◌, Bool, true, false, List, [], ◌∷◌, if◌then◌else◌, ok, err, arith,
  Bool-cases, Option-cases, Result-cases, inl, inr,
}
use agentdocker_lite.Text.{Text, codes, text_eq}
use agentdocker_lite.Dict.{Dict, get}
use agentdocker_lite.Compose.Service.{Service}
use agentdocker_lite.Compose.Project.{Host, Project, Log, Run, and_then, done, created, deleted}
use agentdocker_lite.Compose.Project.Command.{start_service}
use agentdocker_lite.Compose.Project.Waiting.{
  start_health_monitor, monitor_cmd, create_monitor, stop_monitor, wait_healthy, wait_all_healthy,
  poll,
}
use agentdocker_lite.Compose.Project.Startup.{wait_deps}

-- How often a service's sandbox was made, and how often it was deleted.
abbrev pub times_created : Text → Log → ℕ
times_created name [] = 0
times_created name (created n box ∷ log) =
    (if text_eq n name then 1 else 0) + times_created name log
times_created name (e ∷ log) = times_created name log

abbrev pub times_deleted : Text → Log → ℕ
times_deleted name [] = 0
times_deleted name (deleted n box ∷ log) =
    (if text_eq n name then 1 else 0) + times_deleted name log
times_deleted name (e ∷ log) = times_deleted name log

-- A step that leaves the sandboxes and the registry as they are.
pub record Quiet (p q : Project) : Type 0 where
  pub sandboxes : q.sandboxes ≡ p.sandboxes
  pub live : q.live ≡ p.live
  pub made : (n : Text) → times_created n q.log ≡ times_created n p.log
  pub unmade : (n : Text) → times_deleted n q.log ≡ times_deleted n p.log

pub still : (p : Project) → Quiet p p
still p = record { sandboxes = refl; live = refl; made = λ n. refl; unmade = λ n. refl }

pub chain : (p q r : Project) → Quiet p q → Quiet q r → Quiet p r
chain p q r a b = record {
  sandboxes = b.sandboxes ∙ a.sandboxes;
  live = b.live ∙ a.live;
  made = λ n. b.made n ∙ a.made n;
  unmade = λ n. b.unmade n ∙ a.unmade n;
}

pub and_then-Quiet :
    {A B : Type 0} (p : Project) (r : Run A) (f : A → Project → Run B)
    → Quiet p (r.1)
    → ((a : A) (q : Project) → Quiet q ((f a q).1))
    → Quiet p ((and_then r f).1)
and_then-Quiet p (ok a, q) f h k = chain p q _ h (k a q)
and_then-Quiet p (err e, q) f h k = h

module _ (host : Host) where
  pub start_service-Quiet :
      (name : Text) (svc : Service) (p : Project) → Quiet p (start_service host name svc p).1
  unfolding start_service
  start_service-Quiet name svc p = record {
    sandboxes = ground arith;
    live = ground arith;
    made = λ n. ground arith;
    unmade = λ n. ground arith;
  }

  stop_monitor-Quiet : (name : Text) (p : Project) → Quiet p (stop_monitor host name p)
  unfolding stop_monitor
  stop_monitor-Quiet name p = record {
    sandboxes = ground arith;
    live = ground arith;
    made = λ n. ground arith;
    unmade = λ n. ground arith;
  }

  create_monitor-Quiet :
      (name : Text) (svc : Service) (p : Project) → Quiet p (create_monitor host name svc p).1
  unfolding create_monitor
  create_monitor-Quiet name svc p = record {
    sandboxes = ground arith;
    live = ground arith;
    made = λ n. ground arith;
    unmade = λ n. ground arith;
  }

  pub start_health_monitor-Quiet :
      (name : Text) (svc : Service) (p : Project) → Quiet p (start_health_monitor host name svc p).1
  unfolding start_health_monitor
  start_health_monitor-Quiet name svc p = elim (Result-cases (monitor_cmd host svc.healthcheck)) [
    | inr (e, h) ↦ rw (start_health_monitor, h) (still p)
    | inl ([], h) ↦ rw (start_health_monitor, h) (still p)
    | inl (c ∷ cmd, h) ↦
        rw (start_health_monitor, h)
          (chain p (stop_monitor host name p) _ (stop_monitor-Quiet name p)
            (create_monitor-Quiet name svc (stop_monitor host name p)))
  ]

  wait_healthy-Quiet :
      (polls : ℕ) (name : Text) (p : Project) → Quiet p (wait_healthy host polls name p).1
  unfolding wait_healthy
  wait_healthy-Quiet polls name p = elim (Option-cases (get name p.health_monitors)) [
    | inl h ↦ rw (wait_healthy, h) (still p)
    | inr (cfg, h) ↦ elim (Bool-cases (poll host p.log name polls 0)) [
      | inl k ↦
          rw (wait_healthy, h, k)
            (record { sandboxes = refl; live = refl; made = λ n. refl; unmade = λ n. refl })
      | inr k ↦ rw (wait_healthy, h, k) (stop_monitor-Quiet name p)
    ]
  ]

  wait_dep-Quiet :
      (wanted : Bool) (polls : ℕ) (dep : Text) (p : Project)
      → Quiet p (if wanted then wait_healthy host polls dep p else done p).1
  wait_dep-Quiet true polls dep p = wait_healthy-Quiet polls dep p
  wait_dep-Quiet false polls dep p = still p

  pub wait_deps-Quiet :
      (image_map : Dict Text) (polls : ℕ) (deps : Dict Text) (p : Project)
      → Quiet p (wait_deps host image_map polls deps p).1
  unfolding wait_deps
  wait_deps-Quiet image_map polls [] p = still p
  wait_deps-Quiet image_map polls ((dep, condition) ∷ deps) p =
      and_then-Quiet p
        (if text_eq condition (codes "service_healthy")
          then wait_healthy host polls dep p
          else done p)
        _ (wait_dep-Quiet (text_eq condition (codes "service_healthy")) polls dep p)
        (λ waited q. wait_deps-Quiet image_map polls deps q)

  pub wait_all_healthy-Quiet :
      (polls : ℕ) (order : List Text) (p : Project)
      → Quiet p (wait_all_healthy host polls order p).1
  unfolding wait_all_healthy
  wait_all_healthy-Quiet polls order p = record {
    sandboxes = ground arith;
    live = ground arith;
    made = λ n. ground arith;
    unmade = λ n. ground arith;
  }
