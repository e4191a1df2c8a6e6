-- ===== src/Compose/Project/Creations.antt =====
-- The steps of `up` that make a sandbox.
use agentdocker_lite.Base.{
  ℕ, ◌≡◌, refl, Bool, true, false, Option, List, if◌then◌else◌, ok, err, arith, Result-cases, inl,
  inr,
}
use agentdocker_lite.Text.{Text}
use agentdocker_lite.Dict.{Dict}
use agentdocker_lite.Compose.Service.{Service}
use agentdocker_lite.Compose.Project.{
  Host, Project, Box, Net, Run, and_then, done, record_event, created,
}
use agentdocker_lite.Compose.Project.Command.{start_service}
use agentdocker_lite.Compose.Project.Waiting.{start_health_monitor}
use agentdocker_lite.Compose.Project.Startup.{
  resolve_image, load_image_config, join_network, create_sandbox, wait_deps, start_one, add_sandbox,
  make_sandbox,
}
use agentdocker_lite.Compose.Project.Frames.{
  Quiet, still, chain, and_then-Quiet, start_service-Quiet, start_health_monitor-Quiet,
  wait_deps-Quiet,
}

module _ (host : Host) where
  -- How `_create_sandbox` ends.
  pub data Creation (name : Text) (p : Project) (r : Run Box) : Type 0 where
    refused : (e : Text) (q : Project) → r ≡ (err e, q) → Quiet p q → Creation name p r
    made :
        (box : Box) (q : Project)
        → r ≡ (ok box, record_event (created name box) q)
        → Quiet p q
        → Creation name p r

  earlier :
      (name : Text) (p q : Project) (r : Run Box)
      → Quiet p q
      → Creation name q r
      → Creation name p r
  earlier name p q r h (refused e s eq k) = refused e s eq (chain p q s h k)
  earlier name p q r h (made box s eq k) = made box s eq (chain p q s h k)

  and_then-Creation :
      {A : Type 0} (name : Text) (p : Project) (r : Run A) (f : A → Project → Run Box)
      → Quiet p (r.1)
      → ((a : A) (q : Project) → Creation name q (f a q))
      → Creation name p (and_then r f)
  and_then-Creation name p (ok a, q) f h k = earlier name p q _ h (k a q)
  and_then-Creation name p (err e, q) f h k = refused e q refl h

  make_sandbox-Creation :
      (image_map : Dict Text) (name : Text) (svc : Service) (volumes : List Text) (net : Option Net)
      (p : Project)
      → Creation name p (make_sandbox host image_map name svc volumes net p)
  unfolding make_sandbox
  make_sandbox-Creation image_map name svc volumes net p =
      elim (Result-cases (host.sandbox p.log svc volumes net)) [
        | inl (box, h) ↦ made box p (rw (make_sandbox, h) refl) (still p)
        | inr (e, h) ↦ refused e p (rw (make_sandbox, h) refl) (still p)
      ]

  load_image_config-Quiet :
      (image_map : Dict Text) (svc : Service) (image : Text) (p : Project)
      → Quiet p (load_image_config host image_map svc image p).1
  unfolding load_image_config
  load_image_config-Quiet image_map svc image p = record {
    sandboxes = ground arith;
    live = ground arith;
    made = λ n. ground arith;
    unmade = λ n. ground arith;
  }

  join_network-Quiet :
      (image_map : Dict Text) (svc : Service) (p : Project)
      → Quiet p (join_network host image_map svc p).1
  unfolding join_network
  join_network-Quiet image_map svc p = record {
    sandboxes = ground arith;
    live = ground arith;
    made = λ n. ground arith;
    unmade = λ n. ground arith;
  }

  pub create_sandbox-Creation :
      (image_map : Dict Text) (name : Text) (svc : Service) (p : Project)
      → Creation name p (create_sandbox host image_map name svc p)
  unfolding create_sandbox
  create_sandbox-Creation image_map name svc p =
      and_then-Creation name p (resolve_image host image_map svc, p) _ (still p)
        (λ image p0.
          and_then-Creation name p0 (load_image_config host image_map svc image p0) _
            (load_image_config-Quiet image_map svc image p0)
            (λ loaded p1.
              and_then-Creation name p1 (host.volumes p1.log svc, p1) _ (still p1)
                (λ volumes p2.
                  and_then-Creation name p2 (join_network host image_map svc p2) _
                    (join_network-Quiet image_map svc p2)
                    (λ net p3. make_sandbox-Creation image_map name svc volumes net p3))))

  -- How a step of the loop of `up` changes the sandboxes.
  pub data Progress (name : Text) (p q : Project) : Type 0 where
    unchanged : Quiet p q → Progress name p q
    added :
        (box : Box) (s : Project)
        → Quiet p s
        → Quiet (add_sandbox name box (record_event (created name box) s)) q
        → Progress name p q

  after_waiting :
      (name : Text) (p q r : Project) → Quiet p q → Progress name q r → Progress name p r
  after_waiting name p q r h (unchanged k) = unchanged (chain p q r h k)
  after_waiting name p q r h (added box s k l) = added box s (chain p q s h k) l

  -- What follows the sandbox in a step of the loop.
  launch-Quiet :
      (name : Text) (svc : Service) (p : Project)
      → Quiet p
          (and_then
            (start_service host name svc p)
            (λ started p'. start_health_monitor host name svc p')).1
  launch-Quiet name svc p =
      and_then-Quiet p (start_service host name svc p) _ (start_service-Quiet host name svc p)
        (λ started q. start_health_monitor-Quiet host name svc q)

  launch-Progress :
      (name : Text) (svc : Service) (p : Project) (r : Run Box)
      → Creation name p r
      → Progress name p
          (and_then r (λ box p2.
            and_then
              (start_service host name svc (add_sandbox name box p2))
              (λ started p3. start_health_monitor host name svc p3))).1
  launch-Progress name svc p r (refused e q eq h) = rw eq (unchanged h)
  launch-Progress name svc p r (made box q eq h) = rw eq (
      added box q h
        (launch-Quiet name svc (add_sandbox name box (record_event (created name box) q))))

  and_then-Progress :
      {A : Type 0} (name : Text) (p : Project) (r : Run A) (f : A → Project → Run (Unit {0}))
      → Quiet p (r.1)
      → ((a : A) (q : Project) → Progress name q ((f a q).1))
      → Progress name p ((and_then r f).1)
  and_then-Progress name p (ok a, q) f h k = after_waiting name p q _ h (k a q)
  and_then-Progress name p (err e, q) f h k = unchanged h

  pub start_one-Progress :
      (image_map : Dict Text) (polls : ℕ) (detach : Bool) (name : Text) (svc : Service)
      (p : Project)
      → Progress name p (start_one host image_map polls detach name svc p).1
  unfolding start_one
  start_one-Progress image_map polls detach name svc p =
      and_then-Progress name p
        (if detach then done p else wait_deps host image_map polls svc.depends_on p) _
        (waits detach)
        (λ waited q. launch-Progress name svc q _ (create_sandbox-Creation image_map name svc q))
    where
      waits :
          (detach : Bool)
          → Quiet p (if detach then done p else wait_deps host image_map polls svc.depends_on p).1
      waits true = still p
      waits false = wait_deps-Quiet host image_map polls svc.depends_on p
