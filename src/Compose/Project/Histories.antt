-- ===== src/Compose/Project/Histories.antt =====
-- Any history of calls of a project's methods: what it leaves of the sandboxes and in the registry.
use agentdocker_lite.Base.{ℕ, ◌≡◌, refl, ◌∙◌, ap, Bool, false, List, [], arith, Result, ok, err}
use agentdocker_lite.Text.{Text, contains}
use agentdocker_lite.Dict.{Dict, keys}
use agentdocker_lite.Compose.Service.{Service}
use agentdocker_lite.Compose.Topo.{topo_sort}
use agentdocker_lite.Compose.Topo
use agentdocker_lite.Compose.Topo.Order.{topo_sort-IsTopological}
use agentdocker_lite.Compose.Project.{Host, Project, Failure}
use agentdocker_lite.Compose.Project.Shutdown.{remove_first, down}
use agentdocker_lite.Compose.Project.Lifecycle.{construct, up, reset}
use agentdocker_lite.Compose.Project.Frames.{times_created, times_deleted}
use agentdocker_lite.Compose.Project.Leaks.{Tracked, holds, Quiet-Tracked}
use agentdocker_lite.Compose.Project.Clean.{down-Cleaned}
use agentdocker_lite.Compose.Project.Calls.{
  reset-Quiet, UpEnd, untouched, running, failed, up-UpEnd, no_keys,
}

-- No sandbox is held, and under each name as many were deleted as were made.
pub record NothingLeft (p : Project) : Type 0 where
  pub empty : p.sandboxes ≡ []
  pub deleted_again : (n : Text) → times_created n p.log ≡ times_deleted n p.log

Tracked-NothingLeft :
    (order : List Text) (p : Project) → Tracked order p → p.sandboxes ≡ [] → NothingLeft p
Tracked-NothingLeft order p t h = record {
  empty = h;
  deleted_again = λ n.
      let a = t.balanced n in
      let b : holds n p ≡ false = ap (λ d. contains (keys d) n) h ∙ no_keys n in ground arith;
}

module _ (host : Host) (id : ℕ) (defs : Dict Service) (order : List Text)
    (image_map : Dict Text) where
  -- The states behind any sequence of calls, also of calls that raise.
  pub data Reaches : Project → Type 0 where
    constructed : (live : List ℕ) → Reaches (construct id live)
    after_up :
        (polls : ℕ) (detach : Bool) (p : Project)
        → Reaches p
        → Reaches (up host id defs order image_map polls detach p).1
    after_down :
        (rmi volumes : Bool) (p : Project)
        → Reaches p
        → Reaches (down host id defs order image_map rmi volumes p)
    after_reset : (p : Project) → Reaches p → Reaches (reset host id defs order image_map p).1

  UpEnd-Tracked :
      (p : Project) (r : Result Failure (Unit {0}) × Project)
      → Tracked order p
      → UpEnd host id defs order image_map p r
      → Tracked order (r.1)
  UpEnd-Tracked p r t (untouched m e h) = Quiet-Tracked order p (r.1) h t
  UpEnd-Tracked p r t (running e h l) = h
  UpEnd-Tracked p r t (failed m q e l c) = c.tracked

  Reaches-Tracked : (p : Project) → topo_sort defs ≡ Topo.ok order → Reaches p → Tracked order p
  unfolding construct
  Reaches-Tracked _ sorted (constructed live) = record {
    balanced = λ n. rw (no_keys n) refl;
    within = λ n k. ground (arith, no_keys n);
  }
  Reaches-Tracked _ sorted (after_up polls detach p h) =
      let t = Reaches-Tracked p sorted h in
      let distinct = (topo_sort-IsTopological defs order sorted).distinct in
      UpEnd-Tracked p _ t (up-UpEnd host id defs order image_map distinct polls detach p t)
  Reaches-Tracked _ sorted (after_down rmi volumes p h) =
      (down-Cleaned host id defs order image_map rmi volumes p (Reaches-Tracked p sorted h)).tracked
  Reaches-Tracked _ sorted (after_reset p h) =
      Quiet-Tracked order p _ (reset-Quiet host id defs order image_map p)
        (Reaches-Tracked p sorted h)

  -- Behind any calls of `up`, `down` and `reset`, whichever of them raised, a call of `down` leaves no
  -- sandbox, and under each name as many sandboxes were deleted as were ever made, if the startup
  -- order is the one that `_topo_sort` returns.
  pub down-NothingLeft :
      (rmi volumes : Bool) (p : Project)
      → topo_sort defs ≡ Topo.ok order
      → Reaches p
      → NothingLeft (down host id defs order image_map rmi volumes p)
  down-NothingLeft rmi volumes p sorted h =
      let c =
        down-Cleaned host id defs order image_map rmi volumes p (Reaches-Tracked p sorted h) in
      Tracked-NothingLeft order _ c.tracked c.empty

  -- If `up` raises on a project that has no sandboxes, then it leaves none, and under each name as many
  -- sandboxes were deleted as were made. The project may have any history, and its startup order is
  -- the one that `_topo_sort` returns.
  pub up_raises-NothingLeft :
      (polls : ℕ) (detach : Bool) (p : Project) (message : Text)
      → topo_sort defs ≡ Topo.ok order
      → Reaches p
      → p.sandboxes ≡ []
      → (up host id defs order image_map polls detach p).0 ≡ err message
      → NothingLeft (up host id defs order image_map polls detach p).1
  up_raises-NothingLeft polls detach p message sorted h empty raised =
      let t = Reaches-Tracked p sorted h in
      let distinct = (topo_sort-IsTopological defs order sorted).distinct in
      ends _ t (up-UpEnd host id defs order image_map distinct polls detach p t) raised
    where
      ends :
          (r : Result Failure (Unit {0}) × Project)
          → Tracked order p
          → UpEnd host id defs order image_map p r
          → r.0 ≡ err message
          → NothingLeft (r.1)
      ends r t (untouched m e k) raised =
          Tracked-NothingLeft order (r.1) (Quiet-Tracked order p (r.1) k t) (k.sandboxes ∙ empty)
      ends r t (running e k l) raised = ground arith
      ends r t (failed m q e l c) raised = Tracked-NothingLeft order (r.1) c.tracked c.empty

  -- If a project is brought up again behind a `down`, then the registry of live projects is the one
  -- before, less the project's first entry: `up` does not enter it again. The project may have any
  -- history, and its startup order is the one that `_topo_sort` returns.
  pub up_after_down-live :
      (polls : ℕ) (detach rmi volumes : Bool) (p : Project)
      → topo_sort defs ≡ Topo.ok order
      → Reaches p
      → (up host id defs order image_map polls detach
          (down host id defs order image_map rmi volumes p)).0
        ≡ ok tt
      → (up host id defs order image_map polls detach
          (down host id defs order image_map rmi volumes p)).1.live
        ≡ remove_first id p.live
  up_after_down-live polls detach rmi volumes p sorted h fine =
      let c =
        down-Cleaned host id defs order image_map rmi volumes p (Reaches-Tracked p sorted h) in
      let distinct = (topo_sort-IsTopological defs order sorted).distinct in
      let q = down host id defs order image_map rmi volumes p in
      ends _ q (up-UpEnd host id defs order image_map distinct polls detach q c.tracked) fine
      ∙ c.live
    where
      ends :
          (r : Result Failure (Unit {0}) × Project) (q : Project)
          → UpEnd host id defs order image_map q r
          → r.0 ≡ ok tt
          → r.1.live ≡ q.live
      ends r q (untouched m e k) fine = k.live
      ends r q (running e k l) fine = l
      ends r q (failed m s e l c) fine = ground arith
