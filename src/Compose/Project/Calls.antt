-- ===== src/Compose/Project/Calls.antt =====
-- How `reset` and `up` leave the sandboxes and the registry.
use agentdocker_lite.Base.{
  ℕ, ◌≡◌, refl, ◌∙◌, ap, Bool, true, false, List, [], ◌∷◌, if◌then◌else◌, ok, err, Option-cases,
  Result-cases, ◌⊎◌, inl, inr,
}
use agentdocker_lite.Text.{Text, codes, contains, NoRepeat}
use agentdocker_lite.Dict.{Dict, get, keys}
use agentdocker_lite.Compose.Service.{Service}
use agentdocker_lite.Compose.Project.{
  Host, Box, Project, Run, record_event, done, box_reset, volume_dir_made,
}
use agentdocker_lite.Compose.Project.Command.{start_service}
use agentdocker_lite.Compose.Project.Waiting.{wait_all_healthy}
use agentdocker_lite.Compose.Project.Startup.{start_all}
use agentdocker_lite.Compose.Project.Shutdown.{down}
use agentdocker_lite.Compose.Project.Lifecycle.{
  bring_up, up, up_stopped, reset_boxes, restart_services, reset,
}
use agentdocker_lite.Compose.Project.Frames.{
  Quiet, still, chain, and_then-Quiet, start_service-Quiet, wait_all_healthy-Quiet,
}
use agentdocker_lite.Compose.Project.Leaks.{
  Tracked, holds, Quiet-Tracked, start_all-Tracked, and_then_bound,
}
use agentdocker_lite.Compose.Project.Clean.{Cleaned, down-Cleaned}

pub no_keys : (n : Text) → contains (keys {V = ℕ} []) n ≡ false
unfolding keys contains
no_keys n = refl

List-cases : {A : Type 0} (xs : List A) → (xs ≡ []) ⊎ ((x : A) × (ys : List A) × (xs ≡ x ∷ ys))
List-cases [] = inl refl
List-cases (x ∷ xs) = inr (x, xs, refl)

module _ (host : Host) (id : ℕ) (defs : Dict Service) (order : List Text)
    (image_map : Dict Text) where
  reset_boxes-Quiet :
      (names : List Text) (p : Project)
      → Quiet p (reset_boxes host id defs order image_map names p).1
  unfolding reset_boxes
  reset_boxes-Quiet [] p = still p
  reset_boxes-Quiet (name ∷ names) p = elim (Option-cases (get name defs)) [
    | inl h ↦ rw (reset_boxes, h) (still p)
    | inr (svc, h) ↦ elim (Option-cases (get name p.sandboxes)) [
      | inl k ↦ rw (reset_boxes, h, k) (reset_boxes-Quiet names p)
      | inr (box, k) ↦ elim (Result-cases (host.reset p.log box)) [
        | inr (e, l) ↦ rw (reset_boxes, h, k, l) (still p)
        | inl (cleared, l) ↦
            rw (reset_boxes, h, k, l)
              (chain p (record_event (box_reset name box) p) _
                (record { sandboxes = refl; live = refl; made = λ n. refl; unmade = λ n. refl })
                (reset_boxes-Quiet names (record_event (box_reset name box) p)))
      ]
    ]
  ]

  restart_services-Quiet :
      (names : List Text) (p : Project)
      → Quiet p (restart_services host id defs order image_map names p).1
  unfolding restart_services
  restart_services-Quiet [] p = still p
  restart_services-Quiet (name ∷ names) p = elim (Option-cases (get name defs)) [
    | inl h ↦ rw (restart_services, h) (still p)
    | inr (svc, h) ↦
        rw (restart_services, h)
          (and_then-Quiet p (start_service host name svc p) _ (start_service-Quiet host name svc p)
            (λ started q. restart_services-Quiet names q))
  ]

  pub reset-Quiet : (p : Project) → Quiet p (reset host id defs order image_map p).1
  unfolding reset
  reset-Quiet p =
      and_then-Quiet p (reset_boxes host id defs order image_map order p) _
        (reset_boxes-Quiet order p) (λ cleared q. restart_services-Quiet order q)

  abbrev pub up_run : ℕ → Bool → Project → Run (Unit {0})
  up_run polls detach p = up host id defs order image_map polls detach p

  up-eq-stopped :
      (polls : ℕ) (detach : Bool) (p : Project)
      → p.sandboxes ≡ []
      → up_run polls detach p ≡ up_stopped host id defs order image_map polls detach p
  unfolding up
  up-eq-stopped polls detach p h = simp (up, h)

  up-eq-refused :
      (polls : ℕ) (detach : Bool) (p : Project) (b : Text × Box) (bs : Dict Box)
      → p.sandboxes ≡ b ∷ bs
      → up_run polls detach p ≡ (err (codes "Project already running. Call down() first."), p)
  unfolding up
  up-eq-refused polls detach p b bs h = simp (up, h)

  -- How `up` ends: at once, with the services running, or cleaned up behind an error.
  pub data UpEnd (p : Project) (r : Run (Unit {0})) : Type 0 where
    untouched : (message : Text) → r.0 ≡ err message → Quiet p (r.1) → UpEnd p r
    running : r.0 ≡ ok tt → Tracked order (r.1) → r.1.live ≡ p.live → UpEnd p r
    failed :
        (message : Text) (q : Project)
        → r.0 ≡ err message
        → q.live ≡ p.live
        → Cleaned host id order q (r.1)
        → UpEnd p r

  module _ (distinct : NoRepeat order) where
    bring_up-Tracked :
        (polls : ℕ) (detach : Bool) (p : Project)
        → p.sandboxes ≡ []
        → Tracked order p
        → Tracked order (bring_up host id defs order image_map polls detach p).1
          × ((bring_up host id defs order image_map polls detach p).1.live ≡ p.live)
    unfolding bring_up
    bring_up-Tracked polls detach p empty t =
        and_then_bound (λ q. Tracked order q × (q.live ≡ p.live))
          (λ q. Tracked order q × (q.live ≡ p.live))
          (start_all host image_map polls detach defs order p) _
          (start_all-Tracked host image_map polls detach defs order order p distinct (λ n k. k)
            (λ n k. none_held n) t)
          (λ started q (tq, same). finish detach q tq same) (λ q bound. bound)
      where
        none_held : (n : Text) → holds n p ≡ false
        none_held n = ap (λ d. contains (keys d) n) empty ∙ no_keys n

        finish :
            (detach : Bool) (q : Project)
            → Tracked order q
            → q.live ≡ p.live
            → Tracked order (if detach then done q else wait_all_healthy host polls order q).1
              × ((if detach then done q else wait_all_healthy host polls order q).1.live ≡ p.live)
        finish true q tq same = (tq, same)
        finish false q tq same =
            let h = wait_all_healthy-Quiet host polls order q in
            (Quiet-Tracked order q _ h tq, h.live ∙ same)

    abbrev ready : Project → Project
    ready p = record_event volume_dir_made (record p { has_volume_dir = true })

    brought_up :
        (polls : ℕ) (detach : Bool) (p : Project) (r : Run (Unit {0}))
        → Tracked order (r.1) × (r.1.live ≡ p.live)
        → UpEnd p (elim r.0 [
          | ok finished ↦ (ok tt, r.1)
          | err e ↦ (err e, down host id defs order image_map false true r.1)
        ])
    brought_up polls detach p (ok a, q) (t, same) = running refl t same
    brought_up polls detach p (err e, q) (t, same) =
        failed e q refl same (down-Cleaned host id defs order image_map false true q t)

    up_stopped-UpEnd :
        (polls : ℕ) (detach : Bool) (p : Project)
        → p.sandboxes ≡ []
        → Tracked order p
        → UpEnd p (up_stopped host id defs order image_map polls detach p)
    unfolding up_stopped
    up_stopped-UpEnd polls detach p h t = elim (Result-cases (host.make_volume_dir p.log)) [
      | inr (e, k) ↦
          rw (up_stopped, k)
            (untouched e refl
              (record { sandboxes = refl; live = refl; made = λ n. refl; unmade = λ n. refl }))
      | inl (made, k) ↦
          rw (up_stopped, k)
            (brought_up polls detach p
              (bring_up host id defs order image_map polls detach (ready p))
              (bring_up-Tracked polls detach (ready p) h
                (record { balanced = t.balanced; within = t.within })))
    ]

    pub up-UpEnd :
        (polls : ℕ) (detach : Bool) (p : Project)
        → Tracked order p
        → UpEnd p (up_run polls detach p)
    up-UpEnd polls detach p t = elim (List-cases p.sandboxes) [
      | inl h ↦ rw (up-eq-stopped polls detach p h) (up_stopped-UpEnd polls detach p h t)
      | inr (b, bs, h) ↦ rw (up-eq-refused polls detach p b bs h) (untouched _ refl (still p))
    ]
