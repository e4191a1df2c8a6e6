-- ===== src/Compose/Project/Clean.antt =====
-- What `down` does to the sandboxes and to the registry.
use agentdocker_lite.Base.{
  ℕ, ◌≡◌, refl, ◌∙◌, ap, Bool, true, false, some, List, [], ◌∷◌, if◌then◌else◌, arith, Option-cases,
  inl, inr,
}
use agentdocker_lite.Text.{Text, text_eq, text_eq_iff, contains, contains-append}
use agentdocker_lite.Dict.{
  Dict, get, remove, keys, contains-keys-remove, get-contains, get-absent, without_keys,
}
use agentdocker_lite.Compose.Service.{Service}
use agentdocker_lite.Compose.Health.{Config}
use agentdocker_lite.Compose.Project.{
  Host, Project, Net, Log, Box, record_event, deleted, image_deleted,
}
use agentdocker_lite.Compose.Project.Shutdown.{
  reversed, remove_first, stop_all, stop_monitors, delete_one, delete_all, signal_main,
  destroy_nets, drop_nets, drop_volumes, delete_images, drop_images, unregister, down,
}
use agentdocker_lite.Compose.Project.Frames.{times_created, times_deleted, Quiet, still, chain}
use agentdocker_lite.Compose.Project.Leaks.{Tracked, holds, Quiet-Tracked}

contains-reversed : (xs : List Text) (n : Text) → contains (reversed xs) n ≡ contains xs n
unfolding contains reversed
contains-reversed [] n = refl
contains-reversed (x ∷ xs) n =
    ground (arith, contains-reversed xs n, contains-append (reversed xs) (x ∷ []) n)

signal_main-Quiet :
    (defs : Dict Service) (name : Text) (box : Box) (p : Project)
    → Quiet p (signal_main defs name box p)
unfolding signal_main
signal_main-Quiet defs name box p = record {
  sandboxes = ground arith;
  live = ground arith;
  made = λ n. ground arith;
  unmade = λ n. ground arith;
}

-- The sandbox of one name is gone, and the others stay.
record Drops (order : List Text) (name : Text) (p q : Project) : Type 0 where
  tracked : Tracked order q
  live : q.live ≡ p.live
  held : (n : Text) → holds n q ≡ (if text_eq name n then false else holds n p)

holds_found :
    (name : Text) (box : Box) (p : Project) → get name p.sandboxes ≡ some box → holds name p ≡ true
holds_found name box p h = get-contains name box p.sandboxes h

delete-Drops :
    (order : List Text) (defs : Dict Service) (name : Text) (box : Box) (p : Project)
    → holds name p ≡ true
    → Tracked order p
    → Drops order name p (
        record_event
          (deleted name box)
          (signal_main defs name box (record p { sandboxes = remove name p.sandboxes })))
delete-Drops order defs name box p there t =
    let cut = record p { sandboxes = remove name p.sandboxes } in
    let q = signal_main-Quiet defs name box cut in
    let kept : (n : Text) → holds n (signal_main defs name box cut) ≡ holds n cut =
      λ n. ap (λ d. contains (keys d) n) q.sandboxes in
    record {
      tracked = record {
        balanced = λ n.
            let a = t.balanced n in
            let b = contains-keys-remove name n p.sandboxes in
            let c = q.made n in
            let d = q.unmade n in let e = kept n in let same = text_eq_iff name n in ground arith;
        within = λ n k.
            let a = t.within n in
            let b = contains-keys-remove name n p.sandboxes in let e = kept n in ground arith;
      };
      live = q.live;
      held = λ n. kept n ∙ contains-keys-remove name n p.sandboxes;
    }

delete_one-Drops :
    (order : List Text) (defs : Dict Service) (name : Text) (p : Project)
    → Tracked order p
    → Drops order name p (delete_one defs name p)
unfolding delete_one
delete_one-Drops order defs name p t = elim (Option-cases (get name p.sandboxes)) [
  | inl h ↦
      rw (delete_one, h)
        (record {
          tracked = t;
          live = refl;
          held = λ n. ground (arith, get-absent name p.sandboxes h, text_eq_iff name n);
        })
  | inr (box, h) ↦
      rw (delete_one, h) (delete-Drops order defs name box p (holds_found name box p h) t)
]

delete_all-Drops :
    (order : List Text) (defs : Dict Service) (names : List Text) (p : Project)
    → Tracked order p
    → Tracked order (delete_all defs names p)
      × ((delete_all defs names p).live ≡ p.live)
      × ((n : Text)
          → holds n (delete_all defs names p) ≡ (if contains names n then false else holds n p))
unfolding delete_all contains
delete_all-Drops order defs [] p t = (t, refl, λ n. refl)
delete_all-Drops order defs (name ∷ names) p t =
    let one = delete_one-Drops order defs name p t in
    let (t', live', held') =
      delete_all-Drops order defs names (delete_one defs name p) one.tracked in
    (t', live' ∙ one.live, λ n. let a = held' n in let b = one.held n in ground arith)

pub stop_monitors-Quiet : (p : Project) → Quiet p (stop_monitors p)
unfolding stop_monitors stop_all
stop_monitors-Quiet p = record {
  sandboxes = refl;
  live = refl;
  made = λ n. (stop_all_lem n p.health_monitors p.log).0;
  unmade = λ n. (stop_all_lem n p.health_monitors p.log).1;
}
  where
    stop_all_lem :
        (n : Text) (ms : Dict Config) (log : Log)
        → (times_created n (stop_all ms log) ≡ times_created n log)
          × (times_deleted n (stop_all ms log) ≡ times_deleted n log)
    stop_all_lem n [] log = (refl, refl)
    stop_all_lem n ((name, cfg) ∷ ms) log = stop_all_lem n ms _

pub drop_nets-Quiet : (p : Project) → Quiet p (drop_nets p)
unfolding drop_nets destroy_nets
drop_nets-Quiet p = record {
  sandboxes = refl;
  live = refl;
  made = λ n. (destroy_nets_lem n p.shared_nets p.log).0;
  unmade = λ n. (destroy_nets_lem n p.shared_nets p.log).1;
}
  where
    destroy_nets_lem :
        (n : Text) (nets : Dict Net) (log : Log)
        → (times_created n (destroy_nets nets log) ≡ times_created n log)
          × (times_deleted n (destroy_nets nets log) ≡ times_deleted n log)
    destroy_nets_lem n [] log = (refl, refl)
    destroy_nets_lem n ((name, net) ∷ nets) log = destroy_nets_lem n nets _

module _ (host : Host) where
  drop_volumes-Quiet : (volumes : Bool) (p : Project) → Quiet p (drop_volumes host volumes p)
  unfolding drop_volumes
  drop_volumes-Quiet volumes p = record {
    sandboxes = ground arith;
    live = ground arith;
    made = λ n. ground arith;
    unmade = λ n. ground arith;
  }

  delete_images_lem :
      (n : Text) (images : List (Text × Text)) (log : Log)
      → (times_created n (delete_images host images log) ≡ times_created n log)
        × (times_deleted n (delete_images host images log) ≡ times_deleted n log)
  unfolding delete_images
  delete_images_lem n [] log = (refl, refl)
  delete_images_lem n ((name, image) ∷ images) log =
      let (a, b) = delete_images_lem n images (image_deleted image ∷ log) in
      (ground arith, ground arith)

  drop_images-Quiet :
      (image_map : Dict Text) (rmi : Bool) (p : Project)
      → Quiet p (drop_images host image_map rmi p)
  unfolding drop_images
  drop_images-Quiet image_map true p = record {
    sandboxes = refl;
    live = refl;
    made = λ n. (delete_images_lem n image_map p.log).0;
    unmade = λ n. (delete_images_lem n image_map p.log).1;
  }
  drop_images-Quiet image_map false p = still p

  -- The state that `down` leaves.
  pub record Cleaned (id : ℕ) (order : List Text) (p q : Project) : Type 0 where
    pub tracked : Tracked order q
    pub empty : q.sandboxes ≡ []
    pub live : q.live ≡ remove_first id p.live

  module _ (id : ℕ) (defs : Dict Service) (order : List Text) (image_map : Dict Text)
      (rmi volumes : Bool) where
    pub down-Cleaned :
        (p : Project)
        → Tracked order p
        → Cleaned id order p (down host id defs order image_map rmi volumes p)
    unfolding down unregister
    down-Cleaned p t =
        let p1 = stop_monitors p in
        let p2 = delete_all defs (reversed order) p1 in
        let p3 = drop_nets p2 in
        let p4 = drop_volumes host volumes p3 in
        let p5 = drop_images host image_map rmi p4 in
        let (t2, live2, held2) =
          delete_all-Drops order defs (reversed order) p1
            (Quiet-Tracked order p p1 (stop_monitors-Quiet p) t) in
        let rest =
          chain p2 p3 p5 (drop_nets-Quiet p2)
            (chain p3 p4 p5 (drop_volumes-Quiet volumes p3) (drop_images-Quiet image_map rmi p4)) in
        let none_held : (n : Text) → holds n p2 ≡ false = λ n.
          let a = held2 n in
          let b = contains-reversed order n in let c = t2.within n in ground arith in
        record {
          tracked = record {
            balanced = (Quiet-Tracked order p2 p5 rest t2).balanced;
            within = (Quiet-Tracked order p2 p5 rest t2).within;
          };
          empty = rest.sandboxes ∙ without_keys p2.sandboxes none_held;
          live = ap (remove_first id) (rest.live ∙ (live2 ∙ (stop_monitors-Quiet p).live));
        }
