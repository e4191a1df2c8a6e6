-- ===== src/Compose/Project/Leaks.antt =====
-- The invariant of a project's sandboxes: what was made and not deleted is in `_sandboxes`, under a
-- name of the startup order.
use agentdocker_lite.Base.{
  ℕ, ◌+◌, ◌≡◌, refl, sym, ok, err, ◌∙◌, ap, Bool, true, false, List, [], ◌∷◌, if◌then◌else◌, arith,
  Option-cases, inl, inr,
}
use agentdocker_lite.Text.{
  Text, text_eq, text_eq_iff, contains, NoRepeat, contains-head, contains-tail, contains-differs,
}
use agentdocker_lite.Dict.{Dict, get, keys, contains-keys-put}
use agentdocker_lite.Compose.Service.{Service}
use agentdocker_lite.Compose.Project.{Host, Project, Run, Box, record_event, created, and_then}
use agentdocker_lite.Compose.Project.Startup.{start_one, start_all, add_sandbox}
use agentdocker_lite.Compose.Project.Frames.{times_created, times_deleted, Quiet}
use agentdocker_lite.Compose.Project.Creations.{Progress, unchanged, added, start_one-Progress}

abbrev pub holds : Text → Project → Bool
holds n p = contains (keys p.sandboxes) n

pub record Tracked (order : List Text) (p : Project) : Type 0 where
  pub balanced :
      (n : Text) → times_created n p.log ≡ (times_deleted n p.log + (if holds n p then 1 else 0))
  pub within : (n : Text) → holds n p ≡ true → contains order n ≡ true

pub Quiet-Tracked :
    (order : List Text) (p q : Project) → Quiet p q → Tracked order p → Tracked order q
Quiet-Tracked order p q h t = record {
  balanced = λ n.
      let a = t.balanced n in
      let b = h.made n in
      let c = h.unmade n in let d = ap (λ s. contains (keys s) n) h.sandboxes in ground arith;
  within = λ n k. t.within n (sym (ap (λ s. contains (keys s) n) h.sandboxes) ∙ k);
}

add-Tracked :
    (order : List Text) (name : Text) (box : Box) (p : Project)
    → holds name p ≡ false
    → contains order name ≡ true
    → Tracked order p
    → Tracked order (add_sandbox name box (record_event (created name box) p))
add-Tracked order name box p fresh there t = record {
  balanced = λ n.
      let a = t.balanced n in
      let b = contains-keys-put name n box p.sandboxes in
      let c = text_eq_iff name n in ground arith;
  within = λ n k.
      let a = t.within n in
      let b = contains-keys-put name n box p.sandboxes in
      let c = text_eq_iff name n in ground arith;
}

-- The registry is as it was, and only the name given may be new.
record Extends (name : Text) (p q : Project) : Type 0 where
  live : q.live ≡ p.live
  others : (n : Text) → text_eq name n ≡ false → holds n p ≡ false → holds n q ≡ false

Progress-Tracked :
    (host : Host) (order : List Text) (name : Text) (p q : Project)
    → holds name p ≡ false
    → contains order name ≡ true
    → Tracked order p
    → Progress host name p q
    → Tracked order q × Extends name p q
Progress-Tracked host order name p q fresh there t (unchanged h) = (
  Quiet-Tracked order p q h t,
  record { live = h.live; others = λ n k l. ap (λ s. contains (keys s) n) h.sandboxes ∙ l },
)
Progress-Tracked host order name p q fresh there t (added box s h k) =
    let before = Quiet-Tracked order p s h t in
    let s' = add_sandbox name box (record_event (created name box) s) in
    let kept : (n : Text) → holds n s ≡ holds n p =
      λ n. ap (λ d. contains (keys d) n) h.sandboxes in
    (
      Quiet-Tracked order s' q k (add-Tracked order name box s (kept name ∙ fresh) there before),
      record {
        live = k.live ∙ h.live;
        others = λ n other l.
            ap (λ d. contains (keys d) n) k.sandboxes
            ∙ (contains-keys-put name n box s.sandboxes ∙ rw other (kept n ∙ l));
      },
    )

-- A bound that the first run leaves gives one on the whole, also if the first one raises.
pub and_then_bound :
    {A B : Type 0} (P Q : Project → Type 0) (r : Run A) (f : A → Project → Run B)
    → P (r.1)
    → ((a : A) (q : Project) → P q → Q ((f a q).1))
    → ((q : Project) → P q → Q q)
    → Q ((and_then r f).1)
and_then_bound P Q (ok a, q) f h next stop = next a q h
and_then_bound P Q (err e, q) f h next stop = stop q h

-- The loop of `up`, over names that are not yet held.
pub start_all-Tracked :
    (host : Host) (image_map : Dict Text) (polls : ℕ) (detach : Bool) (defs : Dict Service)
    (order names : List Text) (p : Project)
    → NoRepeat names
    → ((n : Text) → contains names n ≡ true → contains order n ≡ true)
    → ((n : Text) → contains names n ≡ true → holds n p ≡ false)
    → Tracked order p
    → Tracked order (start_all host image_map polls detach defs names p).1
      × ((start_all host image_map polls detach defs names p).1.live ≡ p.live)
unfolding start_all
start_all-Tracked host image_map polls detach defs order [] p distinct sub fresh t = (t, refl)
start_all-Tracked host image_map polls detach defs order (name ∷ names) p (alone, distinct) sub
      fresh t =
    elim (Option-cases (get name defs)) [
      | inl h ↦ rw (start_all, h) (t, refl)
      | inr (svc, h) ↦
          rw (start_all, h)
            (and_then_bound (λ q. Tracked order q × Extends name p q)
              (λ q. Tracked order q × (q.live ≡ p.live))
              (start_one host image_map polls detach name svc p) _
              (Progress-Tracked host order name p _ (fresh name (contains-head name names))
                (sub name (contains-head name names)) t
                (start_one-Progress host image_map polls detach name svc p))
              (λ a q (tq, ext).
                let (tr, lr) =
                  start_all-Tracked host image_map polls detach defs order names q distinct
                    (λ n k. sub n (contains-tail name names n k))
                    (λ n k.
                      ext.others n (contains-differs name names n alone k)
                        (fresh n (contains-tail name names n k)))
                    tq in
                (tr, lr ∙ ext.live))
              (λ q (tq, ext). (tq, ext.live)))
    ]
