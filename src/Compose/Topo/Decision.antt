-- ===== src/Compose/Topo/Decision.antt =====
-- `_topo_sort` returns an order exactly when the services have no dependency cycle.
use agentdocker_lite.Base.{
  ℕ, suc, ◌<◌, ◌≡◌, ◌↔◌, refl, true, List, [], ◌∷◌, ◌++◌, inl, inr, arith, Bool-cases,
  if◌then◌else◌, append_assoc, length,
}
use agentdocker_lite.Text.{Text, text_eq, text_eq_iff, contains}
use agentdocker_lite.Dict.{Dict}
use agentdocker_lite.Compose.Service.{Service}
use agentdocker_lite.Compose.Topo.{Outcome, ok, cycle, out_of_fuel, deps_of, topo_sort}
use agentdocker_lite.Compose.Topo.Order.{IsTopological, topo_sort-IsTopological}
use agentdocker_lite.Compose.Topo.Cycles.{IsWalk, IsWalk-suffix, IsReport, topo_sort-IsReport}
use agentdocker_lite.Compose.Topo.Fuel.{deps_of-keys, topo_sort-ne-out_of_fuel}

-- A name from which `depends_on` leads back to it.
pub record HasCycle (services : Dict Service) : Type 0 where
  pub name : Text
  pub between : List Text
  pub walk : IsWalk (deps_of services) (name ∷ (between ++ name ∷ []))

-- Where a name first stands.
position : List Text → Text → ℕ
position [] x = 0
position (y ∷ ys) x = if text_eq y x then 0 else suc (position ys x)

record FirstAt (xs : List Text) (x : Text) : Type 0 where
  before : List Text
  after : List Text
  split : xs ≡ before ++ x ∷ after
  here : position xs x ≡ length before

first_at : (xs : List Text) (x : Text) → contains xs x ≡ true → FirstAt xs x
unfolding position contains
first_at [] x h = cc
first_at (y ∷ ys) x h = elim (Bool-cases (text_eq y x)) [
  | inl same ↦ record {
    before = [];
    after = ys;
    split = ground (arith, text_eq_iff y x);
    here = ground arith;
  }
  | inr other ↦
      let r = first_at ys x (ground arith) in
      record {
        before = y ∷ r.before;
        after = r.after;
        split = ground (arith, r.split);
        here = ground (arith, r.here);
      }
]

position-lt :
    (pre rest : List Text) (x : Text)
    → contains pre x ≡ true
    → position (pre ++ rest) x < length pre
unfolding position contains
position-lt [] rest x h = cc
position-lt (y ∷ pre) rest x h = ground (arith, position-lt pre rest x)

module _ (services : Dict Service) (order : List Text) (sorted : IsTopological services order) where
  edge-position :
      (a b : Text) → contains (deps_of services a) b ≡ true → position order b < position order a
  edge-position a b edge =
      let at = first_at order a (sorted.complete a (deps_of-keys services a b edge)) in
      let b_before = sorted.deps_first at.before at.after a b at.split edge in
      let lt = position-lt at.before (a ∷ at.after) b b_before in rw at.here (rw (← at.split) at lt)

  walk-position :
      (a : Text) (between : List Text) (z : Text)
      → IsWalk (deps_of services) (a ∷ (between ++ z ∷ []))
      → position order z < position order a
  walk-position a [] z (edge, _) = edge-position a z edge
  walk-position a (b ∷ between) z (edge, w) =
      omega (arith, edge-position a b edge, walk-position b between z w)

IsReport-HasCycle :
    (services : Dict Service) (c : List Text) → IsReport services c → HasCycle services
IsReport-HasCycle services c r =
    let at = first_at r.path r.name r.repeated in
    record {
      name = r.name;
      between = at.after;
      walk =
          IsWalk-suffix (deps_of services) at.before _
            (rw append_assoc at (rw at.split at (rw r.spelled at r.walk)));
    }

-- `_topo_sort` returns an order exactly when no service depends on itself, directly or through
-- others; in every other case it reports a cycle.
pub topo_sort_decides :
    (services : Dict Service)
    → ((order : List Text) × (topo_sort services ≡ ok order)) ↔ ¬ HasCycle services
topo_sort_decides services = (
  λ done cyc.
      let (order, e) = done in
      absurd (
        omega (
          arith,
          walk-position services order (topo_sort-IsTopological services order e) cyc.name
              cyc.between cyc.name cyc.walk,
        )),
  λ acyclic. returned acyclic (topo_sort services) refl,
)
  where
    returned :
        ¬ HasCycle services
        → (r : Outcome (List Text)) → topo_sort services ≡ r
        → (order : List Text) × (topo_sort services ≡ ok order)
    returned acyclic (ok order) e = (order, e)
    returned acyclic (cycle c) e =
        absurd (acyclic (IsReport-HasCycle services c (topo_sort-IsReport services c e)))
    returned acyclic out_of_fuel e = absurd (topo_sort-ne-out_of_fuel services e)
