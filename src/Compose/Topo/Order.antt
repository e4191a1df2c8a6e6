-- ===== src/Compose/Topo/Order.antt =====
-- The order that `_topo_sort` returns.
use agentdocker_lite.Base.{◌≡◌, refl, true, ◌||◌, List, [], ◌∷◌, ◌++◌, arith}
use agentdocker_lite.Text.{Text, contains, NoRepeat}
use agentdocker_lite.Dict.{Dict, keys}
use agentdocker_lite.Compose.Service.{Service}
use agentdocker_lite.Compose.Topo.{ok, deps_of, for_each, start, topo_sort}
use agentdocker_lite.Compose.Topo.Invariant.{>>=-eq-ok, Inv, DepsBefore, visit_lem, for_each_lem}

pub Inv-start : (services : Dict Service) → Inv services start
unfolding contains
Inv-start services = record { cover = λ x. refl; apart = λ x. refl; sorted = tt; distinct = tt }

DepsBefore-split :
    (deps : Text → List Text) (seen pre : List Text) (n : Text) (post : List Text)
    → DepsBefore deps seen (pre ++ n ∷ post)
    → (d : Text) → contains (deps n) d ≡ true
    → (contains pre d || contains seen d) ≡ true
unfolding contains
DepsBefore-split deps seen [] n post (here, later) d e = here d e
DepsBefore-split deps seen (x ∷ pre) n post (here, later) d e =
    ground (arith, DepsBefore-split deps (x ∷ seen) pre n post later d e)

pub record IsTopological (services : Dict Service) (order : List Text) : Type 0 where
  pub complete : (x : Text) → contains (keys services) x ≡ true → contains order x ≡ true
  pub deps_first :
      (pre post : List Text) (n d : Text)
      → order ≡ pre ++ n ∷ post
      → contains (deps_of services n) d ≡ true
      → contains pre d ≡ true
  pub distinct : NoRepeat order

-- If `_topo_sort` returns an order, then the order holds every service, no name twice, and each name
-- stands behind all the names that it depends on.
pub topo_sort-IsTopological :
    (services : Dict Service) (order : List Text)
    → topo_sort services ≡ ok order
    → IsTopological services order
unfolding topo_sort contains
topo_sort-IsTopological services order e =
    let (st, looped, out) = >>=-eq-ok (for_each _ (keys services) start) _ e in
    let same : st.order ≡ order = ground arith in
    let (a, all) =
      for_each_lem services _ (visit_lem services _ []) (keys services) start st
        (Inv-start services) looped in
    record {
      complete = λ x h. ground (arith, all x h);
      deps_first = λ pre post n d split h. ground (
        arith,
        DepsBefore-split (deps_of services) [] pre n post
            (let p : st.order ≡ pre ++ n ∷ post = cc in rw p at a.inv.sorted) d h,
      );
      distinct = rw same at a.inv.distinct;
    }
