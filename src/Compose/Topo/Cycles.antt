-- ===== src/Compose/Topo/Cycles.antt =====
-- The cycle that `_topo_sort` reports.
use agentdocker_lite.Base.{
  ℕ, zero, suc, ◌≡◌, refl, true, ◌⊎◌, inl, inr, List, [], ◌∷◌, ◌++◌, arith, Bool-cases,
}
use agentdocker_lite.Text.{Text, text_eq_iff, contains, contains-append}
use agentdocker_lite.Dict.{Dict, keys}
use agentdocker_lite.Compose.Service.{Service}
use agentdocker_lite.Compose.Topo.{
  State, Outcome, ok, cycle, out_of_fuel, ◌>>=◌, deps_of, for_each, enter, visit, start, topo_sort,
}
use agentdocker_lite.Compose.Topo.Invariant.{Inv, Visits, visit_lem, enter-Inv, contains-set_add}
use agentdocker_lite.Compose.Topo.Order.{Inv-start}

-- Each name depends on the next.
abbrev pub IsWalk : (Text → List Text) → List Text → Type 0
IsWalk deps [] = Unit
IsWalk deps (a ∷ []) = Unit
IsWalk deps (a ∷ b ∷ rest) = (contains (deps a) b ≡ true) × IsWalk deps (b ∷ rest)

IsWalk-concat :
    (deps : Text → List Text) (xs : List Text) (n d : Text)
    → IsWalk deps (xs ++ n ∷ [])
    → contains (deps n) d ≡ true
    → IsWalk deps ((xs ++ n ∷ []) ++ d ∷ [])
IsWalk-concat deps [] n d w e = (e, tt)
IsWalk-concat deps (x ∷ []) n d (h, w) e = (h, (e, tt))
IsWalk-concat deps (x ∷ y ∷ xs) n d (h, w) e = (h, IsWalk-concat deps (y ∷ xs) n d w e)

pub IsWalk-suffix :
    (deps : Text → List Text) (xs ys : List Text) → IsWalk deps (xs ++ ys) → IsWalk deps ys
IsWalk-suffix deps [] ys w = w
IsWalk-suffix deps (x ∷ []) [] w = tt
IsWalk-suffix deps (x ∷ []) (y ∷ ys) (h, w) = w
IsWalk-suffix deps (x ∷ y ∷ xs) ys (h, w) = IsWalk-suffix deps (y ∷ xs) ys w

-- A walk whose last name stood on it before.
pub record IsReport (services : Dict Service) (c : List Text) : Type 0 where
  pub path : List Text
  pub name : Text
  pub spelled : c ≡ path ++ name ∷ []
  pub walk : IsWalk (deps_of services) c
  pub repeated : contains path name ≡ true

>>=-eq-cycle {ℓ κ} :
    {A : Type ℓ} {B : Type κ} (m : Outcome A) (f : A → Outcome B) {c : List Text}
    → (m >>= f) ≡ cycle c
    → (m ≡ cycle c) ⊎ ((a : A) × (m ≡ ok a) × (f a ≡ cycle c))
>>=-eq-cycle (ok a) f h = inr (a, refl, h)
>>=-eq-cycle (cycle d) f h = inl (ground arith)
>>=-eq-cycle out_of_fuel f h = cc

report-injective : {c d : List Text} → ◌≡◌ {A = Outcome State} (cycle c) (cycle d) → c ≡ d
report-injective h = ground arith

module _ (services : Dict Service) where
  -- The stack holds the names of the path.
  abbrev OnPath : List Text → State → Type 0
  OnPath path st = (x : Text) → contains st.in_stack x ≡ contains path x

  for_each_cycle :
      (path allowed : List Text) (f : Text → State → Outcome State) (c : List Text)
      → Visits services f
      → ((x : Text) (st : State)
          → contains allowed x ≡ true
          → Inv services st
          → OnPath path st
          → f x st ≡ cycle c
          → IsReport services c)
      → (xs : List Text) (st : State)
      → ((x : Text) → contains xs x ≡ true → contains allowed x ≡ true)
      → Inv services st
      → OnPath path st
      → for_each f xs st ≡ cycle c
      → IsReport services c
  unfolding for_each contains
  for_each_cycle path allowed f c good step [] st sub inv on e = cc
  for_each_cycle path allowed f c good step (x ∷ xs) st sub inv on e =
      elim (>>=-eq-cycle (f x st) _ e) [
        | inl now ↦ step x st (sub x (ground (arith, text_eq_iff x x))) inv on now
        | inr (mid, first, rest) ↦
            let (a, _) = good x st mid inv first in
            for_each_cycle path allowed f c good step xs mid (λ y h. sub y (ground arith)) a.inv
              (λ y. ground (arith, a.stack y, on y)) rest
      ]

  enter-OnPath :
      (path : List Text) (name : Text) (st : State)
      → OnPath path st
      → OnPath (path ++ name ∷ []) (enter name st)
  unfolding enter contains
  enter-OnPath path name st on x =
      ground (arith, on x, contains-set_add name st.in_stack x, contains-append path (name ∷ []) x)

  visit_cycle :
      (fuel : ℕ) (path : List Text) (name : Text) (st : State) (c : List Text)
      → IsWalk (deps_of services) (path ++ name ∷ [])
      → Inv services st
      → OnPath path st
      → visit services fuel name path st ≡ cycle c
      → IsReport services c
  unfolding visit
  visit_cycle zero path name st c w inv on e = cc
  visit_cycle (suc fuel) path name st c w inv on e = elim (Bool-cases (contains st.in_stack name)) [
    | inl hit ↦
        let same : path ++ name ∷ [] ≡ c = report-injective (rw (hit, visit) at e) in
        record {
          path = path;
          name = name;
          spelled = ground arith;
          walk = rw same at w;
          repeated = ground (arith, on name);
        }
    | inr off ↦ elim (Bool-cases (contains st.visited name)) [
      | inl old ↦ cc (rw (off, old, visit) at e)
      | inr new ↦
          let e' = rw (off, new, visit) at e in
          elim (>>=-eq-cycle (for_each _ (deps_of services name) (enter name st)) _ e') [
            | inl inside ↦
                for_each_cycle (path ++ name ∷ []) (deps_of services name) _ c
                  (visit_lem services fuel (path ++ name ∷ []))
                  (λ x s edge i o h.
                    visit_cycle fuel (path ++ name ∷ []) x s c
                      (IsWalk-concat (deps_of services) path name x w edge) i o h)
                  (deps_of services name) (enter name st) (λ x h. h)
                  (enter-Inv services name st inv new) (enter-OnPath path name st on) inside
            | inr (mid, _, done) ↦ cc
          ]
    ]
  ]

-- What `_topo_sort` reports as a cycle is a walk along `depends_on` whose last name stands on it
-- before, so a genuine cycle.
pub topo_sort-IsReport :
    (services : Dict Service) (c : List Text) → topo_sort services ≡ cycle c → IsReport services c
unfolding topo_sort
topo_sort-IsReport services c e = elim (>>=-eq-cycle (for_each _ (keys services) start) _ e) [
  | inl looped ↦
      for_each_cycle services [] (keys services) _ c (visit_lem services _ [])
        (λ x s _ i o h. visit_cycle services _ [] x s c tt i o h) (keys services) start (λ x h. h)
        (Inv-start services) (unfold contains in λ x. refl) looped
  | inr (st, _, done) ↦ cc
]
