-- ===== src/Compose/Topo/Fuel.antt =====
-- The fuel of `_topo_sort` suffices: a nested call is made only behind a service newly visited.
use agentdocker_lite.Base.{
  ℕ, zero, suc, ◌+◌, ◌≤◌, ◌<◌, ◌≡◌, ◌≢◌, refl, true, false, ◌⊎◌, some, List, [], ◌∷◌, ◌++◌, inl,
  inr, arith, Bool-cases, Option-cases, if◌then◌else◌, length,
}
use agentdocker_lite.Text.{Text, text_eq, text_eq_iff, contains}
use agentdocker_lite.Dict.{Dict, get, keys}
use agentdocker_lite.Compose.Service.{Service}
use agentdocker_lite.Compose.Topo.{
  State, Outcome, ok, cycle, out_of_fuel, ◌>>=◌, deps_of, for_each, enter, leave, visit, start,
  topo_sort,
}
use agentdocker_lite.Compose.Topo.Invariant.{>>=-eq-ok, contains-set_add}

>>=-eq-out_of_fuel {ℓ κ} :
    {A : Type ℓ} {B : Type κ} (m : Outcome A) (f : A → Outcome B)
    → (m >>= f) ≡ out_of_fuel
    → (m ≡ out_of_fuel) ⊎ ((a : A) × (m ≡ ok a) × (f a ≡ out_of_fuel))
>>=-eq-out_of_fuel (ok a) f h = inr (a, refl, h)
>>=-eq-out_of_fuel (cycle c) f h = cc
>>=-eq-out_of_fuel out_of_fuel f h = inl refl

unseen : List Text → List Text → ℕ
unseen [] visited = 0
unseen (k ∷ ks) visited = (if contains visited k then 0 else 1) + unseen ks visited

abbrev Grows : List Text → List Text → Type 0
Grows v v' = (x : Text) → contains v x ≡ true → contains v' x ≡ true

unseen_mono : (ks v v' : List Text) → Grows v v' → unseen ks v' ≤ unseen ks v
unfolding unseen
unseen_mono [] v v' g = omega arith
unseen_mono (k ∷ ks) v v' g = ground (arith, g k, unseen_mono ks v v' g)

unseen-lt :
    (ks v v' : List Text) (n : Text)
    → Grows v v'
    → contains ks n ≡ true
    → contains v n ≡ false
    → contains v' n ≡ true
    → unseen ks v' < unseen ks v
unfolding unseen contains
unseen-lt [] v v' n g e old new = cc
unseen-lt (k ∷ ks) v v' n g e old new = elim (Bool-cases (text_eq k n)) [
  | inl same ↦
      let k_is_n : k ≡ n = (text_eq_iff k n).0 same in
      rw k_is_n (ground (arith, unseen_mono ks v v' g))
  | inr other ↦ ground (arith, g k, unseen-lt ks v v' n g (ground arith) old new)
]

unseen-le-length : (ks v : List Text) → unseen ks v ≤ length ks
unfolding unseen
unseen-le-length [] v = omega arith
unseen-le-length (k ∷ ks) v = ground (arith, unseen-le-length ks v)

pub contains-keys {ℓ} :
    {V : Type ℓ} (d : Dict V) (k : Text) (v : V) → get k d ≡ some v → contains (keys d) k ≡ true
unfolding get keys contains
contains-keys [] k v e = cc
contains-keys ((j, w) ∷ d) k v e = ground (arith, contains-keys d k v)

length-keys {ℓ} : {V : Type ℓ} (d : Dict V) → length (keys d) ≡ length d
unfolding keys
length-keys [] = refl
length-keys (x ∷ d) = omega (arith, length-keys d)

-- Only a service has dependencies.
pub deps_of-keys :
    (services : Dict Service) (n d : Text)
    → contains (deps_of services n) d ≡ true
    → contains (keys services) n ≡ true
unfolding deps_of contains
deps_of-keys services n d e = elim (Option-cases (get n services)) [
  | inl missing ↦ ground arith
  | inr (svc, found) ↦ contains-keys services n svc found
]

module _ (services : Dict Service) where
  abbrev VisitsMore : (Text → State → Outcome State) → Type 0
  VisitsMore f = (x : Text) (st st' : State) → f x st ≡ ok st' → Grows st.visited st'.visited

  for_each-Grows :
      (f : Text → State → Outcome State)
      → VisitsMore f
      → (xs : List Text) (st st' : State) → for_each f xs st ≡ ok st'
      → Grows st.visited st'.visited
  unfolding for_each
  for_each-Grows f step [] st st' e = λ x h. ground arith
  for_each-Grows f step (x ∷ xs) st st' e =
      let (mid, first, rest) = >>=-eq-ok (f x st) _ e in
      λ y h. for_each-Grows f step xs mid st' rest y (step x st mid first y h)

  enter-Grows : (name : Text) (st : State) → Grows st.visited (enter name st).visited
  unfolding enter
  enter-Grows name st x h = ground (arith, contains-set_add name st.visited x)

  visit_grows : (fuel : ℕ) (path : List Text) → VisitsMore (λ x s. visit services fuel x path s)
  unfolding visit leave
  visit_grows zero path name st st' e = cc
  visit_grows (suc fuel) path name st st' e = elim (Bool-cases (contains st.in_stack name)) [
    | inl on ↦ cc (rw (on, visit) at e)
    | inr off ↦ elim (Bool-cases (contains st.visited name)) [
      | inl old ↦ λ x h. ground arith
      | inr new ↦
          let e' = rw (off, new, visit) at e in
          let (mid, looped, left) =
            >>=-eq-ok (for_each _ (deps_of services name) (enter name st)) _ e' in
          λ x h. ground (
            arith,
            enter-Grows name st x h,
            for_each-Grows _ (visit_grows fuel (path ++ name ∷ [])) (deps_of services name)
                (enter name st) mid looped x,
          )
    ]
  ]

  for_each_total :
      (f : Text → State → Outcome State) (fuel : ℕ)
      → VisitsMore f
      → ((x : Text) (st : State) → unseen (keys services) st.visited < fuel → f x st ≢ out_of_fuel)
      → (xs : List Text) (st : State) → unseen (keys services) st.visited < fuel
      → for_each f xs st ≢ out_of_fuel
  unfolding for_each
  for_each_total f fuel more step [] st h e = cc
  for_each_total f fuel more step (x ∷ xs) st h e = elim (>>=-eq-out_of_fuel (f x st) _ e) [
    | inl now ↦ step x st h now
    | inr (mid, first, rest) ↦
        let fewer = unseen_mono (keys services) st.visited mid.visited (more x st mid first) in
        for_each_total f fuel more step xs mid (omega arith) rest
  ]

  -- Where a name has dependencies it is a service, and to enter it is progress.
  enter-unseen :
      (name d : Text) (st : State) (fuel : ℕ)
      → unseen (keys services) st.visited < suc fuel
      → contains st.visited name ≡ false
      → contains (deps_of services name) d ≡ true
      → unseen (keys services) (enter name st).visited < fuel
  unfolding enter
  enter-unseen name d st fuel h new edge = omega (
    arith,
    unseen-lt (keys services) st.visited (enter name st).visited name (enter-Grows name st)
        (deps_of-keys services name d edge) new
        (ground (arith, contains-set_add name st.visited name, text_eq_iff name name)),
    h,
  )

  deps_total :
      (xs : List Text) (st : State) (fuel : ℕ) (f : Text → State → Outcome State)
      → VisitsMore f
      → ((x : Text) (s : State) → unseen (keys services) s.visited < fuel → f x s ≢ out_of_fuel)
      → ((d : Text) → contains xs d ≡ true → unseen (keys services) st.visited < fuel)
      → for_each f xs st ≢ out_of_fuel
  unfolding for_each contains
  deps_total [] st fuel f more step room e = cc
  deps_total (x ∷ xs) st fuel f more step room e =
      for_each_total f fuel more step (x ∷ xs) st (room x (ground (arith, text_eq_iff x x))) e

  visit_total :
      (fuel : ℕ) (path : List Text) (name : Text) (st : State)
      → unseen (keys services) st.visited < fuel
      → visit services fuel name path st ≢ out_of_fuel
  unfolding visit
  visit_total zero path name st h e = elim h [ ]
  visit_total (suc fuel) path name st h e = elim (Bool-cases (contains st.in_stack name)) [
    | inl on ↦ cc (rw (on, visit) at e)
    | inr off ↦ elim (Bool-cases (contains st.visited name)) [
      | inl old ↦ cc (rw (off, old, visit) at e)
      | inr new ↦
          elim (>>=-eq-out_of_fuel (for_each _ (deps_of services name) (enter name st)) _
            (rw (off, new, visit) at e)) [
              | inl looped ↦
                  deps_total (deps_of services name) (enter name st) fuel _
                    (visit_grows fuel (path ++ name ∷ [])) (visit_total fuel (path ++ name ∷ []))
                    (λ d edge. enter-unseen name d st fuel h new edge) looped
              | inr (mid, _, done) ↦ cc
            ]
    ]
  ]

-- `_topo_sort` ends, by an order or by a cycle: one unit of fuel more than there are services
-- suffices.
pub topo_sort-ne-out_of_fuel : (services : Dict Service) → topo_sort services ≢ out_of_fuel
unfolding topo_sort
topo_sort-ne-out_of_fuel services e =
    elim (>>=-eq-out_of_fuel (for_each _ (keys services) start) _ e) [
      | inl looped ↦
          for_each_total services _ (suc (length services)) (visit_grows services _ [])
            (λ x s h. visit_total services _ [] x s h) (keys services) start
            (omega (arith, unseen-le-length (keys services) [], length-keys services)) looped
      | inr (st, _, done) ↦ cc
    ]
