-- ===== src/Compose/Topo/Invariant.antt =====
-- What `_visit` keeps, and the order that `_topo_sort` returns.
use agentdocker_lite.Base.{
  ℕ, zero, suc, ◌≡◌, refl, true, false, ◌&&◌, ◌||◌, List, [], ◌∷◌, ◌++◌, inl, inr, arith,
  Bool-cases,
}
use agentdocker_lite.Text.{
  Text, text_eq, text_eq_iff, contains, contains-append, NoRepeat, NoRepeat-concat,
}
use agentdocker_lite.Dict.{Dict}
use agentdocker_lite.Compose.Service.{Service}
use agentdocker_lite.Compose.Topo.{
  State, Outcome, ok, ◌>>=◌, set_add, set_discard, deps_of, for_each, enter, leave, visit,
}

-- A chain that returns has returned from its first step.
pub >>=-eq-ok {ℓ κ} :
    {A : Type ℓ} {B : Type κ} {result : B} (first : Outcome A) (next : A → Outcome B)
    → (first >>= next) ≡ ok result
    → (mid : A) × (first ≡ ok mid) × (next mid ≡ ok result)
>>=-eq-ok (ok mid) next e = (mid, refl, e)
>>=-eq-ok _ next e = cc

pub contains-set_add :
    (x : Text) (s : List Text) (y : Text) → contains (set_add x s) y ≡ (text_eq x y || contains s y)
unfolding set_add contains
contains-set_add x s y = ground (arith, text_eq_iff x y)

pub contains-set_discard :
    (x : Text) (s : List Text) (y : Text) (kept : text_eq x y ≡ false)
    → contains (set_discard x s) y ≡ contains s y
unfolding set_discard contains
contains-set_discard x [] y h = refl
contains-set_discard x (z ∷ s) y h =
    ground (arith, contains-set_discard x s y, text_eq_iff x y, text_eq_iff z y, text_eq_iff z x)

pub contains-set_discard_self : (x : Text) (s : List Text) → contains (set_discard x s) x ≡ false
unfolding set_discard contains
contains-set_discard_self x [] = refl
contains-set_discard_self x (z ∷ s) = ground (arith, contains-set_discard_self x s, text_eq_iff z x)

-- Each name stands behind its dependencies, where those of `seen` stand before all.
abbrev pub DepsBefore : (Text → List Text) → List Text → List Text → Type 0
DepsBefore deps seen [] = Unit
DepsBefore deps seen (n ∷ ns) =
    ((d : Text) → contains (deps n) d ≡ true → contains seen d ≡ true)
    × DepsBefore deps (n ∷ seen) ns

DepsBefore-concat :
    (deps : Text → List Text) (seen xs : List Text) (n : Text)
    → DepsBefore deps seen xs
    → ((d : Text) → contains (deps n) d ≡ true → (contains xs d || contains seen d) ≡ true)
    → DepsBefore deps seen (xs ++ n ∷ [])
unfolding contains
DepsBefore-concat deps seen [] n h k = (k, tt)
DepsBefore-concat deps seen (x ∷ xs) n (here, later) k =
    (here, DepsBefore-concat deps (x ∷ seen) xs n later (λ d e. ground (arith, k d e)))

pub record Inv (services : Dict Service) (st : State) : Type 0 where
  pub cover : (x : Text) → contains st.visited x ≡ (contains st.order x || contains st.in_stack x)
  pub apart : (x : Text) → (contains st.order x && contains st.in_stack x) ≡ false
  pub sorted : DepsBefore (deps_of services) [] st.order
  pub distinct : NoRepeat st.order

pub record After (services : Dict Service) (st st' : State) : Type 0 where
  pub inv : Inv services st'
  pub grows : (x : Text) → contains st.order x ≡ true → contains st'.order x ≡ true
  pub stack : (x : Text) → contains st'.in_stack x ≡ contains st.in_stack x

module _ (services : Dict Service) where
  abbrev pub Visits : (Text → State → Outcome State) → Type 0
  Visits f =
      (x : Text) (st st' : State)
      → Inv services st
      → f x st ≡ ok st'
      → After services st st' × (contains st'.order x ≡ true)

  pub for_each_lem :
      (f : Text → State → Outcome State)
      → Visits f
      → (xs : List Text) (st st' : State) → Inv services st
      → for_each f xs st ≡ ok st'
      → After services st st' × ((d : Text) → contains xs d ≡ true → contains st'.order d ≡ true)
  unfolding for_each contains
  for_each_lem f step [] st st' inv e = (
    record { inv = ground arith; grows = λ x h. ground arith; stack = λ x. ground arith },
    λ d h. cc,
  )
  for_each_lem f step (x ∷ xs) st st' inv e =
      let (mid, first, rest) = >>=-eq-ok (f x st) _ e in
      let (a, found) = step x st mid inv first in
      let (b, all) = for_each_lem f step xs mid st' a.inv rest in
      (
        record {
          inv = b.inv;
          grows = λ y h. b.grows y (a.grows y h);
          stack = λ y. ground (arith, b.stack y, a.stack y);
        },
        λ d h. ground (arith, all d, b.grows x found, text_eq_iff x d),
      )

  pub enter-Inv :
      (name : Text) (st : State)
      → Inv services st
      → contains st.visited name ≡ false
      → Inv services (enter name st)
  unfolding enter
  enter-Inv name st inv fresh = record {
    cover = λ x. ground (
      arith,
      inv.cover x,
      contains-set_add name st.visited x,
      contains-set_add name st.in_stack x,
    );
    apart = λ x.
        ground (
          arith,
          inv.cover x,
          inv.apart x,
          contains-set_add name st.in_stack x,
          text_eq_iff name x,
        );
    sorted = inv.sorted;
    distinct = inv.distinct;
  }

  leave-After :
      (name : Text) (st st' : State)
      → Inv services st
      → contains st.visited name ≡ false
      → After services (enter name st) st'
      → ((d : Text) → contains (deps_of services name) d ≡ true → contains st'.order d ≡ true)
      → After services st (leave name st') × (contains (leave name st').order name ≡ true)
  unfolding enter leave contains
  leave-After name st st' inv fresh a before =
      let stacked : contains st'.in_stack name ≡ true =
        ground
          (arith, a.stack name, contains-set_add name st.in_stack name, text_eq_iff name name) in
      let last = λ (x : Text). contains-append st'.order (name ∷ []) x in
      (
        record {
          inv = record {
            cover = λ x. ground (
              arith,
              last x,
              a.inv.cover x,
              contains-set_discard name st'.in_stack x,
              contains-set_discard_self name st'.in_stack,
              text_eq_iff name x,
            );
            apart = λ x. ground (
              arith,
              last x,
              a.inv.apart x,
              contains-set_discard name st'.in_stack x,
              contains-set_discard_self name st'.in_stack,
              text_eq_iff name x,
            );
            sorted =
                DepsBefore-concat (deps_of services) [] st'.order name a.inv.sorted
                  (λ d e. ground (arith, before d e));
            distinct =
                NoRepeat-concat st'.order name a.inv.distinct (ground (arith, a.inv.apart name));
          };
          grows = λ x h. ground (arith, last x, a.grows x h);
          stack = λ x. ground (
            arith,
            a.stack x,
            contains-set_add name st.in_stack x,
            inv.cover name,
            contains-set_discard name st'.in_stack x,
            contains-set_discard_self name st'.in_stack,
            text_eq_iff name x,
          );
        },
        ground (arith, last name, text_eq_iff name name),
      )

  pub visit_lem : (fuel : ℕ) (path : List Text) → Visits (λ x s. visit services fuel x path s)
  unfolding visit
  visit_lem zero path name st st' inv e = cc
  visit_lem (suc fuel) path name st st' inv e = elim (Bool-cases (contains st.in_stack name)) [
    | inl on ↦ cc (rw (on, visit) at e)
    | inr off ↦ elim (Bool-cases (contains st.visited name)) [
      | inl old ↦ (
        record { inv = ground arith; grows = λ x h. ground arith; stack = λ x. ground arith },
        ground (arith, inv.cover name),
      )
      | inr new ↦
          let e' = rw (off, new, visit) at e in
          let (mid, looped, left) =
            >>=-eq-ok (for_each _ (deps_of services name) (enter name st)) _ e' in
          let (a, before) =
            for_each_lem _ (visit_lem fuel (path ++ name ∷ [])) (deps_of services name)
              (enter name st) mid (enter-Inv name st inv new) looped in
          ground (arith, leave-After name st mid inv new a before)
    ]
  ]
