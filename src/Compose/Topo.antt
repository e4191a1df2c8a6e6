-- ===== src/Compose/Topo.antt =====
-- `_topo_sort` of compose/_parse.py: depth-first sort of the services by `depends_on`. The three
-- collections that the nested `_visit` mutates are a record that is passed on; a set is a list with
-- no repetition. The recursion of `_visit` takes fuel, one more than there are services.
pub mod Invariant
pub mod Order
pub mod Cycles
pub mod Fuel
pub mod Decision
mod Tests
use agentdocker_lite.Base.{
  ℕ, zero, suc, Bool, true, false, Option, none, some, List, [], ◌∷◌, ◌++◌, if◌then◌else◌, length,
}
use agentdocker_lite.Text.{Text, text_eq, contains}
use agentdocker_lite.Dict.{Dict, get, keys}
use agentdocker_lite.Compose.Service.{Service}

pub record State : Type 0 where
  pub visited : List Text
  pub in_stack : List Text
  pub order : List Text

-- `cycle` is the `ValueError`, with the names that its message joins by " -> ".
pub data Outcome {ℓ} (A : Type ℓ) : Type ℓ where
  ok : A → Outcome A
  cycle : List Text → Outcome A
  out_of_fuel : Outcome A

infixl 5 ◌>>=◌
abbrev pub ◌>>=◌ {ℓ κ} : {A : Type ℓ} {B : Type κ} → Outcome A → (A → Outcome B) → Outcome B
ok a >>= f = f a
cycle c >>= f = cycle c
out_of_fuel >>= f = out_of_fuel

-- s.add(x)
unfoldable pub set_add : Text → List Text → List Text
set_add x s = if contains s x then s else x ∷ s

-- s.discard(x)
unfoldable pub set_discard : Text → List Text → List Text
set_discard x [] = []
set_discard x (y ∷ s) = let rest = set_discard x s in if text_eq y x then rest else y ∷ rest

-- The names that the loop of `_visit` goes through: none if there is no such service.
unfoldable pub deps_of : Dict Service → Text → List Text
unfolding get keys
deps_of services name = elim (get name services) [ none ↦ [] | some svc ↦ keys svc.depends_on ]

-- A loop that calls `f` on each name in turn, and stops at an exception.
unfoldable pub for_each : (Text → State → Outcome State) → List Text → State → Outcome State
for_each f [] st = ok st
for_each f (x ∷ xs) st = f x st >>= λ st'. for_each f xs st'

unfoldable pub enter : Text → State → State
unfolding set_add
enter name st = record st { visited = set_add name st.visited; in_stack = set_add name st.in_stack }

unfoldable pub leave : Text → State → State
unfolding set_discard
leave name st = record st { in_stack = set_discard name st.in_stack; order = st.order ++ name ∷ [] }

unfoldable pub visit : Dict Service → ℕ → Text → List Text → State → Outcome State
visit services zero name path st = out_of_fuel
visit services (suc fuel) name path st = elim (contains st.in_stack name) [
  | true ↦ cycle (path ++ name ∷ [])
  | false ↦ elim (contains st.visited name) [
    | true ↦ ok st
    | false ↦
        for_each (λ dep s. visit services fuel dep (path ++ name ∷ []) s) (deps_of services name)
          (enter name st)
        >>= λ s. ok (leave name s)
  ]
]

abbrev pub start : State
start = record { visited = []; in_stack = []; order = [] }

unfoldable pub topo_sort : Dict Service → Outcome (List Text)
topo_sort services = do
  st ← for_each (λ name s. visit services (suc (length services)) name [] s) (keys services) start
  ok st.order
