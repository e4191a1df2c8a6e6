-- ===== src/Compose/Topo/Tests.antt =====
-- `_topo_sort` on small sets of services.
use agentdocker_lite.Base.{◌≡◌, ◌≢◌, ◌↔◌, refl, List, [], ◌∷◌, map}
use agentdocker_lite.Text.{Text, codes, text_eq, contains}
use agentdocker_lite.Dict.{Dict}
use agentdocker_lite.Compose.Service.{Service, default_service}
use agentdocker_lite.Compose.Topo.{
  ok, cycle, out_of_fuel, deps_of, for_each, enter, leave, visit, topo_sort,
}
use agentdocker_lite.Compose.Topo.Order.{IsTopological, topo_sort-IsTopological}
use agentdocker_lite.Compose.Topo.Cycles.{IsReport, topo_sort-IsReport}
use agentdocker_lite.Compose.Topo.Fuel.{topo_sort-ne-out_of_fuel}
use agentdocker_lite.Compose.Topo.Decision.{HasCycle, topo_sort_decides}

abbrev started : List Text → Dict Text
started names = map (λ n. (n, codes "service_started")) names

abbrev service : Text → List Text → Text × Service
service name deps = (name, record (default_service name) { depends_on = started deps })

abbrev web : Text
web = codes "web"

abbrev api : Text
api = codes "api"

abbrev db : Text
db = codes "db"

-- web needs api and db, api needs db.
abbrev three_tiers : Dict Service
three_tiers = service web (api ∷ db ∷ []) ∷ service api (db ∷ []) ∷ service db [] ∷ []

abbrev circular : Dict Service
circular = service web (api ∷ []) ∷ service api (db ∷ []) ∷ service db (api ∷ []) ∷ []

three_tiers_sorted : topo_sort three_tiers ≡ ok (db ∷ api ∷ web ∷ [])
unfolding topo_sort for_each visit enter leave deps_of text_eq contains
three_tiers_sorted = refl

circular_reported : topo_sort circular ≡ cycle (web ∷ api ∷ db ∷ api ∷ [])
unfolding topo_sort for_each visit enter leave deps_of text_eq contains
circular_reported = refl

topo_sort-IsTopological_example : IsTopological three_tiers (db ∷ api ∷ web ∷ [])
topo_sort-IsTopological_example =
    topo_sort-IsTopological three_tiers (db ∷ api ∷ web ∷ []) three_tiers_sorted

topo_sort-IsReport_example : IsReport circular (web ∷ api ∷ db ∷ api ∷ [])
topo_sort-IsReport_example =
    topo_sort-IsReport circular (web ∷ api ∷ db ∷ api ∷ []) circular_reported

topo_sort-ne-out_of_fuel_example : topo_sort circular ≢ out_of_fuel
topo_sort-ne-out_of_fuel_example = topo_sort-ne-out_of_fuel circular

topo_sort_decides_example :
    ((order : List Text) × (topo_sort circular ≡ ok order)) ↔ ¬ HasCycle circular
topo_sort_decides_example = topo_sort_decides circular
