-- ===== src/Compose/Health/Tests.antt =====
-- A monitor's histories.
use agentdocker_lite.Base.{ℕ, pos, ◌≡◌, refl, List, [], ◌∷◌, arith}
use agentdocker_lite.Compose.Health.{
  Config, Round, exited, raised, unhealthy, after_rounds, in_start,
}
use agentdocker_lite.Compose.Health.History.{
  expected, passed, trailing, failures-eq-trailing, status-eq-expected, start_failures_count,
}

abbrev three_retries : Config
three_retries = record { interval = 30; start_period = 60; start_interval = 5; retries = 3 }

abbrev failed_at : ℕ → Round
failed_at t = record { elapsed = t; probe = exited (pos 1) }

abbrev slow_start : List Round
slow_start = record { elapsed = 55; probe = raised } ∷ failed_at 50 ∷ []

two_in_a_row : (after_rounds three_retries slow_start).consecutive_failures ≡ trailing slow_start
two_in_a_row = failures-eq-trailing three_retries slow_start

status-eq-expected_example :
    (after_rounds three_retries (failed_at 60 ∷ slow_start)).status
    ≡ expected three_retries (failed_at 60 ∷ slow_start)
status-eq-expected_example =
    status-eq-expected three_retries (failed_at 60 ∷ slow_start) (omega arith) (omega arith)

-- Three retries, and one failure behind the start period.
start_failures_count_example :
    (after_rounds three_retries (failed_at 60 ∷ slow_start)).status ≡ unhealthy
unfolding in_start passed
start_failures_count_example =
    start_failures_count three_retries (failed_at 60) slow_start refl refl (omega arith) refl refl
