-- ===== src/Compose/Health.antt =====
-- `_HealthMonitor` of compose/_project.py. One round of `_loop` is a step on the monitor's status and
-- its failure counter; when the round began and how the check ended come from outside.
pub mod History
mod Tests
use agentdocker_lite.Base.{
  ℕ, ◌+◌, ℤ, is_zero, Bool, true, false, not, ◌&&◌, List, [], ◌∷◌, ltb, leb, if◌then◌else◌,
}

pub data Status : Type 0 where
  starting healthy unhealthy : Status

-- How `box.run` ended: by an exit code, or by an exception.
pub data Probe : Type 0 where
  exited : ℤ → Probe
  raised : Probe

-- The periods are in one unit of time, whichever it is.
pub record Config : Type 0 where
  pub interval : ℕ
  pub start_period : ℕ
  pub start_interval : ℕ
  pub retries : ℕ

pub record Monitor : Type 0 where
  pub status : Status
  pub consecutive_failures : ℕ

-- A round: `time.monotonic() - t0` when it begins, and how its check ends.
pub record Round : Type 0 where
  pub elapsed : ℕ
  pub probe : Probe

abbrev pub created : Monitor
created = record { status = starting; consecutive_failures = 0 }

unfoldable pub in_start : Config → Round → Bool
in_start cfg r = ltb r.elapsed cfg.start_period

-- What the round waits for at its end.
unfoldable pub check_interval : Config → Round → ℕ
unfolding in_start
check_interval cfg r = if in_start cfg r then cfg.start_interval else cfg.interval

unfoldable pub record_probe : Probe → Monitor → Monitor
record_probe (exited code) m =
    if is_zero code
    then record { status = healthy; consecutive_failures = 0 }
    else record m { consecutive_failures = m.consecutive_failures + 1 }
record_probe raised m = record m { consecutive_failures = m.consecutive_failures + 1 }

unfoldable pub loop_round : Config → Round → Monitor → Monitor
unfolding in_start record_probe
loop_round cfg r m =
    let m' = record_probe r.probe m in
    if not (in_start cfg r) && leb cfg.retries m'.consecutive_failures
    then record m' { status = unhealthy }
    else m'

-- The monitor behind the rounds of a history, the last round first.
unfoldable pub after_rounds : Config → List Round → Monitor
unfolding loop_round
after_rounds cfg [] = created
after_rounds cfg (r ∷ older) = loop_round cfg r (after_rounds cfg older)
