-- ===== src/Compose/Health/History.antt =====
-- The status that a history of rounds leads to.
use agentdocker_lite.Base.{
  ℕ, ◌+◌, ◌≤◌, ◌<◌, is_zero, ◌≡◌, refl, ◌∙◌, Bool, true, false, not, ◌&&◌, List, [], ◌∷◌, leb,
  if◌then◌else◌, arith, any, all, length,
}
use agentdocker_lite.Compose.Health.{
  Status, starting, healthy, unhealthy, exited, raised, Config, Monitor, Round, in_start,
  loop_round, after_rounds,
}

unfoldable pub passed : Round → Bool
passed r = elim r.probe [ exited code ↦ is_zero code | raised ↦ false ]

-- The failed checks since the last that passed.
abbrev pub trailing : List Round → ℕ
trailing [] = 0
trailing (r ∷ older) = if passed r then 0 else trailing older + 1

-- The clock does not run backwards.
abbrev pub IsChronological : List Round → Type 0
IsChronological [] = Unit
IsChronological (r ∷ []) = Unit
IsChronological (r ∷ q ∷ older) = (q.elapsed ≤ r.elapsed) × IsChronological (q ∷ older)

abbrev pub expected : Config → List Round → Status
expected cfg [] = starting
expected cfg (r ∷ older) =
    if not (in_start cfg r) && leb cfg.retries (trailing (r ∷ older))
    then unhealthy
    else if any passed (r ∷ older)
    then healthy
    else starting

-- The counter holds the number of failed checks since the last that passed, whether they fell into
-- the start period or not.
pub failures-eq-trailing :
    (cfg : Config) (h : List Round) → (after_rounds cfg h).consecutive_failures ≡ trailing h
unfolding after_rounds passed
failures-eq-trailing cfg [] = refl
failures-eq-trailing cfg (r ∷ older) = ground (arith, failures-eq-trailing cfg older)

status-loop_round :
    (cfg : Config) (r : Round) (m : Monitor)
    → (loop_round cfg r m).status ≡ (
        if not (in_start cfg r)
          && leb cfg.retries (if passed r then 0 else m.consecutive_failures + 1)
        then unhealthy
        else if passed r
        then healthy
        else m.status)
unfolding loop_round passed
status-loop_round cfg r m = ground arith

status-after_rounds :
    (cfg : Config) (r : Round) (older : List Round)
    → (after_rounds cfg (r ∷ older)).status ≡ (
        if not (in_start cfg r) && leb cfg.retries (trailing (r ∷ older))
        then unhealthy
        else if passed r
        then healthy
        else (after_rounds cfg older).status)
status-after_rounds cfg r older =
    unfold after_rounds in
    status-loop_round cfg r (after_rounds cfg older)
    ∙ ground (arith, failures-eq-trailing cfg older)

in_start_mono :
    (cfg : Config) (r q : Round)
    → q.elapsed ≤ r.elapsed
    → in_start cfg r ≡ true
    → in_start cfg q ≡ true
unfolding in_start
in_start_mono cfg r q le h = ground arith

-- Where at least one failure is needed and the clock does not run backwards, the status is unhealthy
-- exactly if the last round began behind the start period and the failures since the last passed
-- check have reached `retries`; else it is healthy if some check has passed, and starting if none.
pub status-eq-expected :
    (cfg : Config) (h : List Round)
    → 0 < cfg.retries
    → IsChronological h
    → (after_rounds cfg h).status ≡ expected cfg h
status-eq-expected cfg [] pos c = unfold after_rounds in refl
status-eq-expected cfg (r ∷ []) pos c =
    status-after_rounds cfg r [] ∙ unfold after_rounds in ground arith
status-eq-expected cfg (r ∷ q ∷ older) pos (le, c) =
    status-after_rounds cfg r (q ∷ older)
    ∙ ground (arith, status-eq-expected cfg (q ∷ older) pos c, in_start_mono cfg r q le)

trailing-failed : (h : List Round) → all (λ q. not (passed q)) h ≡ true → trailing h ≡ length h
trailing-failed [] e = refl
trailing-failed (r ∷ older) e = ground (arith, trailing-failed older)

-- Failures of the start period do count: however long the period went on, once `retries - 1` of its
-- checks have failed without one that passed, the first failure behind it makes the service
-- unhealthy.
pub start_failures_count :
    (cfg : Config) (r : Round) (older : List Round)
    → all (in_start cfg) older ≡ true
    → all (λ q. not (passed q)) older ≡ true
    → cfg.retries ≤ length older + 1
    → in_start cfg r ≡ false
    → passed r ≡ false
    → (after_rounds cfg (r ∷ older)).status ≡ unhealthy
start_failures_count cfg r older inside failed enough behind fails =
    status-after_rounds cfg r older ∙ ground (arith, trailing-failed older failed)
