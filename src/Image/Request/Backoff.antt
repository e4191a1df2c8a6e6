-- ===== src/Image/Request/Backoff.antt =====
-- The waits of a loop that retries with growing pauses.
use agentdocker_lite.Base.{ℕ, zero, suc, ◌+◌, ◌-◌, ◌≤◌, ◌<◌, ◌≡◌, refl, List, [], ◌∷◌, arith}
use agentdocker_lite.Image.Request.{retry_sleep}

-- The waits behind the attempts from `start` on, as many as are counted.
abbrev pub backoff : ℕ → ℕ → List ℕ
backoff start zero = []
backoff start (suc n) = retry_sleep start ∷ backoff (start + 1) n

pub backoff_suc :
    (attempt n : ℕ)
    → attempt < n
    → backoff attempt (n - attempt)
      ≡ retry_sleep attempt ∷ backoff (attempt + 1) (n - (attempt + 1))
backoff_suc attempt n lt = let e : n - attempt ≡ suc (n - (attempt + 1)) = omega arith in rw e refl

pub backoff_none : (attempt n : ℕ) → n ≤ attempt → backoff attempt (n - attempt) ≡ []
backoff_none attempt n le = let e : n - attempt ≡ 0 = omega arith in rw e refl
