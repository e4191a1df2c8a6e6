-- ===== src/Image/Request/Tests.antt =====
-- A blob request that a server redirects after one failure.
use agentdocker_lite.Base.{
  ℕ, zero, suc, ◌+◌, ◌≤◌, ◌<◌, ◌≡◌, refl, ◌⊎◌, inl, inr, [], ◌∷◌, none, some, All, length, arith,
}
use agentdocker_lite.Text.{Text, codes}
use agentdocker_lite.Image.Request.{
  Reply, http, unreachable, Answer, returned, registry_request, connection_error,
}
use agentdocker_lite.Image.Request.Protocol.{
  Transient, no_connection, moved, registry_request-settled,
}
use agentdocker_lite.Image.Request.Credentials.{registry_request-keeps_token}

abbrev flaky : ℕ → Reply
flaky zero = unreachable
flaky (suc n) = http 307 (some (codes "https://cdn/blob"))

abbrev cdn : Text → Answer
cdn location = returned (codes "blob")

abbrev url : Text
url = codes "https://ghcr.io/v2/org/blobs/1"

redirected :
    (registry_request flaky cdn url (some (codes "t")) none 3).answer ≡ returned (codes "blob")
unfolding registry_request
redirected = refl

no_answer : (j : ℕ) → j < 1 → Transient (flaky j) connection_error
no_answer zero h = no_connection
no_answer (suc j) h = absurd (omega arith)

registry_request-settled_example :
    ((registry_request flaky cdn url (some (codes "t")) none 3).answer ≡ returned (codes "blob"))
    × ((registry_request flaky cdn url (some (codes "t")) none 3).waits ≡ 1 ∷ [])
registry_request-settled_example =
    registry_request-settled flaky cdn url (some (codes "t")) none 3 1 (λ n. connection_error)
      (returned (codes "blob")) (omega arith) no_answer
      (inl (moved 307 b'h' (codes "ttps://cdn/blob") (inr (inr (inr (inl refl))))))

registry_request-keeps_token_example :
    All
      (λ s. (s.url ≡ url) ⊎ (s.authorization ≡ none))
      (registry_request flaky cdn url (some (codes "t")) none 3).sent
    × (length (registry_request flaky cdn url (some (codes "t")) none 3).sent ≤ 3 + 2)
registry_request-keeps_token_example =
    registry_request-keeps_token flaky cdn url (some (codes "t")) none 3
