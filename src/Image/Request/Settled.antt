-- ===== src/Image/Request/Settled.antt =====
-- Which attempt answers a request, and that one does.

use agentdocker_lite.Base.{
  ℕ, zero, suc, ◌+◌, ◌-◌, ◌≤◌, ◌<◌, ◌≡◌, ◌≢◌, sym, ◌∙◌, append-nil, Bool, true, false, not, ◌&&◌,
  ◌⊎◌, inl, inr, Option, none, some, List, [], ◌∷◌, ◌++◌, ltb, arith, Bool-cases, Option-cases,
  append_assoc,
}
use agentdocker_lite.Text.{Text, codes}
use agentdocker_lite.Image.Request.Backoff.{backoff, backoff_suc, backoff_none}
use agentdocker_lite.Image.Request.{
  Reply, Answer, Run, Sent, fell_through, redirect_of, is_transient, final_answer, retry_sleep,
  header, attempts, registry_request,
}

-- A reply after which no further attempt can follow.
abbrev pub settles : Reply → Bool
settles reply = elim (redirect_of reply) [ none ↦ not (is_transient reply) | some location ↦ true ]

abbrev pub settled : (Text → Answer) → Reply → Answer
settled follow reply = elim (redirect_of reply) [
  | none ↦ final_answer reply
  | some location ↦ follow location
]

module _ (server : ℕ → Reply) (follow : Text → Answer) (url : Text) (token accept : Option Text)
    (max_retries : ℕ) where
  abbrev loop : ℕ → ℕ → List Sent → List ℕ → Run
  loop = attempts server follow url token accept max_retries

  abbrev request : Sent
  request = record {
    url = url;
    authorization = header (codes "Bearer ") token;
    accept = header [] accept;
  }

  record Finds (n attempt : ℕ) (waits : List ℕ) (run : Run) : Type 0 where
    answer : run.answer ≡ settled follow (server n)
    waited : run.waits ≡ waits ++ backoff attempt (n - attempt)

  round_goes_on :
      (rounds attempt : ℕ) (sent : List Sent) (waits : List ℕ)
      → settles (server attempt) ≡ false
      → attempt < max_retries
      → loop (suc rounds) attempt sent waits
        ≡ loop rounds (attempt + 1) (sent ++ request ∷ []) (waits ++ retry_sleep attempt ∷ [])
  unfolding attempts
  round_goes_on rounds attempt sent waits h lt = ground arith

  round_ends :
      (rounds attempt : ℕ) (sent : List Sent) (waits : List ℕ)
      → ((settles (server attempt) ≡ true) ⊎ (attempt ≡ max_retries))
      → ((loop (suc rounds) attempt sent waits).answer ≡ settled follow (server attempt))
        × ((loop (suc rounds) attempt sent waits).waits ≡ waits)
  unfolding attempts
  round_ends rounds attempt sent waits h = (ground arith, ground arith)

  attempts_lem :
      (rounds attempt n : ℕ) (sent : List Sent) (waits : List ℕ)
      → attempt + rounds ≡ suc max_retries
      → attempt ≤ n
      → n ≤ max_retries
      → ((j : ℕ) → attempt ≤ j → j < n → settles (server j) ≡ false)
      → ((settles (server n) ≡ true) ⊎ (n ≡ max_retries))
      → Finds n attempt waits (loop rounds attempt sent waits)
  attempts_lem zero attempt n sent waits e le bound before last = absurd (omega arith)
  attempts_lem (suc rounds) attempt n sent waits e le bound before last =
      elim (Bool-cases (ltb attempt n)) [
        | inl earlier ↦
            let lt : attempt < n = ground arith in
            let later =
              attempts_lem rounds (attempt + 1) n (sent ++ request ∷ [])
                (waits ++ retry_sleep attempt ∷ []) (omega arith) (omega arith) bound
                (λ j h k. before j (omega arith) k) last in
            rw
              (round_goes_on rounds attempt sent waits (before attempt (omega arith) lt)
                (omega arith))
              (record {
                answer = later.answer;
                waited =
                    rw (backoff_suc attempt n lt)
                      (later.waited ∙ append_assoc waits (retry_sleep attempt ∷ []) _);
              })
        | inr now ↦
            let same : n ≡ attempt = ground arith in
            let (answered, waited) = round_ends rounds attempt sent waits (rw same at last) in
            record {
              answer = rw same answered;
              waited = rw (backoff_none attempt n (omega arith)) (waited ∙ sym (append-nil waits));
            }
      ]

-- Which attempt answers, with the tests of the code.
pub registry_request_lem :
    (server : ℕ → Reply) (follow : Text → Answer) (url : Text) (token accept : Option Text)
    (max_retries n : ℕ)
    → n ≤ max_retries
    → ((j : ℕ) → j < n → settles (server j) ≡ false)
    → ((settles (server n) ≡ true) ⊎ (n ≡ max_retries))
    → ((registry_request server follow url token accept max_retries).answer
        ≡ settled follow (server n))
      × ((registry_request server follow url token accept max_retries).waits ≡ backoff 0 n)
unfolding registry_request
registry_request_lem server follow url token accept max_retries n bound before last =
    let found =
      attempts_lem server follow url token accept max_retries (max_retries + 1) 0 n [] []
        (omega arith) (omega arith) bound (λ j _ h. before j h) last in
    (found.answer, let e : n - 0 ≡ n = omega arith in rw e at found.waited)

settled-ne-fell_through :
    (follow : Text → Answer) (reply : Reply)
    → ((location : Text) → follow location ≢ fell_through)
    → settled follow reply ≢ fell_through
settled-ne-fell_through follow reply f e = elim (Option-cases (redirect_of reply)) [
  | inl direct ↦ unfold final_answer in ground arith
  | inr (location, redirected) ↦ f location (ground arith)
]

module _ (server : ℕ → Reply) (follow : Text → Answer) (url : Text) (token accept : Option Text)
    (max_retries : ℕ) (f : (location : Text) → follow location ≢ fell_through) where
  attempts-ne-fell_through :
      (rounds attempt : ℕ) (sent : List Sent) (waits : List ℕ)
      → attempt + rounds ≡ suc max_retries
      → attempt ≤ max_retries
      → (attempts server follow url token accept max_retries rounds attempt sent waits).answer
        ≢ fell_through
  attempts-ne-fell_through zero attempt sent waits e le h = absurd (omega arith)
  attempts-ne-fell_through (suc rounds) attempt sent waits e le h =
      elim (Bool-cases (not (settles (server attempt)) && ltb attempt max_retries)) [
        | inl on ↦ attempts-ne-fell_through rounds (attempt + 1) _ _ (omega arith) (ground arith) (
            rw
              (round_goes_on server follow url token accept max_retries rounds attempt sent waits
                (ground arith) (ground arith))
              at h)
        | inr off ↦ settled-ne-fell_through follow (server attempt) f (
            sym
              (round_ends server follow url token accept max_retries rounds attempt sent waits
                (ground arith)).0
            ∙ h)
      ]

-- A request always returns a body or raises: the loop is never left without a `return`, provided a
-- redirect that is followed returns or raises.
pub registry_request-ne-fell_through :
    (server : ℕ → Reply) (follow : Text → Answer) (url : Text) (token accept : Option Text)
    (max_retries : ℕ)
    → ((location : Text) → follow location ≢ fell_through)
    → (registry_request server follow url token accept max_retries).answer ≢ fell_through
unfolding registry_request
registry_request-ne-fell_through server follow url token accept max_retries f =
    attempts-ne-fell_through server follow url token accept max_retries f (max_retries + 1) 0 [] []
      (omega arith) (omega arith)
