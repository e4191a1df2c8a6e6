-- ===== src/Image/Request/Credentials.antt =====
-- Which requests a run sends, and where the token goes.
use agentdocker_lite.Base.{
  ℕ, zero, suc, ◌+◌, ◌≤◌, ◌≡◌, refl, ◌&&◌, ◌⊎◌, inl, inr, Option, none, List, [], ◌∷◌, ◌++◌, ltb,
  arith, length, length-append, All, Option-cases, Bool-cases,
}
use agentdocker_lite.Text.{Text, codes}
use agentdocker_lite.Image.Request.{
  Reply, Answer, Run, Sent, redirect_of, is_transient, attempts, registry_request, header,
  retry_sleep,
}

All-append {ℓ κ} :
    {A : Type ℓ} (P : A → Type κ) (xs ys : List A) → All P xs → All P ys → All P (xs ++ ys)
All-append P [] ys h k = k
All-append P (x ∷ xs) ys (p, h) k = (p, All-append P xs ys h k)

module _ (server : ℕ → Reply) (follow : Text → Answer) (url : Text) (token accept : Option Text)
    (max_retries : ℕ) where
  -- A request to the registry itself, or one without credentials.
  abbrev pub KeepsToken : Sent → Type 0
  KeepsToken s = (s.url ≡ url) ⊎ (s.authorization ≡ none)

  record IsDiscreet (most : ℕ) (run : Run) : Type 0 where
    kept : All KeepsToken run.sent
    few : length run.sent ≤ most

  abbrev loop : ℕ → ℕ → List Sent → List ℕ → Run
  loop = attempts server follow url token accept max_retries

  abbrev request : Sent
  request = record {
    url = url;
    authorization = header (codes "Bearer ") token;
    accept = header [] accept;
  }

  -- What a round sends: the request alone, or a redirect's behind it, or more in later rounds.
  data Round (rounds attempt : ℕ) (sent : List Sent) (run : Run) : Type 0 where
    last : run.sent ≡ sent ++ request ∷ [] → Round rounds attempt sent run
    redirected :
        (location : Text)
        → run.sent
          ≡ sent ++ request ∷ record { url = location; authorization = none; accept = none } ∷ []
        → Round rounds attempt sent run
    again :
        (waits : List ℕ)
        → run ≡ loop rounds (attempt + 1) (sent ++ request ∷ []) waits
        → Round rounds attempt sent run

  round_cases :
      (rounds attempt : ℕ) (sent : List Sent) (waits : List ℕ)
      → Round rounds attempt sent (loop (suc rounds) attempt sent waits)
  unfolding attempts
  round_cases rounds attempt sent waits = elim (Option-cases (redirect_of (server attempt))) [
    | inr (location, to) ↦ redirected location (ground (arith, to))
    | inl direct ↦ elim (Bool-cases (is_transient (server attempt) && ltb attempt max_retries)) [
      | inl on ↦ again (waits ++ retry_sleep attempt ∷ []) (ground arith)
      | inr off ↦ last (ground arith)
    ]
  ]

  attempts-IsDiscreet :
      (rounds attempt most : ℕ) (sent : List Sent) (waits : List ℕ)
      → All KeepsToken sent
      → length sent + rounds + 1 ≤ most
      → IsDiscreet most (loop rounds attempt sent waits)
  attempts-IsDiscreet zero attempt most sent waits h le =
      unfold attempts in record { kept = h; few = omega arith }
  attempts-IsDiscreet (suc rounds) attempt most sent waits h le =
      elim (round_cases rounds attempt sent waits) [
        | last e ↦ record {
          kept = rw e (All-append KeepsToken sent (request ∷ []) h (inl refl, tt));
          few = rw (e, length-append) (omega arith);
        }
        | redirected location e ↦ record {
          kept = rw e (All-append KeepsToken sent _ h (inl refl, (inr refl, tt)));
          few = rw (e, length-append) (omega arith);
        }
        | again later e ↦ rw e (
            attempts-IsDiscreet rounds (attempt + 1) most (sent ++ request ∷ []) later
              (All-append KeepsToken sent (request ∷ []) h (inl refl, tt))
              (rw length-append (omega arith)))
      ]

-- A run sends at most two requests more than there are retries, and the token goes to the registry
-- alone: a request to any other address bears no credentials.
pub registry_request-keeps_token :
    (server : ℕ → Reply) (follow : Text → Answer) (url : Text) (token accept : Option Text)
    (max_retries : ℕ)
    → All
        (λ s. (s.url ≡ url) ⊎ (s.authorization ≡ none))
        (registry_request server follow url token accept max_retries).sent
      × (length (registry_request server follow url token accept max_retries).sent
          ≤ max_retries + 2)
unfolding registry_request
registry_request-keeps_token server follow url token accept max_retries =
    let d =
      attempts-IsDiscreet server follow url token accept max_retries (max_retries + 1) 0
        (max_retries + 2) [] [] tt (omega arith) in
    (d.kept, d.few)
