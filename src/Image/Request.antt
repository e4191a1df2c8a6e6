-- ===== src/Image/Request.antt =====
-- `_registry_request` of image/registry.py: a request with retries. What the server answers to each
-- attempt, and what a redirect leads to, are parameters. A run keeps the requests that were sent and
-- the whole seconds that `_retry_sleep` waited; its jitter, below a tenth of a second, is left out.
pub mod Backoff
pub mod Settled
pub mod Protocol
pub mod Credentials
mod Tests
use Prim.Native.Nat.{min}
use agentdocker_lite.Base.{
  ℕ, zero, suc, ◌+◌, ◌^◌, Bool, true, false, ◌&&◌, ◌||◌, Option, none, some, List, [], ◌∷◌, ◌++◌,
  ltb, leb, ◌==◌, if◌then◌else◌,
}
use agentdocker_lite.Text.{Text, codes}

-- What the server makes of one attempt: a body, an HTTP error with its `Location` header, an
-- `OSError` of the connection, or an error that is none, such as an `IncompleteRead` of the body.
pub data Reply : Type 0 where
  body : Text → Reply
  http : ℕ → Option Text → Reply
  unreachable : Reply
  other_trouble : Reply

-- The last is an error that is not an `OSError`.
pub data Failure : Type 0 where
  http_error : ℕ → Failure
  connection_error : Failure
  other_error : Failure

pub data Answer : Type 0 where
  returned : Text → Answer
  raised : Failure → Answer
  -- The loop ends with no return, and the function returns `None`.
  fell_through : Answer

pub record Sent : Type 0 where
  pub url : Text
  pub authorization : Option Text
  pub accept : Option Text

pub record Run : Type 0 where
  pub answer : Answer
  pub sent : List Sent
  pub waits : List ℕ

unfoldable pub is_redirect : ℕ → Bool
is_redirect code = code == 301 || (code == 302 || (code == 303 || (code == 307 || code == 308)))

-- The location to follow, if the reply is a redirect that has one.
unfoldable pub redirect_of : Reply → Option Text
unfolding is_redirect
redirect_of (http code (some (c ∷ url))) = if is_redirect code then some (c ∷ url) else none
redirect_of _ = none

-- A reply after which the loop goes on, while attempts are left.
unfoldable pub is_transient : Reply → Bool
is_transient (body b) = false
is_transient (http code location) = leb 500 code
is_transient unreachable = true
is_transient other_trouble = false

unfoldable pub final_answer : Reply → Answer
final_answer (body b) = returned b
final_answer (http code location) = raised (http_error code)
final_answer unreachable = raised connection_error
final_answer other_trouble = raised other_error

-- min(2 ** attempt, 30)
unfoldable pub retry_sleep : ℕ → ℕ
retry_sleep attempt = min (2 ^ attempt) 30

-- An empty token or header is not sent.
abbrev pub header : Text → Option Text → Option Text
header prefix none = none
header prefix (some []) = none
header prefix (some (c ∷ s)) = some (prefix ++ c ∷ s)

module _ (server : ℕ → Reply) (follow : Text → Answer) (url : Text) (token accept : Option Text)
    (max_retries : ℕ) where
  abbrev pub api_request : Sent
  api_request = record {
    url = url;
    authorization = header (codes "Bearer ") token;
    accept = header [] accept;
  }

  abbrev pub redirect_request : Text → Sent
  redirect_request location = record { url = location; authorization = none; accept = none }

  -- The loop from an attempt on, with what was sent and waited before.
  unfoldable pub attempts : ℕ → ℕ → List Sent → List ℕ → Run
  unfolding redirect_of is_transient final_answer
  attempts zero attempt sent waits = record { answer = fell_through; sent = sent; waits = waits }
  attempts (suc rounds) attempt sent waits = elim (redirect_of (server attempt)) [
    | some location ↦ record {
      answer = follow location;
      sent = sent ++ api_request ∷ redirect_request location ∷ [];
      waits = waits;
    }
    | none ↦ elim (is_transient (server attempt) && ltb attempt max_retries) [
      | true ↦
          attempts rounds (attempt + 1) (sent ++ api_request ∷ [])
            (waits ++ retry_sleep attempt ∷ [])
      | false ↦ record {
        answer = final_answer (server attempt);
        sent = sent ++ api_request ∷ [];
        waits = waits;
      }
    ]
  ]

  unfoldable pub registry_request : Run
  unfolding attempts
  registry_request = attempts (max_retries + 1) 0 [] []
