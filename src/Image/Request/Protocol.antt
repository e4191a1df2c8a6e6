-- ===== src/Image/Request/Protocol.antt =====
-- What the replies of a registry mean for a request, written down without the code's tests: HTTP's
-- codes of redirects and of errors of the server, and the seconds of the waits.
use agentdocker_lite.Base.{
  ℕ, zero, suc, ◌+◌, ◌*◌, ◌^◌, ◌≤◌, ◌<◌, ◌≡◌, refl, ap₂, sym, ◌∙◌, true, false, ◌⊎◌, inl, inr,
  Option, none, some, List, [], ◌∷◌, arith,
}
use Prim.Native.Nat.pow
use agentdocker_lite.Text.{Text}
use agentdocker_lite.Image.Request.{
  Reply, body, http, unreachable, other_trouble, Failure, http_error, connection_error, other_error,
  Answer, returned, raised, is_redirect, redirect_of, is_transient, final_answer, retry_sleep,
  registry_request,
}
use agentdocker_lite.Image.Request.Backoff.{backoff}
use agentdocker_lite.Image.Request.Settled.{settles, settled, registry_request_lem}

-- Moved Permanently, Found, See Other, Temporary Redirect, Permanent Redirect
abbrev pub IsMoved : ℕ → Type 0
IsMoved code = (code ≡ 301) ⊎ ((code ≡ 302) ⊎ ((code ≡ 303) ⊎ ((code ≡ 307) ⊎ (code ≡ 308))))

abbrev pub HasNoUrl : Option Text → Type 0
HasNoUrl none = Unit
HasNoUrl (some []) = Unit
HasNoUrl (some (c ∷ url)) = ⊥

-- The replies that decide a request, with what the request then answers.
pub data Decides (follow : Text → Answer) : Reply → Answer → Type 0 where
  given : (b : Text) → Decides follow (body b) (returned b)
  moved :
      (code c : ℕ) (url : Text)
      → IsMoved code
      → Decides follow (http code (some (c ∷ url))) (follow (c ∷ url))
  moved_nowhere :
      (code : ℕ) (location : Option Text)
      → IsMoved code
      → HasNoUrl location
      → Decides follow (http code location) (raised (http_error code))
  refused :
      (code : ℕ) (location : Option Text)
      → (IsMoved code → ⊥)
      → code < 500
      → Decides follow (http code location) (raised (http_error code))
  unexpected : Decides follow other_trouble (raised other_error)

-- The failures that may go away.
pub data Transient : Reply → Failure → Type 0 where
  no_connection : Transient unreachable connection_error
  server_error :
      (code : ℕ) (location : Option Text)
      → 500 ≤ code
      → Transient (http code location) (http_error code)

-- The seconds to wait behind each attempt.
abbrev pub seconds : ℕ → ℕ
seconds zero = 1
seconds (suc zero) = 2
seconds (suc (suc zero)) = 4
seconds (suc (suc (suc zero))) = 8
seconds (suc (suc (suc (suc zero)))) = 16
seconds (suc (suc (suc (suc (suc n))))) = 30

abbrev pub pauses : ℕ → ℕ → List ℕ
pauses start zero = []
pauses start (suc n) = seconds start ∷ pauses (start + 1) n

thirty_least : (n : ℕ) → 30 ≤ 2 ^ (n + 5)
thirty_least zero = omega arith
thirty_least (suc n) =
    let next : suc n + 5 ≡ suc (n + 5) = omega arith in
    let double : 2 ^ suc (n + 5) ≡ 2 ^ (n + 5) * 2 = pow.suc 2 (n + 5) in
    rw (next, double) (omega (arith, thirty_least n))

retry_sleep-seconds : (n : ℕ) → retry_sleep n ≡ seconds n
unfolding retry_sleep
retry_sleep-seconds zero = refl
retry_sleep-seconds (suc zero) = refl
retry_sleep-seconds (suc (suc zero)) = refl
retry_sleep-seconds (suc (suc (suc zero))) = refl
retry_sleep-seconds (suc (suc (suc (suc zero)))) = refl
retry_sleep-seconds (suc (suc (suc (suc (suc n))))) =
    let least = thirty_least n in
    let shown : n + 5 ≡ suc (suc (suc (suc (suc n)))) = omega arith in
    omega (arith, rw shown at least)

backoff-pauses : (start n : ℕ) → backoff start n ≡ pauses start n
backoff-pauses start zero = refl
backoff-pauses start (suc n) =
    ap₂ (λ w ws. w ∷ ws) (retry_sleep-seconds start) (backoff-pauses (start + 1) n)

is_redirect-moved : (code : ℕ) → IsMoved code → is_redirect code ≡ true
unfolding is_redirect
is_redirect-moved code h = ground arith

is_redirect-unmoved : (code : ℕ) → (IsMoved code → ⊥) → is_redirect code ≡ false
unfolding is_redirect
is_redirect-unmoved code h = ground arith

server_error-unmoved : (code : ℕ) → 500 ≤ code → is_redirect code ≡ false
unfolding is_redirect
server_error-unmoved code h = ground arith

redirect_of-unmoved :
    (code : ℕ) (location : Option Text)
    → is_redirect code ≡ false
    → redirect_of (http code location) ≡ none
unfolding redirect_of
redirect_of-unmoved code none h = refl
redirect_of-unmoved code (some []) h = refl
redirect_of-unmoved code (some (c ∷ url)) h = ground arith

-- The code's tests agree with the protocol.
settles-Decides :
    (follow : Text → Answer) (reply : Reply) (answer : Answer)
    → Decides follow reply answer
    → (settles reply ≡ true) × (settled follow reply ≡ answer)
unfolding redirect_of is_transient final_answer
settles-Decides follow _ _ (given b) = (refl, refl)
settles-Decides follow _ _ (moved code c url m) =
    let direct = is_redirect-moved code m in (ground arith, ground arith)
settles-Decides follow _ _ (moved_nowhere code none m h) = (ground arith, refl)
settles-Decides follow _ _ (moved_nowhere code (some []) m h) = (ground arith, refl)
settles-Decides follow _ _ (moved_nowhere code (some (c ∷ url)) m h) = absurd h
settles-Decides follow _ _ (refused code location m lt) =
    let direct = redirect_of-unmoved code location (is_redirect-unmoved code m) in
    (ground arith, ground arith)
settles-Decides follow _ _ unexpected = (refl, refl)

settles-Transient :
    (follow : Text → Answer) (reply : Reply) (failure : Failure)
    → Transient reply failure
    → (settles reply ≡ false) × (settled follow reply ≡ raised failure)
unfolding redirect_of is_transient final_answer
settles-Transient follow _ _ no_connection = (refl, refl)
settles-Transient follow _ _ (server_error code location le) =
    let direct = redirect_of-unmoved code location (server_error-unmoved code le) in
    (ground arith, ground arith)

-- The attempts before the n-th meet failures that may go away: no connection, or an HTTP error from
-- 500 on. If the n-th meets something else, a body, a redirect, an HTTP error below 500 or an error
-- that is no `OSError`, then that decides: the body is returned, the redirect's location is followed
-- if there is one, and any error is raised. If no retry is left, a failure is raised too. The waits
-- before are 1, 2, 4, 8, 16 and then 30 seconds each, one behind each failure.
pub registry_request-settled :
    (server : ℕ → Reply) (follow : Text → Answer) (url : Text) (token accept : Option Text)
    (max_retries n : ℕ) (failures : ℕ → Failure) (answer : Answer)
    → n ≤ max_retries
    → ((j : ℕ) → j < n → Transient (server j) (failures j))
    → (Decides follow (server n) answer
        ⊎ ((n ≡ max_retries) × Transient (server n) (failures n) × (answer ≡ raised (failures n))))
    → ((registry_request server follow url token accept max_retries).answer ≡ answer)
      × ((registry_request server follow url token accept max_retries).waits ≡ pauses 0 n)
registry_request-settled server follow url token accept max_retries n failures answer bound before
      (inl decides) =
    let (last, shown) = settles-Decides follow (server n) answer decides in
    let (answered, waited) =
      registry_request_lem server follow url token accept max_retries n bound
        (λ j h. (settles-Transient follow (server j) (failures j) (before j h)).0) (inl last) in
    (answered ∙ shown, waited ∙ backoff-pauses 0 n)
registry_request-settled server follow url token accept max_retries n failures answer bound before
      (inr (last, fails, raises)) =
    let (answered, waited) =
      registry_request_lem server follow url token accept max_retries n bound
        (λ j h. (settles-Transient follow (server j) (failures j) (before j h)).0) (inr last) in
    (
      answered ∙ (settles-Transient follow (server n) (failures n) fails).1 ∙ sym raises,
      waited ∙ backoff-pauses 0 n,
    )
