-- ===== src/Image/Download/Retries.antt =====
-- How many attempts a download makes, and how it ends.
use agentdocker_lite.Base.{
  ℕ, zero, suc, ◌+◌, ◌-◌, ◌≤◌, ◌<◌, ◌≡◌, ◌≢◌, refl, sym, ◌∙◌, ap, false, Option, List, [], ◌∷◌,
  ◌++◌, ltb, inl, inr, if◌then◌else◌, arith, Result, Bool-cases, append_assoc, append-nil,
}
use agentdocker_lite.Text.{Text}
use agentdocker_lite.Image.Request.{
  connection_error, Failure, http_error, other_error, is_redirect, retry_sleep,
}
use agentdocker_lite.Image.Request.Backoff.{backoff, backoff_suc, backoff_none}
use agentdocker_lite.Image.Download.{
  Bytes, Stream, Opening, http, returned, raised, fell_through, Opened, response, continue, failed,
  ended, escaped, is_os_error, attempts, download_blob_streaming,
}
use agentdocker_lite.Image.Download.Rounds.{
  opening, loop, round_cases, finished, gave_up, not_caught, escaping, retried, resumed,
}

not_os_error : (e : Failure) → is_os_error e ≡ false → e ≡ other_error
unfolding is_os_error
not_os_error (http_error code) h = ground arith
not_os_error connection_error h = ground arith
not_os_error other_error h = refl

module _ (server : ℕ → ℕ → Opening) (follow : Text → ℕ → Result Failure Stream)
    (max_retries : ℕ) where
  attempts-ne-fell_through :
      (rounds attempt offset : ℕ) (file : Bytes) (waits : List ℕ)
      → attempt + rounds ≡ suc max_retries
      → attempt ≤ max_retries
      → (loop server follow max_retries rounds attempt offset file waits).answer ≢ fell_through
  attempts-ne-fell_through zero attempt offset file waits e le h = absurd (omega arith)
  attempts-ne-fell_through (suc rounds) attempt offset file waits e le h =
      elim (round_cases server follow max_retries rounds attempt offset file waits) [
        | finished stream got ends done here ↦ cc
        | gave_up failure how last ↦ cc
        | not_caught failure got other how ↦ cc
        | escaping stream got lost how ↦ cc
        | retried more same ↦
            attempts-ne-fell_through rounds (attempt + 1) offset file _ (omega arith) (ground arith)
              (ap (λ r. r.answer) (sym same) ∙ h)
        | resumed stream got broken more same ↦
            attempts-ne-fell_through rounds (attempt + 1) _ _ _ (omega arith) (ground arith)
              (ap (λ r. r.answer) (sym same) ∙ h)
      ]

  -- Whatever the offset, the response of the n-th attempt does not break off.
  abbrev pub Holds : ℕ → Type 0
  Holds n =
      (offset : ℕ)
      → (stream : Stream) × (opening server follow max_retries n offset ≡ response stream)
        × (stream.ending ≡ ended)

  -- The attempts before the n-th meet no error but an `OSError`.
  abbrev pub Caught : Opened → Type 0
  Caught continue = Unit
  Caught (failed e) = e ≢ other_error
  Caught (response stream) = stream.ending ≢ escaped

  abbrev pub Catches : ℕ → Type 0
  Catches n = (j offset : ℕ) → j < n → Caught (opening server follow max_retries j offset)

  whole_returns :
      (rounds attempt offset : ℕ) (file : Bytes) (waits : List ℕ) (stream : Stream)
      → opening server follow max_retries attempt offset ≡ response stream
      → stream.ending ≡ ended
      → (loop server follow max_retries (suc rounds) attempt offset file waits).answer ≡ returned
  unfolding attempts
  whole_returns rounds attempt offset file waits stream got whole = ground arith

  attempts-returned :
      (n rounds attempt offset : ℕ) (file : Bytes) (waits : List ℕ)
      → Holds n
      → Catches n
      → n ≤ max_retries
      → attempt + rounds ≡ suc max_retries
      → attempt ≤ n
      → (loop server follow max_retries rounds attempt offset file waits).answer ≡ returned
  attempts-returned n zero attempt offset file waits holds caught bound e le = absurd (omega arith)
  attempts-returned n (suc rounds) attempt offset file waits holds caught bound e le =
      elim (Bool-cases (ltb attempt n)) [
        | inr now ↦
            let same : n ≡ attempt = ground arith in
            let (stream, got, whole) = holds offset in
            whole_returns rounds attempt offset file waits stream (rw same at got) whole
        | inl earlier ↦
            let now : attempt < n = ground arith in
            elim (round_cases server follow max_retries rounds attempt offset file waits) [
              | finished stream got ends done here ↦ done
              | gave_up failure how last ↦ absurd (ground arith)
              | not_caught failure got other how ↦
                  let kind : Caught (failed failure) = rw got at (caught attempt offset now) in
                  absurd (kind (not_os_error failure other))
              | escaping stream got lost how ↦
                  let kind : Caught (response stream) = rw got at (caught attempt offset now) in
                  absurd (kind lost)
              | retried more same ↦
                  ap (λ r. r.answer) same
                  ∙ attempts-returned n rounds (attempt + 1) offset file _ holds caught bound
                      (omega arith) (ground arith)
              | resumed stream got broken more same ↦
                  ap (λ r. r.answer) same
                  ∙ attempts-returned n rounds (attempt + 1) _ _ _ holds caught bound (omega arith)
                      (ground arith)
            ]
      ]

  module _ (code : ℕ) (location : Option Text) (plain : is_redirect code ≡ false)
      (refuses : (attempt offset : ℕ) → server attempt offset ≡ http code location) where
    round_refused :
        (rounds attempt offset : ℕ) (file : Bytes) (waits : List ℕ)
        → loop server follow max_retries (suc rounds) attempt offset file waits ≡ (
            if ltb attempt max_retries
            then loop server follow max_retries rounds
                (attempt + 1)
                offset
                file
                (waits ++ retry_sleep attempt ∷ [])
            else record { answer = raised (http_error code); file = file; waits = waits })
    unfolding attempts is_os_error
    round_refused rounds attempt offset file waits = ground (arith, refuses attempt offset)

    attempts_refused :
        (rounds attempt offset : ℕ) (file : Bytes) (waits : List ℕ)
        → attempt + rounds ≡ suc max_retries
        → attempt ≤ max_retries
        → loop server follow max_retries rounds attempt offset file waits ≡ record {
          answer = raised (http_error code);
          file = file;
          waits = waits ++ backoff attempt (max_retries - attempt);
        }
    attempts_refused zero attempt offset file waits e le = absurd (omega arith)
    attempts_refused (suc rounds) attempt offset file waits e le =
        elim (Bool-cases (ltb attempt max_retries)) [
          | inl more ↦
              round_refused rounds attempt offset file waits
              ∙ rw more (
                  attempts_refused rounds (attempt + 1) offset file _ (omega arith) (ground arith)
                  ∙ ap (λ w. record { answer = raised (http_error code); file = file; waits = w })
                      (append_assoc waits (retry_sleep attempt ∷ []) _
                        ∙ ap (λ w. waits ++ w)
                            (sym (backoff_suc attempt max_retries (ground arith)))))
          | inr last ↦
              round_refused rounds attempt offset file waits
              ∙ rw last (
                  ap (λ w. record { answer = raised (http_error code); file = file; waits = w })
                    (sym (append-nil waits)
                      ∙ ap (λ w. waits ++ w)
                          (sym (backoff_none attempt max_retries (ground arith)))))
        ]

-- A download never ends without a `return` or an error.
pub download_blob_streaming-ne-fell_through :
    (server : ℕ → ℕ → Opening) (follow : Text → ℕ → Result Failure Stream) (max_retries : ℕ)
    (file : Bytes)
    → (download_blob_streaming server follow max_retries file).answer ≢ fell_through
unfolding download_blob_streaming
download_blob_streaming-ne-fell_through server follow max_retries file =
    attempts-ne-fell_through server follow max_retries (max_retries + 1) 0 0 file [] (omega arith)
      (omega arith)

-- If one of the attempts allowed gets a response that ends without an error, whatever the offset it
-- asks for, and the attempts before it end with no error but an `OSError`, HTTP errors and responses
-- that break off included, then the download returns.
pub download_blob_streaming-returned :
    (server : ℕ → ℕ → Opening) (follow : Text → ℕ → Result Failure Stream) (max_retries n : ℕ)
    (file : Bytes)
    → n ≤ max_retries
    → Holds server follow max_retries n
    → Catches server follow max_retries n
    → (download_blob_streaming server follow max_retries file).answer ≡ returned
unfolding download_blob_streaming
download_blob_streaming-returned server follow max_retries n file bound holds caught =
    attempts-returned server follow max_retries n (max_retries + 1) 0 0 file [] holds caught bound
      (omega arith) (omega arith)

-- A server that refuses every attempt with one HTTP error, also one below 500 such as 401 or 404, is
-- asked again after each wait until no retry is left, and only then is the error raised.
pub download_blob_streaming_refused :
    (server : ℕ → ℕ → Opening) (follow : Text → ℕ → Result Failure Stream) (max_retries : ℕ)
    (file : Bytes) (code : ℕ) (location : Option Text)
    → is_redirect code ≡ false
    → ((attempt offset : ℕ) → server attempt offset ≡ http code location)
    → download_blob_streaming server follow max_retries file
      ≡ record { answer = raised (http_error code); file = file; waits = backoff 0 max_retries }
unfolding download_blob_streaming
download_blob_streaming_refused server follow max_retries file code location plain refuses =
    attempts_refused server follow max_retries code location plain refuses (max_retries + 1) 0 0
      file [] (omega arith) (omega arith)
    ∙ (let e : max_retries - 0 ≡ max_retries = omega arith in rw e refl)
