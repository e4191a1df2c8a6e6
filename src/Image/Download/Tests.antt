-- ===== src/Image/Download/Tests.antt =====
-- A blob of five bytes whose first response breaks off after two.
use agentdocker_lite.Base.{ℕ, zero, suc, ◌≡◌, refl, none, [], ◌∷◌, Result, err, arith, drop}
use agentdocker_lite.Text.{Text}
use agentdocker_lite.Image.Request.{Failure, connection_error, other_error, http_error, is_redirect}
use agentdocker_lite.Image.Request.Backoff.{backoff}
use agentdocker_lite.Image.Download.{
  Bytes, Stream, ended, broke_off, escaped, Opening, opened, http, returned, raised, open_blob,
  download_blob_streaming,
}
use agentdocker_lite.Image.Download.Retries.{
  Holds, Catches, download_blob_streaming-returned, download_blob_streaming_refused,
}

abbrev blob : Bytes
blob = 1 ∷ 2 ∷ 3 ∷ 4 ∷ 5 ∷ []

abbrev first_two : Stream
first_two = record { chunks = (1 ∷ 2 ∷ []) ∷ []; ending = broke_off }

abbrev rest : ℕ → Stream
rest offset = record { chunks = drop offset blob ∷ []; ending = ended }

-- The first attempt breaks off, if it starts at the beginning.
abbrev flaky : ℕ → ℕ → Opening
flaky zero zero = opened first_two
flaky _ offset = opened (rest offset)

abbrev nowhere : Text → ℕ → Result Failure Stream
nowhere url offset = err connection_error

resumed : (download_blob_streaming flaky nowhere 3 (9 ∷ [])).file ≡ blob
unfolding download_blob_streaming
resumed = refl

flaky-Holds : Holds flaky nowhere 3 1
unfolding open_blob
flaky-Holds offset = (rest offset, refl, refl)

flaky-Catches : Catches flaky nowhere 3 1
unfolding open_blob
flaky-Catches zero zero h = λ e. ground arith
flaky-Catches zero (suc offset) h = λ e. ground arith
flaky-Catches (suc j) offset h = absurd (omega arith)

download_blob_streaming-returned_example :
    (download_blob_streaming flaky nowhere 3 (9 ∷ [])).answer ≡ returned
download_blob_streaming-returned_example =
    download_blob_streaming-returned flaky nowhere 3 1 (9 ∷ []) (omega arith) flaky-Holds
      flaky-Catches

-- A body that is cut short without an error is taken for the whole one.
cut_short :
    download_blob_streaming
      (λ attempt offset. opened (record { chunks = (1 ∷ 2 ∷ []) ∷ []; ending = ended }))
      nowhere
      3
      []
    ≡ record { answer = returned; file = 1 ∷ 2 ∷ []; waits = [] }
unfolding download_blob_streaming
cut_short = refl

-- A chunked body that breaks off is not asked for again.
not_resumed :
    download_blob_streaming
      (λ attempt offset. opened (record { chunks = (1 ∷ 2 ∷ []) ∷ []; ending = escaped }))
      nowhere
      3
      []
    ≡ record { answer = raised other_error; file = 1 ∷ 2 ∷ []; waits = [] }
unfolding download_blob_streaming
not_resumed = refl

-- A blob that is not there is asked for four times.
download_blob_streaming_refused_example :
    download_blob_streaming (λ attempt offset. http 404 none) nowhere 3 []
    ≡ record { answer = raised (http_error 404); file = []; waits = backoff 0 3 }
unfolding is_redirect
download_blob_streaming_refused_example =
    download_blob_streaming_refused (λ attempt offset. http 404 none) nowhere 3 [] 404 none refl
      (λ attempt offset. refl)
