-- ===== src/Image/Download/Rounds.antt =====
-- One round of the download loop, by the way in which it ends.
use agentdocker_lite.Base.{
  ℕ, suc, ◌+◌, ◌≡◌, ◌≢◌, refl, true, false, inl, inr, ◌⊎◌, some, List, [], ◌∷◌, ◌++◌, ltb, Result,
  ok, err, arith, Bool-cases,
}
use agentdocker_lite.Text.{Text}
use agentdocker_lite.Image.Request.{Failure, connection_error, other_error, retry_sleep}
use agentdocker_lite.Image.Download.{
  Bytes, Stream, Opening, opened, unreachable, other_trouble, http, Ending, ended, broke_off,
  escaped, is_os_error, as_opened, Run, returned, raised, Opened, response, continue, failed,
  write_chunks, open_file, open_blob, attempts,
}

Ending-cases : (e : Ending) → (e ≡ ended) ⊎ ((e ≡ escaped) ⊎ (e ≡ broke_off))
Ending-cases ended = inl refl
Ending-cases escaped = inr (inl refl)
Ending-cases broke_off = inr (inr refl)

module _ (server : ℕ → ℕ → Opening) (follow : Text → ℕ → Result Failure Stream)
    (max_retries : ℕ) where
  abbrev pub opening : ℕ → ℕ → Opened
  opening attempt offset =
      open_blob server follow max_retries attempt offset (server attempt offset)

  abbrev pub loop : ℕ → ℕ → ℕ → Bytes → List ℕ → Run
  loop = attempts server follow max_retries

  pub data Round (rounds attempt offset : ℕ) (file : Bytes) (waits : List ℕ) (run : Run)
      : Type 0 where
    finished :
        (stream : Stream)
        → opening attempt offset ≡ response stream
        → stream.ending ≡ ended
        → run.answer ≡ returned
        → run.file ≡ (write_chunks stream.chunks (open_file offset file) offset).0
        → Round rounds attempt offset file waits run
    gave_up :
        (failure : Failure)
        → run.answer ≡ raised failure
        → ltb attempt max_retries ≡ false
        → Round rounds attempt offset file waits run
    not_caught :
        (failure : Failure)
        → opening attempt offset ≡ failed failure
        → is_os_error failure ≡ false
        → run.answer ≡ raised failure
        → Round rounds attempt offset file waits run
    escaping :
        (stream : Stream)
        → opening attempt offset ≡ response stream
        → stream.ending ≡ escaped
        → run.answer ≡ raised other_error
        → Round rounds attempt offset file waits run
    retried :
        ltb attempt max_retries ≡ true
        → run ≡ loop rounds (attempt + 1) offset file (waits ++ retry_sleep attempt ∷ [])
        → Round rounds attempt offset file waits run
    resumed :
        (stream : Stream)
        → opening attempt offset ≡ response stream
        → stream.ending ≡ broke_off
        → ltb attempt max_retries ≡ true
        → run
          ≡ loop rounds
              (attempt + 1)
              (write_chunks stream.chunks (open_file offset file) offset).1
              (write_chunks stream.chunks (open_file offset file) offset).0
              (waits ++ retry_sleep attempt ∷ [])
        → Round rounds attempt offset file waits run

  as_opened-ne-continue : (r : Result Failure Stream) → as_opened r ≢ continue
  as_opened-ne-continue (ok stream) e = ground arith
  as_opened-ne-continue (err failure) e = ground arith

  continue_more :
      (attempt offset : ℕ) (reply : Opening)
      → open_blob server follow max_retries attempt offset reply ≡ continue
      → ltb attempt max_retries ≡ true
  unfolding open_blob
  continue_more attempt offset (opened stream) q = ground arith
  continue_more attempt offset unreachable q = ground arith
  continue_more attempt offset other_trouble q = ground arith
  continue_more attempt offset (http code (some (c ∷ url))) q =
      ground (arith, as_opened-ne-continue (follow (c ∷ url) offset))
  continue_more attempt offset (http code location) q = ground arith

  pub round_cases :
      (rounds attempt offset : ℕ) (file : Bytes) (waits : List ℕ)
      → Round rounds attempt offset file waits (loop (suc rounds) attempt offset file waits)
  unfolding attempts
  round_cases rounds attempt offset file waits = by_opening (opening attempt offset) refl
    where
      by_opening :
          (o : Opened)
          → opening attempt offset ≡ o
          → Round rounds attempt offset file waits (loop (suc rounds) attempt offset file waits)
      by_opening continue q =
          retried (continue_more attempt offset (server attempt offset) q) (ground arith)
      by_opening (failed failure) q = elim (Bool-cases (is_os_error failure)) [
        | inr other ↦ not_caught failure q other (ground arith)
        | inl caught ↦ elim (Bool-cases (ltb attempt max_retries)) [
          | inl more ↦ retried more (ground arith)
          | inr last ↦ gave_up failure (ground arith) last
        ]
      ]
      by_opening (response stream) q = elim (Ending-cases stream.ending) [
        | inl whole ↦ finished stream q whole (ground arith) (ground arith)
        | inr (inl lost) ↦ escaping stream q lost (ground arith)
        | inr (inr broken) ↦ elim (Bool-cases (ltb attempt max_retries)) [
          | inl more ↦ resumed stream q broken more (ground arith)
          | inr last ↦ gave_up connection_error (ground arith) last
        ]
      ]
