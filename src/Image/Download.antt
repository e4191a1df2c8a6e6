-- ===== src/Image/Download.antt =====
-- `_download_blob_streaming` of image/registry.py: a blob is streamed to a file, and a later attempt
-- goes on at the offset reached. What the servers answer is a parameter. An error raised in the inner
-- `try` is caught by the outer one, an HTTP error too, since it is an `OSError`. An error that is none
-- ends the loop: an `IncompleteRead` of a chunked body that breaks off, or the `ValueError` of a
-- redirect to an address that is no URL, which is an answer of `follow`.
pub mod Rounds
pub mod Complete
pub mod Retries
mod Tests
use agentdocker_lite.Base.{
  ℕ, zero, suc, ◌+◌, Bool, true, false, ◌&&◌, Option, none, some, List, [], ◌∷◌, ◌++◌, ltb, leb,
  if◌then◌else◌, length, Result, ok, err,
}
use agentdocker_lite.Text.{Text}
use agentdocker_lite.Image.Request.{
  Failure, http_error, connection_error, other_error, is_redirect, retry_sleep,
}

abbrev pub Bytes : Type 0
Bytes = List ℕ

-- What follows the chunks that `resp.read` returns: an empty one, an `OSError`, or another error. A
-- body that is cut short of its Content-Length ends with an empty chunk like a whole one.
pub data Ending : Type 0 where
  ended broke_off escaped : Ending

pub record Stream : Type 0 where
  pub chunks : List Bytes
  pub ending : Ending

pub data Opening : Type 0 where
  opened : Stream → Opening
  http : ℕ → Option Text → Opening
  unreachable : Opening
  other_trouble : Opening

pub data Answer : Type 0 where
  returned : Answer
  raised : Failure → Answer
  fell_through : Answer

pub record Run : Type 0 where
  pub answer : Answer
  pub file : Bytes
  pub waits : List ℕ

-- The read loop: the file and the offset behind the chunks.
unfoldable pub write_chunks : List Bytes → Bytes → ℕ → Bytes × ℕ
write_chunks [] file offset = (file, offset)
write_chunks (chunk ∷ chunks) file offset =
    write_chunks chunks (file ++ chunk) (offset + length chunk)

-- open(dest, "ab" if offset > 0 else "wb")
unfoldable pub open_file : ℕ → Bytes → Bytes
open_file offset file = if ltb 0 offset then file else []

-- except (OSError, urllib.error.URLError)
unfoldable pub is_os_error : Failure → Bool
is_os_error (http_error code) = true
is_os_error connection_error = true
is_os_error other_error = false

-- How the inner `try` ends: by a response, by `continue`, or by an error.
pub data Opened : Type 0 where
  response : Stream → Opened
  continue : Opened
  failed : Failure → Opened

abbrev pub as_opened : Result Failure Stream → Opened
as_opened (ok stream) = response stream
as_opened (err e) = failed e

module _ (server : ℕ → ℕ → Opening) (follow : Text → ℕ → Result Failure Stream)
    (max_retries : ℕ) where
  unfoldable pub open_blob : ℕ → ℕ → Opening → Opened
  unfolding is_redirect
  open_blob attempt offset (opened stream) = response stream
  open_blob attempt offset unreachable = failed connection_error
  open_blob attempt offset other_trouble = failed other_error
  open_blob attempt offset (http code location) =
      if is_redirect code
      then elim location [
        | some (c ∷ url) ↦ as_opened (follow (c ∷ url) offset)
        | _ ↦ failed (http_error code)
      ]
      else if leb 500 code && ltb attempt max_retries
      then continue
      else failed (http_error code)

  -- The loop from an attempt on; the server is asked with the attempt and the offset.
  unfoldable pub attempts : ℕ → ℕ → ℕ → Bytes → List ℕ → Run
  unfolding open_blob open_file write_chunks is_os_error
  attempts zero attempt offset file waits = record {
    answer = fell_through;
    file = file;
    waits = waits;
  }
  attempts (suc rounds) attempt offset file waits =
      elim (open_blob attempt offset (server attempt offset)) [
        | continue ↦ attempts rounds (attempt + 1) offset file (waits ++ retry_sleep attempt ∷ [])
        | failed e ↦ elim (is_os_error e && ltb attempt max_retries) [
          | true ↦ attempts rounds (attempt + 1) offset file (waits ++ retry_sleep attempt ∷ [])
          | false ↦ record { answer = raised e; file = file; waits = waits }
        ]
        | response stream ↦
            let (file', offset') = write_chunks stream.chunks (open_file offset file) offset in
            elim stream.ending [
              | ended ↦ record { answer = returned; file = file'; waits = waits }
              | escaped ↦ record { answer = raised other_error; file = file'; waits = waits }
              | broke_off ↦ elim (ltb attempt max_retries) [
                | true ↦
                    attempts rounds (attempt + 1) offset' file' (waits ++ retry_sleep attempt ∷ [])
                | false ↦ record { answer = raised connection_error; file = file'; waits = waits }
              ]
            ]
      ]

  unfoldable pub download_blob_streaming : Bytes → Run
  unfolding attempts
  download_blob_streaming file = attempts (max_retries + 1) 0 0 file []
