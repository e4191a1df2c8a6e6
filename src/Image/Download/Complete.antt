-- ===== src/Image/Download/Complete.antt =====
-- A download that returns has written a beginning of the blob, however often it was broken off.
use agentdocker_lite.Base.{ℕ, ◌≤◌, ◌≡◌, List, [], ◌∷◌, ◌++◌, length, Result, take, drop}
use agentdocker_lite.Text.{Text}
use agentdocker_lite.Image.Request.{Failure}
use agentdocker_lite.Image.Download.{Bytes, Stream, Opening, response, open_file, open_blob}

abbrev pub concat : List Bytes → Bytes
concat [] = []
concat (c ∷ cs) = c ++ concat cs

-- The chunks are the bytes of the blob from an offset on, up to where the response ends.
pub record Serves (blob : Bytes) (offset : ℕ) (stream : Stream) : Type 0 where
  pub unsent : Bytes
  pub rest : concat stream.chunks ++ unsent ≡ drop offset blob

-- Each response, direct or behind a redirect, honours the header `Range`: it serves the blob from the
-- offset that was asked for. It may end anywhere, with an error or, cut short, without one.
abbrev pub HonorsRange : (ℕ → ℕ → Opening) → (Text → ℕ → Result Failure Stream) → ℕ → Bytes → Type 0
HonorsRange server follow max_retries blob =
    (attempt offset : ℕ) (stream : Stream)
    → open_blob server follow max_retries attempt offset (server attempt offset) ≡ response stream
    → Serves blob offset stream

-- The file followed by what is missing.
abbrev pub IsBeginning : Bytes → Bytes → Type 0
IsBeginning file blob = (missing : Bytes) × (file ++ missing ≡ blob)

-- What is on disk while the loop runs: the first `offset` bytes of the blob, or anything at offset 0.
pub record IsPrefix (blob : Bytes) (offset : ℕ) (file : Bytes) : Type 0 where
  pub bound : offset ≤ length blob
  pub there : open_file offset file ≡ take offset blob
