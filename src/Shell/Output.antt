-- ===== src/Shell/Output.antt =====
-- `_read_until_signal` of _shell.py: the output of a command is read until the signal descriptor gives
-- its exit code. One pass of the loop is given what it finds; `decode` is the decoding of UTF-8.
pub mod Whole
mod Tests
use agentdocker_lite.Base.{
  ℕ, zero, suc, ◌+◌, ℤ, pos, negsuc, Bool, true, false, not, ◌&&◌, Option, none, some, List, [],
  ◌∷◌, ◌++◌, map, ◌==◌, leb, if◌then◌else◌, Result, ok, err, ◌>>=◌,
}
use agentdocker_lite.Text.{Text, codes, join_texts, strip}

abbrev pub Bytes : Type 0
Bytes = List ℕ

-- os.read of the output: bytes, none of them at the end; EIO; another OSError
pub data Read : Type 0 where
  chunk : Bytes → Read
  eio failed : Read

-- What a pass finds: the time, whether the shell is alive (asked when nothing is ready), the read of the
-- output if it is ready, the read of the signal if it is ready (`none` for an OSError), and the reads of
-- what is left of the output behind the exit code, as long as a poll says that something is ready.
pub record Round : Type 0 where
  pub now : ℕ
  pub alive : Bool
  pub stdout : Option Read
  pub signal : Option (Option Bytes)
  pub left : List Read

-- What the function returns.
abbrev pub Answer : Type 0
Answer = Option Text × ℤ

-- `waiting` has seen all the passes that it was given.
pub data Reading : Type 0 where
  waiting : Bytes → List Text → Reading
  ended : Answer → Reading

-- time.monotonic() + timeout if timeout else None
abbrev pub deadline_of : ℕ → Option ℕ → Option ℕ
deadline_of start none = none
deadline_of start (some zero) = none
deadline_of start (some (suc timeout)) = some (start + suc timeout)

-- remaining <= 0
abbrev pub expired : Option ℕ → ℕ → Bool
expired none now = false
expired (some deadline) now = leb deadline now

abbrev pub with_first : ℕ → List Bytes → Bytes → List Bytes × Bytes
with_first c [] rest = ([], c ∷ rest)
with_first c (l ∷ ls) rest = ((c ∷ l) ∷ ls, rest)

-- The whole lines of the buffer, and what is behind the last newline.
unfoldable pub lines_of : Bytes → List Bytes × Bytes
lines_of [] = ([], [])
lines_of (c ∷ s) =
    let (lines, rest) = lines_of s in
    if c == 10 then ([] ∷ lines, rest) else with_first c lines rest

abbrev pub no_event : Round → Bool
no_event r = elim r.stdout [
  | none ↦ elim r.signal [ none ↦ true | some s ↦ false ]
  | some o ↦ false
]

unfoldable pub drain : List Read → Bytes → Bytes
drain (chunk (c ∷ s) ∷ reads) buf = drain reads (buf ++ c ∷ s)
drain (chunk [] ∷ reads) buf = buf
drain (eio ∷ reads) buf = buf
drain (failed ∷ reads) buf = buf
drain [] buf = buf

module _ (decode : Bytes → Text) where
  abbrev pub line_text : Bytes → Text
  line_text line = decode line ++ codes "\n"

  -- if buf: parts.append(buf.decode(...))
  abbrev pub with_rest : Bytes → List Text → List Text
  with_rest [] parts = parts
  with_rest (c ∷ s) parts = parts ++ decode (c ∷ s) ∷ []

  -- Behind the loop, which EIO breaks.
  abbrev pub broken : List Text → Answer
  broken [] = (none, negsuc 0)
  broken (p ∷ ps) = (some (join_texts [] (p ∷ ps)), negsuc 0)

  unfoldable pub add_chunk : Bytes → Bytes → List Text → Bytes × List Text
  unfolding lines_of
  add_chunk bytes buf parts =
      let (lines, rest) = lines_of (buf ++ bytes) in (rest, parts ++ map line_text lines)

  -- An answer that the function returns ends the chain, as an error does.
  unfoldable pub read_stdout : Option Read → Bytes → List Text → Result Answer (Bytes × List Text)
  unfolding add_chunk
  read_stdout none buf parts = ok (buf, parts)
  read_stdout (some eio) buf parts = err (broken (with_rest buf parts))
  read_stdout (some failed) buf parts = err (none, negsuc 0)
  read_stdout (some (chunk [])) buf parts = err (none, negsuc 0)
  read_stdout (some (chunk (c ∷ s))) buf parts = ok (add_chunk (c ∷ s) buf parts)

  module _ (to_int : Text → Option ℤ) (is_space : ℕ → Bool) where
    unfoldable pub exit_code : Bytes → ℤ
    unfolding strip
    exit_code bytes = elim (to_int (strip is_space (decode bytes))) [
      | none ↦ negsuc 0
      | some code ↦ code
    ]

    unfoldable pub read_signal : Option (Option Bytes) → Result Answer (Option ℤ)
    unfolding exit_code
    read_signal none = ok none
    read_signal (some none) = err (none, negsuc 0)
    read_signal (some (some [])) = ok none
    read_signal (some (some (c ∷ s))) = ok (some (exit_code (c ∷ s)))

    -- With the exit code, what is left of the output is read.
    unfoldable pub conclude :
        Option ℤ → List Read → Bytes → List Text → Result Answer (Bytes × List Text)
    unfolding drain
    conclude none left buf parts = ok (buf, parts)
    conclude (some code) left buf parts =
        err (some (join_texts [] (with_rest (drain left buf) parts)), code)

    unfoldable pub pass : Option ℕ → Round → Bytes → List Text → Result Answer (Bytes × List Text)
    unfolding read_stdout read_signal conclude
    pass deadline r buf parts =
        if expired deadline r.now
        then err (none, negsuc 1)
        else if no_event r && not r.alive
        then err (none, negsuc 0)
        else (read_stdout r.stdout buf parts >>= λ (buf', parts').
            read_signal r.signal >>= λ code. conclude code r.left buf' parts')

    unfoldable pub loop : Option ℕ → List Round → Bytes → List Text → Reading
    unfolding pass
    loop deadline [] buf parts = waiting buf parts
    loop deadline (r ∷ rounds) buf parts = elim (pass deadline r buf parts) [
      | ok (buf', parts') ↦ loop deadline rounds buf' parts'
      | err answer ↦ ended answer
    ]

    unfoldable pub read_until_signal : ℕ → Option ℕ → List Round → Reading
    unfolding loop
    read_until_signal start timeout rounds = loop (deadline_of start timeout) rounds [] []
