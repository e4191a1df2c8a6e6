-- ===== src/Shell/Output/Whole.antt =====
-- The output of a command is the decoding of all its bytes, however the reads cut them.
use agentdocker_lite.Base.{
  ℕ, ◌≡◌, refl, sym, ap, ◌∙◌, arith, ℤ, Bool, true, false, Option, none, some, List, [], ◌∷◌, ◌++◌,
  map, append_assoc, append-nil, All, ok, err,
}
use agentdocker_lite.Text.{Text, codes, join_texts}
use agentdocker_lite.Shell.Output.{
  Bytes, chunk, Round, Answer, ended, deadline_of, expired, lines_of, with_first, drain, line_text,
  with_rest, add_chunk, read_stdout, exit_code, read_signal, conclude, pass, loop,
  read_until_signal,
}

-- Python's decoding of UTF-8 with a replacement of what is not valid: a newline is a character of its own.
pub record IsDecoder (decode : Bytes → Text) : Type 0 where
  pub empty : decode [] ≡ []
  pub newline : (line rest : Bytes) → decode (line ++ 10 ∷ rest) ≡ decode line ++ 10 ∷ decode rest

-- Lines with their newlines, one behind the other.
abbrev unlines : List Bytes → Bytes
unlines [] = []
unlines (l ∷ ls) = l ++ 10 ∷ unlines ls

-- A read in a pass without a signal: the bytes, or nothing ready.
abbrev pub quiet : ℕ × Bytes → Round
quiet (now, []) = record { now = now; alive = true; stdout = none; signal = none; left = [] }
quiet (now, c ∷ s) = record {
  now = now;
  alive = true;
  stdout = some (chunk (c ∷ s));
  signal = none;
  left = [];
}

-- The pass that finds the exit code, with reads that are not empty behind it.
abbrev pub signalled : ℕ → Bytes → List (ℕ × Bytes) → Round
signalled now code left = record {
  now = now;
  alive = true;
  stdout = none;
  signal = some (some code);
  left = map (λ (c, s). chunk (c ∷ s)) left;
}

abbrev pub all_bytes : List (ℕ × Bytes) → Bytes
all_bytes [] = []
all_bytes ((now, bytes) ∷ reads) = bytes ++ all_bytes reads

abbrev pub left_bytes : List (ℕ × Bytes) → Bytes
left_bytes [] = []
left_bytes ((c, s) ∷ left) = (c ∷ s) ++ left_bytes left

unlines-append : (ls ms : List Bytes) → unlines (ls ++ ms) ≡ unlines ls ++ unlines ms
unlines-append [] ms = refl
unlines-append (l ∷ ls) ms =
    ap (λ t. l ++ 10 ∷ t) (unlines-append ls ms)
    ∙ sym (append_assoc l (10 ∷ unlines ls) (unlines ms))

unlines-with_first :
    (c : ℕ) (ls : List Bytes) (rest : Bytes)
    → unlines (with_first c ls rest).0 ++ (with_first c ls rest).1 ≡ c ∷ (unlines ls ++ rest)
unlines-with_first c [] rest = refl
unlines-with_first c (l ∷ ls) rest = refl

lines_of-whole : (s : Bytes) → unlines (lines_of s).0 ++ (lines_of s).1 ≡ s
unfolding lines_of
lines_of-whole [] = refl
lines_of-whole (c ∷ s) =
    ground (arith, lines_of-whole s, unlines-with_first c (lines_of s).0 (lines_of s).1)

join_texts-cons : (t : Text) (ts : List Text) → join_texts [] (t ∷ ts) ≡ t ++ join_texts [] ts
unfolding join_texts
join_texts-cons t [] = sym (append-nil t)
join_texts-cons t (u ∷ ts) = refl

join_texts-append :
    (ss ts : List Text) → join_texts [] (ss ++ ts) ≡ join_texts [] ss ++ join_texts [] ts
unfolding join_texts
join_texts-append [] ts = refl
join_texts-append (s ∷ ss) ts =
    join_texts-cons s (ss ++ ts)
    ∙ ap (λ t. s ++ t) (join_texts-append ss ts)
    ∙ sym (append_assoc s (join_texts [] ss) (join_texts [] ts))
    ∙ ap (λ t. t ++ join_texts [] ts) (sym (join_texts-cons s ss))

module _ (decode : Bytes → Text) (h : IsDecoder decode) where
  decode-unlines :
      (ls : List Bytes) (rest : Bytes)
      → decode (unlines ls ++ rest) ≡ join_texts [] (map (line_text decode) ls) ++ decode rest
  unfolding join_texts
  decode-unlines [] rest = refl
  decode-unlines (l ∷ ls) rest =
      ap decode (append_assoc l (10 ∷ unlines ls) rest)
      ∙ h.newline l (unlines ls ++ rest)
      ∙ ap (λ t. decode l ++ 10 ∷ t) (decode-unlines ls rest)
      ∙ sym (
          ap (λ t. t ++ decode rest)
            (join_texts-cons (line_text decode l) (map (line_text decode) ls))
          ∙ append_assoc (line_text decode l) (join_texts [] (map (line_text decode) ls))
              (decode rest)
          ∙ append_assoc (decode l) (codes "\n")
              (join_texts [] (map (line_text decode) ls) ++ decode rest))

  -- The lines that were decoded, and what is behind them, are the bytes that were read.
  abbrev Holds : Bytes → Bytes → List Text → Type 0
  Holds seen buf parts =
      (ls : List Bytes) × (parts ≡ map (line_text decode) ls) × (seen ≡ unlines ls ++ buf)

  map_line-append :
      (ls ms : List Bytes)
      → map (line_text decode) (ls ++ ms) ≡ map (line_text decode) ls ++ map (line_text decode) ms
  map_line-append [] ms = refl
  map_line-append (l ∷ ls) ms = ap (λ t. line_text decode l ∷ t) (map_line-append ls ms)

  add_chunk-Holds :
      (seen buf bytes : Bytes) (parts : List Text)
      → Holds seen buf parts
      → Holds
          (seen ++ bytes)
          (add_chunk decode bytes buf parts).0
          (add_chunk decode bytes buf parts).1
  unfolding add_chunk
  add_chunk-Holds seen buf bytes parts (ls, decoded, same) =
      let ms = (lines_of (buf ++ bytes)).0 in
      let rest = (lines_of (buf ++ bytes)).1 in
      (
        ls ++ ms,
        ap (λ t. t ++ map (line_text decode) ms) decoded ∙ sym (map_line-append ls ms),
        ap (λ t. t ++ bytes) same
            ∙ append_assoc (unlines ls) buf bytes
            ∙ ap (λ t. unlines ls ++ t) (sym (lines_of-whole (buf ++ bytes)))
            ∙ sym (append_assoc (unlines ls) (unlines ms) rest)
            ∙ ap (λ t. t ++ rest) (sym (unlines-append ls ms)),
      )

  join_texts-with_rest :
      (buf : Bytes) (parts : List Text)
      → join_texts [] (with_rest decode buf parts) ≡ join_texts [] parts ++ decode buf
  unfolding join_texts
  join_texts-with_rest [] parts =
      sym (ap (λ t. join_texts [] parts ++ t) h.empty ∙ append-nil (join_texts [] parts))
  join_texts-with_rest (c ∷ s) parts = join_texts-append parts (decode (c ∷ s) ∷ [])

  with_rest-Holds :
      (seen buf more : Bytes) (parts : List Text)
      → Holds seen buf parts
      → join_texts [] (with_rest decode (buf ++ more) parts) ≡ decode (seen ++ more)
  with_rest-Holds seen buf more parts (ls, decoded, same) =
      join_texts-with_rest (buf ++ more) parts
      ∙ ap (λ t. join_texts [] t ++ decode (buf ++ more)) decoded
      ∙ sym (decode-unlines ls (buf ++ more))
      ∙ ap decode (sym (append_assoc (unlines ls) buf more) ∙ ap (λ t. t ++ more) (sym same))

  module _ (to_int : Text → Option ℤ) (is_space : ℕ → Bool) where
    drain_left :
        (left : List (ℕ × Bytes)) (buf : Bytes)
        → drain (map (λ (c, s). chunk (c ∷ s)) left) buf ≡ buf ++ left_bytes left
    unfolding drain
    drain_left [] buf = sym (append-nil buf)
    drain_left ((c, s) ∷ left) buf =
        drain_left left (buf ++ c ∷ s) ∙ append_assoc buf (c ∷ s) (left_bytes left)

    conclude-Holds :
        (seen buf : Bytes) (parts : List Text) (code : ℤ) (left : List (ℕ × Bytes))
        → Holds seen buf parts
        → conclude decode to_int is_space (some code) (map (λ (c, s). chunk (c ∷ s)) left) buf parts
          ≡ err (some (decode (seen ++ left_bytes left)), code)
    unfolding conclude
    conclude-Holds seen buf parts code left held =
        ap (λ t. err (some (join_texts [] (with_rest decode t parts)), code)) (drain_left left buf)
        ∙ ap (λ t. err (some t, code)) (with_rest-Holds seen buf (left_bytes left) parts held)

    loop_next :
        (deadline : Option ℕ) (r : Round) (rounds : List Round) (buf buf' : Bytes)
        (parts parts' : List Text)
        → pass decode to_int is_space deadline r buf parts ≡ ok (buf', parts')
        → loop decode to_int is_space deadline (r ∷ rounds) buf parts
          ≡ loop decode to_int is_space deadline rounds buf' parts'
    unfolding loop
    loop_next deadline r rounds buf buf' parts parts' same = rw (loop, same) refl

    loop_ends :
        (deadline : Option ℕ) (r : Round) (rounds : List Round) (buf : Bytes) (parts : List Text)
        (answer : Answer)
        → pass decode to_int is_space deadline r buf parts ≡ err answer
        → loop decode to_int is_space deadline (r ∷ rounds) buf parts ≡ ended answer
    unfolding loop
    loop_ends deadline r rounds buf parts answer same = rw (loop, same) refl

    pass-quiet :
        (deadline : Option ℕ) (t : ℕ) (buf : Bytes) (parts : List Text)
        → expired deadline t ≡ false
        → pass decode to_int is_space deadline (quiet (t, [])) buf parts ≡ ok (buf, parts)
    unfolding pass read_stdout read_signal conclude
    pass-quiet deadline t buf parts early = simp early

    pass-chunk :
        (deadline : Option ℕ) (t b : ℕ) (bytes buf : Bytes) (parts : List Text)
        → expired deadline t ≡ false
        → pass decode to_int is_space deadline (quiet (t, b ∷ bytes)) buf parts
          ≡ ok (add_chunk decode (b ∷ bytes) buf parts)
    unfolding pass read_stdout read_signal conclude
    pass-chunk deadline t b bytes buf parts early = simp early

    pass-signalled :
        (deadline : Option ℕ) (now c : ℕ) (code : Bytes) (left : List (ℕ × Bytes)) (buf : Bytes)
        (parts : List Text)
        → expired deadline now ≡ false
        → pass decode to_int is_space deadline (signalled now (c ∷ code) left) buf parts
          ≡ conclude decode to_int is_space
              (some (exit_code decode to_int is_space (c ∷ code)))
              (map (λ (c, s). chunk (c ∷ s)) left)
              buf
              parts
    unfolding pass read_stdout read_signal
    pass-signalled deadline now c code left buf parts on_time = simp on_time

    -- The result of a run that is quiet up to the exit code.
    loop-Holds :
        (deadline : Option ℕ) (reads : List (ℕ × Bytes)) (now c : ℕ) (code : Bytes)
        (left : List (ℕ × Bytes)) (seen buf : Bytes) (parts : List Text)
        → All (λ (t, bytes). expired deadline t ≡ false) reads
        → expired deadline now ≡ false
        → Holds seen buf parts
        → loop decode to_int is_space deadline
            (map quiet reads ++ signalled now (c ∷ code) left ∷ [])
            buf
            parts
          ≡ ended (
            some (decode (seen ++ (all_bytes reads ++ left_bytes left))),
            exit_code decode to_int is_space (c ∷ code),
          )
    unfolding loop
    loop-Holds deadline [] now c code left seen buf parts early on_time held =
        loop_ends deadline (signalled now (c ∷ code) left) [] buf parts _ (
          pass-signalled deadline now c code left buf parts on_time
          ∙ conclude-Holds seen buf parts (exit_code decode to_int is_space (c ∷ code)) left held)
    loop-Holds deadline ((t, []) ∷ reads) now c code left seen buf parts (first, early) on_time
          held =
        loop_next deadline (quiet (t, [])) _ buf buf parts parts
          (pass-quiet deadline t buf parts first)
        ∙ loop-Holds deadline reads now c code left seen buf parts early on_time held
    loop-Holds deadline ((t, (b ∷ bytes)) ∷ reads) now c code left seen buf parts (first, early)
          on_time held =
        loop_next deadline (quiet (t, b ∷ bytes)) _ buf _ parts _
          (pass-chunk deadline t b bytes buf parts first)
        ∙ loop-Holds deadline reads now c code left (seen ++ b ∷ bytes) _ _ early on_time
            (add_chunk-Holds seen buf (b ∷ bytes) parts held)
        ∙ ap (λ s. ended (some (decode s), exit_code decode to_int is_space (c ∷ code)))
            (append_assoc seen (b ∷ bytes) (all_bytes reads ++ left_bytes left)
              ∙ ap (λ s. seen ++ s)
                  (sym (append_assoc (b ∷ bytes) (all_bytes reads) (left_bytes left))))

    -- A command whose output comes in any number of reads before the deadline (some passes may find
    -- nothing while the shell is alive), then its exit code, then what is left of its output, has as its
    -- output the decoding of all the bytes, and the exit code: where the reads cut the bytes, within a
    -- line or within a character, makes no difference. The decoding treats a newline by itself.
    pub read_until_signal_whole :
        (start : ℕ) (timeout : Option ℕ) (reads : List (ℕ × Bytes)) (now c : ℕ) (code : Bytes)
        (left : List (ℕ × Bytes))
        → All (λ (t, bytes). expired (deadline_of start timeout) t ≡ false) reads
        → expired (deadline_of start timeout) now ≡ false
        → read_until_signal decode to_int is_space start timeout
            (map quiet reads ++ signalled now (c ∷ code) left ∷ [])
          ≡ ended (
            some (decode (all_bytes reads ++ left_bytes left)),
            exit_code decode to_int is_space (c ∷ code),
          )
    unfolding read_until_signal
    read_until_signal_whole start timeout reads now c code left early on_time =
        loop-Holds (deadline_of start timeout) reads now c code left [] [] [] early on_time
          ([], refl, refl)
