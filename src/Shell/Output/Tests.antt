-- ===== src/Shell/Output/Tests.antt =====
-- Output in two reads that cut a line, and a command that runs out of time.
use agentdocker_lite.Base.{ℕ, ◌≡◌, refl, pos, negsuc, Option, none, some, List, [], ◌∷◌, ◌++◌, map}
use agentdocker_lite.Text.{Text, codes}
use agentdocker_lite.Config.Sample.{sample_python, blank}
use agentdocker_lite.Shell.Output.{Bytes, Reading, ended, read_until_signal}
use agentdocker_lite.Shell.Output.Whole.{IsDecoder, quiet, signalled, read_until_signal_whole}

-- Each byte is a character, as in Latin-1.
abbrev decode : Bytes → Text
decode s = s

decode-IsDecoder : IsDecoder decode
decode-IsDecoder = record { empty = refl; newline = λ line rest. refl }

abbrev reads : List (ℕ × Bytes)
reads = (1, codes "a\nb") ∷ ((2, []) ∷ ((3, codes "c\nd") ∷ []))

abbrev left : List (ℕ × Bytes)
left = (b'e', codes "\n") ∷ []

abbrev run : Option ℕ → Reading
run timeout =
    read_until_signal decode sample_python.to_int blank 0 timeout
      (map quiet reads ++ signalled 4 (codes "0\n") left ∷ [])

run-in_time : run (some 10) ≡ ended (some (codes "a\nbc\nde\n"), pos 0)
unfolding read_until_signal agentdocker_lite.Text.join_texts
run-in_time = refl

-- Out of time: the output is lost.
run-late : run (some 3) ≡ ended (none, negsuc 1)
unfolding read_until_signal
run-late = refl

-- A timeout of zero is none.
run-zero : run (some 0) ≡ run none
unfolding read_until_signal
run-zero = refl

read_until_signal_whole_example :
    read_until_signal decode sample_python.to_int blank 0
      (some 10)
      (map quiet reads ++ signalled 4 (codes "0\n") left ∷ [])
    ≡ ended (some (codes "a\nbc\nde\n"), pos 0)
unfolding read_until_signal
read_until_signal_whole_example =
    read_until_signal_whole decode decode-IsDecoder sample_python.to_int blank 0 (some 10) reads 4
      b'0' (codes "\n") left (refl, (refl, (refl, tt))) refl
