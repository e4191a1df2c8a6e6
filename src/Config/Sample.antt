-- ===== src/Config/Sample.antt =====
-- Numbers, cases and blanks for the tests: decimal digits, the letters of ASCII, and floats that are
-- the natural numbers.
use Prim.Native.Nat.{◌/◌, ◌%◌}
use agentdocker_lite.Base.{
  ℕ, zero, suc, ◌+◌, ◌-◌, ◌*◌, pos, negsuc, ℤ, Bool, ◌&&◌, ◌||◌, Option, none, some, List, [], ◌∷◌,
  ◌++◌, ◌==◌, ltb, leb, if◌then◌else◌, ok,
}
use agentdocker_lite.Text.{Text, codes}
use agentdocker_lite.Config.{Python}
use agentdocker_lite.Config.Limits.{words}

abbrev read_digits : ℕ → Text → Option ℕ
read_digits n [] = some n
read_digits n (c ∷ s) = if leb 48 c && leb c 57 then read_digits (n * 10 + (c - 48)) s else none

abbrev pub natural : Text → Option ℕ
natural [] = none
natural (c ∷ s) = read_digits 0 (c ∷ s)

abbrev integer : Text → Option ℤ
integer s = elim (natural s) [ none ↦ none | some n ↦ some (pos n) ]

-- The last digits, as many as the first number says.
abbrev decimal : ℕ → ℕ → Text
decimal zero n = []
decimal (suc fuel) n =
    let rest = decimal fuel (n / 10) in
    let last = (n % 10) + 48 in if ltb n 10 then last ∷ [] else rest ++ last ∷ []

abbrev show : ℤ → Text
show (pos n) = decimal 20 n
show (negsuc n) = codes "-" ++ decimal 20 (suc n)

abbrev pub blank : ℕ → Bool
blank c = c == 32 || c == 9 || c == 10

abbrev mapped : (ℕ → ℕ) → Text → Text
mapped f [] = []
mapped f (c ∷ s) = f c ∷ mapped f s

abbrev pub sample_python : Python
sample_python = record {
  Float = ℕ;
  to_float = natural;
  times = λ x n. x * n;
  over = λ x n. x / n;
  to_int_float = λ x. some (pos x);
  to_int = integer;
  show_int = show;
  lower = mapped (λ c. if leb 65 c && leb c 90 then c + 32 else c);
  upper = mapped (λ c. if leb 97 c && leb c 122 then c - 32 else c);
  is_space = blank;
  shlex_split = λ s. ok (words blank s);
}

abbrev pub no_device : Text → Option Text
no_device path = none

abbrev pub no_file : Text → Option (List Text)
no_file path = none
