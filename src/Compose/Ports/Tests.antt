-- ===== src/Compose/Ports/Tests.antt =====
-- Ports in decimal: a short text stands for the number it shows.
use agentdocker_lite.Base.{
  ℕ, ◌+◌, ◌-◌, ◌≡◌, refl, pos, Bool, ◌&&◌, Option, none, some, [], ◌∷◌, ◌==◌, leb, if◌then◌else◌,
}
use agentdocker_lite.Text.{Text, codes, occurs}
use agentdocker_lite.Compose.Yaml.{Value, int}
use agentdocker_lite.Compose.Ports.{number, is_address, short_form}
use agentdocker_lite.Compose.Ports.Ranges.{
  IsNumeral, IsAddress, range_text, tabulate, mapped, short_form-range, short_form_backwards,
}

abbrev digit : ℕ → Option ℕ
digit c = if leb 48 c && leb c 57 then some (c - 48) else none

abbrev is_space : ℕ → Bool
is_space c = c == 32

-- Enough for the ports below.
abbrev show : Value → Text
show (int (pos n)) = (n + 48) ∷ []
show v = []

abbrev here : Text
here = codes "127.0.0.1"

here-IsAddress : IsAddress digit is_space show here
unfolding is_address occurs
here-IsAddress = record { address = refl; no_newline = refl }

abbrev seven : Text
seven = codes "7"

abbrev nine : Text
nine = codes "9"

seven-IsNumeral : IsNumeral digit is_space show seven 7
unfolding number occurs
seven-IsNumeral = record { value = refl; no_colon = refl; no_dash = refl; no_newline = refl }

nine-IsNumeral : IsNumeral digit is_space show nine 9
unfolding number occurs
nine-IsNumeral = record { value = refl; no_colon = refl; no_dash = refl; no_newline = refl }

two_wide :
    short_form digit is_space show (codes "127.0.0.1:7-8:5-6")
    ≡ codes "127.0.0.1:7:5" ∷ codes "127.0.0.1:8:6" ∷ []
unfolding short_form
two_wide = refl

short_form-range_example :
    short_form digit is_space show (range_text here seven nine seven nine)
    ≡ tabulate (mapped digit is_space show here 7 7) 0 3
short_form-range_example =
    short_form-range digit is_space show here seven nine seven nine 7 9 7 9 here-IsAddress
      seven-IsNumeral nine-IsNumeral seven-IsNumeral nine-IsNumeral 2 refl refl

short_form_backwards_example : short_form digit is_space show (codes "9-7:9-7") ≡ []
short_form_backwards_example =
    short_form_backwards digit is_space show none nine seven nine seven 9 7 9 7 1 tt nine-IsNumeral
      seven-IsNumeral nine-IsNumeral seven-IsNumeral refl refl
