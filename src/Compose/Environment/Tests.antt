-- ===== src/Compose/Environment/Tests.antt =====
-- An env file with two values that hold quotes and an equals sign.
use agentdocker_lite.Base.{ℕ, ◌≡◌, refl, Bool, some, [], ◌∷◌, ◌==◌}
use agentdocker_lite.Text.{strip, lstrip, rstrip, Text, codes, occurs, text_eq}
use agentdocker_lite.Dict.{Dict, update}
use agentdocker_lite.Compose.Yaml.{Value, dict, str, field, end}
use agentdocker_lite.Compose.Environment.{merged_env, parse_env_file}
use agentdocker_lite.Compose.Environment.Quoting.{IsName, env_lines, parse_env_file-env_lines}

abbrev is_space : ℕ → Bool
is_space c = c == 32

abbrev show : Value → Text
show v = []

abbrev bindings : Dict Text
bindings = (codes "A", codes "x=\"y\"") ∷ (codes "B", codes " z ") ∷ []

a-IsName : IsName [] is_space show (codes "A")
unfolding occurs strip lstrip rstrip
a-IsName = record {
  head = b'A';
  tail = [];
  nonempty = refl;
  visible = refl;
  no_comment = refl;
  no_equals = refl;
  stripped = refl;
}

b-IsName : IsName [] is_space show (codes "B")
unfolding occurs strip lstrip rstrip
b-IsName = record {
  head = b'B';
  tail = [];
  nonempty = refl;
  visible = refl;
  no_comment = refl;
  no_equals = refl;
  stripped = refl;
}

-- The field `environment` overrides the file.
overridden :
    merged_env [] is_space show
      (some (codes "A=1" ∷ codes "B: '2'" ∷ []) ∷ [])
      (dict (field (codes "A") (str (codes "3")) end))
    ≡ (codes "A", codes "3") ∷ (codes "B", codes "2") ∷ []
unfolding merged_env text_eq
overridden = refl

parse_env_file-env_lines_example :
    parse_env_file [] is_space show (some (env_lines [] is_space show bindings))
    ≡ update [] bindings
parse_env_file-env_lines_example =
    parse_env_file-env_lines [] is_space show refl bindings (a-IsName, (b-IsName, tt))
