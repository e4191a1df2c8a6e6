-- ===== src/Compose/Environment.antt =====
-- `_parse_environment`, `_parse_env_file`, `_parse_depends_on` and `_parse_ulimits` of
-- compose/_parse.py, and the environment that `_parse_compose` merges. `os.environ`, `str`, `int` and
-- the class of white space are parameters, and an env file is the lines of its text.
pub mod Quoting
mod Tests
use agentdocker_lite.Base.{
  ℕ, ℤ, pos, Bool, true, false, ◌&&◌, ◌||◌, Option, none, some, List, [], ◌∷◌, ◌++◌, ◌==◌,
  if◌then◌else◌, Result, ok, err, ◌>>=◌,
}
use agentdocker_lite.Text.{Text, codes, split_once, split_last, strip}
use agentdocker_lite.Dict.{Dict, get, put, update}
use agentdocker_lite.Compose.Yaml.{
  Value, null, bool, int, float, str, list, dict, Items, nil, cons, Fields, end, field, get_field,
  items, text_of,
}

abbrev pub default_to : Option Text → Text → Text
default_to none default = default
default_to (some v) default = v

-- A value in single or double quotes loses them.
unfoldable pub unquote : Text → Text
unfolding split_last
unquote [] = []
unquote (c ∷ s) = elim (split_last s) [
  | none ↦ c ∷ s
  | some (middle, last) ↦ if c == last && (c == b'"' || c == b'\'') then middle else c ∷ s
]

module _ (environ : Dict Text) (is_space : ℕ → Bool) (show : Value → Text) where
  unfoldable pub put_item : Text → Dict Text → Dict Text
  unfolding split_once get put
  put_item item env = elim (split_once (codes "=") item) [
    | some (k, v) ↦ put k v env
    | none ↦ put item (default_to (get item environ) []) env
  ]

  unfoldable pub put_items : List Value → Dict Text → Dict Text
  unfolding put_item
  put_items [] env = env
  put_items (v ∷ vs) env = put_items vs (put_item (text_of show v) env)

  abbrev pub env_value : Value → Text
  env_value null = []
  env_value v = text_of show v

  unfoldable pub put_fields : Fields → Dict Text → Dict Text
  unfolding put
  put_fields end env = env
  put_fields (field k v fs) env = put_fields fs (put k (env_value v) env)

  unfoldable pub parse_environment : Value → Dict Text
  unfolding put_items put_fields
  parse_environment (dict fs) = put_fields fs []
  parse_environment (list vs) = put_items (items vs) []
  parse_environment _ = []

  -- A stripped line that is neither empty nor a comment; `=` is looked for before `:`.
  unfoldable pub put_assignment : Text → Dict Text → Dict Text
  unfolding split_once strip unquote get put
  put_assignment line env = elim (split_once (codes "=") line) [
    | some (k, v) ↦ put (strip is_space k) (unquote (strip is_space v)) env
    | none ↦ elim (split_once (codes ":") line) [
      | some (k, v) ↦ put (strip is_space k) (unquote (strip is_space v)) env
      | none ↦ put line (default_to (get line environ) []) env
    ]
  ]

  unfoldable pub put_line : Text → Dict Text → Dict Text
  unfolding put_assignment
  put_line [] env = env
  put_line (c ∷ line) env = if c == b'#' then env else put_assignment (c ∷ line) env

  unfoldable pub put_lines : List Text → Dict Text → Dict Text
  unfolding put_line strip
  put_lines [] env = env
  put_lines (line ∷ lines) env = put_lines lines (put_line (strip is_space line) env)

  -- The lines of a file, none if it does not exist.
  unfoldable pub parse_env_file : Option (List Text) → Dict Text
  unfolding put_lines
  parse_env_file none = []
  parse_env_file (some lines) = put_lines lines []

  unfoldable pub load_env_files : List (Option (List Text)) → Dict Text → Dict Text
  unfolding parse_env_file update
  load_env_files [] env = env
  load_env_files (file ∷ files) env = load_env_files files (update env (parse_env_file file))

  -- {**env_from_file, **_parse_environment(svc.get("environment"))}
  unfoldable pub merged_env : List (Option (List Text)) → Value → Dict Text
  unfolding load_env_files parse_environment update
  merged_env files environment = update (load_env_files files []) (parse_environment environment)

  abbrev pub started : Value
  started = str (codes "service_started")

  unfoldable pub depend_on_all : List Value → Dict Value → Dict Value
  unfolding put
  depend_on_all [] result = result
  depend_on_all (v ∷ vs) result = depend_on_all vs (put (text_of show v) started result)

  abbrev pub condition_of : Value → Value
  condition_of (dict config) = elim (get_field (codes "condition") config) [
    | none ↦ started
    | some condition ↦ condition
  ]
  condition_of _ = started

  unfoldable pub depend_on_each : Fields → Dict Value → Dict Value
  unfolding put get_field
  depend_on_each end result = result
  depend_on_each (field k v fs) result = depend_on_each fs (put k (condition_of v) result)

  unfoldable pub parse_depends_on : Value → Dict Value
  unfolding depend_on_all depend_on_each
  parse_depends_on (list vs) = depend_on_all (items vs) []
  parse_depends_on (dict fs) = depend_on_each fs []
  parse_depends_on _ = []

  module _ (to_int : Value → Result Text ℤ) where
    abbrev pub get_value : Text → Value → Fields → Value
    get_value k default fs = elim (get_field k fs) [ none ↦ default | some v ↦ v ]

    unfoldable pub limits_of : Value → Result Text (ℤ × ℤ)
    unfolding get_field
    limits_of (dict fs) =
        (to_int (get_value (codes "soft") (get_value (codes "hard") (int (pos 0)) fs) fs)
          >>= λ soft. to_int (get_value (codes "hard") (int soft) fs) >>= λ hard. ok (soft, hard))
    limits_of v = (to_int v >>= λ n. ok (n, n))

    unfoldable pub put_limits : Fields → Dict (ℤ × ℤ) → Result Text (Dict (ℤ × ℤ))
    unfolding limits_of put
    put_limits end result = ok result
    put_limits (field k v fs) result =
        (limits_of v >>= λ limits. put_limits fs (put k limits result))

    unfoldable pub parse_ulimits : Value → Result Text (Dict (ℤ × ℤ))
    unfolding put_limits
    parse_ulimits (dict fs) = put_limits fs []
    parse_ulimits _ = ok []
