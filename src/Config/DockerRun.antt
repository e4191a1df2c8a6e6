-- ===== src/Config/DockerRun.antt =====
-- `from_docker_run` of config.py, from the words of the command on. `_take` returns the text behind an
-- equals sign, or waits for the next word; `Pending` is what the next word is for.
pub mod Keys
pub mod LongNames
pub mod Render
mod Tests
use agentdocker_lite.Base.{
  ℕ, ℤ, Bool, true, false, not, ◌&&◌, ◌||◌, Option, none, some, List, [], ◌∷◌, ◌++◌, ◌==◌, all,
  if◌then◌else◌, Result, ok, err, ◌>>=◌,
}
use agentdocker_lite.Text.{Text, codes, text_eq, contains, occurs, strip_prefix, split_once}
use agentdocker_lite.Config.{Python, Failure, SandboxConfig, default_config}
use agentdocker_lite.Config.Limits.{post_init, is_some}
use agentdocker_lite.Config.DockerRun.Keys.{
  Key, Options, start, key_of, apply, set_privileged, set_tty, set_read_only, set_image,
}

-- What a word is, behind the split at its equals sign.
pub data Kind : Type 0 where
  takes : Key → Kind
  read_only privileged terminal ignored skips unknown positional : Kind

pub data Pending : Type 0 where
  ready : Pending
  value : Key → Pending
  -- The next word is skipped unless it starts with a dash.
  maybe_skip : Pending

abbrev pub starts_with : Text → Text → Bool
starts_with p s = is_some (strip_prefix p s)

-- (key, val), where val is empty without an equals sign
unfoldable pub split_word : Text → Text × Text
unfolding strip_prefix split_once
split_word a =
    if starts_with (codes "--") a
    then elim (split_once (codes "=") a) [ none ↦ (a, []) | some parts ↦ parts ]
    else (a, [])

-- Behind the options with names of their own: short flags in one word, an unknown flag, or no flag.
unfoldable pub other_kind : Text → Kind
unfolding strip_prefix occurs
other_kind a =
    if not (starts_with (codes "-") a)
    then positional
    else if starts_with (codes "--") a
    then unknown
    else elim a [
      | dash ∷ (c ∷ (d ∷ flags)) ↦
          if all (λ flag. occurs flag (codes "ditPq")) (c ∷ (d ∷ flags))
          then if occurs b't' (c ∷ (d ∷ flags)) then terminal else ignored
          else skips
      | _ ↦ unknown
    ]

-- An option without a value, or another word.
unfoldable pub switch_kind : Text → Kind
unfolding text_eq contains other_kind
switch_kind a =
    if text_eq (codes "--read-only") a
    then read_only
    else if text_eq (codes "--privileged") a
    then privileged
    else if contains (codes "-t" ∷ codes "--tty" ∷ []) a
    then terminal
    else if contains
        (codes "-d"
          ∷ codes "--detach"
          ∷ codes "--rm"
          ∷ codes "-i"
          ∷ codes "--interactive"
          ∷ codes "--init"
          ∷ [])
        a
    then ignored
    else other_kind a

abbrev pub kind_by : Option Key → Text → Kind
kind_by (some key) a = takes key
kind_by none a = switch_kind a

unfoldable pub kind : Text → Kind
unfolding key_of switch_kind
kind a = kind_by (key_of a) a

-- while args and args[0] in ("docker", "sudo")
unfoldable pub drop_docker : List Text → List Text
unfolding contains
drop_docker [] = []
drop_docker (w ∷ ws) =
    let rest = drop_docker ws in
    if contains (codes "docker" ∷ codes "sudo" ∷ []) w then rest else w ∷ ws

unfoldable pub drop_run : List Text → List Text
unfolding text_eq
drop_run [] = []
drop_run (w ∷ ws) = if text_eq w (codes "run") then ws else w ∷ ws

module _ (py : Python) (read_lines : Text → Option (List Text)) where
  unfoldable pub take : Key → Text → Options → Result Failure (Options × Pending)
  unfolding apply
  take key [] o = ok (o, value key)
  take key (c ∷ val) o = (apply py read_lines key (c ∷ val) o >>= λ o'. ok (o', ready))

  unfoldable pub act : Kind → Text → Text → Options → Result Failure (Options × Pending)
  unfolding take
  act (takes key) a val o = take key val o
  act read_only a val o = ok (set_read_only o, ready)
  act privileged a val o = ok (set_privileged o, ready)
  act terminal a val o = ok (set_tty o, ready)
  act ignored a val o = ok (o, ready)
  act skips a val o = ok (o, maybe_skip)
  act unknown a [] o = ok (o, maybe_skip)
  act unknown a (c ∷ val) o = ok (o, ready)
  act positional a val o = ok (set_image a o, ready)

  unfoldable pub step : Text → Options → Result Failure (Options × Pending)
  unfolding split_word kind act
  step w o = let (a, val) = split_word w in act (kind a) a val o

  unfoldable pub advance : Text → Pending → Options → Result Failure (Options × Pending)
  unfolding step apply strip_prefix
  advance w ready o = step w o
  advance w (value key) o = (apply py read_lines key w o >>= λ o'. ok (o', ready))
  advance w maybe_skip o = if starts_with (codes "-") w then step w o else ok (o, ready)

  unfoldable pub loop : List Text → Pending → Options → Result Failure Options
  unfolding advance
  loop [] (value key) o = err (codes "IndexError")
  loop [] ready o = ok o
  loop [] maybe_skip o = ok o
  loop (w ∷ ws) pending o = (advance w pending o >>= λ (o', pending'). loop ws pending' o')

  module _ (device : Text → Option Text) (base_dir cache_dir : Text) where
    abbrev pub some_if : List Text → Option (List Text)
    some_if [] = none
    some_if (x ∷ xs) = some (x ∷ xs)

    unfoldable pub finish : Options → Result Failure SandboxConfig
    unfolding post_init
    finish o = elim o.image [
      | [] ↦ err (codes "No image found in docker run command")
      | c ∷ s ↦ post_init py device base_dir cache_dir (record o.config {
        image = c ∷ s;
        volumes = o.volumes;
        port_map = some_if o.ports;
        environment = o.env;
        devices = o.devices;
        dns = some_if o.dns;
      })
    ]

    unfoldable pub from_words : List Text → Result Failure SandboxConfig
    unfolding loop finish
    from_words ws = (loop ws ready start >>= finish)

    unfoldable pub from_docker_run : Text → Result Failure SandboxConfig
    unfolding from_words drop_docker drop_run
    from_docker_run cmd = (py.shlex_split cmd >>= λ ws. from_words (drop_run (drop_docker ws)))
