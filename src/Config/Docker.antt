-- ===== src/Config/Docker.antt =====
-- `from_docker` of config.py and its converters, from the keyword arguments to those of the
-- constructor. A value is one of the SDK's plain values: a tuple is a list, and the objects of
-- docker.types are left out. `show` is `str` of a value that is no string, and `as_int` is `int`.
pub mod Convert
pub mod Privileges
mod Tests
use agentdocker_lite.Base.{
  ℤ, pos, Bool, true, false, Option, none, some, List, [], ◌∷◌, if◌then◌else◌, Result, ok, err,
  ◌>>=◌,
}
use agentdocker_lite.Text.{Text, codes, text_eq, contains}
use agentdocker_lite.Compose.Yaml.{
  Value, null, bool, int, float, str, list, dict, Items, nil, cons, Fields, end, field, get_field,
  put_field, truthy, is_text, text_of,
}
use agentdocker_lite.Config.{Failure}
use agentdocker_lite.Config.Capabilities.{cap_names}
use agentdocker_lite.Config.Docker.Convert.{
  from_list, texts, iterated, convert_docker_volumes, convert_docker_ports, convert_docker_env,
  devices_of, tmpfs_of, ulimits_of,
}

-- kwargs and cfg_kwargs
abbrev pub State : Type 0
State = Fields × Fields

-- kwargs.pop(k, None)
unfoldable pub remove_field : Text → Fields → Fields
unfolding text_eq
remove_field k end = end
remove_field k (field j v fs) =
    let rest = remove_field k fs in if text_eq j k then fs else field j v rest

abbrev pub set_to : Text → Option Value → Fields → Fields
set_to name none cfg = cfg
set_to name (some v) cfg = put_field name v cfg

-- An argument that is given is taken out, and may set a field of the configuration.
pub record Move : Type 0 where
  pub argument : Text
  pub setting : Text
  pub convert : Value → Result Failure (Option Value)

unfoldable pub moved : Move → State → Result Failure State
unfolding get_field put_field remove_field
moved m (kwargs, cfg) = elim (get_field m.argument kwargs) [
  | none ↦ ok (kwargs, cfg)
  | some v ↦ (m.convert v >>= λ set. ok (remove_field m.argument kwargs, set_to m.setting set cfg))
]

unfoldable pub move_all : List Move → State → Result Failure State
unfolding moved
move_all [] s = ok s
move_all (m ∷ ms) s = (moved m s >>= move_all ms)

abbrev pub move : Text → Text → (Value → Result Failure (Option Value)) → Move
move argument setting convert = record { argument = argument; setting = setting; convert = convert }

abbrev pub as_it_is : Value → Result Failure (Option Value)
as_it_is v = ok (some v)

-- mode == "none"
abbrev pub isolates : Value → Result Failure (Option Value)
isolates mode = if is_text (codes "none") mode then ok (some (bool true)) else ok none

-- The loop over the security options.
unfoldable pub unconfined : List Value → Bool
unfolding is_text
unconfined [] = false
unconfined (opt ∷ opts) = if is_text (codes "seccomp=unconfined") opt then true else unconfined opts

abbrev pub seccomp_of : Value → Result Failure (Option Value)
seccomp_of opts = iterated opts >>= λ vs. if unconfined vs then ok (some (bool false)) else ok none

-- `kwargs.pop("privileged")`, where it is true
unfoldable pub set_privileged : State → Result Failure State
unfolding get_field put_field remove_field truthy
set_privileged (kwargs, cfg) = elim (get_field (codes "privileged") kwargs) [
  | none ↦ ok (kwargs, cfg)
  | some v ↦
      if truthy v
      then ok (
        remove_field (codes "privileged") kwargs,
        put_field (codes "cap_add") (list (texts cap_names))
            (put_field (codes "seccomp") (bool false) cfg),
      )
      else ok (remove_field (codes "privileged") kwargs, cfg)
]

abbrev pub list_of : Value → Result Failure (Option Value)
list_of v = iterated v >>= λ vs. ok (some (list (from_list vs)))

abbrev pub entrypoint_of : Value → Result Failure (Option Value)
entrypoint_of (str s) = list_of (list (cons (str s) nil))
entrypoint_of ep = if truthy ep then list_of ep else ok none

abbrev pub docker_ignored : List Text
docker_ignored =
    codes "command"
    ∷ codes "name"
    ∷ codes "detach"
    ∷ codes "remove"
    ∷ codes "auto_remove"
    ∷ codes "stdout"
    ∷ codes "stderr"
    ∷ codes "stream"
    ∷ codes "user"
    ∷ codes "labels"
    ∷ codes "log_config"
    ∷ codes "nano_cpus"
    ∷ codes "network"
    ∷ codes "network_disabled"
    ∷ codes "platform"
    ∷ codes "runtime"
    ∷ codes "stdin_open"
    ∷ codes "stop_signal"
    ∷ codes "mem_swappiness"
    ∷ codes "restart_policy"
    ∷ codes "healthcheck"
    ∷ codes "init"
    ∷ codes "ipc_mode"
    ∷ codes "isolation"
    ∷ codes "pid_mode"
    ∷ codes "publish_all_ports"
    ∷ []

unfoldable pub drop_fields : List Text → Fields → Fields
unfolding remove_field
drop_fields [] kwargs = kwargs
drop_fields (k ∷ ks) kwargs = drop_fields ks (remove_field k kwargs)

abbrev pub adding : Move
adding = move (codes "cap_add") (codes "cap_add") list_of

module _ (show : Value → Text) (as_int : Value → Result Failure ℤ) where
  abbrev pub shown : Value → Result Failure (Option Value)
  shown v = ok (some (str (text_of show v)))

  abbrev pub int_of : Value → Result Failure (Option Value)
  int_of v = as_int v >>= λ n. ok (some (int n))

  -- The arguments before the privileges, in the source's order.
  abbrev pub basic_fields : List Move
  basic_fields =
      move (codes "cpus") (codes "cpu_max") shown
      ∷ move (codes "cpuset_cpus") (codes "cpuset_cpus") as_it_is
      ∷ move (codes "mem_limit") (codes "memory_max") shown
      ∷ move (codes "pids_limit") (codes "pids_max") shown
      ∷ move (codes "read_only") (codes "read_only") as_it_is
      ∷ move (codes "working_dir") (codes "working_dir") as_it_is
      ∷ move (codes "volumes") (codes "volumes") (convert_docker_volumes show)
      ∷ move (codes "ports") (codes "port_map") (convert_docker_ports show)
      ∷ move (codes "environment") (codes "environment") convert_docker_env
      ∷ move (codes "hostname") (codes "hostname") as_it_is
      ∷ move (codes "dns") (codes "dns") as_it_is
      ∷ move (codes "network_mode") (codes "net_isolate") isolates
      ∷ move (codes "devices") (codes "devices") devices_of
      ∷ move (codes "security_opt") (codes "seccomp") seccomp_of
      ∷ []

  -- Those between the privileges and the capabilities.
  abbrev pub limit_fields : List Move
  limit_fields =
      move (codes "tty") (codes "tty") as_it_is
      ∷ move (codes "oom_score_adj") (codes "oom_score_adj") as_it_is
      ∷ move (codes "shm_size") (codes "shm_size") shown
      ∷ move (codes "cpu_shares") (codes "cpu_shares") int_of
      ∷ move (codes "memswap_limit") (codes "memory_swap") shown
      ∷ move (codes "tmpfs") (codes "tmpfs") (tmpfs_of show)
      ∷ []

  -- Those behind the capabilities to add.
  abbrev pub last_fields : List Move
  last_fields =
      move (codes "cap_drop") (codes "cap_drop") list_of
      ∷ move (codes "ulimits") (codes "ulimits") ulimits_of
      ∷ move (codes "entrypoint") (codes "entrypoint") entrypoint_of
      ∷ []

  -- The arguments of the constructor, with the parameters that the warning names.
  unfoldable pub from_docker : Text → Fields → Result Failure State
  unfolding move_all moved set_privileged drop_fields
  from_docker image kwargs = do
    s1 ← move_all basic_fields (kwargs, field (codes "image") (str image) end)
    s2 ← set_privileged s1
    s3 ← move_all limit_fields s2
    s4 ← moved adding s3
    (rest, cfg) ← move_all last_fields s4
    ok (drop_fields docker_ignored rest, cfg)
