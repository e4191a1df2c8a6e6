-- ===== src/Config/Docker/Convert.antt =====
-- `_convert_docker_volumes`, `_convert_docker_ports`, `_convert_docker_env` of config.py, and the values
-- that `from_docker` builds in place.
use agentdocker_lite.Base.{
  pos, Option, none, some, List, [], ◌∷◌, ◌++◌, map, if◌then◌else◌, Result, ok, err, ◌>>=◌,
}
use agentdocker_lite.Text.{Text, codes, split_once}
use agentdocker_lite.Compose.Yaml.{
  Value, null, bool, int, str, list, dict, Items, nil, cons, Fields, end, field, get_field,
  put_field, items, truthy, text_of,
}
use agentdocker_lite.Config.{Failure}

unfoldable pub from_list : List Value → Items
from_list [] = nil
from_list (v ∷ vs) = cons v (from_list vs)

abbrev pub texts : List Text → Items
texts ss = from_list (map str ss)

-- What a loop over the value goes through.
unfoldable pub field_names : Fields → List Value
field_names end = []
field_names (field k v fs) = str k ∷ field_names fs

unfoldable pub iterated : Value → Result Failure (List Value)
unfolding field_names
iterated (list vs) = ok (items vs)
iterated (dict fs) = ok (field_names fs)
iterated (str s) = ok (map (λ c. str (c ∷ [])) s)
iterated _ = err (codes "TypeError")

-- s.partition(sep), without the separator
abbrev pub parts : Text → Text → Text × Text
parts sep s = elim (split_once sep s) [ none ↦ (s, []) | some both ↦ both ]

abbrev pub attribute_error : Failure
attribute_error = codes "AttributeError"

-- spec.get(k, default) of a dict, and the default of what is none
abbrev pub get_or : Text → Value → Value → Value
get_or k default (dict fs) = elim (get_field k fs) [ none ↦ default | some v ↦ v ]
get_or k default _ = default

abbrev pub bind_of : Text → Value → Value
bind_of host (dict fs) = get_or (codes "bind") (str host) (dict fs)
bind_of host spec = spec

module _ (show : Value → Text) where
  abbrev pub volume_of : Text → Value → Text
  volume_of host spec =
      host
      ++ (codes ":"
          ++ (text_of show (bind_of host spec)
              ++ (codes ":" ++ text_of show (get_or (codes "mode") (str (codes "rw")) spec))))

  unfoldable pub volumes_of : Fields → List Text
  unfolding get_field
  volumes_of end = []
  volumes_of (field host spec fs) = volume_of host spec ∷ volumes_of fs

  unfoldable pub convert_docker_volumes : Value → Result Failure (Option Value)
  unfolding volumes_of from_list
  convert_docker_volumes (list vs) = ok (some (list vs))
  convert_docker_volumes (dict fs) = ok (some (list (texts (volumes_of fs))))
  convert_docker_volumes _ = err attribute_error

  abbrev pub published : Text → Value → Text
  published port host = text_of show host ++ (codes ":" ++ port)

  unfoldable pub host_ports : Text → Value → List Text
  host_ports port null = []
  host_ports port (list hosts) = map (published port) (items hosts)
  host_ports port host = published port host ∷ []

  unfoldable pub ports_of : Fields → List Text
  unfolding host_ports split_once
  ports_of end = []
  ports_of (field spec host fs) = host_ports (parts (codes "/") spec).0 host ++ ports_of fs

  unfoldable pub convert_docker_ports : Value → Result Failure (Option Value)
  unfolding ports_of from_list
  convert_docker_ports (list vs) = ok (some (list vs))
  convert_docker_ports (dict fs) = ok (some (list (texts (ports_of fs))))
  convert_docker_ports _ = err attribute_error

  unfoldable pub tmpfs_mounts : Fields → List Text
  unfolding truthy
  tmpfs_mounts end = []
  tmpfs_mounts (field p o fs) =
      (if truthy o then p ++ (codes ":" ++ text_of show o) else p) ∷ tmpfs_mounts fs

  unfoldable pub tmpfs_of : Value → Result Failure (Option Value)
  unfolding tmpfs_mounts from_list
  tmpfs_of (dict fs) = ok (some (list (texts (tmpfs_mounts fs))))
  tmpfs_of (list vs) = ok (some (list vs))
  tmpfs_of _ = ok none

unfoldable pub put_entries : List Value → Fields → Result Failure Fields
unfolding split_once put_field
put_entries [] env = ok env
put_entries (str entry ∷ entries) env =
    let (k, v) = parts (codes "=") entry in put_entries entries (put_field k (str v) env)
put_entries (_ ∷ entries) env = err attribute_error

unfoldable pub convert_docker_env : Value → Result Failure (Option Value)
unfolding put_entries iterated
convert_docker_env (dict fs) = ok (some (dict fs))
convert_docker_env raw =
    iterated raw >>= λ entries. put_entries entries end >>= λ env. ok (some (dict env))

-- d.split(":")[0] for each d
unfoldable pub host_devices : List Value → Result Failure (List Value)
unfolding split_once
host_devices [] = ok []
host_devices (str d ∷ ds) = (host_devices ds >>= λ rest. ok (str (parts (codes ":") d).0 ∷ rest))
host_devices (_ ∷ ds) = err attribute_error

unfoldable pub devices_of : Value → Result Failure (Option Value)
unfolding host_devices iterated from_list
devices_of raw =
    iterated raw >>= λ ds. host_devices ds >>= λ hosts. ok (some (list (from_list hosts)))

-- A pair of limits.
abbrev pub pair : Value → Value → Value
pair soft hard = list (cons soft (cons hard nil))

abbrev pub zero_int : Value
zero_int = int (pos 0)

unfoldable pub limits_of_spec : Value → Value
unfolding get_field
limits_of_spec (dict fs) =
    pair (get_or (codes "soft") zero_int (dict fs)) (get_or (codes "hard") zero_int (dict fs))
limits_of_spec (int n) = pair (int n) (int n)
limits_of_spec (bool b) = pair (bool b) (bool b)
limits_of_spec _ = pair zero_int zero_int

unfoldable pub put_ulimits : Fields → Fields → Fields
unfolding limits_of_spec put_field
put_ulimits end limits = limits
put_ulimits (field name spec fs) limits =
    put_ulimits fs (put_field name (limits_of_spec spec) limits)

-- A list holds objects of docker.types, which the values here are not.
unfoldable pub ulimits_of : Value → Result Failure (Option Value)
unfolding put_ulimits truthy
ulimits_of (dict fs) =
    if truthy (dict (put_ulimits fs end)) then ok (some (dict (put_ulimits fs end))) else ok none
ulimits_of (list (cons v vs)) = err attribute_error
ulimits_of _ = ok none
