-- ===== src/Config/Docker/Tests.antt =====
-- Keyword arguments of the Docker SDK.
use agentdocker_lite.Base.{◌≡◌, refl, pos, ℤ, true, false, some, [], ◌∷◌, ok, err, Result}
use agentdocker_lite.Text.{Text, codes}
use agentdocker_lite.Compose.Yaml.{
  Value, bool, int, str, list, dict, Items, nil, cons, Fields, end, field, get_field,
}
use agentdocker_lite.Config.{Failure}
use agentdocker_lite.Config.Sample.{sample_python}
use agentdocker_lite.Config.Docker.{State, from_docker}
use agentdocker_lite.Config.Docker.Privileges.{from_docker_privileged}

abbrev show : Value → Text
show (int n) = sample_python.show_int n
show v = codes "None"

abbrev as_int : Value → Result Failure ℤ
as_int (int n) = ok n
as_int v = err (codes "TypeError")

-- client.containers.run("alpine", mem_limit="512m", ports={"80/tcp": 8080}, volumes={"/a": {"bind": "/b", "mode": "ro"}})
abbrev sdk : Fields
sdk = field (codes "mem_limit") (str (codes "512m")) (
    field (codes "ports") (dict (field (codes "80/tcp") (int (pos 8080)) end)) (
      field (codes "volumes")
        (dict (
          field (codes "/a")
            (dict (
              field (codes "bind") (str (codes "/b"))
                (field (codes "mode") (str (codes "ro")) end)))
            end))
        end))

from_docker-sdk :
    from_docker show as_int (codes "alpine") sdk
    ≡ ok (
      end,
      field (codes "image") (str (codes "alpine")) (
          field (codes "memory_max") (str (codes "512m")) (
            field
              (codes "volumes")
              (list (cons (str (codes "/a:/b:ro")) nil))
              (field (codes "port_map") (list (cons (str (codes "8080:80")) nil)) end))),
    )
unfolding from_docker agentdocker_lite.Config.Docker.Convert.convert_docker_volumes
    agentdocker_lite.Config.Docker.Convert.convert_docker_ports
from_docker-sdk = refl

abbrev one_cap : Items
one_cap = cons (str (codes "NET_ADMIN")) nil

abbrev strong : Fields
strong = field (codes "privileged") (bool true) (field (codes "cap_add") (list one_cap) end)

abbrev strong_cfg : Fields
strong_cfg =
    field (codes "image") (str (codes "alpine"))
      (field (codes "seccomp") (bool false) (field (codes "cap_add") (list one_cap) end))

from_docker-strong : from_docker show as_int (codes "alpine") strong ≡ ok (end, strong_cfg)
unfolding from_docker agentdocker_lite.Config.Docker.Convert.iterated
    agentdocker_lite.Config.Docker.Convert.from_list
from_docker-strong = refl

from_docker_privileged_example :
    (get_field (codes "seccomp") strong_cfg ≡ some (bool false))
    × (get_field (codes "cap_add") strong_cfg ≡ some (list one_cap))
unfolding get_field agentdocker_lite.Text.text_eq agentdocker_lite.Compose.Yaml.truthy
    agentdocker_lite.Config.Docker.Convert.iterated agentdocker_lite.Config.Docker.Convert.from_list
from_docker_privileged_example =
    from_docker_privileged show as_int (codes "alpine") strong end strong_cfg (bool true)
      (list one_cap) (str (codes "NET_ADMIN") ∷ []) from_docker-strong refl refl refl refl
