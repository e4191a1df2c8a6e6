-- ===== src/Compose/Service.antt =====
-- `_Service` of compose/_parse.py. A field that the parser passes on as the YAML loader gave it is a
-- `Value`, with `null` for `None`.
use agentdocker_lite.Base.{ℤ, Bool, false, Option, none, List, []}
use agentdocker_lite.Text.{Text}
use agentdocker_lite.Dict.{Dict}
use agentdocker_lite.Compose.Yaml.{Value, null, Fields}

pub record Service : Type 0 where
  pub name : Text
  pub image : Value
  pub build : Option Fields
  pub command : Value
  pub entrypoint : Value
  pub environment : Dict Text
  pub volumes : List Text
  pub ports : List Text
  pub devices : List Text
  pub depends_on : Dict Text
  pub healthcheck : Value
  pub network_mode : Value
  pub dns : Value
  pub hostname : Value
  pub working_dir : Value
  pub restart : Value
  pub security_opt : List Text
  pub cap_add : List Text
  pub cap_drop : List Text
  pub privileged : Bool
  pub stop_signal : Value
  pub stop_grace_period : Value
  pub ulimits : Dict (ℤ × ℤ)
  pub networks : List Text
  pub shm_size : Value
  pub tmpfs : List Text
  pub cpus : Option Text
  pub cpu_shares : Option ℤ
  pub mem_limit : Value
  pub memswap_limit : Value
  pub extra_hosts : List Text
  pub sysctls : Dict Text

-- A service with nothing but its name: the defaults of the fields.
abbrev pub default_service : Text → Service
default_service name = record {
  name = name;
  image = null;
  build = none;
  command = null;
  entrypoint = null;
  environment = [];
  volumes = [];
  ports = [];
  devices = [];
  depends_on = [];
  healthcheck = null;
  network_mode = null;
  dns = null;
  hostname = null;
  working_dir = null;
  restart = null;
  security_opt = [];
  cap_add = [];
  cap_drop = [];
  privileged = false;
  stop_signal = null;
  stop_grace_period = null;
  ulimits = [];
  networks = [];
  shm_size = null;
  tmpfs = [];
  cpus = none;
  cpu_shares = none;
  mem_limit = null;
  memswap_limit = null;
  extra_hosts = [];
  sysctls = [];
}
