-- ===== src/Config.antt =====
-- `SandboxConfig` of config.py, and what its module takes from Python: the case of letters, numbers,
-- floats, and the splitting of a command line.
pub mod Capabilities
pub mod Limits
pub mod Docker
pub mod DockerRun
pub mod Subuid
pub mod Sample
use agentdocker_lite.Base.{ℕ, ℤ, pos, Bool, true, false, Option, none, List, [], Result}
use agentdocker_lite.Text.{Text, codes}
use agentdocker_lite.Dict.{Dict}

-- An exception, by its message.
abbrev pub Failure : Type 0
Failure = Text

-- `to_int_float` is `int` of a float, which an infinity makes fail.
pub record Python : Type 1 where
  pub Float : Type 0
  pub to_float : Text → Option Float
  pub times : Float → ℕ → Float
  pub over : Float → ℕ → Float
  pub to_int_float : Float → Option ℤ
  pub to_int : Text → Option ℤ
  pub show_int : ℤ → Text
  pub lower : Text → Text
  pub upper : Text → Text
  pub is_space : ℕ → Bool
  pub shlex_split : Text → Result Failure (List Text)

pub record SandboxConfig : Type 0 where
  pub image : Text
  pub working_dir : Text
  pub environment : Dict Text
  pub volumes : List Text
  pub devices : List Text
  pub tty : Bool
  pub entrypoint : Option (List Text)
  pub hostname : Option Text
  pub dns : Option (List Text)
  pub fs_backend : Text
  pub env_base_dir : Text
  pub rootfs_cache_dir : Text
  pub read_only : Bool
  pub tmpfs : List Text
  pub shm_size : Option Text
  pub cpu_max : Option Text
  pub memory_max : Option Text
  pub pids_max : Option Text
  pub io_max : Option Text
  pub oom_score_adj : Option ℤ
  pub cpuset_cpus : Option Text
  pub cpuset_mems : Option Text
  pub cpu_shares : Option ℤ
  pub memory_swap : Option Text
  pub memory_high : Option Text
  pub ulimits : Dict (ℤ × ℤ)
  pub net_isolate : Bool
  pub net_ns : Option Text
  pub shared_userns : Option Text
  pub port_map : Option (List Text)
  pub ipv6 : Bool
  pub seccomp : Bool
  pub cap_add : List Text
  pub cap_drop : List Text
  pub writable_paths : Option (List Text)
  pub readable_paths : Option (List Text)
  pub allowed_ports : Option (List ℕ)
  pub vm_mode : Bool
  pub mask_paths : Bool

-- The defaults of the fields, before `__post_init__`.
abbrev pub default_config : SandboxConfig
default_config = record {
  image = [];
  working_dir = codes "/";
  environment = [];
  volumes = [];
  devices = [];
  tty = false;
  entrypoint = none;
  hostname = none;
  dns = none;
  fs_backend = codes "overlayfs";
  env_base_dir = [];
  rootfs_cache_dir = [];
  read_only = false;
  tmpfs = [];
  shm_size = none;
  cpu_max = none;
  memory_max = none;
  pids_max = none;
  io_max = none;
  oom_score_adj = none;
  cpuset_cpus = none;
  cpuset_mems = none;
  cpu_shares = none;
  memory_swap = none;
  memory_high = none;
  ulimits = [];
  net_isolate = false;
  net_ns = none;
  shared_userns = none;
  port_map = none;
  ipv6 = false;
  seccomp = true;
  cap_add = [];
  cap_drop = [];
  writable_paths = none;
  readable_paths = none;
  allowed_ports = none;
  vm_mode = false;
  mask_paths = true;
}
