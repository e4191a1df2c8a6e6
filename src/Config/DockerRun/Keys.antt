-- ===== src/Config/DockerRun/Keys.antt =====
-- What the options of a `docker run` command do. `read_lines` gives the lines of a file, if it exists.
use agentdocker_lite.Base.{
  ℤ, true, false, Option, none, some, List, [], ◌∷◌, ◌++◌, ◌==◌, if◌then◌else◌, Result, ok, ◌>>=◌,
}
use agentdocker_lite.Text.{Text, codes, text_eq, contains, split_once, strip}
use agentdocker_lite.Dict.{Dict, get, put}
use agentdocker_lite.Config.{Python, Failure, SandboxConfig, default_config}
use agentdocker_lite.Config.Capabilities.{cap_names}
use agentdocker_lite.Config.Limits.{or_raise}

-- The options with a value.
pub data Key : Type 0 where
  volume publish env device dns cpus memory pids_limit cpuset_cpus hostname workdir shm_size : Key
  cpu_shares memory_swap tmpfs cap_add ulimit entrypoint oom_score_adj env_file security_opt : Key
  network name : Key

unfoldable pub key_of : Text → Option Key
unfolding get text_eq
key_of a = get a (
    (codes "-v", volume)
    ∷ (codes "--volume", volume)
    ∷ (codes "-p", publish)
    ∷ (codes "--publish", publish)
    ∷ (codes "-e", env)
    ∷ (codes "--env", env)
    ∷ (codes "--device", device)
    ∷ (codes "--dns", dns)
    ∷ (codes "--cpus", cpus)
    ∷ (codes "-m", memory)
    ∷ (codes "--memory", memory)
    ∷ (codes "--pids-limit", pids_limit)
    ∷ (codes "--cpuset-cpus", cpuset_cpus)
    ∷ (codes "-h", hostname)
    ∷ (codes "--hostname", hostname)
    ∷ (codes "-w", workdir)
    ∷ (codes "--workdir", workdir)
    ∷ (codes "--shm-size", shm_size)
    ∷ (codes "--cpu-shares", cpu_shares)
    ∷ (codes "--memory-swap", memory_swap)
    ∷ (codes "--tmpfs", tmpfs)
    ∷ (codes "--cap-add", cap_add)
    ∷ (codes "--ulimit", ulimit)
    ∷ (codes "--entrypoint", entrypoint)
    ∷ (codes "--oom-score-adj", oom_score_adj)
    ∷ (codes "--env-file", env_file)
    ∷ (codes "--security-opt", security_opt)
    ∷ (codes "--network", network)
    ∷ (codes "--name", name)
    ∷ [])

-- The variables of the loop, with `kwargs` in the configuration's fields.
pub record Options : Type 0 where
  pub config : SandboxConfig
  pub volumes : List Text
  pub ports : List Text
  pub env : Dict Text
  pub devices : List Text
  pub dns : List Text
  pub image : Text

abbrev pub start : Options
start = record {
  config = default_config;
  volumes = [];
  ports = [];
  env = [];
  devices = [];
  dns = [];
  image = [];
}

-- s.partition(sep), without the separator
abbrev pub partition : Text → Text → Text × Text
partition sep s = elim (split_once sep s) [ none ↦ (s, []) | some parts ↦ parts ]

abbrev pub set_image : Text → Options → Options
set_image a o = elim o.image [ [] ↦ record o { image = a } | c ∷ s ↦ o ]

abbrev pub set_config : (SandboxConfig → SandboxConfig) → Options → Options
set_config f o = record o { config = f o.config }

abbrev pub set_read_only : Options → Options
set_read_only = set_config (λ c. record c { read_only = true })

abbrev pub set_tty : Options → Options
set_tty = set_config (λ c. record c { tty = true })

abbrev pub set_privileged : Options → Options
set_privileged = set_config (λ c. record c { seccomp = false; cap_add = c.cap_add ++ cap_names })

abbrev pub set_ulimit : Text → ℤ → ℤ → Options → Options
set_ulimit limit soft hard =
    set_config (λ c. record c { ulimits = put limit (soft, hard) c.ulimits })

module _ (py : Python) (read_lines : Text → Option (List Text)) where
  open py use {to_int, is_space}

  abbrev pub int_of : Text → Result Failure ℤ
  int_of s = or_raise (codes "ValueError") (to_int s)

  unfoldable pub put_line : Text → Dict Text → Dict Text
  unfolding split_once put strip
  put_line [] vars = vars
  put_line (c ∷ line) vars = if c == b'#' then vars else elim (split_once (codes "=") (c ∷ line)) [
    | none ↦ vars
    | some (k, v) ↦ put (strip is_space k) (strip is_space v) vars
  ]

  unfoldable pub put_lines : List Text → Dict Text → Dict Text
  unfolding put_line strip
  put_lines [] vars = vars
  put_lines (line ∷ lines) vars = put_lines lines (put_line (strip is_space line) vars)

  unfoldable pub apply_ulimit : Text → Text → Options → Result Failure Options
  unfolding split_once
  apply_ulimit limit [] o = ok o
  apply_ulimit limit (c ∷ s) o = elim (split_once (codes ":") (c ∷ s)) [
    | none ↦ (int_of (c ∷ s) >>= λ n. ok (set_ulimit limit n n o))
    | some (soft, hard) ↦ (int_of soft >>= λ m. int_of hard >>= λ n. ok (set_ulimit limit m n o))
  ]

  unfoldable pub apply : Key → Text → Options → Result Failure Options
  unfolding split_once put_lines apply_ulimit text_eq contains put
  apply volume v o = ok (record o { volumes = o.volumes ++ v ∷ [] })
  apply publish v o = ok (record o { ports = o.ports ++ v ∷ [] })
  apply env v o = let (k, w) = partition (codes "=") v in ok (record o { env = put k w o.env })
  apply device v o = ok (record o { devices = o.devices ++ (partition (codes ":") v).0 ∷ [] })
  apply dns v o = ok (record o { dns = o.dns ++ v ∷ [] })
  apply cpus v o = ok (set_config (λ c. record c { cpu_max = some v }) o)
  apply memory v o = ok (set_config (λ c. record c { memory_max = some v }) o)
  apply pids_limit v o = ok (set_config (λ c. record c { pids_max = some v }) o)
  apply cpuset_cpus v o = ok (set_config (λ c. record c { cpuset_cpus = some v }) o)
  apply hostname v o = ok (set_config (λ c. record c { hostname = some v }) o)
  apply workdir v o = ok (set_config (λ c. record c { working_dir = v }) o)
  apply shm_size v o = ok (set_config (λ c. record c { shm_size = some v }) o)
  apply cpu_shares v o =
      (int_of v >>= λ n. ok (set_config (λ c. record c { cpu_shares = some n }) o))
  apply memory_swap v o = ok (set_config (λ c. record c { memory_swap = some v }) o)
  apply tmpfs v o = ok (set_config (λ c. record c { tmpfs = c.tmpfs ++ v ∷ [] }) o)
  apply cap_add v o = ok (set_config (λ c. record c { cap_add = c.cap_add ++ v ∷ [] }) o)
  apply ulimit v o = let (limit, limits) = partition (codes "=") v in apply_ulimit limit limits o
  apply entrypoint v o = ok (set_config (λ c. record c { entrypoint = some (v ∷ []) }) o)
  apply oom_score_adj v o =
      (int_of v >>= λ n. ok (set_config (λ c. record c { oom_score_adj = some n }) o))
  apply env_file v o = elim (read_lines v) [
    | none ↦ ok o
    | some lines ↦ ok (record o { env = put_lines lines o.env })
  ]
  apply security_opt v o =
      if contains (codes "seccomp=unconfined" ∷ codes "seccomp:unconfined" ∷ []) v
      then ok (set_config (λ c. record c { seccomp = false }) o)
      else ok o
  apply network v o =
      if text_eq v (codes "none")
      then ok (set_config (λ c. record c { net_isolate = true }) o)
      else ok o
  apply name v o = ok o
