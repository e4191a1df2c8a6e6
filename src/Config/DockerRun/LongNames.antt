-- ===== src/Config/DockerRun/LongNames.antt =====
-- The long names of the options, and how a word with such a name is read.
use agentdocker_lite.Base.{◌≡◌, refl, [], ◌++◌}
use agentdocker_lite.Text.{Text, codes, text_eq, strip_prefix, split_once}
use agentdocker_lite.Dict.{get}
use agentdocker_lite.Config.DockerRun.{takes, kind, split_word}
use agentdocker_lite.Config.DockerRun.Keys.{
  Key, volume, publish, env, device, dns, cpus, memory, pids_limit, cpuset_cpus, hostname, workdir,
  shm_size, cpu_shares, memory_swap, tmpfs, cap_add, ulimit, entrypoint, oom_score_adj, env_file,
  security_opt, network, name, key_of,
}

-- The option's long name.
abbrev pub long_name : Key → Text
long_name volume = codes "--volume"
long_name publish = codes "--publish"
long_name env = codes "--env"
long_name device = codes "--device"
long_name dns = codes "--dns"
long_name cpus = codes "--cpus"
long_name memory = codes "--memory"
long_name pids_limit = codes "--pids-limit"
long_name cpuset_cpus = codes "--cpuset-cpus"
long_name hostname = codes "--hostname"
long_name workdir = codes "--workdir"
long_name shm_size = codes "--shm-size"
long_name cpu_shares = codes "--cpu-shares"
long_name memory_swap = codes "--memory-swap"
long_name tmpfs = codes "--tmpfs"
long_name cap_add = codes "--cap-add"
long_name ulimit = codes "--ulimit"
long_name entrypoint = codes "--entrypoint"
long_name oom_score_adj = codes "--oom-score-adj"
long_name env_file = codes "--env-file"
long_name security_opt = codes "--security-opt"
long_name network = codes "--network"
long_name name = codes "--name"

pub kind-long_name : (key : Key) → kind (long_name key) ≡ takes key
unfolding kind key_of get text_eq
kind-long_name volume = refl
kind-long_name publish = refl
kind-long_name env = refl
kind-long_name device = refl
kind-long_name dns = refl
kind-long_name cpus = refl
kind-long_name memory = refl
kind-long_name pids_limit = refl
kind-long_name cpuset_cpus = refl
kind-long_name hostname = refl
kind-long_name workdir = refl
kind-long_name shm_size = refl
kind-long_name cpu_shares = refl
kind-long_name memory_swap = refl
kind-long_name tmpfs = refl
kind-long_name cap_add = refl
kind-long_name ulimit = refl
kind-long_name entrypoint = refl
kind-long_name oom_score_adj = refl
kind-long_name env_file = refl
kind-long_name security_opt = refl
kind-long_name network = refl
kind-long_name name = refl

pub split_word-joined :
    (key : Key) (v : Text) → split_word (long_name key ++ (codes "=" ++ v)) ≡ (long_name key, v)
unfolding split_word split_once strip_prefix
split_word-joined volume v = refl
split_word-joined publish v = refl
split_word-joined env v = refl
split_word-joined device v = refl
split_word-joined dns v = refl
split_word-joined cpus v = refl
split_word-joined memory v = refl
split_word-joined pids_limit v = refl
split_word-joined cpuset_cpus v = refl
split_word-joined hostname v = refl
split_word-joined workdir v = refl
split_word-joined shm_size v = refl
split_word-joined cpu_shares v = refl
split_word-joined memory_swap v = refl
split_word-joined tmpfs v = refl
split_word-joined cap_add v = refl
split_word-joined ulimit v = refl
split_word-joined entrypoint v = refl
split_word-joined oom_score_adj v = refl
split_word-joined env_file v = refl
split_word-joined security_opt v = refl
split_word-joined network v = refl
split_word-joined name v = refl

pub split_word-spaced : (key : Key) → split_word (long_name key) ≡ (long_name key, [])
unfolding split_word split_once strip_prefix
split_word-spaced volume = refl
split_word-spaced publish = refl
split_word-spaced env = refl
split_word-spaced device = refl
split_word-spaced dns = refl
split_word-spaced cpus = refl
split_word-spaced memory = refl
split_word-spaced pids_limit = refl
split_word-spaced cpuset_cpus = refl
split_word-spaced hostname = refl
split_word-spaced workdir = refl
split_word-spaced shm_size = refl
split_word-spaced cpu_shares = refl
split_word-spaced memory_swap = refl
split_word-spaced tmpfs = refl
split_word-spaced cap_add = refl
split_word-spaced ulimit = refl
split_word-spaced entrypoint = refl
split_word-spaced oom_score_adj = refl
split_word-spaced env_file = refl
split_word-spaced security_opt = refl
split_word-spaced network = refl
split_word-spaced name = refl
