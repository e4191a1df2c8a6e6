-- ===== src/Config/Limits/Tests.antt =====
-- Limits as a user writes them.
use agentdocker_lite.Base.{◌≡◌, refl, true, false, some, [], ◌∷◌, ok}
use agentdocker_lite.Text.{Text, codes, strip, occurs, strip_prefix, text_eq}
use agentdocker_lite.Config.{SandboxConfig, default_config}
use agentdocker_lite.Config.Sample.{sample_python, no_device}
use agentdocker_lite.Config.Capabilities.{cap_names_to_numbers}
use agentdocker_lite.Config.Limits.{
  parse_size, parse_cpu_max, parse_io_max, post_init, keeps_seccomp,
}
use agentdocker_lite.Config.Limits.Guarantees.{
  IsQuota, IsBare, Unprivileged, prefixed, parse_cpu_max-IsQuota, post_init-Unprivileged,
  prefixed_caps_keep_seccomp,
}

parse_size-512m : parse_size sample_python (codes "512m") ≡ ok (codes "536870912")
unfolding parse_size text_eq
parse_size-512m = refl

parse_size-mb : parse_size sample_python (codes " 10mb") ≡ ok (codes "10485760")
unfolding parse_size text_eq
parse_size-mb = refl

parse_cpu_max-2 : parse_cpu_max sample_python (codes "2") ≡ ok (codes "200000 100000")
unfolding parse_cpu_max
parse_cpu_max-2 = refl

parse_io_max-10mb :
    parse_io_max sample_python no_device (codes "/dev/sda 10mb")
    ≡ ok (codes "/dev/sda wbps=10485760")
unfolding parse_io_max
parse_io_max-10mb = refl

parse_cpu_max-IsQuota_example : IsQuota sample_python (codes "200000 100000")
unfolding strip occurs
parse_cpu_max-IsQuota_example =
    parse_cpu_max-IsQuota sample_python (codes "2") (codes "200000 100000") refl parse_cpu_max-2

-- Memory of 512 megabytes with a gigabyte together with swap.
abbrev limited : SandboxConfig
limited = record default_config {
  memory_max = some (codes "512m");
  memory_swap = some (codes "1g");
  cap_add = codes "NET_ADMIN" ∷ [];
}

abbrev in_bytes : SandboxConfig
in_bytes = record limited {
  env_base_dir = codes "/tmp";
  rootfs_cache_dir = codes "/cache";
  memory_max = some (codes "536870912");
  memory_swap = some (codes "536870912");
}

post_init-limited :
    post_init sample_python no_device (codes "/tmp") (codes "/cache") limited ≡ ok in_bytes
unfolding post_init
post_init-limited = refl

post_init-Unprivileged_example : Unprivileged (codes "NET_ADMIN" ∷ []) × (true ≡ true)
post_init-Unprivileged_example =
    post_init-Unprivileged sample_python no_device (codes "/tmp") (codes "/cache") limited in_bytes
      post_init-limited refl

abbrev admin : Text
admin = codes "SYS_ADMIN"

admin-IsBare : IsBare sample_python admin
unfolding strip_prefix
admin-IsBare = record { upper_case = refl; fixed = refl; bare = refl }

prefixed_caps_keep_seccomp_example :
    (cap_names_to_numbers sample_python (prefixed (admin ∷ []))
      ≡ cap_names_to_numbers sample_python (admin ∷ []))
    × (keeps_seccomp (prefixed (admin ∷ [])) true ≡ true)
prefixed_caps_keep_seccomp_example =
    prefixed_caps_keep_seccomp sample_python (admin ∷ []) true (admin-IsBare, tt)

-- Without the prefix seccomp is off.
keeps_seccomp-bare : keeps_seccomp (admin ∷ []) true ≡ false
unfolding keeps_seccomp text_eq
keeps_seccomp-bare = refl
