-- ===== src/Config/Limits.antt =====
-- `_parse_size`, `_parse_cpu_max`, `_parse_io_max` and `__post_init__` of config.py. `device` gives the
-- numbers of a path that is a block device.
pub mod Guarantees
mod Tests
use agentdocker_lite.Base.{
  ℕ, suc, zero, ◌+◌, ◌-◌, ◌*◌, ◌^◌, ℤ, pos, negsuc, Bool, true, false, ◌&&◌, ◌||◌, not, Option,
  none, some, List, [], ◌∷◌, ◌++◌, leb, any, if◌then◌else◌, Result, ok, err, ◌>>=◌,
}
use agentdocker_lite.Text.{
  join_texts, Text, codes, text_eq, contains, occurs, strip, split_last, strip_prefix, split_once,
}
use agentdocker_lite.Dict.{Dict, get}
use agentdocker_lite.Config.{Python, Failure, SandboxConfig}

-- "k", "m", "g", "t"
unfoldable pub suffixes : Text → Option ℕ
unfolding get
suffixes s =
    get s (
      (codes "k", 1024)
      ∷ (codes "m", 1024 ^ 2)
      ∷ (codes "g", 1024 ^ 3)
      ∷ (codes "t", 1024 ^ 4)
      ∷ [])

abbrev pub is_some {ℓ} : {A : Type ℓ} → Option A → Bool
is_some none = false
is_some (some a) = true

-- s.endswith("b"), behind a suffix
unfoldable pub ends_in_unit_b : Text → Bool
unfolding split_last suffixes
ends_in_unit_b s = elim (split_last s) [
  | none ↦ false
  | some (front, b) ↦ elim (split_last front) [
    | none ↦ false
    | some (rest, unit) ↦ text_eq (b ∷ []) (codes "b") && is_some (suffixes (unit ∷ []))
  ]
]

abbrev pub or_raise : Failure → {A : Type 0} → Option A → Result Failure A
or_raise e none = err e
or_raise e (some a) = ok a

-- max(0, a - b)
abbrev pub ℤ_monus : ℤ → ℤ → ℕ
ℤ_monus (pos a) (pos b) = a - b
ℤ_monus (pos a) (negsuc b) = a + suc b
ℤ_monus (negsuc a) (pos b) = 0
ℤ_monus (negsuc a) (negsuc b) = b - a

-- s[:-1], where there is a last character
abbrev pub drop_last : Text → Text
drop_last s = elim (split_last s) [ none ↦ [] | some (front, last) ↦ front ]

abbrev pub at_least_one : ℤ → ℤ
at_least_one (pos (suc n)) = pos (suc n)
at_least_one _ = pos 1

-- s.split()
unfoldable pub words : (ℕ → Bool) → Text → List Text
words is_space [] = []
words is_space (c ∷ []) = if is_space c then [] else (c ∷ []) ∷ []
words is_space (c ∷ (d ∷ s)) =
    let rest = words is_space (d ∷ s) in
    if is_space c
    then rest
    else if is_space d
    then (c ∷ []) ∷ rest
    else elim rest [ [] ↦ (c ∷ []) ∷ [] | w ∷ ws ↦ (c ∷ w) ∷ ws ]

abbrev pub privileged_caps : List Text
privileged_caps = codes "SYS_ADMIN" ∷ codes "ALL" ∷ codes "SYS_PTRACE" ∷ codes "SYS_RAWIO" ∷ []

unfoldable pub keeps_seccomp : List Text → Bool → Bool
unfolding contains
keeps_seccomp cap_add seccomp = not (any (contains privileged_caps) cap_add) && seccomp

abbrev pub or_default : Text → Text → Text
or_default [] default = default
or_default (c ∷ s) default = c ∷ s

module _ (py : Python) where
  open py use {to_float, times, over, to_int_float, to_int, show_int, lower, is_space}

  unfoldable pub scale : Text → ℕ → Result Failure Text
  scale number factor = or_raise (codes "ValueError") (to_float number) >>= λ x.
      or_raise (codes "OverflowError") (to_int_float (times x factor)) >>= λ n. ok (show_int n)

  -- The value behind the unit's "b".
  unfoldable pub sized : Text → Result Failure Text
  unfolding split_last suffixes scale
  sized value = elim (split_last value) [
    | none ↦ err (codes "IndexError")
    | some (front, last) ↦ elim (suffixes (lower (last ∷ []))) [
      | none ↦ ok value
      | some factor ↦ scale front factor
    ]
  ]

  unfoldable pub size_of : Text → Result Failure Text
  unfolding sized ends_in_unit_b split_last
  size_of [] = ok []
  size_of (c ∷ s) = sized (if ends_in_unit_b (lower (c ∷ s)) then drop_last (c ∷ s) else c ∷ s)

  unfoldable pub parse_size : Text → Result Failure Text
  unfolding size_of strip
  parse_size value = size_of (strip is_space value)

  -- The number in front of a percent sign at the end.
  unfoldable pub percentage : Text → Option Text
  unfolding split_last text_eq
  percentage value = elim (split_last value) [
    | none ↦ none
    | some (front, last) ↦ if text_eq (last ∷ []) (codes "%") then some front else none
  ]

  unfoldable pub quota_of : py.Float → Result Failure Text
  quota_of fraction =
      or_raise (codes "OverflowError") (to_int_float (times fraction 100000)) >>= λ quota.
      ok (show_int (at_least_one quota) ++ codes " 100000")

  unfoldable pub cpu_quota : Text → Result Failure Text
  unfolding percentage quota_of
  cpu_quota value = elim (percentage value) [
    | none ↦ (or_raise (codes "ValueError") (to_float value) >>= quota_of)
    | some number ↦ (or_raise (codes "ValueError") (to_float number) >>= λ x. quota_of (over x 100))
  ]

  unfoldable pub parse_cpu_max : Text → Result Failure Text
  unfolding cpu_quota strip occurs
  parse_cpu_max value =
      if occurs b' ' (strip is_space value)
      then ok (strip is_space value)
      else cpu_quota (strip is_space value)

  -- ((?:r|w)(?:bps|iops))=(\S+) at the head of a word
  unfoldable pub io_param : Text → Option (Text × Text)
  unfolding split_once contains text_eq
  io_param word = elim (split_once (codes "=") word) [
    | none ↦ none
    | some (key, []) ↦ none
    | some (key, c ∷ value) ↦
        if contains (codes "rbps" ∷ codes "riops" ∷ codes "wbps" ∷ codes "wiops" ∷ []) key
        then some (key, c ∷ value)
        else none
  ]

  unfoldable pub io_params : List Text → Result Failure (List Text)
  unfolding io_param parse_size
  io_params [] = ok []
  io_params (word ∷ rest) = elim (io_param word) [
    | none ↦ (io_params rest >>= λ ws. ok (word ∷ ws))
    | some (key, value) ↦
        (parse_size value >>= λ size.
        io_params rest >>= λ ws. ok ((key ++ (codes "=" ++ size)) ∷ ws))
  ]

  module _ (device : Text → Option Text) where
    unfoldable pub device_numbers : Text → Text
    unfolding strip_prefix
    device_numbers dev = elim (strip_prefix (codes "/dev/") dev) [
      | none ↦ dev
      | some name ↦ elim (device dev) [ none ↦ dev | some numbers ↦ numbers ]
    ]

    unfoldable pub io_limit : Text → Text → List Text → Result Failure Text
    unfolding io_params parse_size join_texts occurs
    io_limit dev size rest =
        if any (occurs b'=') (size ∷ rest)
        then (io_params (size ∷ rest) >>= λ ws.
            ok (dev ++ (codes " " ++ join_texts (codes " ") ws)))
        else (parse_size size >>= λ raw. ok (dev ++ (codes " wbps=" ++ raw)))

    unfoldable pub parse_io_max : Text → Result Failure Text
    unfolding words strip device_numbers io_limit
    parse_io_max value = elim (words is_space (strip is_space value)) [
      | dev ∷ (size ∷ rest) ↦ io_limit (device_numbers dev) size rest
      | _ ↦ ok (strip is_space value)
    ]

    -- A field that is set and not empty is converted.
    abbrev pub convert : (Text → Result Failure Text) → Option Text → Result Failure (Option Text)
    convert f none = ok none
    convert f (some []) = ok (some [])
    convert f (some (c ∷ s)) = (f (c ∷ s) >>= λ t. ok (some t))

    abbrev pub int_or_raise : Text → Result Failure ℤ
    int_or_raise s = or_raise (codes "ValueError") (to_int s)

    abbrev pub memory_of : Option Text → Result Failure ℤ
    memory_of none = ok (pos 0)
    memory_of (some []) = ok (pos 0)
    memory_of (some (c ∷ s)) = int_or_raise (c ∷ s)

    -- The swap limit, with the memory limit already in bytes.
    unfoldable pub swap_limit : Option Text → Text → Result Failure (Option Text)
    unfolding text_eq parse_size
    swap_limit memory_max swap =
        if text_eq swap (codes "-1")
        then ok (some (codes "max"))
        else if text_eq swap (codes "0")
        then ok none
        else (parse_size swap >>= λ size. int_or_raise size >>= λ total.
            memory_of memory_max >>= λ memory. ok (some (show_int (pos (ℤ_monus total memory)))))

    unfoldable pub convert_swap : Option Text → Option Text → Result Failure (Option Text)
    unfolding swap_limit
    convert_swap memory_max none = ok none
    convert_swap memory_max (some []) = ok (some [])
    convert_swap memory_max (some (c ∷ s)) = swap_limit memory_max (c ∷ s)

    -- The defaults of the two directories come from the system.
    unfoldable pub post_init : Text → Text → SandboxConfig → Result Failure SandboxConfig
    unfolding parse_size parse_cpu_max parse_io_max convert_swap keeps_seccomp
    post_init base_dir cache_dir c = do
      memory_max ← convert parse_size c.memory_max
      cpu_max ← convert parse_cpu_max c.cpu_max
      io_max ← convert parse_io_max c.io_max
      shm_size ← convert parse_size c.shm_size
      memory_high ← convert parse_size c.memory_high
      memory_swap ← convert_swap memory_max c.memory_swap
      ok (record c {
        env_base_dir = or_default c.env_base_dir base_dir;
        rootfs_cache_dir = or_default c.rootfs_cache_dir cache_dir;
        memory_max = memory_max;
        cpu_max = cpu_max;
        io_max = io_max;
        shm_size = shm_size;
        memory_high = memory_high;
        memory_swap = memory_swap;
        seccomp = keeps_seccomp c.cap_add c.seccomp;
      })
