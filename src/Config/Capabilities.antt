-- ===== src/Config/Capabilities.antt =====
-- `CAP_NAME_TO_NUM` and `cap_names_to_numbers` of config.py.
mod Tests
use agentdocker_lite.Base.{
  ℕ, suc, ◌+◌, ◌≤◌, ◌<◌, length, Bool-cases, ◌≡◌, refl, Bool, true, false, Option, none, some, List,
  [], ◌∷◌, All, map, leb, if◌then◌else◌, arith, Option-cases, inl, inr, String,
}
use agentdocker_lite.Text.{Text, codes, text_eq, strip_prefix}
use agentdocker_lite.Dict.{Dict, get, keys}
use agentdocker_lite.Config.{Python}

-- The names in the order of their numbers, from a number on.
abbrev pub numbered : ℕ → List Text → Dict ℕ
numbered n [] = []
numbered n (name ∷ names) = (name, n) ∷ numbered (n + 1) names

abbrev pub cap_names : List Text
cap_names =
    codes "CHOWN"
    ∷ codes "DAC_OVERRIDE"
    ∷ codes "DAC_READ_SEARCH"
    ∷ codes "FOWNER"
    ∷ codes "FSETID"
    ∷ codes "KILL"
    ∷ codes "SETGID"
    ∷ codes "SETUID"
    ∷ codes "SETPCAP"
    ∷ codes "LINUX_IMMUTABLE"
    ∷ codes "NET_BIND_SERVICE"
    ∷ codes "NET_BROADCAST"
    ∷ codes "NET_ADMIN"
    ∷ codes "NET_RAW"
    ∷ codes "IPC_LOCK"
    ∷ codes "IPC_OWNER"
    ∷ codes "SYS_MODULE"
    ∷ codes "SYS_RAWIO"
    ∷ codes "SYS_CHROOT"
    ∷ codes "SYS_PTRACE"
    ∷ codes "SYS_PACCT"
    ∷ codes "SYS_ADMIN"
    ∷ codes "SYS_BOOT"
    ∷ codes "SYS_NICE"
    ∷ codes "SYS_RESOURCE"
    ∷ codes "SYS_TIME"
    ∷ codes "SYS_TTY_CONFIG"
    ∷ codes "MKNOD"
    ∷ codes "LEASE"
    ∷ codes "AUDIT_WRITE"
    ∷ codes "AUDIT_CONTROL"
    ∷ codes "SETFCAP"
    ∷ codes "MAC_OVERRIDE"
    ∷ codes "MAC_ADMIN"
    ∷ codes "SYSLOG"
    ∷ codes "WAKE_ALARM"
    ∷ codes "BLOCK_SUSPEND"
    ∷ codes "AUDIT_READ"
    ∷ codes "PERFMON"
    ∷ codes "BPF"
    ∷ codes "CHECKPOINT_RESTORE"
    ∷ []

unfoldable pub cap_name_to_num : Dict ℕ
cap_name_to_num = numbered 0 cap_names

module _ (py : Python) where
  -- s.removeprefix("CAP_")
  unfoldable pub remove_cap : Text → Text
  unfolding strip_prefix
  remove_cap s = elim (strip_prefix (codes "CAP_") s) [ none ↦ s | some rest ↦ rest ]

  unfoldable pub cap_number : Text → Option ℕ
  cap_number name = get (remove_cap (py.upper name)) cap_name_to_num

  unfoldable pub cap_names_to_numbers : List Text → List ℕ
  cap_names_to_numbers [] = []
  cap_names_to_numbers (name ∷ names) =
      let rest = cap_names_to_numbers names in
      elim (cap_number name) [ none ↦ rest | some n ↦ n ∷ rest ]

numbered-lt :
    (first : ℕ) (names : List Text) (k : Text) (n : ℕ)
    → get k (numbered first names) ≡ some n
    → n < first + length names
unfolding get
numbered-lt first [] k n h = ground arith
numbered-lt first (name ∷ names) k n h = elim (Bool-cases (text_eq name k)) [
  | inl here ↦ ground arith
  | inr other ↦ ground (arith, numbered-lt (first + 1) names k n)
]

module _ (py : Python) where
  cap_number-le : (name : Text) (n : ℕ) → cap_number py name ≡ some n → n ≤ 40
  unfolding cap_number cap_name_to_num
  cap_number-le name n h =
      let bound = numbered-lt 0 cap_names (remove_cap py (py.upper name)) n h in
      omega (arith, bound)

  -- Each number is one of the kernel's capabilities, 0 to 40, and there is at most one for each name.
  pub cap_names_to_numbers_bounds :
      (names : List Text)
      → All (λ n. n ≤ 40) (cap_names_to_numbers py names)
        × (length (cap_names_to_numbers py names) ≤ length names)
  unfolding cap_names_to_numbers
  cap_names_to_numbers_bounds [] = (tt, omega arith)
  cap_names_to_numbers_bounds (name ∷ names) =
      let (small, few) = cap_names_to_numbers_bounds names in
      elim (Option-cases (cap_number py name)) [
        | inl unknown ↦ rw (cap_names_to_numbers, unknown) (small, omega arith)
        | inr (n, known) ↦
            rw (cap_names_to_numbers, known) ((cap_number-le name n known, small), omega arith)
      ]
