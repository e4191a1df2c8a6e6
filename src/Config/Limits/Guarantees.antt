-- ===== src/Config/Limits/Guarantees.antt =====
-- What `__post_init__` guarantees of the limits and of seccomp.
use agentdocker_lite.Base.{
  ℕ, suc, zero, ◌≡◌, refl, ap, sym, ◌∙◌, ℤ, pos, negsuc, Bool, true, false, Option, none, List, [],
  ◌∷◌, ◌++◌, map, All, ok, >>=-eq-ok, arith, Option-cases, inl, inr,
}
use agentdocker_lite.Text.{Text, codes, occurs, strip, text_eq, contains, strip_prefix}
use agentdocker_lite.Dict.{get}
use agentdocker_lite.Config.{Python, SandboxConfig}
use agentdocker_lite.Config.Capabilities.{
  cap_name_to_num, cap_number, cap_names_to_numbers, remove_cap,
}
use agentdocker_lite.Config.Limits.{
  parse_size, parse_cpu_max, parse_io_max, cpu_quota, quota_of, percentage, at_least_one, or_raise,
  convert, convert_swap, keeps_seccomp, post_init, privileged_caps,
}

-- None of the capabilities is one that the source calls privileged.
abbrev pub Unprivileged : List Text → Type 0
Unprivileged caps = All (λ name. contains privileged_caps name ≡ false) caps

keeps_seccomp-Unprivileged :
    (caps : List Text) (seccomp : Bool)
    → keeps_seccomp caps seccomp ≡ true
    → Unprivileged caps × (seccomp ≡ true)
unfolding keeps_seccomp
keeps_seccomp-Unprivileged [] seccomp h = (tt, h)
keeps_seccomp-Unprivileged (name ∷ caps) seccomp h =
    let (free, on) = keeps_seccomp-Unprivileged caps seccomp (ground arith) in
    ((ground arith, free), on)

-- Names in the longer spelling.
abbrev pub prefixed : List Text → List Text
prefixed names = map (λ name. codes "CAP_" ++ name) names

prefixed_not_privileged : (name : Text) → contains privileged_caps (codes "CAP_" ++ name) ≡ false
unfolding contains text_eq
prefixed_not_privileged name = refl

keeps_seccomp-prefixed :
    (names : List Text) (seccomp : Bool) → keeps_seccomp (prefixed names) seccomp ≡ seccomp
unfolding keeps_seccomp
keeps_seccomp-prefixed [] seccomp = refl
keeps_seccomp-prefixed (name ∷ names) seccomp =
    ground (arith, prefixed_not_privileged name, keeps_seccomp-prefixed names seccomp)

module _ (py : Python) where
  open py use {to_float, times, over, to_int_float, show_int, is_space, upper}

  -- A number of microseconds that is at least one, in each period of 100000.
  abbrev pub IsQuota : Text → Type 0
  IsQuota r = (q : ℕ) × (r ≡ show_int (pos (suc q)) ++ codes " 100000")

  least_one : (q : ℤ) → (n : ℕ) × (at_least_one q ≡ pos (suc n))
  least_one (pos zero) = (0, refl)
  least_one (pos (suc n)) = (n, refl)
  least_one (negsuc n) = (0, refl)

  quota_of-IsQuota : (x : py.Float) (r : Text) → quota_of py x ≡ ok r → IsQuota r
  unfolding quota_of
  quota_of-IsQuota x r h =
      let (q, read, same) =
        >>=-eq-ok (or_raise (codes "OverflowError") (to_int_float (times x 100000))) _ h in
      let (n, positive) = least_one q in (n, ground arith)

  cpu_quota-IsQuota : (value r : Text) → cpu_quota py value ≡ ok r → IsQuota r
  unfolding cpu_quota
  cpu_quota-IsQuota value r = elim (Option-cases (percentage py value)) [
    | inl plain ↦
        rw (cpu_quota, plain)
          (λ h.
            let (x, read, rest) = >>=-eq-ok (or_raise (codes "ValueError") (to_float value)) _ h in
            quota_of-IsQuota x r rest)
    | inr (number, percent) ↦
        rw (cpu_quota, percent)
          (λ h.
            let (x, read, rest) = >>=-eq-ok (or_raise (codes "ValueError") (to_float number)) _ h in
            quota_of-IsQuota (over x 100) r rest)
  ]

  -- A CPU limit that holds no blank is converted, if it is a number or a percentage, to a quota of at
  -- least one microsecond in a period of 100000.
  pub parse_cpu_max-IsQuota :
      (value r : Text)
      → occurs b' ' (strip is_space value) ≡ false
      → parse_cpu_max py value ≡ ok r
      → IsQuota r
  unfolding parse_cpu_max
  parse_cpu_max-IsQuota value r h =
      rw (parse_cpu_max, h) (cpu_quota-IsQuota (strip is_space value) r)

  module _ (device : Text → Option Text) where
    -- A configuration that `__post_init__` leaves with seccomp adds no privileged capability, as the
    -- source spells them, and had seccomp before.
    pub post_init-Unprivileged :
        (base cache : Text) (c c' : SandboxConfig)
        → post_init py device base cache c ≡ ok c'
        → c'.seccomp ≡ true
        → Unprivileged c'.cap_add × (c.seccomp ≡ true)
    unfolding post_init
    post_init-Unprivileged base cache c c' h on =
        let (memory, e1, h1) = >>=-eq-ok (convert py device (parse_size py) c.memory_max) _ h in
        let (cpu, e2, h2) = >>=-eq-ok (convert py device (parse_cpu_max py) c.cpu_max) _ h1 in
        let (io, e3, h3) = >>=-eq-ok (convert py device (parse_io_max py device) c.io_max) _ h2 in
        let (shm, e4, h4) = >>=-eq-ok (convert py device (parse_size py) c.shm_size) _ h3 in
        let (high, e5, h5) = >>=-eq-ok (convert py device (parse_size py) c.memory_high) _ h4 in
        let (swap, e6, h6) = >>=-eq-ok (convert_swap py device memory c.memory_swap) _ h5 in
        let caps : c.cap_add ≡ c'.cap_add = ground arith in
        let kept : keeps_seccomp c.cap_add c.seccomp ≡ true = ground arith in
        let (free, before) = keeps_seccomp-Unprivileged c.cap_add c.seccomp kept in
        (rw caps at free, before)

  -- A name in upper case that lacks the prefix.
  pub record IsBare (name : Text) : Type 0 where
    pub upper_case : upper (codes "CAP_" ++ name) ≡ codes "CAP_" ++ name
    pub fixed : upper name ≡ name
    pub bare : strip_prefix (codes "CAP_") name ≡ none

  remove_cap-prefixed : (name : Text) → remove_cap py (codes "CAP_" ++ name) ≡ name
  unfolding remove_cap
  remove_cap-prefixed name = refl

  remove_cap_bare :
      (name : Text) → strip_prefix (codes "CAP_") name ≡ none → remove_cap py name ≡ name
  unfolding remove_cap
  remove_cap_bare name h = ground arith

  cap_number-prefixed :
      (name : Text) → IsBare name → cap_number py (codes "CAP_" ++ name) ≡ cap_number py name
  unfolding cap_number
  cap_number-prefixed name h =
      let upper_same : upper (codes "CAP_" ++ name) ≡ codes "CAP_" ++ name = h.upper_case in
      ap (λ s. get s cap_name_to_num)
        (ap (remove_cap py) upper_same
          ∙ (remove_cap-prefixed name
              ∙ (sym (remove_cap_bare name h.bare) ∙ ap (remove_cap py) (sym h.fixed))))

  numbers-prefixed :
      (names : List Text)
      → All IsBare names
      → cap_names_to_numbers py (prefixed names) ≡ cap_names_to_numbers py names
  unfolding cap_names_to_numbers
  numbers-prefixed [] h = refl
  numbers-prefixed (name ∷ names) (here, later) =
      ground (arith, cap_number-prefixed name here, numbers-prefixed names later)

  -- Capabilities in upper case mean the same numbers with the prefix `CAP_` as without it, but with the
  -- prefix none of them, privileged or not, takes seccomp away.
  pub prefixed_caps_keep_seccomp :
      (names : List Text) (seccomp : Bool)
      → All IsBare names
      → (cap_names_to_numbers py (prefixed names) ≡ cap_names_to_numbers py names)
        × (keeps_seccomp (prefixed names) seccomp ≡ seccomp)
  prefixed_caps_keep_seccomp names seccomp h =
      (numbers-prefixed names h, keeps_seccomp-prefixed names seccomp)
