-- ===== src/Config/Subuid.antt =====
-- `detect_subuid_range` of config.py, with its two module variables. What the system answers is a
-- record: the two tools, the user, and the lines of /etc/subuid if the file exists.
mod Tests
use agentdocker_lite.Base.{
  ℤ, ◌≡◌, refl, arith, Bool, true, false, not, ◌&&◌, ◌||◌, Option, none, some, List, [], ◌∷◌, ◌==◌,
  if◌then◌else◌, Result, ok, err, ◌>>=◌, Bool-cases, ap, inl, inr,
}
use agentdocker_lite.Text.{Text, codes, text_eq, split_all, strip}
use agentdocker_lite.Config.{Python, Failure}
use agentdocker_lite.Config.Limits.{or_raise}

pub record System : Type 0 where
  pub has_newuidmap : Bool
  pub has_newgidmap : Bool
  -- getpass.getuser(), which may fail
  pub username : Option Text
  pub uid : ℤ
  pub subuid_lines : Option (List Text)

-- (uid, sub_start, sub_count)
abbrev pub Range : Type 0
Range = ℤ × ℤ × ℤ

-- _subuid_detected and _cached_subuid_range
pub record Detected : Type 0 where
  pub detected : Bool
  pub cached : Option Range

abbrev pub undetected : Detected
undetected = record { detected = false; cached = none }

abbrev pub settled : Option Range → Detected → Detected
settled none d = record d { detected = true }
settled (some range) d = record { detected = true; cached = some range }

-- The parts of a line that is an entry.
unfoldable pub entry_parts : Text → Option (Text × Text × Text)
unfolding split_all
entry_parts [] = none
entry_parts (c ∷ line) = if c == b'#' then none else elim (split_all b':' (c ∷ line)) [
  | owner ∷ (first ∷ (count ∷ [])) ↦ some (owner, first, count)
  | _ ↦ none
]

module _ (py : Python) where
  open py use {to_int, show_int, is_space}

  abbrev pub owned_by : Text → ℤ → Text → Bool
  owned_by username uid owner = text_eq owner username || text_eq owner (show_int uid)

  abbrev pub range_of : ℤ → Text → Text → Result Failure (Option Range)
  range_of uid first count = or_raise (codes "ValueError") (to_int first) >>= λ sub_start.
      or_raise (codes "ValueError") (to_int count) >>= λ sub_count.
      ok (some (uid, sub_start, sub_count))

  -- The first entry of the user decides.
  unfoldable pub search_lines : Text → ℤ → List Text → Result Failure (Option Range)
  unfolding entry_parts text_eq strip
  search_lines username uid [] = ok none
  search_lines username uid (line ∷ lines) =
      let later = search_lines username uid lines in
      elim (entry_parts (strip is_space line)) [
        | none ↦ later
        | some (owner, first, count) ↦
            if owned_by username uid owner then range_of uid first count else later
      ]

  unfoldable pub look_up : System → Result Failure (Option Range)
  unfolding search_lines
  look_up system =
      if not (system.has_newuidmap && system.has_newgidmap)
      then err (codes "newuidmap/newgidmap not found")
      else elim system.username [
        | none ↦ ok none
        | some username ↦ elim system.subuid_lines [
          | none ↦ ok none
          | some lines ↦ search_lines username system.uid lines
        ]
      ]

  abbrev pub answer :
      Result Failure (Option Range) → Detected → Result Failure (Option Range) × Detected
  answer (ok range) d = (ok range, settled range d)
  answer (err e) d = (err e, d)

  unfoldable pub detect_subuid_range : System → Detected → Result Failure (Option Range) × Detected
  unfolding look_up
  detect_subuid_range system d = if d.detected then (ok d.cached, d) else answer (look_up system) d

  -- A range is only cached once it is detected.
  abbrev pub IsConsistent : Detected → Type 0
  IsConsistent d = d.detected ≡ false → d.cached ≡ none

  -- What a call with this result has done to the state.
  abbrev pub Settles : System → Detected → Result Failure (Option Range) → Detected → Type 0
  Settles later d (ok range) d' = detect_subuid_range later d' ≡ (ok range, d')
  Settles later d (err e) d' = d' ≡ d

  answer-IsConsistent :
      (r : Result Failure (Option Range)) (d : Detected)
      → IsConsistent d
      → IsConsistent (answer r d).1
  answer-IsConsistent (ok none) d h = λ off. ground arith
  answer-IsConsistent (ok (some range)) d h = λ off. ground arith
  answer-IsConsistent (err e) d h = h

  answer-Settles :
      (later : System) (r : Result Failure (Option Range)) (d : Detected)
      → d.cached ≡ none
      → Settles later d (answer r d).0 (answer r d).1
  unfolding detect_subuid_range
  answer-Settles later (ok none) d h =
      ap (λ c. (ok c, record { detected = true; cached = d.cached })) h
  answer-Settles later (ok (some range)) d h = refl
  answer-Settles later (err e) d h = refl

  -- From a state in which nothing is cached before the detection, which the initial one is: a call that
  -- returns leaves such a state, in which every later call, whatever the system says by then, returns the
  -- same and changes nothing; a call that raises changes nothing, so that the next one looks again.
  pub detect_subuid_range-Settles :
      (system later : System) (d : Detected)
      → IsConsistent d
      → IsConsistent (detect_subuid_range system d).1
        × Settles later d (detect_subuid_range system d).0 (detect_subuid_range system d).1
  unfolding detect_subuid_range
  detect_subuid_range-Settles system later d h = elim (Bool-cases d.detected) [
    | inl on ↦ simp (detect_subuid_range, on) (λ same. ground arith, refl)
    | inr off ↦
        simp (detect_subuid_range, off)
          (
            answer-IsConsistent (look_up system) d h,
            answer-Settles later (look_up system) d (h off),
          )
  ]
