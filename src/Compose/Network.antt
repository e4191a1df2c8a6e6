-- ===== src/Compose/Network.antt =====
-- `_parse_duration`, `_parse_pasta_dns` and `_parse_pasta_guest_ip` of compose/_network.py. Floats and the
-- classes of characters are parameters.
mod Tests
use agentdocker_lite.Base.{
  ℕ, zero, suc, ◌-◌, Bool, true, false, not, ◌&&◌, ◌||◌, Option, none, some, List, [], ◌∷◌, ◌++◌,
  ◌==◌, length, all, if◌then◌else◌,
}
use agentdocker_lite.Text.{Text, codes, span, split_all, split_once, strip, strip_prefix}

-- The fraction behind a point, if there is one.
abbrev with_fraction : Text → Text → Text × Text → Text × Text
with_fraction ds rest ([], behind) = (ds, rest)
with_fraction ds rest (e ∷ es, behind) = (ds ++ (b'.' ∷ (e ∷ es)), behind)

module _ (is_digit is_space : ℕ → Bool) where
  abbrev number_from : Text × Text → Option (Text × Text)
  number_from ([], rest) = none
  number_from (d ∷ ds, []) = some (d ∷ ds, [])
  number_from (d ∷ ds, c ∷ rest) = some (
      if c == b'.'
      then with_fraction (d ∷ ds) (c ∷ rest) (span is_digit rest)
      else (d ∷ ds, c ∷ rest))

  -- \d+(?:\.\d+)? at the head: the number and what is behind it
  unfoldable pub number_at : Text → Option (Text × Text)
  unfolding span
  number_at s = number_from (span is_digit s)

  -- (h|m(?!s)|s|ms), with its number of milliseconds and its length
  unfoldable pub unit_at : Text → Option (ℕ × ℕ)
  unit_at [] = none
  unit_at (c ∷ []) =
      if c == b'h'
      then some (3600000, 1)
      else if c == b'm'
      then some (60000, 1)
      else if c == b's'
      then some (1000, 1)
      else none
  unit_at (c ∷ (d ∷ s)) =
      if c == b'h'
      then some (3600000, 1)
      else if c == b'm'
      then (if d == b's' then some (1, 2) else some (60000, 1))
      else if c == b's'
      then some (1000, 1)
      else none

  -- A number with its unit at the head: the number, the milliseconds, and the length of the match.
  unfoldable pub term_at : Text → Option (Text × ℕ × ℕ)
  unfolding number_at unit_at span
  term_at s = elim (number_at s) [
    | none ↦ none
    | some (number, rest) ↦
        let (blanks, behind) = span is_space rest in
        elim (unit_at behind) [
          | none ↦ none
          | some (milliseconds, size) ↦
              some (number, milliseconds, length s - (length behind - size))
        ]
  ]

  -- The matches of finditer; the first `skip` characters belong to the match before.
  unfoldable pub terms : ℕ → Text → List (Text × ℕ)
  unfolding term_at
  terms skip [] = []
  terms (suc skip) (c ∷ s) = terms skip s
  terms zero (c ∷ s) = elim (term_at (c ∷ s)) [
    | none ↦ terms zero s
    | some (number, milliseconds, size) ↦ (number, milliseconds) ∷ terms (size - 1) s
  ]

  -- ^\d+\.\d+\.\d+\.\d+$
  abbrev all_digits : Text → Bool
  all_digits [] = false
  all_digits (c ∷ s) = all is_digit (c ∷ s)

  unfoldable pub is_ipv4 : Text → Bool
  unfolding split_all span
  is_ipv4 s = elim (split_all b'.' s) [
    | a ∷ (b ∷ (c ∷ (d ∷ []))) ↦ all_digits a && (all_digits b && (all_digits c && all_digits d))
    | _ ↦ false
  ]

  -- The loop of `_parse_pasta_dns`, with `in_dns`.
  unfoldable pub dns_lines : Bool → List Text → List Text
  unfolding is_ipv4 strip strip_prefix
  dns_lines in_dns [] = []
  dns_lines in_dns (line ∷ lines) =
      let inside = dns_lines true lines in
      let outside = dns_lines false lines in
      elim (strip_prefix (codes "DNS:") (strip is_space line)) [
        | some rest ↦ inside
        | none ↦
            if not in_dns
            then outside
            else if is_ipv4 (strip is_space line)
            then strip is_space line ∷ inside
            else outside
      ]

  unfoldable pub parse_pasta_dns : List Text → List Text
  unfolding dns_lines
  parse_pasta_dns lines = elim (dns_lines false lines) [
    | [] ↦ codes "169.254.1.1" ∷ []
    | ip ∷ ips ↦ ip ∷ ips
  ]

  -- The address of an `assign:` line.
  unfoldable pub assigned : Text → Option Text
  unfolding strip strip_prefix is_ipv4
  assigned line = elim (strip_prefix (codes "assign:") (strip is_space line)) [
    | none ↦ none
    | some ip ↦ if is_ipv4 (strip is_space ip) then some (strip is_space ip) else none
  ]

  unfoldable pub parse_pasta_guest_ip : List Text → Option Text
  unfolding assigned
  parse_pasta_guest_ip [] = none
  parse_pasta_guest_ip (line ∷ lines) =
      let later = parse_pasta_guest_ip lines in
      elim (assigned line) [ some ip ↦ some ip | none ↦ later ]

  -- `float` of a text, the sum, and a number of milliseconds times a float, in seconds
  module _ {F : Type 0} (to_float : Text → F) (plus : F → F → F) (scaled : F → ℕ → F)
      (nought default : F) where
    unfoldable pub total : F → List (Text × ℕ) → F
    total sum [] = sum
    total sum ((number, milliseconds) ∷ ts) =
        total (plus sum (scaled (to_float number) milliseconds)) ts

    -- Of a text, which a number is not.
    unfoldable pub parse_duration : Text → F
    unfolding terms total number_at strip
    parse_duration s = elim (terms 0 (strip is_space s)) [
      | t ∷ ts ↦ total nought (t ∷ ts)
      | [] ↦ elim (number_at (strip is_space s)) [
        | some (number, []) ↦ to_float number
        | _ ↦ default
      ]
    ]
