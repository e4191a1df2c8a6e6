-- ===== src/Compose/Substitution.antt =====
-- `_substitute` of compose/_parse.py. `re.sub` goes over the text from the left: where the pattern
-- `\$\$|\$\{([^}]+)\}|\$([A-Za-z_]\w*)` matches, the replacement stands for the match, and the scan
-- goes on behind it. What `\w` stands for beyond ASCII is the parameter `is_word`.
pub mod Expand
pub mod Scan
pub mod Values
mod Tests
use agentdocker_lite.Base.{
  ℕ, zero, suc, ◌-◌, Bool, true, false, not, ◌&&◌, ◌||◌, Option, none, some, List, [], ◌∷◌, ◌++◌,
  leb, ◌==◌, if◌then◌else◌, length, Result, ok, err, ◌>>=◌,
}
use agentdocker_lite.Text.{Text, text_eq, split_once, span}
use agentdocker_lite.Dict.{Dict, get}

-- The `ValueError`: the variable and the message.
pub record Missing : Type 0 where
  pub variable : Text
  pub message : Text

-- val is None or val == ""
abbrev pub is_blank : Option Text → Bool
is_blank none = true
is_blank (some []) = true
is_blank (some (_ ∷ _)) = false

abbrev pub get_or : Option Text → Text → Text
get_or none default = default
get_or (some val) default = val

abbrev pub is_set : Option Text → Bool
is_set none = false
is_set (some _) = true

-- What each operator makes of the variable's value and the text behind the operator.
abbrev pub default_if_blank : Option Text → Text → Text
default_if_blank val default = if is_blank val then default else get_or val []

abbrev pub require_set : Text → Option Text → Text → Result Missing Text
require_set var none message = err (record { variable = var; message = message })
require_set var (some val) message = ok val

abbrev pub require_full : Text → Option Text → Text → Result Missing Text
require_full var val message =
    if is_blank val then err (record { variable = var; message = message }) else ok (get_or val [])

abbrev pub colon_minus : Text
colon_minus = b':' ∷ b'-' ∷ []

abbrev pub minus : Text
minus = b'-' ∷ []

abbrev pub colon_plus : Text
colon_plus = b':' ∷ b'+' ∷ []

abbrev pub plus : Text
plus = b'+' ∷ []

abbrev pub colon_question : Text
colon_question = b':' ∷ b'?' ∷ []

abbrev pub question : Text
question = b'?' ∷ []

-- The body of `_repl` behind its first test: the operators are looked for anywhere in the name, in
-- this order.
unfoldable pub expand : Dict Text → Text → Result Missing Text
expand env name = elim (split_once colon_minus name) [
  | some (var, default) ↦ ok (default_if_blank (get var env) default)
  | none ↦ elim (split_once minus name) [
    | some (var, default) ↦ ok (get_or (get var env) default)
    | none ↦ elim (split_once colon_plus name) [
      | some (var, repl) ↦ ok (if is_blank (get var env) then [] else repl)
      | none ↦ elim (split_once plus name) [
        | some (var, repl) ↦ ok (if is_set (get var env) then repl else [])
        | none ↦ elim (split_once colon_question name) [
          | some (var, message) ↦ require_full var (get var env) message
          | none ↦ elim (split_once question name) [
            | some (var, message) ↦ require_set var (get var env) message
            | none ↦ ok (get_or (get name env) [])
          ]
        ]
      ]
    ]
  ]
]

-- A match of the pattern: `m.group(0)`, and `m.group(1) or m.group(2) or ""`.
pub record Match : Type 0 where
  pub whole : Text
  pub name : Text

-- _repl
unfoldable pub replacement : Dict Text → Match → Result Missing Text
unfolding text_eq expand
replacement env m = if text_eq m.whole (b'$' ∷ b'$' ∷ []) then ok (b'$' ∷ []) else expand env m.name

-- [A-Za-z_]
unfoldable pub is_start : ℕ → Bool
is_start c = (leb b'A' c && leb c b'Z') || (leb b'a' c && leb c b'z') || c == b'_'

unfoldable pub not_close : ℕ → Bool
not_close c = not (c == b'}')

-- \{([^}]+)\} behind the dollar; the span stops at the first brace or at the end.
unfoldable pub match_braced : Text × Text → Option Match
match_braced ([], rest) = none
match_braced (c ∷ name, []) = none
match_braced (c ∷ name, b ∷ rest) =
    some (record { whole = b'$' ∷ b'{' ∷ ((c ∷ name) ++ b'}' ∷ []); name = c ∷ name })

module _ (is_word : ℕ → Bool) where
  -- The pattern behind a dollar.
  unfoldable pub match_dollar : Text → Option Match
  unfolding span is_start not_close match_braced
  match_dollar [] = none
  match_dollar (c ∷ s) =
      if c == b'$'
      then some (record { whole = b'$' ∷ b'$' ∷ []; name = [] })
      else if c == b'{'
      then match_braced (span not_close s)
      else if is_start c
      then some (record { whole = b'$' ∷ c ∷ (span is_word s).0; name = c ∷ (span is_word s).0 })
      else none

  -- The match at the head of the text.
  unfoldable pub match_at : Text → Option Match
  unfolding match_dollar
  match_at [] = none
  match_at (c ∷ s) = if c == b'$' then match_dollar s else none

  module _ (env : Dict Text) where
    -- The scan; the first `skip` characters belong to a match already replaced.
    unfoldable pub scan : ℕ → Text → Result Missing Text
    unfolding match_at
    scan skip [] = ok []
    scan (suc skip) (c ∷ s) = scan skip s
    scan zero (c ∷ s) = elim (match_at (c ∷ s)) [
      | none ↦ (scan zero s >>= λ rest. ok (c ∷ rest))
      | some m ↦
          (replacement env m >>= λ value.
          scan (length m.whole - 1) s >>= λ rest. ok (value ++ rest))
    ]

    unfoldable pub substitute : Text → Result Missing Text
    unfolding scan replacement
    substitute text = scan zero text
