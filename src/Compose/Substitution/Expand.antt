-- ===== src/Compose/Substitution/Expand.antt =====
-- What `${NAME}` and its six operator forms stand for, against the table in the docstring of
-- `_substitute`.
use agentdocker_lite.Base.{
  ℕ, ◌≡◌, refl, true, false, Option, none, some, [], ◌∷◌, ◌++◌, ◌==◌, arith, Result, ok, err,
  append-nil, inl, inr, Bool-cases, Option-cases,
}
use agentdocker_lite.Text.{
  Text, occurs, split_once, occurs-append, split_once_absent, split_once_skip, split_once-append,
}
use agentdocker_lite.Dict.{Dict, get}
use agentdocker_lite.Compose.Substitution.{
  Missing, expand, get_or, default_if_blank, colon_minus, minus, colon_plus, plus, colon_question,
  question,
}

pub data Operator : Type 0 where
  default_blank default_unset alternative_full alternative_set required_full required_set : Operator

abbrev pub symbol : Operator → Text
symbol default_blank = colon_minus
symbol default_unset = minus
symbol alternative_full = colon_plus
symbol alternative_set = plus
symbol required_full = colon_question
symbol required_set = question

-- The docstring's table: the value of the form with this operator, the variable `var` being `val` in
-- the environment, and `arg` the text behind the operator.
abbrev pub meaning : Operator → Text → Option Text → Text → Result Missing Text
meaning default_blank var none arg = ok arg
meaning default_blank var (some []) arg = ok arg
meaning default_blank var (some (c ∷ v)) arg = ok (c ∷ v)
meaning default_unset var none arg = ok arg
meaning default_unset var (some v) arg = ok v
meaning alternative_full var none arg = ok []
meaning alternative_full var (some []) arg = ok []
meaning alternative_full var (some (c ∷ v)) arg = ok arg
meaning alternative_set var none arg = ok []
meaning alternative_set var (some v) arg = ok arg
meaning required_full var none arg = err (record { variable = var; message = arg })
meaning required_full var (some []) arg = err (record { variable = var; message = arg })
meaning required_full var (some (c ∷ v)) arg = ok (c ∷ v)
meaning required_set var none arg = err (record { variable = var; message = arg })
meaning required_set var (some v) arg = ok v

-- No character of an operator stands in the name.
pub record IsPlain (var : Text) : Type 0 where
  pub no_colon : occurs b':' var ≡ false
  pub no_minus : occurs b'-' var ≡ false
  pub no_plus : occurs b'+' var ≡ false
  pub no_question : occurs b'?' var ≡ false

-- The text behind an operator holds no operator that is looked for before.
abbrev pub IsClear : Operator → Text → Type 0
IsClear default_blank arg = Unit
IsClear default_unset arg = split_once colon_minus arg ≡ none
IsClear alternative_full arg = occurs b'-' arg ≡ false
IsClear alternative_set arg = (occurs b'-' arg ≡ false) × (split_once colon_plus arg ≡ none)
IsClear required_full arg = (occurs b'-' arg ≡ false) × (occurs b'+' arg ≡ false)
IsClear required_set arg =
    (occurs b'-' arg ≡ false) × (occurs b'+' arg ≡ false) × (split_once colon_question arg ≡ none)

module _ (var : Text) (plain : IsPlain var) where
  absent :
      (c : ℕ) (sep op arg : Text)
      → occurs c sep ≡ true
      → occurs c var ≡ false
      → occurs c op ≡ false
      → occurs c arg ≡ false
      → split_once sep (var ++ (op ++ arg)) ≡ none
  absent c sep op arg h hv ho ha =
      split_once_absent c sep (var ++ (op ++ arg)) h
        (ground (arith, occurs-append c var (op ++ arg), occurs-append c op arg))

  found :
      (c : ℕ) (sep arg : Text)
      → occurs c var ≡ false
      → split_once (c ∷ sep) (var ++ (c ∷ (sep ++ arg))) ≡ some (var, arg)
  found c sep arg h = ground (
    arith,
    split_once_skip c sep var (c ∷ (sep ++ arg)) h,
    split_once-append c sep arg,
    append-nil var,
  )

  -- A two-character operator that shares the first character only, or whose first character opens
  -- the text, is passed over.
  passed :
      (c : ℕ) (sep rest : Text)
      → occurs c var ≡ false
      → split_once (c ∷ sep) rest ≡ none
      → split_once (c ∷ sep) (var ++ rest) ≡ none
  passed c sep rest h k = ground (arith, split_once_skip c sep var rest h)

  no_minus_operator :
      (op arg : Text)
      → occurs b'-' op ≡ false
      → occurs b'-' arg ≡ false
      → (split_once colon_minus (var ++ (op ++ arg)) ≡ none)
        × (split_once minus (var ++ (op ++ arg)) ≡ none)
  no_minus_operator op arg ho ha = (
    absent b'-' colon_minus op arg (unfold occurs in refl) plain.no_minus ho ha,
    absent b'-' minus op arg (unfold occurs in refl) plain.no_minus ho ha,
  )

  no_plus_operator :
      (op arg : Text)
      → occurs b'+' op ≡ false
      → occurs b'+' arg ≡ false
      → (split_once colon_plus (var ++ (op ++ arg)) ≡ none)
        × (split_once plus (var ++ (op ++ arg)) ≡ none)
  no_plus_operator op arg ho ha = (
    absent b'+' colon_plus op arg (unfold occurs in refl) plain.no_plus ho ha,
    absent b'+' plus op arg (unfold occurs in refl) plain.no_plus ho ha,
  )

  expand_by_meaning :
      (env : Dict Text) (op : Operator) (arg : Text)
      → IsClear op arg
      → expand env (var ++ (symbol op ++ arg)) ≡ meaning op var (get var env) arg
  unfolding expand
  expand_by_meaning env default_blank arg h =
      ground (arith, found b':' (b'-' ∷ []) arg plain.no_colon)
  expand_by_meaning env default_unset arg h = ground (
    arith,
    passed b':' (b'-' ∷ []) (b'-' ∷ arg) plain.no_colon (unfold split_once in ground arith),
    found b'-' [] arg plain.no_minus,
  )
  expand_by_meaning env alternative_full arg h = ground (
    arith,
    no_minus_operator colon_plus arg (unfold occurs in refl) h,
    found b':' (b'+' ∷ []) arg plain.no_colon,
  )
  expand_by_meaning env alternative_set arg h = ground (
    arith,
    no_minus_operator plus arg (unfold occurs in refl) h.0,
    passed b':' (b'+' ∷ []) (b'+' ∷ arg) plain.no_colon (unfold split_once in ground arith),
    found b'+' [] arg plain.no_plus,
  )
  expand_by_meaning env required_full arg h = ground (
    arith,
    no_minus_operator colon_question arg (unfold occurs in refl) h.0,
    no_plus_operator colon_question arg (unfold occurs in refl) h.1,
    found b':' (b'?' ∷ []) arg plain.no_colon,
  )
  expand_by_meaning env required_set arg h = ground (
    arith,
    no_minus_operator question arg (unfold occurs in refl) h.0,
    no_plus_operator question arg (unfold occurs in refl) h.1,
    passed b':' (b'?' ∷ []) (b'?' ∷ arg) plain.no_colon (unfold split_once in ground arith),
    found b'?' [] arg plain.no_question,
  )

-- With a plain variable name, and a text behind the operator that holds no operator looked for
-- before, each of the six forms has the value, or raises the error, that the docstring states.
pub expand-meaning :
    (env : Dict Text) (op : Operator) (var arg : Text)
    → IsPlain var
    → IsClear op arg
    → expand env (var ++ (symbol op ++ arg)) ≡ meaning op var (get var env) arg
expand-meaning env op var arg plain clear = expand_by_meaning var plain env op arg clear

split_once_present :
    (c : ℕ) (s : Text)
    → occurs c s ≡ true
    → (parts : Text × Text) × (split_once (c ∷ []) s ≡ some parts)
unfolding split_once occurs
split_once_present c [] h = cc
split_once_present c (x ∷ s) h = elim (Bool-cases (x == c)) [
  | inl here ↦ (([], s), ground arith)
  | inr other ↦
      let ((a, b), e) = split_once_present c s (ground arith) in ((x ∷ a, b), ground (arith, e))
]

-- An expression with a hyphen anywhere behind its operator never raises: `${VAR:?must-be-set}` and
-- `${VAR?must-be-set}` have a value whatever the environment is, also where `VAR` is not set.
pub expand-hyphen_never_raises :
    (env : Dict Text) (op : Operator) (var arg : Text)
    → occurs b'-' arg ≡ true
    → (value : Text) × (expand env (var ++ (symbol op ++ arg)) ≡ ok value)
unfolding expand
expand-hyphen_never_raises env op var arg h =
    elim (Option-cases (split_once colon_minus (var ++ (symbol op ++ arg)))) [
      | inr (parts, e) ↦ (default_if_blank (get parts.0 env) parts.1, ground (arith, e))
      | inl none_found ↦
          let (parts, e) = split_once_present b'-' (var ++ (symbol op ++ arg)) (
            ground (
              arith,
              occurs-append b'-' var (symbol op ++ arg),
              occurs-append b'-' (symbol op) arg,
            )) in
          (get_or (get parts.0 env) parts.1, ground (arith, e, none_found))
    ]
