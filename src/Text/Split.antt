-- ===== src/Text/Split.antt =====
-- `s.split(sep, 1)`, `s.partition(sep)` and `s.rsplit(c, 1)`, with what finds the separator.
use mathlib.Core.Option
use agentdocker_lite.Base.{
  ℕ, ◌≡◌, refl, Bool, true, false, ◌||◌, Option, none, some, List, [], ◌∷◌, ◌++◌, ◌==◌,
  if◌then◌else◌, arith, any,
}
use agentdocker_lite.Text.Defs.{Text}

-- c in s, for a character c
unfoldable pub occurs : ℕ → Text → Bool
occurs c s = any (λ x. x == c) s

-- What follows the prefix, if `s` starts with it.
unfoldable pub strip_prefix : Text → Text → Option Text
strip_prefix [] s = some s
strip_prefix (c ∷ p) [] = none
strip_prefix (c ∷ p) (d ∷ s) = if c == d then strip_prefix p s else none

abbrev pub prepend : Text → Text × Text → Text × Text
prepend s (a, b) = (s ++ a, b)

-- The parts around the first `sep`, which is not empty; `none` if `sep` is not in `s`.
unfoldable pub split_once : Text → Text → Option (Text × Text)
unfolding strip_prefix
split_once sep [] = none
split_once sep (c ∷ s) =
    let later = Option.map (prepend (c ∷ [])) (split_once sep s) in
    elim (strip_prefix sep (c ∷ s)) [ some rest ↦ some ([], rest) | none ↦ later ]

-- The parts around the last `c`.
unfoldable pub rsplit_once : ℕ → Text → Option (Text × Text)
rsplit_once c [] = none
rsplit_once c (x ∷ s) = elim (rsplit_once c s) [
  | some (a, b) ↦ some (x ∷ a, b)
  | none ↦ if x == c then some ([], s) else none
]

-- s.split(c), for one character c
unfoldable pub split_all : ℕ → Text → List Text
split_all c [] = [] ∷ []
split_all c (x ∷ s) =
    let rest = split_all c s in
    if x == c then [] ∷ rest else elim rest [ [] ↦ (x ∷ []) ∷ [] | w ∷ ws ↦ (x ∷ w) ∷ ws ]

-- sep.join(parts)
unfoldable pub join_texts : Text → List Text → Text
join_texts sep [] = []
join_texts sep (s ∷ []) = s
join_texts sep (s ∷ (t ∷ ts)) = s ++ (sep ++ join_texts sep (t ∷ ts))

-- The longest prefix whose characters pass the test, and the rest.
unfoldable pub span : (ℕ → Bool) → Text → Text × Text
span p [] = ([], [])
span p (c ∷ s) = if p c then prepend (c ∷ []) (span p s) else ([], c ∷ s)

pub occurs-append : (c : ℕ) (s t : Text) → occurs c (s ++ t) ≡ (occurs c s || occurs c t)
unfolding occurs
occurs-append c [] t = refl
occurs-append c (x ∷ s) t = ground (arith, occurs-append c s t)

-- A separator is not found where one of its characters does not occur.
pub strip_prefix_absent :
    (c : ℕ) (sep s : Text) → occurs c sep ≡ true → occurs c s ≡ false → strip_prefix sep s ≡ none
unfolding occurs strip_prefix
strip_prefix_absent c [] s h k = cc
strip_prefix_absent c (x ∷ sep) [] h k = refl
strip_prefix_absent c (x ∷ sep) (y ∷ s) h k = ground (arith, strip_prefix_absent c sep s)

pub split_once_absent :
    (c : ℕ) (sep s : Text) → occurs c sep ≡ true → occurs c s ≡ false → split_once sep s ≡ none
unfolding split_once occurs
split_once_absent c sep [] h k = refl
split_once_absent c sep (y ∷ s) h k =
    ground (arith, strip_prefix_absent c sep (y ∷ s) h k, split_once_absent c sep s h)

-- Text that lacks the separator's first character is passed over.
pub split_once_skip :
    (c : ℕ) (sep pre s : Text)
    → occurs c pre ≡ false
    → split_once (c ∷ sep) (pre ++ s) ≡ Option.map (prepend pre) (split_once (c ∷ sep) s)
unfolding split_once occurs
split_once_skip c sep [] s h = ground arith
split_once_skip c sep (x ∷ pre) s h = ground (arith, split_once_skip c sep pre s)

pub strip_prefix-append : (p s : Text) → strip_prefix p (p ++ s) ≡ some s
unfolding strip_prefix
strip_prefix-append [] s = refl
strip_prefix-append (c ∷ p) s = ground (arith, strip_prefix-append p s)

pub split_once-append :
    (c : ℕ) (sep s : Text) → split_once (c ∷ sep) (c ∷ (sep ++ s)) ≡ some ([], s)
unfolding split_once
split_once-append c sep s = ground (arith, strip_prefix-append sep s)

pub rsplit_once_absent : (c : ℕ) (s : Text) → occurs c s ≡ false → rsplit_once c s ≡ none
unfolding rsplit_once occurs
rsplit_once_absent c [] h = refl
rsplit_once_absent c (x ∷ s) h = ground (arith, rsplit_once_absent c s)

-- Text behind the last separator belongs to the last part.
pub rsplit_once-append :
    (c : ℕ) (s t : Text)
    → occurs c t ≡ false
    → rsplit_once c (s ++ t) ≡ Option.map (λ parts. (parts.0, parts.1 ++ t)) (rsplit_once c s)
unfolding rsplit_once occurs
rsplit_once-append c [] t h = rsplit_once_absent c t h
rsplit_once-append c (x ∷ s) t h = ground (arith, rsplit_once-append c s t h)

pub rsplit_once_found :
    (c : ℕ) (s t : Text) → occurs c t ≡ false → rsplit_once c (s ++ c ∷ t) ≡ some (s, t)
unfolding rsplit_once occurs
rsplit_once_found c [] t h = ground (arith, rsplit_once_absent c t h)
rsplit_once_found c (x ∷ s) t h = ground (arith, rsplit_once_found c s t h)

pub split_once_found :
    (c : ℕ) (s t : Text) → occurs c s ≡ false → split_once (c ∷ []) (s ++ c ∷ t) ≡ some (s, t)
unfolding split_once occurs
split_once_found c [] t h = ground arith
split_once_found c (x ∷ s) t h = ground (arith, split_once_found c s t)
