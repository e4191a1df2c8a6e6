-- ===== src/Text/Strip.antt =====
-- `s.strip()` over a class of white space, and the last character of a text.
use agentdocker_lite.Base.{
  ℕ, ◌≡◌, refl, Bool, false, Option, none, some, [], ◌∷◌, ◌++◌, if◌then◌else◌, arith,
}
use agentdocker_lite.Text.Defs.{Text}

-- The text without its last character, and that character.
unfoldable pub split_last : Text → Option (Text × ℕ)
split_last [] = none
split_last (c ∷ s) = elim (split_last s) [
  | none ↦ some ([], c)
  | some (front, last) ↦ some (c ∷ front, last)
]

pub split_last-append : (s : Text) (c : ℕ) → split_last (s ++ c ∷ []) ≡ some (s, c)
unfolding split_last
split_last-append [] c = refl
split_last-append (d ∷ s) c = ground (arith, split_last-append s c)

module _ (is_space : ℕ → Bool) where
  unfoldable pub lstrip : Text → Text
  lstrip [] = []
  lstrip (c ∷ s) = let rest = lstrip s in if is_space c then rest else c ∷ s

  unfoldable pub rstrip : Text → Text
  rstrip [] = []
  rstrip (c ∷ s) = elim (rstrip s) [ [] ↦ if is_space c then [] else c ∷ [] | d ∷ t ↦ c ∷ (d ∷ t) ]

  -- s.strip()
  unfoldable pub strip : Text → Text
  unfolding lstrip rstrip
  strip s = rstrip (lstrip s)

  rstrip-append : (s : Text) (c : ℕ) → is_space c ≡ false → rstrip (s ++ c ∷ []) ≡ s ++ c ∷ []
  unfolding rstrip
  rstrip-append [] c h = ground arith
  rstrip-append (d ∷ []) c h = ground arith
  rstrip-append (d ∷ (e ∷ s)) c h = rw (rstrip-append (e ∷ s) c h) refl

  -- Text that starts and ends with no white space.
  pub strip_solid :
      (c : ℕ) (s : Text) (d : ℕ)
      → is_space c ≡ false
      → is_space d ≡ false
      → strip (c ∷ (s ++ d ∷ [])) ≡ c ∷ (s ++ d ∷ [])
  unfolding strip lstrip
  strip_solid c s d h k = rw h (rstrip-append (c ∷ s) d k)
