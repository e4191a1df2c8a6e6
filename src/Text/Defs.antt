-- ===== src/Text/Defs.antt =====
-- Texts, their equality, and membership.
use Prim.Native.Char.{code}
use agentdocker_lite.Base.{
  ℕ, String, ◌≡◌, ◌↔◌, refl, Bool, true, false, ◌&&◌, List, [], ◌∷◌, ◌==◌, if◌then◌else◌, arith,
}

abbrev pub Text : Type 0
Text = List ℕ

-- A literal.
abbrev pub codes : String → Text
codes String.[] = []
codes (String.◌∷◌ c s) = code c ∷ codes s

-- a == b
unfoldable pub text_eq : Text → Text → Bool
text_eq [] [] = true
text_eq (a ∷ s) (b ∷ t) = a == b && text_eq s t
text_eq _ _ = false

pub text_eq_iff : (s t : Text) → (text_eq s t ≡ true) ↔ (s ≡ t)
unfolding text_eq
text_eq_iff [] [] = (λ h. refl, λ h. refl)
text_eq_iff (a ∷ s) (b ∷ t) =
    (λ h. ground (arith, text_eq_iff s t), λ h. ground (arith, text_eq_iff s t))
text_eq_iff [] (b ∷ t) = (λ h. ground arith, λ h. ground arith)
text_eq_iff (a ∷ s) [] = (λ h. ground arith, λ h. ground arith)

pub text_eq_refl : (s : Text) → text_eq s s ≡ true
text_eq_refl s = (text_eq_iff s s).1 refl

-- x in xs, for a list or a set of texts
unfoldable pub contains : List Text → Text → Bool
contains [] x = false
contains (y ∷ ys) x = if text_eq y x then true else contains ys x
