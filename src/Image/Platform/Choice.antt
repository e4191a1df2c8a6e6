-- ===== src/Image/Platform/Choice.antt =====
-- Which manifest is chosen.
use agentdocker_lite.Base.{
  ◌≡◌, refl, Bool, ◌&&◌, Option, none, some, List, [], ◌∷◌, if◌then◌else◌, arith,
}
use agentdocker_lite.Text.{Text}
use agentdocker_lite.Image.Platform.{Manifest, has_platform, has_variant, choose}

-- The first element that passes the test.
abbrev pub first_with : (Manifest → Bool) → List Manifest → Option Manifest
first_with p [] = none
first_with p (m ∷ ms) = let rest = first_with p ms in if p m then some m else rest

abbrev pub or_else : Option Manifest → Option Manifest → Option Manifest
or_else none other = other
or_else (some m) other = some m

abbrev pub is_exact : Text → Text → Manifest → Bool
is_exact arch variant m = has_platform arch m && has_variant variant m

choose_lem :
    (arch variant : Text) (ms : List Manifest) (best : Option Manifest)
    → choose arch variant ms best
      ≡ or_else
          (first_with (is_exact arch variant) ms)
          (or_else best (first_with (has_platform arch) ms))
unfolding choose
choose_lem arch variant [] none = refl
choose_lem arch variant [] (some b) = refl
choose_lem arch variant (m ∷ ms) none =
    ground (arith, choose_lem arch variant ms none, choose_lem arch variant ms (some m))
choose_lem arch variant (m ∷ ms) (some b) = ground (arith, choose_lem arch variant ms (some b))

-- The loop chooses the first manifest of the platform whose variant is the machine's, where there is
-- one, and otherwise the first manifest of the platform; it chooses none if there is none.
pub choose-or_else :
    (arch variant : Text) (ms : List Manifest)
    → choose arch variant ms none
      ≡ or_else (first_with (is_exact arch variant) ms) (first_with (has_platform arch) ms)
choose-or_else arch variant ms = choose_lem arch variant ms none
