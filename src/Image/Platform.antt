-- ===== src/Image/Platform.antt =====
-- How `get_manifest` of image/registry.py resolves a manifest list to the machine's platform.
pub mod Choice
mod Tests
use agentdocker_lite.Base.{
  Bool, true, false, not, ◌&&◌, Option, none, some, List, [], ◌∷◌, if◌then◌else◌,
}
use agentdocker_lite.Text.{Text, codes, text_eq}
use agentdocker_lite.Dict.{Dict, get}

-- An entry of "manifests", with what its "platform" has.
pub record Manifest : Type 0 where
  pub os : Option Text
  pub architecture : Option Text
  pub variant : Option Text
  pub digest : Text

-- arch_map.get(arch, arch)
unfoldable pub target_arch : Text → Text
unfolding get
target_arch machine =
    elim (get machine (
      (codes "x86_64", codes "amd64")
      ∷ (codes "aarch64", codes "arm64")
      ∷ (codes "armv7l", codes "arm")
      ∷ [])) [ none ↦ machine | some arch ↦ arch ]

abbrev pub is_value : Text → Option Text → Bool
is_value s none = false
is_value s (some t) = text_eq t s

unfoldable pub has_platform : Text → Manifest → Bool
unfolding text_eq
has_platform arch m = is_value (codes "linux") m.os && is_value arch m.architecture

-- target_variant and p.get("variant", "") == target_variant
unfoldable pub has_variant : Text → Manifest → Bool
unfolding text_eq
has_variant [] m = false
has_variant (c ∷ variant) m = is_value (c ∷ variant) m.variant

-- The loop, with `best` so far.
unfoldable pub choose : Text → Text → List Manifest → Option Manifest → Option Manifest
unfolding has_platform has_variant
choose arch variant [] best = best
choose arch variant (m ∷ ms) best =
    let later = choose arch variant ms best in
    let first = choose arch variant ms (some m) in
    if not (has_platform arch m)
    then later
    else if has_variant variant m
    then some m
    else elim best [ none ↦ first | some b ↦ later ]
