-- ===== src/Image/Platform/Tests.antt =====
-- A list with two variants of one architecture.
use agentdocker_lite.Base.{◌≡◌, refl, none, some, List, [], ◌∷◌}
use agentdocker_lite.Text.{Text, codes, text_eq}
use agentdocker_lite.Image.Platform.{Manifest, choose}

abbrev arm : Text → Manifest
arm variant = record {
  os = some (codes "linux");
  architecture = some (codes "arm");
  variant = some variant;
  digest = variant;
}

abbrev both : List Manifest
both = arm (codes "v6") ∷ arm (codes "v7") ∷ []

exact : choose (codes "arm") (codes "v7") both none ≡ some (arm (codes "v7"))
unfolding choose text_eq
exact = refl
