-- ===== src/Image/Reference.antt =====
-- `parse_image_ref` of image/registry.py.
pub mod Print
mod Tests
use agentdocker_lite.Base.{
  ℕ, Bool, true, false, not, ◌&&◌, ◌||◌, Option, none, some, [], ◌∷◌, ◌++◌, ◌==◌, if◌then◌else◌,
}
use agentdocker_lite.Text.{Text, codes, text_eq, occurs, split_once, rsplit_once}

-- (registry, repository, reference)
pub record Reference : Type 0 where
  pub registry : Text
  pub repository : Text
  pub reference : Text

abbrev pub docker_hub : Text
docker_hub = codes "registry-1.docker.io"

abbrev pub localhost : Text
localhost = codes "localhost"

-- The image with its digest taken off.
unfoldable pub take_digest : Text → Text × Option Text
take_digest image = elim (rsplit_once b'@' image) [
  | none ↦ (image, none)
  | some (name, digest) ↦ (name, some digest)
]

abbrev pub starts_with_slash : Text → Bool
starts_with_slash [] = false
starts_with_slash (c ∷ s) = c == b'/'

-- The image with its tag taken off. The code makes both tests, of which the second implies the first.
unfoldable pub take_tag : Text → Text × Text
take_tag image = elim (rsplit_once b':' image) [
  | none ↦ (image, codes "latest")
  | some (name, tag) ↦
      if not (starts_with_slash tag) && not (occurs b'/' tag)
      then (name, tag)
      else (image, codes "latest")
]

-- digest if digest else tag
abbrev pub digest_or : Option Text → Text → Text
digest_or none tag = tag
digest_or (some []) tag = tag
digest_or (some (c ∷ digest)) tag = c ∷ digest

unfoldable pub is_registry : Text → Bool
is_registry first = occurs b'.' first || (occurs b':' first || text_eq first localhost)

unfoldable pub split_registry : Text → Text → Reference
unfolding is_registry
split_registry image ref = elim (split_once (b'/' ∷ []) image) [
  | none ↦ record { registry = docker_hub; repository = codes "library/" ++ image; reference = ref }
  | some (first, rest) ↦
      if is_registry first
      then record { registry = first; repository = rest; reference = ref }
      else record { registry = docker_hub; repository = image; reference = ref }
]

unfoldable pub parse_image_ref : Text → Reference
unfolding take_digest take_tag split_registry
parse_image_ref image =
    let (name, digest) = take_digest image in
    let (path, tag) = take_tag name in split_registry path (digest_or digest tag)
