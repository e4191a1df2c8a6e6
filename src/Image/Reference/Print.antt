-- ===== src/Image/Reference/Print.antt =====
-- References as they are written, and what the parser reads back.
use mathlib.Core.Option
use agentdocker_lite.Base.{
  ℕ, ◌≡◌, ◌≢◌, refl, true, false, none, some, [], ◌∷◌, ◌++◌, arith, ◌⊎◌, inl, inr, Option-cases,
}
use agentdocker_lite.Text.{
  Text, codes, text_eq_iff, occurs, rsplit_once, occurs-append, split_once_absent,
  rsplit_once_absent, rsplit_once-append, rsplit_once_found, split_once_found,
}
use agentdocker_lite.Image.Reference.{
  Reference, docker_hub, localhost, take_digest, take_tag, digest_or, is_registry, split_registry,
  starts_with_slash, parse_image_ref,
}

-- An official image of Docker Hub, one of an organisation, and one of another registry.
pub data Place : Type 0 where
  official : Text → Place
  hub : Text → Text → Place
  hosted : Text → Text → Place

-- What follows the name: nothing, a tag, a digest, or a tag and a digest.
pub data Version : Type 0 where
  latest : Version
  tagged : Text → Version
  digested : Text → Version
  pinned : Text → Text → Version

abbrev pub print_place : Place → Text
print_place (official name) = name
print_place (hub org name) = org ++ b'/' ∷ name
print_place (hosted host name) = host ++ b'/' ∷ name

abbrev pub print : Place → Version → Text
print p latest = print_place p
print p (tagged tag) = print_place p ++ b':' ∷ tag
print p (digested digest) = print_place p ++ b'@' ∷ digest
print p (pinned tag digest) = (print_place p ++ b':' ∷ tag) ++ b'@' ∷ digest

abbrev pub meant : Place → Text → Reference
meant (official name) ref = record {
  registry = docker_hub;
  repository = codes "library/" ++ name;
  reference = ref;
}
meant (hub org name) ref = record {
  registry = docker_hub;
  repository = org ++ b'/' ∷ name;
  reference = ref;
}
meant (hosted host name) ref = record { registry = host; repository = name; reference = ref }

abbrev pub reference_of : Version → Text
reference_of latest = codes "latest"
reference_of (tagged tag) = tag
reference_of (digested digest) = digest
reference_of (pinned tag digest) = digest

abbrev pub Lacks : ℕ → Text → Type 0
Lacks c s = occurs c s ≡ false

-- A registry is told from an organisation by a dot, a colon, or the name `localhost`.
abbrev pub IsPlace : Place → Type 0
IsPlace (official name) = Lacks b'@' name × Lacks b':' name × Lacks b'/' name
IsPlace (hub org name) =
    Lacks b'@' org
    × Lacks b'@' name
    × Lacks b':' org
    × Lacks b':' name
    × Lacks b'/' org
    × Lacks b'.' org
    × (org ≢ localhost)
IsPlace (hosted host name) =
    Lacks b'@' host
    × Lacks b'@' name
    × Lacks b':' name
    × Lacks b'/' host
    × ((occurs b'.' host ≡ true) ⊎ ((occurs b':' host ≡ true) ⊎ (host ≡ localhost)))

abbrev pub IsTag : Text → Type 0
IsTag tag = Lacks b'@' tag × Lacks b':' tag × Lacks b'/' tag

abbrev pub IsDigest : Text → Type 0
IsDigest digest = Lacks b'@' digest × (digest ≢ [])

abbrev pub IsVersion : Version → Type 0
IsVersion latest = Unit
IsVersion (tagged tag) = IsTag tag
IsVersion (digested digest) = IsDigest digest
IsVersion (pinned tag digest) = IsTag tag × IsDigest digest

split_registry_lem :
    (p : Place) (ref : Text) → IsPlace p → split_registry (print_place p) ref ≡ meant p ref
unfolding split_registry is_registry
split_registry_lem (official name) ref (_, _, h) =
    ground (arith, split_once_absent b'/' (b'/' ∷ []) name (unfold occurs in refl) h)
split_registry_lem (hub org name) ref h =
    ground (arith, split_once_found b'/' org name h.4, text_eq_iff org localhost)
split_registry_lem (hosted host name) ref h =
    ground (arith, split_once_found b'/' host name h.3, text_eq_iff host localhost)

no_at : (p : Place) → IsPlace p → occurs b'@' (print_place p) ≡ false
no_at (official name) h = h.0
no_at (hub org name) h = rw occurs-append (unfold occurs in ground arith)
no_at (hosted host name) h = rw occurs-append (unfold occurs in ground arith)

take_tag_tagged : (name tag : Text) → IsTag tag → take_tag (name ++ b':' ∷ tag) ≡ (name, tag)
unfolding take_tag
take_tag_tagged name tag h =
    ground (arith, rsplit_once_found b':' name tag h.1, no_slash_first tag h.2)
  where
    no_slash_first : (t : Text) → Lacks b'/' t → starts_with_slash t ≡ false
    no_slash_first [] k = refl
    no_slash_first (c ∷ t) k = unfold occurs in ground arith

-- A colon of the registry is no tag's: a slash stands behind it.
take_tag_slashed :
    (a name : Text)
    → Lacks b':' name
    → take_tag (a ++ b'/' ∷ name) ≡ (a ++ b'/' ∷ name, codes "latest")
unfolding take_tag
take_tag_slashed a name h = elim (Option-cases (rsplit_once b':' a)) [
  | inl absent ↦ ground (arith, moved, absent)
  | inr ((before, behind), found) ↦ ground (arith, moved, found, slash behind)
]
  where
    moved :
        rsplit_once b':' (a ++ b'/' ∷ name)
        ≡ Option.map (λ parts. (parts.0, parts.1 ++ b'/' ∷ name)) (rsplit_once b':' a)
    moved = rsplit_once-append b':' a (b'/' ∷ name) (unfold occurs in ground arith)

    slash : (behind : Text) → occurs b'/' (behind ++ b'/' ∷ name) ≡ true
    slash behind = rw occurs-append (unfold occurs in ground arith)

take_tag_untagged :
    (p : Place) → IsPlace p → take_tag (print_place p) ≡ (print_place p, codes "latest")
take_tag_untagged (official name) h =
    unfold take_tag in ground (arith, rsplit_once_absent b':' name h.1)
take_tag_untagged (hub org name) h = take_tag_slashed org name h.3
take_tag_untagged (hosted host name) h = take_tag_slashed host name h.2

take_digest_absent : (s : Text) → Lacks b'@' s → take_digest s ≡ (s, none)
unfolding take_digest
take_digest_absent s h = ground (arith, rsplit_once_absent b'@' s h)

take_digest_found :
    (s digest : Text) → IsDigest digest → take_digest (s ++ b'@' ∷ digest) ≡ (s, some digest)
unfolding take_digest
take_digest_found s digest h = ground (arith, rsplit_once_found b'@' s digest h.0)

digest_or_lem : (digest tag : Text) → IsDigest digest → digest_or (some digest) tag ≡ digest
digest_or_lem [] tag h = absurd (h.1 refl)
digest_or_lem (c ∷ digest) tag h = refl

no_at_tagged :
    (p : Place) (tag : Text) → IsPlace p → IsTag tag → Lacks b'@' (print_place p ++ b':' ∷ tag)
no_at_tagged p tag h k =
    ground (arith, occurs-append b'@' (print_place p) (b':' ∷ tag), no_at p h, tag_no_at)
  where
    tag_no_at : occurs b'@' (b':' ∷ tag) ≡ false
    tag_no_at = unfold occurs in ground arith

-- A reference that is written in the usual way is read back: an official image of Docker Hub gets
-- the prefix `library/`, a name with an organisation stays on Docker Hub, and a first part with a dot
-- or a colon, or `localhost`, is the registry. The digest wins over the tag, and `latest` stands for
-- a missing version.
pub parse_image_ref-print :
    (p : Place) (v : Version)
    → IsPlace p
    → IsVersion v
    → parse_image_ref (print p v) ≡ meant p (reference_of v)
unfolding parse_image_ref
parse_image_ref-print p latest h k =
    rw (take_digest_absent (print_place p) (no_at p h), take_tag_untagged p h)
      (split_registry_lem p (codes "latest") h)
parse_image_ref-print p (tagged tag) h k =
    rw
      (
        take_digest_absent (print_place p ++ b':' ∷ tag) (no_at_tagged p tag h k),
        take_tag_tagged (print_place p) tag k,
      )
      (split_registry_lem p tag h)
parse_image_ref-print p (digested digest) h k =
    rw
      (
        take_digest_found (print_place p) digest k,
        take_tag_untagged p h,
        digest_or_lem digest (codes "latest") k,
      )
      (split_registry_lem p digest h)
parse_image_ref-print p (pinned tag digest) h k =
    rw
      (
        take_digest_found (print_place p ++ b':' ∷ tag) digest k.1,
        take_tag_tagged (print_place p) tag k.0,
        digest_or_lem digest tag k.1,
      )
      (split_registry_lem p digest h)
