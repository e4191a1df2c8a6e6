-- ===== src/Image/Layers.antt =====
-- `iter_image_layers` and `pull_image_layers` of image/registry.py. The generator is run to its end
-- or to its error: what it has yielded, and how it ends. The download and SHA-256 are parameters; a
-- temporary file is its contents.
pub mod Verified
mod Tests
use agentdocker_lite.Base.{
  ℕ, Bool, true, false, not, Option, none, some, List, [], ◌∷◌, ◌++◌, ◌==◌, if◌then◌else◌, length,
  Result, ok, err,
}
use agentdocker_lite.Text.{Text, codes, text_eq, contains}
use agentdocker_lite.Dict.{Dict, put}
use agentdocker_lite.Image.Download.{Bytes}

pub data Trouble : Type 0 where
  count_mismatch : Trouble
  no_digest : Trouble
  download_failed : Trouble
  digest_mismatch : Text → Text → Trouble

-- A layer descriptor of the manifest: `layer_desc["digest"]`.
pub record Layer : Type 0 where
  pub digest : Option Text

-- `none` is the end of the generator without an error.
pub record Yield : Type 0 where
  pub layers : List (Text × Bytes)
  pub trouble : Option Trouble

abbrev pub stopped : Trouble → Yield
stopped t = record { layers = []; trouble = some t }

abbrev pub yielding : Text → Bytes → Yield → Yield
yielding diff_id blob rest = record rest { layers = (diff_id, blob) ∷ rest.layers }

-- "sha256:" + h.hexdigest()
abbrev pub sha256_digest : (Bytes → Text) → Bytes → Text
sha256_digest sha256 blob = codes "sha256:" ++ sha256 blob

module _ (download : Text → Result Trouble Bytes) (sha256 : Bytes → Text) (needed : List Text) where
  -- The body of the loop for a layer that is needed, and what follows.
  unfoldable pub fetch_layer : Text → Option Text → Yield → Yield
  fetch_layer diff_id none rest = stopped no_digest
  fetch_layer diff_id (some digest) rest = elim (download digest) [
    | err e ↦ stopped e
    | ok blob ↦
        if text_eq (sha256_digest sha256 blob) digest
        then yielding diff_id blob rest
        else stopped (digest_mismatch digest (sha256_digest sha256 blob))
  ]

  -- The loop over `zip(diff_ids, layers)`.
  unfoldable pub iter_layers : List Text → List Layer → Yield
  unfolding fetch_layer
  iter_layers (diff_id ∷ diff_ids) (layer ∷ layers) =
      let rest = iter_layers diff_ids layers in
      if not (contains needed diff_id) then rest else fetch_layer diff_id layer.digest rest
  iter_layers _ _ = record { layers = []; trouble = none }

  unfoldable pub iter_image_layers : List Text → List Layer → Yield
  unfolding iter_layers
  iter_image_layers diff_ids layers =
      if not (length diff_ids == length layers)
      then stopped count_mismatch
      else iter_layers diff_ids layers

  -- The dict of `pull_image_layers`, which the same error ends.
  unfoldable pub collect : List (Text × Bytes) → Dict Bytes → Dict Bytes
  collect [] result = result
  collect ((diff_id, blob) ∷ layers) result = collect layers (put diff_id blob result)

  unfoldable pub pull_image_layers : List Text → List Layer → Result Trouble (Dict Bytes)
  unfolding iter_image_layers collect
  pull_image_layers diff_ids layers =
      let yield = iter_image_layers diff_ids layers in
      elim yield.trouble [ some t ↦ err t | none ↦ ok (collect yield.layers []) ]
