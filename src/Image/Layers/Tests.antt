-- ===== src/Image/Layers/Tests.antt =====
-- Two layers, of which the second is asked for. The digest of a blob is its bytes.
use agentdocker_lite.Base.{◌≡◌, refl, none, some, List, [], ◌∷◌, All, length, map, Result, ok, ◌&&◌}
use agentdocker_lite.Text.{Text, codes, contains, text_eq}
use agentdocker_lite.Dict.{put}
use agentdocker_lite.Image.Download.{Bytes}
use agentdocker_lite.Image.Layers.{Trouble, Layer, iter_image_layers, pull_image_layers}
use agentdocker_lite.Image.Layers.Verified.{
  IsVerified, selected, first, iter_image_layers-Verifies, iter_image_layers_finished,
}

abbrev identity : Bytes → Text
identity blob = blob

-- The registry returns the digest's characters behind "sha256:".
abbrev download : Text → Result Trouble Bytes
download (s ∷ h ∷ a ∷ n1 ∷ n2 ∷ n3 ∷ colon ∷ blob) = ok blob
download _ = ok []

abbrev diff_ids : List Text
diff_ids = codes "one" ∷ codes "two" ∷ []

abbrev layers : List Layer
layers =
    record { digest = some (codes "sha256:aa") } ∷ record { digest = some (codes "sha256:bb") } ∷ []

abbrev needed : List Text
needed = codes "two" ∷ []

pulled :
    pull_image_layers download identity needed diff_ids layers ≡ ok ((codes "two", codes "bb") ∷ [])
unfolding pull_image_layers contains text_eq put
pulled = refl

finished : (iter_image_layers download identity needed diff_ids layers).trouble ≡ none
unfolding iter_image_layers contains text_eq
finished = refl

iter_image_layers-Verifies_example :
    All
      (IsVerified download identity needed diff_ids layers)
      (iter_image_layers download identity needed diff_ids layers).layers
iter_image_layers-Verifies_example =
    iter_image_layers-Verifies download identity needed diff_ids layers

iter_image_layers_finished_example :
    (length diff_ids ≡ length layers)
    × (map first (iter_image_layers download identity needed diff_ids layers).layers
        ≡ selected needed diff_ids)
    × (contains
          (map first (iter_image_layers download identity needed diff_ids layers).layers)
          (codes "three")
        ≡ (contains needed (codes "three") && contains diff_ids (codes "three")))
iter_image_layers_finished_example =
    iter_image_layers_finished download identity needed diff_ids layers (codes "three") finished
