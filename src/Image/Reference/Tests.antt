-- ===== src/Image/Reference/Tests.antt =====
-- The references of the docstring of `parse_image_ref`.
use agentdocker_lite.Base.{◌≡◌, refl, inl, arith}
use agentdocker_lite.Text.{codes, text_eq, occurs, split_once, rsplit_once}
use agentdocker_lite.Image.Reference.{docker_hub, parse_image_ref}
use agentdocker_lite.Image.Reference.Print.{hosted, pinned, meant, parse_image_ref-print}

ubuntu : parse_image_ref (codes "ubuntu:22.04") ≡ record {
  registry = docker_hub;
  repository = codes "library/ubuntu";
  reference = codes "22.04";
}
unfolding parse_image_ref text_eq occurs split_once rsplit_once
ubuntu = refl

with_port : parse_image_ref (codes "myregistry:5000/img") ≡ record {
  registry = codes "myregistry:5000";
  repository = codes "img";
  reference = codes "latest";
}
unfolding parse_image_ref text_eq occurs split_once rsplit_once
with_port = refl

parse_image_ref-print_example :
    parse_image_ref (codes "ghcr.io/org/repo:v1@sha256:abc")
    ≡ meant (hosted (codes "ghcr.io") (codes "org/repo")) (codes "sha256:abc")
unfolding occurs
parse_image_ref-print_example =
    parse_image_ref-print (hosted (codes "ghcr.io") (codes "org/repo"))
      (pinned (codes "v1") (codes "sha256:abc")) (refl, refl, refl, refl, inl refl)
      ((refl, refl, refl), (refl, λ e. ground arith))
