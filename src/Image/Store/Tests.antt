-- ===== src/Image/Store/Tests.antt =====
-- An image that the registry has, a manifest that is written and read, and BuildKit's ports.
use agentdocker_lite.Base.{◌≡◌, refl, pos, none, some, List, [], ◌∷◌, ok, err}
use agentdocker_lite.Text.{Text, codes}
use agentdocker_lite.Compose.Yaml.{null, int, str, list, dict, nil, cons, Fields, end, field}
use agentdocker_lite.Config.{Failure}
use agentdocker_lite.Config.Sample.{sample_python}
use agentdocker_lite.Image.Store.Metadata.{ImageConfig, docker_inspect_to_config, safe_cache_key}
use agentdocker_lite.Image.Store.Cascade.{
  Sources, get_image_config, get_image_diff_ids, oci_image_config,
}
use agentdocker_lite.Image.Store.Cascade.Kept.{get_image_config-settles, get_image_config_not_kept}

abbrev info : Fields
info = field (codes "Id") (str (codes "sha256:77")) (
    field (codes "Config")
      (dict (
        field (codes "Env") (list (cons (str (codes "A=1=2")) nil)) (
          field (codes "ExposedPorts")
            (dict (field (codes "80/tcp") null (field (codes "x/tcp") null end))) end)))
      (field (codes "RootFS")
        (dict (field (codes "Layers") (list (cons (str (codes "sha256:aa")) nil)) end)) end))

abbrev image : ImageConfig
image = record {
  cmd = null;
  entrypoint = null;
  env = dict (field (codes "A") (str (codes "1=2")) end);
  working_dir = null;
  exposed_ports = list (cons (int (pos 80)) nil);
  diff_ids = list (cons (str (codes "sha256:aa")) nil);
}

docker_inspect_to_config-info : docker_inspect_to_config sample_python.to_int info ≡ ok image
unfolding docker_inspect_to_config agentdocker_lite.Config.Docker.Convert.from_list
docker_inspect_to_config-info = refl

safe_cache_key-sha : safe_cache_key (codes "sha256:aa") ≡ codes "aa"
unfolding safe_cache_key agentdocker_lite.Text.split_once
safe_cache_key-sha = refl

abbrev nothing : Sources
nothing = record {
  image_inspect = λ name. err (codes "no docker");
  from_registry = λ name. err (codes "no such image");
  buildkit = λ name. err (codes "no buildkit");
  manifests = none;
}

abbrev docker : Sources
docker = record nothing { image_inspect = λ name. ok info }

get_image_diff_ids-nothing : get_image_diff_ids sample_python.to_int nothing (codes "a") [] ≡ (
  err ((codes "docker", codes "no docker") ∷ ((codes "registry", codes "no such image") ∷ [])),
  [],
)
unfolding get_image_diff_ids
get_image_diff_ids-nothing = refl

get_image_config-settles_example :
    get_image_config sample_python.to_int nothing
      (codes "a")
      (get_image_config sample_python.to_int docker (codes "a") []).1
    ≡ (some image, (get_image_config sample_python.to_int docker (codes "a") []).1)
unfolding get_image_config agentdocker_lite.Config.Docker.Convert.from_list
get_image_config-settles_example =
    get_image_config-settles sample_python.to_int docker nothing (codes "a") image [] refl refl

abbrev oci : Fields
oci = field (codes "ExposedPorts") (dict (field (codes "80/tcp") null end)) end

abbrev blob : Fields
blob = field (codes "config") (dict oci) end

abbrev buildkit : Sources
buildkit = record nothing { buildkit = λ name. ok (some blob) }

get_image_config_not_kept_example :
    get_image_config sample_python.to_int buildkit (codes "a") []
    ≡ (some (oci_image_config oci end (field (codes "80/tcp") null end)), [])
unfolding get_image_config
get_image_config_not_kept_example =
    get_image_config_not_kept sample_python.to_int buildkit (codes "a") (codes "80/tcp") blob oci
      end end null [] refl refl refl refl refl

-- Two images whose names become one file's name.
abbrev layers : List Text
layers = codes "sha256:aa" ∷ []
