-- ===== src/Image/Store/Cascade.antt =====
-- `_get_image_diff_ids` and `get_image_config` of image/store.py: the sources that are asked, one behind
-- the other, and the store in memory, which keeps what they say.
pub mod Kept
use agentdocker_lite.Base.{
  ℤ, ◌≡◌, refl, sym, ap, ap₂, ◌∙◌, ◌&&◌, arith, Bool, true, false, Option, none, some, List, [],
  ◌∷◌, ◌++◌, if◌then◌else◌, Result, ok, err, ◌>>=◌, Bool-cases, Result-cases, Option-cases, inl,
  inr,
}
use agentdocker_lite.Text.{Text, codes}
use agentdocker_lite.Dict.{Dict, get, put, get-put_here}
use agentdocker_lite.Compose.Yaml.{
  Value, null, str, list, dict, Items, nil, cons, Fields, end, field, get_field, truthy,
}
use agentdocker_lite.Config.{Failure}
use agentdocker_lite.Config.Docker.Convert.{field_names, from_list, attribute_error}
use agentdocker_lite.Image.Store.Metadata.{
  ImageConfig, Store, get_value, or_null, fields_or_empty, parse_docker_env,
  docker_inspect_to_config, fits, image_store_populate, are_ports, are_texts, are_text_fields,
  text_list, optional_texts, text_mapping, optional_text,
}
use agentdocker_lite.Image.Store.Manifests.{Manifests, read_config_from_manifest_cache}

-- The other sources: the Docker API, the registry, BuildKit's configuration blob (`none` if BuildKit has no
-- such image), and the manifests on disk, if their directory is there.
pub record Sources : Type 0 where
  pub image_inspect : Text → Result Failure Fields
  pub from_registry : Text → Result Failure ImageConfig
  pub buildkit : Text → Result Failure (Option Fields)
  pub manifests : Option Manifests

-- v or "/"
abbrev pub or_root : Value → Value
or_root v = if truthy v then v else str (codes "/")

abbrev pub dict_or_raise : Option Value → Result Failure Fields
dict_or_raise none = ok end
dict_or_raise (some (dict fs)) = ok fs
dict_or_raise (some v) = err attribute_error

-- What is made of the blob: the ports are the keys as they stand.
unfoldable pub oci_image_config : Fields → Fields → Fields → ImageConfig
unfolding get_field field_names truthy
oci_image_config oci env ports = record {
  cmd = get_value (codes "Cmd") oci;
  entrypoint = get_value (codes "Entrypoint") oci;
  env = dict env;
  working_dir = or_root (get_value (codes "WorkingDir") oci);
  exposed_ports = list (from_list (field_names ports));
  diff_ids = list nil;
}

unfoldable pub config_of : Fields → Result Failure ImageConfig
unfolding fields_or_empty parse_docker_env oci_image_config
config_of oci = parse_docker_env (get_value (codes "Env") oci) >>= λ env.
    fields_or_empty (get_value (codes "ExposedPorts") oci) >>= λ ports.
    ok (oci_image_config oci env ports)

unfoldable pub buildkit_config : Fields → Result Failure ImageConfig
unfolding config_of get_field
buildkit_config oci_cfg = dict_or_raise (get_field (codes "config") oci_cfg) >>= config_of

abbrev pub Errors : Type 0
Errors = List (Text × Failure)

-- A source gives a configuration with layers, one without, or raises.
abbrev pub with_error : Text → Result Failure ImageConfig → Errors → Errors
with_error source (ok c) errors = errors
with_error source (err e) errors = errors ++ (source, e) ∷ []

abbrev pub has_layers : Result Failure ImageConfig → Option ImageConfig
has_layers (ok c) = if truthy c.diff_ids then some c else none
has_layers (err e) = none

-- What is in the store, or else what the other sources say, which the store then keeps.
unfoldable pub settle :
    Text → Store → Option ImageConfig → Option ImageConfig → Option ImageConfig × Store
unfolding image_store_populate
settle name store (some c) asked = (some c, store)
settle name store none (some c) = (some c, image_store_populate name c store)
settle name store none none = (none, store)

module _ (to_int : Text → Option ℤ) (sources : Sources) where
  abbrev pub inspected : Text → Result Failure ImageConfig
  inspected name = sources.image_inspect name >>= docker_inspect_to_config to_int

  -- Behind the store: Docker, then the registry.
  unfoldable pub ask_for_layers : Text → Store → Result Errors Value × Store
  unfolding docker_inspect_to_config image_store_populate
  ask_for_layers name store = elim (has_layers (inspected name)) [
    | some c ↦ (ok c.diff_ids, image_store_populate name c store)
    | none ↦ elim (has_layers (sources.from_registry name)) [
      | some c ↦ (ok c.diff_ids, image_store_populate name c store)
      | none ↦ (
        err (
            with_error (codes "registry") (sources.from_registry name)
              (with_error (codes "docker") (inspected name) [])),
        store,
      )
    ]
  ]

  -- The error is the list of what each source raised.
  unfoldable pub get_image_diff_ids : Text → Store → Result Errors Value × Store
  unfolding ask_for_layers get truthy
  get_image_diff_ids name store = elim (get name store) [
    | none ↦ ask_for_layers name store
    | some c ↦ if truthy c.diff_ids then (ok c.diff_ids, store) else ask_for_layers name store
  ]

  -- BuildKit's answer, where an error is passed over.
  unfoldable pub from_buildkit : Text → Option ImageConfig
  unfolding buildkit_config
  from_buildkit name = elim (sources.buildkit name) [
    | ok (some blob) ↦ elim (buildkit_config blob) [ ok c ↦ some c | err e ↦ none ]
    | _ ↦ none
  ]

  abbrev pub if_it_answers : Result Failure ImageConfig → Option ImageConfig
  if_it_answers (ok c) = some c
  if_it_answers (err e) = none

  -- The first answer.
  abbrev pub first_of : List (Option ImageConfig) → Option ImageConfig
  first_of [] = none
  first_of (some c ∷ answers) = some c
  first_of (none ∷ answers) = first_of answers

  unfoldable pub ask_for_config : Text → Option ImageConfig
  unfolding from_buildkit docker_inspect_to_config read_config_from_manifest_cache
  ask_for_config name = first_of (
      from_buildkit name
      ∷ read_config_from_manifest_cache sources.manifests name
      ∷ if_it_answers (inspected name)
      ∷ if_it_answers (sources.from_registry name)
      ∷ [])

  unfoldable pub get_image_config : Text → Store → Option ImageConfig × Store
  unfolding ask_for_config get settle
  get_image_config name store = settle name store (get name store) (ask_for_config name)
