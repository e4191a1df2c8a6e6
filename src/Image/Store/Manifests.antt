-- ===== src/Image/Store/Manifests.antt =====
-- `_write_manifest`, `_get_manifest_diff_ids`, `_read_config_from_manifest_cache` and `_get_image_digest`
-- of image/store.py. The directory of manifests is a mapping from the names of its files, without the
-- suffix, to their content, which is `none` where it cannot be read.
use mathlib.Core.Option
use agentdocker_lite.Base.{
  ◌≡◌, Option, none, some, List, ◌∷◌, map, take, if◌then◌else◌, Result, ok, err,
}
use agentdocker_lite.Text.{Text, codes, text_eq}
use agentdocker_lite.Dict.{Dict, get, put}
use agentdocker_lite.Compose.Yaml.{null, str, list, Fields, get_field}
use agentdocker_lite.Config.{Failure}
use agentdocker_lite.Config.Docker.Convert.{texts}
use agentdocker_lite.Image.Store.Metadata.{
  ImageConfig, Store, without_layers, underscored, safe_cache_key, image_store_populate,
}

pub record Manifest : Type 0 where
  pub image : Text
  pub diff_ids : List Text
  pub layers : List Text
  pub config : Option ImageConfig

abbrev pub Manifests : Type 0
Manifests = Dict (Option Manifest)

unfoldable pub safe_name : Text → Text
safe_name image_name = underscored b'.' (underscored b':' (underscored b'/' image_name))

-- `_get_image_digest`, from the answer of `image_inspect`
unfoldable pub image_digest : Result Failure Fields → Option Text
unfolding get_field
image_digest (err e) = none
image_digest (ok info) = elim (get_field (codes "Id") info) [
  | some (str (c ∷ s)) ↦ some (take 80 (underscored b':' (c ∷ s)))
  | _ ↦ none
]

unfoldable pub manifest_of : Text → List Text → Option ImageConfig → Manifest
unfolding safe_cache_key
manifest_of image_name diff_ids config = record {
  image = image_name;
  diff_ids = diff_ids;
  layers = map safe_cache_key diff_ids;
  config = Option.map without_layers config;
}

-- The file named by the digest is written unless it is the file that is written already.
abbrev pub write_digest : Option Text → Text → Manifest → Manifests → Manifests
write_digest none safe m files = files
write_digest (some digest) safe m files =
    if text_eq digest safe then files else put digest (some m) files

unfoldable pub write_manifest :
    Option Text → Text → List Text → Option ImageConfig → Manifests → Manifests
unfolding manifest_of safe_name text_eq put
write_manifest digest image_name diff_ids config files =
    let m = manifest_of image_name diff_ids config in
    write_digest digest (safe_name image_name) m (put (safe_name image_name) (some m) files)

-- `merged`, in the store
abbrev pub load_config : Text → Manifest → Store → Store
load_config image_name m store = elim m.config [
  | none ↦ store
  | some c ↦ image_store_populate image_name (record c { diff_ids = list (texts m.diff_ids) }) store
]

-- `_try_load`
unfoldable pub try_load : Text → Manifests → Text → Store → Option (List Text) × Store
unfolding get image_store_populate
try_load image_name files path store = elim (get path files) [
  | none ↦ (none, store)
  | some none ↦ (none, store)
  | some (some m) ↦ (some m.diff_ids, load_config image_name m store)
]

-- A result, or what comes behind it.
abbrev pub or_else :
    Option (List Text) × Store → (Store → Option (List Text) × Store) → Option (List Text) × Store
or_else (none, store) next = next store
or_else (some ids, store) next = (some ids, store)

unfoldable pub get_manifest_diff_ids :
    Option Text → Manifests → Text → Store → Option (List Text) × Store
unfolding try_load safe_name
get_manifest_diff_ids none files image_name store =
    try_load image_name files (safe_name image_name) store
get_manifest_diff_ids (some digest) files image_name store =
    or_else (try_load image_name files digest store)
      (try_load image_name files (safe_name image_name))

-- The configuration in the file of this name, if it has a working directory.
unfoldable pub read_config_from_manifest_cache : Option Manifests → Text → Option ImageConfig
unfolding get safe_name
read_config_from_manifest_cache none image_name = none
read_config_from_manifest_cache (some files) image_name = elim (get (safe_name image_name) files) [
  | some (some m) ↦ elim m.config [
    | none ↦ none
    | some c ↦ elim c.working_dir [ null ↦ none | _ ↦ some c ]
  ]
  | _ ↦ none
]

module _ (image : Text) (diff_ids : List Text) (config : Option ImageConfig) where
  abbrev written : Manifest
  written = manifest_of image diff_ids config

  -- By the name, and at the same digest.
  abbrev ReadsBack : Option Text → Option Text → Text → Manifests → Store → Type 0
  ReadsBack digest now other files store =
      get_manifest_diff_ids now (write_manifest digest image diff_ids config files) other store
      ≡ (some diff_ids, load_config other written store)
