-- ===== src/Image/Store/Metadata.antt =====
-- `ImageConfig`, `_parse_docker_env`, `_parse_docker_ports`, `_docker_inspect_to_config` and
-- `_safe_cache_key` of image/store.py, and the store in memory, which image_store.rs keeps.
use agentdocker_lite.Base.{
  ℕ, ℤ, pos, Bool, true, false, ◌&&◌, Option, none, some, List, [], ◌∷◌, ◌==◌, leb, map,
  if◌then◌else◌, Result, ok, err, ◌>>=◌,
}
use agentdocker_lite.Text.{Text, codes}
use agentdocker_lite.Dict.{Dict, put}
use agentdocker_lite.Compose.Yaml.{
  Value, null, int, str, list, dict, Items, nil, cons, Fields, end, field, get_field, truthy,
}
use agentdocker_lite.Config.{Failure}
use agentdocker_lite.Config.Docker.Convert.{
  parts, iterated, put_entries, from_list, attribute_error,
}

pub record ImageConfig : Type 0 where
  pub cmd : Value
  pub entrypoint : Value
  pub env : Value
  pub working_dir : Value
  pub exposed_ports : Value
  pub diff_ids : Value

-- The dictionary without the key `diff_ids`, which reads as no layers.
abbrev pub without_layers : ImageConfig → ImageConfig
without_layers c = record c { diff_ids = list nil }

abbrev pub or_null : Option Value → Value
or_null none = null
or_null (some v) = v

-- d.get(k)
abbrev pub get_value : Text → Fields → Value
get_value k fs = or_null (get_field k fs)

-- v or {}, of which fields are read
unfoldable pub fields_or_empty : Value → Result Failure Fields
unfolding truthy
fields_or_empty (dict fs) = ok fs
fields_or_empty v = if truthy v then err attribute_error else ok end

unfoldable pub parse_docker_env : Value → Result Failure Fields
unfolding put_entries iterated truthy
parse_docker_env env_list =
    if truthy env_list then (iterated env_list >>= λ entries. put_entries entries end) else ok end

module _ (to_int : Text → Option ℤ) where
  -- The ports of the entries that have one.
  unfoldable pub ports_of : List Value → Result Failure (List Value)
  ports_of [] = ok []
  ports_of (str port_proto ∷ entries) =
      (ports_of entries >>= λ ports. elim (to_int (parts (codes "/") port_proto).0) [
        | none ↦ ok ports
        | some port ↦ ok (int port ∷ ports)
      ])
  ports_of (v ∷ entries) = err attribute_error

  unfoldable pub parse_docker_ports : Value → Result Failure (List Value)
  unfolding ports_of iterated truthy
  parse_docker_ports exposed = if truthy exposed then (iterated exposed >>= ports_of) else ok []

  abbrev pub truthy_or_null : Value → Value
  truthy_or_null v = if truthy v then v else null

  -- info.get("RootFS", {}).get("Layers", [])
  abbrev pub layers_of : Option Value → Result Failure Value
  layers_of none = ok (list nil)
  layers_of (some (dict fs)) = elim (get_field (codes "Layers") fs) [
    | none ↦ ok (list nil)
    | some v ↦ ok v
  ]
  layers_of (some v) = err attribute_error

  unfoldable pub docker_inspect_to_config : Fields → Result Failure ImageConfig
  unfolding fields_or_empty parse_docker_env parse_docker_ports get_field truthy
  docker_inspect_to_config info = do
    config ← fields_or_empty (get_value (codes "Config") info)
    env ← parse_docker_env (get_value (codes "Env") config)
    ports ← parse_docker_ports (get_value (codes "ExposedPorts") config)
    layers ← layers_of (get_field (codes "RootFS") info)
    ok (record {
      cmd = get_value (codes "Cmd") config;
      entrypoint = get_value (codes "Entrypoint") config;
      env = dict env;
      working_dir = truthy_or_null (get_value (codes "WorkingDir") config);
      exposed_ports = list (from_list ports);
      diff_ids = layers;
    })

-- s.replace(c, "_") for one character c
abbrev pub underscored : ℕ → Text → Text
underscored c s = map (λ x. if x == c then b'_' else x) s

unfoldable pub safe_cache_key : Text → Text
safe_cache_key diff_id = elim (parts (codes ":") diff_id).1 [
  | [] ↦ underscored b':' diff_id
  | c ∷ hexpart ↦ c ∷ hexpart
]

-- What the store's types let through: texts, and ports of 16 bits.
unfoldable pub are_texts : Items → Bool
are_texts nil = true
are_texts (cons (str s) vs) = are_texts vs
are_texts (cons v vs) = false

unfoldable pub are_ports : Items → Bool
are_ports nil = true
are_ports (cons (int (pos n)) vs) = leb n 65535 && are_ports vs
are_ports (cons v vs) = false

unfoldable pub are_text_fields : Fields → Bool
are_text_fields end = true
are_text_fields (field k (str s) fs) = are_text_fields fs
are_text_fields (field k v fs) = false

abbrev pub optional_texts : Value → Bool
optional_texts null = true
optional_texts (list vs) = are_texts vs
optional_texts v = false

abbrev pub text_list : Value → Bool
text_list (list vs) = are_texts vs
text_list v = false

abbrev pub port_list : Value → Bool
port_list (list vs) = are_ports vs
port_list v = false

abbrev pub text_mapping : Value → Bool
text_mapping (dict fs) = are_text_fields fs
text_mapping v = false

abbrev pub optional_text : Value → Bool
optional_text null = true
optional_text (str s) = true
optional_text v = false

unfoldable pub fits : ImageConfig → Bool
unfolding are_texts are_ports are_text_fields
fits c =
    text_list c.diff_ids
    && (optional_texts c.cmd
        && (optional_texts c.entrypoint
            && (text_mapping c.env && (optional_text c.working_dir && port_list c.exposed_ports))))

abbrev pub Store : Type 0
Store = Dict ImageConfig

-- `_image_store_populate`: a configuration that the store refuses is passed over.
unfoldable pub image_store_populate : Text → ImageConfig → Store → Store
unfolding fits put
image_store_populate name c store = if fits c then put name c store else store
