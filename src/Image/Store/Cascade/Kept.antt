-- ===== src/Image/Store/Cascade/Kept.antt =====
-- What the store in memory keeps of the configurations that `get_image_config` finds.
use agentdocker_lite.Base.{
  ℤ, ◌≡◌, refl, ap, ap₂, ◌∙◌, ◌&&◌, arith, Bool, true, false, Option, none, some, if◌then◌else◌, ok,
  ◌>>=◌,
}
use agentdocker_lite.Text.{Text, codes}
use agentdocker_lite.Dict.{get, put}
use agentdocker_lite.Compose.Yaml.{Value, str, list, dict, Items, cons, Fields, field, get_field}
use agentdocker_lite.Config.Docker.Convert.{field_names, from_list}
use agentdocker_lite.Image.Store.Metadata.{
  ImageConfig, Store, get_value, or_null, fields_or_empty, parse_docker_env, fits,
  image_store_populate, are_ports, text_list, optional_texts, text_mapping, optional_text,
}
use agentdocker_lite.Dict.{get-put_here}
use agentdocker_lite.Image.Store.Cascade.{
  Sources, dict_or_raise, oci_image_config, config_of, buildkit_config, settle, from_buildkit,
  ask_for_config, get_image_config,
}

populate-get :
    (name : Text) (c : ImageConfig) (store : Store)
    → fits c ≡ true
    → get name (image_store_populate name c store) ≡ some c
unfolding image_store_populate
populate-get name c store h =
    ap (λ b. get name (if b then put name c store else store)) h ∙ get-put_here name c store

settle-get :
    (name : Text) (store : Store) (cached asked : Option ImageConfig) (c : ImageConfig)
    → get name store ≡ cached
    → (settle name store cached asked).0 ≡ some c
    → fits c ≡ true
    → get name (settle name store cached asked).1 ≡ some c
unfolding settle
settle-get name store (some d) asked c kept found good = kept ∙ found
settle-get name store none (some d) c kept found good =
    let same : d ≡ c = ground arith in
    ap (λ e. get name (image_store_populate name e store)) same ∙ populate-get name c store good
settle-get name store none none c kept found good = cc

and-false : (a b c d e : Bool) → a && (b && (c && (d && (e && false)))) ≡ false
and-false a b c d e = ground arith

-- A port that is a text.
text_port_refused :
    (c : ImageConfig) (port : Text) (ports : Items)
    → fits (record c { exposed_ports = list (cons (str port) ports) }) ≡ false
unfolding fits are_ports
text_port_refused c port ports =
    and-false (text_list c.diff_ids) (optional_texts c.cmd) (optional_texts c.entrypoint)
      (text_mapping c.env) (optional_text c.working_dir)

buildkit_config_of_blob :
    (blob oci env ports : Fields)
    → get_field (codes "config") blob ≡ some (dict oci)
    → parse_docker_env (get_value (codes "Env") oci) ≡ ok env
    → get_field (codes "ExposedPorts") oci ≡ some (dict ports)
    → buildkit_config blob ≡ ok (oci_image_config oci env ports)
unfolding buildkit_config config_of fields_or_empty
buildkit_config_of_blob blob oci env ports config env_is ports_are =
    ap (λ r. dict_or_raise r >>= config_of) config
    ∙ ap
        (λ r. r >>= λ e.
          (fields_or_empty (get_value (codes "ExposedPorts") oci) >>= λ p.
          ok (oci_image_config oci e p)))
        env_is
    ∙ ap (λ r. fields_or_empty (or_null r) >>= λ p. ok (oci_image_config oci env p)) ports_are

module _ (to_int : Text → Option ℤ) where
  get_image_config_kept :
      (sources : Sources) (name : Text) (c : ImageConfig) (store : Store)
      → get name store ≡ some c
      → get_image_config to_int sources name store ≡ (some c, store)
  unfolding get_image_config settle
  get_image_config_kept sources name c store h =
      ap (λ cached. settle name store cached (ask_for_config to_int sources name)) h

  -- A configuration that is found and has the types of the store is kept: every later call, whatever the
  -- other sources say by then, gives the same and leaves the store as it is.
  pub get_image_config-settles :
      (sources later : Sources) (name : Text) (c : ImageConfig) (store : Store)
      → (get_image_config to_int sources name store).0 ≡ some c
      → fits c ≡ true
      → get_image_config to_int later name (get_image_config to_int sources name store).1
        ≡ (some c, (get_image_config to_int sources name store).1)
  unfolding get_image_config
  get_image_config-settles sources later name c store found good =
      get_image_config_kept later name c (get_image_config to_int sources name store).1 (
        settle-get name store (get name store) (ask_for_config to_int sources name) c refl found
          good)

  -- An image that the store does not have and BuildKit has, with an environment that can be read and a
  -- port that it exposes: a call gives the configuration made from BuildKit's blob, and leaves the store
  -- as it was.
  pub get_image_config_not_kept :
      (sources : Sources) (name port : Text) (blob oci rest env : Fields) (v : Value)
      (store : Store)
      → get name store ≡ none
      → sources.buildkit name ≡ ok (some blob)
      → get_field (codes "config") blob ≡ some (dict oci)
      → parse_docker_env (get_value (codes "Env") oci) ≡ ok env
      → get_field (codes "ExposedPorts") oci ≡ some (dict (field port v rest))
      → get_image_config to_int sources name store
        ≡ (some (oci_image_config oci env (field port v rest)), store)
  unfolding get_image_config settle image_store_populate oci_image_config field_names from_list
  get_image_config_not_kept sources name port blob oci rest env v store new has config env_is
        ports =
      let made = oci_image_config oci env (field port v rest) in
      let blob_is : from_buildkit to_int sources name ≡ some made =
        rw (from_buildkit, has)
          (rw (buildkit_config_of_blob blob oci env (field port v rest) config env_is ports)
            refl) in
      let first : ask_for_config to_int sources name ≡ some made =
        rw (ask_for_config, blob_is) refl in
      let refused : fits made ≡ false =
        text_port_refused made port (from_list (field_names rest)) in
      ap₂ (λ cached asked. settle name store cached asked) new first
      ∙ ap (λ b. (some made, if b then put name made store else store)) refused
