-- ===== src/Sandbox/Environment.antt =====
-- `_apply_image_defaults` and `_build_env` of sandbox.py: the environment of a command, from the
-- defaults, the image and the configuration.
use agentdocker_lite.Base.{Bool, Option, none, some, List, [], ◌∷◌, if◌then◌else◌}
use agentdocker_lite.Text.{Text, codes, text_eq}
use agentdocker_lite.Dict.{Dict, put, update}
use agentdocker_lite.Config.{SandboxConfig}

-- The fields of an image's configuration that are filled in, absent ones being empty.
pub record ImageDefaults : Type 0 where
  pub working_dir : Text
  pub env : Dict Text
  pub entrypoint : List Text

abbrev pub default_working_dir : Text → Text → Text
default_working_dir [] own = own
default_working_dir (c ∷ s) own = if text_eq own (codes "/") then c ∷ s else own

abbrev pub default_entrypoint : List Text → Option (List Text) → Option (List Text)
default_entrypoint (w ∷ ws) none = some (w ∷ ws)
default_entrypoint ws own = own

abbrev pub default_environment : Dict Text → Dict Text → Dict Text
default_environment [] own = own
default_environment (e ∷ es) own = update (e ∷ es) own

-- With what `get_image_config` says of an image.
unfoldable pub apply_image_defaults : (Text → Option ImageDefaults) → SandboxConfig → SandboxConfig
unfolding text_eq update
apply_image_defaults image_config c = elim c.image [
  | [] ↦ c
  | x ∷ s ↦ elim (image_config (x ∷ s)) [
    | none ↦ c
    | some img ↦ record c {
      working_dir = default_working_dir img.working_dir c.working_dir;
      environment = default_environment img.env c.environment;
      entrypoint = default_entrypoint img.entrypoint c.entrypoint;
    }
  ]
]

abbrev pub base_env : Dict Text
base_env =
    (codes "HOME", codes "/root")
    ∷ (codes "PATH", codes "/usr/local/sbin:/usr/local/bin:/usr/sbin:/usr/bin:/sbin:/bin")
    ∷ (codes "TERM", codes "xterm-256color")
    ∷ (codes "LANG", codes "C.UTF-8")
    ∷ []

abbrev pub terminal_env : Bool → Dict Text
terminal_env tty =
    if tty
    then put (codes "NO_COLOR") (codes "1") (put (codes "TERM") (codes "dumb") base_env)
    else base_env

unfoldable pub build_env : SandboxConfig → Dict Text
unfolding put update
build_env c = update (terminal_env c.tty) c.environment
