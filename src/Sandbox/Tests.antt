-- ===== src/Sandbox/Tests.antt =====
-- Snapshots of a file system whose content is a number, and the environment of a command.
use agentdocker_lite.Base.{ℕ, ◌≡◌, refl, pos, true, false, none, some, [], ◌∷◌, ok, err, inr, arith}
use agentdocker_lite.Text.{Text, codes}
use agentdocker_lite.Dict.{get}
use agentdocker_lite.Config.Sample.{sample_python, natural}
use agentdocker_lite.Config.{SandboxConfig, default_config}
use agentdocker_lite.Sandbox.Environment.{apply_image_defaults, build_env}
use agentdocker_lite.Sandbox.Snapshots.{
  Box, number, snapshot, restore, list_snapshots, shell_killed,
}
use agentdocker_lite.Sandbox.Snapshots.Again.{snapshot_behind_restore}

abbrev show : ℕ → Text
show n = sample_python.show_int (pos n)

abbrev box : Box ℕ
box = record {
  userns = true;
  has_upper = true;
  has_rootfs = false;
  has_lowerdir = true;
  has_work = true;
  upper = some 5;
  snapshots = none;
  snapshot_counter = 0;
  log = [];
}

abbrev many : Box ℕ
many = record box {
  snapshots =
      some ((codes "0", 100) ∷ (codes "1", 101) ∷ (codes "9", 109) ∷ (codes "10", 110) ∷ []);
  snapshot_counter = 11;
}

-- Names are sorted as texts, so that the newest snapshot is not the one restored.
list_snapshots-many :
    list_snapshots show natural many ≡ number 0 ∷ (number 1 ∷ (number 10 ∷ (number 9 ∷ [])))
unfolding list_snapshots
list_snapshots-many = refl

restored_latest : (restore show natural none many).1.upper ≡ some 109
unfolding restore agentdocker_lite.Text.text_eq
restored_latest = refl

snapshot_behind_restore_example :
    ((restore show natural (some (number 0)) many).0 ≡ ok tt)
    × ((snapshot show natural none (restore show natural (some (number 0)) many).1).0
        ≡ err (codes "FileExistsError"))
unfolding get agentdocker_lite.Text.text_eq
snapshot_behind_restore_example =
    snapshot_behind_restore show natural 0 many 100 101 refl (inr (λ e. ground arith)) refl refl

-- In a user namespace a restore needs the upper directory, and kills the shell before it finds out.
restored_without_upper :
    restore show natural (some (number 0)) (record many { upper = none })
    ≡ (err (codes "FileNotFoundError"), record many { upper = none; log = shell_killed ∷ [] })
unfolding restore agentdocker_lite.Text.text_eq
restored_without_upper = refl

-- The user's variable wins over the image's, and the image's over the default.
abbrev with_image : SandboxConfig
with_image =
    apply_image_defaults
      (λ name. some (record {
        working_dir = codes "/app";
        env = (codes "A", codes "image") ∷ (codes "LANG", codes "C") ∷ [];
        entrypoint = [];
      }))
      (record default_config {
        image = codes "alpine";
        environment = (codes "A", codes "user") ∷ [];
      })

user_wins : get (codes "A") (build_env with_image) ≡ some (codes "user")
unfolding build_env get apply_image_defaults
user_wins = refl

image_wins : get (codes "LANG") (build_env with_image) ≡ some (codes "C")
unfolding build_env get apply_image_defaults
image_wins = refl
