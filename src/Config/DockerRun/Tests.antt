-- ===== src/Config/DockerRun/Tests.antt =====
-- Command lines of `docker run`.
use agentdocker_lite.Base.{◌≡◌, refl, true, some, [], ◌∷◌, ◌++◌, ok, err, ◌>>=◌, Result, List}
use agentdocker_lite.Text.{Text, codes}
use agentdocker_lite.Config.{SandboxConfig, Failure, default_config}
use agentdocker_lite.Config.Sample.{sample_python, no_device, no_file}
use agentdocker_lite.Config.DockerRun.{from_words, from_docker_run, finish}
use agentdocker_lite.Config.DockerRun.Keys.{start, set_image, cpus, memory}
use agentdocker_lite.Config.DockerRun.Render.{
  Flag, joined, spaced, render, meanings, from_words-render,
}

abbrev read : Text → Result Failure SandboxConfig
read = from_docker_run sample_python no_file no_device (codes "/tmp") (codes "/cache")

abbrev plain : SandboxConfig
plain = record default_config {
  env_base_dir = codes "/tmp";
  rootfs_cache_dir = codes "/cache";
  image = codes "alpine";
}

limits_command :
    read (codes "docker run --cpus=2 -m 512m -it -v /data:/data alpine")
    ≡ ok (record plain {
      cpu_max = some (codes "200000 100000");
      memory_max = some (codes "536870912");
      tty = true;
      volumes = codes "/data:/data" ∷ [];
    })
unfolding from_docker_run
limits_command = refl

imageless_command :
    read (codes "docker run --rm") ≡ err (codes "No image found in docker run command")
unfolding from_docker_run
imageless_command = refl

-- A flag of the command inside the container is read as an option.
flag_behind_image : read (codes "docker run alpine df -h") ≡ err (codes "IndexError")
unfolding from_docker_run
flag_behind_image = refl

abbrev front : List Flag
front = joined cpus b'2' [] ∷ []

abbrev behind : List Flag
behind = spaced memory (codes "512m") ∷ []

abbrev run : List Text → Result Failure SandboxConfig
run = from_words sample_python no_file no_device (codes "/tmp") (codes "/cache")

from_words-render_example : run (render front ++ (codes "alpine" ∷ render behind)) ≡ (
    meanings sample_python no_file front start >>= λ o.
    meanings sample_python no_file behind (set_image (codes "alpine") o)
    >>= finish sample_python no_file no_device (codes "/tmp") (codes "/cache"))
from_words-render_example =
    from_words-render sample_python no_file no_device (codes "/tmp") (codes "/cache") front b'a'
      (codes "lpine") behind refl
