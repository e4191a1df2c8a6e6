-- ===== src/Lib.antt =====
-- Nitrobox: sandboxes that run container images without a daemon (src/nitrobox). This library models
-- the pure core of its Python code, and proves what that core is relied on for.
--
-- The parts, and the files that model them:
--
-- - Base: the shared names, numbers and lists, and `Result` for a computation that may raise.
-- - Text and Dict: Python's `str` as a list of code points, and `dict` as an association list in
--   insertion order.
-- - Compose.Yaml: the values that `yaml.safe_load` returns. The loader itself is outside.
-- - Compose.Service: the record `_Service` of src/nitrobox/compose/_parse.py.
-- - Compose.Substitution: `_substitute` and `_sub_value`, with the regular expression `_VAR_RE` as a
--   matcher. The class `\w` is a parameter.
-- - Compose.Merge: `_deep_merge`.
-- - Compose.Environment: `_parse_environment`, `_parse_env_file`, `_parse_depends_on`,
--   `_parse_ulimits`, and the environment that `_parse_compose` merges for a service. What the system
--   knows (`os.environ`, the lines of a file) and `str` and `int` are parameters.
-- - Compose.Ports: `_parse_ports`. What `\d`, `int` and `\s` read are parameters.
-- - Compose.Topo: `_topo_sort`. The depth of the search is bounded by fuel, one unit more than there
--   are services: each nested call stands behind a service that is newly visited.
-- - Compose.Health: the rounds of `_HealthMonitor._loop` of src/nitrobox/compose/_project.py. Each
--   round is given the time at which it begins and the way in which its check ends.
-- - Compose.Project: `ComposeProject` of the same file. The record `Project` has the attributes that
--   its methods assign, and a log of what was done to the system. `Host` is the system: its answers
--   may depend on the log. Project.Command has the shell command of a service, Project.Waiting the
--   health checks (a wait is given the number of its polls), Project.Startup `_create_sandbox` and the
--   loop of `up`, Project.Shutdown `down`, Project.Lifecycle the other methods. `up` goes through the
--   order that Compose.Topo computes. The fields of the sandbox's configuration, and the files written
--   into a new sandbox, are left out.
-- - Compose.Network: `_parse_duration` and the parsers of pasta's output of
--   src/nitrobox/compose/_network.py.
-- - Image.Reference: `parse_image_ref` of src/nitrobox/image/registry.py.
-- - Image.Request: `_registry_request` and `_retry_sleep`. The server's replies, and what a redirect
--   leads to, are parameters. The loop's `range(max_retries + 1)` is its bound. Request.Protocol says
--   what the replies mean without the code's tests. Errors are those that are `OSError` and those
--   that are not, such as `IncompleteRead`.
-- - Image.Download: `_download_blob_streaming`. The servers are parameters that see the attempt and
--   the offset; the loop is bounded as the source's is. It takes its failures from Image.Request. A
--   response ends with an empty chunk, an `OSError` or another error; that a server honours the
--   header `Range` is a hypothesis where it is needed.
-- - Image.Tokens: `_get_token` with `_token_cache`. Each call is given the two times at which it reads
--   the clock and the servers' answers to URLs; the state keeps, besides the cache, the request behind
--   each token that came in.
-- - Image.Platform: the choice of `get_manifest` in a manifest list.
-- - Image.Layers: `iter_image_layers` and `pull_image_layers`, from the manifest's layers and the
--   configuration's `diff_ids` on. The download and SHA-256 are parameters.
-- - Image.Store: src/nitrobox/image/store.py. Metadata has the conversions and the store in memory (of
--   rust/src/image_store.rs), Cascade the sources that are asked one behind the other, Manifests the
--   files on disk. What the other clients answer is a parameter.
-- - Config: `SandboxConfig` of src/nitrobox/config.py. The record `Python` has what the module takes
--   from Python: floats, `int`, the case of letters, white space, `shlex.split`. Config.Capabilities has
--   `cap_names_to_numbers`, Config.Limits the parsers of sizes and limits with `__post_init__`,
--   Config.Docker `from_docker` with its converters, Config.DockerRun `from_docker_run`, and
--   Config.Subuid `detect_subuid_range` with its two module variables.
-- - Shell: `_PersistentShell` of src/nitrobox/_shell.py. Shell.Output is `_read_until_signal`, where each
--   pass of the loop is given what it finds; Shell.Process has `start`, `kill` and `execute` over the
--   attributes of the object and the descriptors that were closed.
-- - Sandbox.Snapshots: the snapshots of `Sandbox` in src/nitrobox/sandbox.py, over the content of the
--   directories; what is done to the shell and to the mounts is a log. Sandbox.Environment has
--   `_apply_image_defaults` and `_build_env`.
--
-- Not modelled: processes, namespaces, mounts and sockets, which the program reaches through the
-- system; the Rust and Go code; Python's limit on the depth of recursion.
pub mod Base
pub mod Text
pub mod Dict
pub mod Compose
pub mod Image
pub mod Config
pub mod Shell
pub mod Sandbox
