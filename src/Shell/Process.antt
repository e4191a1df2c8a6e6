-- ===== src/Shell/Process.antt =====
-- The life of a `_PersistentShell` of _shell.py: `start`, `kill`, `execute` and `write_stdin`. The state
-- has the attributes, and beside them the descriptors that `os.close` was called on and the processes
-- that were sent SIGKILL. What the system does in a call is an argument of it.
pub mod Descriptors
mod Tests
use agentdocker_lite.Base.{
  ℕ, zero, suc, map, ℤ, pos, negsuc, Bool, true, false, not, Option, none, some, List, [], ◌∷◌,
  ◌++◌, if◌then◌else◌, Result, ok, err,
}
use agentdocker_lite.Text.{Text, codes, rsplit_once}
use agentdocker_lite.Dict.{Dict, get}
use agentdocker_lite.Shell.Output.{Bytes, Round, Reading, waiting, ended, read_until_signal}

-- The fields of SpawnConfig that this class reads, and the limits.
pub record Setup : Type 0 where
  pub tty : Bool
  pub working_dir : Text
  pub shell : Text
  pub ulimits : Dict (ℤ × ℤ)

pub record Shell : Type 0 where
  pub pid : Option ℕ
  pub pidfd : Option ℕ
  pub stdin_fd : Option ℕ
  pub stdout_fd : Option ℕ
  pub signal_r : Option ℕ
  pub signal_fd : Option ℕ
  pub master_fd : Option ℕ
  pub err_r_fd : Option ℕ
  pub closed : List ℕ
  pub killed : List ℕ
  pub written : List Text

-- PySpawnResult
pub record Spawned : Type 0 where
  pub pid : ℕ
  pub pidfd : Option ℕ
  pub stdin_fd : ℕ
  pub stdout_fd : ℕ
  pub signal_r_fd : ℕ
  pub signal_w_fd_num : ℕ
  pub master_fd : Option ℕ
  pub err_r_fd : ℕ

-- What the system does in a call of `start`: whether a process that is there is alive, the spawn, the
-- line on the signal descriptor within 30 seconds, and else whether the child is found to have ended.
pub record Launch : Type 0 where
  pub alive : Bool
  pub spawned : Result Text Spawned
  pub accepts : Bool
  pub ready : Option Text
  pub gone : Bool

abbrev pub fds : Option ℕ → List ℕ
fds none = []
fds (some fd) = fd ∷ []

-- What a call of `execute` comes to; `running` reads on behind the passes that it was given.
pub data Outcome : Type 0 where
  returned : Text → ℤ → Outcome
  raised : Text → Outcome
  running : Outcome

-- What the system does in a call of `execute`: whether the shell is alive, the restart if it is not,
-- whether the command can be written, the passes that read its output from the time `begun` on, and the
-- restart behind a timeout.
pub record Call : Type 0 where
  pub alive : Bool
  pub restart : Launch
  pub accepts : Bool
  pub begun : ℕ
  pub rounds : List Round
  pub again : Launch

-- The descriptors that `kill` closes, in its order.
abbrev pub descriptors : Shell → List ℕ
descriptors sh =
    fds sh.master_fd
    ++ (fds sh.pidfd
        ++ (fds sh.signal_r ++ (fds sh.stdin_fd ++ (fds sh.stdout_fd ++ fds sh.err_r_fd))))

unfoldable pub kill : Shell → Shell
kill sh = record sh {
  pid = none;
  pidfd = none;
  stdin_fd = none;
  stdout_fd = none;
  signal_r = none;
  master_fd = none;
  err_r_fd = none;
  closed = sh.closed ++ descriptors sh;
  killed = sh.killed ++ fds sh.pid;
}

-- `alive`, with the answer of waitpid
abbrev pub is_alive : Shell → Bool → Bool
is_alive sh answer = elim sh.pid [ none ↦ false | some pid ↦ answer ]

-- `_write_input`, where the write succeeds or not
unfoldable pub write_input : Bool → Text → Shell → Bool × Shell
write_input accepts text sh = elim sh.stdin_fd [
  | none ↦ (false, sh)
  | some fd ↦
      if accepts then (true, record sh { written = sh.written ++ text ∷ [] }) else (false, sh)
]

-- The streams, which with a terminal are its master.
abbrev pub streams_of : Bool → Spawned → ℕ × ℕ
streams_of tty s =
    if tty
    then elim s.master_fd [ none ↦ (s.stdin_fd, s.stdout_fd) | some fd ↦ (fd, fd) ]
    else (s.stdin_fd, s.stdout_fd)

-- The attributes that a spawn sets.
unfoldable pub attach : Bool → Spawned → Shell → Shell
attach tty s sh =
    let (input, output) = streams_of tty s in
    record sh {
      pid = some s.pid;
      pidfd = s.pidfd;
      stdin_fd = some input;
      stdout_fd = some output;
      signal_r = some s.signal_r_fd;
      signal_fd = some s.signal_w_fd_num;
      master_fd = s.master_fd;
      err_r_fd = some s.err_r_fd;
    }

-- `_drain_err_pipe`, less the messages
unfoldable pub drain_err_pipe : Shell → Shell
drain_err_pipe sh = record sh { err_r_fd = none; closed = sh.closed ++ fds sh.err_r_fd }

-- `_read_signal`, with what comes in time
abbrev pub read_signal_line : Option Text → Shell → Option Text
read_signal_line line sh = elim sh.signal_r [ none ↦ none | some fd ↦ line ]

unfoldable pub ulimit_map : Text → Option Text
unfolding get
ulimit_map name = get name (
    (codes "nofile", codes "-n")
    ∷ (codes "nproc", codes "-u")
    ∷ (codes "memlock", codes "-l")
    ∷ (codes "stack", codes "-s")
    ∷ (codes "core", codes "-c")
    ∷ (codes "fsize", codes "-f")
    ∷ (codes "data", codes "-d")
    ∷ (codes "rss", codes "-m")
    ∷ (codes "as", codes "-v")
    ∷ [])

-- Behind the spawn. The error's text goes on with what is known of the child.
unfoldable pub await_ready : Launch → Shell → Result Text (Unit {0}) × Shell
unfolding drain_err_pipe
await_ready launch sh = elim (read_signal_line launch.ready sh) [
  | none ↦ (
    err (codes "Persistent shell failed to start"),
    drain_err_pipe (if launch.gone then record sh { pid = none } else sh),
  )
  | some line ↦ (ok tt, drain_err_pipe sh)
]

abbrev pub end_running : Bool → Shell → Shell
end_running alive sh = if is_alive sh alive then kill sh else sh

module _ (quote : Text → Text) (show : ℤ → Text) (show_fd : Option ℕ → Text) where
  abbrev pub limit_line : Text → Text → ℤ → Text
  limit_line kind flag n =
      codes "ulimit "
      ++ (kind ++ (codes " " ++ (flag ++ (codes " " ++ (show n ++ codes " 2>/dev/null\n")))))

  unfoldable pub ulimit_lines : Dict (ℤ × ℤ) → Text
  unfolding ulimit_map
  ulimit_lines [] = []
  ulimit_lines ((name, limit) ∷ limits) =
      let rest = ulimit_lines limits in
      elim (ulimit_map name) [
        | none ↦ rest
        | some flag ↦
            limit_line (codes "-H") flag limit.1 ++ (limit_line (codes "-S") flag limit.0 ++ rest)
      ]

  abbrev pub cd_line : Text → Text
  cd_line dir = codes "cd " ++ (quote dir ++ codes " 2>/dev/null\n")

  unfoldable pub init_script : Setup → Option ℕ → Text
  unfolding ulimit_lines
  init_script setup signal_fd =
      codes "PS1='' PS2=''\n"
      ++ (ulimit_lines setup.ulimits
          ++ (cd_line setup.working_dir
              ++ (codes "echo 0 >&" ++ (show_fd signal_fd ++ codes "\n"))))

  -- os.path.basename
  abbrev pub basename : Text → Text
  basename path = elim (rsplit_once b'/' path) [ none ↦ path | some (dir, base) ↦ base ]

  unfoldable pub command_script : Setup → Option ℕ → Text → Text
  unfolding rsplit_once
  command_script setup signal_fd command =
      cd_line setup.working_dir
      ++ (basename setup.shell
          ++ (codes " -c "
              ++ (quote command
                  ++ (codes " </dev/null 2>&1\necho $? >&" ++ (show_fd signal_fd ++ codes "\n")))))

  unfoldable pub start : Setup → Launch → Shell → Result Text (Unit {0}) × Shell
  unfolding kill attach write_input init_script await_ready
  start setup launch sh = elim launch.spawned [
    | err e ↦ (err e, end_running launch.alive sh)
    | ok s ↦
        let fresh = attach setup.tty s (end_running launch.alive sh) in
        await_ready launch (write_input launch.accepts (init_script setup fresh.signal_fd) fresh).1
  ]

  module _ (decode : Bytes → Text) (to_int : Text → Option ℤ) (is_space : ℕ → Bool) where
    -- The signal descriptor is read if it is there.
    abbrev pub seen : Shell → Round → Round
    seen sh r = elim sh.signal_r [ none ↦ record r { signal = none } | some fd ↦ r ]

    -- The text of a timeout's number.
    abbrev pub timeout_text : Option ℕ → Text
    timeout_text none = codes "None"
    timeout_text (some n) = show (pos n)

    -- exit_code == -2
    abbrev pub is_late : ℤ → Bool
    is_late (negsuc (suc zero)) = true
    is_late _ = false

    unfoldable pub finish : Setup → Launch → Option ℕ → Reading → Shell → Outcome × Shell
    unfolding start kill
    finish setup again timeout (waiting buf parts) sh = (running, sh)
    finish setup again timeout (ended (some output, code)) sh = (returned output code, sh)
    finish setup again timeout (ended (none, code)) sh =
        if is_late code
        then (let (started, sh') = start setup again (kill sh) in
            (
              elim started [
                | err e ↦ raised e
                | ok t ↦
                    returned
                      (codes "Command timed out after "
                        ++ (timeout_text timeout ++ codes " seconds"))
                      (pos 124)
              ],
              sh',
            ))
        else (returned (codes "Shell terminated unexpectedly") (negsuc 0), sh)

    -- Behind the write of the command.
    unfoldable pub read_output : Setup → Option ℕ → Call → Bool × Shell → Outcome × Shell
    unfolding finish read_until_signal
    read_output setup timeout call (wrote, sh) =
        if not wrote
        then (returned (codes "Shell pipe broken") (negsuc 0), sh)
        else elim sh.stdout_fd [
          | none ↦ (raised (codes "AssertionError"), sh)
          | some fd ↦
              finish setup call.again timeout
                (read_until_signal decode to_int is_space call.begun timeout
                  (map (seen sh) call.rounds))
                sh
        ]

    unfoldable pub run_command : Setup → Text → Option ℕ → Call → Shell → Outcome × Shell
    unfolding write_input command_script read_output
    run_command setup command timeout call sh =
        read_output setup timeout call
          (write_input call.accepts (command_script setup sh.signal_fd command) sh)

    unfoldable pub execute : Setup → Text → Option ℕ → Call → Shell → Outcome × Shell
    unfolding start run_command
    execute setup command timeout call sh =
        if is_alive sh call.alive
        then run_command setup command timeout call sh
        else (let (started, sh') = start setup call.restart sh in
            elim started [
              | err e ↦ (raised e, sh')
              | ok t ↦ run_command setup command timeout call sh'
            ])

    -- With a terminal, raw data goes to the shell.
    unfoldable pub write_stdin : Setup → Bool → Text → Shell → Result Text (Unit {0}) × Shell
    unfolding write_input
    write_stdin setup accepts bytes sh =
        if not setup.tty
        then (err (codes "write_stdin() requires tty=True"), sh)
        else (ok tt, (write_input accepts bytes sh).1)
