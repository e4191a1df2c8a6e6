-- ===== src/Shell/Process/Tests.antt =====
-- A shell with a terminal: started, killed, and started again behind a timeout.
use agentdocker_lite.Base.{ℕ, ◌≡◌, refl, pos, true, false, Option, none, some, [], ◌∷◌, ◌++◌, ok}
use agentdocker_lite.Text.{Text, codes}
use agentdocker_lite.Config.Sample.{sample_python, blank}
use agentdocker_lite.Shell.Output.{Bytes, Round, read_until_signal}
use agentdocker_lite.Shell.Process.{
  Setup, Shell, Spawned, Launch, Call, start, kill, execute, ulimit_lines,
}
use agentdocker_lite.Shell.Process.Descriptors.{HasRestarted, start-closed, execute-HasRestarted}

abbrev quote : Text → Text
quote s = codes "'" ++ (s ++ codes "'")

abbrev show_fd : Option ℕ → Text
show_fd none = codes "None"
show_fd (some fd) = sample_python.show_int (pos fd)

abbrev decode : Bytes → Text
decode s = s

abbrev setup : Setup
setup = record {
  tty = true;
  working_dir = codes "/";
  shell = codes "/bin/bash";
  ulimits = (codes "nofile", (pos 64, pos 128)) ∷ ((codes "unknown", (pos 1, pos 1)) ∷ []);
}

ulimit_lines-setup :
    ulimit_lines quote sample_python.show_int show_fd setup.ulimits
    ≡ codes "ulimit -H -n 128 2>/dev/null\nulimit -S -n 64 2>/dev/null\n"
unfolding ulimit_lines agentdocker_lite.Text.text_eq
ulimit_lines-setup = refl

abbrev spawned : Spawned
spawned = record {
  pid = 100;
  pidfd = some 9;
  stdin_fd = 3;
  stdout_fd = 4;
  signal_r_fd = 5;
  signal_w_fd_num = 6;
  master_fd = some 7;
  err_r_fd = 8;
}

abbrev launch : Launch
launch = record {
  alive = false;
  spawned = ok spawned;
  accepts = true;
  ready = some (codes "0");
  gone = false;
}

abbrev fresh : Shell
fresh = record {
  pid = none;
  pidfd = none;
  stdin_fd = none;
  stdout_fd = none;
  signal_r = none;
  signal_fd = none;
  master_fd = none;
  err_r_fd = none;
  closed = [];
  killed = [];
  written = [];
}

abbrev shell : Shell
shell = record fresh {
  pid = some 100;
  pidfd = some 9;
  stdin_fd = some 7;
  stdout_fd = some 7;
  signal_r = some 5;
  signal_fd = some 6;
  master_fd = some 7;
}

-- With a terminal the master is closed three times.
kill-shell : (kill shell).closed ≡ 7 ∷ (9 ∷ (5 ∷ (7 ∷ (7 ∷ []))))
unfolding kill
kill-shell = refl

-- The shell has died: its descriptors 5, 7 and 9 are not closed by the restart.
start-closed_example :
    (start quote sample_python.show_int show_fd setup launch shell).1.closed ≡ 8 ∷ []
start-closed_example =
    start-closed quote sample_python.show_int show_fd setup launch shell spawned refl

abbrev silence : ℕ → Round
silence now = record { now = now; alive = true; stdout = none; signal = none; left = [] }

abbrev call : Call
call = record {
  alive = true;
  restart = launch;
  accepts = true;
  begun = 0;
  rounds = silence 2 ∷ (silence 5 ∷ []);
  again = launch;
}

execute-HasRestarted_example :
    HasRestarted quote sample_python.show_int show_fd decode sample_python.to_int blank
      (some 5)
      shell
      spawned
      (execute quote sample_python.show_int show_fd decode sample_python.to_int blank setup
        (codes "sleep 9")
        (some 5)
        call
        shell)
unfolding read_until_signal
execute-HasRestarted_example =
    execute-HasRestarted quote sample_python.show_int show_fd decode sample_python.to_int blank
      setup (codes "sleep 9") (some 5) call shell 7 7 spawned (codes "0") refl refl refl refl refl
      refl refl
