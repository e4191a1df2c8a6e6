-- ===== src/Shell/Process/Descriptors.antt =====
-- Which descriptors a restart closes, and what a timeout leaves behind.
use agentdocker_lite.Base.{
  ℕ, ◌≡◌, refl, sym, ap, ap₂, ◌∙◌, arith, ℤ, pos, negsuc, Bool, true, false, Option, none, some, [],
  ◌∷◌, ◌++◌, map, append-nil, if◌then◌else◌, Result, ok, err, Bool-cases, Option-cases, inl, inr,
}
use agentdocker_lite.Text.{Text, codes}
use agentdocker_lite.Shell.Output.{Bytes, Reading, ended, read_until_signal}
use agentdocker_lite.Shell.Process.{
  Setup, Shell, Spawned, Launch, Call, Outcome, returned, raised, fds, descriptors, kill, is_alive,
  write_input, attach, drain_err_pipe, await_ready, end_running, init_script, start, finish,
  command_script, read_output, run_command, execute, seen, timeout_text, read_signal_line,
}

write_input-closed :
    (accepts : Bool) (text : Text) (sh : Shell) → (write_input accepts text sh).1.closed ≡ sh.closed
unfolding write_input
write_input-closed accepts text sh = ground arith

write_input-err_r_fd :
    (accepts : Bool) (text : Text) (sh : Shell)
    → (write_input accepts text sh).1.err_r_fd ≡ sh.err_r_fd
unfolding write_input
write_input-err_r_fd accepts text sh = ground arith

write_input-signal_r :
    (accepts : Bool) (text : Text) (sh : Shell)
    → (write_input accepts text sh).1.signal_r ≡ sh.signal_r
unfolding write_input
write_input-signal_r accepts text sh = ground arith

write_input-pid :
    (accepts : Bool) (text : Text) (sh : Shell) → (write_input accepts text sh).1.pid ≡ sh.pid
unfolding write_input
write_input-pid accepts text sh = ground arith

write_input-killed :
    (accepts : Bool) (text : Text) (sh : Shell) → (write_input accepts text sh).1.killed ≡ sh.killed
unfolding write_input
write_input-killed accepts text sh = ground arith

abbrev with_text : Text → Shell → Shell
with_text text sh = record sh { written = sh.written ++ text ∷ [] }

write_input_taken :
    (text : Text) (fd : ℕ) (accepts : Bool) (sh : Shell)
    → sh.stdin_fd ≡ some fd
    → accepts ≡ true
    → write_input accepts text sh ≡ (true, with_text text sh)
unfolding write_input
write_input_taken text fd accepts sh there taken =
    ap
      (λ r. elim r as (λ x. Bool × Shell) [
        | none ↦ (false, sh)
        | some n ↦ if accepts then (true, with_text text sh) else (false, sh)
      ])
      there
    ∙ ap (λ b. if b then (true, with_text text sh) else (false, sh)) taken

await_ready_returns :
    (launch : Launch) (sh : Shell) (fd : ℕ) (line : Text)
    → sh.signal_r ≡ some fd
    → launch.ready ≡ some line
    → await_ready launch sh ≡ (ok tt, drain_err_pipe sh)
unfolding await_ready
await_ready_returns launch sh fd line there ready =
    let heard : read_signal_line launch.ready sh ≡ some line =
      ap (λ r. elim r as (λ x. Option Text) [ none ↦ none | some n ↦ launch.ready ]) there
      ∙ ready in
    rw (await_ready, heard) refl

end_running-dead : (alive : Bool) (sh : Shell) → sh.pid ≡ none → end_running alive sh ≡ sh
end_running-dead alive sh dead =
    let stopped : is_alive sh alive ≡ false =
      ap (λ r. elim r as (λ x. Bool) [ none ↦ false | some n ↦ alive ]) dead in
    ap (λ b. if b then kill sh else sh) stopped

end_running-closed :
    (alive : Bool) (sh : Shell)
    → (end_running alive sh).closed
      ≡ sh.closed ++ (if is_alive sh alive then descriptors sh else [])
unfolding kill
end_running-closed alive sh = elim (Bool-cases (is_alive sh alive)) [
  | inl runs ↦ simp runs refl
  | inr dead ↦ simp dead (sym (append-nil sh.closed))
]

module _ (quote : Text → Text) (show : ℤ → Text) (show_fd : Option ℕ → Text) where
  await_ready-closed :
      (launch : Launch) (sh : Shell)
      → (await_ready launch sh).1.closed ≡ sh.closed ++ fds sh.err_r_fd
  unfolding await_ready drain_err_pipe
  await_ready-closed launch sh = elim (Option-cases (read_signal_line launch.ready sh)) [
    | inl silent ↦ elim (Bool-cases launch.gone) [
      | inl gone ↦ simp (await_ready, silent, gone) refl
      | inr there ↦ simp (await_ready, silent, there) refl
    ]
    | inr (line, ready) ↦ simp (await_ready, ready) refl
  ]

  -- A start that spawns a process closes the descriptors of the shell that was there if that shell is
  -- alive, and none of them if it is dead; then the new process's pipe for errors, whether the shell
  -- becomes ready or not.
  pub start-closed :
      (setup : Setup) (launch : Launch) (sh : Shell) (s : Spawned)
      → launch.spawned ≡ ok s
      → (start quote show show_fd setup launch sh).1.closed
        ≡ (sh.closed ++ (if is_alive sh launch.alive then descriptors sh else []))
          ++ s.err_r_fd ∷ []
  unfolding start attach
  start-closed setup launch sh s same =
      let fresh = attach setup.tty s (end_running launch.alive sh) in
      let script = init_script quote show show_fd setup fresh.signal_fd in
      rw (start, same)
        (await_ready-closed launch (write_input launch.accepts script fresh).1
          ∙ ap₂ (λ xs fd. xs ++ fds fd) (write_input-closed launch.accepts script fresh)
              (write_input-err_r_fd launch.accepts script fresh)
          ∙ ap (λ xs. xs ++ s.err_r_fd ∷ []) (end_running-closed launch.alive sh))

  -- What a start that becomes ready returns and leaves, apart from what it closes.
  abbrev pub HasStarted : Shell → Spawned → Result Text (Unit {0}) × Shell → Type 0
  HasStarted sh s (result, sh') =
      (result ≡ ok tt) × (sh'.pid ≡ some s.pid) × (sh'.killed ≡ sh.killed)

  start_ready :
      (setup : Setup) (launch : Launch) (sh : Shell) (s : Spawned) (line : Text)
      → launch.spawned ≡ ok s
      → launch.ready ≡ some line
      → sh.pid ≡ none
      → HasStarted sh s (start quote show show_fd setup launch sh)
  unfolding start attach drain_err_pipe
  start_ready setup launch sh s line same ready dead =
      let fresh = attach setup.tty s (end_running launch.alive sh) in
      let script = init_script quote show show_fd setup fresh.signal_fd in
      let begun = (write_input launch.accepts script fresh).1 in
      let none_before : end_running launch.alive sh ≡ sh = end_running-dead launch.alive sh dead in
      let up : await_ready launch begun ≡ (ok tt, drain_err_pipe begun) =
        await_ready_returns launch begun s.signal_r_fd line
          (write_input-signal_r launch.accepts script fresh) ready in
      rw (start, same)
        (rw up (
          refl,
          write_input-pid launch.accepts script fresh,
          write_input-killed launch.accepts script fresh ∙ ap (λ x. x.killed) none_before,
        ))

  module _ (decode : Bytes → Text) (to_int : Text → Option ℤ) (is_space : ℕ → Bool) where
    -- What `execute` reads for a shell that is alive, with the command written.
    abbrev pub reading : Option ℕ → Call → Shell → Reading
    reading timeout call sh =
        read_until_signal decode to_int is_space call.begun timeout
          (map (seen quote show show_fd decode to_int is_space sh) call.rounds)

    abbrev pub timeout_message : Option ℕ → Text
    timeout_message timeout =
        codes "Command timed out after "
        ++ (timeout_text quote show show_fd decode to_int is_space timeout ++ codes " seconds")

    -- Behind a timeout: the outcome, and the shell that `execute` leaves.
    abbrev pub HasRestarted : Option ℕ → Shell → Spawned → Outcome × Shell → Type 0
    HasRestarted timeout sh s (outcome, sh') =
        (outcome ≡ returned (timeout_message timeout) (pos 124))
        × (sh'.pid ≡ some s.pid)
        × (sh'.killed ≡ sh.killed ++ fds sh.pid)
        × (sh'.closed ≡ (sh.closed ++ descriptors sh) ++ s.err_r_fd ∷ [])

    finish-HasRestarted :
        (setup : Setup) (again : Launch) (timeout : Option ℕ) (sh : Shell) (s : Spawned)
        (line : Text)
        → again.spawned ≡ ok s
        → again.ready ≡ some line
        → HasRestarted timeout sh s (
            finish quote show show_fd decode to_int is_space setup again timeout
              (ended (none, negsuc 1))
              sh)
    unfolding finish kill
    finish-HasRestarted setup again timeout sh s line same ready =
        let (up, pid, killed) = start_ready setup again (kill sh) s line same ready refl in
        let closed = start-closed setup again (kill sh) s same in
        (
          ap
              (λ r. elim r as (λ x. Outcome) [
                | err e ↦ raised e
                | ok t ↦ returned (timeout_message timeout) (pos 124)
              ])
              up,
          pid,
          killed,
          closed ∙ ap (λ xs. xs ++ s.err_r_fd ∷ []) (append-nil (sh.closed ++ descriptors sh)),
        )

    -- A command on a shell that is alive and takes it, which runs out of time, returns exit code 124 with
    -- a message, if the shell can be started again; then the old process was killed, all its descriptors
    -- were closed, and the shell's process is the new one.
    pub execute-HasRestarted :
        (setup : Setup) (command : Text) (timeout : Option ℕ) (call : Call) (sh : Shell)
        (input output : ℕ) (s : Spawned) (line : Text)
        → is_alive sh call.alive ≡ true
        → sh.stdin_fd ≡ some input
        → sh.stdout_fd ≡ some output
        → call.accepts ≡ true
        → reading timeout call sh ≡ ended (none, negsuc 1)
        → call.again.spawned ≡ ok s
        → call.again.ready ≡ some line
        → HasRestarted timeout sh s
            (execute quote show show_fd decode to_int is_space setup command timeout call sh)
    unfolding execute run_command read_output
    execute-HasRestarted setup command timeout call sh input output s line alive input_is output_is
          accepts late same ready =
        let text = command_script quote show show_fd setup sh.signal_fd command in
        let sh1 : Shell = with_text text sh in
        let wrote : write_input call.accepts text sh ≡ (true, sh1) =
          write_input_taken text input call.accepts sh input_is accepts in
        let ran : run_command quote show show_fd decode to_int is_space setup command timeout call
              sh
            ≡ finish quote show show_fd decode to_int is_space setup call.again timeout
                (reading timeout call sh) sh1 =
          ap (read_output quote show show_fd decode to_int is_space setup timeout call) wrote
          ∙ ap
              (λ r. elim r as (λ x. Outcome × Shell) [
                | none ↦ (raised (codes "AssertionError"), sh1)
                | some fd ↦
                    finish quote show show_fd decode to_int is_space setup call.again timeout
                      (reading timeout call sh) sh1
              ])
              output_is in
        let all_of_it : execute quote show show_fd decode to_int is_space setup command timeout call
              sh
            ≡ finish quote show show_fd decode to_int is_space setup call.again timeout
                (ended (none, negsuc 1)) sh1 =
          rw (execute, alive) ran
          ∙ ap
              (λ r. finish quote show show_fd decode to_int is_space setup call.again timeout r sh1)
              late in
        rw all_of_it (finish-HasRestarted setup call.again timeout sh1 s line same ready)
