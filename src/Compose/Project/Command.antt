-- ===== src/Compose/Project/Command.antt =====
-- `_cmd_string`, `_ulimit_prefix`, `_wrap_restart` and `_start_service` of compose/_project.py: the
-- shell command of a service.
use agentdocker_lite.Base.{
  ℤ, pos, negsuc, ◌==◌, Bool, false, not, ◌||◌, Option, none, some, List, [], ◌∷◌, ◌++◌,
  if◌then◌else◌, Result, ok, err, ◌>>=◌,
}
use agentdocker_lite.Text.{join_texts, Text, codes, text_eq}
use agentdocker_lite.Dict.{Dict, get, put}
use agentdocker_lite.Compose.Yaml.{truthy, is_text, Value, null, int, list}
use agentdocker_lite.Compose.Service.{Service}
use agentdocker_lite.Compose.Project.{Host, Project, Failure, Run, started, done, record_event}

unfoldable pub int_eq : ℤ → ℤ → Bool
int_eq (pos m) (pos n) = m == n
int_eq (negsuc m) (negsuc n) = m == n
int_eq _ _ = false

-- The compose file's value, or the image's where the file has none.
unfoldable pub own_or : Value → Option Value → Value
own_or null none = null
own_or null (some v) = v
own_or v _ = v

unfoldable pub flag_of : Text → Option Text
unfolding get text_eq
flag_of name = get name (
    (codes "nofile", codes "-n")
    ∷ (codes "nproc", codes "-u")
    ∷ (codes "core", codes "-c")
    ∷ (codes "fsize", codes "-f")
    ∷ (codes "memlock", codes "-l")
    ∷ (codes "stack", codes "-s")
    ∷ [])

unfoldable pub wrap_restart : Text → Value → Text
unfolding truthy is_text
wrap_restart cmd policy =
    if not (truthy policy)
      || (is_text (codes "no") policy
          || (is_text (codes "never") policy || is_text (codes "\"no\"") policy))
    then cmd
    else (codes "_d=1; while true; do SECONDS=0; "
        ++ cmd
        ++ codes "; _rc=$?; [ $SECONDS -gt 10 ] && _d=1; "
        ++ (if is_text (codes "on-failure") policy then codes "[ $_rc -eq 0 ] && break; " else [])
        ++ codes "sleep $_d; _d=$((_d<30?_d*2:30)); done")

module _ (host : Host) where
  -- shlex.join(v) if isinstance(v, list) else str(v), for a value that counts as true
  unfoldable pub command_part : Value → Result Failure (List Text)
  unfolding truthy
  command_part v =
      if truthy v
      then elim v [ list vs ↦ (host.join vs >>= λ s. ok (s ∷ [])) | w ↦ ok (host.show w ∷ []) ]
      else ok []

  unfoldable pub cmd_string : Service → Project → Result Failure (Option Text)
  unfolding command_part own_or
  cmd_string svc p =
      (command_part (own_or svc.entrypoint (get svc.name p.image_entrypoints)) >>= λ ep.
      command_part (own_or svc.command (get svc.name p.image_cmds)) >>= λ cmd.
      ok (elim (ep ++ cmd) [
        | [] ↦ none
        | part ∷ parts ↦ some (join_texts (codes " ") (part ∷ parts))
      ]))

  unfoldable pub ulimit_parts : Dict (ℤ × ℤ) → List Text
  unfolding flag_of int_eq
  ulimit_parts [] = []
  ulimit_parts ((name, (soft, hard)) ∷ limits) =
      let rest = ulimit_parts limits in
      elim (flag_of name) [
        | none ↦ rest
        | some flag ↦
            (if int_eq soft hard
              then codes "ulimit " ++ flag ++ codes " " ++ host.show (int soft)
              else codes "ulimit "
                ++ flag
                ++ codes "S "
                ++ host.show (int soft)
                ++ codes "; ulimit "
                ++ flag
                ++ codes "H "
                ++ host.show (int hard))
            ∷ rest
      ]

  unfoldable pub ulimit_prefix : Dict (ℤ × ℤ) → Text
  unfolding ulimit_parts join_texts
  ulimit_prefix limits = join_texts (codes "; ") (ulimit_parts limits)

  unfoldable pub with_ulimits : Text → Text → Text
  with_ulimits [] cmd = cmd
  with_ulimits (c ∷ prefix) cmd = (c ∷ prefix) ++ codes "; " ++ cmd

  unfoldable pub start_service : Text → Service → Project → Run (Unit {0})
  unfolding cmd_string with_ulimits ulimit_prefix wrap_restart get put
  start_service name svc p = elim (cmd_string svc p) [
    | err e ↦ (err e, p)
    | ok none ↦ done p
    | ok (some []) ↦ done p
    | ok (some (c ∷ cmd)) ↦ elim (get name p.sandboxes) [
      | none ↦ done p
      | some box ↦
          let line =
            with_ulimits (ulimit_prefix svc.ulimits) (wrap_restart (c ∷ cmd) svc.restart) in
          elim (host.run_background p.log box line) [
            | err e ↦ (err e, p)
            | ok handle ↦ done (
                record_event (started name line)
                  (record p { bg_handles = put name handle p.bg_handles }))
          ]
    ]
  ]
