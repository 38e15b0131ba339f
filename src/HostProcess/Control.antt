-- ===== src/HostProcess/Control.antt =====
-- hostsystem/process.go: starting with its checks, Ensure, and what is done to whole groups. What the
-- host answers while a command starts is a record.
use fluxplane_system.Prelude.{
  ℕ, suc, Bool, true, false, not, ◌&&◌, ◌||◌, List, [], ◌∷◌, ◌++◌, Option, none, some, map,
  if◌then◌else◌,
}
use fluxplane_system.GoText.{Text, slash, text_eq, is_empty, trim_space, has_prefix}
use fluxplane_system.GoMap.{lookup}
use fluxplane_system.GoPath.{dot, dot_dot, is_abs, path_clean, path_join}
use fluxplane_system.System.{
  Error, Result, ok, err, ◌>>=◌, Context, Outcome, invalid_name, not_a_directory, bad_command,
}
use fluxplane_system.ProcessTypes.{ProcessRequest, ProcessInfo}
use fluxplane_system.HostProcess.{Process, ManagedProcess, check_command, find_process, register}

unfoldable pub valid_fs_like_name : Text → Bool
unfolding text_eq is_empty has_prefix trim_space
valid_fs_like_name raw =
    let name = trim_space raw in
    text_eq name dot
    || (not (is_empty name)
        && not (has_prefix (dot_dot ++ (slash ∷ [])) name)
        && not (text_eq name dot_dot))

-- `workdir`, with whether a path is a directory.
unfoldable pub workdir_of : (Text → Result Bool) → Text → Text → Result Text
unfolding valid_fs_like_name path_clean path_join is_abs
workdir_of is_dir root raw =
    if is_empty (trim_space raw)
    then ok root
    else (candidate >>= λ path. is_dir path >>= λ dir. if dir then ok path else err not_a_directory)
  where
    candidate : Result Text
    candidate =
        if is_abs (trim_space raw)
        then ok (path_clean (trim_space raw))
        else if not (valid_fs_like_name (trim_space raw))
        then err invalid_name
        else ok (path_join root (trim_space raw))

-- What the host answers: the environment of the process, which paths are directories, whether the
-- context is done when the command is to start, and the errors of the input's pipe and of the start.
pub record StartAnswers : Type 0 where
  pub env : Result (List Text)
  pub is_dir : Text → Result Bool
  pub context_then : Context
  pub pipe : Option Error
  pub started : Option Error

abbrev pub live_unless_detached : Bool → Context → Result (Unit {0})
live_unless_detached true ctx = ok tt
live_unless_detached false none = ok tt
live_unless_detached false (some e) = err e

abbrev pub no_error : Option Error → Result (Unit {0})
no_error none = ok tt
no_error (some e) = err e

abbrev pub command_checked : Text → Result (Unit {0})
command_checked command = elim (check_command command) [ none ↦ ok tt | some _ ↦ err bad_command ]

-- `start` up to the id.
unfoldable pub checked_start : StartAnswers → Text → Context → ProcessRequest → Result Text
unfolding workdir_of check_command
checked_start a root ctx req = command_checked req.command >>= λ _. a.env >>= λ _.
    live_unless_detached req.detached ctx >>= λ _. workdir_of a.is_dir root req.workdir

-- `start` from the id to the started command.
abbrev pub launched : StartAnswers → Bool → ProcessRequest → Result (Unit {0})
launched a interactive req = no_error (if interactive then a.pipe else none) >>= λ _.
    live_unless_detached req.detached a.context_then >>= λ _. no_error a.started

-- `start`: an id is used up also if the command does not start after all.
unfoldable pub start :
    StartAnswers → Text → Context → Bool → ProcessRequest → ℕ → Process → Outcome Process ℕ
unfolding checked_start register
start a root ctx interactive req now m = elim (checked_start a root ctx req) [
  | err e ↦ (err e, m)
  | ok workdir ↦ elim (launched a interactive req) [
    | err e ↦ (err e, record m { next_id = suc m.next_id })
    | ok _ ↦ (ok (suc m.next_id), register interactive req workdir now m)
  ]
]

-- The first running process with a label, in the order in which the loop visits the processes.
unfoldable pub find_labelled : Text → List ManagedProcess → Option ℕ
unfolding text_eq
find_labelled label [] = none
find_labelled label (p ∷ ps) =
    let rest = find_labelled label ps in
    if text_eq p.info.label label && p.info.running then some p.info.id else rest

-- A started process is a new one.
abbrev pub created : Outcome Process ℕ → Outcome Process (ℕ × Bool)
created (ok id, n) = (ok (id, true), n)
created (err e, n) = (err e, n)

-- `Ensure`, with whether a process was started. The first argument is the table of processes in the
-- order, another one at each call, in which `range` visits it.
unfoldable pub ensure :
    List ManagedProcess
    → StartAnswers
    → Text
    → Context
    → ProcessRequest
    → ℕ
    → Process
    → Outcome Process (ℕ × Bool)
unfolding find_labelled start
ensure order a root ctx req now m =
    elim (if is_empty (trim_space req.label)
      then none
      else find_labelled (trim_space req.label) order) [
        | some id ↦ (ok (id, false), m)
        | none ↦ created (start a root ctx true req now m)
      ]

-- `List`
abbrev pub list : Process → List ProcessInfo
list m = map (λ p. p.info) m.procs

abbrev pub present : List ManagedProcess → List ℕ → List ManagedProcess
present procs [] = []
present procs (id ∷ ids) = elim (find_process id procs) [
  | none ↦ present procs ids
  | some p ↦ p ∷ present procs ids
]

-- `groupProcesses`
unfoldable pub group_processes : Text → Process → List ManagedProcess
unfolding find_process lookup trim_space
group_processes name m = elim (lookup (trim_space name) m.groups) [
  | none ↦ []
  | some members ↦ present m.procs members
]

-- `listGroup`
abbrev pub list_group : Text → Process → List ProcessInfo
list_group name m = map (λ p. p.info) (group_processes name m)

-- The loop of `controlGroup` over the ids of the processes that it found, with all errors.
unfoldable pub control_each :
    (ℕ → Process → Process × Option Error) → List ManagedProcess → Process → Process × List Error
control_each f [] m = (m, [])
control_each f (p ∷ ps) m =
    let step = f p.info.id m in
    let rest = control_each f ps step.0 in
    (rest.0, elim step.1 [ none ↦ rest.1 | some e ↦ e ∷ rest.1 ])

-- `controlGroup`
unfoldable pub control_group :
    Text → (ℕ → Process → Process × Option Error) → Process → Process × List Error
unfolding group_processes control_each
control_group name f m = control_each f (group_processes name m) m
