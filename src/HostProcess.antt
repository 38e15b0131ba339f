-- ===== src/HostProcess.antt =====
-- hostsystem/process.go: the manager's tables of processes, groups and subscriptions, and the steps
-- that change them. Steps run under the locks of the source, one after the other. An id `proc-<n>`
-- is its number n; the operating system is a parameter of the steps, by the error it gives.
pub mod Soundness
pub mod Steps
pub mod Groups
pub mod Control
pub mod Labels
use fluxplane_system.Prelude.{
  ℕ, zero, suc, ◌+◌, ltb, ◌==◌, Bool, true, false, not, ◌&&◌, ◌||◌, List, [], ◌∷◌, ◌++◌, Option,
  none, some, map, any, if◌then◌else◌, length,
}
use fluxplane_system.GoText.{Text, text_eq, is_empty, codes, contains_any, trim_space}
use fluxplane_system.GoMap.{GoMap, lookup, insert, delete}
use fluxplane_system.Integers.{ℤ, pos}
use fluxplane_system.System.{Error, Context}
use fluxplane_system.EnvHelpers.{trim_strings}
use fluxplane_system.ProcessTypes.{
  ProcessSignal, terminate, kill, interrupt, pause, resume, reload, other_signal, EventKind,
  started, output, exited, stopped, killed, signaled, interrupted, reloaded, paused, resumed,
  input_closed, detached, ProcessRequest, ProcessInfo, ProcessEvent,
}

-- `processSelector`; IDs are numbers, so trimming leaves them.
pub record ProcessSelector : Type 0 where
  pub ids : List ℕ
  pub groups : List Text
  pub labels : List Text
  pub streams : List Text

-- A subscription, with what its channel holds.
pub record ProcessSubscription : Type 0 where
  pub id : ℕ
  pub selector : ProcessSelector
  pub events : List ProcessEvent

-- The state of a managed process that outlives a call; `canceled` is that of its control context.
pub record ManagedProcess : Type 0 where
  pub info : ProcessInfo
  pub stdin_open : Bool
  pub canceled : Bool
  pub done : Bool

pub record Process : Type 0 where
  pub next_id : ℕ
  pub next_sub_id : ℕ
  pub procs : List ManagedProcess
  pub groups : GoMap (List ℕ)
  pub subs : List ProcessSubscription

abbrev pub new_process : Process
new_process = record { next_id = 0; next_sub_id = 0; procs = []; groups = []; subs = [] }

unfoldable pub normalize_process_selector : ProcessSelector → ProcessSelector
normalize_process_selector s = record s {
  groups = trim_strings s.groups;
  labels = trim_strings s.labels;
  streams = trim_strings s.streams;
}

abbrev pub matches_id : List ℕ → ℕ → Bool
matches_id [] value = true
matches_id (v ∷ vs) value = any (λ candidate. candidate == value) (v ∷ vs)

unfoldable pub matches_string_selector : List Text → Text → Bool
matches_string_selector [] value = true
matches_string_selector (v ∷ vs) value = any (λ candidate. text_eq candidate value) (v ∷ vs)

unfoldable pub matches_process_selector : ProcessSelector → ProcessInfo → ProcessEvent → Bool
matches_process_selector s info e =
    matches_id s.ids info.id
    && matches_string_selector s.groups info.group
    && matches_string_selector s.labels info.label
    && matches_string_selector s.streams e.stream

unfoldable pub find_process : ℕ → List ManagedProcess → Option ManagedProcess
find_process id [] = none
find_process id (p ∷ ps) = if p.info.id == id then some p else find_process id ps

-- The channel has room for 128 events; one that finds it full is lost.
abbrev pub channel_size : ℕ
channel_size = 128

unfoldable pub deliver : ProcessInfo → ProcessEvent → ProcessSubscription → ProcessSubscription
deliver info e sub =
    if not (matches_process_selector sub.selector info e)
    then sub
    else if ltb (length sub.events) channel_size
    then record sub { events = sub.events ++ (e ∷ []) }
    else sub

unfoldable pub broadcast : ProcessEvent → Process → Process
unfolding find_process
broadcast e m = elim (find_process e.process_id m.procs) [
  | none ↦ m
  | some p ↦ record m { subs = map (deliver p.info e) m.subs }
]

unfoldable pub subscribe : ProcessSelector → Process → Process
subscribe selector m = record m {
  next_sub_id = suc m.next_sub_id;
  subs =
      record { id = suc m.next_sub_id; selector = normalize_process_selector selector; events = [] }
      ∷ m.subs;
}

unfoldable pub without_sub : ℕ → List ProcessSubscription → List ProcessSubscription
without_sub id [] = []
without_sub id (s ∷ ss) = let rest = without_sub id ss in if s.id == id then rest else s ∷ rest

unfoldable pub remove_subscription : ℕ → Process → Process
unfolding without_sub
remove_subscription id m = record m { subs = without_sub id m.subs }

unfoldable pub without_id : ℕ → List ℕ → List ℕ
without_id id [] = []
without_id id (n ∷ ns) = let rest = without_id id ns in if n == id then rest else n ∷ rest

abbrev pub store_members : Text → List ℕ → GoMap (List ℕ) → GoMap (List ℕ)
store_members name [] groups = delete name groups
store_members name (n ∷ ns) groups = insert name (n ∷ ns) groups

unfoldable pub remove_from_group : Text → ℕ → Process → Process
unfolding without_id
remove_from_group raw id m =
    let name = trim_space raw in
    if is_empty name then m else elim (lookup name m.groups) [
      | none ↦ m
      | some members ↦ record m { groups = store_members name (without_id id members) m.groups }
    ]

-- A change of the process with an id.
unfoldable pub change_process :
    ℕ → (ManagedProcess → ManagedProcess) → List ManagedProcess → List ManagedProcess
change_process id f [] = []
change_process id f (p ∷ ps) = (if p.info.id == id then f p else p) ∷ change_process id f ps

abbrev pub on_process : ℕ → (ManagedProcess → ManagedProcess) → Process → Process
on_process id f m = record m { procs = change_process id f m.procs }

abbrev pub event : ℕ → EventKind → Text → List ℕ → ℕ → ProcessEvent
event id kind stream content now = record {
  process_id = id;
  kind = kind;
  stream = stream;
  content = content;
  time = now;
}

-- What `start` asks for before it reaches the operating system.
pub data CommandError : Type 0 where
  command_empty shell_syntax : CommandError

unfoldable pub check_command : Text → Option CommandError
check_command raw =
    if is_empty (trim_space raw)
    then some command_empty
    else if contains_any (10 ∷ 13 ∷ codes ";&|<>$`") (trim_space raw)
    then some shell_syntax
    else none

unfoldable pub started_info : ℕ → ProcessRequest → Text → ℕ → ProcessInfo
started_info id req workdir now = record {
  id = id;
  label = trim_space req.label;
  group = trim_space req.group;
  tags = trim_strings req.tags;
  metadata = req.metadata;
  command = trim_space req.command;
  args = req.args;
  workdir = workdir;
  started_at = now;
  ended_at = 0;
  running = true;
  paused = false;
  exit_code = pos 0;
  failed = false;
  detached = req.detached;
}

unfoldable pub join_group : Text → ℕ → GoMap (List ℕ) → GoMap (List ℕ)
join_group group id groups =
    if is_empty group
    then groups
    else insert group (id ∷ elim (lookup group groups) [ none ↦ [] | some members ↦ members ])
        groups

-- The tables with the new process in them.
unfoldable pub add_process : Bool → ProcessRequest → Text → ℕ → Process → Process
unfolding started_info join_group
add_process interactive req workdir now m =
    let id = suc m.next_id in
    let proc : ManagedProcess = record {
      info = started_info id req workdir now;
      stdin_open = interactive;
      canceled = false;
      done = false;
    } in
    record m {
      next_id = id;
      procs = proc ∷ m.procs;
      groups = join_group (trim_space req.group) id m.groups;
    }

-- `start` from `nextID.Add(1)` on, for a command that the operating system starts.
unfoldable pub register : Bool → ProcessRequest → Text → ℕ → Process → Process
unfolding broadcast add_process
register interactive req workdir now m =
    broadcast (event (suc m.next_id) started [] [] now) (add_process interactive req workdir now m)

unfoldable pub set_paused : Bool → ManagedProcess → ManagedProcess
set_paused value p = record p { info = record p.info { paused = p.info.running && value } }

abbrev pub signal_event : ProcessSignal → EventKind
signal_event terminate = stopped
signal_event kill = killed
signal_event interrupt = interrupted
signal_event reload = reloaded
signal_event pause = paused
signal_event resume = resumed
signal_event (other_signal _) = signaled

-- What a delivered signal changes in the process.
unfoldable pub signal_change : ProcessSignal → ManagedProcess → ManagedProcess
unfolding set_paused
signal_change terminate p = record p { canceled = true }
signal_change kill p = record p { canceled = true }
signal_change pause p = set_paused true p
signal_change resume p = set_paused false p
signal_change interrupt p = p
signal_change reload p = p
signal_change (other_signal _) p = p

-- `string(signal)`, the data of the event; of another signal its code points.
abbrev pub signal_text : ProcessSignal → Text
signal_text terminate = codes "terminate"
signal_text kill = codes "kill"
signal_text interrupt = codes "interrupt"
signal_text reload = codes "reload"
signal_text pause = codes "pause"
signal_text resume = codes "resume"
signal_text (other_signal name) = name

-- `Signal` of a process: nothing but the error if the context is done or the system refuses it.
unfoldable pub signal :
    Context → Option Error → ProcessSignal → ℕ → ℕ → Process → Process × Option Error
unfolding signal_change broadcast
signal (some e) refused s now id m = (m, some e)
signal none (some e) s now id m = (m, some e)
signal none none s now id m =
    let changed = on_process id (signal_change s) m in
    (broadcast (event id (signal_event s) [] (signal_text s) now) changed, none)

abbrev set_detached : ManagedProcess → ManagedProcess
set_detached p = record p { info = record p.info { detached = true } }

unfoldable pub detach : ℕ → ℕ → Process → Process
unfolding broadcast
detach now id m = broadcast (event id detached [] [] now) (on_process id set_detached m)

abbrev pub close_stdin : ManagedProcess → ManagedProcess
close_stdin p = record p { stdin_open = false }

-- The error of closing the pipe, which only an open one can give.
unfoldable pub close_error : Option Error → ℕ → List ManagedProcess → Option Error
unfolding find_process
close_error refused id procs = elim (find_process id procs) [
  | none ↦ none
  | some p ↦ if p.stdin_open then refused else none
]

-- `CloseInput`; the input is closed whether or not that gave an error.
unfoldable pub close_input : Context → Option Error → ℕ → ℕ → Process → Process × Option Error
unfolding broadcast close_error
close_input (some e) refused now id m = (m, some e)
close_input none refused now id m = elim (close_error refused id m.procs) [
  | some e ↦ (on_process id close_stdin m, some e)
  | none ↦ (broadcast (event id input_closed [] [] now) (on_process id close_stdin m), none)
]

-- What `wait` writes down once the command has ended; `failed` is an error other than a canceled
-- context.
unfoldable pub exit_change : ℕ → ℤ → Bool → ManagedProcess → ManagedProcess
exit_change now code failed p = record p {
  info = record p.info {
    running = false;
    paused = false;
    ended_at = now;
    exit_code = code;
    failed = failed || p.info.failed;
  };
  stdin_open = false;
}

abbrev pub close_done : ManagedProcess → ManagedProcess
close_done p = record p { done = true }

-- `wait` after `cmd.Wait()` has returned. The exit code is also the data of the event.
unfoldable pub exit : ℕ → ℤ → Bool → List ℕ → ℕ → Process → Process
unfolding exit_change remove_from_group broadcast find_process
exit now code failed code_text id m = elim (find_process id m.procs) [
  | none ↦ m
  | some p ↦ on_process id close_done (
      broadcast (event id exited [] code_text now)
        (remove_from_group p.info.group id (on_process id (exit_change now code failed) m)))
]

-- A write of the command to one of its streams.
unfoldable pub emit_output : ℕ → Text → List ℕ → ℕ → Process → Process
unfolding broadcast
emit_output now stream [] id m = m
emit_output now stream (b ∷ bs) id m = broadcast (event id output stream (b ∷ bs) now) m
