-- ===== src/ProcessTypes.antt =====
-- process.go: requests, information, events and results of processes.
use fluxplane_system.Prelude.{ℕ, Bool, List, ◌++◌}
use fluxplane_system.GoText.{Text, codes}
use fluxplane_system.GoMap.{GoMap}
use fluxplane_system.Integers.{ℤ}

-- The string type `ProcessSignal`.
pub data ProcessSignal : Type 0 where
  terminate kill interrupt pause resume reload : ProcessSignal
  other_signal : Text → ProcessSignal

-- The kinds of events, by their constants.
pub data EventKind : Type 0 where
  started output exited stopped killed signaled interrupted reloaded paused resumed : EventKind
  input input_closed restarted detached : EventKind

-- Times and durations are nanoseconds; 0 stands for a timeout that is not positive.
pub record ProcessRequest : Type 0 where
  pub command : Text
  pub args : List Text
  pub workdir : Text
  pub env : List Text
  pub timeout : ℕ
  pub detached : Bool
  pub label : Text
  pub group : Text
  pub tags : List Text
  pub metadata : GoMap Text

pub record ProcessInfo : Type 0 where
  pub id : ℕ
  pub label : Text
  pub group : Text
  pub tags : List Text
  pub metadata : GoMap Text
  pub command : Text
  pub args : List Text
  pub workdir : Text
  pub started_at : ℕ
  pub ended_at : ℕ
  pub running : Bool
  pub paused : Bool
  pub exit_code : ℤ
  pub failed : Bool
  pub detached : Bool

pub record ProcessEvent : Type 0 where
  pub process_id : ℕ
  pub kind : EventKind
  pub stream : Text
  pub content : List ℕ
  pub time : ℕ

pub record ProcessResult : Type 0 where
  pub exit_code : ℤ
  pub timed_out : Bool
  pub stdout : List ℕ
  pub stderr : List ℕ
  pub stdout_truncated : Bool
  pub stderr_truncated : Bool

-- The text of a kind, and the name that `EventName` gives it.
unfoldable pub kind_text : EventKind → Text
kind_text started = codes "started"
kind_text output = codes "output"
kind_text exited = codes "exited"
kind_text stopped = codes "stopped"
kind_text killed = codes "killed"
kind_text signaled = codes "signaled"
kind_text interrupted = codes "interrupted"
kind_text reloaded = codes "reloaded"
kind_text paused = codes "paused"
kind_text resumed = codes "resumed"
kind_text input = codes "input"
kind_text input_closed = codes "input_closed"
kind_text restarted = codes "restarted"
kind_text detached = codes "detached"

unfoldable pub event_name : ProcessEvent → Text
unfolding kind_text
event_name e = elim e.kind [
  | started ↦ codes "process.started"
  | exited ↦ codes "process.exited"
  | kind ↦ codes "process." ++ kind_text kind
]
