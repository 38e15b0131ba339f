-- ===== src/ProcessCapture.antt =====
-- process_capture.go: collecting the output of one process from its stream of events, up to a limit
-- for each of its two streams. Data are lists of bytes.
pub mod Laws
use fluxplane_system.Prelude.{
  ℕ, ◌+◌, ◌-◌, ◌*◌, leb, ltb, ◌==◌, Bool, true, false, not, ◌&&◌, ◌||◌, List, [], ◌∷◌, ◌++◌, Option,
  none, some, if◌then◌else◌, length, take,
}
use fluxplane_system.GoText.{Text, codes, text_eq, is_empty, trim_space}
use fluxplane_system.System.{Error, Result, ok, err, Bytes, Context}
use fluxplane_system.ProcessTypes.{EventKind, output, ProcessEvent, ProcessRequest, ProcessResult}

-- A builder with the size that the loop keeps beside it, and whether something was cut off.
pub record Captured : Type 0 where
  pub builder : Bytes
  pub size : ℕ
  pub truncated : Bool

abbrev pub nothing_captured : Captured
nothing_captured = record { builder = []; size = 0; truncated = false }

-- `appendCaptured`; `remaining <= 0` is `maxBytes <= size`.
unfoldable pub append_captured : ℕ → Bytes → Captured → Captured
unfolding is_empty
append_captured max_bytes content c =
    if c.truncated || is_empty content
    then c
    else if leb max_bytes c.size
    then record c { truncated = true }
    else if ltb (max_bytes - c.size) (length content)
    then record {
      builder = c.builder ++ take (max_bytes - c.size) content;
      size = max_bytes;
      truncated = true;
    }
    else record {
      builder = c.builder ++ content;
      size = c.size + length content;
      truncated = false;
    }

pub record Capture : Type 0 where
  pub stdout : Captured
  pub stderr : Captured

abbrev pub is_output : EventKind → Bool
is_output output = true
is_output _ = false

-- `event.ProcessID != processID || event.Kind != ProcessEventOutput`, negated.
abbrev pub is_wanted : ℕ → ProcessEvent → Bool
is_wanted id e = e.process_id == id && is_output e.kind

unfoldable pub collect_event : ℕ → ℕ → ProcessEvent → Capture → Capture
unfolding append_captured text_eq
collect_event id max_bytes e c =
    if not (is_wanted id e)
    then c
    else if text_eq e.stream (codes "stdout")
    then record c { stdout = append_captured max_bytes e.content c.stdout }
    else if text_eq e.stream (codes "stderr")
    then record c { stderr = append_captured max_bytes e.content c.stderr }
    else c

-- The loop over the channel of events, which ends when the subscription is closed.
unfoldable pub collect_events : ℕ → ℕ → List ProcessEvent → Capture → Capture
unfolding collect_event
collect_events id max_bytes [] c = c
collect_events id max_bytes (e ∷ es) c =
    collect_events id max_bytes es (collect_event id max_bytes e c)

-- The parts of `RunProcessCapture` that do not wait. 0 stands for a limit that is not positive.
abbrev pub default_capture_limit : ℕ
default_capture_limit = 1048576

unfoldable pub capture_limit : ℕ → ℕ
capture_limit max_bytes = if max_bytes == 0 then default_capture_limit else max_bytes

-- The result of the process, with the captured output in place of its own.
unfoldable pub with_capture : ProcessResult → Capture → ProcessResult
with_capture result c = record result {
  stdout = c.stdout.builder;
  stderr = c.stderr.builder;
  stdout_truncated = c.stdout.truncated;
  stderr_truncated = c.stderr.truncated;
}

-- What the process manager did: the handle's id or the error of `Start`, the events of the group up
-- to the end of the subscription, and the result of `Wait` with its error.
pub record Execution : Type 0 where
  pub handle : Result ℕ
  pub events : List ProcessEvent
  pub result : ProcessResult
  pub wait_error : Option Error

unfoldable pub run_process_capture : ℕ → Execution → Result ProcessResult × Option Error
unfolding collect_events capture_limit with_capture
run_process_capture max_bytes x = elim x.handle [
  | err e ↦ (err e, none)
  | ok id ↦ (
    ok (
        with_capture x.result (
          collect_events id (capture_limit max_bytes) x.events
            (record { stdout = nothing_captured; stderr = nothing_captured }))),
    x.wait_error,
  )
]
