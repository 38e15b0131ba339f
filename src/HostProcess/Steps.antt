-- ===== src/HostProcess/Steps.antt =====
-- hostsystem/process.go: the runs of the process manager, sequences of its steps.
use fluxplane_system.Prelude.{ℕ, Bool, List, Option}
use fluxplane_system.GoText.{Text}
use fluxplane_system.Integers.{ℤ}
use fluxplane_system.System.{Error, Context}
use fluxplane_system.ProcessTypes.{ProcessSignal, ProcessRequest}
use fluxplane_system.HostProcess.{
  ProcessSelector, Process, new_process, subscribe, remove_subscription, register, signal, detach,
  close_input, exit, emit_output,
}
use fluxplane_system.HostProcess.Soundness.{
  IsSound, register-IsSound, signal-IsSound, detach-IsSound, close_input-IsSound, exit-IsSound,
  emit_output-IsSound, subscribe-IsSound, remove_subscription-IsSound,
}

pub data Step (m : Process) : Process → Type 0 where
  starting :
      (interactive : Bool) (req : ProcessRequest) (workdir : Text) (now : ℕ)
      → Step m (register interactive req workdir now m)
  signaling :
      (c : Context) (refused : Option Error) (sig : ProcessSignal) (now id : ℕ)
      → Step m (signal c refused sig now id m).0
  detaching : (now id : ℕ) → Step m (detach now id m)
  closing :
      (c : Context) (refused : Option Error) (now id : ℕ)
      → Step m (close_input c refused now id m).0
  ending :
      (now : ℕ) (code : ℤ) (failed : Bool) (code_text : List ℕ) (id : ℕ)
      → Step m (exit now code failed code_text id m)
  writing :
      (now : ℕ) (stream : Text) (content : List ℕ) (id : ℕ)
      → Step m (emit_output now stream content id m)
  subscribing : (selector : ProcessSelector) → Step m (subscribe selector m)
  leaving : (id : ℕ) → Step m (remove_subscription id m)

pub data Reachable : Process → Type 0 where
  fresh : Reachable new_process
  after : {m n : Process} → Reachable m → Step m n → Reachable n

Step-IsSound : (m n : Process) → Step m n → IsSound m → IsSound n
Step-IsSound m n (starting interactive req workdir now) s =
    register-IsSound interactive req workdir now m s
Step-IsSound m n (signaling c refused sig now id) s = signal-IsSound c refused sig now id m s
Step-IsSound m n (detaching now id) s = detach-IsSound now id m s
Step-IsSound m n (closing c refused now id) s = close_input-IsSound c refused now id m s
Step-IsSound m n (ending now code failed code_text id) s =
    exit-IsSound now code failed code_text id m s
Step-IsSound m n (writing now stream content id) s = emit_output-IsSound now stream content id m s
Step-IsSound m n (subscribing selector) s = subscribe-IsSound selector m s
Step-IsSound m n (leaving id) s = remove_subscription-IsSound id m s

-- In every state that the manager can reach from its first one, by starting, signalling, detaching
-- and ending processes, closing their input, passing on their output, and opening and closing
-- subscriptions, in any order: a process that is marked as paused is running, and no channel of a
-- subscription holds more than 128 events.
pub Reachable-IsSound : (m : Process) → Reachable m → IsSound m
Reachable-IsSound m fresh = record { procs = tt; subs = tt }
Reachable-IsSound n (after {m = m} r step) = Step-IsSound m n step (Reachable-IsSound m r)
