-- ===== src/Capabilities.antt =====
-- network.go, process.go and system.go: the other interfaces, as records of operations. Those on
-- processes go over the state that a manager keeps; a process is named by its number, and `none` is a
-- nil channel. Connections and the records of name servers are types of the standard library.
use fluxplane_system.Prelude.{ℕ, Bool, List, Option}
use fluxplane_system.GoText.{Text}
use fluxplane_system.System.{Result, Context, Bytes, Outcome, FileSystem}
use fluxplane_system.ProcessTypes.{ProcessSignal, ProcessRequest, ProcessInfo, ProcessResult}

pub record Resolver (Mx Srv : Type 0) : Type 0 where
  pub lookup_host : Context → Text → Result (List Text)
  pub lookup_ip_addr : Context → Text → Result (List Bytes)
  pub lookup_cname : Context → Text → Result Text
  pub lookup_mx : Context → Text → Result (List Mx)
  pub lookup_srv : Context → Text → Text → Text → Result (Text × List Srv)
  pub lookup_txt : Context → Text → Result (List Text)

pub record Network (Conn Mx Srv : Type 0) : Type 0 where
  pub dial_context : Context → Text → Text → Result Conn
  pub resolver : Resolver Mx Srv

-- The value of a variable, if it is set.
pub record Environment : Type 0 where
  pub lookup : Context → Text → Result (Option Text)

pub record ProcessControl (T : Type 0) : Type 0 where
  pub subscribe : Context → T → Option ℕ × T
  pub wait : Context → T → Outcome T ProcessResult
  pub stop : Context → T → Outcome T (Unit {0})
  pub kill : Context → T → Outcome T (Unit {0})
  pub signal : Context → ProcessSignal → T → Outcome T (Unit {0})
  pub interrupt : Context → T → Outcome T (Unit {0})
  pub reload : Context → T → Outcome T (Unit {0})
  pub pause : Context → T → Outcome T (Unit {0})
  pub resume : Context → T → Outcome T (Unit {0})
  pub write : Context → Bytes → T → Outcome T ℕ
  pub close_input : Context → T → Outcome T (Unit {0})
  pub restart : Context → T → Outcome T ℕ
  pub detach : Context → T → Outcome T (Unit {0})

pub record ProcessGroup (T : Type 0) : Type 0 where
  pub name : Text
  pub list : Context → T → Result (List ProcessInfo)
  pub control : ProcessControl T

pub record ProcessManager (T : Type 0) : Type 0 where
  pub run : Context → ProcessRequest → T → Outcome T ProcessResult
  pub start : Context → ProcessRequest → T → Outcome T ℕ
  pub ensure : Context → ProcessRequest → T → Outcome T (ℕ × Bool)
  pub group : Text → ProcessGroup T
  pub list : Context → T → Result (List ProcessInfo)

-- The interface `System`; `none` is a nil capability.
pub record System (S T Conn Mx Srv Clock : Type 0) : Type 0 where
  pub file_system : Option (FileSystem S)
  pub network : Option (Network Conn Mx Srv)
  pub process : Option (ProcessManager T)
  pub environment : Option Environment
  pub clock : Option Clock
