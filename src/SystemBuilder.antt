-- ===== src/SystemBuilder.antt =====
-- systemkit/builder.go and facade.go: a system is assembled from capabilities, one after another. The
-- operating system, and how the host's network and process manager are made, are fields of `HostParts`.
pub mod Unsupported
pub mod Errors
mod Examples
use fluxplane_system.Prelude.{ℕ, Bool, true, List, [], ◌∷◌, Option, none, some}
use fluxplane_system.GoText.{Text, Unicode}
use fluxplane_system.System.{Error, Result, ok, err, FileSystem}
use fluxplane_system.MountFs.Roots.{Root, new}
use fluxplane_system.MountFs.Methods.{mounted}
use fluxplane_system.Integers.{pos}
use fluxplane_system.HostFiles.{Os}
use fluxplane_system.HostFiles.Methods.{host_file_system, new_root}
use fluxplane_system.HostNetwork
use fluxplane_system.HostNetwork.{new_network}
use fluxplane_system.Capabilities.{Network, Environment, ProcessManager, System}
use fluxplane_system.SystemBuilder.Unsupported.{
  unsupported_file_system, unsupported_network, unsupported_process, unsupported_environment,
}

-- The messages, without the prefix that all have.
pub data BuildError : Type 0 where
  nil_file_system nil_network nil_process nil_environment nil_clock : BuildError
  mount_failed : Error → BuildError

-- What `Build` returns.
pub data Built (F : Type 0) : Type 0 where
  failed : BuildError → Built F
  built : F → Built F

module _ (S T Conn Mx Srv Clock : Type 0) where
  pub record AssembledSystem : Type 0 where
    pub file_system : FileSystem S
    pub network : Network Conn Mx Srv
    pub process : ProcessManager T
    pub environment : Environment
    pub clock : Clock

  pub record Builder : Type 0 where
    pub sys : AssembledSystem
    pub error : Option BuildError

  pub record HostParts : Type 0 where
    pub os : Os S
    pub fuel : ℕ
    pub abs : Text → Result Text
    pub files : S
    pub network : HostNetwork.Network → Network Conn Mx Srv
    pub process : Text → Clock → ProcessManager T
    pub environment : Environment
    pub real_clock : Clock

  -- The calls on a builder.
  pub data Step : Type 0 where
    with_file_system : Option (FileSystem S) → Step
    with_host_file_system : Text → Step
    with_mounted_file_system : List Root → Step
    without_file_system : Step
    with_network : Option (Network Conn Mx Srv) → Step
    with_host_network without_network : Step
    with_process : Option (ProcessManager T) → Step
    with_host_process : Text → Step
    without_process : Step
    with_environment : Option Environment → Step
    with_host_environment without_environment : Step
    with_clock : Option Clock → Step
    with_real_clock : Step

module _ {S T Conn Mx Srv Clock : Type 0} (u : Unicode)
    (parts : HostParts S T Conn Mx Srv Clock) where
  abbrev pub B : Type 0
  B = Builder S T Conn Mx Srv Clock

  -- `NewSystem`
  unfoldable pub new_system : B
  unfolding unsupported_file_system unsupported_network unsupported_process unsupported_environment
  new_system = record {
    sys = record {
      file_system = unsupported_file_system;
      network = unsupported_network;
      process = unsupported_process;
      environment = unsupported_environment;
      clock = parts.real_clock;
    };
    error = none;
  }

  -- `withError`: the first error stays.
  unfoldable pub with_error : BuildError → B → B
  with_error e b = elim b.error [ none ↦ record b { error = some e } | some _ ↦ b ]

  abbrev pub set_file_system : FileSystem S → B → B
  set_file_system fs b = record b { sys = record b.sys { file_system = fs } }

  abbrev pub set_network : Network Conn Mx Srv → B → B
  set_network n b = record b { sys = record b.sys { network = n } }

  abbrev pub set_process : ProcessManager T → B → B
  set_process p b = record b { sys = record b.sys { process = p } }

  abbrev pub set_environment : Environment → B → B
  set_environment e b = record b { sys = record b.sys { environment = e } }

  abbrev pub set_clock : Clock → B → B
  set_clock c b = record b { sys = record b.sys { clock = c } }

  -- `NewFileSystem`, on the host's files at the time.
  unfoldable pub host_files : Text → FileSystem S
  unfolding host_file_system
  host_files root =
      host_file_system parts.os parts.fuel (new_root parts.os parts.abs root parts.files)

  abbrev pub private_network : HostNetwork.Network
  private_network = new_network (record { dial_timeout = pos 0; allow_private = true })

  -- One call.
  unfoldable pub apply : Step S T Conn Mx Srv Clock → B → B
  unfolding with_error host_files unsupported_file_system unsupported_network unsupported_process
      unsupported_environment
  apply (with_file_system none) b = with_error nil_file_system b
  apply (with_file_system (some fs)) b = set_file_system fs b
  apply (with_host_file_system root) b = set_file_system (host_files root) b
  apply (with_mounted_file_system roots) b = elim (new u (some b.sys.file_system) roots) [
    | err e ↦ with_error (mount_failed e) b
    | ok m ↦ set_file_system (mounted m) b
  ]
  apply without_file_system b = set_file_system unsupported_file_system b
  apply (with_network none) b = with_error nil_network b
  apply (with_network (some n)) b = set_network n b
  apply with_host_network b = set_network (parts.network private_network) b
  apply without_network b = set_network unsupported_network b
  apply (with_process none) b = with_error nil_process b
  apply (with_process (some p)) b = set_process p b
  apply (with_host_process root) b = set_process (parts.process root b.sys.clock) b
  apply without_process b = set_process unsupported_process b
  apply (with_environment none) b = with_error nil_environment b
  apply (with_environment (some e)) b = set_environment e b
  apply with_host_environment b = set_environment parts.environment b
  apply without_environment b = set_environment unsupported_environment b
  apply (with_clock none) b = with_error nil_clock b
  apply (with_clock (some c)) b = set_clock c b
  apply with_real_clock b = set_clock parts.real_clock b

  -- The calls in their order.
  unfoldable pub apply_all : List (Step S T Conn Mx Srv Clock) → B → B
  unfolding apply
  apply_all [] b = b
  apply_all (step ∷ steps) b = apply_all steps (apply step b)

  -- `Build`, and the system that the facade wraps.
  unfoldable pub build : B → Built (System S T Conn Mx Srv Clock)
  build b = elim b.error [
    | some e ↦ failed e
    | none ↦ built (record {
      file_system = some b.sys.file_system;
      network = some b.sys.network;
      process = some b.sys.process;
      environment = some b.sys.environment;
      clock = some b.sys.clock;
    })
  ]

  abbrev pub first_clock : Option Clock → Clock
  first_clock none = parts.real_clock
  first_clock (some clock) = clock

  -- `NewHost`
  unfoldable pub new_host : Text → Option Clock → Built (System S T Conn Mx Srv Clock)
  unfolding apply_all build new_system
  new_host root clock = build (
      apply_all
        (with_host_file_system root
          ∷ with_host_network
          ∷ with_host_environment
          ∷ with_clock (some (first_clock clock))
          ∷ with_host_process root
          ∷ [])
        new_system)
