-- ===== src/SystemBuilder/Unsupported.antt =====
-- systemkit/builder.go: the capabilities that support nothing.
use fluxplane_system.Prelude.{[], none}
use fluxplane_system.System.{err, Outcome, FileSystem, unsupported}
use fluxplane_system.Capabilities.{Resolver, Network, Environment, ProcessGroup, ProcessManager}

-- A call that fails, and changes nothing.
abbrev pub refuse : {T A : Type 0} → T → Outcome T A
refuse s = (err unsupported, s)

unfoldable pub unsupported_resolver : {Mx Srv : Type 0} → Resolver Mx Srv
unsupported_resolver = record {
  lookup_host = λ _ _. err unsupported;
  lookup_ip_addr = λ _ _. err unsupported;
  lookup_cname = λ _ _. err unsupported;
  lookup_mx = λ _ _. err unsupported;
  lookup_srv = λ _ _ _ _. err unsupported;
  lookup_txt = λ _ _. err unsupported;
}

unfoldable pub unsupported_network : {Conn Mx Srv : Type 0} → Network Conn Mx Srv
unfolding unsupported_resolver
unsupported_network = record {
  dial_context = λ _ _ _. err unsupported;
  resolver = unsupported_resolver;
}

unfoldable pub unsupported_environment : Environment
unsupported_environment = record { lookup = λ _ _. err unsupported }

unfoldable pub unsupported_process_group : {T : Type 0} → ProcessGroup T
unsupported_process_group = record {
  name = [];
  list = λ _ _. err unsupported;
  control = record {
    subscribe = λ _ s. (none, s);
    wait = λ _ s. refuse s;
    stop = λ _ s. refuse s;
    kill = λ _ s. refuse s;
    signal = λ _ _ s. refuse s;
    interrupt = λ _ s. refuse s;
    reload = λ _ s. refuse s;
    pause = λ _ s. refuse s;
    resume = λ _ s. refuse s;
    write = λ _ _ s. refuse s;
    close_input = λ _ s. refuse s;
    restart = λ _ s. refuse s;
    detach = λ _ s. refuse s;
  };
}

unfoldable pub unsupported_process : {T : Type 0} → ProcessManager T
unfolding unsupported_process_group
unsupported_process = record {
  run = λ _ _ s. refuse s;
  start = λ _ _ s. refuse s;
  ensure = λ _ _ s. refuse s;
  group = λ _. unsupported_process_group;
  list = λ _ _. err unsupported;
}

unfoldable pub unsupported_file_system : {S : Type 0} → FileSystem S
unsupported_file_system = record {
  open_file = λ _ _. err unsupported;
  stat = λ _ _. err unsupported;
  read_dir = λ _ _. err unsupported;
  read_file = λ _ _. err unsupported;
  write_file = λ _ _ _ _ s. refuse s;
  write_temp_file = λ _ _ _ _ _ s. refuse s;
  mkdir_all = λ _ _ _ s. refuse s;
  remove = λ _ _ s. refuse s;
  rename = λ _ _ _ _ s. refuse s;
}
