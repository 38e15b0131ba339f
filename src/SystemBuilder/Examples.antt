-- ===== src/SystemBuilder/Examples.antt =====
-- The theorem on the builder's errors at concrete calls.
use fluxplane_system.Prelude.{◌≡◌, refl, false, [], ◌∷◌, ◌++◌, none, some}
use fluxplane_system.GoText.{Unicode}
use fluxplane_system.System.{ok, err, not_exist}
use fluxplane_system.HostFiles.{Os}
use fluxplane_system.SystemBuilder.{
  failed, nil_network, HostParts, with_network, with_clock, with_host_environment, new_system,
  apply_all, build,
}
use fluxplane_system.SystemBuilder.Unsupported.{
  unsupported_network, unsupported_process, unsupported_environment,
}
use fluxplane_system.SystemBuilder.Errors.{build-first_error}

abbrev no_letters : Unicode
no_letters = record { is_letter = λ _. false; is_digit = λ _. false }

-- An operating system without files.
abbrev empty_host : Os (Unit {0})
empty_host = record {
  eval_symlinks = λ path _. ok path;
  rel = λ _ _. err not_exist;
  lstat = λ _ _. err not_exist;
  stat = λ _ _. err not_exist;
  open_file = λ _ _. err not_exist;
  read_dir = λ _ _. err not_exist;
  read_file = λ _ _. err not_exist;
  mkdir_all = λ _ _ s. (ok tt, s);
  open_write = λ _ _ _ s. (err not_exist, s);
  write = λ _ _ s. (err not_exist, s);
  close = λ _ s. (ok tt, s);
  create_temp = λ _ _ s. (err not_exist, s);
  chmod = λ _ _ s. (err not_exist, s);
  remove = λ _ s. (err not_exist, s);
  rename = λ _ _ s. (err not_exist, s);
  mkdir_temp = λ _ _ s. (err not_exist, s);
  remove_all = λ _ s. (ok tt, s);
}

abbrev parts : HostParts (Unit {0}) (Unit {0}) (Unit {0}) (Unit {0}) (Unit {0}) (Unit {0})
parts = record {
  os = empty_host;
  fuel = 1;
  abs = λ path. ok path;
  files = tt;
  network = λ _. unsupported_network;
  process = λ _ _. unsupported_process;
  environment = unsupported_environment;
  real_clock = tt;
}

without_network_error :
    (apply_all no_letters parts (with_network none ∷ []) (new_system no_letters parts)).error
    ≡ some nil_network
unfolding apply_all new_system
without_network_error = refl

build-first_error_example :
    build no_letters parts (
      apply_all no_letters parts
        ((with_network none ∷ []) ++ (with_clock none ∷ with_host_environment ∷ []))
        (new_system no_letters parts))
    ≡ failed nil_network
build-first_error_example =
    build-first_error no_letters parts (with_network none ∷ [])
      (with_clock none ∷ with_host_environment ∷ []) (new_system no_letters parts) nil_network
      without_network_error
