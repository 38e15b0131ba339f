-- ===== src/SystemBuilder/Errors.antt =====
-- systemkit/builder.go: the builder's error.
use fluxplane_system.Prelude.{◌≡◌, refl, List, [], ◌∷◌, ◌++◌, none, some, inl, inr}
use fluxplane_system.GoText.{Unicode}
use fluxplane_system.System.{Result-cases}
use fluxplane_system.MountFs.Roots.{new}
use fluxplane_system.SystemBuilder.{
  BuildError, failed, Builder, HostParts, Step, with_file_system, with_host_file_system,
  with_mounted_file_system, without_file_system, with_network, with_host_network, without_network,
  with_process, with_host_process, without_process, with_environment, with_host_environment,
  without_environment, with_clock, with_real_clock, with_error, apply, apply_all, build,
}

module _ {S T Conn Mx Srv Clock : Type 0} (u : Unicode)
    (parts : HostParts S T Conn Mx Srv Clock) where
  with_error_stays :
      (b : Builder S T Conn Mx Srv Clock) (e f : BuildError)
      → b.error ≡ some e
      → (with_error u parts f b).error ≡ some e
  unfolding with_error
  with_error_stays b e f h = rw (h, with_error) h

  apply_stays :
      (step : Step S T Conn Mx Srv Clock) (b : Builder S T Conn Mx Srv Clock) (e : BuildError)
      → b.error ≡ some e
      → (apply u parts step b).error ≡ some e
  unfolding apply
  apply_stays (with_file_system none) b e h = with_error_stays b e _ h
  apply_stays (with_file_system (some fs)) b e h = h
  apply_stays (with_host_file_system root) b e h = h
  apply_stays (with_mounted_file_system roots) b e h =
      elim (Result-cases (new u (some b.sys.file_system) roots)) [
        | inl (_, mounts) ↦ rw (mounts, apply) h
        | inr (_, refuses) ↦ rw (refuses, apply) (with_error_stays b e _ h)
      ]
  apply_stays without_file_system b e h = h
  apply_stays (with_network none) b e h = with_error_stays b e _ h
  apply_stays (with_network (some n)) b e h = h
  apply_stays with_host_network b e h = h
  apply_stays without_network b e h = h
  apply_stays (with_process none) b e h = with_error_stays b e _ h
  apply_stays (with_process (some p)) b e h = h
  apply_stays (with_host_process root) b e h = h
  apply_stays without_process b e h = h
  apply_stays (with_environment none) b e h = with_error_stays b e _ h
  apply_stays (with_environment (some v)) b e h = h
  apply_stays with_host_environment b e h = h
  apply_stays without_environment b e h = h
  apply_stays (with_clock none) b e h = with_error_stays b e _ h
  apply_stays (with_clock (some c)) b e h = h
  apply_stays with_real_clock b e h = h

  apply_all_stays :
      (steps : List (Step S T Conn Mx Srv Clock)) (b : Builder S T Conn Mx Srv Clock)
      (e : BuildError)
      → b.error ≡ some e
      → (apply_all u parts steps b).error ≡ some e
  unfolding apply_all
  apply_all_stays [] b e h = h
  apply_all_stays (step ∷ steps) b e h =
      apply_all_stays steps (apply u parts step b) e (apply_stays step b e h)

  apply_all-append :
      (before after : List (Step S T Conn Mx Srv Clock)) (b : Builder S T Conn Mx Srv Clock)
      → apply_all u parts (before ++ after) b ≡ apply_all u parts after (apply_all u parts before b)
  unfolding apply_all
  apply_all-append [] after b = refl
  apply_all-append (step ∷ before) after b = apply_all-append before after (apply u parts step b)

  build_failed :
      (b : Builder S T Conn Mx Srv Clock) (e : BuildError)
      → b.error ≡ some e
      → build u parts b ≡ failed e
  unfolding build
  build_failed b e h = rw (h, build) refl

  -- If some calls of a builder leave it with an error, then `Build` returns that error after any
  -- further calls, whatever they set and whatever errors they meet.
  pub build-first_error :
      (before after : List (Step S T Conn Mx Srv Clock)) (b : Builder S T Conn Mx Srv Clock)
      (e : BuildError)
      → (apply_all u parts before b).error ≡ some e
      → build u parts (apply_all u parts (before ++ after) b) ≡ failed e
  build-first_error before after b e fails = rw (apply_all-append before after b) (
      build_failed (apply_all u parts after (apply_all u parts before b)) e
        (apply_all_stays after (apply_all u parts before b) e fails))
