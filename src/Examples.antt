-- ===== src/Examples.antt =====
-- The theorems on env files, retries, captured output and the process manager at concrete inputs.
use fluxplane_system.Prelude.{
  refl, not, ◌==◌, ℕ, ◌≡◌, true, false, ◌||◌, ◌&&◌, List, [], ◌∷◌, ◌++◌, none, some, leb, All,
}
use fluxplane_system.GoText.{Text, codes, contains_any, Unicode, is_empty, trim_space, text_eq}
use fluxplane_system.GoMap.{GoMap, lookup, insert, delete}
use fluxplane_system.Integers.{pos}
use fluxplane_system.System.{Result, ok}
use fluxplane_system.ProcessTypes.{pause, output, ProcessRequest, ProcessEvent}
use fluxplane_system.ProcessCapture.{nothing_captured, collect_events}
use fluxplane_system.ProcessCapture.Laws.{
  received, out_name, err_name, StreamsCaptured, collect_events-IsCaptured,
}
use fluxplane_system.HttpRetry.{
  default_retry_config, with_defaults, Request, Library, Trial, magnitude, round_trip,
}
use fluxplane_system.HttpRetry.Bounds.{IsBounded, longest_wait, round_trip-IsBounded}
use fluxplane_system.EnvHelpers.{parse_env_value, Scan, parse_env_file}
use fluxplane_system.EnvHelpers.RoundTrip.{escape, parse_env_value-escape}
use fluxplane_system.EnvHelpers.Keys.{OnOk, KeysValid, parse_env_file-KeysValid}
use fluxplane_system.EnvHelpers.Resolve.{Host, resolve_env_files}
use fluxplane_system.EnvHelpers.Within.{Within, AllInRoot, resolve_env_files-InRoot}
use fluxplane_system.HostProcess.{Process, new_process, register, signal, remove_from_group}
use fluxplane_system.HostProcess.Control.{StartAnswers, ensure}
use fluxplane_system.HostProcess.Labels.{IsRunningAs, ensure_labelled}
use fluxplane_system.HostEnv.{entries_of, HasKey, IsOverride, process_env, process_env-IsOverride}
use fluxplane_system.HostProcess.Groups.{in_group, in_group-remove_from_group}
use fluxplane_system.HostProcess.Soundness.{IsSound}
use fluxplane_system.HostProcess.Steps.{fresh, after, starting, signaling, Reachable-IsSound}

parse_env_value-escape_example :
    parse_env_value (34 ∷ escape (codes "a\"b") ++ (34 ∷ [])) ≡ ok (codes "a\"b")
parse_env_value-escape_example = parse_env_value-escape (codes "a\"b")

abbrev letters : Unicode
letters = record {
  is_letter = λ c. (leb 65 c && leb c 90) || (leb 97 c && leb c 122);
  is_digit = λ c. leb 48 c && leb c 57;
}

abbrev env_file : Result Scan
env_file = ok (record {
  lines = codes "# names" ∷ codes "export HOME=/root" ∷ codes "A=1 # one" ∷ [];
  failure = none;
})

parse_env_file-KeysValid_example : OnOk (KeysValid letters) (parse_env_file letters env_file)
parse_env_file-KeysValid_example = parse_env_file-KeysValid letters env_file

-- A host where every path is a file, no path is a link, and each file is directly below the root.
abbrev flat_host : Host
flat_host = record {
  stat = λ _. ok false;
  eval_symlinks = λ path. ok path;
  glob = λ pattern. ok (codes "/work/a.env" ∷ []);
  rel = λ root path. ok (codes "a.env");
}

resolve_env_files-InRoot_example :
    Within
      (AllInRoot flat_host (codes "/work"))
      (resolve_env_files flat_host (codes "/work") (codes ".env" ∷ codes "*.env" ∷ []))
resolve_env_files-InRoot_example =
    resolve_env_files-InRoot flat_host (codes "/work") (codes ".env" ∷ codes "*.env" ∷ [])

abbrev plain_library : Library
plain_library = record {
  atoi = λ _. some (pos 60);
  time_until = λ _. none;
  backoff = λ base attempt. base;
}

abbrev unavailable : ℕ → Trial
unavailable _ = record {
  reopen = none;
  response = some (record { status_code = 503; retry_after = codes "60"; has_body = true });
  error = none;
  context_done = false;
  nano = 7;
  sleep = none;
}

abbrev get_request : Request
get_request = record { method = codes "GET"; body = false; get_body = false }

round_trip-IsBounded_example :
    IsBounded
      (magnitude (with_defaults default_retry_config).max_attempts)
      (longest_wait (with_defaults default_retry_config))
      (round_trip plain_library unavailable get_request default_retry_config)
round_trip-IsBounded_example =
    round_trip-IsBounded plain_library unavailable get_request default_retry_config

abbrev written_events : List ProcessEvent
written_events =
    record { process_id = 1; kind = output; stream = out_name; content = 1 ∷ 2 ∷ 3 ∷ []; time = 0 }
    ∷ record { process_id = 2; kind = output; stream = out_name; content = 9 ∷ []; time = 0 }
    ∷ record { process_id = 1; kind = output; stream = err_name; content = 4 ∷ []; time = 0 }
    ∷ []

collect_events-IsCaptured_example :
    StreamsCaptured 2 (received 1 out_name written_events) (received 1 err_name written_events) (
      collect_events 1 2 written_events
        (record { stdout = nothing_captured; stderr = nothing_captured }))
collect_events-IsCaptured_example = collect_events-IsCaptured 1 2 written_events

abbrev sleep_request : ProcessRequest
sleep_request = record {
  command = codes "sleep";
  args = codes "9" ∷ [];
  workdir = [];
  env = [];
  timeout = 0;
  detached = false;
  label = [];
  group = codes "jobs";
  tags = [];
  metadata = [];
}

abbrev sleeping : Process
sleeping = register true sleep_request (codes "/work") 5 new_process

Reachable-IsSound_example : IsSound (signal none none pause 6 1 sleeping).0
Reachable-IsSound_example = Reachable-IsSound (signal none none pause 6 1 sleeping).0 (
    after (after fresh (starting true sleep_request (codes "/work") 5))
      (signaling none none pause 6 1))

in_group-remove_from_group_example :
    in_group (codes "jobs") 1 (remove_from_group (codes " jobs") 1 sleeping) ≡ (
      in_group (codes "jobs") 1 sleeping
      && not (
          not (is_empty (trim_space (codes " jobs")))
          && (text_eq (trim_space (codes " jobs")) (codes "jobs") && 1 == 1)))
in_group-remove_from_group_example =
    in_group-remove_from_group (codes " jobs") (codes "jobs") 1 1 sleeping

-- A host on which every command starts.
abbrev willing : StartAnswers
willing = record {
  env = ok [];
  is_dir = λ _. ok true;
  context_then = none;
  pipe = none;
  started = none;
}

abbrev server_request : ProcessRequest
server_request = record sleep_request { label = codes "server" }

abbrev serving : Process
serving = register true server_request (codes "/work") 7 new_process

new_process-ensure :
    ensure [] willing (codes "/work") none server_request 7 new_process ≡ (ok (1, true), serving)
unfolding ensure contains_any
new_process-ensure = refl

-- A second call finds the process.
serving-ensure :
    ensure serving.procs willing (codes "/work") none server_request 9 serving
    ≡ (ok (1, false), serving)
unfolding ensure
serving-ensure = refl

ensure_labelled_example : IsRunningAs (trim_space (codes "server")) 1 serving
unfolding is_empty trim_space
ensure_labelled_example =
    ensure_labelled serving.procs willing (codes "/work") none server_request 9 serving serving 1
      false (λ p there. there) refl serving-ensure

abbrev host_entries : List Text
host_entries = codes "HOME=/root" ∷ codes "=C:" ∷ []

abbrev home_override : List Text
home_override = codes "HOME=/work" ∷ []

home-process_env : process_env host_entries home_override ≡ ok home_override
unfolding process_env
home-process_env = refl

process_env-IsOverride_example :
    (values : GoMap Text) × (home_override ≡ entries_of values)
    × All HasKey values
    × All IsOverride home_override
process_env-IsOverride_example =
    process_env-IsOverride host_entries home_override home_override home-process_env

-- The group that the process was started in has it no longer.
left_group : in_group (codes "jobs") 1 (remove_from_group (codes " jobs") 1 sleeping) ≡ false
unfolding register remove_from_group text_eq lookup is_empty trim_space insert delete
left_group = refl

-- A comment starts after a letter whose last byte, alone, is a space.
comment_after_letter : parse_env_value (0xe0 ∷ codes "#1") ≡ ok (0xe0 ∷ [])
unfolding parse_env_value
comment_after_letter = refl

quoted_comment : parse_env_value (codes "'a#1'") ≡ ok (codes "a#1")
unfolding parse_env_value
quoted_comment = refl
