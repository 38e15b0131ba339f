-- ===== src/HostProcess/Soundness.antt =====
-- hostsystem/process.go: the invariant of the manager's tables under each step.
use fluxplane_system.Prelude.{
  ℕ, ◌≤◌, ltb, ◌==◌, ◌≡◌, refl, Bool, true, false, not, List, [], ◌∷◌, Option, none, some, map,
  if_cases, length, Option-cases, inl, inr, length-append, All, arith, ltb→lt,
}
use fluxplane_system.GoText.{Text, is_empty, trim_space}
use fluxplane_system.GoMap.{lookup}
use fluxplane_system.Integers.{ℤ}
use fluxplane_system.System.{Error, Context}
use fluxplane_system.ProcessTypes.{
  ProcessSignal, terminate, kill, interrupt, pause, resume, reload, other_signal, ProcessRequest,
  ProcessInfo, ProcessEvent,
}
use fluxplane_system.HostProcess.{
  ProcessSelector, ProcessSubscription, ManagedProcess, Process, matches_process_selector,
  find_process, channel_size, deliver, broadcast, subscribe, without_sub, remove_subscription,
  remove_from_group, change_process, on_process, register, add_process, started_info, set_paused,
  signal_change, signal, detach, close_stdin, close_error, close_input, exit_change, close_done,
  exit, emit_output, without_id, store_members,
}

-- A paused process is running; a channel holds no more than it has room for.
abbrev pub IsCalm : ManagedProcess → Type 0
IsCalm p = p.info.paused ≡ true → p.info.running ≡ true

abbrev pub HasRoom : ProcessSubscription → Type 0
HasRoom s = length s.events ≤ channel_size

pub record IsSound (m : Process) : Type 0 where
  pub procs : All IsCalm m.procs
  pub subs : All HasRoom m.subs

module _ {A : Type 0} (P : A → Type 0) where
  All-map_self :
      (f : A → A) → ((a : A) → P a → P (f a)) → (xs : List A) → All P xs → All P (map f xs)
  All-map_self f h [] p = tt
  All-map_self f h (x ∷ xs) (px, p) = (h x px, All-map_self f h xs p)

change_process-All :
    (P : ManagedProcess → Type 0) (id : ℕ) (f : ManagedProcess → ManagedProcess)
    → ((p : ManagedProcess) → P p → P (f p))
    → (ps : List ManagedProcess) → All P ps
    → All P (change_process id f ps)
unfolding change_process
change_process-All P id f h [] q = tt
change_process-All P id f h (p ∷ ps) (q, qs) =
    (if_cases P (p.info.id == id) _ _ (λ _. h p q) (λ _. q), change_process-All P id f h ps qs)

on_process-IsSound :
    (id : ℕ) (f : ManagedProcess → ManagedProcess) (m : Process)
    → ((p : ManagedProcess) → IsCalm p → IsCalm (f p))
    → IsSound m
    → IsSound (on_process id f m)
on_process-IsSound id f m h s = record {
  procs = change_process-All IsCalm id f h m.procs s.procs;
  subs = s.subs;
}

deliver-HasRoom :
    (info : ProcessInfo) (e : ProcessEvent) (s : ProcessSubscription)
    → HasRoom s
    → HasRoom (deliver info e s)
unfolding deliver
deliver-HasRoom info e s h =
    if_cases HasRoom (not (matches_process_selector s.selector info e)) _ _ (λ _. h)
      (λ _.
        if_cases HasRoom (ltb (length s.events) channel_size) _ _
          (λ room.
            let longer = length-append s.events (e ∷ []) in
            let below = ltb→lt (length s.events) channel_size room in omega arith)
          (λ _. h))

broadcast-IsSound : (e : ProcessEvent) (m : Process) → IsSound m → IsSound (broadcast e m)
unfolding broadcast
broadcast-IsSound e m s = go (find_process e.process_id m.procs)
  where
    go :
        (found : Option ManagedProcess)
        → IsSound
            (elim found [ none ↦ m | some p ↦ record m { subs = map (deliver p.info e) m.subs } ])
    go none = s
    go (some p) = record {
      procs = s.procs;
      subs = All-map_self HasRoom (deliver p.info e) (deliver-HasRoom p.info e) m.subs s.subs;
    }

pub subscribe-IsSound :
    (selector : ProcessSelector) (m : Process) → IsSound m → IsSound (subscribe selector m)
unfolding subscribe
subscribe-IsSound selector m s = record { procs = s.procs; subs = (omega arith, s.subs) }

without_sub-All :
    (id : ℕ) (ss : List ProcessSubscription) → All HasRoom ss → All HasRoom (without_sub id ss)
unfolding without_sub
without_sub-All id [] h = tt
without_sub-All id (s ∷ ss) (h, hs) =
    if_cases (All HasRoom) (s.id == id) _ _ (λ _. without_sub-All id ss hs)
      (λ _. (h, without_sub-All id ss hs))

pub remove_subscription-IsSound :
    (id : ℕ) (m : Process) → IsSound m → IsSound (remove_subscription id m)
unfolding remove_subscription
remove_subscription-IsSound id m s = record {
  procs = s.procs;
  subs = without_sub-All id m.subs s.subs;
}

remove_from_group-IsSound :
    (raw : Text) (id : ℕ) (m : Process) → IsSound m → IsSound (remove_from_group raw id m)
unfolding remove_from_group
remove_from_group-IsSound raw id m s =
    if_cases IsSound (is_empty (trim_space raw)) _ _ (λ _. s)
      (λ _. go (lookup (trim_space raw) m.groups))
  where
    go :
        (members : Option (List ℕ))
        → IsSound (elim members [
          | none ↦ m
          | some ids ↦ record m {
            groups = store_members (trim_space raw) (without_id id ids) m.groups;
          }
        ])
    go none = s
    go (some ids) = record { procs = s.procs; subs = s.subs }

add_process-IsSound :
    (interactive : Bool) (req : ProcessRequest) (workdir : Text) (now : ℕ) (m : Process)
    → IsSound m
    → IsSound (add_process interactive req workdir now m)
unfolding add_process started_info
add_process-IsSound interactive req workdir now m s = record {
  procs = (λ _. refl, s.procs);
  subs = s.subs;
}

pub register-IsSound :
    (interactive : Bool) (req : ProcessRequest) (workdir : Text) (now : ℕ) (m : Process)
    → IsSound m
    → IsSound (register interactive req workdir now m)
unfolding register
register-IsSound interactive req workdir now m s =
    broadcast-IsSound _ _ (add_process-IsSound interactive req workdir now m s)

set_paused-IsCalm : (value : Bool) (p : ManagedProcess) → IsCalm (set_paused value p)
unfolding set_paused
set_paused-IsCalm value p h = ground arith

signal_change-IsCalm :
    (sig : ProcessSignal) (p : ManagedProcess) → IsCalm p → IsCalm (signal_change sig p)
unfolding signal_change
signal_change-IsCalm terminate p h = h
signal_change-IsCalm kill p h = h
signal_change-IsCalm pause p h = set_paused-IsCalm true p
signal_change-IsCalm resume p h = set_paused-IsCalm false p
signal_change-IsCalm interrupt p h = h
signal_change-IsCalm reload p h = h
signal_change-IsCalm (other_signal _) p h = h

pub signal-IsSound :
    (c : Context) (refused : Option Error) (sig : ProcessSignal) (now id : ℕ) (m : Process)
    → IsSound m
    → IsSound (signal c refused sig now id m).0
unfolding signal
signal-IsSound (some e) refused sig now id m s = s
signal-IsSound none (some e) sig now id m s = s
signal-IsSound none none sig now id m s =
    broadcast-IsSound _ _ (on_process-IsSound id (signal_change sig) m (signal_change-IsCalm sig) s)

pub detach-IsSound : (now id : ℕ) (m : Process) → IsSound m → IsSound (detach now id m)
unfolding detach
detach-IsSound now id m s = broadcast-IsSound _ _ (on_process-IsSound id _ m (λ p h. h) s)

pub close_input-IsSound :
    (c : Context) (refused : Option Error) (now id : ℕ) (m : Process)
    → IsSound m
    → IsSound (close_input c refused now id m).0
unfolding close_input
close_input-IsSound (some e) refused now id m s = s
close_input-IsSound none refused now id m s = elim (Option-cases (close_error refused id m.procs)) [
  | inr (e, h) ↦ rw (h, close_input) (on_process-IsSound id close_stdin m (λ p k. k) s)
  | inl h ↦
      rw (h, close_input) (broadcast-IsSound _ _ (on_process-IsSound id close_stdin m (λ p k. k) s))
]

exit_change-IsCalm :
    (now : ℕ) (code : ℤ) (failed : Bool) (p : ManagedProcess)
    → IsCalm (exit_change now code failed p)
unfolding exit_change
exit_change-IsCalm now code failed p h = h

pub exit-IsSound :
    (now : ℕ) (code : ℤ) (failed : Bool) (code_text : List ℕ) (id : ℕ) (m : Process)
    → IsSound m
    → IsSound (exit now code failed code_text id m)
unfolding exit
exit-IsSound now code failed code_text id m s = go (find_process id m.procs) refl
  where
    ended : IsSound (on_process id (exit_change now code failed) m)
    ended =
        on_process-IsSound id (exit_change now code failed) m
          (λ p _. exit_change-IsCalm now code failed p) s

    go :
        (found : Option ManagedProcess)
        → find_process id m.procs ≡ found
        → IsSound (exit now code failed code_text id m)
    go none h = rw (h, exit) s
    go (some p) h =
        rw (h, exit)
          (on_process-IsSound id close_done _ (λ q k. k)
            (broadcast-IsSound _ _ (remove_from_group-IsSound p.info.group id _ ended)))

pub emit_output-IsSound :
    (now : ℕ) (stream : Text) (content : List ℕ) (id : ℕ) (m : Process)
    → IsSound m
    → IsSound (emit_output now stream content id m)
unfolding emit_output
emit_output-IsSound now stream [] id m s = s
emit_output-IsSound now stream (b ∷ bs) id m s = broadcast-IsSound _ m s
