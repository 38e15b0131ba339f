-- ===== src/HostProcess/Labels.antt =====
-- hostsystem/process.go: `Ensure` of a request with a label.
use fluxplane_system.Prelude.{
  List, [], ◌∷◌, In, ◌&&◌, Bool-cases, arith, sym, ℕ, suc, ◌≡◌, refl, ◌∙◌, ap, Bool, true, false,
  some, Option-cases, inl, inr, subst,
}
use fluxplane_system.GoText.{text_eq, Text, is_empty, trim_space}
use fluxplane_system.GoText.Laws.{text_eq_iff}
use fluxplane_system.System.{ok, err, Context, Result-cases, ok-injective, Outcome}
use fluxplane_system.ProcessTypes.{ProcessRequest, ProcessEvent}
use fluxplane_system.HostProcess.{
  ManagedProcess, Process, find_process, broadcast, register, add_process, started_info,
}
use fluxplane_system.HostProcess.Control.{
  StartAnswers, start, find_labelled, ensure, checked_start, launched, created,
}

broadcast-procs : (e : ProcessEvent) (m : Process) → (broadcast e m).procs ≡ m.procs
unfolding broadcast
broadcast-procs e m = elim (Option-cases (find_process e.process_id m.procs)) [
  | inl none_there ↦ rw (none_there, broadcast) refl
  | inr (_, there) ↦ rw (there, broadcast) refl
]

-- A running process under the label with that id is in the table.
pub record IsRunningAs (label : Text) (id : ℕ) (m : Process) : Type 0 where
  pub process : ManagedProcess
  pub present : In process m.procs
  pub same_id : process.info.id ≡ id
  pub labelled : process.info.label ≡ label
  pub running : process.info.running ≡ true

-- What is found is a running process of the list under the label.
find_labelled-In :
    (label : Text) (id : ℕ) (ps : List ManagedProcess)
    → find_labelled label ps ≡ some id
    → (p : ManagedProcess) × In p ps
      × (p.info.id ≡ id)
      × (p.info.label ≡ label)
      × (p.info.running ≡ true)
unfolding find_labelled
find_labelled-In label id [] h = cc
find_labelled-In label id (p ∷ ps) h =
    elim (Bool-cases (text_eq p.info.label label && p.info.running)) [
      | inl taken ↦
          let h1 = rw (taken, find_labelled) at h in
          (
            p,
            inl refl,
            cc,
            (text_eq_iff p.info.label label).0 (ground (arith, taken)),
            ground (arith, taken),
          )
      | inr passed ↦
          let (q, there, same, labelled, running) =
            find_labelled-In label id ps (rw (passed, find_labelled) at h) in
          (q, inr there, same, labelled, running)
    ]

found-IsRunningAs :
    (label : Text) (id : ℕ) (order : List ManagedProcess) (m : Process)
    → ((p : ManagedProcess) → In p order → In p m.procs)
    → find_labelled label order ≡ some id
    → IsRunningAs label id m
found-IsRunningAs label id order m listed h =
    let (p, there, same, labelled, running) = find_labelled-In label id order h in
    record {
      process = p;
      present = listed p there;
      same_id = same;
      labelled = labelled;
      running = running;
    }

register-IsRunningAs :
    (interactive : Bool) (req : ProcessRequest) (workdir : Text) (now : ℕ) (m : Process)
    → IsRunningAs (trim_space req.label) (suc m.next_id) (register interactive req workdir now m)
unfolding register add_process started_info
register-IsRunningAs interactive req workdir now m =
    let procs = sym (broadcast-procs _ (add_process interactive req workdir now m)) in
    record {
      process = _;
      present = subst (In _) procs (inl refl);
      same_id = refl;
      labelled = refl;
      running = refl;
    }

start-IsRunningAs :
    (a : StartAnswers) (root : Text) (ctx : Context) (interactive : Bool) (req : ProcessRequest)
    (now : ℕ) (m n : Process) (id : ℕ)
    → start a root ctx interactive req now m ≡ (ok id, n)
    → IsRunningAs (trim_space req.label) id n
unfolding start
start-IsRunningAs a root ctx interactive req now m n id h =
    elim (Result-cases (checked_start a root ctx req)) [
      | inr (_, e) ↦ absurd (let h1 = rw (e, start) at h in cc)
      | inl (workdir, e) ↦
          let h1 = rw (e, start) at h in
          elim (Result-cases (launched a interactive req)) [
            | inr (_, f) ↦ absurd (let h2 = rw f at h1 in cc)
            | inl (_, f) ↦
                let h2 = rw f at h1 in
                let same_id : suc m.next_id ≡ id = ok-injective (ap (λ r. r.0) h2) in
                let same_state : register interactive req workdir now m ≡ n = ap (λ r. r.1) h2 in
                subst (λ p. IsRunningAs (trim_space req.label) id p) same_state
                  (subst
                    (λ k.
                      IsRunningAs (trim_space req.label) k (register interactive req workdir now m))
                    same_id (register-IsRunningAs interactive req workdir now m))
          ]
    ]

-- If `Ensure` of a request with a label returns a process, then the table that it leaves holds a
-- process with that id and the trimmed label which is running, whether it was there or was started,
-- and in whatever order the processes of the table are visited.
pub ensure_labelled :
    (order : List ManagedProcess) (a : StartAnswers) (root : Text) (ctx : Context)
    (req : ProcessRequest) (now : ℕ) (m n : Process) (id : ℕ) (new : Bool)
    → ((p : ManagedProcess) → In p order → In p m.procs)
    → is_empty (trim_space req.label) ≡ false
    → ensure order a root ctx req now m ≡ (ok (id, new), n)
    → IsRunningAs (trim_space req.label) id n
unfolding ensure
ensure_labelled order a root ctx req now m n id new listed labelled h =
    elim (Option-cases (find_labelled (trim_space req.label) order)) [
      | inr (found, e) ↦
          let h1 = rw (labelled, ensure) at h in
          let h2 = rw e at h1 in
          let same_id : found ≡ id = ap (λ p. p.0) (ok-injective (ap (λ r. r.0) h2)) in
          let same_state : m ≡ n = ap (λ r. r.1) h2 in
          subst (λ p. IsRunningAs (trim_space req.label) id p) same_state
            (found-IsRunningAs (trim_space req.label) id order m listed (e ∙ ap some same_id))
      | inl missing ↦
          let h1 = rw (labelled, ensure) at h in
          let h2 = rw missing at h1 in from_start (start a root ctx true req now m) h2 refl
    ]
  where
    from_start :
        (r : Outcome Process ℕ)
        → created r ≡ (ok (id, new), n)
        → start a root ctx true req now m ≡ r
        → IsRunningAs (trim_space req.label) id n
    from_start (err e, n1) k s = cc
    from_start (ok id1, n1) k s =
        let same_id : id1 ≡ id = ap (λ p. p.0) (ok-injective (ap (λ r. r.0) k)) in
        let same_state : n1 ≡ n = ap (λ r. r.1) k in
        subst (λ p. IsRunningAs (trim_space req.label) id p) same_state
          (subst (λ i. IsRunningAs (trim_space req.label) i n1) same_id
            (start-IsRunningAs a root ctx true req now m n1 id1 s))
