-- ===== src/HttpRetry/Bounds.antt =====
-- httptransport/http_client.go: the number of attempts, and the waits between them.
use fluxplane_system.Prelude.{
  ℕ, zero, suc, ◌≤◌, max, ltb, ◌==◌, ◌≡◌, refl, false, not, ◌&&◌, ◌||◌, Option, none, some,
  if_cases, arith, All, inl, inr, Option-cases, length,
}
use fluxplane_system.Integers.{ℤ, pos, negsuc}
use fluxplane_system.HttpRetry.{
  RetryConfig, or_default, with_defaults, Request, TransportError, Response, Library,
  clamp_duration, retry_wait, Trial, Run, attempts, magnitude, round_trip, request_for_attempt,
  should_retry, parse_retry_after, can_replay,
}

-- A duration from zero up to a limit.
abbrev pub IsUpTo : ℕ → ℤ → Type 0
IsUpTo limit (pos n) = n ≤ limit
IsUpTo limit (negsuc _) = ⊥

clamp_duration-IsUpTo :
    (v : ℤ) (low high : ℕ)
    → 1 ≤ high
    → IsUpTo (max low high) (clamp_duration v (pos low) (pos high))
unfolding clamp_duration
clamp_duration-IsUpTo (negsuc n) low high h =
    if_cases (IsUpTo (max low high)) (ltb 0 high && false) _ _ (λ _. omega arith) (λ _. omega arith)
clamp_duration-IsUpTo (pos n) low high h =
    if_cases (IsUpTo (max low high)) (ltb 0 high && ltb high n) _ _ (λ _. omega arith)
      (λ small.
        if_cases (IsUpTo (max low high)) (ltb n low) _ _ (λ _. omega arith) (λ _. ground arith))

IsUpTo-weaken : (m n : ℕ) (v : ℤ) → m ≤ n → IsUpTo m v → IsUpTo n v
IsUpTo-weaken m n (pos k) h p = omega arith
IsUpTo-weaken m n (negsuc k) h p = p

-- A configuration whose waits are set.
record IsNormal (base longest asked : ℕ) (cfg : RetryConfig) : Type 0 where
  base_wait : cfg.base_wait ≡ pos base
  max_wait : cfg.max_wait ≡ pos longest
  max_retry_after_wait : cfg.max_retry_after_wait ≡ pos asked
  longest_positive : 1 ≤ longest
  asked_positive : 1 ≤ asked

-- The wait when the server names none.
backed_off-IsUpTo :
    (base longest asked : ℕ) (wait : ℤ) (cfg : RetryConfig)
    → IsNormal base longest asked cfg
    → IsUpTo (max (max base longest) asked) (clamp_duration wait cfg.base_wait cfg.max_wait)
backed_off-IsUpTo base longest asked wait cfg h = rw h.base_wait (
    rw h.max_wait (
      IsUpTo-weaken (max base longest) (max (max base longest) asked) _ (omega arith)
        (clamp_duration-IsUpTo wait base longest h.longest_positive)))

retry_wait-IsUpTo :
    (base longest asked : ℕ) (lib : Library) (nano : ℕ) (resp : Option Response) (cfg : RetryConfig)
    (attempt : ℕ)
    → IsNormal base longest asked cfg
    → IsUpTo (max (max base longest) asked) (retry_wait lib nano resp cfg attempt)
unfolding retry_wait
retry_wait-IsUpTo base longest asked lib nano none cfg attempt h =
    backed_off-IsUpTo base longest asked _ cfg h
retry_wait-IsUpTo base longest asked lib nano (some r) cfg attempt h =
    elim (Option-cases (parse_retry_after lib r.retry_after)) [
      | inl own ↦ rw (own, IsUpTo, retry_wait) (backed_off-IsUpTo base longest asked _ cfg h)
      | inr (wait, told) ↦
          rw (told, IsUpTo, retry_wait)
            (rw h.max_retry_after_wait (
              IsUpTo-weaken (max 0 asked) (max (max base longest) asked) _ (omega arith)
                (clamp_duration-IsUpTo wait 0 asked h.asked_positive)))
    ]

-- A run that sends at most `most` requests, sleeps no more often than that, and no longer than
-- `limit` each time.
pub record IsBounded (most limit : ℕ) (r : Run) : Type 0 where
  pub sent : r.sent ≤ most
  pub waits : length r.waits ≤ r.sent
  pub each : All (IsUpTo limit) r.waits

attempts-IsBounded :
    (base longest asked : ℕ) (lib : Library) (world : ℕ → Trial) (req : Request) (cfg : RetryConfig)
    (attempt left : ℕ) (last : Option TransportError)
    → IsNormal base longest asked cfg
    → IsBounded left (max (max base longest) asked) (attempts lib world req cfg attempt left last)
unfolding attempts
attempts-IsBounded base longest asked lib world req cfg attempt zero last h = record {
  sent = omega arith;
  waits = omega arith;
  each = tt;
}
attempts-IsBounded base longest asked lib world req cfg attempt (suc left) last h =
    let rest =
      attempts-IsBounded base longest asked lib world req cfg (suc attempt) left
        (world attempt).error h in
    let wait_ok =
      retry_wait-IsUpTo base longest asked lib (world attempt).nano (world attempt).response cfg
        attempt h in
    let most : ℕ = suc left in
    elim (Option-cases (request_for_attempt req attempt (world attempt))) [
      | inr (e, broken) ↦
          rw (broken, attempts) (record { sent = omega arith; waits = omega arith; each = tt })
      | inl built ↦
          rw (built, attempts)
            (if_cases (IsBounded most (max (max base longest) asked))
              (not (
                  should_retry (world attempt).context_done (world attempt).response
                    (world attempt).error)
                || left == 0)
              _ _ (λ _. record { sent = omega arith; waits = omega arith; each = tt })
              (λ _. elim (Option-cases (world attempt).sleep) [
                | inr (e, woken) ↦
                    rw woken
                      (record { sent = omega arith; waits = omega arith; each = (wait_ok, tt) })
                | inl slept ↦ rw slept (record {
                  sent = let below = rest.sent in omega arith;
                  waits = let below = rest.waits in omega arith;
                  each = (wait_ok, rest.each);
                })
              ]))
    ]

or_default-positive :
    (v : ℤ) (d : ℕ)
    → 1 ≤ d
    → (or_default v (pos d) ≡ pos (magnitude (or_default v (pos d))))
      × (1 ≤ magnitude (or_default v (pos d)))
or_default-positive (pos zero) d h = (refl, h)
or_default-positive (pos (suc n)) d h =
    if_cases (λ v. (v ≡ pos (magnitude v)) × (1 ≤ magnitude v)) (not (ltb 0 (suc n))) _ _
      (λ _. (refl, h)) (λ _. (refl, omega arith))
or_default-positive (negsuc n) d h = (refl, h)

-- The longest wait that a configuration allows.
abbrev pub longest_wait : RetryConfig → ℕ
longest_wait cfg =
    max (max (magnitude cfg.base_wait) (magnitude cfg.max_wait))
      (magnitude cfg.max_retry_after_wait)

with_defaults-IsNormal :
    (c : RetryConfig)
    → IsNormal
        (magnitude (with_defaults c).base_wait)
        (magnitude (with_defaults c).max_wait)
        (magnitude (with_defaults c).max_retry_after_wait)
        (with_defaults c)
unfolding with_defaults
with_defaults-IsNormal c =
    let (base, _) = or_default-positive c.base_wait 200000000 (omega arith) in
    let (longest, some_longest) = or_default-positive c.max_wait 2000000000 (omega arith) in
    let (asked, some_asked) =
      or_default-positive c.max_retry_after_wait 30000000000 (omega arith) in
    record {
      base_wait = base;
      max_wait = longest;
      max_retry_after_wait = asked;
      longest_positive = some_longest;
      asked_positive = some_asked;
    }

some_attempts : (c : RetryConfig) → 1 ≤ magnitude (with_defaults c).max_attempts
unfolding with_defaults
some_attempts c =
    let (_, some_left) = or_default-positive c.max_attempts 3 (omega arith) in some_left

-- Whatever the server and the network do, and whatever the configuration: a request goes out at
-- most as many times as the configuration, with its defaults, allows; there are no more sleeps than
-- requests sent; and every sleep is from zero up to the largest of the base wait, the longest wait
-- and the longest wait that a server may ask for, even if the arithmetic of durations overflows.
pub round_trip-IsBounded :
    (lib : Library) (world : ℕ → Trial) (req : Request) (c : RetryConfig)
    → IsBounded
        (magnitude (with_defaults c).max_attempts)
        (longest_wait (with_defaults c))
        (round_trip lib world req c)
unfolding round_trip
round_trip-IsBounded lib world req c =
    let once = some_attempts c in
    if_cases (IsBounded (magnitude (with_defaults c).max_attempts) (longest_wait (with_defaults c)))
      (not (can_replay req (with_defaults c).retry_non_idempotent)) _ _
      (λ _. record { sent = once; waits = omega arith; each = tt })
      (λ _.
        attempts-IsBounded _ _ _ lib world req (with_defaults c) 0
          (magnitude (with_defaults c).max_attempts) none (with_defaults-IsNormal c))
