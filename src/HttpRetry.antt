-- ===== src/HttpRetry.antt =====
-- httptransport/http_client.go: which outbound requests are tried again, how long is waited between
-- the attempts, and the loop of attempts. A duration is an `int64`.
pub mod Bounds
use fluxplane_system.Prelude.{
  ℕ, zero, suc, ◌+◌, ◌-◌, ◌*◌, ◌/◌, ◌%◌, leb, ltb, ◌==◌, Bool, true, false, not, ◌&&◌, ◌||◌, List,
  [], ◌∷◌, Option, none, some, if◌then◌else◌,
}
use fluxplane_system.Integers.{ℤ, pos, negsuc, ltbℤ, int64, is_unset}
use fluxplane_system.GoText.{Text, codes, text_eq, is_empty, trim_space}

-- `RetryConfig`, without the replacement of the sleep.
pub record RetryConfig : Type 0 where
  pub max_attempts : ℤ
  pub base_wait : ℤ
  pub max_wait : ℤ
  pub max_retry_after_wait : ℤ
  pub jitter : Bool
  pub retry_non_idempotent : Bool

abbrev pub default_retry_config : RetryConfig
default_retry_config = record {
  max_attempts = pos 3;
  base_wait = pos 200000000;
  max_wait = pos 2000000000;
  max_retry_after_wait = pos 30000000000;
  jitter = true;
  retry_non_idempotent = true;
}

abbrev pub or_default : ℤ → ℤ → ℤ
or_default v standard = if is_unset v then standard else v

unfoldable pub with_defaults : RetryConfig → RetryConfig
with_defaults c = record c {
  max_attempts = or_default c.max_attempts (pos 3);
  base_wait = or_default c.base_wait (pos 200000000);
  max_wait = or_default c.max_wait (pos 2000000000);
  max_retry_after_wait = or_default c.max_retry_after_wait (pos 30000000000);
}

-- A request: its method in upper case, and whether `Body` and `GetBody` are set.
pub record Request : Type 0 where
  pub method : Text
  pub body : Bool
  pub get_body : Bool

unfoldable pub is_idempotent_method : Text → Bool
unfolding text_eq
is_idempotent_method m =
    text_eq m (codes "GET")
    || text_eq m (codes "HEAD")
    || text_eq m (codes "OPTIONS")
    || text_eq m (codes "TRACE")
    || text_eq m (codes "PUT")
    || text_eq m (codes "DELETE")

unfoldable pub can_replay : Request → Bool → Bool
unfolding is_idempotent_method
can_replay req retry_non_idempotent =
    if is_idempotent_method req.method
    then not req.body || req.get_body
    else if not retry_non_idempotent
    then false
    else req.get_body

-- What `errors.Is` and `errors.As` find in an error.
pub record TransportError : Type 0 where
  pub canceled : Bool
  pub deadline_exceeded : Bool
  pub eof : Bool
  pub unexpected_eof : Bool
  -- `IsTimeout || IsTemporary` of a DNS error, `Timeout()` of a network error.
  pub dns_transient : Option Bool
  pub net_timeout : Option Bool

pub record Response : Type 0 where
  pub status_code : ℕ
  pub retry_after : Text
  pub has_body : Bool

unfoldable pub is_retryable_transport_error : TransportError → Bool
is_retryable_transport_error e = if e.eof || e.unexpected_eof then true else elim e.dns_transient [
  | some transient ↦ transient
  | none ↦ elim e.net_timeout [ some timeout ↦ timeout | none ↦ false ]
]

unfoldable pub is_retryable_status : ℕ → Bool
is_retryable_status code =
    (code == 408 || code == 409 || code == 425 || code == 429) || leb 500 code

unfoldable pub should_retry : Bool → Option Response → Option TransportError → Bool
unfolding is_retryable_transport_error is_retryable_status
should_retry context_done resp err = if context_done then false else elim err [
  | some e ↦ if e.canceled || e.deadline_exceeded then false else is_retryable_transport_error e
  | none ↦ elim resp [ none ↦ false | some r ↦ is_retryable_status r.status_code ]
]

-- `strconv.Atoi`; `http.ParseTime` with `Sub` to the time now; the conversion of
-- `float64(base) * math.Pow(2, attempt)` to a duration.
pub record Library : Type 0 where
  pub atoi : Text → Option ℤ
  pub time_until : Text → Option ℤ
  pub backoff : ℤ → ℕ → ℤ

unfoldable pub seconds_wait : ℤ → ℤ
unfolding int64
seconds_wait (pos n) = int64 (n * 1000000000)
seconds_wait (negsuc _) = pos 0

unfoldable pub parse_retry_after : Library → Text → Option ℤ
unfolding seconds_wait
parse_retry_after lib raw =
    if is_empty (trim_space raw) then none else elim (lib.atoi (trim_space raw)) [
      | some seconds ↦ some (seconds_wait seconds)
      | none ↦ elim (lib.time_until (trim_space raw)) [
        | none ↦ none
        | some wait ↦ some (if ltbℤ wait (pos 0) then pos 0 else wait)
      ]
    ]

unfoldable pub clamp_duration : ℤ → ℤ → ℤ → ℤ
clamp_duration v low high =
    if ltbℤ (pos 0) high && ltbℤ high v then high else if ltbℤ v low then low else v

-- `nano` is the clock's time in nanoseconds.
unfoldable pub add_jitter : ℕ → ℤ → ℤ
unfolding int64
add_jitter nano (pos zero) = pos zero
add_jitter nano (pos (suc n)) = int64 (suc n + nano % (suc n / 4 + 1))
add_jitter nano (negsuc n) = negsuc n

unfoldable pub retry_wait : Library → ℕ → Option Response → RetryConfig → ℕ → ℤ
unfolding add_jitter
retry_wait lib nano resp cfg attempt =
    let base = lib.backoff cfg.base_wait attempt in
    let wait = if cfg.jitter then add_jitter nano base else base in
    let backed_off = clamp_duration wait cfg.base_wait cfg.max_wait in
    elim resp [
      | none ↦ backed_off
      | some r ↦ elim (parse_retry_after lib r.retry_after) [
        | some asked ↦ clamp_duration asked (pos 0) cfg.max_retry_after_wait
        | none ↦ backed_off
      ]
    ]

-- What the world does in one attempt: the error of `GetBody`, the reply, whether the request's
-- context is done after it, the time in nanoseconds, and the error of the sleep.
pub record Trial : Type 0 where
  pub reopen : Option TransportError
  pub response : Option Response
  pub error : Option TransportError
  pub context_done : Bool
  pub nano : ℕ
  pub sleep : Option TransportError

-- A call of `RoundTrip`: the requests that went out, the sleeps, and what is returned. A request
-- that was not replayable is `not_replayable`.
pub data Failure : Type 0 where
  failed : TransportError → Failure
  not_replayable : Failure

pub record Run : Type 0 where
  pub sent : ℕ
  pub waits : List ℤ
  pub response : Option Response
  pub error : Option Failure

abbrev as_failure : Option TransportError → Option Failure
as_failure none = none
as_failure (some e) = some (failed e)

-- `requestForAttempt`: the error, if the request cannot be built.
unfoldable pub request_for_attempt : Request → ℕ → Trial → Option Failure
request_for_attempt req zero t = none
request_for_attempt req (suc _) t =
    if not req.body
    then none
    else if not req.get_body
    then some not_replayable
    else as_failure t.reopen

abbrev pub replied : Trial → Run
replied t = record { sent = 1; waits = []; response = t.response; error = as_failure t.error }

abbrev pub broken_off : ℕ → List ℤ → Option Failure → Run
broken_off sent waits e = record { sent = sent; waits = waits; response = none; error = e }

-- `lastErr` if it is set, else the error of the sleep.
abbrev pub sleep_error : Option TransportError → TransportError → Option Failure
sleep_error (some last) e = some (failed last)
sleep_error none e = some (failed e)

-- The loop over the attempts, of which `left` are still to come; `last` is `lastErr`.
unfoldable pub attempts :
    Library → (ℕ → Trial) → Request → RetryConfig → ℕ → ℕ → Option TransportError → Run
unfolding request_for_attempt
attempts lib world req cfg attempt zero last = broken_off 0 [] (as_failure last)
attempts lib world req cfg attempt (suc left) last =
    let t = world attempt in
    let wait = retry_wait lib t.nano t.response cfg attempt in
    let next = attempts lib world req cfg (suc attempt) left t.error in
    elim (request_for_attempt req attempt t) [
      | some e ↦ broken_off 0 [] (some e)
      | none ↦
          if not (should_retry t.context_done t.response t.error) || left == 0
          then replied t
          else elim t.sleep [
            | some e ↦ broken_off 1 (wait ∷ []) (sleep_error t.error e)
            | none ↦ record next { sent = suc next.sent; waits = wait ∷ next.waits }
          ]
    ]

abbrev pub magnitude : ℤ → ℕ
magnitude (pos n) = n
magnitude (negsuc _) = 0

-- `RoundTrip` of the transport that `NewRetryingTransport` returns for the configuration.
unfoldable pub round_trip : Library → (ℕ → Trial) → Request → RetryConfig → Run
unfolding can_replay
round_trip lib world req config =
    let cfg = with_defaults config in
    if not (can_replay req cfg.retry_non_idempotent)
    then replied (world 0)
    else attempts lib world req cfg 0 (magnitude cfg.max_attempts) none
