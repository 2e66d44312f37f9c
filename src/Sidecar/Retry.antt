-- ===== src/Sidecar/Retry.antt =====
-- `backoff_for_attempt` and `do_request_inner` of backend/py-sidecar/src/lib.rs. What the attempt
-- with a given number meets on the socket is a function of the number. `lossy` is
-- `String::from_utf8_lossy`.
pub mod Laws
use fullstackhex.Base.{
  ℕ, zero, suc, ◌+◌, ◌-◌, ◌*◌, ◌^◌, Bool, true, false, Text, Option, none, some, List, [], ◌∷◌, leb,
  ltb, if◌then◌else◌, Result, ok, err,
}
use fullstackhex.Sidecar.Errors.{
  SidecarError, socket_not_found, connection_failed, timeout, invalid_response, invalid_input,
  http_error,
}

abbrev backoff_base_ms : ℕ
backoff_base_ms = 100

abbrev pub max_backoff_ms : ℕ
max_backoff_ms = 30000

-- A `u64` result of a saturating operation.
saturate : ℕ → ℕ
saturate n = if ltb (2 ^ 64 - 1) n then 2 ^ 64 - 1 else n

-- `raw_ms.min(MAX_BACKOFF_MS)`
abbrev cap_ms : ℕ → ℕ
cap_ms ms = if ltb max_backoff_ms ms then max_backoff_ms else ms

-- The delay before an attempt, attempts counted from 1.
unfoldable pub backoff_for_attempt : ℕ → ℕ
unfolding saturate
backoff_for_attempt attempt = cap_ms (saturate (backoff_base_ms * saturate (2 ^ (attempt - 1))))

-- What `timeout(self.timeout, self.perform_request(..))` gives.
pub data Attempt : Type 0 where
  answered : ℕ → Text → Attempt
  failed : SidecarError → Attempt
  elapsed : Attempt

pub record Client : Type 0 where
  pub socket_path : Text
  pub timeout_ms : ℕ
  pub available : Bool

-- The result of a run, the delays slept, latest first, and the number of attempts made.
pub record Run : Type 0 where
  pub result : Result SidecarError Text
  pub sleeps : List ℕ
  pub attempts : ℕ

-- Whether an error ends the loop or is kept as `last_error`.
unfoldable pub retryable : SidecarError → Bool
retryable (socket_not_found path) = false
retryable (invalid_response msg) = false
retryable (invalid_input msg) = false
retryable (http_error status body) = false
retryable (connection_failed msg) = true
retryable (timeout ms) = true

-- One round: the error to keep, or the result to return.
pub data Verdict : Type 0 where
  finish : Result SidecarError Text → Verdict
  again : SidecarError → Verdict

unfoldable pub judge : (Text → Text) → Client → Attempt → Verdict
unfolding retryable
judge lossy c (answered status body) =
    if leb 400 status then finish (err (http_error status (lossy body))) else finish (ok body)
judge lossy c (failed e) = if retryable e then again e else finish (err e)
judge lossy c elapsed = again (timeout c.timeout_ms)

-- `if attempt > 0 { sleep(backoff).await }`
abbrev slept : ℕ → List ℕ → List ℕ
slept zero sleeps = sleeps
slept (suc n) sleeps = backoff_for_attempt (suc n) ∷ sleeps

module _ (lossy : Text → Text) (c : Client) (meets : ℕ → Attempt) where
  -- `for attempt in 0..=max_retries`, with the rounds left; `none` is `last_error` before round 0.
  unfoldable pub rounds : ℕ → ℕ → Option SidecarError → List ℕ → Run
  rounds zero attempt none sleeps = record {
    result = err (timeout c.timeout_ms);
    sleeps = sleeps;
    attempts = attempt;
  }
  rounds zero attempt (some e) sleeps = record {
    result = err e;
    sleeps = sleeps;
    attempts = attempt;
  }
  rounds (suc left) attempt last sleeps = elim (judge lossy c (meets attempt)) [
    | finish r ↦ record { result = r; sleeps = slept attempt sleeps; attempts = attempt + 1 }
    | again e ↦ rounds left (attempt + 1) (some e) (slept attempt sleeps)
  ]

  unfoldable pub do_request_inner : ℕ → Run
  unfolding rounds
  do_request_inner max_retries =
      if c.available
      then rounds (suc max_retries) 0 none []
      else record { result = err (socket_not_found c.socket_path); sleeps = []; attempts = 0 }
