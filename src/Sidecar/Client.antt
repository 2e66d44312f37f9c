-- ===== src/Sidecar/Client.antt =====
-- The public calls of `PythonSidecar` in backend/py-sidecar/src/lib.rs: each is `do_request_inner` over
-- `perform_request`, with or without retries, and reads its answer as JSON or leaves it raw. Trace ids
-- are drawn by the caller of these definitions.
use fullstackhex.Base.{
  ℕ, ◌≤◌, ◌≡◌, ◌⊎◌, refl, arith, Bool, true, false, if◌then◌else◌, inl, inr, Text, codes, [],
  Option, none, some, Result, err, ◌>>=◌, map_err,
}
use fullstackhex.Sidecar.Errors.{SidecarError, socket_not_found, invalid_response}
use fullstackhex.Sidecar.Retry.{
  Client, Run, Attempt, Verdict, finish, again, judge, rounds, do_request_inner,
}
use fullstackhex.Sidecar.Exchange.{AuthHeaders, Socket, perform_request, attempt_of}

Verdict-cases :
    (v : Verdict)
    → ((r : Result SidecarError Text) × (v ≡ finish r)) ⊎ ((e : SidecarError) × (v ≡ again e))
Verdict-cases (finish r) = inl (r, refl)
Verdict-cases (again e) = inr (e, refl)

Once : Run → Type 0
Once r = (r.sleeps ≡ []) × (r.attempts ≤ 1)

rounds-Once :
    (lossy : Text → Text) (c : Client) (meets : ℕ → Attempt)
    → Once (rounds lossy c meets 1 0 none [])
unfolding Once rounds
rounds-Once lossy c meets = elim (Verdict-cases (judge lossy c (meets 0))) [
  | inl (r, q) ↦ rw (q, rounds) (refl, omega arith)
  | inr (x, q) ↦ rw (q, rounds) (refl, omega arith)
]

Once-if :
    (b : Bool) (path : Text) (r : Run)
    → Once r
    → Once (
        if b then r else record { result = err (socket_not_found path); sleeps = []; attempts = 0 })
unfolding Once
Once-if true path r h = h
Once-if false path r h = (refl, omega arith)

module _ (utf8_error : Text → Option Text) (lossy : Text → Text) (c : Client)
    (sockets : ℕ → Option Socket) where
  abbrev met : Text → Option Text → Option AuthHeaders → Option Socket → Attempt
  met path trace_id auth none = attempt_of utf8_error none
  met path trace_id auth (some socket) =
      attempt_of utf8_error (some (perform_request utf8_error socket path trace_id auth))

  -- The sockets are those of the attempts, none where the time is up before the answer is there.
  unfoldable pub do_get_raw : Text → Option Text → Option AuthHeaders → ℕ → Run
  do_get_raw path trace_id auth max_retries =
      do_request_inner lossy c (λ i. met path trace_id auth (sockets i)) max_retries

  unfoldable pub get_raw_with_trace_id : Text → Text → Option AuthHeaders → ℕ → Run
  unfolding do_get_raw
  get_raw_with_trace_id path trace_id auth max_retries =
      do_get_raw path (some trace_id) auth max_retries

  -- Without retries, and without a trace id.
  unfoldable pub get_raw_quick : Text → Run
  unfolding do_get_raw
  get_raw_quick path = do_get_raw path none none 0

  module _ {J : Type 0} (from_slice : Text → Result Text J) where
    unfoldable pub read_json : Run → Result SidecarError J
    read_json run = do body ← run.result; map_err invalid_response (from_slice body)

    unfoldable pub do_get : Text → Option Text → Option AuthHeaders → ℕ → Result SidecarError J
    unfolding do_get_raw read_json
    do_get path trace_id auth max_retries = read_json (do_get_raw path trace_id auth max_retries)

    unfoldable pub get_with_trace_id : Text → Text → Option AuthHeaders → ℕ → Result SidecarError J
    unfolding do_get
    get_with_trace_id path trace_id auth max_retries = do_get path (some trace_id) auth max_retries

    unfoldable pub get_with_auth : Text → Text → AuthHeaders → ℕ → Result SidecarError J
    unfolding get_with_trace_id
    get_with_auth path trace_id auth max_retries =
        get_with_trace_id path trace_id (some auth) max_retries

    unfoldable pub health : Text → ℕ → Result SidecarError J
    unfolding get_with_trace_id
    health trace_id max_retries = get_with_trace_id (codes "/health") trace_id none max_retries

    unfoldable pub health_quick : Text → Result SidecarError J
    unfolding do_get
    health_quick trace_id = do_get (codes "/health") (some trace_id) none 0

  -- A call without retries makes one attempt at most and sleeps never.
  pub quick_once :
      (path : Text) → ((get_raw_quick path).sleeps ≡ []) × ((get_raw_quick path).attempts ≤ 1)
  unfolding get_raw_quick do_get_raw do_request_inner Once
  quick_once path =
      Once-if c.available c.socket_path _
        (rounds-Once lossy c (λ i. met path none none (sockets i)))
