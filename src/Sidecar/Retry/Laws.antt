-- ===== src/Sidecar/Retry/Laws.antt =====
-- What the retry loop of backend/py-sidecar/src/lib.rs returns, how often it asks and how long it
-- sleeps.
use fullstackhex.Base.{
  ℕ, zero, suc, ◌+◌, ◌-◌, ◌*◌, ◌^◌, ◌≤◌, ◌<◌, ◌≡◌, refl, true, false, Text, Option, none, some,
  List, [], ◌∷◌, ltb, ◌==◌, if◌then◌else◌, Result, ok, err, arith, Bool-cases, inl, inr, eq_iff,
  subst,
}
use fullstackhex.Sidecar.Errors.{
  SidecarError, socket_not_found, connection_failed, timeout, invalid_response, invalid_input,
  http_error,
}
use fullstackhex.Sidecar.Retry.{
  Client, Attempt, answered, failed, elapsed, finish, again, judge, rounds, do_request_inner,
  backoff_for_attempt, cap_ms, slept,
}

-- The delays before the attempts 1 to n, latest first.
abbrev pub delays : ℕ → List ℕ
delays zero = []
delays (suc n) = backoff_for_attempt (suc n) ∷ delays n

abbrev pub total : List ℕ → ℕ
total [] = 0
total (x ∷ xs) = x + total xs

backoff_closed : (n : ℕ) → backoff_for_attempt (suc n) ≡ cap_ms (100 * 2 ^ n)
unfolding backoff_for_attempt
backoff_closed n = let e : suc n - 1 ≡ n = omega arith in rw e (ground arith)

slept-delays : (n : ℕ) → slept n (delays (n - 1)) ≡ delays n
slept-delays zero = refl
slept-delays (suc n) = let e : suc n - 1 ≡ n = omega arith in rw e

-- Doubling from 100 ms up to 30 s: the delay before retry n is 100 * 2^(n-1) ms, and never more
-- than 30 s, so saturation at 64 bits never shows; n retries sleep at most 30 s each.
pub backoff_doubles_to_cap :
    (n : ℕ)
    → (backoff_for_attempt (suc n) ≡ (if ltb 30000 (100 * 2 ^ n) then 30000 else 100 * 2 ^ n))
      × (total (delays n) ≤ n * 30000)
backoff_doubles_to_cap n = (backoff_closed n, bound n)
  where
    bound : (k : ℕ) → total (delays k) ≤ k * 30000
    bound zero = omega arith
    bound (suc k) = let b = bound k in rw (backoff_closed k) (ground arith)

-- What an attempt may meet that is worth another one.
pub data Transient : Attempt → Type 0 where
  no_connection : (msg : Text) → Transient (failed (connection_failed msg))
  no_time_inside : (ms : ℕ) → Transient (failed (timeout ms))
  no_time : Transient elapsed

-- What an attempt may meet that is final, with the result of the call.
pub data Decides (lossy : Text → Text) : Attempt → Result SidecarError Text → Type 0 where
  good : (status : ℕ) (body : Text) → status < 400 → Decides lossy (answered status body) (ok body)
  bad :
      (status : ℕ) (body : Text)
      → 400 ≤ status
      → Decides lossy (answered status body) (err (http_error status (lossy body)))
  no_socket :
      (path : Text) → Decides lossy (failed (socket_not_found path)) (err (socket_not_found path))
  no_answer :
      (msg : Text) → Decides lossy (failed (invalid_response msg)) (err (invalid_response msg))
  no_request : (msg : Text) → Decides lossy (failed (invalid_input msg)) (err (invalid_input msg))
  refused :
      (status : ℕ) (body : Text)
      → Decides lossy (failed (http_error status body)) (err (http_error status body))

judge-Transient :
    (lossy : Text → Text) (c : Client) (a : Attempt)
    → Transient a
    → (e : SidecarError) × (judge lossy c a ≡ again e)
unfolding judge
judge-Transient lossy c _ (no_connection msg) = (connection_failed msg, refl)
judge-Transient lossy c _ (no_time_inside ms) = (timeout ms, refl)
judge-Transient lossy c _ no_time = (timeout c.timeout_ms, refl)

judge-Decides :
    (lossy : Text → Text) (c : Client) (a : Attempt) (r : Result SidecarError Text)
    → Decides lossy a r
    → judge lossy c a ≡ finish r
unfolding judge
judge-Decides lossy c _ _ (good status body h) = ground (arith, h)
judge-Decides lossy c _ _ (bad status body h) = ground (arith, h)
judge-Decides lossy c _ _ (no_socket path) = refl
judge-Decides lossy c _ _ (no_answer msg) = refl
judge-Decides lossy c _ _ (no_request msg) = refl
judge-Decides lossy c _ _ (refused status body) = refl

module _ (lossy : Text → Text) (c : Client) (meets : ℕ → Attempt) where
  step-finish :
      (left attempt : ℕ) (last : Option SidecarError) (sleeps : List ℕ)
      {r : Result SidecarError Text}
      → judge lossy c (meets attempt) ≡ finish r
      → rounds lossy c meets (suc left) attempt last sleeps
        ≡ record { result = r; sleeps = slept attempt sleeps; attempts = attempt + 1 }
  unfolding rounds
  step-finish left attempt last sleeps s = rw (s, rounds)

  step-again :
      (left attempt : ℕ) (last : Option SidecarError) (sleeps : List ℕ) {e : SidecarError}
      → judge lossy c (meets attempt) ≡ again e
      → rounds lossy c meets (suc left) attempt last sleeps
        ≡ rounds lossy c meets left (attempt + 1) (some e) (slept attempt sleeps)
  unfolding rounds
  step-again left attempt last sleeps s = rw (s, rounds)

  rounds-finish :
      (left attempt n : ℕ) (last : Option SidecarError) (r : Result SidecarError Text)
      → attempt ≤ n
      → n < attempt + left
      → ((i : ℕ) → attempt ≤ i → i < n → (e : SidecarError) × (judge lossy c (meets i) ≡ again e))
      → judge lossy c (meets n) ≡ finish r
      → rounds lossy c meets left attempt last (delays (attempt - 1))
        ≡ record { result = r; sleeps = delays n; attempts = n + 1 }
  rounds-finish zero attempt n last r lo hi before stops = absurd (omega arith)
  rounds-finish (suc left) attempt n last r lo hi before stops = elim (Bool-cases (n == attempt)) [
    | inl same ↦
        let e : n ≡ attempt = (eq_iff n attempt).0 same in
        let s : judge lossy c (meets attempt) ≡ finish r =
          subst (λ k. judge lossy c (meets k) ≡ finish r) e stops in
        rw e (rw (step-finish left attempt last _ s, slept-delays attempt))
    | inr other ↦
        let (e, s) = before attempt (omega arith) (ground arith) in
        let q : attempt + 1 - 1 ≡ attempt = omega arith in
        let ih : rounds lossy c meets left (attempt + 1) (some e) (delays (attempt + 1 - 1))
            ≡ record { result = r; sleeps = delays n; attempts = n + 1 } =
          rounds-finish left (attempt + 1) n (some e) r (ground arith) (omega arith)
            (λ i lo' hi'. before i (omega arith) hi') stops in
        rw (step-again left attempt last _ s, slept-delays attempt) (rw q at ih)
  ]

  module _ (up : c.available ≡ true) (max_retries : ℕ) where
    -- The first attempt that is no transient failure decides: if the attempts before attempt n met
    -- only connections that failed and time that ran out, and attempt n, within the limit, met an
    -- answer or an error of another kind, then the result is the body of an answer below status 400,
    -- the HTTP error of any other answer, or the other error as it is; n + 1 attempts were made, and
    -- the client slept the n backoff delays.
    pub do_request-first_final :
        (n : ℕ) (r : Result SidecarError Text)
        → n ≤ max_retries
        → ((i : ℕ) → i < n → Transient (meets i))
        → Decides lossy (meets n) r
        → do_request_inner lossy c meets max_retries
          ≡ record { result = r; sleeps = delays n; attempts = n + 1 }
    unfolding do_request_inner
    do_request-first_final n r within before final = simp up (
        rounds-finish (suc max_retries) 0 n none r (omega arith) (omega arith)
          (λ i _ hi. judge-Transient lossy c (meets i) (before i hi))
          (judge-Decides lossy c (meets n) r final))

-- A client whose socket file is missing makes no attempt, and says so at once.
pub do_request-unavailable :
    (lossy : Text → Text) (c : Client) (meets : ℕ → Attempt) (max_retries : ℕ)
    → c.available ≡ false
    → ((do_request_inner lossy c meets max_retries).attempts ≡ 0)
      × ((do_request_inner lossy c meets max_retries).result
          ≡ err (SidecarError.socket_not_found c.socket_path))
unfolding do_request_inner
do_request-unavailable lossy c meets max_retries down = rw down (refl, refl)
