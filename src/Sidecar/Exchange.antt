-- ===== src/Sidecar/Exchange.antt =====
-- `perform_request` and `from_env` of backend/py-sidecar/src/lib.rs: the request that is written, and
-- the reading of the answer. What the socket does and the fresh nonce are parameters, and so is the
-- validity of UTF-8; white space in a status line is ASCII's.
pub mod Request
pub mod Answer
use fullstackhex.Base.{
  ℕ, suc, ◌+◌, ◌*◌, Bool, true, false, ◌||◌, ◌&&◌, Text, codes, decimal, is_space, is_empty, length,
  take, drop, starts_with, parse_unsigned, cons_head, ltb, ◌==◌, List, [], ◌∷◌, ◌++◌, Option, none,
  some, if◌then◌else◌, Result, ok, err, ok_or, map_err, ◌>>=◌, ◌>>◌,
}
use fullstackhex.Domain.Flags.{Env}
use fullstackhex.Sidecar.Errors.{SidecarError, connection_failed, invalid_response}
use fullstackhex.Sidecar.Headers.{validate_header_value}
use fullstackhex.Sidecar.Retry.{Attempt, answered, failed, elapsed}

-- The tuple `(user_id, email, name, timestamp, signature)`.
pub record AuthHeaders : Type 0 where
  pub user_id : Text
  pub email : Text
  pub name : Text
  pub timestamp : ℕ
  pub signature : Text

-- What the socket does: connecting, writing, and all that the peer sends until it closes.
pub record Socket : Type 0 where
  pub connected : Result Text (Unit {0})
  pub written : Result Text (Unit {0})
  pub received : Result Text Text

abbrev pub crlf : Text
crlf = 13 ∷ 10 ∷ []

abbrev check_trace : Option Text → Result SidecarError (Unit {0})
check_trace none = ok tt
check_trace (some id) = validate_header_value (codes "trace_id") id

abbrev check_auth : Option AuthHeaders → Result SidecarError (Unit {0})
check_auth none = ok tt
check_auth (some a) = do
  validate_header_value (codes "X-User-Id") a.user_id
  validate_header_value (codes "X-User-Email") a.email
  validate_header_value (codes "X-User-Name") a.name
  validate_header_value (codes "X-Auth-Signature") a.signature

unfoldable pub check_request :
    Text → Option Text → Option AuthHeaders → Result SidecarError (Unit {0})
check_request path trace_id auth = do
  validate_header_value (codes "path") path
  check_trace trace_id
  check_auth auth

abbrev trace_text : Option Text → Text
trace_text none = []
trace_text (some id) = codes "x-trace-id: " ++ (id ++ crlf)

abbrev auth_text : Text → Option AuthHeaders → Text
auth_text nonce none = []
auth_text nonce (some a) =
    codes "X-User-Id: "
    ++ (a.user_id
        ++ (crlf
            ++ (codes "X-User-Email: "
                ++ (a.email
                    ++ (crlf
                        ++ (codes "X-User-Name: "
                            ++ (a.name
                                ++ (crlf
                                    ++ (codes "X-Timestamp: "
                                        ++ (decimal a.timestamp
                                            ++ (crlf
                                                ++ (codes "X-Nonce: "
                                                    ++ (nonce
                                                        ++ (crlf
                                                            ++ (codes "X-Auth-Signature: "
                                                            ++ (a.signature ++ crlf))))))))))))))))

unfoldable pub request_text : Text → Option Text → Text → Option AuthHeaders → Text
request_text path trace_id nonce auth =
    codes "GET "
    ++ (path
        ++ (codes " HTTP/1.1"
            ++ (crlf
                ++ (codes "Host: localhost"
                    ++ (crlf
                        ++ (codes "Connection: close"
                            ++ (crlf
                                ++ (trace_text trace_id ++ (auth_text nonce auth ++ crlf)))))))))

abbrev pub max_response_size : ℕ
max_response_size = 1048576

-- The headers with the blank line that ends them, and the body.
abbrev pub also : ℕ → Option (Text × Text) → Option (Text × Text)
also x none = none
also x (some (head, body)) = some (x ∷ head, body)

unfoldable pub cut_head : Text → Option (Text × Text)
cut_head [] = none
cut_head (x ∷ xs) =
    let rest = cut_head xs in
    if starts_with (13 ∷ 10 ∷ 13 ∷ 10 ∷ []) (x ∷ xs)
    then some (13 ∷ 10 ∷ 13 ∷ 10 ∷ [], drop 3 xs)
    else also x rest

-- The first of `lines()`; a carriage return at its end is white space below.
unfoldable pub first_line : Text → Text
first_line [] = []
first_line (x ∷ xs) = let rest = first_line xs in if x == 10 then [] else x ∷ rest

-- `split_whitespace`
abbrev word_from : Text → List Text → List Text
word_from [] ws = ws
word_from (x ∷ xs) ws = (x ∷ xs) ∷ ws

-- The word begun and the words after it.
unfoldable pub words_from : Text → Text × List Text
words_from [] = ([], [])
words_from (x ∷ xs) =
    let (w, ws) = words_from xs in if is_space x then ([], word_from w ws) else (x ∷ w, ws)

unfoldable pub split_whitespace : Text → List Text
unfolding words_from
split_whitespace s = let (w, ws) = words_from s in word_from w ws

abbrev pub or_502 : Option ℕ → ℕ
or_502 none = 502
or_502 (some n) = n

abbrev pub second : List Text → Option ℕ
second [] = none
second (w ∷ []) = none
second (w ∷ v ∷ ws) = parse_unsigned 16 v

unfoldable pub status_of : Text → ℕ
unfolding split_whitespace first_line
status_of head = or_502 (second (split_whitespace (first_line head)))

abbrev pub judged : ℕ → Text → Option Text → Result SidecarError (ℕ × Text)
judged status body none = ok (status, body)
judged status body (some e) = err (invalid_response e)

-- `std::str::from_utf8`: the error's text, if the bytes are not UTF-8.
module _ (utf8_error : Text → Option Text) where
  abbrev pub answer_of : Option (Text × Text) → Result SidecarError (ℕ × Text)
  answer_of none = err (invalid_response (codes "missing HTTP header separator"))
  answer_of (some (head, body)) = judged (status_of head) body (utf8_error head)

  -- What `take(MAX_RESPONSE_SIZE + 1)` leaves of the answer, read.
  unfoldable pub read_answer : Text → Result SidecarError (ℕ × Text)
  unfolding cut_head status_of
  read_answer received =
      let response = take (max_response_size + 1) received in
      if ltb max_response_size (length response)
      then err (invalid_response (codes "response exceeded maximum allowed size"))
      else answer_of (cut_head response)

  abbrev connection : {A : Type 0} → Result Text A → Result SidecarError A
  connection r = map_err connection_failed r

  -- The request that is written, if it comes to that, is `request_text`.
  unfoldable pub perform_request :
      Socket → Text → Option Text → Option AuthHeaders → Result SidecarError (ℕ × Text)
  unfolding check_request read_answer
  perform_request socket path trace_id auth = do
    check_request path trace_id auth
    connection socket.connected
    connection socket.written
    received ← connection socket.received
    read_answer received

  -- The outcome of `timeout(self.timeout, self.perform_request(..))`.
  abbrev pub attempt_of : Option (Result SidecarError (ℕ × Text)) → Attempt
  attempt_of none = elapsed
  attempt_of (some (ok (status, body))) = answered status body
  attempt_of (some (err e)) = failed e

-- `from_env`: the socket's path, the timeout in milliseconds and the number of retries.
abbrev first_of : Option Text → Option Text → Text → Text
first_of (some a) b d = a
first_of none (some b) d = b
first_of none none d = d

abbrev number : ℕ → Option Text → ℕ → ℕ
number bits none d = d
number bits (some v) d = elim (parse_unsigned bits v) [ none ↦ d | some n ↦ n ]

pub record Settings : Type 0 where
  pub socket_path : Text
  pub timeout_ms : ℕ
  pub max_retries : ℕ

unfoldable pub from_env : Env → Settings
from_env env =
    let retries = number 32 (env (codes "PYTHON_SIDECAR_MAX_RETRIES")) 3 in
    record {
      socket_path =
          first_of (env (codes "PY_API_SOCKET")) (env (codes "PYTHON_SIDECAR_SOCKET"))
            (codes "/tmp/fullstackhex-python.sock");
      timeout_ms = number 64 (env (codes "PYTHON_SIDECAR_TIMEOUT_MS")) 5000;
      max_retries = if ltb 10 retries then 10 else retries;
    }
