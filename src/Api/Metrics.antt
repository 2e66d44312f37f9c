-- ===== src/Api/Metrics.antt =====
-- backend/api/src/metrics.rs and backend/auth/src/metrics.rs: the labels of the counters, and the proxy
-- of the sidecar's metrics. What the counters hold is left to the metrics library.
use fullstackhex.Base.{
  ℕ, ◌&&◌, Text, codes, text_eq, List, [], ◌∷◌, ◌++◌, map, Option, none, some, leb, if◌then◌else◌,
  Result, ok, err, ◌≡◌, ◌⊎◌, inl, inr, refl, Bool-cases,
}
use mathlib.Core.List.{Memᴰ}
use fullstackhex.Sidecar.Errors.{SidecarError, http_error}

-- A path and its label, in the order of the arms of the `match`.
abbrev pub Labels : Type 0
Labels = List (Text × Text)

unfoldable pub label_of : Labels → Text → Text
label_of [] path = codes "unknown"
label_of ((p, label) ∷ rest) path =
    let other = label_of rest path in if text_eq path p then label else other

abbrev pub route_labels : Labels
route_labels =
    (codes "/health", codes "/health")
    ∷ (codes "/health/db", codes "/health/db")
    ∷ (codes "/health/redis", codes "/health/redis")
    ∷ (codes "/health/storage", codes "/health/storage")
    ∷ (codes "/health/python", codes "/health/python")
    ∷ (codes "/metrics", codes "/metrics")
    ∷ (codes "/metrics/python", codes "/metrics/python")
    ∷ (codes "/live", codes "/live")
    ∷ (codes "/auth/login", codes "/auth/login")
    ∷ (codes "/auth/register", codes "/auth/register")
    ∷ (codes "/auth/logout", codes "/auth/logout")
    ∷ (codes "/auth/refresh", codes "/auth/refresh")
    ∷ (codes "/auth/me", codes "/auth/me")
    ∷ (codes "/auth/oauth/{provider}", codes "/auth/oauth")
    ∷ (codes "/auth/oauth/{provider}/callback", codes "/auth/oauth/callback")
    ∷ (codes "/notes", codes "/notes")
    ∷ (codes "/notes/{id}", codes "/notes/id")
    ∷ (codes "/storage/{key}", codes "/storage/key")
    ∷ (codes "/storage", codes "/storage")
    ∷ (codes "/storage/presign", codes "/storage/presign")
    ∷ (codes "/storage/multipart/init", codes "/storage/multipart/init")
    ∷ (codes "/storage/multipart/{key}/{upload_id}", codes "/storage/multipart/id")
    ∷ (
      codes "/storage/multipart/{key}/{upload_id}/complete",
      codes "/storage/multipart/id/complete",
    )
    ∷ (
      codes "/storage/multipart/{key}/{upload_id}/part/{part_number}",
      codes "/storage/multipart/id/part",
    )
    ∷ (codes "/auth/providers", codes "/auth/providers")
    ∷ (codes "/auth/forgot-password", codes "/auth/forgot-password")
    ∷ (codes "/auth/reset-password", codes "/auth/reset-password")
    ∷ []

unfoldable pub normalize_route : Text → Text
unfolding label_of
normalize_route = label_of route_labels

abbrev pub auth_labels : Labels
auth_labels =
    (codes "/auth/register", codes "/auth/register")
    ∷ (codes "/auth/login", codes "/auth/login")
    ∷ (codes "/auth/logout", codes "/auth/logout")
    ∷ (codes "/auth/forgot-password", codes "/auth/forgot-password")
    ∷ (codes "/auth/reset-password", codes "/auth/reset-password")
    ∷ (codes "/auth/refresh", codes "/auth/refresh")
    ∷ (codes "/auth/providers", codes "/auth/providers")
    ∷ (codes "/auth/me", codes "/auth/me")
    ∷ (codes "/auth/oauth/{provider}", codes "/auth/oauth")
    ∷ (codes "/auth/oauth/{provider}/callback", codes "/auth/oauth/callback")
    ∷ []

unfoldable pub normalize_auth_route : Text → Text
unfolding label_of
normalize_auth_route = label_of auth_labels

-- The label of a request: the route's pattern, or the normalised path where no route matched.
abbrev or_path : (Text → Text) → Text → Option Text → Text
or_path normalize path (some pattern) = pattern
or_path normalize path none = normalize path

unfoldable pub track_metrics_label : Option Text → Text → Text
unfolding normalize_route
track_metrics_label matched path = or_path normalize_route path matched

unfoldable pub track_auth_metrics_label : Option Text → Text → Text
unfolding normalize_auth_route
track_auth_metrics_label matched path = or_path normalize_auth_route path matched

-- The label of the error counter, if the status counts as an error.
unfoldable pub error_type : ℕ → Option Text
error_type status =
    if leb 400 status
    then some (if leb 500 status then codes "server" else codes "client")
    else none

-- `StatusCode::from_u16(status).unwrap_or(INTERNAL_SERVER_ERROR)`
abbrev status_code : ℕ → ℕ
status_code n = if leb 100 n && leb n 999 then n else 500

-- The status and the body of `metrics_python_proxy`; `show` prints an error.
unfoldable pub metrics_python_proxy : (SidecarError → Text) → Result SidecarError Text → ℕ × Text
metrics_python_proxy show (ok body) = (200, body)
metrics_python_proxy show (err (http_error status body)) =
    (status_code status, codes "# Python metrics error: " ++ body)
metrics_python_proxy show (err e) = (503, codes "# Python metrics unavailable: " ++ show e)

label_of-Mem :
    (table : Labels) (path : Text)
    → (label_of table path ≡ codes "unknown") ⊎ Memᴰ (label_of table path) (map (λ e. e.1) table)
unfolding label_of
label_of-Mem [] path = inl refl
label_of-Mem ((p, label) ∷ rest) path = elim (Bool-cases (text_eq path p)) [
  | inl e ↦ rw e (inr (Memᴰ.head refl))
  | inr e ↦ rw e (elim (label_of-Mem rest path) [ inl q ↦ inl q | inr m ↦ inr (Memᴰ.tail m) ])
]

-- Whatever a request's path is: where a route matched, the label is the route's pattern; where none
-- did, it is "unknown" or one of the fixed labels of the table.
pub track_metrics_label_bounded :
    (matched : Option Text) (path : Text)
    → (matched ≡ some (track_metrics_label matched path))
      ⊎ ((track_metrics_label matched path ≡ codes "unknown")
          ⊎ Memᴰ (track_metrics_label matched path) (map (λ e. e.1) route_labels))
unfolding track_metrics_label normalize_route
track_metrics_label_bounded (some pattern) path = inl refl
track_metrics_label_bounded none path = inr (label_of-Mem route_labels path)
