-- ===== src/Web/Server.antt =====
-- internal/web/server.go and internal/web/dashboard.go: the routes of the HTTP server, and its
-- handlers. How `http.ServeMux` matches a path against its patterns is not modelled; a route is the
-- pattern that is registered.
use Prim.Native.String
use homewizard_exporter.Prelude.{
  ℕ, String, Bool, true, false, not, Option, none, some, List, [], ◌∷◌, str_eq, if◌then◌else◌,
}
use homewizard_exporter.Text.{ends_with}
use homewizard_exporter.Time.{Time, Duration}
use homewizard_exporter.Config.{Server, Dashboard}
use homewizard_exporter.Homewizard.Timestamps.{Platform}
use homewizard_exporter.Snapshot.Store.{Store}
use homewizard_exporter.Poller.Health.{Unhealthy, healthz}
use homewizard_exporter.Web.View.{View, build_view}

-- The handlers that `New` registers.
pub data Handler : Type 0 where
  metrics : Handler
  health : Handler
  page : Handler
  snapshot : Handler
  assets : Handler
  landing : Handler

-- The prefix of `newDashboard`.
unfoldable pub prefix_of : Dashboard → String
prefix_of d = if ends_with d.path "/" then d.path else String.◌++◌ d.path "/"

abbrev pub get : String → String
get path = String.◌++◌ "GET " path

-- `register`
unfoldable pub dashboard_routes : String → List (String × Handler)
dashboard_routes prefix =
    (get (String.◌++◌ prefix "{$}"), page)
    ∷ (get (String.◌++◌ prefix "api/snapshot"), snapshot)
    ∷ (get (String.◌++◌ prefix "assets/"), assets)
    ∷ []

-- The patterns that `New` registers, in their order.
unfoldable pub routes : Server → Dashboard → List (String × Handler)
routes s d =
    (get s.metrics_path, metrics)
    ∷ (get "/healthz", health)
    ∷ (if d.enabled
        then dashboard_routes (prefix_of d)
        else if not (str_eq s.metrics_path "/")
        then (get "/{$}", landing) ∷ []
        else [])

-- What the health check writes: its status, and `ok` or the error.
pub record HealthReply : Type 0 where
  pub status : ℕ
  pub error : Option Unhealthy

abbrev pub health_reply : Option Unhealthy → HealthReply
health_reply none = record { status = 200; error = none }
health_reply (some e) = record { status = 503; error = some e }

-- `handleSnapshot`
pub record SnapshotReply (F : Type 0) : Type 0 where
  pub content_type : String
  pub cache_control : String
  pub body : View F

module _ (P : Platform) where
  -- `healthz`
  unfoldable pub handle_health : Store P.F → Time → Duration → HealthReply
  handle_health s now limit = health_reply (healthz s now limit)

  unfoldable pub handle_snapshot : Store P.F → Time → Duration → SnapshotReply P.F
  handle_snapshot s now limit = record {
    content_type = "application/json; charset=utf-8";
    cache_control = "no-store";
    body = build_view P s limit now;
  }

-- `statusRecorder`: the status that is logged after these calls of `WriteHeader`.
unfoldable pub recorded_status : ℕ → List ℕ → ℕ
recorded_status status [] = status
recorded_status status (s ∷ rest) = recorded_status s rest

-- How `Serve` ended, if it did before the context was done.
pub data Served : Type 0 where
  server_closed : Served
  serve_failed : Served

-- `Run`: what it returns, by whether serving ended first and whether the shutdown succeeds.
pub data RunResult : Type 0 where
  fine : RunResult
  serve_error : RunResult
  shutdown_error : RunResult

abbrev pub shut_down : Bool → RunResult
shut_down true = fine
shut_down false = shutdown_error

unfoldable pub run_server : Option Served → Bool → RunResult
run_server (some server_closed) drained = fine
run_server (some serve_failed) drained = serve_error
run_server none drained = shut_down drained
