-- ===== src/Agent/Statistics/Tests.antt =====
-- The statistics of three attempts.
use web_hooks.Base.{◌≡◌, none, some, [], ◌∷◌}
use web_hooks.Db.{DeliveryAttempt}
use web_hooks.Sender.{timeout, http_5xx}
use package.web_hooks.Agent.Statistics.{Statistics, statistics}
use package.web_hooks.Agent.Statistics.Totals.{AddsUp, statistics-AddsUp}

abbrev slow : DeliveryAttempt
slow = record {
  delivery_id = 1;
  attempt_number = 1;
  started_at = 1000;
  latency_ms = 30000;
  http_status = none;
  error_class = some timeout;
  response_snippet = some (b'x' ∷ []);
}

abbrev broken : DeliveryAttempt
broken = record {
  delivery_id = 1;
  attempt_number = 2;
  started_at = 2000;
  latency_ms = 40;
  http_status = some 503;
  error_class = some http_5xx;
  response_snippet = some [];
}

abbrev fine : DeliveryAttempt
fine = record {
  delivery_id = 2;
  attempt_number = 1;
  started_at = 3000;
  latency_ms = 20;
  http_status = some 200;
  error_class = none;
  response_snippet = none;
}

statistics-AddsUp_example :
    (s : Statistics) × (statistics (slow ∷ broken ∷ fine ∷ []) ≡ some s)
    × AddsUp (slow ∷ broken ∷ fine ∷ []) s
statistics-AddsUp_example = statistics-AddsUp slow (broken ∷ fine ∷ [])
