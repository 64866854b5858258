-- ===== src/Agent/Statistics.antt =====
-- relay/agent/tools.py: the aggregation of `query_attempts`. Latencies and times are milliseconds, the
-- rate of failures and the mean are exact fractions, before they are rounded.
pub mod Totals
mod Tests
use web_hooks.Base.Sequences.{sort_by, nth, last?, filter}
use web_hooks.Base.{
  ℕ, zero, suc, ◌+◌, ◌-◌, ◌*◌, ◌/◌, min, Bool, true, false, Option, none, some, List, [], ◌∷◌, ◌++◌,
  map, head?, length, take, leb, ltb, ◌==◌, if◌then◌else◌,
}
use web_hooks.Db.{DeliveryAttempt}
use web_hooks.RetryQueue.{Text}
use web_hooks.Sender.{ErrorClass, timeout, tls, dns, conn_refused, http_5xx, http_4xx}

abbrev pub snippet_samples : ℕ
snippet_samples = 3

module _ {A : Type 0} where
  -- `counts[key] = counts.get(key, 0) + 1`, the keys in the order of their first use.
  unfoldable pub bump : (A → A → Bool) → A → List (A × ℕ) → List (A × ℕ)
  bump same k [] = (k, 1) ∷ []
  bump same k ((j, n) ∷ counts) =
      let rest = bump same k counts in if same j k then (j, n + 1) ∷ counts else (j, n) ∷ rest

  unfoldable pub count_by :
      {R : Type 0} → (A → A → Bool) → (R → A) → List R → List (A × ℕ) → List (A × ℕ)
  unfolding bump
  count_by same key [] counts = counts
  count_by same key (r ∷ rs) counts = count_by same key rs (bump same (key r) counts)

abbrev pub same_class : ErrorClass → ErrorClass → Bool
same_class timeout timeout = true
same_class tls tls = true
same_class dns dns = true
same_class conn_refused conn_refused = true
same_class http_5xx http_5xx = true
same_class http_4xx http_4xx = true
same_class _ _ = false

abbrev pub same_option : {A : Type 0} → (A → A → Bool) → Option A → Option A → Bool
same_option same none none = true
same_option same (some a) (some b) = same a b
same_option same _ _ = false

-- `str(attempt.http_status) if attempt.http_status else "none"`
abbrev pub status_key : DeliveryAttempt → Option ℕ
status_key a = elim a.http_status [ none ↦ none | some zero ↦ none | some (suc n) ↦ some (suc n) ]

abbrev pub is_some : {A : Type 0} → Option A → Bool
is_some none = false
is_some (some a) = true

abbrev pub has_failed : DeliveryAttempt → Bool
has_failed a = is_some a.error_class

-- The snippet of a failed attempt, if there is one and it is not empty.
abbrev pub sample_of : DeliveryAttempt → Option Text
sample_of a = elim a.error_class [
  | none ↦ none
  | some _ ↦ elim a.response_snippet [ none ↦ none | some [] ↦ none | some (c ∷ t) ↦ some (c ∷ t) ]
]

unfoldable pub add_sample : Option Text → List Text → List Text
add_sample none samples = samples
add_sample (some t) samples =
    if ltb (length samples) snippet_samples then samples ++ take 200 t ∷ [] else samples

unfoldable pub collect_samples : List DeliveryAttempt → List Text → List Text
unfolding add_sample
collect_samples [] samples = samples
collect_samples (a ∷ rows) samples = collect_samples rows (add_sample (sample_of a) samples)

abbrev pub sum : List ℕ → ℕ
sum [] = 0
sum (n ∷ ns) = n + sum ns

pub record Latency : Type 0 where
  pub p50 : ℕ
  pub p95 : ℕ
  pub max : ℕ
  pub mean : ℕ × ℕ

-- Each of the three indexings may raise.
abbrev pub latency_from : Option ℕ → Option ℕ → Option ℕ → ℕ × ℕ → Option Latency
latency_from (some p50) (some p95) (some m) mean =
    some (record { p50 = p50; p95 = p95; max = m; mean = mean })
latency_from _ _ _ mean = none

unfoldable pub latency_of : List ℕ → Option Latency
unfolding nth last?
latency_of ordered =
    latency_from (nth ordered (length ordered / 2))
      (nth ordered (min (length ordered - 1) (length ordered * 95 / 100))) (last? ordered)
      (sum ordered, length ordered)

pub record Statistics : Type 0 where
  pub total_attempts : ℕ
  pub failed_attempts : ℕ
  pub failure_rate : ℕ × ℕ
  pub counts_by_error_class : List (Option ErrorClass × ℕ)
  pub counts_by_http_status : List (Option ℕ × ℕ)
  pub latency : Latency
  pub first_failed_at : Option ℕ
  pub last_failed_at : Option ℕ
  pub sample_response_snippets : List Text

abbrev pub time_of : Option DeliveryAttempt → Option ℕ
time_of none = none
time_of (some a) = some a.started_at

-- The dictionary from the rows in the order of their times and the latencies.
unfoldable pub summary : List DeliveryAttempt → Latency → Statistics
unfolding count_by collect_samples filter last?
summary rows l =
    let failures = filter has_failed rows in
    record {
      total_attempts = length rows;
      failed_attempts = length failures;
      failure_rate = (length failures, length rows);
      counts_by_error_class = count_by (same_option same_class) (λ a. a.error_class) rows [];
      counts_by_http_status = count_by (same_option (λ m n. m == n)) status_key rows [];
      latency = l;
      first_failed_at = time_of (head? failures);
      last_failed_at = time_of (last? failures);
      sample_response_snippets = collect_samples rows [];
    }

-- None if an index is out of range; the rows are not empty.
unfoldable pub statistics : List DeliveryAttempt → Option Statistics
unfolding summary sort_by latency_of
statistics rows = elim (latency_of (sort_by (λ n. n) (map (λ a. a.latency_ms) rows))) [
  | none ↦ none
  | some l ↦ some (summary rows l)
]

-- `int(window_minutes)`, a number of minutes back or ahead.
pub data Minutes : Type 0 where
  back ahead : ℕ → Minutes

-- `DeliveryAttempt.started_at >= since`
unfoldable pub is_since : ℕ → Minutes → DeliveryAttempt → Bool
is_since now (back m) a = leb now (a.started_at + m * 60000)
is_since now (ahead m) a = leb (now + m * 60000) a.started_at
