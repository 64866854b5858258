-- ===== src/Sender.antt =====
-- relay/delivery/sender.py: how one HTTP attempt is classified. The HTTP client is a parameter:
-- what a POST gives, a response or an exception. Latencies are milliseconds.
pub mod Classes
pub mod Headers
mod Tests
use web_hooks.Base.{
  ℕ, Bool, true, false, ◌&&◌, ◌||◌, Option, none, some, leb, ltb, if◌then◌else◌, take, List,
}

-- The classes of errors that the source writes as texts.
pub data ErrorClass : Type 0 where
  timeout tls dns conn_refused http_5xx http_4xx : ErrorClass

-- What `classify_exception` asks of an exception of `httpx`, each as the test it makes.
pub record Exception : Type 0 where
  pub is_timeout : Bool
  pub is_connect_error : Bool
  pub caused_by_ssl_error : Bool
  pub mentions_certificate : Bool
  pub mentions_name_not_known : Bool
  pub mentions_getaddrinfo : Bool
  pub text : List ℕ

-- What it asks of a response; `Header` is the type of the raw Retry-After value.
pub record Response (Header : Type 0) : Type 0 where
  pub status_code : ℕ
  pub body : List ℕ
  pub retry_after_header : Option Header

pub data Posted (Header : Type 0) : Type 0 where
  responded : Response Header → Posted Header
  raised : Exception → Posted Header

pub record AttemptResult (Header : Type 0) : Type 0 where
  pub latency_ms : ℕ
  pub http_status : Option ℕ
  pub error_class : Option ErrorClass
  pub response_snippet : Option (List ℕ)
  pub retry_after : Option Header

abbrev pub response_snippet_limit : ℕ
response_snippet_limit = 1024

-- `error_class is None`
unfoldable pub succeeded : {Header : Type 0} → AttemptResult Header → Bool
succeeded r = elim r.error_class [ none ↦ true | some _ ↦ false ]

unfoldable pub classify_exception : Exception → ErrorClass
classify_exception e =
    if e.is_timeout
    then timeout
    else if e.is_connect_error
    then (if e.caused_by_ssl_error || e.mentions_certificate
        then tls
        else if e.mentions_name_not_known || e.mentions_getaddrinfo
        then dns
        else conn_refused)
    else conn_refused

unfoldable pub classify_status : ℕ → Option ErrorClass
classify_status status =
    if leb 200 status && ltb status 300
    then none
    else if leb 500 status
    then some http_5xx
    else some http_4xx

-- `send_delivery` from the outcome of the POST and the time it took.
unfoldable pub send_delivery : {Header : Type 0} → Posted Header → ℕ → AttemptResult Header
unfolding classify_exception classify_status
send_delivery (raised e) latency = record {
  latency_ms = latency;
  http_status = none;
  error_class = some (classify_exception e);
  response_snippet = some (take response_snippet_limit e.text);
  retry_after = none;
}
send_delivery (responded r) latency = record {
  latency_ms = latency;
  http_status = some r.status_code;
  error_class = classify_status r.status_code;
  response_snippet = some (take response_snippet_limit r.body);
  retry_after = r.retry_after_header;
}
