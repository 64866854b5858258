-- ===== src/Agent/Findings.antt =====
-- relay/agent/tools.py: what the tools read of the outside and what they find: the clock, the
-- receiver, DNS and TLS, and the values that come of them.
use web_hooks.Base.{
  ℕ, ◌+◌, ◌-◌, ◌*◌, ◌/◌, Bool, true, false, Option, none, some, List, [], ◌∷◌, leb, ltb, ◌==◌,
  if◌then◌else◌,
}
use web_hooks.Db.{DeliveryOrder, EndpointStatus, ActionKind}
use web_hooks.Services.{Post}
use web_hooks.RetryQueue.{Text, Uuid}
use web_hooks.Sender.{Posted, ErrorClass}
use web_hooks.Breaker.{State}
use web_hooks.Agent.Chat.{same_text, Tool, Value}
use web_hooks.Agent.Statistics.{Minutes, back, Statistics}

-- What `urlparse` gives; `scheme` is "https" or another.
pub record Url : Type 0 where
  pub is_https : Bool
  pub hostname : Option Text
  pub port : Option ℕ

-- `getaddrinfo`: the addresses, a `gaierror`, or another exception.
pub data Resolved : Type 0 where
  addresses : List Text → Resolved
  gaierror : Text → Resolved
  resolver_failed : Resolved

-- The connection and the handshake: the certificate's end and its issuer, or the exception.
pub data Handshake : Type 0 where
  certificate : (not_after : ℕ) (issuer : Option Text) → Handshake
  verification_failed handshake_failed : Text → Handshake

pub record Outside : Type 1 where
  pub now : ℕ
  pub Header : Type 0
  pub client : Post → Posted Header
  pub latency : ℕ
  pub delivery_id : Uuid
  pub event_id : Uuid
  pub action_id : Uuid
  -- The JSON text of the probe's payload, which holds the clock's text.
  pub probe_payload : ℕ → Text
  -- `int` of a value and the time that far back; none if either raises.
  pub int : Value → Option Minutes
  -- None if it raises.
  pub urlparse : Text → Option Url
  pub getaddrinfo : Text → ℕ → Resolved
  pub handshake : Text → ℕ → Handshake

abbrev pub default_window : Minutes
default_window = back 60

-- `(not_after - now).days`, rounded down: of the days that are left, or past.
pub data Days : Type 0 where
  left past : ℕ → Days

abbrev pub day : ℕ
day = 86400 * 1000

unfoldable pub days_until : ℕ → ℕ → Days
days_until now not_after =
    if leb now not_after
    then left ((not_after - now) / day)
    else past ((now - not_after + (day - 1)) / day)

pub data Tls : Type 0 where
  not_applicable : Tls
  valid : (expires_at : ℕ) (days_until_expiry : Days) (issuer : Option Text) → Tls
  unverified failed : Text → Tls

pub record Config : Type 0 where
  pub url : Text
  pub ordering : DeliveryOrder
  pub status : EndpointStatus
  pub event_types : List Text
  pub breaker : State × ℕ × Option ℕ × Option ℕ
  pub dead_letter_count : ℕ

pub record Probe : Type 0 where
  pub probed_url : Text
  pub http_status : Option ℕ
  pub latency_ms : ℕ
  pub error_class : Option ErrorClass
  pub succeeded : Bool
  pub response_snippet : Text

-- What a tool gives. The text of an error is left out.
pub data Finding : Type 0 where
  no_attempts : Finding
  attempts : Statistics → Finding
  config : Config → Finding
  probed : Probe → Finding
  unresolved : (host : Text) (port : ℕ) (is_https : Bool) (dns_error : Text) → Finding
  resolved :
      (host : Text) (port : ℕ) (is_https : Bool) (addresses : List Text) (tls : Tls) → Finding
  pending_human_approval : (action_id : Uuid) (action : ActionKind) → Finding
  unknown_tool : Tool → Finding
  tool_failed : Finding

abbrev pub text_before : Text → Text → Bool
text_before s [] = false
text_before [] (d ∷ t) = true
text_before (c ∷ s) (d ∷ t) =
    let rest = text_before s t in if ltb c d then true else if ltb d c then false else rest

-- `sorted({…})`: in order, each once.
unfoldable pub add_address : Text → List Text → List Text
add_address a [] = a ∷ []
add_address a (b ∷ bs) =
    let rest = add_address a bs in
    if text_before a b then a ∷ b ∷ bs else if same_text a b then b ∷ bs else b ∷ rest

unfoldable pub sorted_set : List Text → List Text
unfolding add_address
sorted_set [] = []
sorted_set (a ∷ as_) = add_address a (sorted_set as_)

-- `parsed.hostname or ""`
abbrev pub host_of : Url → Text
host_of u = elim u.hostname [ none ↦ [] | some h ↦ h ]

-- `parsed.port or (443 if parsed.scheme == "https" else 80)`
unfoldable pub port_of : Url → ℕ
port_of u =
    let default = if u.is_https then 443 else 80 in
    elim u.port [ none ↦ default | some p ↦ if p == 0 then default else p ]

unfoldable pub tls_of : ℕ → Handshake → Tls
unfolding days_until
tls_of now (certificate not_after issuer) = valid not_after (days_until now not_after) issuer
tls_of now (verification_failed t) = unverified t
tls_of now (handshake_failed t) = failed t
