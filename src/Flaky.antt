-- ===== src/Flaky.antt =====
-- src/flaky_endpoint/main.py: the simulator of a failing receiver, which is also the reference for how a
-- receiver verifies a signature. `param` is a number of thousandths; the server's clock, `random`, the
-- reading of a header as a number and the decoding of a body are parameters.
pub mod Receives
mod Tests
use web_hooks.Base.Sequences.{drop}
use web_hooks.Base.{
  ℕ, zero, suc, ◌+◌, ◌-◌, ◌/◌, Bool, true, false, ◌&&◌, Option, none, some, List, [], ◌∷◌, ◌++◌,
  length, take, ltb, if◌then◌else◌,
}
use web_hooks.RetryQueue.{Text}
use web_hooks.Signing.{verify_signature, default_tolerance_seconds}
use web_hooks.Agent.Chat.{codes}

pub data Mode : Type 0 where
  healthy http_500 http_429 timeout conn_reset slow auth_401 flaky : Mode

-- A float, by its sign and its thousandths.
pub data Param : Type 0 where
  plus minus : ℕ → Param

pub record Receipt : Type 0 where
  pub delivery_id : Option Text
  pub event_id : Option Text
  pub signature_valid : Bool
  pub body : Text

-- The process-local `state`.
pub record Receiver : Type 0 where
  pub mode : Mode
  pub param : Option Param
  pub secret : Text
  pub received : List Receipt

-- The headers that are read, and the body.
pub record Incoming : Type 0 where
  pub relay_id : Option Text
  pub relay_event_id : Option Text
  pub relay_timestamp : Option Text
  pub relay_signature : Option Text
  pub raw_body : Text

-- What the handler answers, after a sleep in milliseconds: a response, or a body that is promised and
-- not sent.
pub data Answer : Type 0 where
  answers : (sleep status_code : ℕ) (content : Text) (retry_after : Option Text) → Answer
  truncated : Answer

unfoldable pub configure : Mode → Option Param → Receiver → (Mode × Option Param) × Receiver
configure mode param s = ((mode, param), record s { mode = mode; param = param })

unfoldable pub set_secret : Text → Receiver → Receiver
set_secret secret s = record s { secret = secret }

-- `items[-50:]` of the receipts.
unfoldable pub received_items : Receiver → ℕ × List Receipt
unfolding drop
received_items s = (length s.received, drop (length s.received - 50) s.received)

unfoldable pub reset : Receiver → Receiver
reset s = record s { received = []; mode = healthy; param = none }

unfoldable pub healthz : Receiver → Mode
healthz s = s.mode

abbrev pub or_text : Option Text → Text → Text
or_text none default = default
or_text (some t) default = t

-- `state["param"] or default`: also 0.0 falls back.
abbrev pub param_or : Option Param → ℕ → Param
param_or none default = plus default
param_or (some (plus zero)) default = plus default
param_or (some (plus (suc n))) default = plus (suc n)
param_or (some (minus zero)) default = plus default
param_or (some (minus (suc n))) default = minus (suc n)

-- `asyncio.sleep`: a negative time is none.
abbrev pub sleep_of : Param → ℕ
sleep_of (plus n) = n
sleep_of (minus n) = 0

abbrev pub ok_body : Text
ok_body = codes "{\"ok\":true}"

-- `int` of a timestamp: none where it raises. A time before 1970 is none too: it is too old.
module _ (number_text : ℕ → Text) (hmac : Text → Text → Text) (int : Text → Option ℕ)
    (decode : Text → Text) (now random : ℕ) where
  -- `str(int(state["param"] or 1))`
  unfoldable pub retry_after_of : Option Param → Text
  retry_after_of param = elim (param_or param 1000) [
    | plus n ↦ number_text (n / 1000)
    | minus n ↦ elim (n / 1000) [ zero ↦ number_text 0 | suc m ↦ b'-' ∷ number_text (suc m) ]
  ]

  -- `random.random() < (state["param"] or 0.3)`
  unfoldable pub falls : Option Param → Bool
  falls param = elim (param_or param 300) [ plus n ↦ ltb random n | minus n ↦ false ]

  unfoldable pub answer : Mode → Option Param → Answer
  unfolding retry_after_of falls
  answer healthy param = answers 0 200 ok_body none
  answer http_500 param = answers 0 500 (codes "internal error") none
  answer http_429 param = answers 0 429 (codes "slow down") (some (retry_after_of param))
  answer auth_401 param = answers 0 401 (codes "unauthorized") none
  answer timeout param = answers (sleep_of (param_or param 30000)) 200 (codes "late") none
  answer slow param = answers (sleep_of (param_or param 8000)) 200 ok_body none
  answer conn_reset param = truncated
  answer flaky param =
      if falls param then answers 0 500 (codes "flaky failure") none else answers 0 200 ok_body none

  -- `compare_digest` raises on a text that is not ASCII, which is not a ValueError.
  unfoldable pub checked : Text → Option ℕ → Text → Text → Option Bool
  unfolding verify_signature
  checked secret none body signature = some false
  checked secret (some timestamp) body signature =
      verify_signature number_text hmac secret timestamp body signature default_tolerance_seconds
        now

  -- Whether the signature is valid; none if that raises. Without a secret it is not.
  unfoldable pub validity : Text → Incoming → Option Bool
  unfolding checked
  validity [] r = some false
  validity (c ∷ secret) r =
      checked (c ∷ secret) (int (or_text r.relay_timestamp (codes "0"))) r.raw_body
        (or_text r.relay_signature [])

  abbrev pub receipt_of : Incoming → Bool → Receipt
  receipt_of r valid = record {
    delivery_id = r.relay_id;
    event_id = r.relay_event_id;
    signature_valid = valid;
    body = take 512 (decode r.raw_body);
  }

  -- An exception is answered with 500 by the server, and nothing is recorded.
  abbrev pub recorded : Incoming → Mode → Option Bool → Receiver → Answer × Receiver
  recorded r mode none s = (answers 0 500 (codes "Internal Server Error") none, s)
  recorded r mode (some valid) s =
      (answer mode s.param, record s { received = s.received ++ receipt_of r valid ∷ [] })

  -- `_handle`
  unfoldable pub handle : Incoming → Mode → Receiver → Answer × Receiver
  unfolding answer validity
  handle r mode s = recorded r mode (validity s.secret r) s

  unfoldable pub hook : Incoming → Receiver → Answer × Receiver
  unfolding handle
  hook r s = handle r s.mode s

  unfoldable pub hook_with_mode : Mode → Incoming → Receiver → Answer × Receiver
  unfolding handle
  hook_with_mode mode r s = handle r mode s
