-- ===== src/Flaky/Tests.antt =====
-- The receiver at concrete inputs: a clock of the second 1000, and an HMAC that answers its secret.
use web_hooks.Base.{ℕ, ◌≡◌, refl, ◌++◌, take, true, false, Option, none, some, [], ◌∷◌, arith}
use web_hooks.RetryQueue.{Text}
use web_hooks.Agent.Chat.{codes}
use web_hooks.Signing.{compute_signature}
use web_hooks.Sender.Headers.{build_headers}
use package.web_hooks.Flaky.{http_500, flaky, plus, Receiver, Incoming, falls}
use package.web_hooks.Flaky.Receives.{Handles, request_of, signed_request-recorded}

abbrev number_text : ℕ → Text
number_text n = b'9' ∷ []

abbrev hmac : Text → Text → Text
hmac secret body = secret

abbrev int : Text → Option ℕ
int t = some 900

abbrev decode : Text → Text
decode t = t

abbrev receiver : Receiver
receiver = record { mode = http_500; param = none; secret = codes "s3"; received = [] }

abbrev unsigned : Incoming
unsigned = record {
  relay_id = none;
  relay_event_id = none;
  relay_timestamp = none;
  relay_signature = none;
  raw_body = codes "{}";
}

signed_request-recorded_example :
    let h = build_headers number_text number_text hmac 1 2 (codes "s3") (codes "{}") 900 in
    (Handles number_text hmac int decode 1000 0
      (request_of h (codes "{}"))
      flaky
      receiver).1.received
    ≡ []
      ++ record {
        delivery_id = some (number_text 1);
        event_id = some (number_text 2);
        signature_valid = true;
        body = take 512 (decode (codes "{}"));
      }
        ∷ []
signed_request-recorded_example =
    signed_request-recorded number_text hmac int decode 1000 0 number_text 1 2 b's' (codes "3")
      (codes "{}") 900 flaky receiver refl refl (unfold compute_signature in refl) (omega arith)
      (omega arith)

-- A random number of 0.2 is below 0.25, and 0.3 is not.
falls_below : falls number_text hmac int decode 1000 200 (some (plus 250)) ≡ true
unfolding falls
falls_below = refl

stands_above : falls number_text hmac int decode 1000 300 (some (plus 250)) ≡ false
unfolding falls
stands_above = refl
