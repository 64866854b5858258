-- ===== src/Sender/Headers.antt =====
-- relay/delivery/sender.py: the body and the headers of a POST. The JSON text of a payload is a
-- parameter, as are the texts of identifiers and numbers and HMAC.
use web_hooks.Base.{ℕ}
use web_hooks.RetryQueue.{Text, Uuid}
use web_hooks.Signing.{compute_signature}

-- The headers that depend on the delivery; the type of the content and the agent's name are fixed.
pub record Headers : Type 0 where
  pub relay_id : Text
  pub relay_event_id : Text
  pub relay_timestamp : Text
  pub relay_signature : Text

module _ (uuid_text : Uuid → Text) (number_text : ℕ → Text) (hmac : Text → Text → Text) where
  unfoldable pub build_headers : Uuid → Uuid → Text → Text → ℕ → Headers
  build_headers delivery_id event_id secret body timestamp = record {
    relay_id = uuid_text delivery_id;
    relay_event_id = uuid_text event_id;
    relay_timestamp = number_text timestamp;
    relay_signature = compute_signature number_text hmac secret timestamp body;
  }
