-- ===== src/Flaky/Receives.antt =====
-- What the receiver records of the deliveries that Relay signs, and what its modes mean to the sender.
use web_hooks.Base.{
  ℕ, ◌+◌, ◌-◌, ◌≤◌, ◌≡◌, refl, Bool, true, false, Option, none, some, List, [], ◌∷◌, ◌++◌, ltb,
  if◌then◌else◌, inl, inr, append_nil, append_assoc, sym, ap, take, ◌⊎◌, arith, ◌∙◌,
}
use web_hooks.RetryQueue.{Text, Uuid}
use web_hooks.Signing.{
  is_ascii, compare_texts, compute_signature, verify_signature, default_tolerance_seconds,
}
use web_hooks.Signing.Verify.{compare_digest_refl}
use web_hooks.Sender.{ErrorClass, http_5xx, http_4xx, responded, send_delivery, classify_status}
use web_hooks.Agent.Chat.{codes}
use web_hooks.Sender.Headers.{Headers, build_headers}
use package.web_hooks.Flaky.{
  Mode, healthy, http_500, http_429, timeout, conn_reset, slow, auth_401, flaky, Param, Receipt,
  Receiver, Incoming, Answer, ok_body, answers, truncated, answer, falls, checked, validity,
  receipt_of, recorded, handle, hook_with_mode,
}

-- The request that carries the headers of a delivery.
abbrev pub request_of : Headers → Text → Incoming
request_of h body = record {
  relay_id = some h.relay_id;
  relay_event_id = some h.relay_event_id;
  relay_timestamp = some h.relay_timestamp;
  relay_signature = some h.relay_signature;
  raw_body = body;
}

module _ (number_text : ℕ → Text) (hmac : Text → Text → Text) (int : Text → Option ℕ)
    (decode : Text → Text) (now random : ℕ) where
  abbrev pub Handles : Incoming → Mode → Receiver → Answer × Receiver
  Handles = handle number_text hmac int decode now random

  abbrev pub receipt_if : Incoming → Option Bool → List Receipt → List Receipt
  receipt_if r none rest = rest
  receipt_if r (some valid) rest = receipt_of number_text hmac int decode now random r valid ∷ rest

  -- The receipts of the requests, none for one whose signature raises.
  abbrev pub receipts : Text → List (Mode × Incoming) → List Receipt
  receipts secret [] = []
  receipts secret ((mode, r) ∷ rs) =
      receipt_if r (validity number_text hmac int decode now random secret r) (receipts secret rs)

  -- The receiver after requests that pin a mode each.
  abbrev pub after_all : List (Mode × Incoming) → Receiver → Receiver
  after_all [] s = s
  after_all ((mode, r) ∷ rs) s =
      after_all rs (hook_with_mode number_text hmac int decode now random mode r s).1

  checked-signed :
      (secret body : Text) (timestamp : ℕ) (read : Option ℕ)
      → read ≡ some timestamp
      → is_ascii (compute_signature number_text hmac secret timestamp body) ≡ true
      → now ≤ timestamp + default_tolerance_seconds
      → timestamp ≤ now + default_tolerance_seconds
      → checked number_text hmac int decode now random secret read body
          (compute_signature number_text hmac secret timestamp body)
        ≡ some true
  unfolding checked verify_signature compare_texts
  checked-signed secret body timestamp read reads ascii late early =
      let near : ltb default_tolerance_seconds ((now - timestamp) + (timestamp - now)) ≡ false =
        ground (arith, late, early) in
      let signature = compute_signature number_text hmac secret timestamp body in
      rw (reads, checked)
        (rw (near, verify_signature, compare_texts)
          (rw ascii (ap some (compare_digest_refl signature))))

  recorded-valid :
      (r : Incoming) (mode : Mode) (o : Option Bool) (valid : Bool) (s : Receiver)
      → o ≡ some valid
      → (recorded number_text hmac int decode now random r mode o s).1.received
        ≡ s.received ++ receipt_of number_text hmac int decode now random r valid ∷ []
  recorded-valid r mode o valid s e = rw e refl

  -- A request that carries the headers that the sender builds, with the receiver's secret, is
  -- recorded under the delivery's id and the event's id as valid, with the first 512 characters of its
  -- decoded body, in every mode, if its
  -- timestamp is at most the tolerance away from the receiver's clock.
  pub signed_request-recorded :
      (uuid_text : Uuid → Text) (delivery_id event_id : Uuid) (c : ℕ) (secret body : Text)
      (timestamp : ℕ) (mode : Mode) (s : Receiver)
      → s.secret ≡ c ∷ secret
      → int (number_text timestamp) ≡ some timestamp
      → is_ascii (compute_signature number_text hmac (c ∷ secret) timestamp body) ≡ true
      → now ≤ timestamp + default_tolerance_seconds
      → timestamp ≤ now + default_tolerance_seconds
      → let h =
          build_headers uuid_text number_text hmac delivery_id event_id
            (c ∷ secret)
            body
            timestamp in
        (Handles (request_of h body) mode s).1.received
        ≡ s.received
          ++ record {
            delivery_id = some (uuid_text delivery_id);
            event_id = some (uuid_text event_id);
            signature_valid = true;
            body = take 512 (decode body);
          }
            ∷ []
  unfolding handle validity build_headers
  signed_request-recorded uuid_text delivery_id event_id c secret body timestamp mode s own reads
        ascii late early =
      recorded-valid
        (request_of
          (build_headers uuid_text number_text hmac delivery_id event_id (c ∷ secret) body
            timestamp)
          body)
        mode _ true s
        (rw (own, validity) (checked-signed (c ∷ secret) body timestamp _ reads ascii late early))

  -- The receipt of a request.
  recorded-receipts :
      (mode : Mode) (r : Incoming) (rs : List (Mode × Incoming)) (o : Option Bool) (s : Receiver)
      → validity number_text hmac int decode now random s.secret r ≡ o
      → (recorded number_text hmac int decode now random r mode o s).1.received
          ++ receipts s.secret rs
        ≡ s.received ++ receipts s.secret ((mode, r) ∷ rs)
  recorded-receipts mode r rs none s e =
      ap (λ v. s.received ++ receipt_if r v (receipts s.secret rs)) (sym e)
  recorded-receipts mode r rs (some valid) s e =
      append_assoc s.received (receipt_of number_text hmac int decode now random r valid ∷ [])
        (receipts s.secret rs)
      ∙ ap (λ v. s.received ++ receipt_if r v (receipts s.secret rs)) (sym e)

  recorded-settings :
      (mode : Mode) (r : Incoming) (o : Option Bool) (s : Receiver)
      → let t = (recorded number_text hmac int decode now random r mode o s).1 in
        (t.mode ≡ s.mode) × (t.param ≡ s.param) × (t.secret ≡ s.secret)
  recorded-settings mode r none s = (refl, refl, refl)
  recorded-settings mode r (some valid) s = (refl, refl, refl)

  -- Requests that each pin a mode leave the receiver's own mode, its parameter and its secret as
  -- they were, and are recorded in the order of their arrival, each but those whose signature
  -- raises.
  pub pinned_requests-recorded :
      (rs : List (Mode × Incoming)) (s : Receiver)
      → let t = after_all rs s in
        (t.mode ≡ s.mode)
        × (t.param ≡ s.param)
        × (t.secret ≡ s.secret)
        × (t.received ≡ s.received ++ receipts s.secret rs)
  unfolding hook_with_mode handle
  pinned_requests-recorded [] s = (refl, refl, refl, sym (append_nil s.received))
  pinned_requests-recorded ((mode, r) ∷ rs) s =
      let t = (hook_with_mode number_text hmac int decode now random mode r s).1 in
      let (m, p, k) =
        recorded-settings mode r (validity number_text hmac int decode now random s.secret r) s in
      let (m', p', k', e) = pinned_requests-recorded rs t in
      (
        m' ∙ m,
        p' ∙ p,
        k' ∙ k,
        e ∙ ap (λ x. t.received ++ receipts x rs) k ∙ recorded-receipts mode r rs _ s refl,
      )

-- What the sender makes of an answer that is a response.
abbrev pub class_of : Answer → Option ErrorClass
class_of truncated = none
class_of (answers sleep status content retry_after) =
    (send_delivery {Header = Text}
      (responded
        (record { status_code = status; body = content; retry_after_header = retry_after }))
      sleep).error_class

-- Whether the sender's classification of the answer is the one that the mode stands for.
abbrev pub StandsFor : Mode → Answer → Type 0
StandsFor conn_reset a = a ≡ truncated
StandsFor healthy a = class_of a ≡ none
StandsFor timeout a = class_of a ≡ none
StandsFor slow a = class_of a ≡ none
StandsFor http_500 a = class_of a ≡ some http_5xx
StandsFor http_429 a = class_of a ≡ some http_4xx
StandsFor auth_401 a = class_of a ≡ some http_4xx
StandsFor flaky a = (class_of a ≡ none) ⊎ (class_of a ≡ some http_5xx)

module _ (number_text : ℕ → Text) (hmac : Text → Text → Text) (int : Text → Option ℕ)
    (decode : Text → Text) (now random : ℕ) where
  falls-StandsFor :
      (b : Bool)
      → StandsFor flaky
          (if b then answers 0 500 (codes "flaky failure") none else answers 0 200 ok_body none)
  unfolding send_delivery classify_status
  falls-StandsFor true = inr refl
  falls-StandsFor false = inl refl

  -- In each mode the sender classifies the receiver's answer as the mode is named: no error for
  -- healthy, slow and timeout, whose answers are good once the sleep is over, a server error for
  -- http_500, a client error for http_429 and auth_401, one or the other for flaky; and conn_reset
  -- breaks the response off.
  pub answer-StandsFor :
      (mode : Mode) (param : Option Param)
      → StandsFor mode (answer number_text hmac int decode now random mode param)
  unfolding answer send_delivery classify_status
  answer-StandsFor healthy param = refl
  answer-StandsFor http_500 param = refl
  answer-StandsFor http_429 param = refl
  answer-StandsFor timeout param = refl
  answer-StandsFor conn_reset param = refl
  answer-StandsFor slow param = refl
  answer-StandsFor auth_401 param = refl
  answer-StandsFor flaky param =
      falls-StandsFor (falls number_text hmac int decode now random param)
