-- ===== src/Api/Listings.antt =====
-- relay/api/routes: the queries. The times of rows by which a listing is ordered, created_at and
-- updated_at, are parameters, since the rows leave them out.
pub mod Isolated
use web_hooks.Base.Sequences.{sort_by, filter, drop}
use web_hooks.Base.{
  ℕ, Bool, true, false, not, ◌&&◌, Option, none, some, List, [], ◌∷◌, ◌++◌, take, leb, ◌==◌,
  if◌then◌else◌,
}
use web_hooks.Db.{
  Endpoint, Event, Delivery, DeliveryStatus, DeliveryAttempt, Diagnosis, DiagnosisStatus, pending,
  delivering, delivered, failed, dead, opened, acknowledged, resolved,
}
use web_hooks.Services.{Services, World}
use web_hooks.RetryQueue.{Uuid}
use web_hooks.Worker.Monad.{Action, pure, query, ◌>>=◌}
use package.web_hooks.Api.{Reply, answered, refused, contains, is_dead, owned_endpoint_ids}

-- A parameter of a query: left out, one of the values, or another text.
pub data Given (A : Type 0) : Type 0 where
  absent invalid : Given A
  given : A → Given A

abbrev pub same_status : DeliveryStatus → DeliveryStatus → Bool
same_status pending pending = true
same_status delivering delivering = true
same_status delivered delivered = true
same_status failed failed = true
same_status dead dead = true
same_status _ _ = false

abbrev pub same_diagnosis_status : DiagnosisStatus → DiagnosisStatus → Bool
same_diagnosis_status opened opened = true
same_diagnosis_status acknowledged acknowledged = true
same_diagnosis_status resolved resolved = true
same_diagnosis_status _ _ = false

unfoldable pub reverse : {A : Type 0} → List A → List A
reverse [] = []
reverse (x ∷ xs) = reverse xs ++ x ∷ []

-- `ORDER BY … DESC LIMIT … OFFSET …`
unfoldable pub page : {A : Type 0} → (A → ℕ) → (limit offset : ℕ) → List A → List A
unfolding reverse sort_by drop
page key limit offset rows = take limit (drop offset (reverse (sort_by key rows)))

-- `Query(50, ge=1, le=200)`
abbrev pub is_limit : ℕ → Bool
is_limit limit = leb 1 limit && leb limit 200

-- `if endpoint_id is not None: …`; none if the tenant does not own the endpoint.
unfoldable pub narrowed : List Uuid → Option Uuid → Option (List Uuid)
unfolding contains
narrowed owned none = some owned
narrowed owned (some k) = if contains owned k then some (k ∷ []) else none

module _ (V : Services) (created_at updated_at : Uuid → ℕ) where
  unfoldable pub deliveries_in : (Delivery → Bool) → List Uuid → World V → List Delivery
  deliveries_in p owned w =
      V.deliveries_table.select (λ d. contains owned d.endpoint_id && p d) w.deliveries

  unfoldable pub list_from :
      (Delivery → Bool)
      → (Delivery → ℕ)
      → (limit offset : ℕ) → Option (List Uuid)
      → Action (World V) (Reply (List Delivery))
  unfolding deliveries_in page
  list_from p key limit offset none = pure (refused 404)
  list_from p key limit offset (some owned) = do
    rows ← query (deliveries_in p owned)
    pure (answered (page key limit offset rows))

  unfoldable pub list_owned :
      (Delivery → Bool)
      → (Delivery → ℕ)
      → Uuid
      → Option Uuid
      → (limit offset : ℕ) → Action (World V) (Reply (List Delivery))
  unfolding list_from narrowed
  list_owned p key tenant endpoint_id limit offset =
      if not (is_limit limit) then pure (refused 422) else (do
        owned ← query (owned_endpoint_ids V tenant)
        list_from p key limit offset (narrowed owned endpoint_id))

  -- A status that is not one is refused before anything is read.
  unfoldable pub list_deliveries :
      Uuid
      → Option Uuid
      → Given DeliveryStatus
      → (limit offset : ℕ) → Action (World V) (Reply (List Delivery))
  unfolding list_owned
  list_deliveries tenant endpoint_id absent limit offset =
      list_owned (λ d. true) (λ d. created_at d.id) tenant endpoint_id limit offset
  list_deliveries tenant endpoint_id invalid limit offset = pure (refused 422)
  list_deliveries tenant endpoint_id (given s) limit offset =
      list_owned (λ d. same_status d.status s) (λ d. created_at d.id) tenant endpoint_id limit
        offset

  unfoldable pub list_dlq :
      Uuid → Option Uuid → (limit offset : ℕ) → Action (World V) (Reply (List Delivery))
  unfolding list_owned
  list_dlq tenant endpoint_id limit offset =
      list_owned (λ d. is_dead d.status) (λ d. updated_at d.id) tenant endpoint_id limit offset

  -- A delivery that is of one of the endpoints.
  unfoldable pub find_owned : List Uuid → Uuid → World V → Option Delivery
  find_owned owned k w = elim (V.deliveries_table.find k w.deliveries) [
    | none ↦ none
    | some d ↦ if contains owned d.endpoint_id then some d else none
  ]

  unfoldable pub attempts_of : Uuid → World V → List DeliveryAttempt
  unfolding sort_by filter
  attempts_of k w = sort_by (λ a. a.attempt_number) (filter (λ a. a.delivery_id == k) w.attempts)

  unfoldable pub list_found : Option Delivery → Action (World V) (Reply (List DeliveryAttempt))
  unfolding attempts_of
  list_found none = pure (refused 404)
  list_found (some d) = do rows ← query (attempts_of d.id); pure (answered rows)

  unfoldable pub list_attempts : Uuid → Uuid → Action (World V) (Reply (List DeliveryAttempt))
  unfolding find_owned list_found
  list_attempts tenant k = do
    owned ← query (owned_endpoint_ids V tenant)
    found ← query (find_owned owned k)
    list_found found

  unfoldable pub find_event : Uuid → Uuid → World V → Option Event
  find_event tenant k w = elim (V.events_table.find k w.events) [
    | none ↦ none
    | some e ↦ if e.tenant_id == tenant then some e else none
  ]

  unfoldable pub event_found : Option Event → Action (World V) (Reply (Event × List Delivery))
  event_found none = pure (refused 404)
  event_found (some e) = do
    rows ← query (λ w. V.deliveries_table.select (λ d. d.event_id == e.id) w.deliveries)
    pure (answered (e, rows))

  unfoldable pub get_event : Uuid → Uuid → Action (World V) (Reply (Event × List Delivery))
  unfolding find_event event_found
  get_event tenant k = do found ← query (find_event tenant k); event_found found

  unfoldable pub list_endpoints : Uuid → Action (World V) (Reply (List Endpoint))
  unfolding sort_by
  list_endpoints tenant = do
    rows ← query (λ w. V.endpoints_table.select (λ e. e.tenant_id == tenant) w.endpoints)
    pure (answered (sort_by (λ e. created_at e.id) rows))

  -- The diagnoses' listing looks at the status after the endpoint.
  unfoldable pub diagnoses_in : (Diagnosis → Bool) → List Uuid → World V → List Diagnosis
  diagnoses_in p owned w =
      V.diagnoses_table.select (λ g. contains owned g.endpoint_id && p g) w.diagnoses

  unfoldable pub diagnoses_from :
      Given DiagnosisStatus → ℕ → Option (List Uuid) → Action (World V) (Reply (List Diagnosis))
  unfolding diagnoses_in page
  diagnoses_from status limit none = pure (refused 404)
  diagnoses_from invalid limit (some owned) = pure (refused 422)
  diagnoses_from absent limit (some owned) = do
    rows ← query (diagnoses_in (λ g. true) owned)
    pure (answered (page (λ g. created_at g.id) limit 0 rows))
  diagnoses_from (given s) limit (some owned) = do
    rows ← query (diagnoses_in (λ g. same_diagnosis_status g.status s) owned)
    pure (answered (page (λ g. created_at g.id) limit 0 rows))

  unfoldable pub list_diagnoses :
      Uuid → Option Uuid → Given DiagnosisStatus → ℕ → Action (World V) (Reply (List Diagnosis))
  unfolding diagnoses_from narrowed
  list_diagnoses tenant endpoint_id status limit =
      if not (is_limit limit) then pure (refused 422) else (do
        owned ← query (owned_endpoint_ids V tenant)
        diagnoses_from status limit (narrowed owned endpoint_id))
