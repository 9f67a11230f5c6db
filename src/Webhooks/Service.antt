-- ===== src/Webhooks/Service.antt =====
-- The tables behind src/webhooks/webhooks.service.ts: lookups, `deliver`, and the whole of `process`
-- (src/webhooks/processors/webhook-delivery.processor.ts). `deliveryRepo.update(id, ...)` changes every
-- delivery with that identifier. Calls of the database do not fail.
use codeweaknesses.Common.{
  ℕ, String, Option, none, some, List, [], ◌∷◌, ◌++◌, map, find, if◌then◌else◌, ◌==◌,
}
use codeweaknesses.Common.Results.{Result, ok, err, not_found}
use codeweaknesses.Common.Texts.{decimal}
use codeweaknesses.Entities.{Text, codes}
use codeweaknesses.Webhooks.{
  WebhookSubscription, WebhookDelivery, Json, Payload, text, create_delivery, snapshot_payload,
}
use codeweaknesses.Webhooks.Delivery.{Response, Request, Job, record_attempt, request_for, process}

unfoldable pub find_one : String → List WebhookSubscription → Result WebhookSubscription
find_one id subscriptions = elim (find (λ s. s.id == id) subscriptions) [
  | none ↦ err (not_found "Subscription not found")
  | some s ↦ ok s
]

unfoldable pub find_delivery : String → List WebhookDelivery → Option WebhookDelivery
find_delivery id deliveries = find (λ d. d.id == id) deliveries

unfoldable pub update_delivery :
    String → (WebhookDelivery → WebhookDelivery) → List WebhookDelivery → List WebhookDelivery
update_delivery id change = map (λ d. if d.id == id then change d else d)

-- A job that is put on the queue.
pub record QueuedJob : Type 0 where
  pub job_id : Text
  pub delivery_id : String
  pub attempt : ℕ
  pub delay_ms : ℕ

-- What a run of `process` leaves behind.
pub record Processed : Type 0 where
  pub deliveries : List WebhookDelivery
  pub requests : List Request
  pub jobs : List QueuedJob

abbrev pub queued : String → Job → QueuedJob
queued id job = record {
  job_id = codes id ++ (codes "_" ++ decimal job.attempt);
  delivery_id = id;
  attempt = job.attempt;
  delay_ms = job.delay_ms;
}

abbrev pub queued_for : String → Option Job → List QueuedJob
queued_for id none = []
queued_for id (some job) = queued id job ∷ []

module _ (hmac_sha256 : String → String → String) (j : Json) where
  -- `none` where the payload cannot be parsed, and the job fails.
  unfoldable pub process_job : String → ℕ → Response → ℕ → List WebhookDelivery → Option Processed
  unfolding find_delivery update_delivery process
  process_job delivery_id attempt response now deliveries =
      elim (find_delivery delivery_id deliveries) [
        | none ↦ some (record { deliveries = deliveries; requests = []; jobs = [] })
        | some delivery ↦ elim (process hmac_sha256 j attempt response now delivery) [
          | none ↦ none
          | some (request, (settled, job)) ↦ some (record {
            deliveries = update_delivery delivery.id (λ d. settled) deliveries;
            requests = request ∷ [];
            jobs = queued_for delivery.id job;
          })
        ]
      ]

  -- `deliver`: a new delivery is tried at once, and never put on the queue.
  unfoldable pub deliver :
      WebhookSubscription
      → Payload j.Value
      → String
      → Response
      → ℕ
      → List WebhookDelivery
      → Option WebhookDelivery × Request × List WebhookDelivery
  unfolding find_delivery update_delivery record_attempt request_for snapshot_payload
  deliver subscription payload new_id response now deliveries =
      let snapshot = snapshot_payload j payload in
      let created = deliveries ++ create_delivery subscription snapshot new_id ∷ [] in
      let tried = update_delivery new_id (record_attempt response now) created in
      (find_delivery new_id tried, request_for hmac_sha256 j subscription (text snapshot), tried)
