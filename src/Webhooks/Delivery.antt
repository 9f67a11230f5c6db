-- ===== src/Webhooks/Delivery.antt =====
-- `tryDeliver`, `markDeliveryRetrying`, `markDeliveryFailed` (src/webhooks/webhooks.service.ts) and
-- `process` (src/webhooks/processors/webhook-delivery.processor.ts).
use Prim.Native.Nat.{max}
use codeweaknesses.Common.{
  ℕ, zero, suc, ◌+◌, String, Bool, Option, none, some, List, [], ◌∷◌, or_else, leb, if◌then◌else◌,
}
use codeweaknesses.Webhooks.{
  DeliveryStatus, pending, sent, failed, WebhookSubscription, WebhookDelivery, get_retry_delay_ms,
  Json, Payload, sign_payload, snapshot_payload,
}

-- What `fetch` gives: a response with its `ok` and `status`, or a rejection.
pub data Response : Type 0 where
  answered : Bool → ℕ → Response
  network_error : Response

-- The POST request.
pub record Request : Type 0 where
  pub url : String
  pub signature : String
  pub body : String

abbrev pub response_code_of : Response → Option ℕ
response_code_of (answered is_ok status) = some status
response_code_of network_error = none

abbrev pub status_of : Response → DeliveryStatus
status_of (answered is_ok status) = if is_ok then sent else failed
status_of network_error = failed

-- The update that `tryDeliver` makes of the delivery.
unfoldable pub record_attempt : Response → ℕ → WebhookDelivery → WebhookDelivery
record_attempt response now d = record d {
  status = status_of response;
  attempts = max d.attempts 1;
  last_attempt_at = some now;
  response_code = response_code_of response;
}

unfoldable pub mark_retrying : ℕ → Option ℕ → ℕ → WebhookDelivery → WebhookDelivery
mark_retrying attempt response_code now d = record d {
  status = pending;
  attempts = attempt;
  last_attempt_at = some now;
  response_code = response_code;
}

unfoldable pub mark_failed : Option ℕ → ℕ → WebhookDelivery → WebhookDelivery
mark_failed response_code now d = record d {
  status = failed;
  last_attempt_at = some now;
  response_code = response_code;
}

-- A job on the webhook queue, with its delay.
pub record Job : Type 0 where
  pub attempt : ℕ
  pub delay_ms : ℕ

-- The end of `process`: what becomes of the delivery, and the job that is put on the queue, if any.
unfoldable pub settle : ℕ → Response → ℕ → WebhookDelivery → WebhookDelivery × Option Job
unfolding record_attempt mark_retrying mark_failed
settle attempt response now d =
    let tried = record_attempt response now d in
    elim (status_of response) [
      | sent ↦ (tried, none)
      | _ ↦ if leb 3 attempt then (mark_failed (response_code_of response) now tried, none) else (
        mark_retrying (attempt + 1) (response_code_of response) now tried,
        some (record { attempt = attempt + 1; delay_ms = get_retry_delay_ms (attempt + 1) }),
      )
    ]

module _ (hmac_sha256 : String → String → String) (j : Json) where
  unfoldable pub request_for : WebhookSubscription → Payload j.Value → Request
  request_for subscription payload =
      let snapshot = snapshot_payload j payload in
      record {
        url = subscription.target_url;
        signature = sign_payload hmac_sha256 (or_else subscription.secret "") snapshot;
        body = snapshot;
      }

  -- One run of `process` on a delivery that is found: the request that is sent, and what comes of it.
  -- A payload that cannot be parsed makes the job fail before anything is sent.
  unfoldable pub process :
      ℕ → Response → ℕ → WebhookDelivery → Option (Request × (WebhookDelivery × Option Job))
  unfolding settle request_for
  process attempt response now d = elim (j.parse d.payload) [
    | none ↦ none
    | some payload ↦ some (request_for d.subscription payload, settle attempt response now d)
  ]

-- The jobs of one delivery run one after the other, each with the response that `responses` gives to
-- its attempt; the delays of the jobs that are put on the queue, and the requests made.
unfoldable pub drain :
    (responses : ℕ → Response) → ℕ → ℕ → ℕ → WebhookDelivery → WebhookDelivery × List ℕ × ℕ
drain responses zero attempt now d = (d, [], 0)
drain responses (suc fuel) attempt now d =
    let (d', next) = settle attempt (responses attempt) now d in
    elim next [
      | none ↦ (d', [], 1)
      | some job ↦
          let (last, delays, requests) = drain responses fuel job.attempt now d' in
          (last, job.delay_ms ∷ delays, suc requests)
    ]
