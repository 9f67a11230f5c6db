-- ===== src/Webhooks/Queueing.antt =====
-- The jobs of all deliveries together: a worker takes any of those that wait, and runs `process` of
-- src/webhooks/processors/webhook-delivery.processor.ts on it, which may add another.
pub mod Coverage
pub mod Draining
use mathlib.Core.List.{append-nil}
use codeweaknesses.Common.{
  ◌⊎◌, ℕ, suc, ◌+◌, ◌-◌, ◌*◌, ◌≤◌, max, String, ◌≡◌, refl, ap, sym, ◌∙◌, Bool, true, false, not,
  ◌||◌, Option, none, some, List, [], ◌∷◌, ◌++◌, map, any, all, sum, find, length, arith, is_some,
  if◌then◌else◌, ◌==◌, eq_iff, eq_refl, Option-cases, inl, inr, length-append,
}
use codeweaknesses.Webhooks.{WebhookDelivery, pending, Json}
use codeweaknesses.Webhooks.Delivery.{
  network_error, Response, Request, Job, settle, request_for, process, record_attempt, mark_failed,
  mark_retrying,
}
use codeweaknesses.Webhooks.Service.{
  QueuedJob, Processed, queued_for, queued, process_job, find_delivery, update_delivery,
}

pub record Deliveries : Type 0 where
  pub deliveries : List WebhookDelivery
  pub requests : List Request
  pub jobs : List QueuedJob

-- The state once a job was run, with the other jobs that wait. One that fails, since its payload cannot be
-- parsed, is gone: the further runs that BullMQ gives it would fail in the same way and change
-- nothing. Calls of the database do not fail.
unfoldable pub after_job : Option Processed → List QueuedJob → Deliveries → Deliveries
after_job none others s = record s { jobs = others }
after_job (some p) others s = record {
  deliveries = p.deliveries;
  requests = s.requests ++ p.requests;
  jobs = others ++ p.jobs;
}

abbrev pub is_pending : WebhookDelivery → Bool
is_pending d = elim d.status [ pending ↦ true | _ ↦ false ]

abbrev pub is_of : String → QueuedJob → Bool
is_of id q = q.delivery_id == id

-- The requests that a job can lead to.
abbrev pub requests_left : QueuedJob → ℕ
requests_left q = max 1 (4 - q.attempt)

module _ (hmac_sha256 : String → String → String) (j : Json) where
  -- One job that waits is run, at some time, with some response of the receiver.
  pub data Step (s : Deliveries) : Deliveries → Type 0 where
    run_job :
        (before : List QueuedJob) (q : QueuedJob) (after : List QueuedJob) (response : Response)
        (now : ℕ)
        → s.jobs ≡ before ++ q ∷ after
        → Step s (
            after_job
              (process_job hmac_sha256 j q.delivery_id q.attempt response now s.deliveries)
              (before ++ after)
              s)

  pub data Reach (s : Deliveries) : ℕ → Deliveries → Type 0 where
    here : Reach s 0 s
    next : {n : ℕ} {t u : Deliveries} → Reach s n t → Step t u → Reach s (suc n) u

-- The first attempt of each delivery waits.
abbrev pub first_attempts : List WebhookDelivery → List QueuedJob
first_attempts = map (λ d. queued d.id (record { attempt = 1; delay_ms = 0 }))

abbrev pub started : List WebhookDelivery → Deliveries
started ds = record { deliveries = ds; requests = []; jobs = first_attempts ds }
