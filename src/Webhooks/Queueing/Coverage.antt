-- ===== src/Webhooks/Queueing/Coverage.antt =====
-- Which deliveries have a job that waits, and how many requests the jobs have left.
use codeweaknesses.Common.{
  any-append, ◌⊎◌, inl, inr, ◌*◌, length, ℕ, ◌+◌, ◌-◌, ◌≤◌, max, String, ◌≡◌, refl, Bool, true, not,
  ◌||◌, Option, none, some, List, [], ◌∷◌, ◌++◌, map, any, all, sum, find, arith, is_some,
  if◌then◌else◌, ◌==◌, eq_iff, eq_refl,
}
use codeweaknesses.Webhooks.{WebhookDelivery}
use codeweaknesses.Webhooks.Delivery.{
  Response, Job, settle, record_attempt, mark_failed, mark_retrying,
}
use codeweaknesses.Webhooks.Service.{queued, QueuedJob, queued_for}
use codeweaknesses.Webhooks.Queueing.{first_attempts, is_pending, is_of, requests_left}

pub settle-pending :
    (attempt : ℕ) (response : Response) (now : ℕ) (d : WebhookDelivery)
    → let (settled, job) = settle attempt response now d in
      (is_pending settled ≡ is_some job)
      × (settled.id ≡ d.id)
      × (settled.payload ≡ d.payload)
      × (sum requests_left (queued_for d.id job) + 1 ≤ max 1 (4 - attempt))
unfolding settle record_attempt mark_failed mark_retrying
settle-pending attempt response now d = ground arith

-- No delivery is left pending without a job.
abbrev pub is_covered : List QueuedJob → List WebhookDelivery → Bool
is_covered jobs = all (λ d. not (is_pending d) || any (is_of d.id) jobs)

pub any-split :
    (p : QueuedJob → Bool) (before after : List QueuedJob) (q : QueuedJob)
    → any p (before ++ q ∷ after) ≡ (p q || any p (before ++ after))
any-split p [] after q = refl
any-split p (r ∷ before) after q = ground (arith, any-split p before after q)

pub sum-split :
    (before after : List QueuedJob) (q : QueuedJob)
    → sum requests_left (before ++ q ∷ after)
      ≡ requests_left q + sum requests_left (before ++ after)
sum-split [] after q = refl
sum-split (r ∷ before) after q = omega (arith, sum-split before after q)

pub covered-none :
    (before after : List QueuedJob) (q : QueuedJob) (ds : List WebhookDelivery)
    → find (λ d. d.id == q.delivery_id) ds ≡ none
    → is_covered (before ++ q ∷ after) ds ≡ true
    → is_covered (before ++ after) ds ≡ true
covered-none before after q [] e c = refl
covered-none before after q (d ∷ ds) e c = ground (
  arith,
  covered-none before after q ds,
  any-split (is_of d.id) before after q,
  eq_iff d.id q.delivery_id,
  eq_iff q.delivery_id d.id,
)

pub covered-settled :
    (before after new : List QueuedJob) (q : QueuedJob) (settled : WebhookDelivery) (id : String)
    (ds : List WebhookDelivery)
    → q.delivery_id ≡ id
    → settled.id ≡ id
    → (is_pending settled ≡ true → any (is_of id) new ≡ true)
    → is_covered (before ++ q ∷ after) ds ≡ true
    → is_covered ((before ++ after) ++ new) (map (λ d. if d.id == id then settled else d) ds) ≡ true
covered-settled before after new q settled id [] e f g c = refl
covered-settled before after new q settled id (d ∷ ds) e f g c = ground (
  arith,
  g,
  covered-settled before after new q settled id ds e f g,
  any-split (is_of d.id) before after q,
  any-append (is_of d.id) (before ++ after) new,
  any-append (is_of settled.id) (before ++ after) new,
  eq_iff d.id id,
  eq_iff q.delivery_id d.id,
)

pub any-queued :
    (id : String) (job : Option Job)
    → is_some job ≡ true
    → any (is_of id) (queued_for id job) ≡ true
any-queued id none h = cc
any-queued id (some job) h = ground (arith, eq_refl id)

pub find-id :
    (id : String) (ds : List WebhookDelivery) (d : WebhookDelivery)
    → find (λ r. r.id == id) ds ≡ some d
    → d.id ≡ id
find-id id [] d e = cc
find-id id (r ∷ ds) d e = ground (arith, eq_iff r.id id, find-id id ds d)

covered-cons :
    (q : QueuedJob) (jobs : List QueuedJob) (ds : List WebhookDelivery)
    → is_covered jobs ds ≡ true
    → is_covered (q ∷ jobs) ds ≡ true
covered-cons q jobs [] c = refl
covered-cons q jobs (d ∷ ds) c = ground (arith, covered-cons q jobs ds)

pub covered-first_attempts : (ds : List WebhookDelivery) → is_covered (first_attempts ds) ds ≡ true
covered-first_attempts [] = refl
covered-first_attempts (d ∷ ds) = ground (
  arith,
  eq_refl d.id,
  covered-cons (queued d.id (record { attempt = 1; delay_ms = 0 })) (first_attempts ds) ds
      (covered-first_attempts ds),
)

pub sum-first_attempts :
    (ds : List WebhookDelivery) → sum requests_left (first_attempts ds) ≡ 3 * length ds
sum-first_attempts [] = refl
sum-first_attempts (d ∷ ds) = omega (arith, sum-first_attempts ds)

pub covered-nil :
    (ds : List WebhookDelivery) → is_covered [] ds ≡ true → all (λ d. not (is_pending d)) ds ≡ true
covered-nil [] c = refl
covered-nil (d ∷ ds) c = ground (arith, covered-nil ds)

pub jobs_or_none :
    (jobs : List QueuedJob)
    → (jobs ≡ []) ⊎ ((q : QueuedJob) × (rest : List QueuedJob) × (jobs ≡ q ∷ rest))
jobs_or_none [] = inl refl
jobs_or_none (q ∷ rest) = inr (q, rest, refl)
