-- ===== src/Webhooks/Queueing/Draining.antt =====
-- The queue of deliveries is emptied, and what is true then.
use mathlib.Core.List.{append-nil}
use codeweaknesses.Common.{
  sum-append, ◌⊎◌, ℕ, ◌+◌, ◌*◌, ◌≤◌, String, ◌≡◌, refl, ap, sym, ◌∙◌, true, not, none, some, List,
  [], ◌∷◌, ◌++◌, map, all, sum, find, length, arith, is_some, if◌then◌else◌, ◌==◌, Option-cases,
  inl, inr, length-append,
}
use codeweaknesses.Webhooks.{WebhookDelivery, Json}
use codeweaknesses.Webhooks.Delivery.{
  network_error, Response, Request, settle, request_for, process,
}
use codeweaknesses.Webhooks.Service.{queued_for, process_job, find_delivery, update_delivery}
use codeweaknesses.Webhooks.Queueing.{
  Deliveries, after_job, is_pending, requests_left, Step, run_job, Reach, here, next, started,
}
use codeweaknesses.Webhooks.Queueing.Coverage.{
  is_covered, settle-pending, sum-split, covered-none, covered-settled, any-queued, find-id,
  covered-first_attempts, sum-first_attempts, covered-nil, jobs_or_none,
}

module _ (hmac_sha256 : String → String → String) (j : Json) where
  -- What the steps keep: payloads can be read, and every pending delivery has a job.
  record IsQueued (s : Deliveries) : Type 0 where
    readable : all (λ d. is_some (j.parse d.payload)) s.deliveries ≡ true
    covered : is_covered s.jobs s.deliveries ≡ true

  find-readable :
      (id : String) (ds : List WebhookDelivery) (d : WebhookDelivery)
      → all (λ r. is_some (j.parse r.payload)) ds ≡ true
      → find (λ r. r.id == id) ds ≡ some d
      → is_some (j.parse d.payload) ≡ true
  find-readable id [] d h e = cc
  find-readable id (r ∷ ds) d h e = ground (arith, find-readable id ds d)

  readable-update :
      (id : String) (settled : WebhookDelivery) (ds : List WebhookDelivery)
      → is_some (j.parse settled.payload) ≡ true
      → all (λ r. is_some (j.parse r.payload)) ds ≡ true
      → all (λ r. is_some (j.parse r.payload)) (map (λ r. if r.id == id then settled else r) ds)
        ≡ true
  readable-update id settled [] h c = refl
  readable-update id settled (r ∷ ds) h c = ground (arith, readable-update id settled ds h)

  -- A run of `process` whose payload can be read, on a delivery that is there.
  process_job-some :
      (id : String) (attempt : ℕ) (response : Response) (now : ℕ) (ds : List WebhookDelivery)
      (d : WebhookDelivery)
      → find (λ r. r.id == id) ds ≡ some d
      → is_some (j.parse d.payload) ≡ true
      → (request : Request) × (process_job hmac_sha256 j id attempt response now ds
          ≡ some (record {
            deliveries =
                map (λ r. if r.id == d.id then (settle attempt response now d).0 else r) ds;
            requests = request ∷ [];
            jobs = queued_for d.id (settle attempt response now d).1;
          }))
  unfolding process_job find_delivery update_delivery process
  process_job-some id attempt response now ds d e h = elim (Option-cases (j.parse d.payload)) [
    | inl p ↦ absurd (ground (arith, p))
    | inr (payload, p) ↦ (request_for hmac_sha256 j d.subscription payload, ground (arith, e, p))
  ]

  process_job-none :
      (id : String) (attempt : ℕ) (response : Response) (now : ℕ) (ds : List WebhookDelivery)
      → find (λ r. r.id == id) ds ≡ none
      → process_job hmac_sha256 j id attempt response now ds
        ≡ some (record { deliveries = ds; requests = []; jobs = [] })
  unfolding process_job find_delivery
  process_job-none id attempt response now ds e = ground (arith, e)

  -- A step keeps that, and spends at least one of the requests that are left.
  record IsProgress (s t : Deliveries) : Type 0 where
    queued_still : IsQueued t
    spent : sum requests_left t.jobs + 1 ≤ sum requests_left s.jobs
    requested : length t.requests ≤ length s.requests + 1

  Step-IsProgress : {s t : Deliveries} → IsQueued s → Step hmac_sha256 j s t → IsProgress s t
  unfolding after_job
  Step-IsProgress {s} v (run_job before q after response now e) =
      elim (Option-cases (find (λ d. d.id == q.delivery_id) s.deliveries)) [
        | inl f ↦
            rw (process_job-none q.delivery_id q.attempt response now s.deliveries f) (record {
              queued_still = record {
                readable = v.readable;
                covered =
                    rw (append-nil (before ++ after))
                      (covered-none before after q s.deliveries f (rw e at v.covered));
              };
              spent = ground (arith, e, append-nil (before ++ after), sum-split before after q);
              requested = ground (arith, append-nil s.requests);
            })
        | inr (d, f) ↦
            let (request, p) =
              process_job-some q.delivery_id q.attempt response now s.deliveries d f
                (find-readable q.delivery_id s.deliveries d v.readable f) in
            let (same, id_kept, payload_kept, left) = settle-pending q.attempt response now d in
            rw p (record {
              queued_still = record {
                readable =
                    readable-update d.id (settle q.attempt response now d).0 s.deliveries
                      (rw payload_kept (find-readable q.delivery_id s.deliveries d v.readable f))
                      v.readable;
                covered =
                    covered-settled before after
                      (queued_for d.id (settle q.attempt response now d).1) q
                      (settle q.attempt response now d).0 d.id s.deliveries
                      (sym (find-id q.delivery_id s.deliveries d f)) id_kept
                      (λ h. any-queued d.id (settle q.attempt response now d).1 (sym same ∙ h))
                      (rw e at v.covered);
              };
              spent = omega (
                arith,
                ap (sum requests_left) e,
                left,
                sum-split before after q,
                sum-append requests_left (before ++ after)
                    (queued_for d.id (settle q.attempt response now d).1),
              );
              requested = omega (arith, length-append s.requests (request ∷ []));
            })
      ]

  Reach-IsProgress :
      {s t : Deliveries} {n : ℕ}
      → IsQueued s
      → Reach hmac_sha256 j s n t
      → IsQueued t
        × (sum requests_left t.jobs + n ≤ sum requests_left s.jobs)
        × (length t.requests ≤ length s.requests + n)
  Reach-IsProgress v here = (v, omega arith, omega arith)
  Reach-IsProgress v (next r step) =
      let (w, spent, requested) = Reach-IsProgress v r in
      let p = Step-IsProgress w step in
      (p.queued_still, omega (arith, spent, p.spent), omega (arith, requested, p.requested))

-- In whatever order a worker takes the jobs of deliveries whose payloads can be read, beginning with the
-- first attempt of each, at whatever times, and whatever the receivers answer: it takes at most three
-- jobs, and sends at most three requests, for each delivery. As long as it is not done there is a job
-- for it to take; when it is done, no delivery is left pending.
pub Reach-drains :
    (hmac_sha256 : String → String → String) (j : Json) (ds : List WebhookDelivery) (n : ℕ)
    (t : Deliveries)
    → all (λ d. is_some (j.parse d.payload)) ds ≡ true
    → Reach hmac_sha256 j (started ds) n t
    → (n ≤ 3 * length ds)
      × (length t.requests ≤ 3 * length ds)
      × (((t.jobs ≡ []) × (all (λ d. not (is_pending d)) t.deliveries ≡ true))
          ⊎ ((u : Deliveries) × Step hmac_sha256 j t u))
Reach-drains hmac_sha256 j ds n t h r =
    let (v, spent, requested) =
      Reach-IsProgress hmac_sha256 j (record { readable = h; covered = covered-first_attempts ds })
        r in
    (
      omega (arith, spent, sum-first_attempts ds),
      omega (arith, requested, spent, sum-first_attempts ds),
      elim (jobs_or_none t.jobs) [
        | inl e ↦ inl (e, covered-nil t.deliveries (rw e at v.covered))
        | inr (q, rest, e) ↦ inr (_, run_job [] q rest network_error 0 e)
      ],
    )
