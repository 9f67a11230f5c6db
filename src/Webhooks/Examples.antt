-- ===== src/Webhooks/Examples.antt =====
-- A subscription, its delivery, and a receiver that answers at the second attempt.
use codeweaknesses.Common.{
  is_some, ◌==◌, map, ◌&&◌, ◌++◌, filter, ◌⊎◌, not, all, ◌*◌, List, ℕ, zero, suc, String, ◌≡◌, ◌≤◌,
  refl, true, false, none, some, [], ◌∷◌, ◌||◌, All, length, or_else, if◌then◌else◌,
}
use codeweaknesses.Entities.{Contest}
use codeweaknesses.Webhooks.{
  create_delivery, find_active_by_contest_id, value, WebhookSubscription, WebhookDelivery, pending,
  Json, sent, failed,
}
use codeweaknesses.Webhooks.Delivery.{Response, answered, network_error, drain}
use codeweaknesses.Webhooks.Retries.{drain_lem, is_sent}
use codeweaknesses.Webhooks.Queueing.{
  Deliveries, Reach, here, next, Step, run_job, started, after_job, is_pending,
}
use codeweaknesses.Webhooks.Queueing.Draining.{Reach-drains}
use codeweaknesses.Webhooks.Service.{queued, process_job}
use codeweaknesses.Contests.{finish_expired_contests, finish_each, save, is_expired}
use codeweaknesses.Webhooks.Announcing.{subscribed, announce, finish_expired_contests-delivers}
use codeweaknesses.Common.Results.{ok}
use codeweaknesses.Webhooks.{CreateSubscriptionDto}
use codeweaknesses.Webhooks.Controller.{create, get, handle}
use codeweaknesses.Webhooks.Controller.Subscribing.{handle-subscribes}
use codeweaknesses.Webhooks.Listener.{
  receiver_of, fan_out, FinishedPayload, handle_contest_finished,
}

-- Values that stand for their own text.
abbrev json : Json
json = record {
  Value = String;
  stringify = λ v. v;
  parse = λ s. some (value s);
  parse_stringify = λ v. refl;
}

abbrev hmac : String → String → String
hmac secret message = secret

abbrev subscription : WebhookSubscription
subscription = record {
  id = "w";
  target_url = "https://example.org/hook";
  secret = some "key";
  contest_id = some "c";
  active = true;
}

abbrev delivery : WebhookDelivery
delivery = record {
  id = "d";
  subscription = subscription;
  status = pending;
  attempts = 0;
  last_attempt_at = none;
  response_code = none;
  payload = "{}";
}

abbrev receiver : ℕ → Response
receiver zero = network_error
receiver (suc zero) = answered false 500
receiver (suc (suc n)) = answered true 200

abbrev spring_round : Contest
spring_round = record {
  id = "c";
  title = "Spring round";
  start_time = 0;
  end_time = 3600000;
  finished_at = some 3600000;
  deleted_at = none;
}

abbrev print : FinishedPayload → String
print p = p.contest_title

abbrev named : ℕ → String
named n = "d"

drain_lem_example :
    ((drain receiver 3 1 7 delivery).0.status ≡ (
      if is_sent (receiver 1) || (is_sent (receiver 2) || is_sent (receiver 3))
      then sent
      else failed))
    × ((drain receiver 3 1 7 delivery).2
        ≡ (if is_sent (receiver 1) then 1 else if is_sent (receiver 2) then 2 else 3))
    × ((drain receiver 3 1 7 delivery).0.attempts ≡ (drain receiver 3 1 7 delivery).2)
drain_lem_example = drain_lem receiver 0 7 delivery refl

-- The first attempt succeeds.
abbrev deliveries : List WebhookDelivery
deliveries = delivery ∷ []

after_first : Deliveries
after_first =
    after_job (process_job hmac json "d" 1 (answered true 200) 7 deliveries) [] (started deliveries)

first_run : Reach hmac json (started deliveries) 1 after_first
unfolding after_first
first_run =
    next here
      (run_job [] (queued "d" (record { attempt = 1; delay_ms = 0 })) [] (answered true 200) 7 refl)

Reach-drains_example :
    (1 ≤ 3 * length deliveries)
    × (length after_first.requests ≤ 3 * length deliveries)
    × (((after_first.jobs ≡ []) × (all (λ d. not (is_pending d)) after_first.deliveries ≡ true))
        ⊎ ((u : Deliveries) × Step hmac json after_first u))
Reach-drains_example = Reach-drains hmac json deliveries 1 after_first refl first_run

-- The round of a contest that has ended, and of one that goes on; both have a subscription.
abbrev rounds : List Contest
rounds =
    record spring_round { finished_at = none }
    ∷ record spring_round { finished_at = none; id = "d"; end_time = 9000000 }
    ∷ []

abbrev hooks : List WebhookSubscription
hooks = subscription ∷ record subscription { id = "x"; contest_id = some "d" } ∷ []

abbrev encode : FinishedPayload → String
encode p = p.contest_title

abbrev announced : List WebhookDelivery
announced =
    let (after, emitted) = finish_expired_contests 5000000 rounds in
    announce encode (λ id n. id) (λ id. []) after hooks emitted

announced_after : Deliveries
announced_after =
    after_job (process_job hmac json "c" 1 (answered true 200) 7 announced) [] (started announced)

announced_run : Reach hmac json (started announced) 1 announced_after
unfolding announced_after finish_expired_contests finish_each save handle_contest_finished fan_out
    find_active_by_contest_id create_delivery
announced_run =
    next here
      (run_job [] (queued "c" (record { attempt = 1; delay_ms = 0 })) [] (answered true 200) 7 refl)

finish_expired_contests-delivers_example :
    let (after, emitted) = finish_expired_contests 5000000 rounds in
    let ended = filter (is_expired 5000000) rounds in
    (map receiver_of announced ≡ subscribed hooks ended)
    × All (λ d. (d.status ≡ pending) × (is_some (json.parse d.payload) ≡ true)) announced
    × (1 ≤ 3 * length announced)
    × (length announced_after.requests ≤ 3 * length announced)
    × (((announced_after.jobs ≡ [])
          × (all (λ d. not (is_pending d)) announced_after.deliveries ≡ true))
        ⊎ ((u : Deliveries) × Step hmac json announced_after u))
    × (announce encode (λ id n. id) (λ id. []) after hooks (finish_expired_contests 5000000 after).1
        ≡ [])
finish_expired_contests-delivers_example =
    finish_expired_contests-delivers 5000000 rounds json encode (λ id n. id) (λ id. []) hooks hmac 1
      announced_after announced_run

abbrev wish : CreateSubscriptionDto
wish = record {
  target_url = "https://example.org/other";
  secret = none;
  contest_id = some "d";
  active = none;
}

handle-subscribes_example :
    (sub : WebhookSubscription) × (after : List WebhookSubscription) × (handle
        (λ dto. true)
        "y"
        "0f"
        (create wish)
        hooks
      ≡ ok (sub ∷ [], after))
    × (handle (λ dto. true) "y" "0f" (get "y") after ≡ ok (sub ∷ [], after))
    × (handle (λ dto. true) "y" "0f" (get "w") after ≡ ok (subscription ∷ [], after))
    × (find_active_by_contest_id "d" after
        ≡ find_active_by_contest_id "d" hooks
          ++ (if or_else wish.active true && "d" == "d" then sub ∷ [] else []))
handle-subscribes_example =
    handle-subscribes (λ dto. true) "y" "0f" "d" "d" "w" wish hooks subscription refl refl refl refl
