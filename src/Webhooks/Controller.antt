-- ===== src/Webhooks/Controller.antt =====
-- The routes of src/webhooks/webhooks.controller.ts, on the table of subscriptions. Which bodies the
-- `ValidationPipe` lets through is an argument, and so are the new identifier and the random secret.
pub mod Subscribing
use codeweaknesses.Common.{
  ap, filter, Option, Option-cases, Bool-cases, inl, inr, ◌≡◌, refl, ◌∙◌, arith, true, false, none,
  some, ◌&&◌, any, find, filter-append, or_else, ◌==◌, eq_iff, String, Bool, List, [], ◌∷◌, ◌++◌,
  if◌then◌else◌,
}
use codeweaknesses.Common.Results.{Result, ok, err, bad_request, ◌>>=◌}
use codeweaknesses.Webhooks.{
  WebhookSubscription, CreateSubscriptionDto, create_subscription, is_for,
  find_active_by_contest_id,
}
use codeweaknesses.Webhooks.Service.{find_one}

-- `subsRepo.find()`
unfoldable pub find_all : List WebhookSubscription → List WebhookSubscription
find_all subscriptions = subscriptions

pub data Request : Type 0 where
  create : CreateSubscriptionDto → Request
  list : Request
  get : String → Request

-- The subscriptions that are answered, and the table.
unfoldable pub handle :
    (CreateSubscriptionDto → Bool)
    → String
    → String
    → Request
    → List WebhookSubscription
    → Result (List WebhookSubscription × List WebhookSubscription)
unfolding find_one find_all create_subscription
handle is_valid new_id random_hex (create dto) subscriptions =
    if is_valid dto
    then (let sub = create_subscription dto new_id random_hex in
        ok (sub ∷ [], subscriptions ++ sub ∷ []))
    else err (bad_request "Bad Request Exception")
handle is_valid new_id random_hex list subscriptions = ok (find_all subscriptions, subscriptions)
handle is_valid new_id random_hex (get id) subscriptions =
    find_one id subscriptions >>= λ sub. ok (sub ∷ [], subscriptions)
