-- ===== src/Webhooks/Controller/Subscribing.antt =====
-- A new subscription, and whom the end of a contest is sent to afterwards.
use codeweaknesses.Common.{
  ap, filter, Option, Option-cases, inl, inr, ◌≡◌, refl, ◌∙◌, arith, true, false, none, some, ◌&&◌,
  any, find, filter-append, or_else, ◌==◌, eq_iff, String, Bool, List, [], ◌∷◌, ◌++◌, if◌then◌else◌,
}
use codeweaknesses.Common.Results.{ok}
use codeweaknesses.Webhooks.{
  WebhookSubscription, CreateSubscriptionDto, create_subscription, is_for,
  find_active_by_contest_id,
}
use codeweaknesses.Webhooks.Service.{find_one}
use codeweaknesses.Webhooks.Controller.{create, get, handle}

-- Whether a contest is the one that is named.
abbrev pub is_named : String → Option String → Bool
is_named contest_id none = false
is_named contest_id (some id) = id == contest_id

find-snoc :
    (id : String) (s : WebhookSubscription) (rows : List WebhookSubscription)
    → any (λ r. r.id == id) rows ≡ false
    → s.id ≡ id
    → find (λ r. r.id == id) (rows ++ s ∷ []) ≡ some s
find-snoc id s [] h e = ground (arith, eq_iff s.id id, e)
find-snoc id s (r ∷ rows) h e = ground (arith, h, find-snoc id s rows (ground (arith, h)) e)

find-append :
    (id : String) (r : WebhookSubscription) (rows more : List WebhookSubscription)
    → find (λ s. s.id == id) rows ≡ some r
    → find (λ s. s.id == id) (rows ++ more) ≡ some r
find-append id r [] more h = cc
find-append id r (s ∷ rows) more h = ground (arith, find-append id r rows more)

handle-get :
    (is_valid : CreateSubscriptionDto → Bool) (new_id random_hex id : String)
    (rows : List WebhookSubscription) (s : WebhookSubscription)
    → find (λ r. r.id == id) rows ≡ some s
    → handle is_valid new_id random_hex (get id) rows ≡ ok (s ∷ [], rows)
unfolding handle find_one
handle-get is_valid new_id random_hex id rows s e = ground (arith, e)

is_for-create_subscription :
    (contest_id new_id random_hex : String) (dto : CreateSubscriptionDto)
    → is_for contest_id (create_subscription dto new_id random_hex)
      ≡ (or_else dto.active true && is_named contest_id dto.contest_id)
unfolding create_subscription
is_for-create_subscription contest_id new_id random_hex dto = elim (Option-cases dto.contest_id) [
  | inl e ↦ ground (arith, e)
  | inr (id, e) ↦ ground (arith, e)
]

-- A valid body that names a contest, with an identifier that no subscription has: the subscription that is answered is
-- found under its identifier afterwards, and those that were found before still are. When a contest
-- ends, those that are notified are those before, and the new one if the
-- body names that contest, and does not ask for an inactive subscription.
pub handle-subscribes :
    (is_valid : CreateSubscriptionDto → Bool) (new_id random_hex contest_id named known : String)
    (dto : CreateSubscriptionDto) (subscriptions : List WebhookSubscription)
    (old : WebhookSubscription)
    → is_valid dto ≡ true
    → dto.contest_id ≡ some named
    → any (λ s. s.id == new_id) subscriptions ≡ false
    → find (λ s. s.id == known) subscriptions ≡ some old
    → (sub : WebhookSubscription) × (after : List WebhookSubscription) × (handle is_valid new_id
          random_hex
          (create dto)
          subscriptions
        ≡ ok (sub ∷ [], after))
      × (handle is_valid new_id random_hex (get new_id) after ≡ ok (sub ∷ [], after))
      × (handle is_valid new_id random_hex (get known) after ≡ ok (old ∷ [], after))
      × (find_active_by_contest_id contest_id after
          ≡ find_active_by_contest_id contest_id subscriptions
            ++ (if or_else dto.active true && named == contest_id then sub ∷ [] else []))
unfolding handle create_subscription find_one find_active_by_contest_id
handle-subscribes is_valid new_id random_hex contest_id named known dto subscriptions old valid
      names new there =
    let sub = create_subscription dto new_id random_hex in
    (
      sub,
      subscriptions ++ sub ∷ [],
      rw valid refl,
      handle-get is_valid new_id random_hex new_id (subscriptions ++ sub ∷ []) sub
          (find-snoc new_id sub subscriptions new refl),
      handle-get is_valid new_id random_hex known (subscriptions ++ sub ∷ []) old
          (find-append known old subscriptions (sub ∷ []) there),
      filter-append (is_for contest_id) subscriptions (sub ∷ [])
          ∙ ap (λ b. filter (is_for contest_id) subscriptions ++ (if b then sub ∷ [] else []))
              (is_for-create_subscription contest_id new_id random_hex dto ∙ ground (arith, names)),
    )
