-- ===== src/Webhooks.antt =====
-- src/webhooks: subscriptions, signed deliveries with retries, and the fan-out when a contest ends.
-- HMAC, `JSON` and `fetch` stand outside the program and are parameters.
mod Examples
pub mod Announcing
pub mod Controller
pub mod Delivery
pub mod Listener
pub mod Retries
pub mod Queueing
pub mod Service
use Prim.Native.String
use Prim.Native.Nat.{max, min}
use codeweaknesses.Common.{
  ◌≡◌, ℕ, ◌+◌, ◌-◌, ◌*◌, ◌^◌, String, Bool, true, false, ◌&&◌, Option, none, some, List, [], ◌∷◌,
  or_else, filter, if◌then◌else◌, ◌==◌, leb,
}

pub data DeliveryStatus : Type 0 where
  pending sent failed : DeliveryStatus

pub record WebhookSubscription : Type 0 where
  pub id : String
  pub target_url : String
  pub secret : Option String
  pub contest_id : Option String
  pub active : Bool

pub record WebhookDelivery : Type 0 where
  pub id : String
  pub subscription : WebhookSubscription
  pub status : DeliveryStatus
  pub attempts : ℕ
  pub last_attempt_at : Option ℕ
  pub response_code : Option ℕ
  pub payload : String

pub record CreateSubscriptionDto : Type 0 where
  pub target_url : String
  pub secret : Option String
  pub contest_id : Option String
  pub active : Option Bool

-- `create`, where `random_hex` is what `randomBytes(32).toString('hex')` gives.
unfoldable pub create_subscription : CreateSubscriptionDto → String → String → WebhookSubscription
create_subscription dto id random_hex = record {
  id = id;
  target_url = dto.target_url;
  secret = some (or_else dto.secret random_hex);
  contest_id = dto.contest_id;
  active = or_else dto.active true;
}

-- `where: { contestId, active: true }`; a null column equals no identifier.
abbrev pub is_for : String → WebhookSubscription → Bool
is_for contest_id s = elim s.contest_id [ none ↦ false | some id ↦ id == contest_id && s.active ]

unfoldable pub find_active_by_contest_id :
    String → List WebhookSubscription → List WebhookSubscription
find_active_by_contest_id contest_id table = filter (is_for contest_id) table

-- An exponent of `attempt - 1` stops at 0, as `Math.max(0, attempt - 1)` does.
unfoldable pub get_retry_delay_ms : ℕ → ℕ
get_retry_delay_ms attempt = min (1000 * 2 ^ (attempt - 1)) 15000

-- `typeof payload === 'string'`, or any other value.
pub data Payload (Value : Type 0) : Type 0 where
  text : String → Payload Value
  value : Value → Payload Value

-- The JSON values other than strings, and their text: what is printed from one can be read back.
pub record Json : Type 1 where
  pub Value : Type 0
  pub stringify : Value → String
  pub parse : String → Option (Payload Value)
  pub parse_stringify : (v : Value) → parse (stringify v) ≡ some (value v)

module _ (hmac_sha256 : String → String → String) where
  unfoldable pub sign_payload : String → String → String
  sign_payload secret payload = String.◌++◌ "sha256=" (hmac_sha256 secret payload)

unfoldable pub snapshot_payload : (j : Json) → Payload j.Value → String
snapshot_payload j (text s) = s
snapshot_payload j (value v) = j.stringify v

unfoldable pub create_delivery : WebhookSubscription → String → String → WebhookDelivery
create_delivery subscription snapshot id = record {
  id = id;
  subscription = subscription;
  status = pending;
  attempts = 0;
  last_attempt_at = none;
  response_code = none;
  payload = snapshot;
}
