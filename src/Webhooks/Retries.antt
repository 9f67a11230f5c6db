-- ===== src/Webhooks/Retries.antt =====
-- How often a delivery is tried, after which delays, and how it ends.
use codeweaknesses.Common.{
  ◌∙◌, ap, some, String, ◌^◌, ◌-◌, sym, or_else, refl, ℕ, zero, suc, ◌≤◌, ◌≡◌, Bool, false, ◌||◌,
  arith, if◌then◌else◌,
}
use native.Mathlib.Nat.{pow-suc}
use codeweaknesses.Webhooks.{
  Json, snapshot_payload, sign_payload, value, sent, failed, WebhookDelivery, get_retry_delay_ms,
}
use codeweaknesses.Webhooks.Delivery.{
  Request, process, request_for, Response, answered, network_error, settle, drain,
}

pow_pos : (n : ℕ) → 1 ≤ 2 ^ n
pow_pos zero = omega arith
pow_pos (suc n) = omega (arith, pow_pos n, pow-suc 2 n)

-- The delay grows with the attempt, and stays between one second and fifteen.
get_retry_delay_ms-bounds :
    (attempt : ℕ)
    → (1000 ≤ get_retry_delay_ms attempt)
      × (get_retry_delay_ms attempt ≤ 15000)
      × (get_retry_delay_ms attempt ≤ get_retry_delay_ms (suc attempt))
unfolding get_retry_delay_ms
get_retry_delay_ms-bounds zero = omega arith
get_retry_delay_ms-bounds (suc n) =
    let e : suc n - 1 ≡ n = omega arith in
    let f : suc (suc n) - 1 ≡ suc n = omega arith in
    rw (e, f) (omega (arith, pow_pos n, pow-suc 2 n))

abbrev pub is_sent : Response → Bool
is_sent (answered is_ok status) = is_ok
is_sent network_error = false

-- With fuel for three jobs or more the queue of a new delivery is emptied: at most three requests are
-- made, until one is answered with success; the delivery ends as sent exactly if one of the three
-- responses is a success, and as failed otherwise, and its attempts are the requests that were made.
pub drain_lem :
    (responses : ℕ → Response) (more now : ℕ) (d : WebhookDelivery)
    → d.attempts ≡ 0
    → ((drain responses (suc (suc (suc more))) 1 now d).0.status ≡ (
        if is_sent (responses 1) || (is_sent (responses 2) || is_sent (responses 3))
        then sent
        else failed))
      × ((drain responses (suc (suc (suc more))) 1 now d).2
          ≡ (if is_sent (responses 1) then 1 else if is_sent (responses 2) then 2 else 3))
      × ((drain responses (suc (suc (suc more))) 1 now d).0.attempts
          ≡ (drain responses (suc (suc (suc more))) 1 now d).2)
unfolding drain settle get_retry_delay_ms
drain_lem responses more now d fresh = ground (arith, fresh)

-- A stored payload that was printed from a JSON value is sent as it is stored, with the signature of
-- exactly the body that is sent, under the secret of the subscription.
pub process-signed :
    (hmac_sha256 : String → String → String) (j : Json) (v : j.Value) (attempt : ℕ)
    (response : Response) (now : ℕ) (d : WebhookDelivery)
    → d.payload ≡ j.stringify v
    → (r : Request) × (process hmac_sha256 j attempt response now d
        ≡ some (r, settle attempt response now d))
      × (r.body ≡ d.payload)
      × (r.signature ≡ sign_payload hmac_sha256 (or_else d.subscription.secret "") r.body)
unfolding process request_for snapshot_payload
process-signed hmac_sha256 j v attempt response now d e =
    let parsed : j.parse d.payload ≡ some (value v) = ap j.parse e ∙ j.parse_stringify v in
    (request_for hmac_sha256 j d.subscription (value v), rw (parsed, process) refl, sym e, refl)
