-- ===== src/Webhooks/Listener.antt =====
-- `handleContestFinished` (src/webhooks/contest-finished.listener.ts). The submissions are those that
-- the query returns, best score first, and the new deliveries' identifiers are arguments.
use codeweaknesses.Common.{
  ap, filter, map, Option-cases, ℕ, suc, ◌+◌, String, ◌≡◌, refl, true, Option, none, some, List, [],
  ◌∷◌, arith, All, eq_iff, Bool-cases, inl, inr,
}
use codeweaknesses.Common.Int.{sub_ℕ, floor_div, max_zero}
use codeweaknesses.Entities.{Contest, Submission}
use codeweaknesses.Webhooks.{
  WebhookSubscription, WebhookDelivery, find_active_by_contest_id, is_for, create_delivery, pending,
}

pub record Winner : Type 0 where
  pub name : String
  pub score : ℕ
  pub solve_time_seconds : Option ℕ

pub record FinishedPayload : Type 0 where
  pub contest_id : String
  pub contest_title : String
  pub winner : Option Winner

-- `Math.max(0, Math.round((completedAt - startTime) / 1000))`; a half is rounded up.
unfoldable pub solve_seconds : ℕ → ℕ → ℕ
solve_seconds start completed = max_zero (floor_div (sub_ℕ (completed + 500) start) 1000)

unfoldable pub winner_of : Contest → List Submission → Option Winner
unfolding solve_seconds
winner_of contest [] = none
winner_of contest (winner ∷ others) = some (record {
  name = elim winner.user [ none ↦ "unknown" | some u ↦ u.name ];
  score = winner.score;
  solve_time_seconds = elim winner.completed_at [
    | none ↦ none
    | some at ↦ some (solve_seconds contest.start_time at)
  ];
})

unfoldable pub payload_of : Contest → List Submission → FinishedPayload
unfolding winner_of
payload_of contest submissions = record {
  contest_id = contest.id;
  contest_title = contest.title;
  winner = winner_of contest submissions;
}

-- One round of the loop creates a delivery, and enqueues its first attempt with no delay.
unfoldable pub fan_out : String → (ℕ → String) → ℕ → List WebhookSubscription → List WebhookDelivery
fan_out snapshot new_id i [] = []
fan_out snapshot new_id i (s ∷ rest) =
    create_delivery s snapshot (new_id i) ∷ fan_out snapshot new_id (suc i) rest

unfoldable pub handle_contest_finished :
    (FinishedPayload → String)
    → (ℕ → String)
    → Option Contest
    → List Submission
    → List WebhookSubscription
    → List WebhookDelivery
unfolding fan_out
handle_contest_finished stringify new_id none submissions table = []
handle_contest_finished stringify new_id (some contest) submissions table =
    fan_out (stringify (payload_of contest submissions)) new_id 0
      (find_active_by_contest_id contest.id table)

-- A new delivery of a snapshot to a subscription that is active and named the contest.
abbrev pub IsDue : String → String → WebhookDelivery → Type 0
IsDue contest_id snapshot d =
    (d.subscription.contest_id ≡ some contest_id)
    × (d.subscription.active ≡ true)
    × (d.payload ≡ snapshot)
    × (d.status ≡ pending)
    × (d.attempts ≡ 0)

is_for_lem :
    (c : String) (s : WebhookSubscription)
    → is_for c s ≡ true
    → (s.contest_id ≡ some c) × (s.active ≡ true)
is_for_lem c s e = elim (Option-cases s.contest_id) [
  | inl n ↦ absurd (ground (arith, n, e))
  | inr (id, n) ↦ ground (arith, n, e, eq_iff id c)
]

abbrev pub receiver_of : WebhookDelivery → WebhookSubscription
receiver_of d = d.subscription

fan_out_lem :
    (contest_id snapshot : String) (new_id : ℕ → String) (i : ℕ) (table : List WebhookSubscription)
    → All
        (IsDue contest_id snapshot)
        (fan_out snapshot new_id i (find_active_by_contest_id contest_id table))
      × (map receiver_of (fan_out snapshot new_id i (find_active_by_contest_id contest_id table))
          ≡ filter (is_for contest_id) table)
unfolding fan_out find_active_by_contest_id create_delivery
fan_out_lem contest_id snapshot new_id i [] = (tt, refl)
fan_out_lem contest_id snapshot new_id i (s ∷ rest) = elim (Bool-cases (is_for contest_id s)) [
  | inl e ↦
      let (ds, n) = fan_out_lem contest_id snapshot new_id (suc i) rest in
      let (a, b) = is_for_lem contest_id s e in
      rw e (((a, b, refl, refl, refl), ds), ap (λ ss. s ∷ ss) n)
  | inr e ↦ let (ds, n) = fan_out_lem contest_id snapshot new_id i rest in rw e (ds, n)
]

-- When a contest ends, a pending delivery of one and the same payload is made for each active
-- subscription to that very contest, and for no other: not for one without a contest.
pub handle_contest_finished-IsDue :
    (stringify : FinishedPayload → String) (new_id : ℕ → String) (contest : Contest)
    (submissions : List Submission) (table : List WebhookSubscription)
    → let ds = handle_contest_finished stringify new_id (some contest) submissions table in
      All (IsDue contest.id (stringify (payload_of contest submissions))) ds
      × (map receiver_of ds ≡ filter (is_for contest.id) table)
unfolding handle_contest_finished
handle_contest_finished-IsDue stringify new_id contest submissions table =
    fan_out_lem contest.id (stringify (payload_of contest submissions)) new_id 0 table
