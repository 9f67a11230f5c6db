-- ===== src/Webhooks/Announcing.antt =====
-- From the end of contests to the deliveries: what `finishExpiredContests` of
-- src/contest/contest.service.ts emits is heard by src/webhooks/contest-finished.listener.ts, whose deliveries the worker
-- of webhooks takes.
use mathlib.Core.List.{map-append}
use codeweaknesses.Common.{
  ℕ, ◌*◌, ◌≤◌, String, ◌≡◌, refl, ap, ◌∙◌, Bool, true, ◌&&◌, not, Option, some, List, [], ◌∷◌, ◌++◌,
  map, filter, find, all, any, length, All, arith, is_some, ◌==◌, eq_iff, eq_refl, ◌⊎◌, inl, inr,
  Option-cases, All-append, All-mono, all_mono, find-some,
}
use codeweaknesses.Entities.{Contest, Submission}
use codeweaknesses.Contests.{
  finish_expired_contests, finish_each, is_expired, is_there, save, finish,
}
use codeweaknesses.Contests.Expiry.{finish_expired_contests-once, id_of}
use codeweaknesses.Webhooks.{WebhookSubscription, WebhookDelivery, Json, is_for, pending}
use codeweaknesses.Webhooks.Listener.{
  receiver_of, FinishedPayload, handle_contest_finished, handle_contest_finished-IsDue, IsDue,
  payload_of,
}
use codeweaknesses.Webhooks.Queueing.{Deliveries, Reach, Step, started, is_pending}
use codeweaknesses.Webhooks.Queueing.Draining.{Reach-drains}

-- `findOne({ where: { id } })`
abbrev pub find_contest : String → List Contest → Option Contest
find_contest id contests = find (λ c. c.id == id && is_there c) contests

-- What the listener makes of each announcement, one after the other. `best_first` answers its query.
abbrev pub announce :
    (FinishedPayload → String)
    → (String → ℕ → String)
    → (String → List Submission)
    → List Contest
    → List WebhookSubscription
    → List String
    → List WebhookDelivery
announce stringify new_id best_first contests subscriptions [] = []
announce stringify new_id best_first contests subscriptions (id ∷ ids) =
    handle_contest_finished stringify (new_id id) (find_contest id contests) (best_first id)
      subscriptions
    ++ announce stringify new_id best_first contests subscriptions ids

-- A row that is there is found after others were finished.
abbrev found_in : List Contest → String → Bool
found_in contests id = is_some (find_contest id contests)

found_in-save :
    (now : ℕ) (c : Contest) (rows : List Contest) (id : String)
    → is_there c ≡ true
    → found_in rows id ≡ true
    → found_in (save (finish now c) rows) id ≡ true
unfolding save
found_in-save now c [] id there h = cc
found_in-save now c (r ∷ rows) id there h =
    ground (arith, found_in-save now c rows id there, eq_iff r.id c.id)

found_in-finish_each :
    (now : ℕ) (rows cs : List Contest) (id : String)
    → all is_there cs ≡ true
    → found_in rows id ≡ true
    → found_in (finish_each now rows cs).0 id ≡ true
unfolding finish_each
found_in-finish_each now rows [] id there h = h
found_in-finish_each now rows (c ∷ cs) id there h =
    found_in-finish_each now (save (finish now c) rows) cs id (ground (arith, there))
      (found_in-save now c rows id (ground (arith, there)) h)

module _ (now : ℕ) where
  abbrev expired : List Contest → List Contest
  expired = filter (is_expired now)

  expired-there : (rows : List Contest) → all is_there (expired rows) ≡ true
  expired-there [] = refl
  expired-there (r ∷ rows) = ground (arith, expired-there rows)

  expired-found : (rows : List Contest) → all (λ c. found_in rows c.id) (expired rows) ≡ true
  expired-found [] = refl
  expired-found (r ∷ rows) = ground (
    arith,
    eq_refl r.id,
    all_mono (λ c. found_in rows c.id) (λ c. found_in (r ∷ rows) c.id) (expired rows)
        (λ x h. ground (arith, h)) (expired-found rows),
  )

  -- Every contest that is announced is found afterwards.
  announced-found :
      (table : List Contest)
      → all (λ c. found_in (finish_expired_contests now table).0 c.id) (expired table) ≡ true
  unfolding finish_expired_contests
  announced-found table =
      all_mono (λ c. found_in table c.id)
        (λ c. found_in (finish_each now table (expired table)).0 c.id) (expired table)
        (λ c h. found_in-finish_each now table (expired table) c.id (expired-there table) h)
        (expired-found table)

-- The active subscriptions that name one of the contests, contest by contest.
abbrev pub subscribed : List WebhookSubscription → List Contest → List WebhookSubscription
subscribed subscriptions [] = []
subscribed subscriptions (c ∷ cs) =
    filter (is_for c.id) subscriptions ++ subscribed subscriptions cs

module _ (j : Json) (encode : FinishedPayload → j.Value) (new_id : String → ℕ → String)
    (best_first : String → List Submission) (contests : List Contest)
    (subscriptions : List WebhookSubscription) where
  abbrev print : FinishedPayload → String
  print p = j.stringify (encode p)

  -- A delivery for one of these contests, whose payload can be read.
  abbrev IsAnnounced : List Contest → WebhookDelivery → Type 0
  IsAnnounced cs d =
      (any (λ c. is_for c.id d.subscription) cs ≡ true)
      × (d.status ≡ pending)
      × (is_some (j.parse d.payload) ≡ true)

  due-IsAnnounced :
      (c : Contest) (cs : List Contest) (x : Contest) (submissions : List Submission)
      → x.id ≡ c.id
      → (d : WebhookDelivery) → IsDue x.id (print (payload_of x submissions)) d
      → IsAnnounced (c ∷ cs) d
  due-IsAnnounced c cs x submissions same d (to, active, payload, status, attempts) = (
    ground (arith, to, active, same, eq_refl c.id),
    status,
    rw (payload, j.parse_stringify (encode (payload_of x submissions))) refl,
  )

  announce-IsAnnounced :
      (cs : List Contest)
      → all (λ c. found_in contests c.id) cs ≡ true
      → All
          (IsAnnounced cs)
          (announce print new_id best_first contests subscriptions (map id_of cs))
        × (map receiver_of (announce print new_id best_first contests subscriptions (map id_of cs))
            ≡ subscribed subscriptions cs)
  announce-IsAnnounced [] h = (tt, refl)
  announce-IsAnnounced (c ∷ cs) h = elim (Option-cases (find_contest c.id contests)) [
    | inl e ↦ absurd (ground (arith, e, h))
    | inr (x, e) ↦
        let same : x.id ≡ c.id =
          ground
            (arith, find-some (λ r. r.id == c.id && is_there r) contests e, eq_iff x.id c.id) in
        let ds =
          handle_contest_finished print (new_id c.id) (some x) (best_first c.id) subscriptions in
        let later = announce print new_id best_first contests subscriptions (map id_of cs) in
        let (due, n) =
          handle_contest_finished-IsDue print (new_id c.id) x (best_first c.id) subscriptions in
        let (announced, m) = announce-IsAnnounced cs (ground (arith, h)) in
        rw e (
          All-append (IsAnnounced (c ∷ cs)) ds later
              (All-mono (IsDue x.id (print (payload_of x (best_first c.id)))) (IsAnnounced (c ∷ cs))
                ds (due-IsAnnounced c cs x (best_first c.id) same) due)
              (All-mono (IsAnnounced cs) (IsAnnounced (c ∷ cs)) later
                (λ d h. (ground (arith, h.0), h.1, h.2)) announced),
          map-append receiver_of ds later
              ∙ ap (λ xs. xs ++ map receiver_of later)
                  (n ∙ ap (λ id. filter (is_for id) subscriptions) same)
              ∙ ap (λ ys. filter (is_for c.id) subscriptions ++ ys) m,
        )
  ]

  announce-readable :
      (cs : List Contest) (ds : List WebhookDelivery)
      → All (IsAnnounced cs) ds
      → all (λ d. is_some (j.parse d.payload)) ds ≡ true
  announce-readable cs [] h = refl
  announce-readable cs (d ∷ ds) h = ground (arith, h.0, announce-readable cs ds h.1)

-- A round that finishes contests, at any time, and then the worker of webhooks, in any order of its jobs and
-- whatever the receivers answer: the deliveries that are made go, one each, to the active subscriptions
-- that name a contest which had ended and was neither finished nor deleted, contest by contest, in
-- the order of the tables; each is pending at first, and its payload can be read. The worker takes at
-- most three jobs and sends at most three requests for each; as long as it is not done there is a job
-- for it to take, and when it is done none of them is pending. A second round at the same time makes
-- no deliveries.
pub finish_expired_contests-delivers :
    (now : ℕ) (table : List Contest) (j : Json) (encode : FinishedPayload → j.Value)
    (new_id : String → ℕ → String) (best_first : String → List Submission)
    (subscriptions : List WebhookSubscription) (hmac_sha256 : String → String → String) (n : ℕ)
    (t : Deliveries)
    → let (after, emitted) = finish_expired_contests now table in
      let ended = filter (is_expired now) table in
      let ds =
        announce (λ p. j.stringify (encode p)) new_id best_first after subscriptions emitted in
      Reach hmac_sha256 j (started ds) n t
      → (map receiver_of ds ≡ subscribed subscriptions ended)
        × All (λ d. (d.status ≡ pending) × (is_some (j.parse d.payload) ≡ true)) ds
        × (n ≤ 3 * length ds)
        × (length t.requests ≤ 3 * length ds)
        × (((t.jobs ≡ []) × (all (λ d. not (is_pending d)) t.deliveries ≡ true))
            ⊎ ((u : Deliveries) × Step hmac_sha256 j t u))
        × (announce
              (λ p. j.stringify (encode p))
              new_id
              best_first
              after
              subscriptions
              (finish_expired_contests now after).1
            ≡ [])
finish_expired_contests-delivers now table j encode new_id best_first subscriptions hmac_sha256 n t
      r =
    let (after, emitted) = finish_expired_contests now table in
    let ended = filter (is_expired now) table in
    let print : FinishedPayload → String = λ p. j.stringify (encode p) in
    let ds = announce print new_id best_first after subscriptions emitted in
    let (same, none_left, again) = finish_expired_contests-once now table in
    let (announced, many) : All (IsAnnounced j encode new_id best_first after subscriptions ended)
          ds
        × (map receiver_of ds ≡ subscribed subscriptions ended) =
      rw (← same) at (
        announce-IsAnnounced j encode new_id best_first after subscriptions ended
          (announced-found now table)) in
    let (jobs, requests, end) =
      Reach-drains hmac_sha256 j ds n t
        (announce-readable j encode new_id best_first after subscriptions ended ds announced) r in
    (
      many,
      All-mono (IsAnnounced j encode new_id best_first after subscriptions ended)
          (λ d. (d.status ≡ pending) × (is_some (j.parse d.payload) ≡ true)) ds (λ d h. (h.1, h.2))
          announced,
      jobs,
      requests,
      end,
      ap (λ x. announce print new_id best_first after subscriptions x.1) again,
    )
