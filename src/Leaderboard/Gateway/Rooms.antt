-- ===== src/Leaderboard/Gateway/Rooms.antt =====
-- Who hears of a contest: the rooms of `LeaderboardGateway` over any sequence of events.
use mathlib.Core.List.{append-nil}
use text.Mathlib.TextLemmas.{append_cancel_left}
use codeweaknesses.Common.{
  count-none, inr, ◌∙◌, inl, ℕ, String, ◌≡◌, refl, Bool, true, false, not, ◌&&◌, none, some, List,
  [], ◌∷◌, ◌++◌, map, filter, any, arith, count, if◌then◌else◌, ◌==◌, eq_iff, count-append,
  Option-cases,
}
use codeweaknesses.Auth.Tokens.{Jwt}
use codeweaknesses.Leaderboard.Standings.{LeaderboardPayload}
use codeweaknesses.Leaderboard.Gateway.{
  failed, begin_join, answer_join, send_leaderboard, answer, send, Gateway, no_clients,
  contest_room, is_in, join, leave, handle_connection, handle_disconnect, required_id,
  handle_leave_contest, members, broadcast_leaderboard, Operation, connect, disconnect,
  join_contest, leave_contest, apply, run, Computed, computed, update,
}

-- Whether a client follows a contest: since it last joined the contest it has neither left it nor
-- disconnected.
abbrev pub follows_after : String → String → Bool → Operation → Bool
follows_after client contest_id following (connect other handshake now) = following
follows_after client contest_id following (disconnect other) =
    if other == client then false else following
follows_after client contest_id following (join_contest other id) = elim (required_id id) [
  | none ↦ following
  | some joined ↦ if other == client && joined == contest_id then true else following
]
follows_after client contest_id following (leave_contest other id) = elim (required_id id) [
  | none ↦ following
  | some left ↦ if other == client && left == contest_id then false else following
]
follows_after client contest_id following (answer other standings) = following
follows_after client contest_id following (send id standings) = following

abbrev pub follows : String → String → Bool → List Operation → Bool
follows client contest_id following [] = following
follows client contest_id following (o ∷ os) =
    follows client contest_id (follows_after client contest_id following o) os

abbrev pub as_count : Bool → ℕ
as_count following = if following then 1 else 0

contest_room-eq : (a b : String) → (contest_room a == contest_room b) ≡ (a == b)
contest_room-eq a b =
    ground (
      arith,
      eq_iff (contest_room a) (contest_room b),
      eq_iff a b,
      append_cancel_left "contest:" a b,
    )

any-none : {A : Type 0} (p : A → Bool) (xs : List A) → count p xs ≡ 0 → any p xs ≡ false
any-none p [] h = refl
any-none p (x ∷ xs) h = ground (arith, any-none p xs)

count-join :
    (client room c r : String) (following : Bool) (g : Gateway)
    → count (is_in c r) g.rooms ≡ as_count following
    → count (is_in c r) (join client room g).rooms
      ≡ as_count (if client == c && room == r then true else following)
unfolding join
count-join client room c r following g h = grind (
  arith,
  h,
  count-none (is_in c r) g.rooms,
  any-none (is_in c r) g.rooms,
  count-append,
  eq_iff client c,
  eq_iff room r,
)

count-leave :
    (client room c r : String) (ms : List (String × String))
    → count (is_in c r) (filter (λ m. not (is_in client room m)) ms)
      ≡ (if client == c && room == r then 0 else count (is_in c r) ms)
count-leave client room c r [] = ground arith
count-leave client room c r ((i, j) ∷ ms) = ground (
  arith,
  count-leave client room c r ms,
  eq_iff client c,
  eq_iff room r,
  eq_iff i c,
  eq_iff j r,
  eq_iff i client,
  eq_iff j room,
)

count-disconnect :
    (client c r : String) (ms : List (String × String))
    → count (is_in c r) (filter (λ m. not (m.0 == client)) ms)
      ≡ (if client == c then 0 else count (is_in c r) ms)
count-disconnect client c r [] = ground arith
count-disconnect client c r ((i, j) ∷ ms) =
    ground (arith, count-disconnect client c r ms, eq_iff client c, eq_iff i c, eq_iff i client)

count-members :
    (client room : String) (ms : List (String × String))
    → count (λ m. m == client) (members room ms) ≡ count (is_in client room) ms
count-members client room [] = refl
count-members client room ((i, j) ∷ ms) = ground (arith, count-members client room ms)

send-rooms :
    (contest_id : String) (standings : Computed) (g : Gateway)
    → (send_leaderboard contest_id standings g).rooms ≡ g.rooms
unfolding send_leaderboard
send-rooms contest_id (computed payload) g = refl
send-rooms contest_id (failed message) g = refl

answer-rooms :
    (client : String) (standings : Computed) (g : Gateway)
    → (answer_join client standings g).rooms ≡ g.rooms
unfolding answer_join
answer-rooms client (computed payload) g = refl
answer-rooms client (failed message) g = refl

module _ (jwt : Jwt) (jwt_secret : String) (client contest_id : String) where
  abbrev pub memberships : Gateway → ℕ
  memberships g = count (is_in client (contest_room contest_id)) g.rooms

  memberships-apply :
      (o : Operation) (following : Bool) (g : Gateway)
      → memberships g ≡ as_count following
      → memberships (apply jwt jwt_secret o g)
        ≡ as_count (follows_after client contest_id following o)
  unfolding apply handle_connection handle_disconnect begin_join handle_leave_contest leave
  memberships-apply (connect other handshake now) following g h = h
  memberships-apply (disconnect other) following g h =
      ground (arith, count-disconnect other client (contest_room contest_id) g.rooms)
  memberships-apply (join_contest other id) following g h = elim (Option-cases (required_id id)) [
    | inl missing ↦ ground arith
    | inr (joined, given) ↦ ground (
      arith,
      contest_room-eq joined contest_id,
      count-join other (contest_room joined) client (contest_room contest_id) following g h,
    )
  ]
  memberships-apply (leave_contest other id) following g h = elim (Option-cases (required_id id)) [
    | inl missing ↦ ground arith
    | inr (left, given) ↦ ground (
      arith,
      contest_room-eq left contest_id,
      count-leave other (contest_room left) client (contest_room contest_id) g.rooms,
    )
  ]
  memberships-apply (answer other standings) following g h =
      ground (arith, answer-rooms other standings g)
  memberships-apply (send id standings) following g h = ground (arith, send-rooms id standings g)

  memberships-run :
      (os : List Operation) (following : Bool) (g : Gateway)
      → memberships g ≡ as_count following
      → memberships (run jwt jwt_secret os g) ≡ as_count (follows client contest_id following os)
  unfolding run
  memberships-run [] following g h = h
  memberships-run (o ∷ os) following g h =
      memberships-run os (follows_after client contest_id following o) (apply jwt jwt_secret o g)
        (memberships-apply o following g h)

broadcast-sends :
    (contest_id : String) (compute : String → Computed) (payload : LeaderboardPayload) (g : Gateway)
    → compute contest_id ≡ computed payload
    → (broadcast_leaderboard contest_id compute g).sent
      ≡ g.sent
        ++ map (λ client. (client, update payload)) (members (contest_room contest_id) g.rooms)
unfolding broadcast_leaderboard send_leaderboard
broadcast-sends contest_id compute payload g h = ground (arith, append-nil g.sent)

-- Whatever clients did before, and whatever was answered and sent in between: standings of a contest that
-- are computed go, behind all that was sent already and besides nothing else, once to each client
-- that follows the contest at the moment when they are sent, and to no other: one that has joined it and neither
-- left it nor disconnected since. A broadcast that nothing interrupts sends the same.
pub broadcast_leaderboard-reaches :
    (jwt : Jwt) (jwt_secret : String) (os : List Operation) (contest_id : String)
    (compute : String → Computed) (payload : LeaderboardPayload)
    → compute contest_id ≡ computed payload
    → let g = run jwt jwt_secret os no_clients in
      (reached : List String) × ((send_leaderboard contest_id (computed payload) g).sent
        ≡ g.sent ++ map (λ client. (client, update payload)) reached)
      × ((broadcast_leaderboard contest_id compute g).sent
          ≡ g.sent ++ map (λ client. (client, update payload)) reached)
      × ((client : String)
          → count (λ c. c == client) reached ≡ as_count (follows client contest_id false os))
unfolding send_leaderboard
broadcast_leaderboard-reaches jwt jwt_secret os contest_id compute payload h =
    let g = run jwt jwt_secret os no_clients in
    (
      members (contest_room contest_id) g.rooms,
      refl,
      broadcast-sends contest_id compute payload g h,
      λ client.
          count-members client (contest_room contest_id) g.rooms
          ∙ memberships-run jwt jwt_secret client contest_id os false no_clients refl,
    )
