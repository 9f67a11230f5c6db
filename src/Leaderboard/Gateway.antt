-- ===== src/Leaderboard/Gateway.antt =====
-- `LeaderboardGateway` (src/leaderboard/leaderboard.gateway.ts). Socket.IO keeps the rooms, as sets of
-- clients that a client also leaves by disconnecting; what is emitted is kept in `sent`, the oldest
-- first. What the database answers to a computation of standings is an argument of each call, and a
-- handler that waits for it is two steps, between which anything else may happen.
mod Examples
pub mod Rooms
use Prim.Native.String
use codeweaknesses.Common.{
  ℕ, String, Bool, ◌&&◌, not, Option, none, some, List, [], ◌∷◌, ◌++◌, map, filter, any, eqb,
  Ordering, or_else, if◌then◌else◌, ◌==◌,
}
use codeweaknesses.Common.Assoc.{Assoc, insert, erase}
use codeweaknesses.Common.Results.{ok, err, message_of}
use codeweaknesses.Common.Texts.{to_lower}
use codeweaknesses.Entities.{Text, codes, Role, Contest, Submission}
use codeweaknesses.Judge.Output.{is_filled, text_eq}
use codeweaknesses.Auth.Tokens.{Jwt}
use codeweaknesses.Leaderboard.Standings.{LeaderboardPayload, compute_standings}

pub record Handshake : Type 0 where
  pub auth_token : Option Text
  pub authorization : Option Text
  pub query_token : Option Text

-- `client.data`
pub data Identity : Type 0 where
  spectator : Identity
  authenticated : String → String → Role → Identity

-- What stands before the first space, and what stands after it if there is one.
unfoldable pub split_space : Text → Text × Option Text
split_space [] = ([], none)
split_space (c ∷ s) =
    let rest = split_space s in if eqb c b' ' then ([], some s) else (c ∷ rest.0, rest.1)

-- `const [scheme, token] = authHeader.split(' ')`
unfoldable pub extract_bearer_token : Option Text → Option Text
unfolding split_space
extract_bearer_token none = none
extract_bearer_token (some header) =
    if is_filled header
    then (let (scheme, later) = split_space header in
        if text_eq (to_lower scheme) (codes "bearer")
        then elim later [ none ↦ none | some s ↦ some (split_space s).0 ]
        else none)
    else none

-- `a ?? b`
abbrev pub first_of {ℓ} : {A : Type ℓ} → Option A → Option A → Option A
first_of none b = b
first_of (some a) b = some a

abbrev pub token_of : Handshake → Option Text
token_of h = first_of h.auth_token (first_of (extract_bearer_token h.authorization) h.query_token)

-- The identity that `handleConnection` gives a client; an empty token is no token.
unfoldable pub identify : Jwt → String → ℕ → Handshake → Identity
identify jwt jwt_secret now handshake = elim (token_of handshake) [
  | none ↦ spectator
  | some token ↦
      if is_filled token
      then elim (jwt.verify jwt_secret now token) [
        | none ↦ spectator
        | some payload ↦ authenticated payload.sub payload.name payload.role
      ]
      else spectator
]

-- What the database answers to `computeStandings`; a rejection carries its message, if any.
pub data Answer : Type 0 where
  rejected : Option String → Answer
  found : Option Contest → List Submission → Answer

-- A computation that throws carries the message of its error, if any.
pub data Computed : Type 0 where
  computed : LeaderboardPayload → Computed
  failed : Option String → Computed

unfoldable pub standings_of : (String → String → Ordering) → String → Answer → ℕ → Computed
standings_of locale_compare contest_id (rejected message) now = failed message
standings_of locale_compare contest_id (found contest submissions) now =
    elim (compute_standings locale_compare contest_id contest submissions now) [
      | ok payload ↦ computed payload
      | err e ↦ failed (some (message_of e))
    ]

-- `leaderboard:update` and `leaderboard:error`.
pub data Message : Type 0 where
  update : LeaderboardPayload → Message
  error : String → Message

pub record Gateway : Type 0 where
  pub clients : Assoc Identity
  pub rooms : List (String × String)
  pub sent : List (String × Message)

abbrev pub no_clients : Gateway
no_clients = record { clients = []; rooms = []; sent = [] }

abbrev pub contest_room : String → String
contest_room contest_id = String.◌++◌ "contest:" contest_id

abbrev pub is_in : String → String → String × String → Bool
is_in client room member = member.0 == client && member.1 == room

abbrev pub emit : String → Message → Gateway → Gateway
emit client message g = record g { sent = g.sent ++ (client, message) ∷ [] }

-- `client.join(room)`
unfoldable pub join : String → String → Gateway → Gateway
join client room g =
    if any (is_in client room) g.rooms
    then g
    else record g { rooms = g.rooms ++ (client, room) ∷ [] }

-- `client.leave(room)`
unfoldable pub leave : String → String → Gateway → Gateway
leave client room g = record g { rooms = filter (λ m. not (is_in client room m)) g.rooms }

unfoldable pub handle_connection : Jwt → String → ℕ → String → Handshake → Gateway → Gateway
unfolding identify
handle_connection jwt jwt_secret now client handshake g = record g {
  clients = insert client (identify jwt jwt_secret now handshake) g.clients;
}

-- Socket.IO takes a client that disconnects out of its rooms.
unfoldable pub handle_disconnect : String → Gateway → Gateway
handle_disconnect client g = record g {
  clients = erase client g.clients;
  rooms = filter (λ m. not (m.0 == client)) g.rooms;
}

-- `!contestId`: the field is missing, or empty.
abbrev pub required_id : Option String → Option String
required_id none = none
required_id (some id) = if id == "" then none else some id

-- `handleJoinContest` up to the computation of the standings, and from there on.
unfoldable pub begin_join : String → Option String → Gateway → Gateway
unfolding join
begin_join client contest_id g = elim (required_id contest_id) [
  | none ↦ emit client (error "contestId is required") g
  | some id ↦ join client (contest_room id) g
]

unfoldable pub answer_join : String → Computed → Gateway → Gateway
answer_join client (computed standings) g = emit client (update standings) g
answer_join client (failed message) g =
    emit client (error (or_else message "Failed to join contest")) g

-- The whole handler, where nothing happens in between.
unfoldable pub handle_join_contest :
    String → Option String → (String → Computed) → Gateway → Gateway
unfolding begin_join answer_join
handle_join_contest client contest_id compute g =
    let begun = begin_join client contest_id g in
    elim (required_id contest_id) [ none ↦ begun | some id ↦ answer_join client (compute id) begun ]

unfoldable pub handle_leave_contest : String → Option String → Gateway → Gateway
unfolding leave
handle_leave_contest client contest_id g = elim (required_id contest_id) [
  | none ↦ g
  | some id ↦ leave client (contest_room id) g
]

-- The clients in a room, `server.in(room).fetchSockets()`.
abbrev pub members : String → List (String × String) → List String
members room [] = []
members room (m ∷ ms) = let rest = members room ms in if m.1 == room then m.0 ∷ rest else rest

-- The end of `broadcastLeaderboard`: the room is that of the moment. An error is only logged.
unfoldable pub send_leaderboard : String → Computed → Gateway → Gateway
send_leaderboard contest_id (computed standings) g = record g {
  sent =
      g.sent
      ++ map (λ client. (client, update standings)) (members (contest_room contest_id) g.rooms);
}
send_leaderboard contest_id (failed message) g = g

-- Nothing is computed for an empty room.
unfoldable pub broadcast_leaderboard : String → (String → Computed) → Gateway → Gateway
unfolding send_leaderboard
broadcast_leaderboard contest_id compute g = elim (members (contest_room contest_id) g.rooms) [
  | [] ↦ g
  | first ∷ others ↦ send_leaderboard contest_id (compute contest_id) g
]

-- What clients and the processor of submissions cause, and computations that are done.
pub data Operation : Type 0 where
  connect : String → Handshake → ℕ → Operation
  disconnect : String → Operation
  join_contest : String → Option String → Operation
  answer : String → Computed → Operation
  leave_contest : String → Option String → Operation
  send : String → Computed → Operation

module _ (jwt : Jwt) (jwt_secret : String) where
  unfoldable pub apply : Operation → Gateway → Gateway
  apply (connect client handshake now) g = handle_connection jwt jwt_secret now client handshake g
  apply (disconnect client) g = handle_disconnect client g
  apply (join_contest client contest_id) g = begin_join client contest_id g
  apply (answer client standings) g = answer_join client standings g
  apply (leave_contest client contest_id) g = handle_leave_contest client contest_id g
  apply (send contest_id standings) g = send_leaderboard contest_id standings g

  unfoldable pub run : List Operation → Gateway → Gateway
  run [] g = g
  run (o ∷ os) g = run os (apply o g)
