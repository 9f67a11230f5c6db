-- ===== src/Leaderboard/Gateway/Examples.antt =====
-- Two clients join a contest, and one of them leaves it.
use codeweaknesses.Common.{
  String, ◌≡◌, refl, false, none, some, List, [], ◌∷◌, ◌++◌, map, count, ◌==◌,
}
use codeweaknesses.Auth.Samples.{plain_tokens}
use codeweaknesses.Leaderboard.Gateway.{
  answer, send_leaderboard, no_clients, Handshake, Computed, computed, update, Operation, connect,
  join_contest, leave_contest, run, broadcast_leaderboard,
}
use codeweaknesses.Leaderboard.Gateway.Rooms.{broadcast_leaderboard-reaches, as_count, follows}
use codeweaknesses.Leaderboard.Standings.{LeaderboardPayload}

abbrev empty_standings : LeaderboardPayload
empty_standings = record { contest_id = "c"; generated_at = 5; entries = [] }

abbrev spectator_handshake : Handshake
spectator_handshake = record { auth_token = none; authorization = none; query_token = none }

abbrev compute : String → Computed
compute id = computed empty_standings

abbrev before : List Operation
before =
    connect "x" spectator_handshake 0
    ∷ join_contest "x" (some "c")
    ∷ answer "x" (compute "c")
    ∷ join_contest "y" (some "c")
    ∷ leave_contest "x" (some "c")
    ∷ []

broadcast_leaderboard-reaches_example :
    let g = run plain_tokens "secret" before no_clients in
    (reached : List String) × ((send_leaderboard "c" (computed empty_standings) g).sent
      ≡ g.sent ++ map (λ client. (client, update empty_standings)) reached)
    × ((broadcast_leaderboard "c" compute g).sent
        ≡ g.sent ++ map (λ client. (client, update empty_standings)) reached)
    × ((client : String)
        → count (λ c. c == client) reached ≡ as_count (follows client "c" false before))
broadcast_leaderboard-reaches_example =
    broadcast_leaderboard-reaches plain_tokens "secret" before "c" compute empty_standings refl
