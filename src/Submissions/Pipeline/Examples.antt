-- ===== src/Submissions/Pipeline/Examples.antt =====
-- A submission among those of its contest is judged, and two clients follow the contest.
use codeweaknesses.Common.{filter, any, Ordering, ◌||◌, map}
use codeweaknesses.Submissions.Processor.Standings.{process_submission-standings, stored}
use codeweaknesses.Leaderboard.Standings.{LeaderboardPayload, ProblemStanding}
use codeweaknesses.Leaderboard.Standings.Cells.{cell_in, total_in, compute_standings-returns}
use codeweaknesses.Leaderboard.Standings.Groups.{is_of}
use codeweaknesses.Leaderboard.Standings.Scoring.{is_accepted}
use codeweaknesses.Submissions.Samples.{contest, around, job, queued, tests}
use codeweaknesses.Common.{
  ◌==◌, String, ◌≡◌, refl, false, none, some, List, [], ◌∷◌, ◌++◌, arith, count, if◌then◌else◌,
}
use codeweaknesses.Entities.{Submission, accepted}
use codeweaknesses.Submissions.Processor.{process_submission, visible, hidden}
use codeweaknesses.Submissions.Processor.Execution.{all_pass}
use codeweaknesses.Submissions.Processor.Failures.{has_returned}
use codeweaknesses.Submissions.Processor.Broadcasting.{broadcasts, process_submission-broadcasts}
use codeweaknesses.Submissions.Pipeline.{broadcast_all, process_submission-reaches}
use codeweaknesses.Auth.Samples.{plain_tokens}
use codeweaknesses.Leaderboard.Gateway
use codeweaknesses.Leaderboard.Gateway.Rooms.{as_count, follows}

-- The submission is among those of its contest when it is judged.
abbrev ran_before : Submission
ran_before = record queued { id = "earlier"; status = accepted; problem_id = "q" }

abbrev of_bob : Submission
of_bob = record queued { id = "of bob"; status = accepted; user_id = "bob" }

abbrev any_order : String → String → Ordering
any_order a b = Ordering.eq

abbrev before_job : List Submission
before_job = ran_before ∷ queued ∷ of_bob ∷ []

abbrev after_job : List Submission
after_job = stored (process_submission around job (some queued) tests none).1.effects before_job

process_submission-standings_example :
    let (p, e) = compute_standings-returns any_order "c" contest before_job 6 in
    let (p', e') = compute_standings-returns any_order "c" contest after_job 21 in
    ((cell : ProblemStanding) × (cell_in "ada" "p" p' ≡ some cell)
      × (cell.solved ≡ (
          all_pass around job 0 (visible tests ++ hidden tests)
          || any is_accepted (filter (is_of "ada" "p") (ran_before ∷ of_bob ∷ [])))))
    × (cell_in "ada" "q" p' ≡ cell_in "ada" "q" p)
    × (total_in "bob" p' ≡ total_in "bob" p)
process_submission-standings_example =
    let (p, e) = compute_standings-returns any_order "c" contest before_job 6 in
    let (p', e') = compute_standings-returns any_order "c" contest after_job 21 in
    process_submission-standings around job queued tests none (ran_before ∷ []) (of_bob ∷ [])
      any_order "c" contest 6 21 p p' "ada" "q" "bob" (λ n. refl) (omega arith) refl e e' refl refl

process_submission-broadcasts_example :
    let r = process_submission around job (some queued) tests none in
    broadcasts before_job r.1.effects ≡ (
      if has_returned r.0
      then (if queued.contest_id == ""
          then []
          else (queued.contest_id, stored r.1.effects before_job) ∷ [])
      else [])
process_submission-broadcasts_example =
    process_submission-broadcasts around job queued tests none before_job

abbrev handshake : Gateway.Handshake
handshake = record { auth_token = none; authorization = none; query_token = none }

abbrev visits : List Gateway.Operation
visits =
    Gateway.connect "one" handshake 0
    ∷ Gateway.join_contest "one" (some "c")
    ∷ Gateway.connect "two" handshake 1
    ∷ Gateway.join_contest "two" (some "c")
    ∷ Gateway.leave_contest "one" (some "c")
    ∷ []

process_submission-reaches_example :
    let es = (process_submission around job (some queued) tests none).1.effects in
    let g = Gateway.run plain_tokens "secret" visits Gateway.no_clients in
    let compute = λ (id : String) (rows : List Submission).
      Gateway.standings_of any_order id (Gateway.found (some contest) rows) 21 in
    (p : LeaderboardPayload) × (cell : ProblemStanding) × (reached : List String) × ((broadcast_all
        compute
        (broadcasts before_job es)
        g).sent
      ≡ g.sent ++ map (λ client. (client, Gateway.update p)) reached)
    × ((client : String)
        → count (λ c. c == client) reached ≡ as_count (follows client "c" false visits))
    × (cell_in "ada" "p" p ≡ some cell)
    × (cell.solved ≡ (
        all_pass around job 0 (visible tests ++ hidden tests)
        || any is_accepted (filter (is_of "ada" "p") (ran_before ∷ of_bob ∷ []))))
process_submission-reaches_example =
    process_submission-reaches around job queued tests none (ran_before ∷ []) (of_bob ∷ [])
      any_order contest 21 plain_tokens "secret" visits (λ n. refl) (omega arith) refl refl
