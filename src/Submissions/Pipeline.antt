-- ===== src/Submissions/Pipeline.antt =====
-- From the job of a submission to the clients that follow its contest: the processor
-- (src/submissions/processors/submission.processor.ts), the standings
-- (src/leaderboard/leaderboard.service.ts) and the gateway (src/leaderboard/leaderboard.gateway.ts) together.
mod Examples
use codeweaknesses.Common.{
  ℕ, ◌<◌, String, ◌≡◌, refl, ap, ◌∙◌, sym, Bool, true, false, none, ◌||◌, Option, some, List, [],
  ◌∷◌, ◌++◌, map, any, filter, count, length, Ordering, ◌==◌, arith,
}
use codeweaknesses.Common.Results.{ok}
use codeweaknesses.Auth.Tokens.{Jwt}
use codeweaknesses.Entities.{Submission, TestCase, Contest}
use codeweaknesses.Leaderboard.Gateway.{
  Gateway, Operation, Computed, computed, update, found, standings_of, broadcast_leaderboard,
  no_clients, run,
}
use codeweaknesses.Leaderboard.Gateway.Rooms.{broadcast_leaderboard-reaches, as_count, follows}
use codeweaknesses.Leaderboard.Standings.{LeaderboardPayload, ProblemStanding, compute_standings}
use codeweaknesses.Leaderboard.Standings.Cells.{cell_in, compute_standings-returns}
use codeweaknesses.Leaderboard.Standings.Groups.{is_of}
use codeweaknesses.Leaderboard.Standings.Scoring.{is_accepted}
use codeweaknesses.Submissions.Processor.{
  JobData, Surroundings, process_submission, visible, hidden,
}
use codeweaknesses.Submissions.Processor.Broadcasting.{broadcasts, process_submission-broadcasts}
use codeweaknesses.Submissions.Processor.Ending.{process_submission_lem}
use codeweaknesses.Submissions.Processor.Execution.{all_pass}
use codeweaknesses.Submissions.Processor.Failures.{has_returned}
use codeweaknesses.Submissions.Processor.Standings.{stored, process_submission-judges}

-- The broadcasts of a job, the newest first, each computed from the rows of its time.
abbrev pub broadcast_all :
    (String → List Submission → Computed) → List (String × List Submission) → Gateway → Gateway
broadcast_all compute [] g = g
broadcast_all compute ((contest_id, rows) ∷ older) g =
    broadcast_leaderboard contest_id (λ id. compute id rows) (broadcast_all compute older g)

standings_of-computed :
    (locale_compare : String → String → Ordering) (contest_id : String) (contest : Contest)
    (rows : List Submission) (now : ℕ) (p : LeaderboardPayload)
    → compute_standings locale_compare contest_id (some contest) rows now ≡ ok p
    → standings_of locale_compare contest_id (found (some contest) rows) now ≡ computed p
unfolding standings_of
standings_of-computed locale_compare contest_id contest rows now p e = rw (standings_of, e) refl

-- With a database that accepts every call, at least one test case, and a submission that stands
-- once among the rows of its contest: whatever clients of the gateway did before, each one that follows the contest is sent
-- standings once, and no other is sent anything. In these standings the user has solved the problem of the submission
-- if every test case passed or another submission of the user to it was accepted, and only then.
pub process_submission-reaches :
    (around : Surroundings) (data_of : JobData) (s : Submission) (ts : List TestCase)
    (found_again : Option Submission) (xs ys : List Submission)
    (locale_compare : String → String → Ordering) (contest : Contest) (now : ℕ) (jwt : Jwt)
    (jwt_secret : String) (os : List Operation)
    → ((n : ℕ) → around.rejects n ≡ none)
    → 0 < length ts
    → any (λ r. r.id == s.id) (xs ++ ys) ≡ false
    → (s.contest_id == "") ≡ false
    → let es = (process_submission around data_of (some s) ts found_again).1.effects in
      let g = run jwt jwt_secret os no_clients in
      let compute = λ (id : String) (rows : List Submission).
        standings_of locale_compare id (found (some contest) rows) now in
      (p : LeaderboardPayload) × (cell : ProblemStanding) × (reached : List String)
      × ((broadcast_all compute (broadcasts (xs ++ s ∷ ys) es) g).sent
          ≡ g.sent ++ map (λ client. (client, update p)) reached)
      × ((client : String)
          → count (λ c. c == client) reached ≡ as_count (follows client s.contest_id false os))
      × (cell_in s.user_id s.problem_id p ≡ some cell)
      × (cell.solved ≡ (
          all_pass around data_of 0 (visible ts ++ hidden ts)
          || any is_accepted (filter (is_of s.user_id s.problem_id) (xs ++ ys))))
process_submission-reaches around data_of s ts found_again xs ys locale_compare contest now jwt
      jwt_secret os accepts some_tests once named =
    let r = process_submission around data_of (some s) ts found_again in
    let rows = xs ++ s ∷ ys in
    let (p, e) =
      compute_standings-returns locale_compare s.contest_id contest (stored r.1.effects rows) now in
    let (cell, there, solved) =
      process_submission-judges around data_of s ts found_again xs ys locale_compare s.contest_id
        contest now p accepts some_tests once e in
    let answered : standings_of locale_compare s.contest_id
          (found (some contest) (stored r.1.effects rows)) now
        ≡ computed p =
      standings_of-computed locale_compare s.contest_id contest (stored r.1.effects rows) now p e in
    let returned_result : has_returned r.0 ≡ true =
      ap has_returned
        (process_submission_lem around data_of accepts s ts some_tests found_again).0 in
    let once_sent : broadcasts rows r.1.effects ≡ (s.contest_id, stored r.1.effects rows) ∷ [] =
      rw (returned_result, named) at
        (process_submission-broadcasts around data_of s ts found_again rows) in
    let (reached, sent, whole, once_each) =
      broadcast_leaderboard-reaches jwt jwt_secret os s.contest_id
        (λ id. standings_of locale_compare id (found (some contest) (stored r.1.effects rows)) now)
        p answered in
    (p, cell, reached, rw once_sent whole, once_each, there, solved)
