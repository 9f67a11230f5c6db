-- ===== src/Submissions/Examples.antt =====
-- Submissions that are made, judged and followed.
use codeweaknesses.Submissions.Processor.Interleaving.{
  process_submission-cut, process_submission-followed, calls_of,
}
use codeweaknesses.Sse.Service.Leaving.{take, events_in, send_all}
use codeweaknesses.Sse.Service.Following.{weave, weave-Interleaved, signals_on}
use codeweaknesses.Sse.Service.{
  next, Operation, subscribe, disconnect, finish, run, no_streams, apply, get_or_create,
}
use codeweaknesses.Common.Assoc.{insert}
use codeweaknesses.Common.{count, map}
use codeweaknesses.Submissions.Retries.{run_attempt, Attempt, work, work-ends}
use codeweaknesses.Queue.{QueueService, fresh, queue_options}
use codeweaknesses.Submissions.Processor.{JobData}
use codeweaknesses.Common.{zero, suc, ◌+◌, ℕ, false}
use codeweaknesses.Submissions.Samples.{contest, around, job, queued, tests, fixed_point}
use codeweaknesses.Common.{
  ◌≤◌, ◌≡◌, ◌↔◌, refl, true, false, none, some, List, [], ◌∷◌, ◌++◌, arith, if◌then◌else◌,
}
use codeweaknesses.Common.Results.{ok}
use codeweaknesses.Entities.{codes, Text, Submission, Problem, User, user, python, accepted, wrong}
use codeweaknesses.Sse.Events.{submission_completed, SubmissionCompletedEvent}
use codeweaknesses.Submissions.Processor.{process_submission, returned, visible, hidden}
use codeweaknesses.Submissions.Processor.Score.{percent}
use codeweaknesses.Submissions.Processor.Execution.{
  all_pass, count_pass, executed, recorded, announced,
}
use codeweaknesses.Submissions.Processor.Judging.{last_saved, saved_results, published}
use codeweaknesses.Submissions.Processor.Outcome.{
  process_submission-verdict, process_submission-results,
}
use codeweaknesses.Submissions.Processor.Failures.{is_failure, has_returned, is_completion}
use codeweaknesses.Common.Assoc.{lookup}
use codeweaknesses.Submissions.Processor.Streaming.{events_of}
use codeweaknesses.Sse.Service.{complete}
use codeweaknesses.Submissions.Service.{
  CreateSubmissionDto, SubmissionJob, create, new_submission, job_for,
}
use codeweaknesses.Submissions.Service.Creation.{create_iff, IsAcceptable}

process_submission-verdict_example :
    (final : Submission) × (last_saved
        (process_submission around job (some queued) tests none).1.effects
      ≡ some final)
    × ((process_submission around job (some queued) tests none).0
        ≡ returned (record {
          success = true;
          submission_id = "s";
          score = final.score;
          passed_count = count_pass around job 0 (executed around job 0 tests);
        }))
    × (final.score ≤ 100)
    × (final.status
        ≡ (if all_pass around job 0 (visible tests ++ hidden tests) then accepted else wrong))
    × (final.score ≡ (
        if all_pass around job 0 (visible tests ++ hidden tests)
        then 100
        else percent fixed_point (count_pass around job 0 (executed around job 0 tests)) 2))
process_submission-verdict_example =
    process_submission-verdict around job queued tests none (λ n. refl) (omega arith) (omega arith)

process_submission-results_example :
    (saved_results (process_submission around job (some queued) tests none).1.effects
      ≡ recorded around job 0 (executed around job 0 tests))
    × (done : SubmissionCompletedEvent) × (published
          (process_submission around job (some queued) tests none).1.effects
        ≡ announced around job 0 (executed around job 0 tests) ++ submission_completed done ∷ [])
    × (done.passed_count ≡ count_pass around job 0 (executed around job 0 tests))
    × (done.total_count ≡ 2)
process_submission-results_example =
    process_submission-results around job queued tests none (λ n. refl) (omega arith)

-- Two follow the submission; while it is judged one of them leaves, a third comes, and afterwards another.
abbrev two_follow : List Operation
two_follow = subscribe "other" ∷ subscribe "s" ∷ subscribe "s" ∷ []

abbrev come_and_go : List Operation
come_and_go = disconnect "s" ∷ finish "other" ∷ subscribe "s" ∷ []

process_submission-followed_example :
    let es = (process_submission around job (some queued) tests none).1.effects in
    let turns = false ∷ true ∷ false ∷ true ∷ [] in
    signals_on 1
      (run
        (weave turns (calls_of "s" es) come_and_go ++ subscribe "s" ∷ disconnect "s" ∷ [])
        (run two_follow no_streams)).signals
    ≡ complete ∷ (map next (events_of es) ++ signals_on 1 (run two_follow no_streams).signals)
unfolding run apply get_or_create lookup insert
process_submission-followed_example =
    let es = (process_submission around job (some queued) tests none).1.effects in
    let turns = false ∷ true ∷ false ∷ true ∷ [] in
    process_submission-followed around job (some queued) tests none two_follow come_and_go
      (weave turns (calls_of "s" es) come_and_go) (subscribe "s" ∷ disconnect "s" ∷ []) 1 refl
      (refl, omega arith, (refl, omega arith, (refl, omega arith, tt)))
      (weave-Interleaved turns (calls_of "s" es) come_and_go)

-- Both who follow the submission leave while it is judged, and one comes back.
abbrev all_leave : List Operation
all_leave = disconnect "s" ∷ disconnect "s" ∷ subscribe "s" ∷ []

process_submission-cut_example :
    let job_calls =
      calls_of "s" (process_submission around job (some queued) tests none).1.effects in
    let turns = true ∷ false ∷ true ∷ false ∷ false ∷ [] in
    (k : ℕ) × (signals_on 1
        (run
          (weave turns job_calls all_leave ++ subscribe "s" ∷ [])
          (run two_follow no_streams)).signals
      ≡ complete
        ∷ send_all
            (take k (events_in job_calls))
            (signals_on 1 (run two_follow no_streams).signals))
unfolding run apply get_or_create lookup insert
process_submission-cut_example =
    let job_calls =
      calls_of "s" (process_submission around job (some queued) tests none).1.effects in
    let turns = true ∷ false ∷ true ∷ false ∷ false ∷ [] in
    process_submission-cut around job (some queued) tests none two_follow all_leave
      (weave turns job_calls all_leave) (subscribe "s" ∷ []) 1 refl refl
      (weave-Interleaved turns job_calls all_leave)

abbrev request : CreateSubmissionDto
request = record { code = codes "print(42)"; language = python; problem_id = "p"; contest_id = "c" }

abbrev problem : Problem
problem = record {
  id = "p";
  title = "Answer";
  description = "";
  time_limit_ms = 1000;
  contest = some "c";
  deleted_at = none;
}

abbrev ada : User
ada = record { id = "ada"; name = "Ada"; password_hash = ""; role = user; deleted_at = none }

create_iff_example :
    ((r : Submission × SubmissionJob) × (create request "ada" 5 "s"
          (some problem)
          (some contest)
          (some ada)
        ≡ ok r))
    ↔ IsAcceptable request 5 (some problem) (some contest) (some ada)
create_iff_example = create_iff request "ada" 5 "s" (some problem) (some contest) (some ada)

abbrev created : Submission × SubmissionJob
created = let s = new_submission request "ada" 5 "s" in (s, job_for request "ada" 5 "s" s)

-- The database is away at the first attempt, and there again at the second.
abbrev attempt : ℕ → Attempt
attempt zero = record {
  around = record around { rejects = λ n. some (codes "connection lost") };
  found = some queued;
  test_cases = tests;
  found_again = some queued;
}
attempt (suc n) = record {
  around = around;
  found = some queued;
  test_cases = tests;
  found_again = none;
}

abbrev plain_queue : QueueService Text JobData
plain_queue = fresh

work-ends_example :
    let (outcome, es) = work job attempt (queue_options plain_queue) in
    let sse = run two_follow no_streams in
    (count is_completion es ≡ (if has_returned outcome then 1 else 0))
    × (count is_failure es + count is_completion es ≤ 3)
    × ((has_returned outcome ≡ false) ↔ (count is_failure es ≡ 3))
    × (signals_on 1 (run (calls_of "s" es ++ subscribe "s" ∷ []) sse).signals
        ≡ complete
          ∷ (map next (events_of (run_attempt job attempt 0).1.effects)
              ++ signals_on 1 sse.signals))
unfolding run apply get_or_create lookup insert
work-ends_example = work-ends plain_queue job attempt two_follow (subscribe "s" ∷ []) 1 refl
