-- ===== src/Submissions/Processor/Ending.antt =====
-- The effects of a job that comes to its end, when the database accepts every call.
use codeweaknesses.Common.{
  ◌==◌, if◌then◌else◌, true, ◌<◌, ℕ, ◌≡◌, Option, none, some, List, [], ◌∷◌, ◌++◌, arith, length,
  Bool-cases, inl, inr,
}
use codeweaknesses.Submissions.Processor.Score.{percent}
use codeweaknesses.Entities.{wrong, accepted, TestCase, Submission}
use codeweaknesses.Sse.Events.{SubmissionCompletedEvent, submission_completed}
use codeweaknesses.Submissions.Processor.{
  final_status, sse_complete, broadcast, percent, returned, database, conclude, running_submission,
  process_body, process_submission, judged, at_start, JobData, Effect, save_submission, sse_push,
  Progress, Surroundings, visible, hidden,
}
use codeweaknesses.Submissions.Processor.Execution.{
  run_all_lem, all_pass, count_pass, executed, after_tests,
}
use codeweaknesses.Submissions.Processor.Judging.{
  last_saved, saved_results, published, count_pass-executed, passed-after_tests,
}

module _ (around : Surroundings) (data_of : JobData) (accepts : (n : ℕ) → around.rejects n ≡ none)
    (submission : Submission) (ts : List TestCase) (some_tests : 0 < length ts) where
  -- The state in which the loops start.
  abbrev pub loop_start : Progress
  loop_start = record at_start {
    database_calls = 3;
    effects = save_submission (running_submission around data_of submission) ∷ [];
  }

  abbrev pub loop_end : Progress
  loop_end = after_tests around data_of (executed around data_of 0 ts) loop_start

  -- What a finished job has written and published since the loops, the newest first.
  abbrev pub end_effects : List Effect
  end_effects =
      let final =
        judged around data_of (running_submission around data_of submission) (length ts) loop_end in
      (if submission.contest_id == "" then [] else broadcast submission.contest_id ∷ [])
      ++ sse_complete
        ∷ sse_push (
            submission_completed (record {
              submission_id = data_of.submission_id;
              final_verdict = final.status;
              score = final.score;
              total_execution_ms = loop_end.total_execution_time;
              passed_count = loop_end.passed_count;
              total_count = length ts;
            }))
        ∷ save_submission final
        ∷ loop_end.effects

  pub process_submission_lem :
      (found_again : Option Submission)
      → ((process_submission around data_of (some submission) ts found_again).0
          ≡ returned (record {
            success = true;
            submission_id = data_of.submission_id;
            score = percent around.float loop_end.passed_count (length ts);
            passed_count = loop_end.passed_count;
          }))
        × ((process_submission around data_of (some submission) ts found_again).1.effects
            ≡ end_effects)
  unfolding process_submission process_body conclude database
  process_submission_lem found_again = ground (
    arith,
    some_tests,
    accepts 0,
    accepts 1,
    accepts 2,
    accepts loop_end.database_calls,
    run_all_lem around data_of accepts ts loop_start,
  )

  abbrev pub completed_event : SubmissionCompletedEvent
  completed_event =
      let final =
        judged around data_of (running_submission around data_of submission) (length ts) loop_end in
      record {
        submission_id = data_of.submission_id;
        final_verdict = final.status;
        score = final.score;
        total_execution_ms = loop_end.total_execution_time;
        passed_count = loop_end.passed_count;
        total_count = length ts;
      }

  pub saved_results-end_effects : saved_results end_effects ≡ saved_results loop_end.effects
  saved_results-end_effects = elim (Bool-cases (submission.contest_id == "")) [
    | inl e ↦ rw e
    | inr e ↦ rw e
  ]

  pub published-end_effects :
      published end_effects
      ≡ published loop_end.effects ++ submission_completed completed_event ∷ []
  published-end_effects = elim (Bool-cases (submission.contest_id == "")) [
    | inl e ↦ rw e
    | inr e ↦ rw e
  ]

  pub last_saved-end_effects :
      last_saved end_effects
      ≡ some (
          judged around data_of (running_submission around data_of submission) (length ts) loop_end)
  last_saved-end_effects = elim (Bool-cases (submission.contest_id == "")) [
    | inl e ↦ rw e
    | inr e ↦ rw e
  ]

  pub final_status_lem :
      final_status (loop_end.passed_count) (length ts)
      ≡ (if all_pass around data_of 0 (visible ts ++ hidden ts) then accepted else wrong)
  final_status_lem = ground (
    arith,
    some_tests,
    passed-after_tests around data_of (executed around data_of 0 ts) loop_start,
    count_pass-executed around data_of 0 ts,
  )

  pub passed_lem :
      loop_end.passed_count ≡ count_pass around data_of 0 (executed around data_of 0 ts)
  passed_lem =
      omega (arith, passed-after_tests around data_of (executed around data_of 0 ts) loop_start)
