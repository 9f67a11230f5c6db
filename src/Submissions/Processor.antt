-- ===== src/Submissions/Processor.antt =====
-- `processSubmission` (src/submissions/processors/submission.processor.ts). The answers of the two
-- lookups of the submission and of the query for test cases are arguments, and so are the clock,
-- Docker's answers to each run, and which database calls reject (by their number). What the
-- method writes, publishes and broadcasts is kept in `effects`, the newest first.
pub mod Broadcasting
pub mod Ending
pub mod Execution
pub mod Failures
pub mod Interleaving
mod Job
pub mod Judging
pub mod Outcome
pub mod Score
pub mod Standings
pub mod Streaming
pub mod Verdicts
use Prim.Native.Nat.{max}
use codeweaknesses.Common.{
  ℕ, suc, ◌+◌, ◌<◌, String, Bool, true, false, ◌&&◌, not, Option, none, some, List, [], ◌∷◌, ◌++◌,
  length, filter, ltb, eqb, if◌then◌else◌, ◌==◌,
}
use codeweaknesses.Entities.{
  Text, codes, Submission, SubmissionLanguage, SubmissionStatus, running, accepted, wrong,
  runtime_error, TestCase,
}
use codeweaknesses.Judge.Output.{compare_output, is_filled}
use codeweaknesses.Judge.Execution.{Docker, ExecutionResult, execute_code}
use codeweaknesses.Sse.Events.{
  Event, test_result, submission_completed, TestResultEvent, SubmissionCompletedEvent,
}
use Score.{Float, percent}
use Verdicts.{live_verdict, live_output}
pub use Job.*

module _ (around : Surroundings) where
  -- A query or a save: its effect if the database accepts the call, else its error.
  unfoldable pub database : List Effect → M (Unit {0})
  database written s = elim (around.rejects s.database_calls) [
    | none ↦ (
      returned tt,
      record s { database_calls = suc s.database_calls; effects = written ++ s.effects },
    )
    | some message ↦ (thrown message, record s { database_calls = suc s.database_calls })
  ]

  module _ (data_of : JobData) where
    unfoldable pub execution : ℕ → TestCase → ExecutionResult
    execution index test_case =
        (execute_code around.submission_timeout around.memory_limit (around.docker index)
          data_of.language data_of.code test_case.input).0

    unfoldable pub passes : ℕ → TestCase → Bool
    passes index test_case =
        let result = execution index test_case in
        result.success && compare_output result.output test_case.expected_output

    abbrev pub new_test_result : ℕ → TestCase → NewTestResult
    new_test_result index test_case =
        let result = execution index test_case in
        record {
          submission_id = data_of.submission_id;
          test_case_id = test_case.id;
          passed = passes index test_case;
          is_hidden = test_case.is_hidden;
          output = result.output;
          expected_output = test_case.expected_output;
          error = result.error;
          execution_time = result.execution_time;
          memory_used = result.memory_used;
        }

    abbrev pub test_result_event : ℕ → TestCase → TestResultEvent
    test_result_event index test_case =
        let result = execution index test_case in
        record {
          submission_id = data_of.submission_id;
          test_case_index = index;
          test_case_id = test_case.id;
          verdict = live_verdict (passes index test_case) result.error;
          execution_ms = result.execution_time;
          is_hidden = test_case.is_hidden;
          output = some (live_output result.output result.error);
          expected_output = some test_case.expected_output;
        }

    -- `runTestCase(testCase, currentIndex++)`
    unfoldable pub run_test_case : TestCase → M Bool
    run_test_case test_case s =
        let index = s.current_index in
        let result = execution index test_case in
        let passed = passes index test_case in
        let counted = record s {
          current_index = suc index;
          total_execution_time = s.total_execution_time + result.execution_time;
          max_memory_used = max s.max_memory_used result.memory_used;
          passed_count = if passed then s.passed_count + 1 else s.passed_count;
        } in
        (do
          database (save_test_result (new_test_result index test_case) ∷ [])
          emit (sse_push (test_result (test_result_event index test_case)))
          pure passed)
          counted

    -- The loop over the visible test cases, with `visibleCasesPassed`.
    unfoldable pub run_visible : Bool → List TestCase → M Bool
    run_visible all_passed [] = pure all_passed
    run_visible all_passed (test_case ∷ rest) = do
      passed ← run_test_case test_case
      run_visible (all_passed && passed) rest

    -- The loop over the hidden test cases, which stops at the first failure.
    unfoldable pub run_hidden : List TestCase → M (Unit {0})
    run_hidden [] = pure tt
    run_hidden (test_case ∷ rest) = do
      passed ← run_test_case test_case
      let next = run_hidden rest
      if passed then next else pure tt

    abbrev pub running_submission : Submission → Submission
    running_submission submission = record submission {
      status = running;
      started_at = some around.started_at;
    }

    abbrev pub judged : Submission → ℕ → Progress → Submission
    judged submission total s = record submission {
      status = final_status s.passed_count total;
      score = percent around.float s.passed_count total;
      execution_time = some s.total_execution_time;
      memory_used = some s.max_memory_used;
      completed_at = some around.completed_at;
    }

    -- From the calculation of the score to the result of the job.
    unfoldable pub conclude : Submission → ℕ → M JobResult
    conclude submission total s =
        let final = judged submission total s in
        (do
          database (save_submission final ∷ [])
          emit (
              sse_push (
                submission_completed (record {
                  submission_id = data_of.submission_id;
                  final_verdict = final.status;
                  score = final.score;
                  total_execution_ms = s.total_execution_time;
                  passed_count = s.passed_count;
                  total_count = total;
                })))
          emit sse_complete
          if submission.contest_id == "" then pure tt else emit (broadcast submission.contest_id)
          pure (record {
            success = true;
            submission_id = data_of.submission_id;
            score = final.score;
            passed_count = s.passed_count;
          }))
          s

    unfoldable pub run_all : List TestCase → M (Unit {0})
    run_all test_cases = do
      visible_cases_passed ← run_visible true (visible test_cases)
      if visible_cases_passed then run_hidden (hidden test_cases) else pure tt

    -- The body of the `try`.
    unfoldable pub process_body : Option Submission → List TestCase → M JobResult
    process_body found test_cases = do
      database []
      elim found [
        | none ↦ throw (codes "Submission " ++ (codes data_of.submission_id ++ codes " not found"))
        | some submission ↦ do
          let started = running_submission submission
          database (save_submission started ∷ [])
          database []
          if eqb (length test_cases) 0
              then throw (codes "No test cases found for this problem")
              else do run_all test_cases; conclude started (length test_cases)
      ]

    -- The `catch`, which throws its error again, or the error of its own database calls.
    unfoldable pub handle_error : Text → Option Submission → M JobResult
    handle_error message found = do
      emit (sse_error (if is_filled message then message else codes "Internal error"))
      database []
      elim found [
        | none ↦ pure tt
        | some submission ↦ database (
            save_submission (record submission {
              status = runtime_error;
              completed_at = some around.completed_at;
            })
            ∷ [])
      ]
      throw message

    -- `found` answers the first lookup of the submission and `found_again` the one in the `catch`.
    unfoldable pub process_submission :
        Option Submission → List TestCase → Option Submission → Thrown JobResult × Progress
    process_submission found test_cases found_again =
        let (outcome, s) = process_body found test_cases at_start in
        elim outcome [
          | returned result ↦ (returned result, s)
          | thrown message ↦ handle_error message found_again s
        ]
