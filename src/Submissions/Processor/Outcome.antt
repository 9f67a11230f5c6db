-- ===== src/Submissions/Processor/Outcome.antt =====
-- What a job returns, writes and publishes, when the database accepts every call.
use codeweaknesses.Common.{
  ap, if◌then◌else◌, true, ◌<◌, ℕ, ◌≤◌, ◌≡◌, refl, ◌∙◌, Option, none, some, List, [], ◌∷◌, ◌++◌,
  arith, length, Bool-cases, inl, inr,
}
use codeweaknesses.Submissions.Processor.Score.{max_safe_integer, percent, percent-le, percent_all}
use codeweaknesses.Entities.{wrong, accepted, TestCase, Submission}
use codeweaknesses.Sse.Events.{SubmissionCompletedEvent, submission_completed}
use codeweaknesses.Submissions.Processor.{
  percent, returned, running_submission, process_submission, judged, JobData, Surroundings, visible,
  hidden,
}
use codeweaknesses.Submissions.Processor.Execution.{
  all_pass, count_pass, executed, recorded, announced,
}
use codeweaknesses.Submissions.Processor.Judging.{
  last_saved, saved_results, published, count_pass-executed, results-after_tests,
  published-after_tests,
}
use codeweaknesses.Submissions.Processor.Ending.{
  loop_start, loop_end, process_submission_lem, completed_event, saved_results-end_effects,
  published-end_effects, last_saved-end_effects, final_status_lem, passed_lem,
}

-- With a database that accepts every call, a submission that is found, and at least one test case
-- (and no more of them than the largest safe integer): the job returns the score and the number of test cases passed among those that it runs; the
-- submission saved last has that score, at most 100, and is accepted with the score 100 if every
-- test case passes (the hidden ones placed behind the visible ones), and otherwise wrong, with the
-- rounded percentage that the passed ones among those that are run are of all.
pub process_submission-verdict :
    (around : Surroundings) (data_of : JobData) (submission : Submission) (ts : List TestCase)
    (found_again : Option Submission)
    → ((n : ℕ) → around.rejects n ≡ none)
    → 0 < length ts
    → length ts ≤ max_safe_integer
    → (final : Submission) × (last_saved
          (process_submission around data_of (some submission) ts found_again).1.effects
        ≡ some final)
      × ((process_submission around data_of (some submission) ts found_again).0
          ≡ returned (record {
            success = true;
            submission_id = data_of.submission_id;
            score = final.score;
            passed_count = count_pass around data_of 0 (executed around data_of 0 ts);
          }))
      × (final.score ≤ 100)
      × (final.status
          ≡ (if all_pass around data_of 0 (visible ts ++ hidden ts) then accepted else wrong))
      × (final.score ≡ (
          if all_pass around data_of 0 (visible ts ++ hidden ts)
          then 100
          else percent around.float
              (count_pass around data_of 0 (executed around data_of 0 ts))
              (length ts)))
process_submission-verdict around data_of submission ts found_again accepts some_tests small =
    let s = loop_end around data_of accepts submission ts some_tests in
    let (answer, written) =
      process_submission_lem around data_of accepts submission ts some_tests found_again in
    let passed = passed_lem around data_of accepts submission ts some_tests in
    let (le, all) = count_pass-executed around data_of 0 ts in
    (
      judged around data_of (running_submission around data_of submission) (length ts) s,
      ap last_saved written
          ∙ last_saved-end_effects around data_of accepts submission ts some_tests,
      answer
          ∙ ap
              (λ n. returned (record {
                success = true;
                submission_id = data_of.submission_id;
                score = percent around.float s.passed_count (length ts);
                passed_count = n;
              }))
              passed,
      percent-le around.float s.passed_count (length ts) (omega (arith, passed, le)) small,
      final_status_lem around data_of accepts submission ts some_tests,
      elim (Bool-cases (all_pass around data_of 0 (visible ts ++ hidden ts))) [
        | inl h ↦
            let same : s.passed_count ≡ length ts = ground (arith, passed, le, all, h) in
            rw h (
              ap (λ n. percent around.float n (length ts)) same
              ∙ percent_all around.float (length ts) small)
        | inr h ↦ rw h (ap (λ n. percent around.float n (length ts)) passed)
      ],
    )

-- With a database that accepts every call, a submission that is found, and at least one test case:
-- a test result is saved, and an event published, for exactly the test cases that are run (all
-- visible ones, and, only if these pass, the hidden ones up to the first that fails), in order,
-- numbered from 0; one completion event follows the others.
pub process_submission-results :
    (around : Surroundings) (data_of : JobData) (submission : Submission) (ts : List TestCase)
    (found_again : Option Submission)
    → ((n : ℕ) → around.rejects n ≡ none)
    → 0 < length ts
    → (saved_results (process_submission around data_of (some submission) ts found_again).1.effects
        ≡ recorded around data_of 0 (executed around data_of 0 ts))
      × (done : SubmissionCompletedEvent) × (published
            (process_submission around data_of (some submission) ts found_again).1.effects
          ≡ announced around data_of 0 (executed around data_of 0 ts)
            ++ submission_completed done ∷ [])
      × (done.passed_count ≡ count_pass around data_of 0 (executed around data_of 0 ts))
      × (done.total_count ≡ length ts)
process_submission-results around data_of submission ts found_again accepts some_tests =
    let (answer, written) =
      process_submission_lem around data_of accepts submission ts some_tests found_again in
    let start = loop_start around data_of accepts submission ts some_tests in
    let es = executed around data_of 0 ts in
    (
      ap saved_results written
          ∙ saved_results-end_effects around data_of accepts submission ts some_tests
          ∙ results-after_tests around data_of es start,
      completed_event around data_of accepts submission ts some_tests,
      ap published written
          ∙ published-end_effects around data_of accepts submission ts some_tests
          ∙ ap
              (λ es.
                es
                ++ submission_completed
                    (completed_event around data_of accepts submission ts some_tests)
                  ∷ [])
              (published-after_tests around data_of es start),
      passed_lem around data_of accepts submission ts some_tests,
      refl,
    )
