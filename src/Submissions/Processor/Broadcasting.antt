-- ===== src/Submissions/Processor/Broadcasting.antt =====
-- When a job has the standings of its contest sent.
use codeweaknesses.Common.{
  ℕ, String, ◌≡◌, refl, Bool, true, false, ◌&&◌, Option, some, List, [], ◌∷◌, arith, length,
  if◌then◌else◌, ◌==◌,
}
use codeweaknesses.Entities.{Submission, TestCase}
use codeweaknesses.Submissions.Processor.{
  JobData, Effect, save_submission, save_test_result, sse_push, sse_complete, sse_error, broadcast,
  Progress, Thrown, Surroundings, database, run_test_case, run_visible, run_hidden, run_all,
  conclude, process_body, handle_error, process_submission, running_submission, at_start, visible,
  hidden,
}
use codeweaknesses.Submissions.Processor.Failures.{has_returned}
use codeweaknesses.Submissions.Processor.Standings.{stored}

-- The broadcasts among the effects, the newest first, each with the rows of submissions at that time.
abbrev pub broadcasts : List Submission → List Effect → List (String × List Submission)
broadcasts rows [] = []
broadcasts rows (broadcast contest_id ∷ es) = (contest_id, stored es rows) ∷ broadcasts rows es
broadcasts rows (save_submission row ∷ es) = broadcasts rows es
broadcasts rows (save_test_result result ∷ es) = broadcasts rows es
broadcasts rows (sse_push event ∷ es) = broadcasts rows es
broadcasts rows (sse_complete ∷ es) = broadcasts rows es
broadcasts rows (sse_error message ∷ es) = broadcasts rows es

module _ (around : Surroundings) (data_of : JobData) (rows : List Submission) where
  abbrev IsSilent : List Effect → Type 0
  IsSilent es = broadcasts rows es ≡ []

  run_test_case-IsSilent :
      (t : TestCase) (s : Progress)
      → IsSilent s.effects
      → IsSilent (run_test_case around data_of t s).1.effects
  unfolding run_test_case database
  run_test_case-IsSilent t s h = ground arith

  run_visible-IsSilent :
      (b : Bool) (ts : List TestCase) (s : Progress)
      → IsSilent s.effects
      → IsSilent (run_visible around data_of b ts s).1.effects
  unfolding run_visible
  run_visible-IsSilent b [] s h = h
  run_visible-IsSilent b (t ∷ ts) s h = ground (
    arith,
    run_test_case-IsSilent t s h,
    run_visible-IsSilent (b && true) ts (run_test_case around data_of t s).1,
    run_visible-IsSilent (b && false) ts (run_test_case around data_of t s).1,
  )

  run_hidden-IsSilent :
      (ts : List TestCase) (s : Progress)
      → IsSilent s.effects
      → IsSilent (run_hidden around data_of ts s).1.effects
  unfolding run_hidden
  run_hidden-IsSilent [] s h = h
  run_hidden-IsSilent (t ∷ ts) s h = ground (
    arith,
    run_test_case-IsSilent t s h,
    run_hidden-IsSilent ts (run_test_case around data_of t s).1,
  )

  run_all-IsSilent :
      (ts : List TestCase) (s : Progress)
      → IsSilent s.effects
      → IsSilent (run_all around data_of ts s).1.effects
  unfolding run_all
  run_all-IsSilent ts s h = ground (
    arith,
    run_visible-IsSilent true (visible ts) s h,
    run_hidden-IsSilent (hidden ts) (run_visible around data_of true (visible ts) s).1,
  )

  -- One broadcast where the code returns and there is a contest, and none otherwise.
  abbrev Broadcasts : {A : Type 0} → String → Thrown A × Progress → Type 0
  Broadcasts contest_id r = broadcasts rows r.1.effects ≡ (
      if has_returned r.0
      then (if contest_id == "" then [] else (contest_id, stored r.1.effects rows) ∷ [])
      else [])

  conclude-Broadcasts :
      (submission : Submission) (total : ℕ) (s : Progress)
      → IsSilent s.effects
      → Broadcasts submission.contest_id (conclude around data_of submission total s)
  unfolding conclude database
  conclude-Broadcasts submission total s h = ground arith

  process_body-Broadcasts :
      (submission : Submission) (ts : List TestCase)
      → Broadcasts submission.contest_id (process_body around data_of (some submission) ts at_start)
  unfolding process_body database
  process_body-Broadcasts submission ts =
      let started = running_submission around data_of submission in
      let s = record at_start { database_calls = 3; effects = save_submission started ∷ [] } in
      ground (
        arith,
        run_all-IsSilent ts s refl,
        conclude-Broadcasts started (length ts) (run_all around data_of ts s).1,
      )

-- Whichever database calls reject, and however the test cases go: the job of a submission that is found
-- has the standings sent of no contest but its own, once, and only if it returns a result. By then
-- all that it writes is written: the rows from which these standings are computed are those
-- that it leaves behind.
pub process_submission-broadcasts :
    (around : Surroundings) (data_of : JobData) (s : Submission) (ts : List TestCase)
    (found_again : Option Submission) (rows : List Submission)
    → let r = process_submission around data_of (some s) ts found_again in
      broadcasts rows r.1.effects ≡ (
        if has_returned r.0
        then (if s.contest_id == "" then [] else (s.contest_id, stored r.1.effects rows) ∷ [])
        else [])
unfolding process_submission handle_error database
process_submission-broadcasts around data_of s ts found_again rows =
    ground (arith, process_body-Broadcasts around data_of rows s ts)
