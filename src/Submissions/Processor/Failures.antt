-- ===== src/Submissions/Processor/Failures.antt =====
-- What a job leaves behind when anything fails: a missing submission, no test cases, or any database
-- call.
use codeweaknesses.Common.{
  ℕ, ◌≡◌, refl, Bool, true, false, ◌&&◌, Option, none, some, List, [], ◌∷◌, arith, length, count,
  if◌then◌else◌,
}
use codeweaknesses.Entities.{TestCase, Submission}
use codeweaknesses.Submissions.Processor.{
  save_submission, running_submission, JobData, Effect, sse_complete, sse_error, Progress, Thrown,
  returned, thrown, Surroundings, database, run_test_case, run_visible, run_hidden, run_all,
  conclude, process_body, handle_error, process_submission, at_start, visible, hidden,
}

-- The effects that end the stream of events of a submission.
abbrev pub is_completion : Effect → Bool
is_completion sse_complete = true
is_completion _ = false

abbrev pub is_failure : Effect → Bool
is_failure (sse_error message) = true
is_failure _ = false

abbrev pub has_returned {ℓ} : {A : Type ℓ} → Thrown A → Bool
has_returned (returned a) = true
has_returned (thrown message) = false

-- No end of the stream among the effects.
abbrev pub IsOpen : List Effect → Type 0
IsOpen es = (count is_completion es ≡ 0) × (count is_failure es ≡ 0)

module _ (around : Surroundings) (data_of : JobData) where
  run_test_case-IsOpen :
      (t : TestCase) (s : Progress)
      → IsOpen s.effects
      → IsOpen (run_test_case around data_of t s).1.effects
  unfolding run_test_case database
  run_test_case-IsOpen t s h = ground arith

  run_visible-IsOpen :
      (b : Bool) (ts : List TestCase) (s : Progress)
      → IsOpen s.effects
      → IsOpen (run_visible around data_of b ts s).1.effects
  unfolding run_visible
  run_visible-IsOpen b [] s h = h
  run_visible-IsOpen b (t ∷ ts) s h = ground (
    arith,
    run_test_case-IsOpen t s h,
    run_visible-IsOpen (b && true) ts (run_test_case around data_of t s).1,
    run_visible-IsOpen (b && false) ts (run_test_case around data_of t s).1,
  )

  run_hidden-IsOpen :
      (ts : List TestCase) (s : Progress)
      → IsOpen s.effects
      → IsOpen (run_hidden around data_of ts s).1.effects
  unfolding run_hidden
  run_hidden-IsOpen [] s h = h
  run_hidden-IsOpen (t ∷ ts) s h =
      ground (
        arith,
        run_test_case-IsOpen t s h,
        run_hidden-IsOpen ts (run_test_case around data_of t s).1,
      )

  pub run_all-IsOpen :
      (ts : List TestCase) (s : Progress)
      → IsOpen s.effects
      → IsOpen (run_all around data_of ts s).1.effects
  unfolding run_all
  run_all-IsOpen ts s h = ground (
    arith,
    run_visible-IsOpen true (visible ts) s h,
    run_hidden-IsOpen (hidden ts) (run_visible around data_of true (visible ts) s).1,
  )

  -- The stream is completed exactly once where the code returns, and left open where it throws.
  abbrev pub EndsIf : {A : Type 0} → Thrown A × Progress → Type 0
  EndsIf r =
      (count is_completion r.1.effects ≡ (if has_returned r.0 then 1 else 0))
      × (count is_failure r.1.effects ≡ 0)

  conclude-EndsIf :
      (submission : Submission) (total : ℕ) (s : Progress)
      → IsOpen s.effects
      → EndsIf (conclude around data_of submission total s)
  unfolding conclude database
  conclude-EndsIf submission total s h = ground arith

  pub process_body-EndsIf :
      (found : Option Submission) (ts : List TestCase)
      → EndsIf (process_body around data_of found ts at_start)
  unfolding process_body database
  process_body-EndsIf none ts = ground arith
  process_body-EndsIf (some submission) ts =
      let started = running_submission around data_of submission in
      let s = record at_start { database_calls = 3; effects = save_submission started ∷ [] } in
      ground (
        arith,
        run_all-IsOpen ts s (refl, refl),
        conclude-EndsIf started (length ts) (run_all around data_of ts s).1,
      )

-- Whatever the lookups answer, whichever database calls reject and however the test cases go: the
-- stream of events of the submission is ended exactly once, by a completion if the job returns a
-- result, and by an error if it throws.
pub process_submission-ends :
    (around : Surroundings) (data_of : JobData) (found : Option Submission) (ts : List TestCase)
    (found_again : Option Submission)
    → let r = process_submission around data_of found ts found_again in
      (count is_completion r.1.effects ≡ (if has_returned r.0 then 1 else 0))
      × (count is_failure r.1.effects ≡ (if has_returned r.0 then 0 else 1))
unfolding process_submission handle_error database
process_submission-ends around data_of found ts found_again =
    ground (arith, process_body-EndsIf around data_of found ts)
