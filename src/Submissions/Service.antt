-- ===== src/Submissions/Service.antt =====
-- `SubmissionsService` (src/submissions/submissions.service.ts). The answers of the repositories,
-- the identifier that a save generates and the clock are arguments.
pub mod Creation
pub mod Masking
use codeweaknesses.Common.{
  ℕ, String, Bool, true, false, ◌||◌, not, Option, none, some, List, [], ◌∷◌, map, ltb,
  if◌then◌else◌, ◌==◌,
}
use codeweaknesses.Common.Results.{Result, ok, err, not_found, bad_request, ◌>>=◌, ◌>>◌, HttpError}
use codeweaknesses.Entities.{
  Text, Submission, SubmissionLanguage, SubmissionStatus, pending, same_status, Problem, Contest,
  User, TestResult,
}
use codeweaknesses.Judge.Output.{trim, is_filled}

pub record CreateSubmissionDto : Type 0 where
  pub code : Text
  pub language : SubmissionLanguage
  pub problem_id : String
  pub contest_id : String

-- The job that is put on the queue for a saved submission.
pub record SubmissionJob : Type 0 where
  pub job_id : String
  pub submission_id : String
  pub code : Text
  pub language : SubmissionLanguage
  pub problem_id : String
  pub contest_id : String
  pub user_id : String

-- `if (!found) throw error`
unfoldable pub require {ℓ} : {A : Type ℓ} → Option A → HttpError → Result A
require none e = err e
require (some a) e = ok a

unfoldable pub reject_if : Bool → HttpError → Result (Unit {0})
reject_if true e = err e
reject_if false e = ok tt

-- `!problem.contest || problem.contest.id !== contestId`
unfoldable pub is_foreign : Option String → String → Bool
is_foreign none contest_id = true
is_foreign (some id) contest_id = not (id == contest_id)

module _ (dto : CreateSubmissionDto) (user_id : String) (now : ℕ) (new_id : String) where
  abbrev pub new_submission : Submission
  new_submission = record {
    id = new_id;
    code = dto.code;
    language = dto.language;
    status = pending;
    user_id = user_id;
    problem_id = dto.problem_id;
    contest_id = dto.contest_id;
    submitted_at = some now;
    started_at = none;
    completed_at = none;
    score = 0;
    execution_time = none;
    memory_used = none;
    user = none;
    test_results = none;
  }

  abbrev pub job_for : Submission → SubmissionJob
  job_for saved = record {
    job_id = saved.id;
    submission_id = saved.id;
    code = dto.code;
    language = dto.language;
    problem_id = dto.problem_id;
    contest_id = dto.contest_id;
    user_id = user_id;
  }

  -- The submission that is saved and the job that is enqueued for it.
  unfoldable pub create :
      Option Problem → Option Contest → Option User → Result (Submission × SubmissionJob)
  unfolding require reject_if is_foreign
  create found_problem found_contest found_user = do
    problem ← require found_problem (not_found "Problem not found")
    contest ← require found_contest (not_found "Contest not found")
    reject_if (is_foreign problem.contest dto.contest_id)
        (bad_request "Problem does not belong to this contest")
    reject_if (ltb now contest.start_time) (bad_request "Contest has not started yet")
    reject_if (ltb contest.end_time now) (bad_request "Contest has ended")
    user ← require found_user (not_found "User not found")
    reject_if (not (is_filled dto.code) || not (is_filled (trim dto.code)))
        (bad_request "Code cannot be empty")
    ok (new_submission, job_for new_submission)

unfoldable pub sanitize_result : TestResult → TestResult
sanitize_result tr =
    if not tr.is_hidden then tr else record tr { output = none; expected_output = none }

unfoldable pub sanitize_submission_results : Submission → Submission
unfolding sanitize_result
sanitize_submission_results submission = elim submission.test_results [
  | none ↦ submission
  | some results ↦ record submission { test_results = some (map sanitize_result results) }
]

unfoldable pub find_one : Option Submission → Result Submission
find_one none = err (not_found "Submission not found")
find_one (some submission) = ok (sanitize_submission_results submission)

-- `findByUser`, `findByProblem` and `findByContest` differ in the query alone.
unfoldable pub find_by : List Submission → List Submission
find_by submissions = map sanitize_submission_results submissions

-- `update(id, { status, completedAt })`; an undefined column is left as it is.
unfoldable pub update_status : SubmissionStatus → ℕ → Submission → Submission
update_status status now s =
    if not (same_status status pending)
    then record s { status = status; completed_at = some now }
    else record s { status = status }

unfoldable pub update_result : ℕ → ℕ → ℕ → Submission → Submission
update_result score execution_time memory_used s = record s {
  score = score;
  execution_time = some execution_time;
  memory_used = some memory_used;
}
