-- ===== src/Submissions/Controller.antt =====
-- The routes of src/submissions/submissions.controller.ts. What the database answers to the lookups of a
-- request is an argument; `userId` is that of the token.
pub mod Answers
mod Examples
use codeweaknesses.Common.{ℕ, String, Option, List, [], ◌∷◌}
use codeweaknesses.Common.Results.{Result, ok, ◌>>=◌}
use codeweaknesses.Auth.Guards.{authenticate}
use codeweaknesses.Auth.Tokens.{Jwt}
use codeweaknesses.Entities.{Text, Problem, Contest, User, Submission}
use codeweaknesses.Submissions.Service.{
  CreateSubmissionDto, SubmissionJob, create, find_one, find_by,
}

-- The answers of the database, which depend on the user where the query does.
pub record Lookups : Type 0 where
  pub problem : String → Option Problem
  pub contest : String → Option Contest
  pub user : String → Option User
  pub submission : String → Option Submission
  pub by_user : String → List Submission
  pub by_problem : String → List Submission
  pub by_contest : String → List Submission

pub data SubmissionRequest : Type 0 where
  create_submission : CreateSubmissionDto → SubmissionRequest
  find_submission : String → SubmissionRequest
  get_user_submissions : SubmissionRequest
  get_problem_submissions get_contest_submissions : String → SubmissionRequest

-- The submissions that are answered, and the jobs that are put on the queue.
pub record SubmissionAnswer : Type 0 where
  pub shown : List Submission
  pub jobs : List SubmissionJob

unfoldable pub handle_as :
    Lookups → ℕ → String → String → SubmissionRequest → Result SubmissionAnswer
unfolding create find_one find_by
handle_as db now new_id user_id (create_submission dto) =
    create dto user_id now new_id (db.problem dto.problem_id) (db.contest dto.contest_id)
      (db.user user_id)
    >>= λ (saved, job). ok (record { shown = saved ∷ []; jobs = job ∷ [] })
handle_as db now new_id user_id (find_submission id) =
    find_one (db.submission id) >>= λ s. ok (record { shown = s ∷ []; jobs = [] })
handle_as db now new_id user_id get_user_submissions =
    ok (record { shown = find_by (db.by_user user_id); jobs = [] })
handle_as db now new_id user_id (get_problem_submissions problem_id) =
    ok (record { shown = find_by (db.by_problem problem_id); jobs = [] })
handle_as db now new_id user_id (get_contest_submissions contest_id) =
    ok (record { shown = find_by (db.by_contest contest_id); jobs = [] })

-- `@UseGuards(AuthGuard('jwt'))`
unfoldable pub handle :
    Jwt → Lookups → ℕ → String → Option Text → SubmissionRequest → Result SubmissionAnswer
unfolding handle_as
handle jwt db now new_id bearer request =
    authenticate jwt now bearer >>= λ u. handle_as db now new_id u.user_id request
