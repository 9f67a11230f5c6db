-- ===== src/Submissions/Controller/Answers.antt =====
-- What the routes of submissions answer, and to whom.
use mathlib.Core.Path.{subst}
use codeweaknesses.Common.{
  map, ℕ, String, ◌≡◌, refl, Bool, true, false, Option, List, [], ◌∷◌, length, arith, All,
  if◌then◌else◌, Option-cases, inl, inr,
}
use codeweaknesses.Common.Results.{ok, Result-cases}
use codeweaknesses.Auth.Guards.{authenticate, RequestUser}
use codeweaknesses.Auth.Tokens.{Jwt}
use codeweaknesses.Entities.{Text, Submission}
use codeweaknesses.Submissions.Controller.{
  Lookups, SubmissionRequest, create_submission, find_submission, get_user_submissions,
  get_problem_submissions, get_contest_submissions, SubmissionAnswer, handle_as, handle,
}
use codeweaknesses.Submissions.Service.{
  SubmissionJob, create, find_one, find_by, new_submission, job_for, sanitize_submission_results,
}
use codeweaknesses.Submissions.Service.Creation.{create-new}
use codeweaknesses.Submissions.Service.Masking.{
  IsMasked, results_of, submission-IsMasked, map-submissions,
}

abbrev pub creates : SubmissionRequest → Bool
creates (create_submission dto) = true
creates _ = false

-- Of what is answered to a user: no output of hidden test cases, and only jobs for submissions of that user.
pub record IsAnswerTo (user_id new_id : String) (request : SubmissionRequest)
    (answer : SubmissionAnswer) : Type 0 where
  pub masked : All (λ s. All IsMasked (results_of s)) answer.shown
  pub own :
      All (λ (q : SubmissionJob). (q.user_id ≡ user_id) × (q.submission_id ≡ new_id)) answer.jobs
  pub job_count : length answer.jobs ≡ (if creates request then 1 else 0)

nothing_queued :
    (user_id new_id : String) (request : SubmissionRequest) (ss : List Submission)
    → creates request ≡ false
    → All (λ s. All IsMasked (results_of s)) ss
    → IsAnswerTo user_id new_id request (record { shown = ss; jobs = [] })
nothing_queued user_id new_id request ss c m = record {
  masked = m;
  own = tt;
  job_count = ground (arith, c);
}

handle_as-IsAnswerTo :
    (db : Lookups) (now : ℕ) (new_id user_id : String) (request : SubmissionRequest)
    (answer : SubmissionAnswer)
    → handle_as db now new_id user_id request ≡ ok answer
    → IsAnswerTo user_id new_id request answer
unfolding handle_as find_by find_one
handle_as-IsAnswerTo db now new_id user_id (create_submission dto) answer h =
    elim (Result-cases (
      create dto user_id now new_id (db.problem dto.problem_id) (db.contest dto.contest_id)
        (db.user user_id))) [
          | inr (e', e) ↦ absurd (ground (arith, e))
          | inl (r, e) ↦
              let same =
                create-new dto user_id now new_id (db.problem dto.problem_id)
                  (db.contest dto.contest_id) (db.user user_id) r e in
              let answered : record {
                shown = new_submission dto user_id now new_id ∷ [];
                jobs = job_for dto user_id now new_id (new_submission dto user_id now new_id) ∷ [];
              }
                  ≡ answer =
                ground (arith, e, same) in
              subst (IsAnswerTo user_id new_id (create_submission dto)) answered
                (record { masked = (tt, tt); own = ((refl, refl), tt); job_count = refl })
        ]
handle_as-IsAnswerTo db now new_id user_id (find_submission id) answer h =
    elim (Option-cases (db.submission id)) [
      | inl e ↦ absurd (ground (arith, e))
      | inr (s, e) ↦
          let answered : record { shown = sanitize_submission_results s ∷ []; jobs = [] } ≡ answer =
            ground (arith, e) in
          subst (IsAnswerTo user_id new_id (find_submission id)) answered (
            nothing_queued user_id new_id (find_submission id) (sanitize_submission_results s ∷ [])
              refl ((submission-IsMasked s).0, tt))
    ]
handle_as-IsAnswerTo db now new_id user_id get_user_submissions answer h =
    subst (IsAnswerTo user_id new_id get_user_submissions) (ground arith) (
      nothing_queued user_id new_id get_user_submissions
        (map sanitize_submission_results (db.by_user user_id)) refl
        (map-submissions (db.by_user user_id)))
handle_as-IsAnswerTo db now new_id user_id (get_problem_submissions id) answer h =
    subst (IsAnswerTo user_id new_id (get_problem_submissions id)) (ground arith) (
      nothing_queued user_id new_id (get_problem_submissions id)
        (map sanitize_submission_results (db.by_problem id)) refl
        (map-submissions (db.by_problem id)))
handle_as-IsAnswerTo db now new_id user_id (get_contest_submissions id) answer h =
    subst (IsAnswerTo user_id new_id (get_contest_submissions id)) (ground arith) (
      nothing_queued user_id new_id (get_contest_submissions id)
        (map sanitize_submission_results (db.by_contest id)) refl
        (map-submissions (db.by_contest id)))

-- Whatever is in the database: a request to the routes of submissions is answered only with a valid token. In no
-- submission that is answered stands a test result of a hidden test case with its output or its expected output; of
-- the error of such a result, which the code does not mask, nothing is said. A request to create one
-- that is answered puts one job on the queue, for the submission of the user of the token, and no
-- other request puts any.
pub handle-IsAnswerTo :
    (jwt : Jwt) (db : Lookups) (now : ℕ) (new_id : String) (bearer : Option Text)
    (request : SubmissionRequest) (answer : SubmissionAnswer)
    → handle jwt db now new_id bearer request ≡ ok answer
    → (u : RequestUser) × (authenticate jwt now bearer ≡ ok u)
      × IsAnswerTo u.user_id new_id request answer
unfolding handle
handle-IsAnswerTo jwt db now new_id bearer request answer h =
    elim (Result-cases (authenticate jwt now bearer)) [
      | inr (e', e) ↦ absurd (ground (arith, e))
      | inl (u, e) ↦
          (u, e, handle_as-IsAnswerTo db now new_id u.user_id request answer (ground (arith, e)))
    ]
