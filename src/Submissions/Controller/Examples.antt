-- ===== src/Submissions/Controller/Examples.antt =====
-- A user looks up a submission.
use codeweaknesses.Common.{◌≡◌, none, some, true, [], ◌∷◌, arith}
use codeweaknesses.Common.Results.{ok}
use codeweaknesses.Auth.Accounts.{authenticate-sign, payload_of}
use codeweaknesses.Auth.Guards.{authenticate, RequestUser, secret_or_key}
use codeweaknesses.Auth.Samples.{plain_tokens}
use codeweaknesses.Entities.{Text, codes, Submission, wrong, python}
use codeweaknesses.Submissions.Controller.{
  Lookups, SubmissionAnswer, find_submission, handle, handle_as,
}
use codeweaknesses.Submissions.Controller.Answers.{handle-IsAnswerTo, IsAnswerTo}
use codeweaknesses.Submissions.Service.{find_one, sanitize_submission_results}

abbrev judged : Submission
judged = record {
  id = "s";
  code = codes "print(41)";
  language = python;
  status = wrong;
  user_id = "u1";
  problem_id = "p";
  contest_id = "c";
  submitted_at = some 5;
  started_at = some 6;
  completed_at = some 7;
  score = 0;
  execution_time = some 3;
  memory_used = some 1000;
  user = none;
  test_results = some (
      record {
        id = "r";
        submission_id = "s";
        test_case_id = "t";
        passed = true;
        is_hidden = true;
        output = some (codes "41");
        expected_output = some (codes "42");
        error = none;
        execution_time = some 3;
        memory_used = some 1000;
      }
      ∷ []);
}

abbrev database : Lookups
database = record {
  problem = λ id. none;
  contest = λ id. none;
  user = λ id. none;
  submission = λ id. some judged;
  by_user = λ id. [];
  by_problem = λ id. [];
  by_contest = λ id. [];
}

abbrev ada_token : Text
ada_token = plain_tokens.sign secret_or_key 10 (payload_of "u1" "ada")

abbrev answer : SubmissionAnswer
answer = record { shown = sanitize_submission_results judged ∷ []; jobs = [] }

answered : handle plain_tokens database 20 "x" (some ada_token) (find_submission "s") ≡ ok answer
unfolding handle handle_as find_one
answered = ground (arith, authenticate-sign plain_tokens 10 20 "u1" "ada")

handle-IsAnswerTo_example :
    (u : RequestUser) × (authenticate plain_tokens 20 (some ada_token) ≡ ok u)
    × IsAnswerTo u.user_id "x" (find_submission "s") answer
handle-IsAnswerTo_example =
    handle-IsAnswerTo plain_tokens database 20 "x" (some ada_token) (find_submission "s") answer
      answered
