-- ===== src/Graphql/Detail.antt =====
-- `submissionDetail` and `mySubmissions` of src/graphql/resolvers/standings.resolver.ts.
pub mod Laws
use codeweaknesses.Common.{
  ℕ, String, Bool, true, false, ◌&&◌, not, Option, none, some, List, map, if◌then◌else◌, ◌==◌,
}
use codeweaknesses.Common.Results.{Result, ok, err, not_found, forbidden}
use codeweaknesses.Entities.{
  Text, Submission, SubmissionLanguage, SubmissionStatus, TestResult, Role, role_value,
}

pub record TestResultType : Type 0 where
  pub id : String
  pub test_case_id : String
  pub passed : Bool
  pub is_hidden : Bool
  pub output : Option Text
  pub expected_output : Option Text
  pub error : Option Text
  pub execution_time : Option ℕ
  pub memory_used : Option ℕ

pub record SubmissionType : Type 0 where
  pub id : String
  pub language : SubmissionLanguage
  pub status : SubmissionStatus
  pub score : ℕ
  pub code : Text
  pub execution_time : Option ℕ
  pub memory_used : Option ℕ
  pub submitted_at : Option ℕ
  pub completed_at : Option ℕ
  pub test_results : Option (List TestResultType)

pub record JwtUser : Type 0 where
  pub user_id : String
  pub name : String
  pub role : Role

unfoldable pub to_test_result_type : Bool → TestResult → TestResultType
to_test_result_type show_hidden tr = record {
  id = tr.id;
  test_case_id = tr.test_case_id;
  passed = tr.passed;
  is_hidden = tr.is_hidden;
  output = if tr.is_hidden && not show_hidden then none else tr.output;
  expected_output = if tr.is_hidden && not show_hidden then none else tr.expected_output;
  error = tr.error;
  execution_time = tr.execution_time;
  memory_used = tr.memory_used;
}

unfoldable pub to_submission_type : Submission → Bool → Bool → SubmissionType
unfolding to_test_result_type
to_submission_type sub show_hidden include_test_results = record {
  id = sub.id;
  language = sub.language;
  status = sub.status;
  score = sub.score;
  code = sub.code;
  execution_time = sub.execution_time;
  memory_used = sub.memory_used;
  submitted_at = sub.submitted_at;
  completed_at = sub.completed_at;
  test_results =
      if include_test_results
      then elim sub.test_results [
        | none ↦ none
        | some results ↦ some (map (to_test_result_type show_hidden) results)
      ]
      else none;
}

abbrev pub is_admin : JwtUser → Bool
is_admin caller = role_value caller.role == "admin"

unfoldable pub submission_detail : Option Submission → JwtUser → Result SubmissionType
submission_detail none caller = err (not_found "Submission not found")
submission_detail (some submission) caller =
    if not (is_admin caller) && not (submission.user_id == caller.user_id)
    then err (forbidden "You can only view your own submissions")
    else ok (to_submission_type submission (is_admin caller) true)

-- The rows that the query returns, which are the caller's.
unfoldable pub my_submissions : List Submission → List SubmissionType
my_submissions = map (λ s. to_submission_type s false false)
