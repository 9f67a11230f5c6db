-- ===== src/Sse/Events.antt =====
-- The payloads of src/sse/sse-events.types.ts. An optional field is an `Option`.
use codeweaknesses.Common.{ℕ, String, Bool, Option}
use codeweaknesses.Entities.{Text, SubmissionStatus}

pub data Verdict : Type 0 where
  pass fail tle : Verdict

pub record TestResultEvent : Type 0 where
  pub submission_id : String
  pub test_case_index : ℕ
  pub test_case_id : String
  pub verdict : Verdict
  pub execution_ms : ℕ
  pub is_hidden : Bool
  pub output : Option Text
  pub expected_output : Option Text

pub record SubmissionCompletedEvent : Type 0 where
  pub submission_id : String
  pub final_verdict : SubmissionStatus
  pub score : ℕ
  pub total_execution_ms : ℕ
  pub passed_count : ℕ
  pub total_count : ℕ

-- The `type` of a payload and its fields.
pub data Event : Type 0 where
  test_result : TestResultEvent → Event
  submission_completed : SubmissionCompletedEvent → Event
  submission_error : Text → Event
