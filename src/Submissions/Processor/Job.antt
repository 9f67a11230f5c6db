-- ===== src/Submissions/Processor/Job.antt =====
-- What a job of src/submissions/processors/submission.processor.ts is given, the variables of
-- `processSubmission`, its effects, and the monad in which it may throw.
use codeweaknesses.Common.{
  ℕ, String, Bool, ◌&&◌, not, Option, List, [], ◌∷◌, filter, ltb, eqb, if◌then◌else◌,
}
use codeweaknesses.Entities.{
  Text, Submission, SubmissionLanguage, SubmissionStatus, accepted, wrong, TestCase,
}
use codeweaknesses.Judge.Execution.{Docker}
use codeweaknesses.Sse.Events.{Event}
use codeweaknesses.Submissions.Processor.Score.{Float}

-- `job.data`
pub record JobData : Type 0 where
  pub submission_id : String
  pub code : Text
  pub language : SubmissionLanguage
  pub problem_id : String

-- The record that is saved for a test case that was run.
pub record NewTestResult : Type 0 where
  pub submission_id : String
  pub test_case_id : String
  pub passed : Bool
  pub is_hidden : Bool
  pub output : Text
  pub expected_output : Text
  pub error : Option Text
  pub execution_time : ℕ
  pub memory_used : ℕ

pub data Effect : Type 0 where
  save_submission : Submission → Effect
  save_test_result : NewTestResult → Effect
  sse_push : Event → Effect
  sse_complete : Effect
  sse_error : Text → Effect
  broadcast : String → Effect

-- The variables of the method, with the number of database calls made so far.
pub record Progress : Type 0 where
  pub passed_count : ℕ
  pub total_execution_time : ℕ
  pub max_memory_used : ℕ
  pub current_index : ℕ
  pub database_calls : ℕ
  pub effects : List Effect

-- A thrown error by its message.
pub data Thrown {ℓ} (A : Type ℓ) : Type ℓ where
  returned : A → Thrown A
  thrown : Text → Thrown A

abbrev pub M : Type 0 → Type 0
M A = Progress → Thrown A × Progress

infixl 5 ◌>>=◌ ◌>>◌
abbrev pub ◌>>=◌ : {A B : Type 0} → M A → (A → M B) → M B
◌>>=◌ m f s = let (a, s') = m s in elim a [ returned x ↦ f x s' | thrown e ↦ (thrown e, s') ]

abbrev pub ◌>>◌ : {B : Type 0} → M (Unit {0}) → M B → M B
m >> k = m >>= λ _. k

abbrev pub pure : {A : Type 0} → A → M A
pure a s = (returned a, s)

abbrev pub throw : {A : Type 0} → Text → M A
throw message s = (thrown message, s)

abbrev pub emit : Effect → M (Unit {0})
emit e s = (returned tt, record s { effects = e ∷ s.effects })

pub record JobResult : Type 0 where
  pub success : Bool
  pub submission_id : String
  pub score : ℕ
  pub passed_count : ℕ

-- What stands outside the program while the job is processed.
pub record Surroundings : Type 1 where
  pub float : Float
  pub submission_timeout : ℕ
  pub memory_limit : ℕ
  pub docker : ℕ → Docker
  pub rejects : ℕ → Option Text
  pub started_at : ℕ
  pub completed_at : ℕ

abbrev pub visible : List TestCase → List TestCase
visible = filter (λ t. not t.is_hidden)

abbrev pub hidden : List TestCase → List TestCase
hidden = filter (λ t. t.is_hidden)

abbrev pub final_status : ℕ → ℕ → SubmissionStatus
final_status passed_count total =
    if eqb passed_count 0 && ltb 0 total
    then wrong
    else if ltb passed_count total
    then wrong
    else accepted

abbrev pub at_start : Progress
at_start = record {
  passed_count = 0;
  total_execution_time = 0;
  max_memory_used = 0;
  current_index = 0;
  database_calls = 0;
  effects = [];
}
