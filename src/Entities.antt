-- ===== src/Entities.antt =====
-- The entities that TypeORM stores (*.entity.ts): src/submissions/entities, src/problem/entities,
-- src/contest/entities, src/user/entities. Timestamps are milliseconds since the epoch, a nullable
-- column is an `Option`, and texts that the program takes apart are lists of UTF-16 code units.
use Prim.Native.Char.{code}
use codeweaknesses.Common.{ℕ, String, Bool, List, [], ◌∷◌, Option, ◌==◌}

abbrev pub Text : Type 0
Text = List ℕ

-- An ASCII literal as a text.
abbrev pub codes : String → Text
codes String.[] = []
codes (String.◌∷◌ c s) = code c ∷ codes s

pub data SubmissionStatus : Type 0 where
  pending running accepted wrong tle mle runtime_error compilation_error : SubmissionStatus

-- The strings of the enum, by which JavaScript compares its members.
abbrev pub status_value : SubmissionStatus → String
status_value pending = "pending"
status_value running = "running"
status_value accepted = "accepted"
status_value wrong = "wrong"
status_value tle = "tle"
status_value mle = "mle"
status_value runtime_error = "runtime_error"
status_value compilation_error = "compilation_error"

-- `a === b`
abbrev pub same_status : SubmissionStatus → SubmissionStatus → Bool
same_status a b = status_value a == status_value b

pub data SubmissionLanguage : Type 0 where
  javascript python python3 cpp c java bash : SubmissionLanguage

pub data Role : Type 0 where
  admin editor user : Role

abbrev pub role_value : Role → String
role_value admin = "admin"
role_value editor = "editor"
role_value user = "user"

pub record User : Type 0 where
  pub id : String
  pub name : String
  pub password_hash : String
  pub role : Role
  pub deleted_at : Option ℕ

pub record Contest : Type 0 where
  pub id : String
  pub title : String
  pub start_time : ℕ
  pub end_time : ℕ
  pub finished_at : Option ℕ
  pub deleted_at : Option ℕ

-- `contest` is the identifier of the related contest.
pub record Problem : Type 0 where
  pub id : String
  pub title : String
  pub description : String
  pub time_limit_ms : ℕ
  pub contest : Option String
  pub deleted_at : Option ℕ

pub record TestCase : Type 0 where
  pub id : String
  pub problem_id : String
  pub input : Text
  pub expected_output : Text
  pub is_hidden : Bool
  pub order_index : ℕ

pub record TestResult : Type 0 where
  pub id : String
  pub submission_id : String
  pub test_case_id : String
  pub passed : Bool
  pub is_hidden : Bool
  pub output : Option Text
  pub expected_output : Option Text
  pub error : Option Text
  pub execution_time : Option ℕ
  pub memory_used : Option ℕ

-- `user` and `test_results` are relations: `none` where a query does not load them.
pub record Submission : Type 0 where
  pub id : String
  pub code : Text
  pub language : SubmissionLanguage
  pub status : SubmissionStatus
  pub user_id : String
  pub problem_id : String
  pub contest_id : String
  pub submitted_at : Option ℕ
  pub started_at : Option ℕ
  pub completed_at : Option ℕ
  pub score : ℕ
  pub execution_time : Option ℕ
  pub memory_used : Option ℕ
  pub user : Option User
  pub test_results : Option (List TestResult)
