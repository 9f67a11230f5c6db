-- ===== src/Problems.antt =====
-- `ProblemService` (src/problem/problem.service.ts), with the validators of its DTOs and the foreign keys of
-- its tables. In which order the database gives rows of one order index is not the program's:
-- `ORDER BY` is a parameter. New identifiers are arguments.
pub mod Access
pub mod Cases
pub mod Controller
mod Examples
pub mod Samples
use codeweaknesses.Common.{
  ℕ, String, ◌≡◌, ◌≤◌, Bool, false, not, ◌&&◌, Option, none, some, List, [], ◌∷◌, ◌++◌, filter, any,
  count, leb, or_else, if◌then◌else◌, ◌==◌,
}
use codeweaknesses.Common.Results.{◌>>=◌, Result, ok, err, internal}
use codeweaknesses.Common.Sorting.{IsOrdered}
use codeweaknesses.Entities.{Text, Contest, Problem, TestCase}
use codeweaknesses.Judge.Output.{is_filled}
use codeweaknesses.Repository.{is_found, has_id, is_there, save, contest_entity, problem_entity}

-- `order: { orderIndex: 'ASC' }`
pub record OrderBy : Type 0 where
  pub order : List TestCase → List TestCase
  pub count-order : (p : TestCase → Bool) (ts : List TestCase) → count p (order ts) ≡ count p ts
  pub order-IsOrdered :
      (ts : List TestCase) → IsOrdered (λ a b. a.order_index ≤ b.order_index) (order ts)

pub record ProblemStore : Type 0 where
  pub contests : List Contest
  pub problems : List Problem
  pub test_cases : List TestCase

pub record CreateProblemDto : Type 0 where
  pub title : String
  pub description : String
  pub time_limit_ms : ℕ
  pub contest_id : String

pub record UpdateProblemDto : Type 0 where
  pub title : String
  pub description : String
  pub time_limit_ms : ℕ

pub record CreateTestCaseDto : Type 0 where
  pub input : Text
  pub expected_output : Text
  pub is_hidden : Option Bool
  pub order_index : Option ℕ

-- The validators that both DTOs of a problem have.
abbrev pub is_described : String → String → ℕ → Bool
is_described title description time_limit_ms =
    not (title == "") && not (description == "") && leb 100 time_limit_ms

abbrev pub is_filled_in : CreateTestCaseDto → Bool
is_filled_in dto = is_filled dto.input && is_filled dto.expected_output

abbrev pub foreign_key : String
foreign_key = "QueryFailedError"

abbrev pub is_of : String → Problem → Bool
is_of contest_id p = elim p.contest [ none ↦ false | some id ↦ id == contest_id ]

-- The contest is joined, and must not be deleted either.
unfoldable pub find_by_contest : String → List Contest → List Problem → List Problem
find_by_contest contest_id contests problems =
    if any (is_found contest_id) contests
    then filter (λ p. is_of contest_id p && is_there p) problems
    else []

abbrev pub new_problem : String → CreateProblemDto → Problem
new_problem id dto = record {
  id = id;
  title = dto.title;
  description = dto.description;
  time_limit_ms = dto.time_limit_ms;
  contest = some dto.contest_id;
  deleted_at = none;
}

unfoldable pub create : String → CreateProblemDto → ProblemStore → Result (Problem × ProblemStore)
unfolding save
create new_id dto s =
    if any (has_id dto.contest_id) s.contests
    then (save (new_problem new_id dto) s.problems >>= λ (p, problems).
        ok (p, record s { problems = problems }))
    else err (internal foreign_key)

-- `merge` of the DTO into a problem.
abbrev pub merge_problem : UpdateProblemDto → Problem → Problem
merge_problem dto p = record p {
  title = dto.title;
  description = dto.description;
  time_limit_ms = dto.time_limit_ms;
}

abbrev pub new_test_case : String → String → CreateTestCaseDto → TestCase
new_test_case id problem_id dto = record {
  id = id;
  problem_id = problem_id;
  input = dto.input;
  expected_output = dto.expected_output;
  is_hidden = or_else dto.is_hidden false;
  order_index = or_else dto.order_index 0;
}

unfoldable pub add_test_case :
    String → String → CreateTestCaseDto → ProblemStore → Result (TestCase × ProblemStore)
add_test_case new_id problem_id dto s =
    if any (has_id problem_id) s.problems
    then (let t = new_test_case new_id problem_id dto in
        ok (t, record s { test_cases = s.test_cases ++ t ∷ [] }))
    else err (internal foreign_key)

-- No row is affected by an identifier that no test case has.
unfoldable pub delete_test_case : String → ProblemStore → ProblemStore
delete_test_case test_case_id s = record s {
  test_cases = filter (λ t. not (t.id == test_case_id)) s.test_cases;
}

module _ (by : OrderBy) where
  unfoldable pub get_test_cases : String → List TestCase → List TestCase
  get_test_cases problem_id test_cases =
      by.order (filter (λ t. t.problem_id == problem_id) test_cases)

  unfoldable pub get_visible_test_cases : String → List TestCase → List TestCase
  get_visible_test_cases problem_id test_cases =
      by.order (filter (λ t. t.problem_id == problem_id && not t.is_hidden) test_cases)
