-- ===== src/Problems/Controller.antt =====
-- The routes of src/problem/problem.controller.ts. `is_uuid` is class-validator's `IsUUID`.
use codeweaknesses.Common.{ℕ, String, Bool, ◌&&◌, Option, List, [], ◌∷◌}
use codeweaknesses.Common.Results.{Result, ok, ◌>>=◌}
use codeweaknesses.Entities.{Text, Role, admin, editor, Problem, TestCase}
use codeweaknesses.Auth.Guards.{guarded}
use codeweaknesses.Auth.Tokens.{Jwt}
use codeweaknesses.Auth.Users.{validated}
use codeweaknesses.Problems.{
  OrderBy, ProblemStore, CreateProblemDto, UpdateProblemDto, CreateTestCaseDto, is_described,
  is_filled_in, find_by_contest, create, merge_problem, add_test_case, delete_test_case,
  get_test_cases, get_visible_test_cases,
}
use codeweaknesses.Repository.{problem_entity, find_all, find_one, update, remove, restore}

pub data ProblemRequest : Type 0 where
  create_problem : CreateProblemDto → ProblemRequest
  find_all_problems : ProblemRequest
  find_problem problems_of_contest : String → ProblemRequest
  update_problem : String → UpdateProblemDto → ProblemRequest
  remove_problem restore_problem : String → ProblemRequest
  create_test_case : String → CreateTestCaseDto → ProblemRequest
  all_test_cases visible_test_cases : String → ProblemRequest
  remove_test_case : String → String → ProblemRequest

pub data ProblemAnswer : Type 0 where
  problems_found : List Problem → ProblemAnswer
  test_cases_found : List TestCase → ProblemAnswer
  rows_affected : ℕ → ProblemAnswer
  nothing : ProblemAnswer

-- `@Roles(Role.ADMIN, Role.EDITOR)`
abbrev pub staff_roles : List Role
staff_roles = admin ∷ editor ∷ []

module _ (jwt : Jwt) (by : OrderBy) (is_uuid : String → Bool) where
  -- What is answered, and the tables.
  unfoldable pub handle :
      ℕ
      → String
      → Option Text
      → ProblemRequest
      → ProblemStore
      → Result (ProblemAnswer × ProblemStore)
  unfolding guarded create find_by_contest find_all find_one update remove restore add_test_case
      get_test_cases get_visible_test_cases delete_test_case
  handle now new_id bearer (create_problem dto) s = guarded jwt now bearer staff_roles (
      validated (is_described dto.title dto.description dto.time_limit_ms && is_uuid dto.contest_id)
        (create new_id dto s >>= λ (p, s'). ok (problems_found (p ∷ []), s')))
  handle now new_id bearer find_all_problems s = ok (problems_found (find_all s.problems), s)
  handle now new_id bearer (find_problem id) s =
      find_one id s.problems >>= λ p. ok (problems_found (p ∷ []), s)
  handle now new_id bearer (problems_of_contest contest_id) s =
      ok (problems_found (find_by_contest contest_id s.contests s.problems), s)
  handle now new_id bearer (update_problem id dto) s = guarded jwt now bearer staff_roles (
      validated (is_described dto.title dto.description dto.time_limit_ms) (
        update id (merge_problem dto) s.problems >>= λ (p, problems).
        ok (problems_found (p ∷ []), record s { problems = problems })))
  handle now new_id bearer (remove_problem id) s =
      guarded jwt now bearer staff_roles
        (remove now id s.problems >>= λ problems. ok (nothing, record s { problems = problems }))
  handle now new_id bearer (restore_problem id) s = guarded jwt now bearer staff_roles (
      restore id s.problems >>= λ (affected, problems).
      ok (rows_affected affected, record s { problems = problems }))
  handle now new_id bearer (create_test_case problem_id dto) s =
      guarded jwt now bearer staff_roles (
        validated (is_filled_in dto)
          (add_test_case new_id problem_id dto s >>= λ (t, s'). ok (test_cases_found (t ∷ []), s')))
  handle now new_id bearer (all_test_cases problem_id) s =
      guarded jwt now bearer staff_roles
        (ok (test_cases_found (get_test_cases by problem_id s.test_cases), s))
  handle now new_id bearer (visible_test_cases problem_id) s =
      ok (test_cases_found (get_visible_test_cases by problem_id s.test_cases), s)
  handle now new_id bearer (remove_test_case problem_id test_case_id) s =
      guarded jwt now bearer staff_roles (ok (nothing, delete_test_case test_case_id s))
