-- ===== src/Problems/Access.antt =====
-- Who may change problems and see hidden test cases.
use codeweaknesses.Common.{
  some, ℕ, String, ◌≡◌, ◌⊎◌, inl, inr, refl, Bool, true, false, ◌||◌, not, ◌&&◌, Option, List, [],
  ◌∷◌, filter, count, any, arith, ◌==◌,
}
use codeweaknesses.Common.Results.{Result, ok, Result-cases}
use codeweaknesses.Entities.{Text, Role, admin, editor, user, role_value, TestCase}
use codeweaknesses.Auth.Guards.{
  authenticate, guarded, guarded-ok, has_role, has_role-eq, RequestUser,
}
use codeweaknesses.Auth.Tokens.{Jwt}
use codeweaknesses.Problems.{OrderBy, ProblemStore, get_visible_test_cases}
use codeweaknesses.Problems.Controller.{
  restore_problem, remove_problem, update_problem, rows_affected, problems_of_contest, find_problem,
  problems_found, create_problem, test_cases_found, ProblemRequest, ProblemAnswer, create_problem,
  find_all_problems, find_problem, problems_of_contest, update_problem, remove_problem,
  restore_problem, create_test_case, all_test_cases, visible_test_cases, remove_test_case,
  problems_found, test_cases_found, rows_affected, nothing, staff_roles, handle,
}
use codeweaknesses.Repository.{problem_entity, find_one}

-- A request whose token is valid, and of an administrator or an editor.
pub record IsStaff (jwt : Jwt) (now : ℕ) (bearer : Option Text) : Type 0 where
  pub who : RequestUser
  pub known : authenticate jwt now bearer ≡ ok who
  pub is_staff : (who.role ≡ admin) ⊎ (who.role ≡ editor)

staff_role_of :
    (r : Role)
    → (role_value r == role_value admin || (role_value r == role_value editor || false)) ≡ true
    → (r ≡ admin) ⊎ (r ≡ editor)
staff_role_of admin h = inl refl
staff_role_of editor h = inr refl
staff_role_of user h = cc

staff_role :
    (u : RequestUser)
    → any (has_role (some u)) staff_roles ≡ true
    → (u.role ≡ admin) ⊎ (u.role ≡ editor)
staff_role u h = staff_role_of u.role (ground (arith, has_role-eq u admin, has_role-eq u editor))

pub guarded-IsStaff :
    {A : Type 0} (jwt : Jwt) (now : ℕ) (bearer : Option Text) (handler : Result A) (answer : A)
    → guarded jwt now bearer staff_roles handler ≡ ok answer
    → IsStaff jwt now bearer
guarded-IsStaff jwt now bearer handler answer h =
    let (e, (u, known, allowed)) = guarded-ok jwt now bearer staff_roles handler answer h in
    record { who = u; known = known; is_staff = staff_role u allowed }

abbrev pub hidden_in : ProblemAnswer → ℕ
hidden_in (test_cases_found ts) = count (λ t. t.is_hidden) ts
hidden_in (problems_found ps) = 0
hidden_in (rows_affected n) = 0
hidden_in nothing = 0

count-filter_visible :
    (problem_id : String) (ts : List TestCase)
    → count (λ t. t.is_hidden) (filter (λ t. t.problem_id == problem_id && not t.is_hidden) ts) ≡ 0
count-filter_visible problem_id [] = refl
count-filter_visible problem_id (t ∷ ts) = ground (arith, count-filter_visible problem_id ts)

module _ (jwt : Jwt) (by : OrderBy) (is_uuid : String → Bool) where
  -- A request to the controller of problems that is answered either has a valid token of an administrator
  -- or an editor, or leaves all tables as they are and shows no hidden test case.
  pub handle-hidden_in :
      (now : ℕ) (new_id : String) (bearer : Option Text) (request : ProblemRequest)
      (s after : ProblemStore) (answer : ProblemAnswer)
      → handle jwt by is_uuid now new_id bearer request s ≡ ok (answer, after)
      → IsStaff jwt now bearer ⊎ ((after ≡ s) × (hidden_in answer ≡ 0))
  unfolding handle get_visible_test_cases
  handle-hidden_in now new_id bearer (create_problem dto) s after answer h =
      inl (guarded-IsStaff jwt now bearer _ _ h)
  handle-hidden_in now new_id bearer find_all_problems s after answer h = inr (ground arith)
  handle-hidden_in now new_id bearer (find_problem id) s after answer h =
      elim (Result-cases (find_one id s.problems)) [
        | inl (p, e) ↦ inr (ground (arith, e))
        | inr (e', e) ↦ absurd (ground (arith, e))
      ]
  handle-hidden_in now new_id bearer (problems_of_contest id) s after answer h = inr (ground arith)
  handle-hidden_in now new_id bearer (update_problem id dto) s after answer h =
      inl (guarded-IsStaff jwt now bearer _ _ h)
  handle-hidden_in now new_id bearer (remove_problem id) s after answer h =
      inl (guarded-IsStaff jwt now bearer _ _ h)
  handle-hidden_in now new_id bearer (restore_problem id) s after answer h =
      inl (guarded-IsStaff jwt now bearer _ _ h)
  handle-hidden_in now new_id bearer (create_test_case id dto) s after answer h =
      inl (guarded-IsStaff jwt now bearer _ _ h)
  handle-hidden_in now new_id bearer (all_test_cases id) s after answer h =
      inl (guarded-IsStaff jwt now bearer _ _ h)
  handle-hidden_in now new_id bearer (visible_test_cases id) s after answer h = inr (
      ground (
        arith,
        by.count-order (λ t. t.is_hidden)
            (filter (λ t. t.problem_id == id && not t.is_hidden) s.test_cases),
        count-filter_visible id s.test_cases,
      ))
  handle-hidden_in now new_id bearer (remove_test_case id case_id) s after answer h =
      inl (guarded-IsStaff jwt now bearer _ _ h)
