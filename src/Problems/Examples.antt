-- ===== src/Problems/Examples.antt =====
-- A hidden test case is added to a problem, with the database's order taken to be a stable sort.
use codeweaknesses.Common.{◌+◌, ◌≤◌, ◌≡◌, refl, Bool, true, not, ◌&&◌, some, count, if◌then◌else◌}
use codeweaknesses.Common.Results.{ok}
use codeweaknesses.Common.Sorting.{IsOrdered}
use codeweaknesses.Entities.{codes, TestCase}
use codeweaknesses.Problems.{
  ProblemStore, CreateTestCaseDto, new_test_case, add_test_case, delete_test_case, get_test_cases,
  get_visible_test_cases,
}
use codeweaknesses.Problems.Cases.{add_test_case-kept}
use codeweaknesses.Problems.Samples.{stable_order, sums}

abbrev hidden_case : CreateTestCaseDto
hidden_case = record {
  input = codes "2 2";
  expected_output = codes "4";
  is_hidden = some true;
  order_index = some 1;
}

add_test_case-kept_example :
    let t = new_test_case "t1" "p" hidden_case in
    (after : ProblemStore) × (add_test_case "t1" "p" hidden_case sums ≡ ok (t, after))
    × IsOrdered
        (λ a b. a.order_index ≤ b.order_index)
        (get_test_cases stable_order "p" after.test_cases)
    × ((p : TestCase → Bool)
        → count p (get_test_cases stable_order "p" after.test_cases)
          ≡ (if p t then 1 else 0) + count p (get_test_cases stable_order "p" sums.test_cases))
    × ((p : TestCase → Bool)
        → count p (get_visible_test_cases stable_order "p" after.test_cases)
          ≡ (if not t.is_hidden && p t then 1 else 0)
            + count p (get_visible_test_cases stable_order "p" sums.test_cases))
    × (delete_test_case "t1" after ≡ sums)
add_test_case-kept_example = add_test_case-kept stable_order "t1" "p" hidden_case sums refl refl
