-- ===== src/Problems/Cases.antt =====
-- A test case is kept until it is deleted.
use codeweaknesses.Common.{
  ◌+◌, String, ◌≡◌, ◌≤◌, refl, Bool, true, false, not, ◌&&◌, List, [], ◌∷◌, ◌++◌, filter, count,
  any, arith, if◌then◌else◌, ◌==◌, eq_refl, filter-append, count-append, ap,
}
use codeweaknesses.Common.Results.{ok}
use codeweaknesses.Common.Sorting.{IsOrdered}
use codeweaknesses.Entities.{TestCase}
use codeweaknesses.Problems.{
  OrderBy, ProblemStore, CreateTestCaseDto, new_test_case, add_test_case, delete_test_case,
  get_test_cases, get_visible_test_cases,
}
use codeweaknesses.Repository.{has_id, problem_entity}

filter-others :
    (id : String) (ts : List TestCase)
    → any (λ t. t.id == id) ts ≡ false
    → filter (λ t. not (t.id == id)) ts ≡ ts
filter-others id [] h = refl
filter-others id (t ∷ ts) h = ground (arith, filter-others id ts)

filter-last :
    (id problem_id : String) (dto : CreateTestCaseDto) (ts : List TestCase)
    → any (λ t. t.id == id) ts ≡ false
    → filter (λ t. not (t.id == id)) (ts ++ new_test_case id problem_id dto ∷ []) ≡ ts
filter-last id problem_id dto [] h = ground (arith, eq_refl id)
filter-last id problem_id dto (t ∷ ts) h = ground (arith, filter-last id problem_id dto ts)

module _ (by : OrderBy) (q : TestCase → Bool) where
  count-order-last :
      (p : TestCase → Bool) (ts : List TestCase) (t : TestCase)
      → count p (by.order (filter q (ts ++ t ∷ [])))
        ≡ (if q t && p t then 1 else 0) + count p (by.order (filter q ts))
  count-order-last p ts t = ground (
    arith,
    by.count-order p (filter q (ts ++ t ∷ [])),
    by.count-order p (filter q ts),
    filter-append q ts (t ∷ []),
    count-append p (filter q ts) (filter q (t ∷ [])),
  )

-- A test case of a problem that is there is taken, under an identifier that no test case has. Then
-- the test cases of the problem are those before and this one, in the order of their indices; the visible
-- ones are those before, and this one unless it is hidden. To delete it gives back all tables as they were.
pub add_test_case-kept :
    (by : OrderBy) (new_id problem_id : String) (dto : CreateTestCaseDto) (s : ProblemStore)
    → any (has_id problem_id) s.problems ≡ true
    → any (λ t. t.id == new_id) s.test_cases ≡ false
    → let t = new_test_case new_id problem_id dto in
      (after : ProblemStore) × (add_test_case new_id problem_id dto s ≡ ok (t, after))
      × IsOrdered
          (λ a b. a.order_index ≤ b.order_index)
          (get_test_cases by problem_id after.test_cases)
      × ((p : TestCase → Bool)
          → count p (get_test_cases by problem_id after.test_cases)
            ≡ (if p t then 1 else 0) + count p (get_test_cases by problem_id s.test_cases))
      × ((p : TestCase → Bool)
          → count p (get_visible_test_cases by problem_id after.test_cases)
            ≡ (if not t.is_hidden && p t then 1 else 0)
              + count p (get_visible_test_cases by problem_id s.test_cases))
      × (delete_test_case new_id after ≡ s)
unfolding add_test_case get_test_cases get_visible_test_cases delete_test_case
add_test_case-kept by new_id problem_id dto s there fresh =
    let t = new_test_case new_id problem_id dto in
    let is_own : TestCase → Bool = λ r. r.problem_id == problem_id in
    (
      record s { test_cases = s.test_cases ++ t ∷ [] },
      ground (arith, there),
      by.order-IsOrdered (filter is_own (s.test_cases ++ t ∷ [])),
      λ p. ground (arith, eq_refl problem_id, count-order-last by is_own p s.test_cases t),
      λ p. ground (
        arith,
        eq_refl problem_id,
        count-order-last by (λ r. is_own r && not r.is_hidden) p s.test_cases t,
      ),
      ap (λ ts. record s { test_cases = ts })
          (filter-last new_id problem_id dto s.test_cases fresh),
    )
