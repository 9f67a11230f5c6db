-- ===== src/Problems/Samples.antt =====
-- A problem with a test case, and an order of rows that is a stable sort.
use codeweaknesses.Common.{◌≡◌, ◌≢◌, ◌≤◌, compare, Ordering, false, none, some, [], ◌∷◌, arith}
use codeweaknesses.Common.Sorting.{sort, count-sort, sort-IsOrdered}
use codeweaknesses.Entities.{codes, TestCase}
use codeweaknesses.Problems.{OrderBy, ProblemStore}

abbrev pub by_index : TestCase → TestCase → Ordering
by_index a b = compare a.order_index b.order_index

pub index_after : (a b : TestCase) → by_index a b ≡ Ordering.gt → b.order_index ≤ a.order_index
index_after a b h = ground arith

pub index_before : (a b : TestCase) → by_index a b ≢ Ordering.gt → a.order_index ≤ b.order_index
index_before a b h = ground arith

abbrev pub stable_order : OrderBy
stable_order = record {
  order = sort by_index;
  count-order = count-sort by_index;
  order-IsOrdered =
      sort-IsOrdered by_index (λ a b. a.order_index ≤ b.order_index)
        (λ a b c h k. omega (arith, h, k)) index_after index_before;
}

abbrev pub sums : ProblemStore
sums = record {
  contests = [];
  problems =
      record {
        id = "p";
        title = "Sums";
        description = "Add two numbers.";
        time_limit_ms = 1000;
        contest = some "c";
        deleted_at = none;
      }
      ∷ [];
  test_cases =
      record {
        id = "t0";
        problem_id = "p";
        input = codes "1 1";
        expected_output = codes "2";
        is_hidden = false;
        order_index = 0;
      }
      ∷ [];
}
