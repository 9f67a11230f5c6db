-- ===== src/Submissions/Processor/Execution.antt =====
-- Which test cases a job runs, when the database accepts every call.
use Prim.Native.Nat.{max}
use codeweaknesses.Common.{
  ℕ, suc, ◌+◌, ◌≡◌, refl, Bool, true, ◌&&◌, none, List, [], ◌∷◌, ◌++◌, arith, length, if◌then◌else◌,
  Bool-cases, inl, inr,
}
use mathlib.Core.List.{append-nil}
use codeweaknesses.Entities.{TestCase}
use codeweaknesses.Sse.Events.{Event, test_result}
use codeweaknesses.Submissions.Processor.{
  JobData, NewTestResult, Effect, save_test_result, sse_push, Progress, returned, Surroundings,
  database, execution, passes, new_test_result, test_result_event, run_test_case, run_visible,
  run_hidden, run_all, visible, hidden,
}

module _ (around : Surroundings) (data_of : JobData) where
  -- Whether all of some test cases pass, when the first of them is the `i`-th that is run.
  abbrev pub all_pass : ℕ → List TestCase → Bool
  all_pass i [] = true
  all_pass i (t ∷ ts) = passes around data_of i t && all_pass (suc i) ts

  abbrev pub count_pass : ℕ → List TestCase → ℕ
  count_pass i [] = 0
  count_pass i (t ∷ ts) = (if passes around data_of i t then 1 else 0) + count_pass (suc i) ts

  -- Test cases up to and with the first that fails.
  abbrev pub until_failure : ℕ → List TestCase → List TestCase
  until_failure i [] = []
  until_failure i (t ∷ ts) =
      let rest = until_failure (suc i) ts in t ∷ (if passes around data_of i t then rest else [])

  &&_assoc : (a b c : Bool) → ((a && b) && c) ≡ (a && (b && c))
  &&_assoc a b c = ground arith

  -- All visible test cases, and then, if they pass, the hidden ones up to the first failure.
  abbrev pub executed : ℕ → List TestCase → List TestCase
  executed i ts =
      visible ts
      ++ (if all_pass i (visible ts)
          then until_failure (i + length (visible ts)) (hidden ts)
          else [])

  -- The records of test cases run one after the other.
  abbrev pub recorded : ℕ → List TestCase → List NewTestResult
  recorded i [] = []
  recorded i (t ∷ ts) = new_test_result around data_of i t ∷ recorded (suc i) ts

  abbrev pub announced : ℕ → List TestCase → List Event
  announced i [] = []
  announced i (t ∷ ts) = test_result (test_result_event around data_of i t) ∷ announced (suc i) ts

  -- The state after one test case, and after several.
  abbrev pub after_test : TestCase → Progress → Progress
  after_test t s =
      let i = s.current_index in
      let result = execution around data_of i t in
      record {
        passed_count = if passes around data_of i t then s.passed_count + 1 else s.passed_count;
        total_execution_time = s.total_execution_time + result.execution_time;
        max_memory_used = max s.max_memory_used result.memory_used;
        current_index = suc i;
        database_calls = suc s.database_calls;
        effects =
            sse_push (test_result (test_result_event around data_of i t))
            ∷ save_test_result (new_test_result around data_of i t)
            ∷ s.effects;
      }

  abbrev pub after_tests : List TestCase → Progress → Progress
  after_tests [] s = s
  after_tests (t ∷ ts) s = after_tests ts (after_test t s)

  after_tests-append :
      (xs ys : List TestCase) (s : Progress)
      → after_tests (xs ++ ys) s ≡ after_tests ys (after_tests xs s)
  after_tests-append [] ys s = refl
  after_tests-append (x ∷ xs) ys s = after_tests-append xs ys (after_test x s)

  index-after_tests :
      (ts : List TestCase) (s : Progress)
      → (after_tests ts s).current_index ≡ s.current_index + length ts
  index-after_tests [] s = omega arith
  index-after_tests (t ∷ ts) s = omega (arith, index-after_tests ts (after_test t s))

  module _ (accepts : (n : ℕ) → around.rejects n ≡ none) where
    pub database_lem :
        (written : List Effect) (s : Progress)
        → database around written s ≡ (
          returned tt,
          record s { database_calls = suc s.database_calls; effects = written ++ s.effects },
        )
    unfolding database
    database_lem written s = rw (accepts s.database_calls, database)

    run_test_case_lem :
        (t : TestCase) (s : Progress)
        → run_test_case around data_of t s
          ≡ (returned (passes around data_of s.current_index t), after_test t s)
    unfolding run_test_case database
    run_test_case_lem t s = ground (arith, accepts s.database_calls)

    run_visible_lem :
        (b : Bool) (ts : List TestCase) (s : Progress)
        → run_visible around data_of b ts s
          ≡ (returned (b && all_pass s.current_index ts), after_tests ts s)
    unfolding run_visible
    run_visible_lem b [] s = ground arith
    run_visible_lem b (t ∷ ts) s =
        let p = passes around data_of s.current_index t in
        ground (
          arith,
          run_test_case_lem t s,
          run_visible_lem (b && p) ts (after_test t s),
          &&_assoc b p (all_pass (suc s.current_index) ts),
        )

    run_hidden_lem :
        (ts : List TestCase) (s : Progress)
        → run_hidden around data_of ts s
          ≡ (returned tt, after_tests (until_failure s.current_index ts) s)
    unfolding run_hidden
    run_hidden_lem [] s = refl
    run_hidden_lem (t ∷ ts) s =
        ground (arith, run_test_case_lem t s, run_hidden_lem ts (after_test t s))

    -- The loops together run exactly the `executed` test cases.
    pub run_all_lem :
        (ts : List TestCase) (s : Progress)
        → run_all around data_of ts s ≡ (returned tt, after_tests (executed s.current_index ts) s)
    unfolding run_all
    run_all_lem ts s =
        let later = until_failure (s.current_index + length (visible ts)) (hidden ts) in
        elim (Bool-cases (all_pass s.current_index (visible ts))) [
          | inl p ↦ rw p (
              ground (
                arith,
                p,
                run_visible_lem true (visible ts) s,
                run_hidden_lem (hidden ts) (after_tests (visible ts) s),
                after_tests-append (visible ts) later s,
                index-after_tests (visible ts) s,
              ))
          | inr p ↦
              rw (p, append-nil (visible ts))
                (ground (arith, p, run_visible_lem true (visible ts) s))
        ]
