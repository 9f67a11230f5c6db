-- ===== src/Submissions/Processor/Judging.antt =====
-- The verdict of a submission, when the database accepts every call.
use codeweaknesses.Common.{
  ℕ, suc, ◌+◌, ◌≤◌, ◌≡◌, refl, ◌∙◌, sym, ◌&&◌, not, Option, none, some, List, [], ◌∷◌, ◌++◌, arith,
  length, ltb, Bool-cases, inl, inr,
}
use mathlib.Core.List.{append_assoc, append-nil}
use codeweaknesses.Entities.{TestCase, Submission}
use codeweaknesses.Sse.Events.{Event}
use codeweaknesses.Submissions.Processor.{
  JobData, NewTestResult, Effect, save_submission, save_test_result, sse_push, Progress,
  Surroundings, visible, hidden,
}
use codeweaknesses.Submissions.Processor.Execution.{
  all_pass, count_pass, until_failure, executed, recorded, announced, after_tests,
}

-- The submission as it was saved last; the newest effect comes first.
abbrev pub last_saved : List Effect → Option Submission
last_saved [] = none
last_saved (save_submission s ∷ older) = some s
last_saved (_ ∷ older) = last_saved older

-- The test results that were saved, the oldest first.
abbrev pub saved_results : List Effect → List NewTestResult
saved_results [] = []
saved_results (save_test_result r ∷ older) = saved_results older ++ r ∷ []
saved_results (_ ∷ older) = saved_results older

-- The events that were pushed, the oldest first.
abbrev pub published : List Effect → List Event
published [] = []
published (sse_push e ∷ older) = published older ++ e ∷ []
published (_ ∷ older) = published older

length-visible-hidden : (ts : List TestCase) → length (visible ts) + length (hidden ts) ≡ length ts
length-visible-hidden [] = refl
length-visible-hidden (t ∷ ts) = ground (arith, length-visible-hidden ts)

module _ (around : Surroundings) (data_of : JobData) where
  count_pass-append :
      (i : ℕ) (xs ys : List TestCase)
      → count_pass around data_of i (xs ++ ys)
        ≡ count_pass around data_of i xs + count_pass around data_of (i + length xs) ys
  count_pass-append i [] ys = ground arith
  count_pass-append i (x ∷ xs) ys = ground (arith, count_pass-append (suc i) xs ys)

  all_pass-append :
      (i : ℕ) (xs ys : List TestCase)
      → all_pass around data_of i (xs ++ ys)
        ≡ (all_pass around data_of i xs && all_pass around data_of (i + length xs) ys)
  all_pass-append i [] ys = ground arith
  all_pass-append i (x ∷ xs) ys = ground (arith, all_pass-append (suc i) xs ys)

  -- All are counted exactly if all pass.
  count_pass-lt :
      (i : ℕ) (ts : List TestCase)
      → (count_pass around data_of i ts ≤ length ts)
        × (ltb (count_pass around data_of i ts) (length ts) ≡ not (all_pass around data_of i ts))
  count_pass-lt i [] = (omega arith, refl)
  count_pass-lt i (t ∷ ts) = ground (arith, count_pass-lt (suc i) ts)

  count_pass-until_failure :
      (i : ℕ) (ts : List TestCase)
      → (count_pass around data_of i (until_failure around data_of i ts) ≤ length ts)
        × (ltb (count_pass around data_of i (until_failure around data_of i ts)) (length ts)
            ≡ not (all_pass around data_of i ts))
  count_pass-until_failure i [] = (omega arith, refl)
  count_pass-until_failure i (t ∷ ts) = ground (arith, count_pass-until_failure (suc i) ts)

  -- Fewer than all test cases are counted exactly if one fails, where each hidden test case has the
  -- place behind the visible ones.
  pub count_pass-executed :
      (i : ℕ) (ts : List TestCase)
      → (count_pass around data_of i (executed around data_of i ts) ≤ length ts)
        × (ltb (count_pass around data_of i (executed around data_of i ts)) (length ts)
            ≡ not (all_pass around data_of i (visible ts ++ hidden ts)))
  count_pass-executed i ts =
      let j = i + length (visible ts) in
      elim (Bool-cases (all_pass around data_of i (visible ts))) [
        | inl p ↦ rw p (
            ground (
              arith,
              p,
              count_pass-append i (visible ts) (until_failure around data_of j (hidden ts)),
              all_pass-append i (visible ts) (hidden ts),
              count_pass-lt i (visible ts),
              count_pass-until_failure j (hidden ts),
              length-visible-hidden ts,
            ))
        | inr p ↦
            rw (p, append-nil (visible ts))
              (ground (
                arith,
                p,
                all_pass-append i (visible ts) (hidden ts),
                count_pass-lt i (visible ts),
                length-visible-hidden ts,
              ))
      ]

  pub passed-after_tests :
      (ts : List TestCase) (s : Progress)
      → (after_tests around data_of ts s).passed_count
        ≡ s.passed_count + count_pass around data_of s.current_index ts
  passed-after_tests [] s = omega arith
  passed-after_tests (t ∷ ts) s =
      ground (arith, passed-after_tests ts (after_tests around data_of (t ∷ []) s))

  pub results-after_tests :
      (ts : List TestCase) (s : Progress)
      → saved_results (after_tests around data_of ts s).effects
        ≡ saved_results s.effects ++ recorded around data_of s.current_index ts
  results-after_tests [] s = sym (append-nil (saved_results s.effects))
  results-after_tests (t ∷ ts) s =
      results-after_tests ts (after_tests around data_of (t ∷ []) s)
      ∙ append_assoc (saved_results s.effects) (recorded around data_of s.current_index (t ∷ []))
          (recorded around data_of (suc s.current_index) ts)

  pub published-after_tests :
      (ts : List TestCase) (s : Progress)
      → published (after_tests around data_of ts s).effects
        ≡ published s.effects ++ announced around data_of s.current_index ts
  published-after_tests [] s = sym (append-nil (published s.effects))
  published-after_tests (t ∷ ts) s =
      published-after_tests ts (after_tests around data_of (t ∷ []) s)
      ∙ append_assoc (published s.effects) (announced around data_of s.current_index (t ∷ []))
          (announced around data_of (suc s.current_index) ts)
