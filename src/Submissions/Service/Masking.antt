-- ===== src/Submissions/Service/Masking.antt =====
-- What a client is shown of the test results.
use codeweaknesses.Common.{
  if◌then◌else◌, refl, inr, inl, or_else, Option-cases, ◌≡◌, none, some, List, [], ◌∷◌, map, arith,
  All,
}
use codeweaknesses.Common.Results.{ok}
use codeweaknesses.Entities.{Submission, TestResult}
use codeweaknesses.Submissions.Service.{
  sanitize_result, sanitize_submission_results, find_one, find_by,
}

-- The fields of the output and of the expected output of a hidden test case are empty.
abbrev pub IsMasked : TestResult → Type 0
IsMasked tr =
    ((if tr.is_hidden then tr.output else none) ≡ none)
    × ((if tr.is_hidden then tr.expected_output else none) ≡ none)

-- All but the two masked fields, and these where the test case is visible.
abbrev pub SameVerdict : TestResult → TestResult → Type 0
SameVerdict a b =
    (a.test_case_id ≡ b.test_case_id)
    × (a.passed ≡ b.passed)
    × (a.is_hidden ≡ b.is_hidden)
    × (a.error ≡ b.error)
    × ((if b.is_hidden then none else a.output) ≡ (if b.is_hidden then none else b.output))
    × ((if b.is_hidden then none else a.expected_output)
        ≡ (if b.is_hidden then none else b.expected_output))

abbrev pub AllSame : List TestResult → List TestResult → Type 0
AllSame [] [] = Unit
AllSame (a ∷ xs) (b ∷ ys) = SameVerdict a b × AllSame xs ys
AllSame _ _ = ⊥

sanitize_result-IsMasked :
    (tr : TestResult) → IsMasked (sanitize_result tr) × SameVerdict (sanitize_result tr) tr
unfolding sanitize_result
sanitize_result-IsMasked tr = ground arith

map-IsMasked :
    (trs : List TestResult)
    → All IsMasked (map sanitize_result trs) × AllSame (map sanitize_result trs) trs
map-IsMasked [] = (tt, tt)
map-IsMasked (tr ∷ trs) =
    let (m, e) = sanitize_result-IsMasked tr in
    let (ms, es) = map-IsMasked trs in ((m, ms), (e, es))

-- The test results of a submission, none where they are not loaded.
abbrev pub results_of : Submission → List TestResult
results_of s = or_else s.test_results []

pub submission-IsMasked :
    (s : Submission)
    → All IsMasked (results_of (sanitize_submission_results s))
      × AllSame (results_of (sanitize_submission_results s)) (results_of s)
unfolding sanitize_submission_results
submission-IsMasked s = elim (Option-cases s.test_results) [
  | inl e ↦ rw e (tt, tt)
  | inr (trs, e) ↦ rw e (map-IsMasked trs)
]

pub map-submissions :
    (ss : List Submission)
    → All (λ s. All IsMasked (results_of s)) (map sanitize_submission_results ss)
map-submissions [] = tt
map-submissions (s ∷ ss) = ((submission-IsMasked s).0, map-submissions ss)

-- A submission that is looked up, and every one of those that are listed, shows nothing of what hidden
-- test cases printed or expected; the verdicts and the visible test cases are shown as they are.
find-IsMasked :
    (found : Submission) (listed : List Submission)
    → ((s : Submission) × (find_one (some found) ≡ ok s)
        × All IsMasked (results_of s)
        × AllSame (results_of s) (results_of found))
      × All (λ s. All IsMasked (results_of s)) (find_by listed)
unfolding find_one find_by
find-IsMasked found listed = (
  (
    sanitize_submission_results found,
    refl,
    (submission-IsMasked found).0,
    (submission-IsMasked found).1,
  ),
  map-submissions listed,
)
