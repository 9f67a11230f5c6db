-- ===== src/Graphql/Detail/Laws.antt =====
-- Who sees which submission in detail, and what of it.
use codeweaknesses.Common.{
  ap, refl, ◌||◌, ◌≡◌, true, none, some, Bool, ◌&&◌, not, List, [], ◌∷◌, map, arith, All, or_else,
  Option-cases, inl, inr, if◌then◌else◌, ◌==◌,
}
use codeweaknesses.Common.Results.{ok}
use codeweaknesses.Entities.{Submission, TestResult}
use codeweaknesses.Graphql.Detail.{
  TestResultType, SubmissionType, JwtUser, to_test_result_type, to_submission_type, is_admin,
  submission_detail,
}

-- Unless hidden test cases are shown, the fields of their output and expected output are empty.
abbrev pub IsShownTo : Bool → TestResultType → Type 0
IsShownTo show_hidden tr =
    ((if tr.is_hidden && not show_hidden then tr.output else none) ≡ none)
    × ((if tr.is_hidden && not show_hidden then tr.expected_output else none) ≡ none)

map-IsShownTo :
    (b : Bool) (trs : List TestResult) → All (IsShownTo b) (map (to_test_result_type b) trs)
unfolding to_test_result_type
map-IsShownTo b [] = tt
map-IsShownTo b (tr ∷ trs) = (ground arith, map-IsShownTo b trs)

to_submission_type-IsShownTo :
    (b : Bool) (s : Submission)
    → All (IsShownTo b) (or_else (to_submission_type s b true).test_results [])
unfolding to_submission_type
to_submission_type-IsShownTo b s = elim (Option-cases s.test_results) [
  | inl e ↦ rw e tt
  | inr (trs, e) ↦ rw e (map-IsShownTo b trs)
]

map-errors :
    (b : Bool) (trs : List TestResult)
    → map (λ tr. tr.error) (map (to_test_result_type b) trs) ≡ map (λ tr. tr.error) trs
unfolding to_test_result_type
map-errors b [] = refl
map-errors b (tr ∷ trs) = ap (λ es. tr.error ∷ es) (map-errors b trs)

to_submission_type-errors :
    (b : Bool) (s : Submission)
    → map (λ tr. tr.error) (or_else (to_submission_type s b true).test_results [])
      ≡ map (λ tr. tr.error) (or_else s.test_results [])
unfolding to_submission_type
to_submission_type-errors b s = elim (Option-cases s.test_results) [
  | inl e ↦ rw e refl
  | inr (trs, e) ↦ rw e (map-errors b trs)
]

id_lem : (s : Submission) (b : Bool) → (to_submission_type s b true).id ≡ s.id
unfolding to_submission_type
id_lem s b = refl

-- A submission is shown in detail to its owner and to administrators only, and to all others than
-- administrators with the fields of the output and of the expected output of hidden test cases empty. The
-- field of the error, which holds what a program printed to `stderr`, is shown as it is stored for all
-- test cases, the hidden ones too.
pub submission_detail-IsShownTo :
    (submission : Submission) (caller : JwtUser) (detail : SubmissionType)
    → submission_detail (some submission) caller ≡ ok detail
    → (((submission.user_id == caller.user_id) || is_admin caller) ≡ true)
      × (detail.id ≡ submission.id)
      × All (IsShownTo (is_admin caller)) (or_else detail.test_results [])
      × (map (λ tr. tr.error) (or_else detail.test_results [])
          ≡ map (λ tr. tr.error) (or_else submission.test_results []))
unfolding submission_detail
submission_detail-IsShownTo submission caller detail h =
    let same : to_submission_type submission (is_admin caller) true ≡ detail = ground (arith, h) in
    (
      ground (arith, h),
      rw (← same) (id_lem submission (is_admin caller)),
      rw (← same) (to_submission_type-IsShownTo (is_admin caller) submission),
      rw (← same) (to_submission_type-errors (is_admin caller) submission),
    )
