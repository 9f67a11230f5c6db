-- ===== src/Sse/Controller.antt =====
-- `SseController` (src/sse/sse.controller.ts): who may follow a submission, the replay of a finished
-- one, and what each subscriber is sent of a live one.
pub mod Laws
use codeweaknesses.Common.{
  ℕ, suc, String, Bool, true, false, ◌&&◌, not, Option, none, some, List, [], ◌∷◌, ◌++◌, any,
  or_else, length, count, if◌then◌else◌, ◌==◌,
}
use codeweaknesses.Common.Results.{Result, ok, err, forbidden, ◌>>=◌}
use codeweaknesses.Common.Texts.{includes}
use codeweaknesses.Entities.{
  Text, codes, Submission, SubmissionStatus, accepted, wrong, tle, mle, runtime_error,
  compilation_error, same_status, TestResult, Role, admin, role_value,
}
use codeweaknesses.Sse.Events.{
  Event, test_result, submission_completed, submission_error, TestResultEvent,
  SubmissionCompletedEvent, Verdict, pass, fail,
}
use codeweaknesses.Submissions.Service.{find_one}

unfoldable pub is_final_status : SubmissionStatus → Bool
is_final_status status =
    any (same_status status)
      (accepted ∷ wrong ∷ SubmissionStatus.tle ∷ mle ∷ runtime_error ∷ compilation_error ∷ [])

-- `req.user`
pub record Caller : Type 0 where
  pub user_id : String
  pub role : Role

abbrev pub is_admin : Caller → Bool
is_admin caller = role_value caller.role == "admin"

unfoldable pub replay_verdict : TestResult → Verdict
replay_verdict tr = if tr.passed then pass else elim tr.error [
  | none ↦ fail
  | some error ↦ if includes error (codes "timeout") then Verdict.tle else fail
]

-- `delete` of the two fields of an event for a hidden test case, for one who is no administrator.
unfoldable pub mask_event : Bool → TestResultEvent → TestResultEvent
mask_event admin_view e =
    if e.is_hidden && not admin_view then record e { output = none; expected_output = none } else e

unfoldable pub replay_event : Bool → String → ℕ → TestResult → TestResultEvent
unfolding mask_event replay_verdict
replay_event admin_view submission_id index tr = mask_event admin_view (record {
  submission_id = submission_id;
  test_case_index = index;
  test_case_id = tr.test_case_id;
  verdict = replay_verdict tr;
  execution_ms = or_else tr.execution_time 0;
  is_hidden = tr.is_hidden;
  output = tr.output;
  expected_output = tr.expected_output;
})

unfoldable pub replay_results : Bool → String → ℕ → List TestResult → List Event
replay_results admin_view submission_id index [] = []
replay_results admin_view submission_id index (tr ∷ trs) =
    test_result (replay_event admin_view submission_id index tr)
    ∷ replay_results admin_view submission_id (suc index) trs

unfoldable pub build_replay_events : Bool → Submission → List Event
unfolding replay_results
build_replay_events admin_view submission =
    let results = or_else submission.test_results [] in
    replay_results admin_view submission.id 0 results
    ++ submission_completed (record {
      submission_id = submission.id;
      final_verdict = submission.status;
      score = submission.score;
      total_execution_ms = or_else submission.execution_time 0;
      passed_count = count (λ (tr : TestResult). tr.passed) results;
      total_count = length results;
    })
      ∷ []

-- What the endpoint answers: all events at once, or a subscription to the live stream.
pub data Answer : Type 0 where
  replay : List Event → Answer
  live : Bool → Answer

unfoldable pub stream : Option Submission → Caller → Result Answer
stream found caller = do
  submission ← find_one found
  if not (submission.user_id == caller.user_id) && not (is_admin caller)
      then err (forbidden "You do not have access to this submission stream")
      else if is_final_status submission.status
      then ok (replay (build_replay_events (is_admin caller) submission))
      else ok (live (is_admin caller))

unfoldable pub mask_live : Bool → Event → Event
unfolding mask_event
mask_live admin_view (test_result e) = test_result (mask_event admin_view e)
mask_live admin_view (submission_completed e) = submission_completed e
mask_live admin_view (submission_error message) = submission_error message

-- One event on its way to the subscribers of a live stream, in the order of their subscription. The
-- payload is one object that each subscriber's `map` changes in place before it is sent.
unfoldable pub deliver : List Bool → Event → List Event
deliver [] event = []
deliver (admin_view ∷ rest) event =
    let event' = mask_live admin_view event in event' ∷ deliver rest event'
