-- ===== src/Sse/Controller/Laws.antt =====
-- Who sees what of a submission's events.
use codeweaknesses.Common.{
  if◌then◌else◌, ℕ, suc, String, ◌≡◌, refl, Bool, true, false, none, some, List, [], ◌∷◌, arith,
  All, All-append, ◌==◌, eq_iff, ◌⊎◌,
}
use codeweaknesses.Common.Results.{ok}
use codeweaknesses.Entities.{Submission, TestResult, Role, admin, editor, user, role_value}
use codeweaknesses.Sse.Events.{Event, test_result, submission_completed, submission_error}
use codeweaknesses.Submissions.Service.{find_one, sanitize_submission_results}
use codeweaknesses.Submissions.Service.Masking.{IsMasked, submission-IsMasked, results_of}
use codeweaknesses.Sse.Controller.{
  Caller, is_admin, replay_event, replay_results, build_replay_events, Answer, live, replay, stream,
  mask_live, deliver,
}

-- The event shows nothing of what a hidden test case printed or expected.
abbrev pub HidesOutput : Event → Type 0
HidesOutput (test_result e) =
    ((if e.is_hidden then e.output else none) ≡ none)
    × ((if e.is_hidden then e.expected_output else none) ≡ none)
HidesOutput _ = Unit

replay_event-HidesOutput :
    (b : Bool) (id : String) (i : ℕ) (tr : TestResult)
    → IsMasked tr
    → HidesOutput (test_result (replay_event b id i tr))
unfolding replay_event
replay_event-HidesOutput b id i tr h = ground arith

replay_results-HidesOutput :
    (b : Bool) (id : String) (i : ℕ) (trs : List TestResult)
    → All IsMasked trs
    → All HidesOutput (replay_results b id i trs)
unfolding replay_results
replay_results-HidesOutput b id i [] h = tt
replay_results-HidesOutput b id i (tr ∷ trs) h =
    (replay_event-HidesOutput b id i tr h.0, replay_results-HidesOutput b id (suc i) trs h.1)

build_replay_events-HidesOutput :
    (b : Bool) (s : Submission)
    → All IsMasked (results_of s)
    → All HidesOutput (build_replay_events b s)
unfolding build_replay_events
build_replay_events-HidesOutput b s h =
    All-append HidesOutput (replay_results b s.id 0 (results_of s)) _
      (replay_results-HidesOutput b s.id 0 (results_of s) h) (tt, tt)

user_id-sanitize : (s : Submission) → (sanitize_submission_results s).user_id ≡ s.user_id
unfolding sanitize_submission_results
user_id-sanitize s = ground arith

admin_of_value : (r : Role) → (role_value r == "admin") ≡ true → r ≡ admin
admin_of_value admin h = refl
admin_of_value editor h = cc
admin_of_value user h = cc

-- A replay never shows what a hidden test case printed or expected, and to an administrator neither:
-- the submission that is replayed has been masked when it was looked up.
stream-HidesOutput :
    (submission : Submission) (caller : Caller) (events : List Event)
    → stream (some submission) caller ≡ ok (replay events)
    → All HidesOutput events
unfolding stream find_one
stream-HidesOutput submission caller events h =
    let shown = sanitize_submission_results submission in
    let masked = submission-IsMasked submission in
    let same : build_replay_events (is_admin caller) shown ≡ events = ground arith in
    rw (← same) (build_replay_events-HidesOutput (is_admin caller) shown masked.0)

-- Only the owner of a submission and administrators are let in: all others get an error.
stream-owner :
    (submission : Submission) (caller : Caller) (answer : Answer)
    → stream (some submission) caller ≡ ok answer
    → (submission.user_id ≡ caller.user_id) ⊎ (caller.role ≡ admin)
unfolding stream find_one
stream-owner submission caller answer h =
    let shown = sanitize_submission_results submission in
    ground (
      arith,
      h,
      user_id-sanitize submission,
      eq_iff shown.user_id caller.user_id,
      admin_of_value caller.role,
    )

-- What an answer shows at once; a live stream shows events as they are delivered.
abbrev pub shown_by : Answer → List Event
shown_by (replay events) = events
shown_by (live admin_view) = []

-- Only the owner of a submission and administrators are let in, all others get an error; and a replay
-- never shows what a hidden test case printed or expected, to administrators neither: the
-- submission that is replayed has been masked when it was looked up.
pub stream-IsPrivate :
    (submission : Submission) (caller : Caller) (answer : Answer)
    → stream (some submission) caller ≡ ok answer
    → ((submission.user_id ≡ caller.user_id) ⊎ (caller.role ≡ admin))
      × All HidesOutput (shown_by answer)
stream-IsPrivate submission caller (replay events) h = (
  stream-owner submission caller (replay events) h,
  stream-HidesOutput submission caller events h,
)
stream-IsPrivate submission caller (live admin_view) h =
    (stream-owner submission caller (live admin_view) h, tt)

mask_live-HidesOutput : (e : Event) → HidesOutput (mask_live false e)
unfolding mask_live
mask_live-HidesOutput (test_result e) = ground arith
mask_live-HidesOutput (submission_completed e) = tt
mask_live-HidesOutput (submission_error message) = tt

mask_live-keeps_hidden : (b : Bool) (e : Event) → HidesOutput e → HidesOutput (mask_live b e)
unfolding mask_live
mask_live-keeps_hidden b (test_result e) h = ground arith
mask_live-keeps_hidden b (submission_completed e) h = tt
mask_live-keeps_hidden b (submission_error message) h = tt

mask_live_admin : (e : Event) → mask_live true e ≡ e
unfolding mask_live
mask_live_admin (test_result e) = ground arith
mask_live_admin (submission_completed e) = refl
mask_live_admin (submission_error message) = refl

deliver_hidden : (views : List Bool) (e : Event) → HidesOutput e → All HidesOutput (deliver views e)
unfolding deliver
deliver_hidden [] e h = tt
deliver_hidden (b ∷ rest) e h =
    let k = mask_live-keeps_hidden b e h in (k, deliver_hidden rest (mask_live b e) k)

-- Along the subscribers: administrators before the first other subscriber get the event itself, and all
-- from that subscriber on get one that hides the output.
abbrev pub IsDelivered : Event → List Bool → List Event → Type 0
IsDelivered e [] [] = Unit
IsDelivered e (true ∷ rest) (v ∷ vs) = (v ≡ e) × IsDelivered e rest vs
IsDelivered e (false ∷ rest) (v ∷ vs) = HidesOutput v × All HidesOutput vs
IsDelivered e _ _ = ⊥

-- Whoever subscribes, in whatever order, no one but an administrator is sent what a hidden test case
-- printed or expected. An administrator is sent it only if no other subscriber comes before: behind
-- one, the shared event has lost its output.
pub deliver-IsDelivered : (views : List Bool) (e : Event) → IsDelivered e views (deliver views e)
unfolding deliver
deliver-IsDelivered [] e = tt
deliver-IsDelivered (true ∷ rest) e =
    (mask_live_admin e, rw (mask_live_admin e) (deliver-IsDelivered rest e))
deliver-IsDelivered (false ∷ rest) e =
    (mask_live-HidesOutput e, deliver_hidden rest (mask_live false e) (mask_live-HidesOutput e))
