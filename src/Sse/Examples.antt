-- ===== src/Sse/Examples.antt =====
-- One submission, followed by two subscribers.
use codeweaknesses.Common.{
  ◌<◌, String, ◌≡◌, ◌↔◌, ◌⊎◌, refl, true, false, none, some, List, [], ◌∷◌, All, is_some,
}
use codeweaknesses.Common.Assoc.{lookup}
use codeweaknesses.Entities.{codes, Submission, TestResult, accepted, javascript, admin}
use codeweaknesses.Submissions.Service.{find_one, sanitize_submission_results, sanitize_result}
use codeweaknesses.Sse.Events.{Event, test_result, pass}
use codeweaknesses.Sse.Service.{Operation, subscribe, publish, disconnect, run, no_streams}
use codeweaknesses.Sse.Service.Listeners.{run-streams, listeners, listen_all}
use codeweaknesses.Sse.Service.Protocol.{run-IsProtocol, IsProtocol}
use codeweaknesses.Sse.Controller.{
  Caller, replay, stream, deliver, is_final_status, build_replay_events,
}
use codeweaknesses.Sse.Controller.Laws.{
  stream-IsPrivate, shown_by, deliver-IsDelivered, HidesOutput, IsDelivered,
}

abbrev hidden_result : TestResult
hidden_result = record {
  id = "r";
  submission_id = "s";
  test_case_id = "t";
  passed = true;
  is_hidden = true;
  output = some (codes "42");
  expected_output = some (codes "42");
  error = none;
  execution_time = some 3;
  memory_used = some 1000;
}

abbrev judged : Submission
judged = record {
  id = "s";
  code = codes "print(42)";
  language = javascript;
  status = accepted;
  user_id = "ada";
  problem_id = "p";
  contest_id = "c";
  submitted_at = some 1;
  started_at = some 2;
  completed_at = some 5;
  score = 100;
  execution_time = some 3;
  memory_used = some 1000;
  user = none;
  test_results = some (hidden_result ∷ []);
}

abbrev root : Caller
root = record { user_id = "root"; role = admin }

abbrev live_event : Event
live_event = test_result (record {
  submission_id = "s";
  test_case_index = 0;
  test_case_id = "t";
  verdict = pass;
  execution_ms = 3;
  is_hidden = true;
  output = some (codes "42");
  expected_output = some (codes "42");
})

abbrev session : List Operation
session =
    subscribe "s" ∷ subscribe "s" ∷ publish "s" live_event ∷ disconnect "s" ∷ subscribe "t" ∷ []

run-streams_example :
    (listeners "s" (run session no_streams) ≡ listen_all "s" 0 session)
    × ((is_some (lookup "s" (run session no_streams).streams) ≡ true)
        ↔ (0 < listen_all "s" 0 session))
run-streams_example = run-streams "s" session

run-IsProtocol_example : IsProtocol (run session no_streams).signals
run-IsProtocol_example = run-IsProtocol session

abbrev followed : String
followed = "t"

abbrev replayed : List Event
replayed = build_replay_events true (sanitize_submission_results judged)

stream-IsPrivate_example :
    ((judged.user_id ≡ root.user_id) ⊎ (root.role ≡ admin))
    × All HidesOutput (shown_by (replay replayed))
unfolding stream find_one sanitize_submission_results sanitize_result is_final_status
stream-IsPrivate_example = stream-IsPrivate judged root (replay replayed) refl

deliver-IsDelivered_example :
    IsDelivered live_event
      (true ∷ false ∷ true ∷ [])
      (deliver (true ∷ false ∷ true ∷ []) live_event)
deliver-IsDelivered_example = deliver-IsDelivered (true ∷ false ∷ true ∷ []) live_event
