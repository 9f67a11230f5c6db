-- ===== src/Submissions/Processor/Streaming.antt =====
-- What those who follow a submission are sent while its job runs: the calls that the job makes of
-- `SubmissionSseService`.
use codeweaknesses.Common.{
  ℕ, String, ◌≡◌, refl, Bool, true, false, ◌&&◌, not, Option, none, some, List, [], ◌∷◌, ◌++◌, map,
  all, arith, length, if◌then◌else◌, ◌==◌,
}
use codeweaknesses.Common.Assoc.{lookup, lookup-erase}
use codeweaknesses.Entities.{TestCase, Submission}
use codeweaknesses.Sse.Events.{Event, submission_error}
use codeweaknesses.Sse.Service.{
  Sse, Signal, next, complete, push, complete_stream, error_stream, publish, finish, fail, apply,
}
use codeweaknesses.Submissions.Processor.{
  save_submission, save_test_result, broadcast, running_submission, JobData, Effect, sse_push,
  sse_complete, sse_error, Progress, Thrown, Surroundings, database, run_all, conclude,
  process_body, handle_error, process_submission, at_start,
}
use codeweaknesses.Submissions.Processor.Failures.{
  is_completion, is_failure, has_returned, IsOpen, run_all-IsOpen,
}

-- An effect of the job of a submission, as a call of the service.
abbrev pub call : String → Effect → Sse → Sse
call id (sse_push event) s = apply (publish id event) s
call id sse_complete s = apply (finish id) s
call id (sse_error message) s = apply (fail id message) s
call id _ s = s

-- The calls of all effects, the newest of which comes first.
unfoldable pub replay : String → List Effect → Sse → Sse
replay id [] s = s
replay id (e ∷ es) s = call id e (replay id es s)

-- The events among the effects, the newest first, that of an error among them.
abbrev pub events_of : List Effect → List Event
events_of [] = []
events_of (sse_push event ∷ es) = event ∷ events_of es
events_of (sse_error message ∷ es) = submission_error message ∷ events_of es
events_of (_ ∷ es) = events_of es

-- One end of the stream, and no event behind it.
abbrev pub is_ended : List Effect → Bool
is_ended [] = false
is_ended (sse_push event ∷ es) = false
is_ended (sse_complete ∷ es) = all (λ e. not (is_completion e) && not (is_failure e)) es
is_ended (sse_error message ∷ es) = all (λ e. not (is_completion e) && not (is_failure e)) es
is_ended (_ ∷ es) = is_ended es

all_open :
    (es : List Effect)
    → IsOpen es
    → all (λ e. not (is_completion e) && not (is_failure e)) es ≡ true
all_open [] h = refl
all_open (e ∷ es) h = ground (arith, all_open es)

abbrev pub sent_on : ℕ → List Event → List (ℕ × Signal)
sent_on subject = map (λ event. (subject, next event))

module _ (id : String) (subject : ℕ) (s : Sse) (there : lookup id s.streams ≡ some subject) where
  replay-open :
      (es : List Effect)
      → all (λ e. not (is_completion e) && not (is_failure e)) es ≡ true
      → replay id es s ≡ record s { signals = sent_on subject (events_of es) ++ s.signals }
  unfolding replay apply push
  replay-open [] h = refl
  replay-open (sse_push event ∷ es) h = ground (arith, replay-open es h)
  replay-open (sse_complete ∷ es) h = cc
  replay-open (sse_error message ∷ es) h = cc
  replay-open (save_submission row ∷ es) h = replay-open es h
  replay-open (save_test_result result ∷ es) h = replay-open es h
  replay-open (broadcast contest_id ∷ es) h = replay-open es h

  -- The stream with its end.
  replay-ended :
      (es : List Effect)
      → is_ended es ≡ true
      → ((replay id es s).signals
          ≡ (subject, complete) ∷ (sent_on subject (events_of es) ++ s.signals))
        × ((j : String)
            → lookup j (replay id es s).streams ≡ (if id == j then none else lookup j s.streams))
  unfolding replay apply complete_stream error_stream
  replay-ended [] h = cc
  replay-ended (sse_push event ∷ es) h = cc
  replay-ended (sse_complete ∷ es) h = (
    ground (arith, replay-open es h),
    λ j. ground (arith, replay-open es h, lookup-erase id j s.streams),
  )
  replay-ended (sse_error message ∷ es) h = (
    ground (arith, replay-open es h),
    λ j. ground (arith, replay-open es h, lookup-erase id j s.streams),
  )
  replay-ended (save_submission row ∷ es) h = replay-ended es h
  replay-ended (save_test_result result ∷ es) h = replay-ended es h
  replay-ended (broadcast contest_id ∷ es) h = replay-ended es h

module _ (around : Surroundings) (data_of : JobData) where
  -- A body that returns has ended the stream, and one that throws has not.
  abbrev IsShaped : {A : Type 0} → Thrown A × Progress → Type 0
  IsShaped r =
      (if has_returned r.0
        then is_ended r.1.effects
        else all (λ e. not (is_completion e) && not (is_failure e)) r.1.effects)
      ≡ true

  conclude-IsShaped :
      (submission : Submission) (total : ℕ) (s : Progress)
      → IsOpen s.effects
      → IsShaped (conclude around data_of submission total s)
  unfolding conclude database
  conclude-IsShaped submission total s h = ground (arith, all_open s.effects h)

  process_body-IsShaped :
      (found : Option Submission) (ts : List TestCase)
      → IsShaped (process_body around data_of found ts at_start)
  unfolding process_body database
  process_body-IsShaped none ts = ground arith
  process_body-IsShaped (some submission) ts =
      let started = running_submission around data_of submission in
      let s = record at_start { database_calls = 3; effects = save_submission started ∷ [] } in
      ground (
        arith,
        run_all-IsOpen around data_of ts s (refl, refl),
        all_open (run_all around data_of ts s).1.effects,
        conclude-IsShaped started (length ts) (run_all around data_of ts s).1,
      )

  pub process_submission-ended :
      (found : Option Submission) (ts : List TestCase) (found_again : Option Submission)
      → is_ended (process_submission around data_of found ts found_again).1.effects ≡ true
  unfolding process_submission handle_error database
  process_submission-ended found ts found_again = ground (arith, process_body-IsShaped found ts)

-- Whatever the lookups answer, whichever database calls reject and however the test cases go: if the
-- submission has a stream when its job is processed, and nothing else calls the service meanwhile, its
-- subject is sent, after what it was sent already, the events of the job in order (with the error behind
-- them if the job throws) and then its completion, and nothing behind that. The stream is gone
-- afterwards, and all others stay.
process_submission-completes :
    (around : Surroundings) (data_of : JobData) (found : Option Submission) (ts : List TestCase)
    (found_again : Option Submission) (subject : ℕ) (s : Sse)
    → lookup data_of.submission_id s.streams ≡ some subject
    → let es = (process_submission around data_of found ts found_again).1.effects in
      let after = replay data_of.submission_id es s in
      (after.signals ≡ (subject, complete) ∷ (sent_on subject (events_of es) ++ s.signals))
      × ((j : String)
          → lookup j after.streams
            ≡ (if data_of.submission_id == j then none else lookup j s.streams))
process_submission-completes around data_of found ts found_again subject s there =
    replay-ended data_of.submission_id subject s there
      (process_submission around data_of found ts found_again).1.effects
      (process_submission-ended around data_of found ts found_again)
