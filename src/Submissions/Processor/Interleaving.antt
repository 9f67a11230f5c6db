-- ===== src/Submissions/Processor/Interleaving.antt =====
-- What those who follow a submission are sent when others call `SubmissionSseService` between the calls
-- of its job.
use codeweaknesses.Common.{
  ℕ, String, ◌≡◌, refl, true, ◌&&◌, not, Option, some, List, [], ◌∷◌, ◌++◌, map, all, arith, ◌∙◌,
  eq_refl,
}
use codeweaknesses.Common.Assoc.{lookup}
use codeweaknesses.Entities.{TestCase, Submission}
use codeweaknesses.Sse.Events.{Event}
use codeweaknesses.Sse.Service.{
  Signal, next, complete, Operation, publish, finish, fail, run, no_streams,
}
use codeweaknesses.Sse.Service.Following.{
  from_job, none_left, Interleaved, signals_on, Stays, is_apart, is_told, told, run-told,
}
use codeweaknesses.Sse.Service.Leaving.{take, events_in, send_all, run-cut}
use codeweaknesses.Sse.Service.Listeners.{listeners, run-listeners, no_streams-IsCounted}
use codeweaknesses.Sse.Service.Protocol.{run-IsLive, no_streams-IsLive}
use codeweaknesses.Submissions.Processor.{
  save_submission, save_test_result, broadcast, JobData, Effect, sse_push, sse_complete, sse_error,
  Surroundings, process_submission,
}
use codeweaknesses.Submissions.Processor.Failures.{is_completion, is_failure}
use codeweaknesses.Submissions.Processor.Streaming.{events_of, is_ended, process_submission-ended}

-- The calls of a job, the oldest first, before `later` ones.
abbrev pub calls_before : String → List Effect → List Operation → List Operation
calls_before id [] later = later
calls_before id (sse_push event ∷ es) later = calls_before id es (publish id event ∷ later)
calls_before id (sse_complete ∷ es) later = calls_before id es (finish id ∷ later)
calls_before id (sse_error message ∷ es) later = calls_before id es (fail id message ∷ later)
calls_before id (_ ∷ es) later = calls_before id es later

abbrev pub calls_of : String → List Effect → List Operation
calls_of id es = calls_before id es []

module _ (id : String) where
  -- The calls send the events on top of what was heard before.
  TellsAs : List Operation → List Operation → List Event → Type 0
  TellsAs calls later events =
      (is_told id later ≡ true → is_told id calls ≡ true)
      × ((heard : List Signal) → told calls heard ≡ told later (map next events ++ heard))

  calls_before-TellsAs :
      (es : List Effect)
      → all (λ e. not (is_completion e) && not (is_failure e)) es ≡ true
      → (later : List Operation) → TellsAs (calls_before id es later) later (events_of es)
  unfolding TellsAs
  calls_before-TellsAs [] h later = (λ e. e, λ heard. refl)
  calls_before-TellsAs (sse_push event ∷ es) h later =
      let (f, g) = calls_before-TellsAs es h (publish id event ∷ later) in
      (λ e. f (ground (arith, e, eq_refl id)), g)
  calls_before-TellsAs (sse_complete ∷ es) h later = cc
  calls_before-TellsAs (sse_error message ∷ es) h later = cc
  calls_before-TellsAs (save_submission row ∷ es) h later = calls_before-TellsAs es h later
  calls_before-TellsAs (save_test_result result ∷ es) h later = calls_before-TellsAs es h later
  calls_before-TellsAs (broadcast contest_id ∷ es) h later = calls_before-TellsAs es h later

  calls_of-ended :
      (es : List Effect)
      → is_ended es ≡ true
      → (is_told id (calls_of id es) ≡ true)
        × ((heard : List Signal)
            → told (calls_of id es) heard ≡ complete ∷ (map next (events_of es) ++ heard))
  unfolding TellsAs
  calls_of-ended [] h = cc
  calls_of-ended (sse_push event ∷ es) h = cc
  calls_of-ended (sse_complete ∷ es) h =
      let (f, g) = calls_before-TellsAs es h (finish id ∷ []) in (f (eq_refl id), g)
  calls_of-ended (sse_error message ∷ es) h =
      let (f, g) = calls_before-TellsAs es h (fail id message ∷ []) in (f (eq_refl id), g)
  calls_of-ended (save_submission row ∷ es) h = calls_of-ended es h
  calls_of-ended (save_test_result result ∷ es) h = calls_of-ended es h
  calls_of-ended (broadcast contest_id ∷ es) h = calls_of-ended es h

-- Later calls stay later.
pub calls_before-later :
    (id : String) (es : List Effect) (xs ys : List Operation)
    → calls_before id es (xs ++ ys) ≡ calls_before id es xs ++ ys
calls_before-later id [] xs ys = refl
calls_before-later id (sse_push event ∷ es) xs ys =
    calls_before-later id es (publish id event ∷ xs) ys
calls_before-later id (sse_complete ∷ es) xs ys = calls_before-later id es (finish id ∷ xs) ys
calls_before-later id (sse_error message ∷ es) xs ys =
    calls_before-later id es (fail id message ∷ xs) ys
calls_before-later id (save_submission row ∷ es) xs ys = calls_before-later id es xs ys
calls_before-later id (save_test_result result ∷ es) xs ys = calls_before-later id es xs ys
calls_before-later id (broadcast contest_id ∷ es) xs ys = calls_before-later id es xs ys

calls_before-append :
    (id : String) (later es : List Effect) (after : List Operation)
    → calls_before id (later ++ es) after ≡ calls_before id es (calls_before id later after)
calls_before-append id [] es after = refl
calls_before-append id (sse_push event ∷ later) es after =
    calls_before-append id later es (publish id event ∷ after)
calls_before-append id (sse_complete ∷ later) es after =
    calls_before-append id later es (finish id ∷ after)
calls_before-append id (sse_error message ∷ later) es after =
    calls_before-append id later es (fail id message ∷ after)
calls_before-append id (save_submission row ∷ later) es after =
    calls_before-append id later es after
calls_before-append id (save_test_result result ∷ later) es after =
    calls_before-append id later es after
calls_before-append id (broadcast contest_id ∷ later) es after =
    calls_before-append id later es after

-- Of two jobs one after the other, the calls of the first come first.
pub calls_of-append :
    (id : String) (later es : List Effect)
    → calls_of id (later ++ es) ≡ calls_of id es ++ calls_of id later
calls_of-append id later es =
    calls_before-append id later es [] ∙ calls_before-later id es [] (calls_of id later)

-- The calls of a job with nobody in between.
pub alone : (xs : List Operation) → Interleaved xs [] xs
alone [] = none_left
alone (x ∷ xs) = from_job (alone xs)

-- Whatever was called before (`history`), and whatever is called afterwards (`after`), and however the
-- job goes: while the calls of the job are interleaved with any calls of others of which none sends
-- anything for the submission and after each of which somebody is still listening to it, the subject of the submission
-- is sent, after what it was sent before, the events of the job in order, then its completion,
-- and never anything else.
pub process_submission-followed :
    (around : Surroundings) (data_of : JobData) (found : Option Submission) (ts : List TestCase)
    (found_again : Option Submission) (history others calls after : List Operation) (subject : ℕ)
    → let es = (process_submission around data_of found ts found_again).1.effects in
      let id = data_of.submission_id in
      let s = run history no_streams in
      lookup id s.streams ≡ some subject
      → Stays id (listeners id s) others
      → Interleaved (calls_of id es) others calls
      → signals_on subject (run (calls ++ after) s).signals
        ≡ complete ∷ (map next (events_of es) ++ signals_on subject s.signals)
process_submission-followed around data_of found ts found_again history others calls after subject
      there stays l =
    let es = (process_submission around data_of found ts found_again).1.effects in
    let id = data_of.submission_id in
    let (t, e) =
      calls_of-ended id es (process_submission-ended around data_of found ts found_again) in
    run-told id subject l t
      (record {
        live = run-IsLive history no_streams-IsLive;
        counted = (run-listeners id history no_streams-IsCounted).1;
        there = there;
      })
      stays after
    ∙ e (signals_on subject (run history no_streams).signals)

-- Whatever was called before (`history`), and whatever is called afterwards (`after`), and however the
-- job goes: while the calls of the job are interleaved with any calls of others that send nothing for
-- the submission, be it that all who listen leave before the job ends or that some come back, the
-- subject that the submission had is sent, after what it was sent before, the first events of the
-- job in order, maybe none and maybe all, with none left out between them, then its completion, and never anything else.
pub process_submission-cut :
    (around : Surroundings) (data_of : JobData) (found : Option Submission) (ts : List TestCase)
    (found_again : Option Submission) (history others calls after : List Operation) (subject : ℕ)
    → let job =
        calls_of data_of.submission_id
          (process_submission around data_of found ts found_again).1.effects in
      let s = run history no_streams in
      lookup data_of.submission_id s.streams ≡ some subject
      → all (is_apart data_of.submission_id) others ≡ true
      → Interleaved job others calls
      → (k : ℕ) × (signals_on subject (run (calls ++ after) s).signals
          ≡ complete ∷ send_all (take k (events_in job)) (signals_on subject s.signals))
process_submission-cut around data_of found ts found_again history others calls after subject there
      apart l =
    let es = (process_submission around data_of found ts found_again).1.effects in
    let id = data_of.submission_id in
    run-cut id subject l
      (calls_of-ended id es (process_submission-ended around data_of found ts found_again)).0 apart
      (record {
        live = run-IsLive history no_streams-IsLive;
        counted = (run-listeners id history no_streams-IsCounted).1;
        there = there;
      })
      after
