-- ===== src/Submissions/Retries.antt =====
-- A job of the queue `submissions`, which BullMQ runs again when it throws: `attempts` of `getOrCreateQueue`
-- (src/queue/queue.service.ts) says how often in all, and `processSubmission`
-- (src/submissions/processors/submission.processor.ts) is what it runs.
use codeweaknesses.Sse.Service.Following.{signals_on}
use codeweaknesses.Submissions.Processor.Streaming.{events_of}
use codeweaknesses.Submissions.Processor.Interleaving.{
  calls_of, calls_of-append, alone, process_submission-followed,
}
use mathlib.Core.List.{append_assoc}
use codeweaknesses.Common.Assoc.{lookup}
use codeweaknesses.Sse.Service.{no_streams, run, complete, next, Operation}
use codeweaknesses.Common.{
  some, map, ◌∷◌, refl, inr, inl, Bool-cases, [], ℕ, zero, suc, ◌+◌, ◌-◌, ◌≤◌, ◌<◌, ◌≡◌, ◌↔◌, true,
  false, Option, List, ◌++◌, arith, count, count-append, if◌then◌else◌,
}
use codeweaknesses.Entities.{TestCase, Submission}
use codeweaknesses.Queue.{QueueService, QueueOptions, queue_options}
use codeweaknesses.Submissions.Processor.{
  JobData, JobResult, Effect, Thrown, Progress, Surroundings, process_submission,
}
use codeweaknesses.Submissions.Processor.Failures.{
  is_completion, is_failure, has_returned, process_submission-ends,
}

-- What stands outside the program during one attempt, and what the lookups answer.
pub record Attempt : Type 1 where
  pub around : Surroundings
  pub found : Option Submission
  pub test_cases : List TestCase
  pub found_again : Option Submission

module _ (data_of : JobData) (attempt : ℕ → Attempt) where
  abbrev pub run_attempt : ℕ → Thrown JobResult × Progress
  run_attempt i =
      let a = attempt i in process_submission a.around data_of a.found a.test_cases a.found_again

  -- From attempt `i` on, with `left` further ones. The effects of all come together, the newest first.
  unfoldable pub work_from : ℕ → ℕ → Thrown JobResult × List Effect
  work_from i zero = ((run_attempt i).0, (run_attempt i).1.effects)
  work_from i (suc left) =
      let (outcome, later) = work_from (suc i) left in
      let (tried, s) = run_attempt i in
      if has_returned tried then (tried, s.effects) else (outcome, later ++ s.effects)

  unfoldable pub work : QueueOptions → Thrown JobResult × List Effect
  unfolding work_from
  work options = work_from 0 (options.attempts - 1)

  -- The ends that are announced in `n` attempts at most.
  abbrev IsWorked : ℕ → Thrown JobResult × List Effect → Type 0
  IsWorked n r =
      (count is_completion r.1 ≡ (if has_returned r.0 then 1 else 0))
      × (count is_failure r.1 + count is_completion r.1 ≤ n)
      × ((has_returned r.0 ≡ true) ↔ (count is_failure r.1 < n))

  work_from-IsWorked : (i left : ℕ) → IsWorked (suc left) (work_from i left)
  unfolding work_from
  work_from-IsWorked i zero =
      let a = attempt i in
      let (c, f) = process_submission-ends a.around data_of a.found a.test_cases a.found_again in
      ground (arith, c, f)
  work_from-IsWorked i (suc left) =
      let a = attempt i in
      let (c, f) = process_submission-ends a.around data_of a.found a.test_cases a.found_again in
      let (outcome, later) = work_from (suc i) left in
      let es = (run_attempt i).1.effects in
      ground (
        arith,
        c,
        f,
        work_from-IsWorked (suc i) left,
        count-append is_completion later es,
        count-append is_failure later es,
      )

  -- The first attempt is among those that are made.
  work_from-first :
      (i left : ℕ)
      → (later : List Effect) × ((work_from i left).1 ≡ later ++ (run_attempt i).1.effects)
  unfolding work_from
  work_from-first i zero = ([], refl)
  work_from-first i (suc left) = elim (Bool-cases (has_returned (run_attempt i).0)) [
    | inl e ↦ ([], ground (arith, e))
    | inr e ↦ ((work_from (suc i) left).1, ground (arith, e))
  ]

  work-counts :
      {P D : Type 0} (s : QueueService P D)
      → let (outcome, es) = work (queue_options s) in
        (count is_completion es ≡ (if has_returned outcome then 1 else 0))
        × (count is_failure es + count is_completion es ≤ 3)
        × ((has_returned outcome ≡ false) ↔ (count is_failure es ≡ 3))
  unfolding work
  work-counts s = ground (arith, work_from-IsWorked 0 2)

  work-told :
      (options : QueueOptions) (history after : List Operation) (subject : ℕ)
      → let id = data_of.submission_id in
        let sse = run history no_streams in
        lookup id sse.streams ≡ some subject
        → signals_on subject (run (calls_of id (work options).1 ++ after) sse).signals
          ≡ complete
            ∷ (map next (events_of (run_attempt 0).1.effects) ++ signals_on subject sse.signals)
  unfolding work
  work-told options history after subject there =
      let id = data_of.submission_id in
      let a = attempt 0 in
      let first = (run_attempt 0).1.effects in
      let (later, e) = work_from-first 0 (options.attempts - 1) in
      rw
        (
          e,
          calls_of-append id later first,
          append_assoc (calls_of id first) (calls_of id later) after,
        )
        (process_submission-followed a.around data_of a.found a.test_cases a.found_again history []
          (calls_of id first) (calls_of id later ++ after) subject there tt
          (alone (calls_of id first)))

-- However the attempts go: over all of them the processor asks once for the completion of the stream of
-- its submission if one of the attempts returns a result, and never otherwise; it asks three times at
-- most for a completion or an error, and the job is given up exactly if it asks for three errors. But
-- whatever was called before (`history`), and whatever is called afterwards (`after`): if nobody else
-- calls in between, those who follow the submission are told of the first attempt only. The subject of the
-- submission is sent the events of that attempt in order, then its completion, and never anything else.
pub work-ends :
    {P D : Type 0} (s : QueueService P D) (data_of : JobData) (attempt : ℕ → Attempt)
    (history after : List Operation) (subject : ℕ)
    → let (outcome, es) = work data_of attempt (queue_options s) in
      let id = data_of.submission_id in
      let sse = run history no_streams in
      lookup id sse.streams ≡ some subject
      → (count is_completion es ≡ (if has_returned outcome then 1 else 0))
        × (count is_failure es + count is_completion es ≤ 3)
        × ((has_returned outcome ≡ false) ↔ (count is_failure es ≡ 3))
        × (signals_on subject (run (calls_of id es ++ after) sse).signals
            ≡ complete
              ∷ (map next (events_of (run_attempt data_of attempt 0).1.effects)
                  ++ signals_on subject sse.signals))
work-ends s data_of attempt history after subject there =
    let (completions, ends, given_up) = work-counts data_of attempt s in
    (
      completions,
      ends,
      given_up,
      work-told data_of attempt (queue_options s) history after subject there,
    )
