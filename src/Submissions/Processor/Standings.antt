-- ===== src/Submissions/Processor/Standings.antt =====
-- What a job changes of the standings that `LeaderboardService.computeStandings` computes from the rows
-- of submissions: the composition of the processor with the leaderboard.
use codeweaknesses.Common.{
  ℕ, ◌<◌, String, ◌≡◌, refl, ap, ◌∙◌, Bool, true, false, ◌||◌, Option, none, some, List, [], ◌∷◌,
  ◌++◌, map, any, filter, arith, length, if◌then◌else◌, ◌==◌, eq_iff, Bool-cases, inl, inr,
  Ordering,
}
use codeweaknesses.Common.Results.{ok}
use codeweaknesses.Entities.{Submission, TestCase, Contest, accepted, wrong, same_status}
use codeweaknesses.Leaderboard.Standings.{LeaderboardPayload, ProblemStanding, compute_standings}
use codeweaknesses.Leaderboard.Standings.Cells.{cell_in, total_in}
use codeweaknesses.Leaderboard.Standings.Groups.{is_of}
use codeweaknesses.Leaderboard.Standings.Replaced.{replaced-own, replaced-cell, replaced-total}
use codeweaknesses.Leaderboard.Standings.Scoring.{is_accepted}
use codeweaknesses.Submissions.Processor.{
  JobData, Effect, save_submission, save_test_result, sse_push, sse_complete, sse_error, broadcast,
  Progress, Surroundings, process_submission, running_submission, judged, visible, hidden,
}
use codeweaknesses.Submissions.Processor.Execution.{all_pass, executed, after_tests, after_test}
use codeweaknesses.Submissions.Processor.Ending.{
  process_submission_lem, end_effects, loop_start, loop_end, final_status_lem,
}

-- The row with that identifier is replaced.
abbrev put : Submission → List Submission → List Submission
put row = map (λ r. if r.id == row.id then row else r)

-- The rows of submissions after all effects, the newest of which comes first.
abbrev pub stored : List Effect → List Submission → List Submission
stored [] rows = rows
stored (save_submission row ∷ es) rows = put row (stored es rows)
stored (save_test_result result ∷ es) rows = stored es rows
stored (sse_push event ∷ es) rows = stored es rows
stored (sse_complete ∷ es) rows = stored es rows
stored (sse_error message ∷ es) rows = stored es rows
stored (broadcast contest_id ∷ es) rows = stored es rows

same_status_if : (b : Bool) → same_status (if b then accepted else wrong) accepted ≡ b
same_status_if true = refl
same_status_if false = refl

put-apart :
    (row : Submission) (rows : List Submission)
    → any (λ r. r.id == row.id) rows ≡ false
    → put row rows ≡ rows
put-apart row [] h = refl
put-apart row (r ∷ rs) h = ground (arith, put-apart row rs)

put-split :
    (row old : Submission) (xs ys : List Submission)
    → old.id ≡ row.id
    → any (λ r. r.id == row.id) (xs ++ ys) ≡ false
    → put row (xs ++ old ∷ ys) ≡ xs ++ row ∷ ys
put-split row old [] ys e h = ground (arith, put-apart row ys, eq_iff old.id row.id)
put-split row old (x ∷ xs) ys e h = ground (arith, put-split row old xs ys e)

module _ (around : Surroundings) (data_of : JobData) where
  stored-after_tests :
      (ts : List TestCase) (s : Progress) (rows : List Submission)
      → stored (after_tests around data_of ts s).effects rows ≡ stored s.effects rows
  stored-after_tests [] s rows = refl
  stored-after_tests (t ∷ ts) s rows = stored-after_tests ts (after_test around data_of t s) rows

  module _ (accepts : (n : ℕ) → around.rejects n ≡ none) (s : Submission) (ts : List TestCase)
      (some_tests : 0 < length ts) where
    -- The submission that the job saves at its end.
    abbrev final_row : Submission
    final_row =
        judged around data_of (running_submission around data_of s) (length ts)
          (loop_end around data_of accepts s ts some_tests)

    stored-end_effects :
        (rows : List Submission)
        → stored (end_effects around data_of accepts s ts some_tests) rows
          ≡ put final_row (put (running_submission around data_of s) rows)
    stored-end_effects rows = elim (Bool-cases (s.contest_id == "")) [
      | inl e ↦
          rw
            (
              e,
              stored-after_tests (executed around data_of 0 ts)
                  (loop_start around data_of accepts s ts some_tests) rows,
            )
            refl
      | inr e ↦
          rw
            (
              e,
              stored-after_tests (executed around data_of 0 ts)
                  (loop_start around data_of accepts s ts some_tests) rows,
            )
            refl
    ]

    stored-process_submission :
        (found_again : Option Submission) (xs ys : List Submission)
        → any (λ r. r.id == s.id) (xs ++ ys) ≡ false
        → stored
            (process_submission around data_of (some s) ts found_again).1.effects
            (xs ++ s ∷ ys)
          ≡ xs ++ final_row ∷ ys
    stored-process_submission found_again xs ys h =
        let running = running_submission around data_of s in
        ap (λ es. stored es (xs ++ s ∷ ys))
          (process_submission_lem around data_of accepts s ts some_tests found_again).1
        ∙ stored-end_effects (xs ++ s ∷ ys)
        ∙ ap (put final_row) (put-split running s xs ys refl h)
        ∙ put-split final_row running xs ys refl h

    final_row-accepted : is_accepted final_row ≡ all_pass around data_of 0 (visible ts ++ hidden ts)
    final_row-accepted =
        ap (λ status. same_status status accepted)
          (final_status_lem around data_of accepts s ts some_tests)
        ∙ same_status_if (all_pass around data_of 0 (visible ts ++ hidden ts))

-- Standings that are computed after a job, with the standing that the job decides.
pub process_submission-judges :
    (around : Surroundings) (data_of : JobData) (s : Submission) (ts : List TestCase)
    (found_again : Option Submission) (xs ys : List Submission)
    (locale_compare : String → String → Ordering) (contest_id : String) (contest : Contest)
    (now : ℕ) (p : LeaderboardPayload)
    → ((n : ℕ) → around.rejects n ≡ none)
    → 0 < length ts
    → any (λ r. r.id == s.id) (xs ++ ys) ≡ false
    → compute_standings locale_compare contest_id
        (some contest)
        (stored
          (process_submission around data_of (some s) ts found_again).1.effects
          (xs ++ s ∷ ys))
        now
      ≡ ok p
    → (cell : ProblemStanding) × (cell_in s.user_id s.problem_id p ≡ some cell)
      × (cell.solved ≡ (
          all_pass around data_of 0 (visible ts ++ hidden ts)
          || any is_accepted (filter (is_of s.user_id s.problem_id) (xs ++ ys))))
process_submission-judges around data_of s ts found_again xs ys locale_compare contest_id contest
      now p accepts some_tests once after =
    let row = final_row around data_of accepts s ts some_tests in
    let computed : compute_standings locale_compare contest_id (some contest) (xs ++ row ∷ ys) now
        ≡ ok p =
      rw (stored-process_submission around data_of accepts s ts some_tests found_again xs ys once)
        at after in
    let (cell, there, solved) =
      replaced-own locale_compare contest_id contest xs ys s row now p refl refl computed in
    (
      cell,
      there,
      solved
          ∙ ap (λ b. b || any is_accepted (filter (is_of s.user_id s.problem_id) (xs ++ ys)))
              (final_row-accepted around data_of accepts s ts some_tests),
    )

-- With a database that accepts every call, and at least one test case: the rows of a contest hold the submission
-- once; standings are computed before its job and after it. Afterwards the user has a standing in
-- the problem of the submission, which is solved if every test case passed or another submission of
-- the user to it was accepted, and only then. The standing of any other user or problem (`u`, `q`) is what it was,
-- and so are the problems solved and the penalty of any other user (`v`).
pub process_submission-standings :
    (around : Surroundings) (data_of : JobData) (s : Submission) (ts : List TestCase)
    (found_again : Option Submission) (xs ys : List Submission)
    (locale_compare : String → String → Ordering) (contest_id : String) (contest : Contest)
    (now now' : ℕ) (p p' : LeaderboardPayload) (u q v : String)
    → ((n : ℕ) → around.rejects n ≡ none)
    → 0 < length ts
    → any (λ r. r.id == s.id) (xs ++ ys) ≡ false
    → compute_standings locale_compare contest_id (some contest) (xs ++ s ∷ ys) now ≡ ok p
    → compute_standings locale_compare contest_id
        (some contest)
        (stored
          (process_submission around data_of (some s) ts found_again).1.effects
          (xs ++ s ∷ ys))
        now'
      ≡ ok p'
    → is_of u q s ≡ false
    → (s.user_id == v) ≡ false
    → ((cell : ProblemStanding) × (cell_in s.user_id s.problem_id p' ≡ some cell)
        × (cell.solved ≡ (
            all_pass around data_of 0 (visible ts ++ hidden ts)
            || any is_accepted (filter (is_of s.user_id s.problem_id) (xs ++ ys)))))
      × (cell_in u q p' ≡ cell_in u q p)
      × (total_in v p' ≡ total_in v p)
process_submission-standings around data_of s ts found_again xs ys locale_compare contest_id contest
      now now' p p' u q v accepts some_tests once before after other other_user =
    let row = final_row around data_of accepts s ts some_tests in
    let computed : compute_standings locale_compare contest_id (some contest) (xs ++ row ∷ ys) now'
        ≡ ok p' =
      rw (stored-process_submission around data_of accepts s ts some_tests found_again xs ys once)
        at after in
    (
      process_submission-judges around data_of s ts found_again xs ys locale_compare contest_id
          contest now' p' accepts some_tests once after,
      replaced-cell locale_compare contest_id contest xs ys s row now now' p p' refl refl before
          computed u q other,
      replaced-total locale_compare contest_id contest xs ys s row now now' p p' refl refl before
          computed v other_user,
    )
