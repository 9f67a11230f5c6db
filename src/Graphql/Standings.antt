-- ===== src/Graphql/Standings.antt =====
-- `contestStandings` of src/graphql/resolvers/standings.resolver.ts. The contest with its problems, and
-- the rows of the query, are arguments. A comparison of `Date`s reads null as 0.
pub mod Agreement
pub mod Counting
pub mod Laws
pub mod Order
use codeweaknesses.Common.{
  ℕ, ◌+◌, String, Bool, true, ◌&&◌, ◌||◌, not, Option, none, some, List, [], ◌∷◌, ◌++◌, map, length,
  filter, compare, Ordering, ltb, eqb, or_else, if◌then◌else◌, ◌==◌,
}
use codeweaknesses.Common.Assoc.{Assoc, lookup, insert}
use codeweaknesses.Common.Sorting.{sort}
use codeweaknesses.Common.Results.{Result, ok, err, not_found}
use codeweaknesses.Entities.{
  Submission, SubmissionLanguage, SubmissionStatus, accepted, same_status, Problem, User,
}

pub record BestSubmissionType : Type 0 where
  pub id : String
  pub status : SubmissionStatus
  pub score : ℕ
  pub language : SubmissionLanguage
  pub submitted_at : Option ℕ
  pub execution_time : Option ℕ

pub record ProblemBreakdownType : Type 0 where
  pub problem_id : String
  pub problem_title : String
  pub best_score : ℕ
  pub attempts : ℕ
  pub best_submission : Option BestSubmissionType

pub record LeaderboardEntryType : Type 0 where
  pub rank : ℕ
  pub user_id : String
  pub user_name : String
  pub total_score : ℕ
  pub problems_solved : ℕ
  pub last_accepted_at : Option ℕ
  pub problem_breakdowns : List ProblemBreakdownType

abbrev pub Group : Type 0
Group = User × List Submission

-- One round of the grouping loop; rows without a user are skipped.
unfoldable pub add_row : Assoc Group → Submission → Assoc Group
add_row by_user sub = elim sub.user [
  | none ↦ by_user
  | some user ↦
      let group : Group = or_else (lookup sub.user_id by_user) (user, []) in
      insert sub.user_id (group.0, group.1 ++ sub ∷ []) by_user
]

unfoldable pub group_rows : Assoc Group → List Submission → Assoc Group
group_rows by_user [] = by_user
group_rows by_user (sub ∷ subs) = group_rows (add_row by_user sub) subs

-- Whether the function that is reduced with takes `b` in place of `a`.
abbrev pub improves : Submission → Submission → Bool
improves a b =
    ltb a.score b.score
    || (eqb b.score a.score && ltb (or_else b.submitted_at 0) (or_else a.submitted_at 0))

-- `reduce` from the first submission.
unfoldable pub best_from : Submission → List Submission → Submission
best_from a [] = a
best_from a (b ∷ bs) = best_from (if improves a b then b else a) bs

-- The variables of the loop over the problems.
pub record Summary : Type 0 where
  pub total_score : ℕ
  pub problems_solved : ℕ
  pub last_accepted_at : Option ℕ
  pub problem_breakdowns : List ProblemBreakdownType

abbrev pub no_summary : Summary
no_summary = record {
  total_score = 0;
  problems_solved = 0;
  last_accepted_at = none;
  problem_breakdowns = [];
}

-- `acceptedAt && (!lastAcceptedAt || acceptedAt > lastAcceptedAt)` decides for the new time.
abbrev pub later : Option ℕ → Option ℕ → Option ℕ
later last none = last
later none (some at) = some at
later (some last) (some at) = some (if ltb last at then at else last)

abbrev pub accepted_at : Submission → Option ℕ
accepted_at best = elim best.completed_at [ none ↦ best.submitted_at | some at ↦ some at ]

unfoldable pub add_problem : List Submission → Summary → Problem → Summary
unfolding best_from
add_problem subs t problem = elim (filter (λ s. s.problem_id == problem.id) subs) [
  | [] ↦ record t {
    problem_breakdowns =
        t.problem_breakdowns
        ++ record {
          problem_id = problem.id;
          problem_title = problem.title;
          best_score = 0;
          attempts = 0;
          best_submission = none;
        }
          ∷ [];
  }
  | first ∷ others ↦
      let best = best_from first others in
      let solved = same_status best.status accepted in
      record {
        total_score = t.total_score + best.score;
        problems_solved = if solved then t.problems_solved + 1 else t.problems_solved;
        last_accepted_at =
            if solved then later t.last_accepted_at (accepted_at best) else t.last_accepted_at;
        problem_breakdowns =
            t.problem_breakdowns
            ++ record {
              problem_id = problem.id;
              problem_title = problem.title;
              best_score = best.score;
              attempts = length (first ∷ others);
              best_submission = some (record {
                id = best.id;
                status = best.status;
                score = best.score;
                language = best.language;
                submitted_at = best.submitted_at;
                execution_time = best.execution_time;
              });
            }
              ∷ [];
      }
]

unfoldable pub summarise : List Submission → Summary → List Problem → Summary
summarise subs t [] = t
summarise subs t (p ∷ ps) = summarise subs (add_problem subs t p) ps

unfoldable pub entry_of : List Problem → String × Group → LeaderboardEntryType
entry_of problems (user_id, group) =
    let t = summarise group.1 no_summary problems in
    record {
      rank = 0;
      user_id = user_id;
      user_name = group.0.name;
      total_score = t.total_score;
      problems_solved = t.problems_solved;
      last_accepted_at = t.last_accepted_at;
      problem_breakdowns = t.problem_breakdowns;
    }

-- `aT - bT`, where a missing time is infinite; `Infinity - Infinity` is NaN, which sorts as 0.
abbrev pub compare_times : Option ℕ → Option ℕ → Ordering
compare_times none none = Ordering.eq
compare_times none (some b) = Ordering.gt
compare_times (some a) none = Ordering.lt
compare_times (some a) (some b) = compare a b

unfoldable pub compare_rows : LeaderboardEntryType → LeaderboardEntryType → Ordering
compare_rows a b =
    if not (eqb b.problems_solved a.problems_solved)
    then compare b.problems_solved a.problems_solved
    else if not (eqb b.total_score a.total_score)
    then compare b.total_score a.total_score
    else compare_times a.last_accepted_at b.last_accepted_at

unfoldable pub number_from : ℕ → List LeaderboardEntryType → List LeaderboardEntryType
number_from i [] = []
number_from i (e ∷ es) = record e { rank = i + 1 } ∷ number_from (i + 1) es

unfoldable pub contest_standings :
    Option (List Problem) → List Submission → Result (List LeaderboardEntryType)
contest_standings none submissions = err (not_found "Contest not found")
contest_standings (some problems) submissions =
    ok (number_from 0 (sort compare_rows (map (entry_of problems) (group_rows [] submissions))))
