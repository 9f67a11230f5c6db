-- ===== src/Graphql/Examples.antt =====
-- A contest with one problem, which two submissions of one user are for.
use codeweaknesses.Common.{
  ◌≡◌, ◌||◌, refl, true, false, none, some, List, [], ◌∷◌, map, All, or_else, ◌==◌, ℕ, String,
  Ordering,
}
use codeweaknesses.Common.Assoc.{has, lookup, insert}
use codeweaknesses.Common.Sorting.{sort, IsOrdered}
use codeweaknesses.Entities.{
  codes, SubmissionStatus, accepted, wrong, javascript, Submission, Problem, User, Contest, user,
}
use codeweaknesses.Graphql.Detail.{
  JwtUser, SubmissionType, submission_detail, to_submission_type, is_admin,
}
use codeweaknesses.Graphql.Detail.Laws.{submission_detail-IsShownTo, IsShownTo}
use codeweaknesses.Graphql.Standings.{
  LeaderboardEntryType, Group, entry_of, contest_standings, group_rows, add_row, number_from,
}
use codeweaknesses.Leaderboard.Standings.{
  LeaderboardEntry, LeaderboardPayload, compute_standings, group_submissions, add_submission,
  build_entry, tally, add_standing, standing_of, first_accepted, is_penalisable, user_name_of,
  compare_entries, assign_from, assign_ranks, problem_standing,
}
use codeweaknesses.Leaderboard.Standings.Minutes.{minutes_since}
use codeweaknesses.Graphql.Standings.Agreement.{contest_standings-agrees}
use codeweaknesses.Graphql.Standings.Order.{
  contest_standings-IsOrdered, NotWorse, numbers_above, rank_of,
}

abbrev ada : User
ada = record { id = "ada"; name = "Ada"; password_hash = ""; role = user; deleted_at = none }

abbrev attempt : SubmissionStatus → ℕ → ℕ → Submission
attempt status score at = record {
  id = "s";
  code = codes "print(42)";
  language = javascript;
  status = status;
  user_id = "ada";
  problem_id = "p";
  contest_id = "c";
  submitted_at = some at;
  started_at = none;
  completed_at = some (at);
  score = score;
  execution_time = none;
  memory_used = none;
  user = some ada;
  test_results = some (
      record {
        id = "r";
        submission_id = "s";
        test_case_id = "t";
        passed = true;
        is_hidden = true;
        output = some (codes "42");
        expected_output = some (codes "42");
        error = none;
        execution_time = some 3;
        memory_used = some 1000;
      }
      ∷ []);
}

abbrev first_try : Submission
first_try = attempt wrong 50 1

abbrev second_try : Submission
second_try = attempt accepted 100 2

abbrev problems : List Problem
problems =
    record {
      id = "p";
      title = "Answer";
      description = "";
      time_limit_ms = 1000;
      contest = some "c";
      deleted_at = none;
    }
    ∷ []

abbrev group : Group
group = (ada, first_try ∷ second_try ∷ [])

abbrev standings : List LeaderboardEntryType
standings = record (entry_of problems ("ada", group)) { rank = 1 } ∷ []

abbrev owner : JwtUser
owner = record { user_id = "ada"; name = "Ada"; role = user }

abbrev detail : SubmissionType
detail = to_submission_type second_try false true

submission_detail-IsShownTo_example :
    (((second_try.user_id == owner.user_id) || is_admin owner) ≡ true)
    × (detail.id ≡ second_try.id)
    × All (IsShownTo (is_admin owner)) (or_else detail.test_results [])
    × (map (λ tr. tr.error) (or_else detail.test_results [])
        ≡ map (λ tr. tr.error) (or_else second_try.test_results []))
unfolding submission_detail
submission_detail-IsShownTo_example = submission_detail-IsShownTo second_try owner detail refl

contest_standings-IsOrdered_example :
    IsOrdered NotWorse standings × (map rank_of standings ≡ numbers_above 0 standings)
unfolding contest_standings group_rows add_row lookup insert sort number_from
contest_standings-IsOrdered_example =
    contest_standings-IsOrdered problems (first_try ∷ second_try ∷ []) standings refl

abbrev tries : List Submission
tries = first_try ∷ second_try ∷ []

abbrev spring_round : Contest
spring_round = record {
  id = "c";
  title = "Spring round";
  start_time = 0;
  end_time = 3600000;
  finished_at = none;
  deleted_at = none;
}

abbrev any_order : String → String → Ordering
any_order a b = Ordering.eq

-- Her entry in the other standings: one wrong attempt costs 20 minutes.
abbrev on_leaderboard : LeaderboardEntry
on_leaderboard = record {
  rank = 1;
  user_id = "ada";
  user_name = "Ada";
  solved = 1;
  total_penalty = 20;
  problems =
      (
        "p",
        record {
          problem_id = "p";
          solved = true;
          attempts = 1;
          accepted_at = some 2;
          time_minutes = some 0;
          penalty_minutes = some 20;
        },
      )
      ∷ [];
}

abbrev payload : LeaderboardPayload
payload = record { contest_id = "c"; generated_at = 9; entries = on_leaderboard ∷ [] }

contest_standings-agrees_example :
    (record (entry_of problems ("ada", group)) { rank = 1 }).problems_solved ≡ on_leaderboard.solved
unfolding contest_standings group_rows add_row lookup insert sort number_from compute_standings has
    group_submissions add_submission build_entry tally add_standing standing_of first_accepted
    is_penalisable user_name_of compare_entries assign_from assign_ranks problem_standing
    minutes_since entry_of
contest_standings-agrees_example =
    contest_standings-agrees problems tries standings any_order "c" spring_round 9 payload "ada"
      (record (entry_of problems ("ada", group)) { rank = 1 }) on_leaderboard (refl, tt) refl refl
      refl refl refl refl refl
