-- ===== src/Leaderboard/Examples.antt =====
-- A contest of two users, and what its standings are.
use codeweaknesses.Common.{
  inr, inl, Bool-cases, eq_iff, arith, ℕ, suc, String, ◌≡◌, refl, true, false, none, some, List, [],
  ◌∷◌, Ordering, any, count, All, if◌then◌else◌, ◌==◌,
}
use codeweaknesses.Common.Sorting.{IsOrdered, sort}
use codeweaknesses.Common.Assoc.{lookup, insert}
use codeweaknesses.Common.Results.{ok}
use codeweaknesses.Entities.{
  SubmissionStatus, accepted, wrong, javascript, Submission, Contest, user,
}
use codeweaknesses.Leaderboard.Standings.{
  LeaderboardPayload, compute_standings, problem_standing, group_submissions, add_submission,
  build_entry, tally, add_standing, standing_of, first_accepted, is_penalisable, user_name_of,
  compare_entries, assign_ranks, assign_from,
}
use codeweaknesses.Leaderboard.Standings.Minutes.{minutes_since}
use codeweaknesses.Leaderboard.Standings.Ranking.{compute_standings-ranked, AtLeast, beats}
use codeweaknesses.Leaderboard.Standings.Entries.{compute_standings-entries, IsEntryOf}
use codeweaknesses.Leaderboard.Standings.Independence.{SameGroups, score_in, compute_standings-same}
use codeweaknesses.Leaderboard.Standings.Cells.{cell_in}
use codeweaknesses.Leaderboard.Standings.Scoring.{IsScoredBy, problem_standing-scores, is_accepted}

abbrev spring_round : Contest
spring_round = record {
  id = "c";
  title = "Spring round";
  start_time = 0;
  end_time = 3600000;
  finished_at = none;
  deleted_at = none;
}

abbrev attempt : String → String → SubmissionStatus → ℕ → Submission
attempt user_id problem_id status at = record {
  id = "s";
  code = [];
  language = javascript;
  status = status;
  user_id = user_id;
  problem_id = problem_id;
  contest_id = "c";
  submitted_at = some at;
  started_at = none;
  completed_at = none;
  score = 0;
  execution_time = none;
  memory_used = none;
  user =
      some (record {
        id = user_id;
        name = user_id;
        password_hash = "";
        role = user;
        deleted_at = none;
      });
  test_results = none;
}

abbrev rows : List Submission
rows =
    attempt "ada" "p" wrong 60000
    ∷ attempt "bob" "p" accepted 120000
    ∷ attempt "ada" "p" accepted 180000
    ∷ attempt "ada" "q" wrong 240000
    ∷ []

abbrev no_order : String → String → Ordering
no_order a b = Ordering.eq

-- Bob solved the problem after 2 minutes, Ada after 3 and one wrong attempt.
abbrev standings : LeaderboardPayload
standings = record {
  contest_id = "c";
  generated_at = 9;
  entries =
      record {
        rank = 1;
        user_id = "bob";
        user_name = "bob";
        solved = 1;
        total_penalty = 2;
        problems =
            (
              "p",
              record {
                problem_id = "p";
                solved = true;
                attempts = 0;
                accepted_at = some 120000;
                time_minutes = some 2;
                penalty_minutes = some 2;
              },
            )
            ∷ [];
      }
      ∷ record {
        rank = 2;
        user_id = "ada";
        user_name = "ada";
        solved = 1;
        total_penalty = 23;
        problems =
            (
              "p",
              record {
                problem_id = "p";
                solved = true;
                attempts = 1;
                accepted_at = some 180000;
                time_minutes = some 3;
                penalty_minutes = some 23;
              },
            )
            ∷ (
              "q",
              record {
                problem_id = "q";
                solved = false;
                attempts = 1;
                accepted_at = none;
                time_minutes = none;
                penalty_minutes = none;
              },
            )
            ∷ [];
      }
      ∷ [];
}

computed : compute_standings no_order "c" (some spring_round) rows 9 ≡ ok standings
unfolding compute_standings group_submissions add_submission build_entry tally add_standing
    standing_of first_accepted is_penalisable user_name_of compare_entries assign_from assign_ranks
    sort lookup insert problem_standing minutes_since
computed = refl

compute_standings-ranked_example :
    IsOrdered AtLeast standings.entries
    × All (λ e. e.rank ≡ suc (count (λ o. beats o e) standings.entries)) standings.entries
compute_standings-ranked_example =
    compute_standings-ranked no_order "c" (some spring_round) rows 9 standings computed

compute_standings-entries_example :
    All (IsEntryOf 0 rows) standings.entries
    × ((u : String)
        → count (λ e. e.user_id == u) standings.entries
          ≡ (if any (λ s. s.user_id == u) rows then 1 else 0))
compute_standings-entries_example =
    compute_standings-entries no_order "c" spring_round rows 9 standings computed

problem_standing-scores_example :
    ((problem_standing 0 "p" rows).solved ≡ any is_accepted rows)
    × IsScoredBy 0 "p" rows (problem_standing 0 "p" rows)
problem_standing-scores_example = problem_standing-scores 0 "p" rows

-- The same rows in another order.
abbrev rows_reordered : List Submission
rows_reordered =
    attempt "bob" "p" accepted 120000
    ∷ attempt "ada" "p" wrong 60000
    ∷ attempt "ada" "q" wrong 240000
    ∷ attempt "ada" "p" accepted 180000
    ∷ []

abbrev standings_later : LeaderboardPayload
standings_later = record standings { generated_at = 10 }

computed_later :
    compute_standings no_order "c" (some spring_round) rows_reordered 10 ≡ ok standings_later
unfolding compute_standings group_submissions add_submission build_entry tally add_standing
    standing_of first_accepted is_penalisable user_name_of compare_entries assign_from assign_ranks
    sort lookup insert problem_standing minutes_since
computed_later = refl

same_groups : SameGroups rows rows_reordered
same_groups u q = elim (Bool-cases ("ada" == u)) [
  | inl e ↦ rw (← (eq_iff "ada" u).0 e) (elim (Bool-cases ("p" == q)) [
    | inl e' ↦ rw (← (eq_iff "p" q).0 e') refl
    | inr e' ↦ ground (arith, e')
  ])
  | inr e ↦ ground (arith, e)
]

compute_standings-same_example :
    (score_in "ada" standings ≡ score_in "ada" standings_later)
    × ((problem_id : String)
        → cell_in "ada" problem_id standings ≡ cell_in "ada" problem_id standings_later)
compute_standings-same_example =
    compute_standings-same no_order no_order "c" spring_round rows rows_reordered 9 10 standings
      standings_later same_groups computed computed_later "ada"
