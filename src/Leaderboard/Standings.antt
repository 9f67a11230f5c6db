-- ===== src/Leaderboard/Standings.antt =====
-- `LeaderboardService.computeStandings` (src/leaderboard/leaderboard.service.ts) and the records of
-- src/leaderboard/dto/leaderboard.dto.ts. The rows that the query returns and the clock are
-- arguments, and so is `localeCompare`, which the JavaScript engine takes from its locale data.
pub mod Minutes
pub mod Cells
pub mod Entries
pub mod Groups
pub mod Independence
pub mod Ranking
pub mod Replaced
pub mod Scoring
pub mod Tallies
use Prim.Native.String
use codeweaknesses.Common.{
  ℕ, ◌+◌, ◌*◌, String, Bool, true, false, ◌||◌, not, Option, none, some, List, [], ◌∷◌, ◌++◌, map,
  compare, Ordering, eqb, or_else, find, any, if◌then◌else◌, ◌==◌,
}
use codeweaknesses.Common.Assoc.{Assoc, lookup, insert}
use codeweaknesses.Common.Sorting.{sort}
use codeweaknesses.Common.Results.{Result, ok, err, not_found}
use codeweaknesses.Entities.{
  SubmissionStatus, accepted, wrong, tle, mle, runtime_error, compilation_error, same_status,
  Submission, Contest,
}
use Minutes.{minutes_since}

pub record ProblemStanding : Type 0 where
  pub problem_id : String
  pub solved : Bool
  pub attempts : ℕ
  pub accepted_at : Option ℕ
  pub time_minutes : Option ℕ
  pub penalty_minutes : Option ℕ

pub record LeaderboardEntry : Type 0 where
  pub rank : ℕ
  pub user_id : String
  pub user_name : String
  pub solved : ℕ
  pub total_penalty : ℕ
  pub problems : Assoc ProblemStanding

pub record LeaderboardPayload : Type 0 where
  pub contest_id : String
  pub generated_at : ℕ
  pub entries : List LeaderboardEntry

unfoldable pub is_penalisable : SubmissionStatus → Bool
is_penalisable status =
    any (same_status status) (wrong ∷ tle ∷ mle ∷ runtime_error ∷ compilation_error ∷ [])

abbrev pub ByProblem : Type 0
ByProblem = Assoc (List Submission)

-- One round of the grouping loop; a key that is not there is set to an empty group first.
unfoldable pub add_submission : Assoc ByProblem → Submission → Assoc ByProblem
add_submission by_user sub =
    let by_problem : ByProblem = or_else (lookup sub.user_id by_user) [] in
    let subs = or_else (lookup sub.problem_id by_problem) [] in
    insert sub.user_id (insert sub.problem_id (subs ++ sub ∷ []) by_problem) by_user

unfoldable pub group_submissions : Assoc ByProblem → List Submission → Assoc ByProblem
group_submissions by_user [] = by_user
group_submissions by_user (sub ∷ subs) = group_submissions (add_submission by_user sub) subs

-- The loop up to the first accepted submission, with `wrongsBefore` as accumulator.
unfoldable pub first_accepted : ℕ → List Submission → Option Submission × ℕ
first_accepted wrongs_before [] = (none, wrongs_before)
first_accepted wrongs_before (sub ∷ subs) =
    let rest =
      first_accepted (if is_penalisable sub.status then wrongs_before + 1 else wrongs_before)
        subs in
    if same_status sub.status accepted then (some sub, wrongs_before) else rest

-- `new Date(acceptedSub.submittedAt ?? acceptedSub.completedAt!)`; `new Date(null)` is the epoch.
abbrev pub accepted_time : Submission → ℕ
accepted_time sub = or_else sub.submitted_at (or_else sub.completed_at 0)

-- What the loop over one problem stores for it.
unfoldable pub standing_of : ℕ → String → Option Submission × ℕ → ProblemStanding
standing_of contest_start problem_id (none, wrongs_before) = record {
  problem_id = problem_id;
  solved = false;
  attempts = wrongs_before;
  accepted_at = none;
  time_minutes = none;
  penalty_minutes = none;
}
standing_of contest_start problem_id (some sub, wrongs_before) =
    let minutes = minutes_since contest_start (accepted_time sub) in
    record {
      problem_id = problem_id;
      solved = true;
      attempts = wrongs_before;
      accepted_at = some (accepted_time sub);
      time_minutes = some minutes;
      penalty_minutes = some (minutes + 20 * wrongs_before);
    }

unfoldable pub problem_standing : ℕ → String → List Submission → ProblemStanding
unfolding first_accepted standing_of
problem_standing contest_start problem_id subs =
    standing_of contest_start problem_id (first_accepted 0 subs)

pub record Totals : Type 0 where
  pub total_solved : ℕ
  pub total_penalty : ℕ
  pub standings : Assoc ProblemStanding

unfoldable pub add_standing : Totals → ProblemStanding → Totals
add_standing t st = record {
  total_solved = if st.solved then t.total_solved + 1 else t.total_solved;
  total_penalty =
      if st.solved then t.total_penalty + or_else st.penalty_minutes 0 else t.total_penalty;
  standings = insert st.problem_id st t.standings;
}

unfoldable pub tally : ℕ → Totals → ByProblem → Totals
tally contest_start t [] = t
tally contest_start t ((problem_id, subs) ∷ rest) =
    tally contest_start (add_standing t (problem_standing contest_start problem_id subs)) rest

abbrev pub no_totals : Totals
no_totals = record { total_solved = 0; total_penalty = 0; standings = [] }

-- `anySubmission?.user?.name ?? userId`
unfoldable pub user_name_of : List Submission → String → String
user_name_of submissions user_id = elim (find (λ s. s.user_id == user_id) submissions) [
  | none ↦ user_id
  | some s ↦ elim s.user [ none ↦ user_id | some u ↦ u.name ]
]

unfoldable pub build_entry : ℕ → List Submission → String × ByProblem → LeaderboardEntry
unfolding tally
build_entry contest_start submissions (user_id, by_problem) =
    let t = tally contest_start no_totals by_problem in
    record {
      rank = 0;
      user_id = user_id;
      user_name = user_name_of submissions user_id;
      solved = t.total_solved;
      total_penalty = t.total_penalty;
      problems = t.standings;
    }

-- The sign of the comparator's value.
unfoldable pub compare_entries :
    (String → String → Ordering) → LeaderboardEntry → LeaderboardEntry → Ordering
compare_entries locale_compare a b =
    if not (eqb b.solved a.solved)
    then compare b.solved a.solved
    else if not (eqb a.total_penalty b.total_penalty)
    then compare a.total_penalty b.total_penalty
    else locale_compare a.user_name b.user_name

-- Whether an entry differs in score from the one before it; the first has none before it.
abbrev pub starts_rank : Option LeaderboardEntry → LeaderboardEntry → Bool
starts_rank none e = false
starts_rank (some p) e = not (eqb e.solved p.solved) || not (eqb e.total_penalty p.total_penalty)

-- The loop that assigns the ranks, from position `i` with `currentRank` and the entry at `i - 1`.
unfoldable pub assign_from :
    ℕ → ℕ → Option LeaderboardEntry → List LeaderboardEntry → List LeaderboardEntry
assign_from i current_rank previous [] = []
assign_from i current_rank previous (e ∷ es) =
    let rank = if starts_rank previous e then i + 1 else current_rank in
    record e { rank = rank } ∷ assign_from (i + 1) rank (some e) es

unfoldable pub assign_ranks : List LeaderboardEntry → List LeaderboardEntry
unfolding assign_from
assign_ranks entries = assign_from 0 1 none entries

unfoldable pub compute_standings :
    (String → String → Ordering)
    → String
    → Option Contest
    → List Submission
    → ℕ
    → Result LeaderboardPayload
compute_standings locale_compare contest_id none submissions now =
    err (not_found (String.◌++◌ "Contest " (String.◌++◌ contest_id " not found")))
compute_standings locale_compare contest_id (some contest) submissions now =
    let by_user = group_submissions [] submissions in
    let entries = map (build_entry contest.start_time submissions) by_user in
    ok (record {
      contest_id = contest_id;
      generated_at = now;
      entries = assign_ranks (sort (compare_entries locale_compare) entries);
    })
