-- ===== src/Leaderboard/Standings/Entries.antt =====
-- What the entry of one user holds.
use mathlib.Core.Option
use codeweaknesses.Common.{
  ℕ, ◌+◌, String, ◌≡◌, refl, ap, ◌∙◌, Bool, Option, none, some, List, [], ◌∷◌, map, arith,
  if◌then◌else◌, filter, All, Bool-cases, inl, inr, any, ◌==◌, ◌||◌, eq_iff, Ordering, count, sum,
}
use codeweaknesses.Common.Assoc.{Assoc, lookup, has, HasDistinctKeys}
use codeweaknesses.Common.Lookups.{lookups}
use codeweaknesses.Common.Sorting.{sort, All-sort, count-sort}
use codeweaknesses.Common.Results.{ok}
use codeweaknesses.Entities.{Submission, Contest}
use codeweaknesses.Leaderboard.Standings.{
  ByProblem, group_submissions, problem_standing, LeaderboardEntry, no_totals, build_entry,
  user_name_of, assign_from, assign_ranks, compute_standings, starts_rank, compare_entries,
  LeaderboardPayload,
}
use codeweaknesses.Leaderboard.Standings.Groups.{
  is_of, extend, group_of-group_submissions, group_submissions-IsGrouped, has-group_submissions,
}
use codeweaknesses.Leaderboard.Standings.Tallies.{
  Apart-nil, tally-IsTallied, penalty_of, is_solved, standing_for,
}

lookup-map {ℓ κ} :
    {V : Type ℓ} {W : Type κ} (f : String → V → W) (k : String) (m : Assoc V)
    → lookup k (map (λ kv. (kv.0, f kv.0 kv.1)) m) ≡ Option.map (f k) (lookup k m)
unfolding lookup
lookup-map f k [] = refl
lookup-map f k ((j, v) ∷ m) = elim (Bool-cases (j == k)) [
  | inl e ↦ rw e (ap (λ i. some (f i v)) ((eq_iff j k).0 e))
  | inr e ↦ rw e (lookup-map f k m)
]

-- The entry of a user, described by the submissions alone.
pub record IsEntryOf (start : ℕ) (submissions : List Submission) (e : LeaderboardEntry)
    : Type 0 where
  pub problem :
      (p : String)
      → lookup p e.problems
        ≡ Option.map
            (problem_standing start p)
            (extend none (filter (is_of e.user_id p) submissions))
  pub distinct : HasDistinctKeys e.problems
  pub solved : e.solved ≡ count is_solved e.problems
  pub name : e.user_name ≡ user_name_of submissions e.user_id
  pub penalty : e.total_penalty ≡ sum penalty_of e.problems

has-map : (start : ℕ) (k : String) (m : ByProblem) → has k (map (standing_for start) m) ≡ has k m
unfolding has
has-map start k [] = refl
has-map start k ((j, v) ∷ m) = ap (λ b. j == k || b) (has-map start k m)

distinct-map :
    (start : ℕ) (m : ByProblem) → HasDistinctKeys m → HasDistinctKeys (map (standing_for start) m)
distinct-map start [] d = tt
distinct-map start ((j, v) ∷ m) d = (has-map start j m ∙ d.0, distinct-map start m d.1)

build_entry-IsEntryOf :
    (start : ℕ) (submissions : List Submission) (user_id : String) (by_problem : ByProblem)
    → lookup user_id (group_submissions [] submissions) ≡ some by_problem
    → HasDistinctKeys by_problem
    → IsEntryOf start submissions (build_entry start submissions (user_id, by_problem))
unfolding build_entry lookup
build_entry-IsEntryOf start submissions user_id by_problem found d =
    let t = tally-IsTallied start no_totals by_problem d (Apart-nil by_problem) in
    let group : (p : String)
        → lookup p by_problem ≡ extend none (filter (is_of user_id p) submissions) =
      λ p. rw found at (group_of-group_submissions user_id p [] submissions) in
    record {
      problem = λ p.
          ap (lookup p) t.standings
          ∙ lookup-map (problem_standing start) p by_problem
          ∙ ap (Option.map (problem_standing start p)) (group p);
      distinct = rw t.standings (distinct-map start by_problem d);
      solved = t.solved ∙ rw t.standings (omega arith);
      name = refl;
      penalty = t.penalty ∙ rw t.standings (omega arith);
    }

entries-IsEntryOf :
    (start : ℕ) (submissions : List Submission) (m : Assoc ByProblem)
    → All (λ kv. lookup kv.0 (group_submissions [] submissions) ≡ some kv.1) m
    → All (λ kv. HasDistinctKeys kv.1) m
    → All (IsEntryOf start submissions) (map (build_entry start submissions) m)
entries-IsEntryOf start submissions [] h d = tt
entries-IsEntryOf start submissions ((u, bp) ∷ m) h d = (
  build_entry-IsEntryOf start submissions u bp h.0 d.0,
  entries-IsEntryOf start submissions m h.1 d.1,
)

assign_from-IsEntryOf :
    (start : ℕ) (submissions : List Submission) (i current_rank : ℕ) (p : Option LeaderboardEntry)
    (es : List LeaderboardEntry)
    → All (IsEntryOf start submissions) es
    → All (IsEntryOf start submissions) (assign_from i current_rank p es)
unfolding assign_from
assign_from-IsEntryOf start submissions i current_rank p [] h = tt
assign_from-IsEntryOf start submissions i current_rank p (e ∷ es) h =
    let rank = if starts_rank p e then i + 1 else current_rank in
    (
      record {
        problem = h.0.problem;
        distinct = h.0.distinct;
        solved = h.0.solved;
        name = h.0.name;
        penalty = h.0.penalty;
      },
      assign_from-IsEntryOf start submissions (i + 1) rank (some e) es h.1,
    )

abbrev pub is_user : String → LeaderboardEntry → Bool
is_user u e = e.user_id == u

count-assign_from :
    (u : String) (i current_rank : ℕ) (p : Option LeaderboardEntry) (es : List LeaderboardEntry)
    → count (is_user u) (assign_from i current_rank p es) ≡ count (is_user u) es
unfolding assign_from
count-assign_from u i current_rank p [] = refl
count-assign_from u i current_rank p (e ∷ es) =
    let rank = if starts_rank p e then i + 1 else current_rank in
    ap (λ n. (if is_user u e then 1 else 0) + n) (count-assign_from u (i + 1) rank (some e) es)

count-build_entry :
    (start : ℕ) (submissions : List Submission) (u : String) (m : Assoc ByProblem)
    → HasDistinctKeys m
    → count (is_user u) (map (build_entry start submissions) m) ≡ (if has u m then 1 else 0)
unfolding has build_entry
count-build_entry start submissions u [] d = refl
count-build_entry start submissions u ((j, bp) ∷ m) d =
    ground (arith, eq_iff j u, count-build_entry start submissions u m d.1)

-- Standings computed from the rows of a contest: every entry is the one that its user's
-- submissions determine (each problem with a submission has the standing of exactly that user's
-- submissions to it, no other problem has one, and the totals add up over them), and each user
-- has one entry if one of the rows is the user's, and none otherwise.
pub compute_standings-entries :
    (locale_compare : String → String → Ordering) (contest_id : String) (contest : Contest)
    (submissions : List Submission) (now : ℕ) (p : LeaderboardPayload)
    → compute_standings locale_compare contest_id (some contest) submissions now ≡ ok p
    → All (IsEntryOf contest.start_time submissions) p.entries
      × ((u : String)
          → count (λ e. e.user_id == u) p.entries
            ≡ (if any (λ s. s.user_id == u) submissions then 1 else 0))
unfolding compute_standings assign_ranks has
compute_standings-entries locale_compare contest_id contest submissions now p h =
    let by_user = group_submissions [] submissions in
    let es = map (build_entry contest.start_time submissions) by_user in
    let cmp = compare_entries locale_compare in
    let same : assign_from 0 1 none (sort cmp es) ≡ p.entries = ground arith in
    let (keys, groups) = group_submissions-IsGrouped [] submissions (tt, tt) in
    (
      rw (← same) (
          assign_from-IsEntryOf contest.start_time submissions 0 1 none (sort cmp es) (
            All-sort cmp (IsEntryOf contest.start_time submissions) es (
              entries-IsEntryOf contest.start_time submissions by_user (lookups by_user keys)
                groups))),
      λ u. rw (← same) (
          count-assign_from u 0 1 none (sort cmp es)
          ∙ count-sort cmp (is_user u) es
          ∙ count-build_entry contest.start_time submissions u by_user keys
          ∙ ap (λ b. if b then 1 else 0) (has-group_submissions u [] submissions)),
    )
