-- ===== src/Leaderboard/Standings/Replaced.antt =====
-- What standings show after one row of a contest was replaced by another of the same user and problem.
use mathlib.Core.Option
use codeweaknesses.Common.{
  ℕ, String, ◌≡◌, refl, sym, ap, ◌∙◌, true, false, ◌||◌, none, some, List, [], ◌∷◌, ◌++◌, any,
  filter, arith, ◌==◌, eq_iff, Ordering,
}
use codeweaknesses.Common.Results.{ok}
use codeweaknesses.Entities.{Submission, Contest}
use codeweaknesses.Leaderboard.Standings.{
  LeaderboardPayload, ProblemStanding, compute_standings, problem_standing,
}
use codeweaknesses.Leaderboard.Standings.Cells.{
  cell_in, total_in, cell_in-compute_standings, total_of-same,
}
use codeweaknesses.Leaderboard.Standings.Entries.{compute_standings-entries}
use codeweaknesses.Leaderboard.Standings.Groups.{is_of, extend}
use codeweaknesses.Leaderboard.Standings.Scoring.{is_accepted, problem_standing-scores}

-- A row in the middle, among those of a user and a problem.
filter-middle :
    (u q : String) (xs ys : List Submission) (r : Submission)
    → is_of u q r ≡ true
    → filter (is_of u q) (xs ++ r ∷ ys) ≡ filter (is_of u q) xs ++ r ∷ filter (is_of u q) ys
filter-middle u q [] ys r h = ground arith
filter-middle u q (x ∷ xs) ys r h = ground (arith, filter-middle u q xs ys r)

filter-replaced :
    (u q : String) (xs ys : List Submission) (s r : Submission)
    → is_of u q s ≡ false
    → is_of u q r ≡ false
    → filter (is_of u q) (xs ++ r ∷ ys) ≡ filter (is_of u q) (xs ++ s ∷ ys)
filter-replaced u q [] ys s r h h' = ground arith
filter-replaced u q (x ∷ xs) ys s r h h' = ground (arith, filter-replaced u q xs ys s r h h')

extend-middle :
    (xs ys : List Submission) (r : Submission) → extend none (xs ++ r ∷ ys) ≡ some (xs ++ r ∷ ys)
extend-middle [] ys r = refl
extend-middle (x ∷ xs) ys r = refl

any-middle :
    (u q : String) (xs ys : List Submission) (r : Submission)
    → is_of u q r ≡ true
    → any is_accepted (filter (is_of u q) (xs ++ r ∷ ys))
      ≡ (is_accepted r || any is_accepted (filter (is_of u q) (xs ++ ys)))
any-middle u q [] ys r h = ground arith
any-middle u q (x ∷ xs) ys r h = ground (arith, any-middle u q xs ys r)

module _ (locale_compare : String → String → Ordering) (contest_id : String) (contest : Contest)
    (xs ys : List Submission) (s row : Submission) (now' : ℕ) (p' : LeaderboardPayload)
    (same_user : row.user_id ≡ s.user_id) (same_problem : row.problem_id ≡ s.problem_id)
    (after : compute_standings locale_compare contest_id (some contest) (xs ++ row ∷ ys) now'
      ≡ ok p') where
  -- The user has a standing in the problem, to which the row counts.
  pub replaced-own :
      (cell : ProblemStanding) × (cell_in s.user_id s.problem_id p' ≡ some cell)
      × (cell.solved
          ≡ (is_accepted row || any is_accepted (filter (is_of s.user_id s.problem_id) (xs ++ ys))))
  replaced-own =
      let mine : is_of s.user_id s.problem_id row ≡ true = ground (
        arith,
        same_user,
        same_problem,
        eq_iff row.user_id s.user_id,
        eq_iff row.problem_id s.problem_id,
      ) in
      let own = filter (is_of s.user_id s.problem_id) in
      let rows = own xs ++ row ∷ own ys in
      let split : own (xs ++ row ∷ ys) ≡ rows =
        filter-middle s.user_id s.problem_id xs ys row mine in
      (
        problem_standing contest.start_time s.problem_id rows,
        cell_in-compute_standings locale_compare contest_id contest (xs ++ row ∷ ys) now' p'
              s.user_id s.problem_id after
            ∙ ap
                (λ ss.
                  Option.map (problem_standing contest.start_time s.problem_id) (extend none ss))
                split
            ∙ ap (Option.map (problem_standing contest.start_time s.problem_id))
                (extend-middle (own xs) (own ys) row),
        (problem_standing-scores contest.start_time s.problem_id rows).0
            ∙ ap (any is_accepted) (sym split)
            ∙ any-middle s.user_id s.problem_id xs ys row mine,
      )

module _ (locale_compare : String → String → Ordering) (contest_id : String) (contest : Contest)
    (xs ys : List Submission) (s row : Submission) (now now' : ℕ) (p p' : LeaderboardPayload)
    (same_user : row.user_id ≡ s.user_id) (same_problem : row.problem_id ≡ s.problem_id)
    (before : compute_standings locale_compare contest_id (some contest) (xs ++ s ∷ ys) now ≡ ok p)
    (after : compute_standings locale_compare contest_id (some contest) (xs ++ row ∷ ys) now'
      ≡ ok p') where
  pub replaced-cell : (u q : String) → is_of u q s ≡ false → cell_in u q p' ≡ cell_in u q p
  replaced-cell u q other =
      cell_in-compute_standings locale_compare contest_id contest (xs ++ row ∷ ys) now' p' u q after
      ∙ ap (λ ss. Option.map (problem_standing contest.start_time q) (extend none ss))
          (filter-replaced u q xs ys s row other (ground (arith, same_user, same_problem, other)))
      ∙ sym (
          cell_in-compute_standings locale_compare contest_id contest (xs ++ s ∷ ys) now p u q
            before)

  pub replaced-total : (v : String) → (s.user_id == v) ≡ false → total_in v p' ≡ total_in v p
  replaced-total v other =
      total_of-same contest.start_time (xs ++ row ∷ ys) (xs ++ s ∷ ys) p'.entries p.entries v
        (λ q.
          filter-replaced v q xs ys s row (ground (arith, other))
            (ground (arith, same_user, other)))
        (compute_standings-entries locale_compare contest_id contest (xs ++ row ∷ ys) now' p' after)
        (compute_standings-entries locale_compare contest_id contest (xs ++ s ∷ ys) now p before)
