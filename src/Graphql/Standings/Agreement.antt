-- ===== src/Graphql/Standings/Agreement.antt =====
-- Whether the standings of src/graphql/resolvers/standings.resolver.ts and those of
-- src/leaderboard/leaderboard.service.ts, which are computed apart from each other, agree.
use mathlib.Core.Option
use codeweaknesses.Common.{
  ℕ, String, ◌≡◌, refl, ap, ◌∙◌, sym, Bool, true, false, Option, none, some, List, [], ◌∷◌, all,
  any, filter, find, count, All, All-mono, All-find, find-some, Bool-cases, arith, is_some,
  Ordering, inl, inr, map, ◌==◌, if◌then◌else◌, eq_iff,
}
use codeweaknesses.Common.Assoc.{Assoc, lookup, has, HasDistinctKeys}
use codeweaknesses.Leaderboard.Standings.Tallies.{is_solved}
use codeweaknesses.Common.Lookups.{count-same}
use codeweaknesses.Common.Results.{ok}
use codeweaknesses.Entities.{Submission, Problem, Contest}
use codeweaknesses.Graphql.Standings.{LeaderboardEntryType, contest_standings}
use codeweaknesses.Graphql.Standings.Counting.{
  is_honest, count_accepted, count-same_tests, contest_standings-IsCountedOf,
}
use codeweaknesses.Leaderboard.Standings.{
  LeaderboardPayload, LeaderboardEntry, ProblemStanding, compute_standings, problem_standing,
}
use codeweaknesses.Leaderboard.Standings.Cells.{cell_of, cell_in, cell_in-compute_standings}
use codeweaknesses.Leaderboard.Standings.Entries.{IsEntryOf, is_user, compute_standings-entries}
use codeweaknesses.Leaderboard.Standings.Groups.{is_of, extend}
use codeweaknesses.Leaderboard.Standings.Scoring.{is_accepted, problem_standing-scores}

-- Whether the leaderboard shows a problem as solved.
abbrev pub shows_solved : Option ProblemStanding → Bool
shows_solved none = false
shows_solved (some standing) = standing.solved

shows_solved-extend :
    (start : ℕ) (q : String) (ss : List Submission)
    → shows_solved (Option.map (problem_standing start q) (extend none ss)) ≡ any is_accepted ss
shows_solved-extend start q [] = refl
shows_solved-extend start q (s ∷ ss) = (problem_standing-scores start q (s ∷ ss)).0

-- Every user has as many problems solved in the standings of GraphQL as there are problems of the
-- contest that the leaderboard shows as solved by that user.
contest_standings-shows :
    (problems : List Problem) (rows : List Submission) (es : List LeaderboardEntryType)
    (locale_compare : String → String → Ordering) (contest_id : String) (contest : Contest)
    (now : ℕ) (p : LeaderboardPayload)
    → all (λ s. is_some s.user) rows ≡ true
    → all is_honest rows ≡ true
    → contest_standings (some problems) rows ≡ ok es
    → compute_standings locale_compare contest_id (some contest) rows now ≡ ok p
    → All
        (λ e. e.problems_solved ≡ count (λ q. shows_solved (cell_in e.user_id q.id p)) problems)
        es
contest_standings-shows problems rows es locale_compare contest_id contest now p users honest h h' =
    All-mono (λ e. e.problems_solved ≡ count_accepted e.user_id rows problems)
      (λ e. e.problems_solved ≡ count (λ q. shows_solved (cell_in e.user_id q.id p)) problems) es
      (λ e counted.
        counted
        ∙ count-same_tests (λ q. any is_accepted (filter (is_of e.user_id q.id) rows))
            (λ q. shows_solved (cell_in e.user_id q.id p)) problems
            (λ q.
              sym (shows_solved-extend contest.start_time q.id (filter (is_of e.user_id q.id) rows))
              ∙ ap shows_solved (
                  sym (
                    cell_in-compute_standings locale_compare contest_id contest rows now p e.user_id
                      q.id h'))))
      (contest_standings-IsCountedOf problems rows users honest es h)

-- The cells of the problems of a contest.
abbrev cells_of : (String → Option ProblemStanding) → List Problem → Assoc ProblemStanding
cells_of f [] = []
cells_of f (q ∷ qs) = elim (f q.id) [
  | none ↦ cells_of f qs
  | some cell ↦ (q.id, cell) ∷ cells_of f qs
]

module _ (f : String → Option ProblemStanding) where
  lookup-cells_of :
      (k : String) (qs : List Problem)
      → lookup k (cells_of f qs) ≡ (if any (λ q. q.id == k) qs then f k else none)
  unfolding lookup
  lookup-cells_of k [] = refl
  lookup-cells_of k (q ∷ qs) = grind (arith, lookup-cells_of k qs, eq_iff q.id k)

  has-cells_of :
      (k : String) (qs : List Problem)
      → has k (map (λ q. (q.id, q)) qs) ≡ false
      → has k (cells_of f qs) ≡ false
  unfolding has
  has-cells_of k [] h = refl
  has-cells_of k (q ∷ qs) h = ground (arith, has-cells_of k qs)

  cells_of-HasDistinctKeys :
      (qs : List Problem)
      → HasDistinctKeys (map (λ q. (q.id, q)) qs)
      → HasDistinctKeys (cells_of f qs)
  cells_of-HasDistinctKeys [] d = tt
  cells_of-HasDistinctKeys (q ∷ qs) d =
      ground (arith, has-cells_of q.id qs d.0, cells_of-HasDistinctKeys qs d.1)

  count-cells_of :
      (qs : List Problem) → count is_solved (cells_of f qs) ≡ count (λ q. shows_solved (f q.id)) qs
  count-cells_of [] = refl
  count-cells_of (q ∷ qs) = ground (arith, count-cells_of qs)

-- No row of another problem than those of the contest.
no_rows_elsewhere :
    (u k : String) (problems : List Problem) (rows : List Submission)
    → all (λ s. any (λ q. q.id == s.problem_id) problems) rows ≡ true
    → any (λ q. q.id == k) problems ≡ false
    → filter (is_of u k) rows ≡ []
no_rows_elsewhere u k problems [] h e = refl
no_rows_elsewhere u k problems (s ∷ ss) h e = elim (Bool-cases (s.problem_id == k)) [
  | inl t ↦
      let same = ap (λ v. any (λ q. q.id == v) problems) ((eq_iff s.problem_id k).0 t) in
      absurd (ground (arith, h, e, same))
  | inr t ↦ ground (arith, t, no_rows_elsewhere u k problems ss (ground (arith, h)) e)
]

-- Both computed from the same rows, all of problems of the contest, each row with its user, and the
-- accepted ones with the full score of 100, the others with less: the standings of GraphQL and the leaderboard
-- give a user who has entries in both the same number of problems solved.
pub contest_standings-agrees :
    (problems : List Problem) (rows : List Submission) (es : List LeaderboardEntryType)
    (locale_compare : String → String → Ordering) (contest_id : String) (contest : Contest)
    (now : ℕ) (p : LeaderboardPayload) (u : String) (e : LeaderboardEntryType)
    (x : LeaderboardEntry)
    → HasDistinctKeys (map (λ q. (q.id, q)) problems)
    → all (λ s. any (λ q. q.id == s.problem_id) problems) rows ≡ true
    → all (λ s. is_some s.user) rows ≡ true
    → all is_honest rows ≡ true
    → contest_standings (some problems) rows ≡ ok es
    → compute_standings locale_compare contest_id (some contest) rows now ≡ ok p
    → find (λ e. e.user_id == u) es ≡ some e
    → find (is_user u) p.entries ≡ some x
    → e.problems_solved ≡ x.solved
contest_standings-agrees problems rows es locale_compare contest_id contest now p u e x distinct
      within users honest h h' found found' =
    let shows =
      contest_standings-shows problems rows es locale_compare contest_id contest now p users honest
        h h' in
    let mine : e.user_id ≡ u = (eq_iff e.user_id u).0 (find-some (λ e. e.user_id == u) es found) in
    let counted =
      All-find
        (λ e. e.problems_solved ≡ count (λ q. shows_solved (cell_in e.user_id q.id p)) problems)
        (λ e. e.user_id == u) es shows found in
    let d =
      All-find (IsEntryOf contest.start_time rows) (is_user u) p.entries
        (compute_standings-entries locale_compare contest_id contest rows now p h').0 found' in
    let cell : String → Option ProblemStanding = λ k. lookup k x.problems in
    let same : (k : String) → cell_in u k p ≡ cell k = λ k. ap (cell_of k) found' in
    let same_cells : (k : String) → lookup k x.problems ≡ lookup k (cells_of cell problems) = λ k.
      elim (Bool-cases (any (λ q. q.id == k) problems)) [
        | inl t ↦ sym (rw t at (lookup-cells_of cell k problems))
        | inr t ↦
            d.problem k
            ∙ ap (λ ss. Option.map (problem_standing contest.start_time k) (extend none ss))
                (no_rows_elsewhere x.user_id k problems rows within t)
            ∙ sym (rw t at (lookup-cells_of cell k problems))
      ] in
    counted
    ∙ count-same_tests (λ q. shows_solved (cell_in e.user_id q.id p))
        (λ q. shows_solved (cell q.id)) problems
        (λ q. ap (λ v. shows_solved (cell_in v q.id p)) mine ∙ ap shows_solved (same q.id))
    ∙ sym (count-cells_of cell problems)
    ∙ sym (
        count-same is_solved x.problems (cells_of cell problems) d.distinct
          (cells_of-HasDistinctKeys cell problems distinct) same_cells)
    ∙ sym d.solved
