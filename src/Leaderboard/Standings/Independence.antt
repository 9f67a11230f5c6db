-- ===== src/Leaderboard/Standings/Independence.antt =====
-- What standings do not depend on: the order of rows of different users or problems, which the query
-- leaves open where rows are submitted at the same time.
use mathlib.Core.Option
use codeweaknesses.Common.{
  ◌&&◌, ◌+◌, ℕ, String, ◌≡◌, refl, sym, ap, ◌∙◌, Bool, Option, none, some, List, [], ◌∷◌, map,
  arith, find, any, count, All, if◌then◌else◌, eq_refl, inl, inr, Option-cases, Ordering, suc,
  any_iff_count, All-find, eqb, ltb, ◌||◌, ◌≤◌,
}
use codeweaknesses.Common.Assoc.{Assoc, lookup, has, HasDistinctKeys}
use codeweaknesses.Common.Lookups.{count-same}
use codeweaknesses.Common.Results.{ok}
use codeweaknesses.Entities.{Submission, Contest}
use codeweaknesses.Leaderboard.Standings.{
  LeaderboardEntry, LeaderboardPayload, problem_standing, compute_standings,
}
use codeweaknesses.Leaderboard.Standings.Entries.{compute_standings-entries, is_user}
use codeweaknesses.Leaderboard.Standings.Groups.{extend}
use codeweaknesses.Leaderboard.Standings.Ranking.{beats, compute_standings-ranked}
use codeweaknesses.Leaderboard.Standings.Cells.{
  SameGroupsOf, cell_in, total_of, total_of-same, cell_in-compute_standings,
}

-- The same submissions of each user to each problem, in the same order.
abbrev pub SameGroups : List Submission → List Submission → Type 0
SameGroups rows rows' = (u : String) → SameGroupsOf u rows rows'

abbrev pub score_of : LeaderboardEntry → ℕ × ℕ × ℕ
score_of e = (e.rank, e.solved, e.total_penalty)

-- The rank, the problems solved and the penalty of a user who has an entry.
abbrev pub score_in : String → LeaderboardPayload → Option (ℕ × ℕ × ℕ)
score_in u p = Option.map score_of (find (is_user u) p.entries)

abbrev scores : List LeaderboardEntry → Assoc (ℕ × ℕ)
scores = map (λ e. (e.user_id, total_of e))

lookup-scores :
    (u : String) (es : List LeaderboardEntry)
    → lookup u (scores es) ≡ Option.map total_of (find (is_user u) es)
unfolding lookup
lookup-scores u [] = refl
lookup-scores u (e ∷ es) = ground (arith, lookup-scores u es)

has-scores : (u : String) (es : List LeaderboardEntry) → has u (scores es) ≡ any (is_user u) es
unfolding has
has-scores u [] = refl
has-scores u (e ∷ es) = ap (λ b. is_user u e || b) (has-scores u es)

scores-HasDistinctKeys :
    (es : List LeaderboardEntry)
    → ((u : String) → count (is_user u) es ≤ 1)
    → HasDistinctKeys (scores es)
scores-HasDistinctKeys [] h = tt
scores-HasDistinctKeys (e ∷ es) h = (
  ground (
    arith,
    has-scores e.user_id es,
    any_iff_count (is_user e.user_id) es,
    h e.user_id,
    eq_refl e.user_id,
  ),
  scores-HasDistinctKeys es (λ u. omega (arith, h u)),
)

abbrev better : ℕ → ℕ → String × (ℕ × ℕ) → Bool
better solved penalty kv = ltb solved kv.1.0 || (eqb kv.1.0 solved && ltb kv.1.1 penalty)

count-beats :
    (e : LeaderboardEntry) (es : List LeaderboardEntry)
    → count (λ o. beats o e) es ≡ count (better e.solved e.total_penalty) (scores es)
count-beats e [] = refl
count-beats e (o ∷ os) = ap (λ n. (if beats o e then 1 else 0) + n) (count-beats e os)

-- The score of an entry with these totals among these scores.
abbrev placed : Assoc (ℕ × ℕ) → ℕ × ℕ → ℕ × ℕ × ℕ
placed m t = (suc (count (better t.0 t.1) m), t.0, t.1)

placed-find :
    (u : String) (es : List LeaderboardEntry)
    → All (λ e. e.rank ≡ suc (count (λ o. beats o e) es)) es
    → Option.map score_of (find (is_user u) es)
      ≡ Option.map (placed (scores es)) (Option.map total_of (find (is_user u) es))
placed-find u es ranks = elim (Option-cases (find (is_user u) es)) [
  | inl h ↦ rw h refl
  | inr (e, h) ↦
      let rank = All-find (λ e. e.rank ≡ suc (count (λ o. beats o e) es)) (is_user u) es ranks h in
      rw h (ap (λ n. some (n, e.solved, e.total_penalty)) (rank ∙ ap suc (count-beats e es)))
]

placed-same :
    (m m' : Assoc (ℕ × ℕ))
    → HasDistinctKeys m
    → HasDistinctKeys m'
    → ((u : String) → lookup u m ≡ lookup u m')
    → (o : Option (ℕ × ℕ)) → Option.map (placed m) o ≡ Option.map (placed m') o
placed-same m m' d d' h none = refl
placed-same m m' d d' h (some t) =
    ap (λ n. some (suc n, t.0, t.1)) (count-same (better t.0 t.1) m m' d d' h)

-- Standings computed from two answers of the query that hold, for each user and problem, the same
-- rows in the same order, at whatever times and with whatever comparison of names: the same users have entries, with
-- the same rank, number of problems solved and penalty, and the same standing of every problem.
pub compute_standings-same :
    (locale_compare locale_compare' : String → String → Ordering) (contest_id : String)
    (contest : Contest) (rows rows' : List Submission) (now now' : ℕ) (p p' : LeaderboardPayload)
    → SameGroups rows rows'
    → compute_standings locale_compare contest_id (some contest) rows now ≡ ok p
    → compute_standings locale_compare' contest_id (some contest) rows' now' ≡ ok p'
    → (u : String)
    → (score_in u p ≡ score_in u p')
      × ((problem_id : String) → cell_in u problem_id p ≡ cell_in u problem_id p')
compute_standings-same locale_compare locale_compare' contest_id contest rows rows' now now' p p'
      same h h' u =
    let d = compute_standings-entries locale_compare contest_id contest rows now p h in
    let d' = compute_standings-entries locale_compare' contest_id contest rows' now' p' h' in
    let ranks =
      (compute_standings-ranked locale_compare contest_id (some contest) rows now p h).1 in
    let ranks' =
      (compute_standings-ranked locale_compare' contest_id (some contest) rows' now' p' h').1 in
    let start = contest.start_time in
    let totals : (v : String)
        → Option.map total_of (find (is_user v) p.entries)
          ≡ Option.map total_of (find (is_user v) p'.entries) =
      λ v. total_of-same start rows rows' p.entries p'.entries v (same v) d d' in
    let distinct = scores-HasDistinctKeys p.entries (λ v. ground (arith, d.1 v)) in
    let distinct' = scores-HasDistinctKeys p'.entries (λ v. ground (arith, d'.1 v)) in
    (
      placed-find u p.entries ranks
          ∙ ap (Option.map (placed (scores p.entries))) (totals u)
          ∙ placed-same (scores p.entries) (scores p'.entries) distinct distinct'
              (λ v. lookup-scores v p.entries ∙ totals v ∙ sym (lookup-scores v p'.entries))
              (Option.map total_of (find (is_user u) p'.entries))
          ∙ sym (placed-find u p'.entries ranks'),
      λ problem_id.
          cell_in-compute_standings locale_compare contest_id contest rows now p u problem_id h
          ∙ ap (λ ss. Option.map (problem_standing start problem_id) (extend none ss))
              (same u problem_id)
          ∙ sym (
              cell_in-compute_standings locale_compare' contest_id contest rows' now' p' u
                problem_id h'),
    )
