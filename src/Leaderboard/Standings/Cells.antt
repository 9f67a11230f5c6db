-- ===== src/Leaderboard/Standings/Cells.antt =====
-- What standings show of one user, and that the rows of that user alone determine it.
use mathlib.Core.Option
use codeweaknesses.Common.{
  ℕ, String, ◌≡◌, refl, sym, ap, ◌∙◌, Bool, true, false, Option, none, some, List, [], ◌∷◌, arith,
  filter, find, any, count, All, is_some, if◌then◌else◌, ◌==◌, eq_iff, eq_refl, inl, inr,
  Option-cases, Ordering, is_some-find, any-filter, any_iff_count, any_mono, find-some,
  any_of_found, All-find,
}
use codeweaknesses.Common.Assoc.{lookup}
use codeweaknesses.Common.Lookups.{sum-same, count-same}
use codeweaknesses.Common.Results.{ok}
use codeweaknesses.Entities.{Submission, Contest}
use codeweaknesses.Leaderboard.Standings.{
  ProblemStanding, LeaderboardEntry, LeaderboardPayload, problem_standing, compute_standings,
}
use codeweaknesses.Leaderboard.Standings.Entries.{IsEntryOf, compute_standings-entries, is_user}
use codeweaknesses.Leaderboard.Standings.Groups.{is_of, extend}
use codeweaknesses.Leaderboard.Standings.Tallies.{penalty_of, is_solved}

-- The same submissions of a user to each problem, in the same order.
abbrev pub SameGroupsOf : String → List Submission → List Submission → Type 0
SameGroupsOf u rows rows' = (p : String) → filter (is_of u p) rows ≡ filter (is_of u p) rows'

-- The standing of a problem in an entry.
abbrev pub cell_of : String → Option LeaderboardEntry → Option ProblemStanding
cell_of problem_id none = none
cell_of problem_id (some e) = lookup problem_id e.problems

abbrev pub cell_in : String → String → LeaderboardPayload → Option ProblemStanding
cell_in u problem_id p = cell_of problem_id (find (is_user u) p.entries)

-- The problems solved and the penalty of a user who has an entry.
abbrev pub total_of : LeaderboardEntry → ℕ × ℕ
total_of e = (e.solved, e.total_penalty)

abbrev pub total_in : String → LeaderboardPayload → Option (ℕ × ℕ)
total_in u p = Option.map total_of (find (is_user u) p.entries)

abbrev pub of_user : String → Submission → Bool
of_user u s = s.user_id == u

any-user_iff :
    (u : String) (rows rows' : List Submission)
    → SameGroupsOf u rows rows'
    → any (of_user u) rows ≡ true
    → any (of_user u) rows' ≡ true
any-user_iff u rows rows' same h = elim (Option-cases (find (of_user u) rows)) [
  | inl e ↦ ground (arith, is_some-find (of_user u) rows, e, h)
  | inr (s, e) ↦
      let here = find-some (of_user u) rows e in
      let there : any (is_of u s.problem_id) rows' ≡ true =
        sym (any-filter (is_of u s.problem_id) rows')
        ∙ ap (any (is_of u s.problem_id)) (sym (same s.problem_id))
        ∙ any-filter (is_of u s.problem_id) rows
        ∙ any_of_found (of_user u) (is_of u s.problem_id) rows e
            (rw (here, eq_refl s.problem_id) refl) in
      any_mono (is_of u s.problem_id) (of_user u) rows' (λ x. ground arith) there
]

any-user :
    (u : String) (rows rows' : List Submission)
    → SameGroupsOf u rows rows'
    → any (of_user u) rows ≡ any (of_user u) rows'
any-user u rows rows' same =
    ground (arith, any-user_iff u rows rows' same, any-user_iff u rows' rows (λ p. sym (same p)))

-- The rows of a user to a problem, if the user has none at all.
no-rows :
    (u problem_id : String) (rows : List Submission)
    → any (of_user u) rows ≡ false
    → filter (is_of u problem_id) rows ≡ []
no-rows u problem_id [] h = refl
no-rows u problem_id (s ∷ ss) h = ground (arith, no-rows u problem_id ss)

-- Entries of the same user that rows with the same groups determine.
IsEntryOf-same :
    (start : ℕ) (rows rows' : List Submission) {e e' : LeaderboardEntry}
    → SameGroupsOf e.user_id rows rows'
    → IsEntryOf start rows e
    → IsEntryOf start rows' e'
    → e.user_id ≡ e'.user_id
    → (e.solved ≡ e'.solved) × (e.total_penalty ≡ e'.total_penalty)
IsEntryOf-same start rows rows' {e} {e'} same d d' h =
    let cells : (p : String) → lookup p e.problems ≡ lookup p e'.problems = λ p.
      d.problem p
      ∙ ap (λ o. Option.map (problem_standing start p) (extend none o))
          (same p ∙ ap (λ u. filter (is_of u p) rows') h)
      ∙ sym (d'.problem p) in
    (
      d.solved
          ∙ count-same is_solved e.problems e'.problems d.distinct d'.distinct cells
          ∙ sym d'.solved,
      d.penalty
          ∙ sum-same penalty_of e.problems e'.problems d.distinct d'.distinct cells
          ∙ sym d'.penalty,
    )

module _ (start : ℕ) where
  -- What is known of the entries that are computed from these rows.
  abbrev pub Holds : List Submission → List LeaderboardEntry → Type 0
  Holds rows es =
      All (IsEntryOf start rows) es
      × ((u : String) → count (is_user u) es ≡ (if any (of_user u) rows then 1 else 0))

  is_some-user :
      (rows : List Submission) (es : List LeaderboardEntry) (u : String)
      → Holds rows es
      → is_some (find (is_user u) es) ≡ any (of_user u) rows
  is_some-user rows es u (d, c) =
      is_some-find (is_user u) es ∙ ground (arith, any_iff_count (is_user u) es, c u)

  found :
      (rows : List Submission) (es : List LeaderboardEntry) (u : String) {e : LeaderboardEntry}
      → Holds rows es
      → find (is_user u) es ≡ some e
      → (e.user_id ≡ u) × IsEntryOf start rows e
  found rows es u {e} (d, c) h = (
    (eq_iff e.user_id u).0 (find-some (is_user u) es h),
    All-find (IsEntryOf start rows) (is_user u) es d h,
  )

  cell_of-find :
      (rows : List Submission) (es : List LeaderboardEntry) (u problem_id : String)
      → Holds rows es
      → cell_of problem_id (find (is_user u) es)
        ≡ Option.map
            (problem_standing start problem_id)
            (extend none (filter (is_of u problem_id) rows))
  cell_of-find rows es u problem_id h = elim (Option-cases (find (is_user u) es)) [
    | inl e ↦
        let none_there : any (of_user u) rows ≡ false =
          sym (is_some-user rows es u h) ∙ ap is_some e in
        rw (e, no-rows u problem_id rows none_there) refl
    | inr (x, e) ↦
        let (same, d) = found rows es u h e in
        rw e (
          d.problem problem_id
          ∙ ap
              (λ v.
                Option.map (problem_standing start problem_id)
                  (extend none (filter (is_of v problem_id) rows)))
              same)
  ]

  -- Rows with the same groups of a user give the user the same totals.
  pub total_of-same :
      (rows rows' : List Submission) (es es' : List LeaderboardEntry) (u : String)
      → SameGroupsOf u rows rows'
      → Holds rows es
      → Holds rows' es'
      → Option.map total_of (find (is_user u) es) ≡ Option.map total_of (find (is_user u) es')
  total_of-same rows rows' es es' u same h h' =
      let there : is_some (find (is_user u) es) ≡ is_some (find (is_user u) es') =
        is_some-user rows es u h ∙ any-user u rows rows' same ∙ sym (is_some-user rows' es' u h') in
      elim (Option-cases (find (is_user u) es)) [
        | inl e ↦ elim (Option-cases (find (is_user u) es')) [
          | inl e' ↦ rw (e, e') refl
          | inr (x', e') ↦ ground (arith, there)
        ]
        | inr (x, e) ↦ elim (Option-cases (find (is_user u) es')) [
          | inl e' ↦ ground (arith, there)
          | inr (x', e') ↦
              let (user, d) = found rows es u h e in
              let (user', d') = found rows' es' u h' e' in
              let (solved, penalty) =
                IsEntryOf-same start rows rows' (rw user same) d d' (user ∙ sym user') in
              rw (e, e') (ground (arith, solved, penalty))
        ]
      ]

-- The standing of a problem in computed standings is that of exactly the user's rows to it.
pub cell_in-compute_standings :
    (locale_compare : String → String → Ordering) (contest_id : String) (contest : Contest)
    (rows : List Submission) (now : ℕ) (p : LeaderboardPayload) (u problem_id : String)
    → compute_standings locale_compare contest_id (some contest) rows now ≡ ok p
    → cell_in u problem_id p
      ≡ Option.map
          (problem_standing contest.start_time problem_id)
          (extend none (filter (is_of u problem_id) rows))
cell_in-compute_standings locale_compare contest_id contest rows now p u problem_id h =
    cell_of-find contest.start_time rows p.entries u problem_id
      (compute_standings-entries locale_compare contest_id contest rows now p h)

-- Standings of a contest that is there are computed whatever its rows are.
pub compute_standings-returns :
    (locale_compare : String → String → Ordering) (contest_id : String) (contest : Contest)
    (rows : List Submission) (now : ℕ)
    → (p : LeaderboardPayload) × (compute_standings locale_compare contest_id
          (some contest)
          rows
          now
        ≡ ok p)
unfolding compute_standings
compute_standings-returns locale_compare contest_id contest rows now = (_, refl)
