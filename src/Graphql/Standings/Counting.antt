-- ===== src/Graphql/Standings/Counting.antt =====
-- The problems that a user has solved in `contestStandings`, counted over the submissions.
use codeweaknesses.Common.{
  ℕ, ◌+◌, String, ◌≡◌, refl, ap, ◌∙◌, sym, Bool, true, Option, none, some, List, [], ◌∷◌, ◌++◌, map,
  filter, all, any, count, All, arith, is_some, ltb, eqb, or_else, if◌then◌else◌, ◌==◌, eq_iff,
  Option-cases, Bool-cases, inl, inr,
}
use mathlib.Core.List.{append_assoc, append-nil}
use codeweaknesses.Common.Assoc.{
  Assoc, lookup, lookup-insert, HasDistinctKeys, insert-HasDistinctKeys,
}
use codeweaknesses.Common.Lookups.{lookups}
use codeweaknesses.Common.Results.{ok}
use codeweaknesses.Common.Sorting.{sort, All-sort}
use codeweaknesses.Entities.{Submission, Problem}
use codeweaknesses.Graphql.Standings.{
  Group, LeaderboardEntryType, Summary, no_summary, improves, best_from, add_problem, summarise,
  entry_of, add_row, group_rows, compare_rows, number_from, contest_standings,
}
use codeweaknesses.Leaderboard.Standings.Cells.{of_user}
use codeweaknesses.Leaderboard.Standings.Groups.{is_of}
use codeweaknesses.Leaderboard.Standings.Scoring.{is_accepted}

-- Accepted with the full score, or not accepted and below it.
abbrev pub is_honest : Submission → Bool
is_honest s = if is_accepted s then eqb s.score 100 else ltb s.score 100

-- The best submission is accepted if any is.
best_from-accepted :
    (first : Submission) (others : List Submission)
    → all is_honest (first ∷ others) ≡ true
    → is_accepted (best_from first others) ≡ any is_accepted (first ∷ others)
unfolding best_from
best_from-accepted first [] h = ground arith
best_from-accepted first (b ∷ bs) h =
    ground (arith, best_from-accepted (if improves first b then b else first) bs)

abbrev is_to : String → Submission → Bool
is_to q s = s.problem_id == q

all-filter :
    (p q : Submission → Bool) (ss : List Submission) → all p ss ≡ true → all p (filter q ss) ≡ true
all-filter p q [] h = refl
all-filter p q (s ∷ ss) h = ground (arith, all-filter p q ss)

-- One round of the loop over the problems, with the submissions to the problem.
add_problem-group :
    (subs : List Submission) (t : Summary) (p : Problem) (group : List Submission)
    → filter (is_to p.id) subs ≡ group
    → all is_honest group ≡ true
    → (add_problem subs t p).problems_solved
      ≡ t.problems_solved + (if any is_accepted group then 1 else 0)
unfolding add_problem
add_problem-group subs t p [] e h = rw (e, add_problem) (omega arith)
add_problem-group subs t p (first ∷ others) e h =
    rw (e, add_problem) (ground (arith, best_from-accepted first others h))

add_problem-solved :
    (subs : List Submission) (t : Summary) (p : Problem)
    → all is_honest subs ≡ true
    → (add_problem subs t p).problems_solved
      ≡ t.problems_solved + (if any is_accepted (filter (is_to p.id) subs) then 1 else 0)
add_problem-solved subs t p h =
    add_problem-group subs t p (filter (is_to p.id) subs) refl
      (all-filter is_honest (is_to p.id) subs h)

summarise-solved :
    (subs : List Submission) (t : Summary) (ps : List Problem)
    → all is_honest subs ≡ true
    → (summarise subs t ps).problems_solved
      ≡ t.problems_solved + count (λ p. any is_accepted (filter (is_to p.id) subs)) ps
unfolding summarise
summarise-solved subs t [] h = omega arith
summarise-solved subs t (p ∷ ps) h =
    omega (arith, summarise-solved subs (add_problem subs t p) ps h, add_problem-solved subs t p h)

-- The submissions of a group that may be missing.
abbrev rows_of : Option Group → List Submission
rows_of none = []
rows_of (some group) = group.1

rows_of-add_row :
    (u : String) (m : Assoc Group) (s : Submission)
    → is_some s.user ≡ true
    → rows_of (lookup u (add_row m s))
      ≡ (if of_user u s then rows_of (lookup u m) ++ s ∷ [] else rows_of (lookup u m))
unfolding add_row
rows_of-add_row u m s h = elim (Option-cases s.user) [
  | inl e ↦ ground (arith, e, h)
  | inr (w, e) ↦
      let group : Group = or_else (lookup s.user_id m) (w, []) in
      rw (e, add_row)
        (grind
          (arith, lookup-insert s.user_id u (group.0, group.1 ++ s ∷ []) m, eq_iff s.user_id u))
]

group_rows-groups :
    (u : String) (m : Assoc Group) (rows : List Submission)
    → all (λ s. is_some s.user) rows ≡ true
    → rows_of (lookup u (group_rows m rows)) ≡ rows_of (lookup u m) ++ filter (of_user u) rows
unfolding group_rows
group_rows-groups u m [] h = sym (append-nil _)
group_rows-groups u m (s ∷ ss) h =
    group_rows-groups u (add_row m s) ss (ground (arith, h))
    ∙ ap (λ xs. xs ++ filter (of_user u) ss) (rows_of-add_row u m s (ground (arith, h)))
    ∙ (elim (Bool-cases (of_user u s)) [
      | inl e ↦ rw e (append_assoc (rows_of (lookup u m)) (s ∷ []) (filter (of_user u) ss))
      | inr e ↦ rw e refl
    ])

group_rows-HasDistinctKeys :
    (m : Assoc Group) (rows : List Submission)
    → HasDistinctKeys m
    → HasDistinctKeys (group_rows m rows)
unfolding group_rows add_row
group_rows-HasDistinctKeys m [] d = d
group_rows-HasDistinctKeys m (s ∷ ss) d =
    group_rows-HasDistinctKeys (add_row m s) ss (elim (Option-cases s.user) [
      | inl e ↦ rw (e, add_row) d
      | inr (w, e) ↦ rw (e, add_row) (insert-HasDistinctKeys s.user_id _ m d)
    ])

-- The problems with an accepted submission of the user.
abbrev pub count_accepted : String → List Submission → List Problem → ℕ
count_accepted u rows = count (λ p. any is_accepted (filter (is_of u p.id) rows))

filter-is_of :
    (u q : String) (rows : List Submission)
    → filter (is_to q) (filter (of_user u) rows) ≡ filter (is_of u q) rows
filter-is_of u q [] = refl
filter-is_of u q (s ∷ ss) = ground (arith, filter-is_of u q ss)

pub count-same_tests {ℓ} :
    {A : Type ℓ} (p q : A → Bool) (xs : List A) → ((x : A) → p x ≡ q x) → count p xs ≡ count q xs
count-same_tests p q [] h = refl
count-same_tests p q (x ∷ xs) h = ground (arith, h x, count-same_tests p q xs h)

module _ (problems : List Problem) (rows : List Submission)
    (users : all (λ s. is_some s.user) rows ≡ true) (honest : all is_honest rows ≡ true) where
  -- The entry of a user counts the problems with an accepted submission of that user.
  abbrev IsCountedOf : LeaderboardEntryType → Type 0
  IsCountedOf e = e.problems_solved ≡ count_accepted e.user_id rows problems

  entry_of-IsCountedOf :
      (u : String) (group : Group)
      → lookup u (group_rows [] rows) ≡ some group
      → IsCountedOf (entry_of problems (u, group))
  unfolding entry_of lookup
  entry_of-IsCountedOf u group e =
      let mine : group.1 ≡ filter (of_user u) rows =
        sym (ap rows_of e) ∙ group_rows-groups u [] rows users in
      let same : all is_honest group.1 ≡ true =
        ap (all is_honest) mine ∙ all-filter is_honest (of_user u) rows honest in
      let to_group : Problem → Bool = λ p. any is_accepted (filter (is_to p.id) group.1) in
      let to_rows : Problem → Bool = λ p. any is_accepted (filter (is_of u p.id) rows) in
      summarise-solved group.1 no_summary problems same
      ∙ omega (
        arith,
        count-same_tests to_group to_rows problems (λ p.
            ap (λ ss. any is_accepted (filter (is_to p.id) ss)) mine
            ∙ ap (any is_accepted) (filter-is_of u p.id rows)),
      )

  entries-IsCountedOf :
      (m : Assoc Group)
      → All (λ kv. lookup kv.0 (group_rows [] rows) ≡ some kv.1) m
      → All IsCountedOf (map (entry_of problems) m)
  entries-IsCountedOf [] h = tt
  entries-IsCountedOf ((u, group) ∷ m) h =
      (entry_of-IsCountedOf u group h.0, entries-IsCountedOf m h.1)

  number_from-IsCountedOf :
      (i : ℕ) (es : List LeaderboardEntryType)
      → All IsCountedOf es
      → All IsCountedOf (number_from i es)
  unfolding number_from
  number_from-IsCountedOf i [] h = tt
  number_from-IsCountedOf i (e ∷ es) h = (h.0, number_from-IsCountedOf (i + 1) es h.1)

  pub contest_standings-IsCountedOf :
      (es : List LeaderboardEntryType)
      → contest_standings (some problems) rows ≡ ok es
      → All IsCountedOf es
  unfolding contest_standings
  contest_standings-IsCountedOf es h =
      let entries = map (entry_of problems) (group_rows [] rows) in
      let same : number_from 0 (sort compare_rows entries) ≡ es = ground (arith, h) in
      rw (← same) (
        number_from-IsCountedOf 0 (sort compare_rows entries) (
          All-sort compare_rows IsCountedOf entries (
            entries-IsCountedOf (group_rows [] rows)
              (lookups (group_rows [] rows) (group_rows-HasDistinctKeys [] rows tt)))))
