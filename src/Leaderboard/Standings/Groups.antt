-- ===== src/Leaderboard/Standings/Groups.antt =====
-- What the grouping loop collects for each user and problem.
use codeweaknesses.Common.{
  String, ◌≡◌, refl, sym, ap, Bool, ◌&&◌, ◌||◌, Option, none, some, List, [], ◌∷◌, ◌++◌, arith,
  if◌then◌else◌, filter, All, Bool-cases, inl, inr, any, or_else, ◌==◌, eq_iff,
}
use mathlib.Core.List.{append-nil, append_assoc}
use codeweaknesses.Common.Assoc.{
  Assoc, lookup, insert, has, HasDistinctKeys, lookup-insert, has-insert, insert-HasDistinctKeys,
}
use codeweaknesses.Entities.{Submission}
use codeweaknesses.Leaderboard.Standings.{ByProblem, add_submission, group_submissions}

abbrev pub is_of : String → String → Submission → Bool
is_of user_id problem_id s = s.user_id == user_id && s.problem_id == problem_id

-- A group that has been found, with more submissions behind it; no group stands for none.
abbrev pub extend : Option (List Submission) → List Submission → Option (List Submission)
extend none [] = none
extend none (s ∷ ss) = some (s ∷ ss)
extend (some xs) ys = some (xs ++ ys)

abbrev pub group_of : String → String → Assoc ByProblem → Option (List Submission)
group_of user_id problem_id by_user = lookup problem_id (or_else (lookup user_id by_user) [])

extend-nil : (o : Option (List Submission)) → extend o [] ≡ o
extend-nil none = refl
extend-nil (some xs) = ap some (append-nil xs)

module _ (user_id problem_id : String) where
  extend-extend :
      (o : Option (List Submission)) (s : Submission) (ss : List Submission)
      → extend (extend o (s ∷ [])) ss ≡ extend o (s ∷ ss)
  extend-extend none s ss = refl
  extend-extend (some xs) s ss = rw (append_assoc xs (s ∷ []) ss)

  group_of-add_submission :
      (by_user : Assoc ByProblem) (s : Submission)
      → group_of user_id problem_id (add_submission by_user s) ≡ (
          if is_of user_id problem_id s
          then extend (group_of user_id problem_id by_user) (s ∷ [])
          else group_of user_id problem_id by_user)
  unfolding add_submission
  group_of-add_submission by_user s =
      let by_problem : ByProblem = or_else (lookup s.user_id by_user) [] in
      let subs = or_else (lookup s.problem_id by_problem) [] ++ s ∷ [] in
      ground (
        arith,
        eq_iff s.user_id user_id,
        eq_iff s.problem_id problem_id,
        lookup-insert s.user_id user_id (insert s.problem_id subs by_problem) by_user,
        lookup-insert s.problem_id problem_id subs by_problem,
      )

  pub group_of-group_submissions :
      (by_user : Assoc ByProblem) (subs : List Submission)
      → group_of user_id problem_id (group_submissions by_user subs)
        ≡ extend (group_of user_id problem_id by_user) (filter (is_of user_id problem_id) subs)
  unfolding group_submissions
  group_of-group_submissions by_user [] = sym (extend-nil (group_of user_id problem_id by_user))
  group_of-group_submissions by_user (s ∷ ss) = ground (
    arith,
    group_of-group_submissions (add_submission by_user s) ss,
    group_of-add_submission by_user s,
    extend-extend (group_of user_id problem_id by_user) s (filter (is_of user_id problem_id) ss),
  )

-- Each user has one group, and a group with distinct problems.
abbrev pub IsGrouped : Assoc ByProblem → Type 0
IsGrouped by_user = HasDistinctKeys by_user × All (λ kv. HasDistinctKeys kv.1) by_user

group_HasDistinctKeys :
    (user_id : String) (by_user : Assoc ByProblem)
    → All (λ kv. HasDistinctKeys kv.1) by_user
    → HasDistinctKeys (or_else (lookup user_id by_user) [])
unfolding lookup
group_HasDistinctKeys user_id [] h = tt
group_HasDistinctKeys user_id ((j, v) ∷ m) h = elim (Bool-cases (j == user_id)) [
  | inl e ↦ rw e h.0
  | inr e ↦ rw e (group_HasDistinctKeys user_id m h.1)
]

All-insert :
    (user_id : String) (by_problem : ByProblem) (by_user : Assoc ByProblem)
    → HasDistinctKeys by_problem
    → All (λ kv. HasDistinctKeys kv.1) by_user
    → All (λ kv. HasDistinctKeys kv.1) (insert user_id by_problem by_user)
unfolding insert
All-insert user_id by_problem [] d h = (d, tt)
All-insert user_id by_problem ((j, v) ∷ m) d h = elim (Bool-cases (j == user_id)) [
  | inl e ↦ rw e (d, h.1)
  | inr e ↦ rw e (h.0, All-insert user_id by_problem m d h.1)
]

pub group_submissions-IsGrouped :
    (by_user : Assoc ByProblem) (subs : List Submission)
    → IsGrouped by_user
    → IsGrouped (group_submissions by_user subs)
unfolding group_submissions add_submission
group_submissions-IsGrouped by_user [] h = h
group_submissions-IsGrouped by_user (s ∷ ss) h =
    let by_problem : ByProblem = or_else (lookup s.user_id by_user) [] in
    let subs = or_else (lookup s.problem_id by_problem) [] ++ s ∷ [] in
    let next = insert s.problem_id subs by_problem in
    let d =
      insert-HasDistinctKeys s.problem_id subs by_problem
        (group_HasDistinctKeys s.user_id by_user h.1) in
    group_submissions-IsGrouped (insert s.user_id next by_user) ss
      (insert-HasDistinctKeys s.user_id next by_user h.0, All-insert s.user_id next by_user d h.1)

-- The users with a group are those with a submission.
pub has-group_submissions :
    (user_id : String) (by_user : Assoc ByProblem) (subs : List Submission)
    → has user_id (group_submissions by_user subs)
      ≡ (has user_id by_user || any (λ s. s.user_id == user_id) subs)
unfolding group_submissions add_submission
has-group_submissions user_id by_user [] = ground arith
has-group_submissions user_id by_user (s ∷ ss) =
    let by_problem : ByProblem = or_else (lookup s.user_id by_user) [] in
    let subs = or_else (lookup s.problem_id by_problem) [] ++ s ∷ [] in
    let next = insert s.problem_id subs by_problem in
    ground (
      arith,
      has-group_submissions user_id (insert s.user_id next by_user) ss,
      has-insert s.user_id user_id next by_user,
    )
