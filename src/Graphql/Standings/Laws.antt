-- ===== src/Graphql/Standings/Laws.antt =====
-- The best submission, the sums over the problems, and the order of the standings.
use codeweaknesses.Common.{
  ap, ◌∙◌, sym, count-append, count, ℕ, ◌+◌, ◌≡◌, ◌⊎◌, inl, inr, refl, Bool, true, false, none,
  some, List, [], ◌∷◌, ◌++◌, map, arith, All, String, if◌then◌else◌,
}
use mathlib.Core.List.{map-append, append_assoc, append-nil}
use codeweaknesses.Entities.{accepted, same_status, Submission, Problem}
use codeweaknesses.Graphql.Standings.{
  Group, entry_of, improves, best_from, Summary, no_summary, add_problem, summarise,
  ProblemBreakdownType,
}

-- One of the submissions.
abbrev pub IsAmong : Submission → List Submission → Type 0
IsAmong x [] = ⊥
IsAmong x (y ∷ ys) = (x ≡ y) ⊎ IsAmong x ys

-- A higher score, or the same score at the same time or before.
abbrev pub IsAsGood : Submission → Submission → Type 0
IsAsGood x y = improves x y ≡ false

IsAsGood-trans : (x y z : Submission) → IsAsGood x y → IsAsGood y z → IsAsGood x z
IsAsGood-trans x y z h k = ground arith

All-IsAsGood :
    (x y : Submission) (ss : List Submission)
    → IsAsGood x y
    → All (IsAsGood y) ss
    → All (IsAsGood x) ss
All-IsAsGood x y [] h a = tt
All-IsAsGood x y (s ∷ ss) h a = (IsAsGood-trans x y s h a.0, All-IsAsGood x y ss h a.1)

chosen : (a b : Submission) → let c = if improves a b then b else a in IsAsGood c a × IsAsGood c b
chosen a b = ground arith

widen :
    (x a b : Submission) (bs : List Submission) (t : Bool)
    → IsAmong x ((if t then b else a) ∷ bs)
    → IsAmong x (a ∷ b ∷ bs)
widen x a b bs true (inl e) = inr (inl e)
widen x a b bs true (inr h) = inr (inr h)
widen x a b bs false (inl e) = inl e
widen x a b bs false (inr h) = inr (inr h)

-- The best submission of a user to a problem is one of them, and none of them has a higher score, or the
-- same score at an earlier time.
best_from-IsAsGood :
    (first : Submission) (others : List Submission)
    → IsAmong (best_from first others) (first ∷ others)
      × All (IsAsGood (best_from first others)) (first ∷ others)
unfolding best_from
best_from-IsAsGood first [] = (inl refl, (ground arith, tt))
best_from-IsAsGood first (b ∷ bs) =
    let c = if improves first b then b else first in
    let (among, good) = best_from-IsAsGood c bs in
    let (ca, cb) = chosen first b in
    (
      widen (best_from c bs) first b bs (improves first b) among,
      (
        IsAsGood-trans (best_from c bs) c first good.0 ca,
        (IsAsGood-trans (best_from c bs) c b good.0 cb, good.1),
      ),
    )

abbrev pub sum_scores : List ProblemBreakdownType → ℕ
sum_scores [] = 0
sum_scores (b ∷ bs) = b.best_score + sum_scores bs

abbrev pub is_solved : ProblemBreakdownType → Bool
is_solved b = elim b.best_submission [ none ↦ false | some best ↦ same_status best.status accepted ]

abbrev pub problem_id_of : ProblemBreakdownType → String
problem_id_of b = b.problem_id

abbrev pub id_of : Problem → String
id_of p = p.id

-- The sums that a summary holds are those over its breakdowns.
record IsSummed (t : Summary) : Type 0 where
  total : t.total_score ≡ sum_scores t.problem_breakdowns
  solved : t.problems_solved ≡ count is_solved t.problem_breakdowns

sum_scores-append :
    (xs : List ProblemBreakdownType) (b : ProblemBreakdownType)
    → sum_scores (xs ++ b ∷ []) ≡ sum_scores xs + b.best_score
sum_scores-append [] b = omega arith
sum_scores-append (x ∷ xs) b = omega (arith, sum_scores-append xs b)

add_problem-IsSummed :
    (subs : List Submission) (t : Summary) (p : Problem)
    → IsSummed t
    → IsSummed (add_problem subs t p)
unfolding add_problem
add_problem-IsSummed subs t p h = record {
  total = grind (arith, h.total, sum_scores-append);
  solved = grind (arith, h.solved, count-append);
}

problem_ids-add_problem :
    (subs : List Submission) (t : Summary) (p : Problem)
    → map problem_id_of (add_problem subs t p).problem_breakdowns
      ≡ map problem_id_of t.problem_breakdowns ++ p.id ∷ []
unfolding add_problem
problem_ids-add_problem subs t p = grind (arith, map-append)

summarise-IsSummed :
    (subs : List Submission) (t : Summary) (ps : List Problem)
    → IsSummed t
    → IsSummed (summarise subs t ps)
unfolding summarise
summarise-IsSummed subs t [] h = h
summarise-IsSummed subs t (p ∷ ps) h =
    summarise-IsSummed subs (add_problem subs t p) ps (add_problem-IsSummed subs t p h)

problem_ids-summarise :
    (subs : List Submission) (t : Summary) (ps : List Problem)
    → map problem_id_of (summarise subs t ps).problem_breakdowns
      ≡ map problem_id_of t.problem_breakdowns ++ map id_of ps
unfolding summarise
problem_ids-summarise subs t [] = sym (append-nil _)
problem_ids-summarise subs t (p ∷ ps) =
    problem_ids-summarise subs (add_problem subs t p) ps
    ∙ ap (λ ids. ids ++ map id_of ps) (problem_ids-add_problem subs t p)
    ∙ append_assoc (map problem_id_of t.problem_breakdowns) (p.id ∷ []) (map id_of ps)

-- The entry of a user breaks the score down into the problems of the contest, each once and in their
-- order; the total is the sum of the best scores, and the problems solved are those whose best
-- submission was accepted.
entry_of-totals :
    (problems : List Problem) (user_id : String) (group : Group)
    → let e = entry_of problems (user_id, group) in
      (e.total_score ≡ sum_scores e.problem_breakdowns)
      × (e.problems_solved ≡ count is_solved e.problem_breakdowns)
      × (map problem_id_of e.problem_breakdowns ≡ map id_of problems)
unfolding entry_of
entry_of-totals problems user_id group =
    let h =
      summarise-IsSummed group.1 no_summary problems (record { total = refl; solved = refl }) in
    (h.total, h.solved, problem_ids-summarise group.1 no_summary problems)
