-- ===== src/Leaderboard/Standings/Scoring.antt =====
-- What the loop over one problem's submissions computes.
use codeweaknesses.Common.{
  inr, inl, Option-cases, false, ◌⊎◌, ◌∙◌, is_some-find, ℕ, ◌+◌, ◌*◌, String, ◌≡◌, refl, Bool, true,
  Option, none, some, List, [], ◌∷◌, ◌++◌, arith, if◌then◌else◌, find, any, count, is_some,
}
use mathlib.Core.Option
use codeweaknesses.Entities.{
  Submission, SubmissionStatus, pending, running, accepted, wrong, tle, mle, runtime_error,
  compilation_error, same_status,
}
use codeweaknesses.Leaderboard.Standings.{
  ProblemStanding, is_penalisable, first_accepted, accepted_time, standing_of, problem_standing,
}
use codeweaknesses.Leaderboard.Standings.Minutes.{minutes_since}

abbrev pub is_accepted : Submission → Bool
is_accepted s = same_status s.status accepted

-- Judged, and not accepted.
abbrev pub is_failed : SubmissionStatus → Bool
is_failed pending = false
is_failed running = false
is_failed accepted = false
is_failed wrong = true
is_failed tle = true
is_failed mle = true
is_failed runtime_error = true
is_failed compilation_error = true

is_penalisable_lem : (status : SubmissionStatus) → is_penalisable status ≡ is_failed status
unfolding is_penalisable
is_penalisable_lem pending = refl
is_penalisable_lem running = refl
is_penalisable_lem accepted = refl
is_penalisable_lem wrong = refl
is_penalisable_lem tle = refl
is_penalisable_lem mle = refl
is_penalisable_lem runtime_error = refl
is_penalisable_lem compilation_error = refl

abbrev pub penalised : Submission → Bool
penalised s = is_failed s.status

-- The submissions up to, and without, the first accepted one.
abbrev pub before_accepted : List Submission → List Submission
before_accepted [] = []
before_accepted (s ∷ ss) = let rest = before_accepted ss in if is_accepted s then [] else s ∷ rest

first_accepted_lem :
    (wrongs_before : ℕ) (subs : List Submission)
    → first_accepted wrongs_before subs
      ≡ (find is_accepted subs, wrongs_before + count penalised (before_accepted subs))
unfolding first_accepted
first_accepted_lem wrongs_before [] = ground arith
first_accepted_lem wrongs_before (s ∷ ss) = ground (
  arith,
  is_penalisable_lem s.status,
  first_accepted_lem wrongs_before ss,
  first_accepted_lem (wrongs_before + 1) ss,
)

find-append :
    (xs ys : List Submission)
    → any is_accepted xs ≡ true
    → find is_accepted (xs ++ ys) ≡ find is_accepted xs
find-append [] ys h = cc
find-append (x ∷ xs) ys h = ground (arith, find-append xs ys)

before_accepted-append :
    (xs ys : List Submission)
    → any is_accepted xs ≡ true
    → before_accepted (xs ++ ys) ≡ before_accepted xs
before_accepted-append [] ys h = cc
before_accepted-append (x ∷ xs) ys h = ground (arith, before_accepted-append xs ys)

module _ (contest_start : ℕ) (problem_id : String) where
  problem_standing_lem :
      (subs : List Submission)
      → problem_standing contest_start problem_id subs
        ≡ standing_of contest_start problem_id
            (find is_accepted subs, count penalised (before_accepted subs))
  unfolding problem_standing
  problem_standing_lem subs = ground (arith, first_accepted_lem 0 subs)

  standing_of-scores :
      (o : Option Submission) (w : ℕ)
      → ((standing_of contest_start problem_id (o, w)).solved ≡ is_some o)
        × ((standing_of contest_start problem_id (o, w)).attempts ≡ w)
        × ((standing_of contest_start problem_id (o, w)).penalty_minutes
            ≡ Option.map (λ s. minutes_since contest_start (accepted_time s) + 20 * w) o)
  unfolding standing_of
  standing_of-scores none w = (refl, refl, refl)
  standing_of-scores (some s) w = (refl, refl, refl)

  -- What a problem with these submissions costs, if `standing` is right.
  abbrev pub IsScoredBy : List Submission → ProblemStanding → Type 0
  IsScoredBy subs standing =
      ((find is_accepted subs ≡ none) × (standing.penalty_minutes ≡ none))
      ⊎ ((s : Submission) × (find is_accepted subs ≡ some s)
          × (standing.attempts ≡ count penalised (before_accepted subs))
          × (standing.penalty_minutes
              ≡ some (
                  minutes_since contest_start (accepted_time s)
                  + 20 * count penalised (before_accepted subs))))

  -- A problem counts as solved exactly when some submission was accepted. A problem that is not
  -- solved costs nothing. The attempts at a solved one are the submissions before the first accepted
  -- one that were judged and failed, those that are pending or running not among them, and it costs
  -- the minutes to the accepted submission and 20 for each attempt.
  pub problem_standing-scores :
      (subs : List Submission)
      → ((problem_standing contest_start problem_id subs).solved ≡ any is_accepted subs)
        × IsScoredBy subs (problem_standing contest_start problem_id subs)
  problem_standing-scores subs =
      let w = count penalised (before_accepted subs) in
      let (solved, attempts, penalty) = standing_of-scores (find is_accepted subs) w in
      rw (problem_standing_lem subs) (
        solved ∙ is_some-find is_accepted subs,
        elim (Option-cases (find is_accepted subs)) [
          | inl e ↦ inl (e, penalty ∙ rw e refl)
          | inr (s, e) ↦ inr (s, e, attempts, penalty ∙ rw e refl)
        ],
      )

  -- After a problem is solved, further submissions change nothing of its standing.
  problem_standing-append :
      (xs ys : List Submission)
      → any is_accepted xs ≡ true
      → problem_standing contest_start problem_id (xs ++ ys)
        ≡ problem_standing contest_start problem_id xs
  problem_standing-append xs ys h = rw (
    problem_standing_lem (xs ++ ys),
    problem_standing_lem xs,
    find-append xs ys h,
    before_accepted-append xs ys h,
  )
