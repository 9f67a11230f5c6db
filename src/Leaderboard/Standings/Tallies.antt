-- ===== src/Leaderboard/Standings/Tallies.antt =====
-- What the loop over the problems of one user adds up.
use mathlib.Core.List.{append_assoc, append-nil}
use codeweaknesses.Common.{
  ℕ, ◌+◌, String, ◌≡◌, refl, sym, ap, ◌∙◌, Bool, false, ◌||◌, Option, none, some, List, [], ◌∷◌,
  ◌++◌, map, arith, if◌then◌else◌, or_else, eq_iff, count, sum,
}
use codeweaknesses.Common.Assoc.{Assoc, insert, has, HasDistinctKeys}
use codeweaknesses.Entities.{Submission}
use codeweaknesses.Leaderboard.Standings.{
  ByProblem, ProblemStanding, problem_standing, Totals, add_standing, tally, standing_of,
  first_accepted,
}

abbrev pub standing_for : ℕ → String × List Submission → String × ProblemStanding
standing_for start kv = (kv.0, problem_standing start kv.0 kv.1)

insert_new {ℓ} :
    {V : Type ℓ} (k : String) (v : V) (m : Assoc V)
    → has k m ≡ false
    → insert k v m ≡ m ++ (k, v) ∷ []
unfolding insert has
insert_new k v [] h = refl
insert_new k v ((j, w) ∷ m) h = ground (arith, insert_new k v m)

has-append {ℓ} : {V : Type ℓ} (k : String) (m n : Assoc V) → has k (m ++ n) ≡ (has k m || has k n)
unfolding has
has-append k [] n = refl
has-append k ((j, w) ∷ m) n = ground (arith, has-append k m n)

-- No key of the first map is one of the second.
abbrev pub Apart {ℓ κ} : {V : Type ℓ} {W : Type κ} → Assoc V → Assoc W → Type 0
Apart [] n = Unit
Apart ((j, v) ∷ m) n = (has j n ≡ false) × Apart m n

Apart-snoc {ℓ κ} :
    {V : Type ℓ} {W : Type κ} (m : Assoc V) (n : Assoc W) (k : String) (w : W)
    → Apart m n
    → has k m ≡ false
    → Apart m (n ++ (k, w) ∷ [])
unfolding has
Apart-snoc [] n k w h d = tt
Apart-snoc ((j, v) ∷ m) n k w h d = (
  ground (arith, has-append j n ((k, w) ∷ []), eq_iff j k, eq_iff k j),
  Apart-snoc m n k w h.1 (ground arith),
)

-- The problem that a standing names, and that an unsolved problem has no penalty.
abbrev IsStandingOf : String → ProblemStanding → Type 0
IsStandingOf p st = (st.problem_id ≡ p) × (st.solved ≡ false → st.penalty_minutes ≡ none)

standing_of-IsStandingOf :
    (start : ℕ) (p : String) (found : Option Submission × ℕ)
    → IsStandingOf p (standing_of start p found)
unfolding standing_of
standing_of-IsStandingOf start p (none, w) = (refl, λ h. refl)
standing_of-IsStandingOf start p (some s, w) = (refl, λ h. cc)

problem_standing-IsStandingOf :
    (start : ℕ) (p : String) (subs : List Submission)
    → IsStandingOf p (problem_standing start p subs)
unfolding problem_standing
problem_standing-IsStandingOf start p subs =
    standing_of-IsStandingOf start p (first_accepted 0 subs)

abbrev pub penalty_of : String × ProblemStanding → ℕ
penalty_of kv = or_else kv.1.penalty_minutes 0

abbrev pub is_solved : String × ProblemStanding → Bool
is_solved kv = kv.1.solved

-- What `tally` has reached when it started at `t`.
pub record IsTallied (start : ℕ) (t : Totals) (by_problem : ByProblem) (u : Totals) : Type 0 where
  pub standings : u.standings ≡ t.standings ++ map (standing_for start) by_problem
  pub solved :
      u.total_solved ≡ t.total_solved + count is_solved (map (standing_for start) by_problem)
  pub penalty :
      u.total_penalty ≡ t.total_penalty + sum penalty_of (map (standing_for start) by_problem)

add_standing-IsTallied :
    (t : Totals) (p : String) (st : ProblemStanding)
    → IsStandingOf p st
    → has p t.standings ≡ false
    → ((add_standing t st).standings ≡ t.standings ++ (p, st) ∷ [])
      × ((add_standing t st).total_solved ≡ t.total_solved + (if st.solved then 1 else 0))
      × ((add_standing t st).total_penalty ≡ t.total_penalty + penalty_of (p, st))
unfolding add_standing
add_standing-IsTallied t p st (same, free) new = (
  ap (λ k. insert k st t.standings) same ∙ insert_new p st t.standings new,
  ground arith,
  ground arith,
)

pub tally-IsTallied :
    (start : ℕ) (t : Totals) (by_problem : ByProblem)
    → HasDistinctKeys by_problem
    → Apart by_problem t.standings
    → IsTallied start t by_problem (tally start t by_problem)
unfolding tally
tally-IsTallied start t [] d a = record {
  standings = sym (append-nil t.standings);
  solved = omega arith;
  penalty = omega arith;
}
tally-IsTallied start t ((p, subs) ∷ rest) d a =
    let st = problem_standing start p subs in
    let (s, n, m) =
      add_standing-IsTallied t p st (problem_standing-IsStandingOf start p subs) a.0 in
    let ih =
      tally-IsTallied start (add_standing t st) rest d.1
        (rw s (Apart-snoc rest t.standings p st a.1 d.0)) in
    record {
      standings =
          ih.standings
          ∙ ap (λ x. x ++ map (standing_for start) rest) s
          ∙ append_assoc t.standings ((p, st) ∷ []) (map (standing_for start) rest);
      solved = omega (arith, ih.solved, n);
      penalty = omega (arith, ih.penalty, m);
    }

pub Apart-nil : (by_problem : ByProblem) → Apart {W = ProblemStanding} by_problem []
unfolding has
Apart-nil [] = tt
Apart-nil (kv ∷ m) = (refl, Apart-nil m)
