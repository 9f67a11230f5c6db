-- ===== src/Submissions/Service/Creation.antt =====
-- Which submissions are taken, and what is queued for them.
use codeweaknesses.Common.{
  false, ◌∷◌, true, eq_refl, Option, ℕ, ◌≤◌, String, ◌≡◌, ◌↔◌, some, none, [], ◌∷◌, refl, true,
  arith, eq_iff, ◌≢◌,
}
use codeweaknesses.Common.Results.{ok}
use codeweaknesses.Entities.{pending, Problem, Contest, User, Submission, Text}
use codeweaknesses.Judge.Output.{is_filled, trim}
use codeweaknesses.Submissions.Service.{
  is_foreign, CreateSubmissionDto, SubmissionJob, create, new_submission, job_for,
}

-- What a submission needs to be taken: the problem is one of the contest, the contest runs, the user
-- exists, and the code is not blank.
pub record IsAcceptable (dto : CreateSubmissionDto) (now : ℕ) (found_problem : Option Problem)
    (found_contest : Option Contest) (found_user : Option User) : Type 0 where
  pub problem : Problem
  pub contest : Contest
  pub user : User
  pub has_problem : found_problem ≡ some problem
  pub has_contest : found_contest ≡ some contest
  pub has_user : found_user ≡ some user
  pub belongs : problem.contest ≡ some dto.contest_id
  pub started : contest.start_time ≤ now
  pub not_ended : now ≤ contest.end_time
  pub not_blank : trim dto.code ≢ []

eq_of_not_foreign : (o : Option String) (id : String) → is_foreign o id ≡ false → o ≡ some id
unfolding is_foreign
eq_of_not_foreign none id h = cc
eq_of_not_foreign (some j) id h = ground (arith, eq_iff j id)

is_filled_of_trim : (s : Text) → trim s ≢ [] → is_filled s ≡ true
unfolding trim
is_filled_of_trim [] h = absurd (h refl)
is_filled_of_trim (c ∷ s) h = refl

module _ (dto : CreateSubmissionDto) (user_id : String) (now : ℕ) (new_id : String) where
  create_sound :
      (p : Option Problem) (c : Option Contest) (u : Option User) (r : Submission × SubmissionJob)
      → create dto user_id now new_id p c u ≡ ok r
      → IsAcceptable dto now p c u
  unfolding create
  create_sound (some p) (some c) (some u) r h = record {
    problem = p;
    contest = c;
    user = u;
    has_problem = refl;
    has_contest = refl;
    has_user = refl;
    belongs = ground (arith, h, eq_of_not_foreign p.contest dto.contest_id);
    started = ground arith;
    not_ended = ground arith;
    not_blank = ground arith;
  }
  create_sound (some p) (some c) none r h = absurd (ground arith)
  create_sound (some p) none u r h = cc
  create_sound none c u r h = cc

  create_complete :
      (p : Option Problem) (c : Option Contest) (u : Option User)
      → IsAcceptable dto now p c u
      → create dto user_id now new_id p c u
        ≡ ok (
          new_submission dto user_id now new_id,
          job_for dto user_id now new_id (new_submission dto user_id now new_id),
        )
  unfolding create
  create_complete p c u a = ground (
    arith,
    a.has_problem,
    a.has_contest,
    a.has_user,
    a.belongs,
    a.started,
    a.not_ended,
    a.not_blank,
    eq_refl dto.contest_id,
    is_filled_of_trim dto.code a.not_blank,
  )

-- A submission is saved and queued exactly when the request is acceptable: the problem, the contest
-- and the user are found, the problem belongs to the contest, the contest is running at that
-- time (both ends included), and the code is not blank.
pub create_iff :
    (dto : CreateSubmissionDto) (user_id : String) (now : ℕ) (new_id : String) (p : Option Problem)
    (c : Option Contest) (u : Option User)
    → ((r : Submission × SubmissionJob) × (create dto user_id now new_id p c u ≡ ok r))
      ↔ IsAcceptable dto now p c u
create_iff dto user_id now new_id p c u = (
  λ (r, h). create_sound dto user_id now new_id p c u r h,
  λ a. (_, create_complete dto user_id now new_id p c u a),
)

pub create-new :
    (dto : CreateSubmissionDto) (user_id : String) (now : ℕ) (new_id : String) (p : Option Problem)
    (c : Option Contest) (u : Option User) (r : Submission × SubmissionJob)
    → create dto user_id now new_id p c u ≡ ok r
    → r ≡ (
      new_submission dto user_id now new_id,
      job_for dto user_id now new_id (new_submission dto user_id now new_id),
    )
create-new dto user_id now new_id p c u r h =
    let a = create_sound dto user_id now new_id p c u r h in
    let e = create_complete dto user_id now new_id p c u a in ground (arith, e, h)

-- A submission that is created is pending, unscored, and holds the code, the language and the contest
-- of the request and the caller as its owner; the job names it, its problem and its contest.
create-saves :
    (dto : CreateSubmissionDto) (user_id : String) (now : ℕ) (new_id : String) (p : Option Problem)
    (c : Option Contest) (u : Option User) (r : Submission × SubmissionJob)
    → create dto user_id now new_id p c u ≡ ok r
    → (r.0.status ≡ pending)
      × (r.0.score ≡ 0)
      × (r.0.user_id ≡ user_id)
      × (r.0.contest_id ≡ dto.contest_id)
      × (r.0.code ≡ dto.code)
      × (r.0.language ≡ dto.language)
      × (r.1.job_id ≡ r.0.id)
      × (r.1.submission_id ≡ r.0.id)
      × (r.1.problem_id ≡ r.0.problem_id)
      × (r.1.contest_id ≡ r.0.contest_id)
create-saves dto user_id now new_id p c u r h =
    let a = create_sound dto user_id now new_id p c u r h in
    let e = create_complete dto user_id now new_id p c u a in ground (arith, e, h)
