-- ===== src/Submissions/Samples.antt =====
-- Numbers with three decimals for the score, a Docker that prints 42 on every run, and a submission with
-- two test cases.
use native.Mathlib.Nat.{div-eq_of_eq-mul_left, div-lt_iff_lt-mul, mul-le-mul_right}
use codeweaknesses.Entities.{Contest, pending, python, codes, Submission, TestCase}
use codeweaknesses.Judge.Execution.{streams, done, Docker}
use codeweaknesses.Submissions.Processor.{Surroundings, JobData}
use codeweaknesses.Submissions.Processor.Score.{Float}
use codeweaknesses.Common.{
  false, some, ◌∷◌, true, ◌+◌, [], none, arith, ◌*◌, suc, ◌/◌, ◌≤◌, ◌<◌, List, ℕ,
}

pub div-le-div : {a b d : ℕ} → 0 < d → a ≤ b → a / d ≤ b / d
div-le-div {a} {b} {d} p h =
    let above : b < suc (b / d) * d = (div-lt_iff_lt-mul p).0 (omega arith) in
    let below : a / d < suc (b / d) = (div-lt_iff_lt-mul p).1 (omega (arith, above, h)) in
    omega (arith, below)

abbrev pub fixed_point : Float
fixed_point = record {
  Number = ℕ;
  of_ℕ = λ n. n * 1000;
  div = λ x y. x * 1000 / y;
  mul = λ x y. x * y / 1000;
  round = λ x. (x + 500) / 1000;
  Le = λ x y. x ≤ y;
  div_self = λ n p small. div-eq_of_eq-mul_left (omega (arith, p)) (omega arith);
  mul_one = λ n. omega arith;
  div_mono = λ m n k h p small_n small. div-le-div (omega (arith, p)) (omega (arith, h));
  mul_mono = λ x y n p small h. div-le-div (omega arith) (mul-le-mul_right (n * 1000) h);
  round_mono = λ x y h. div-le-div (omega arith) (omega (arith, h));
  round_of_ℕ = λ n small. omega arith;
}

-- Every run prints 42.
abbrev pub daemon : Docker
daemon = record {
  create = λ n. done tt;
  pull = done tt;
  attach = done tt;
  start = done tt;
  race = streams (codes "42\n") [];
  kill = done tt;
  memory_usage = some 1000;
  elapsed = 5;
}

abbrev pub around : Surroundings
around = record {
  float = fixed_point;
  submission_timeout = 5000;
  memory_limit = 2000;
  docker = λ n. daemon;
  rejects = λ n. none;
  started_at = 10;
  completed_at = 20;
}

abbrev pub job : JobData
job = record { submission_id = "s"; code = codes "print(42)"; language = python; problem_id = "p" }

abbrev pub queued : Submission
queued = record {
  id = "s";
  code = codes "print(42)";
  language = python;
  status = pending;
  user_id = "ada";
  problem_id = "p";
  contest_id = "c";
  submitted_at = some 5;
  started_at = none;
  completed_at = none;
  score = 0;
  execution_time = none;
  memory_used = none;
  user = none;
  test_results = some (
      record {
        id = "r";
        submission_id = "s";
        test_case_id = "t";
        passed = true;
        is_hidden = true;
        output = some (codes "42");
        expected_output = some (codes "42");
        error = none;
        execution_time = some 3;
        memory_used = some 1000;
      }
      ∷ []);
}

abbrev pub tests : List TestCase
tests =
    record {
      id = "t";
      problem_id = "p";
      input = [];
      expected_output = codes "42";
      is_hidden = true;
      order_index = 0;
    }
    ∷ record {
      id = "u";
      problem_id = "p";
      input = [];
      expected_output = codes "43";
      is_hidden = false;
      order_index = 1;
    }
    ∷ []

abbrev pub contest : Contest
contest = record {
  id = "c";
  title = "Spring round";
  start_time = 0;
  end_time = 3600000;
  finished_at = none;
  deleted_at = none;
}
