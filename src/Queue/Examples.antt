-- ===== src/Queue/Examples.antt =====
-- A queue with four workers' jobs at a time, as the configuration says.
use codeweaknesses.Common.{
  ℕ, ◌≤◌, ◌≡◌, refl, none, some, List, [], ◌∷◌, count, arith, if◌then◌else◌,
}
use codeweaknesses.Common.Assoc.{lookup}
use codeweaknesses.Common.Texts.{decimal}
use codeweaknesses.Entities.{codes}
use codeweaknesses.Judge.Output.{text_eq}
use codeweaknesses.Queue.{fresh, run, Operation, initialise, register, submit, shut_down}
use codeweaknesses.Queue.Config.{
  to_upper, underscores, text, Settings, get_worker_concurrency, get_queue_concurrency_env_keys,
}
use codeweaknesses.Queue.Decimal.{get_worker_concurrency-decimal}
use codeweaknesses.Queue.Registry.{
  run-registers, is_new_queue, is_new_worker, processor_of, IsConcurrent,
}

abbrev settings : Settings
settings key =
    if text_eq key (codes "SUBMISSION_WORKER_CONCURRENCY") then some (text (decimal 4)) else none

-- Processors and jobs by numbers.
abbrev calls_made : List (Operation ℕ ℕ)
calls_made =
    initialise ∷ register "submissions" 1 ∷ register "submissions" 2 ∷ submit "s" 7 ∷ shut_down ∷ []

run-registers_example :
    let s = run settings calls_made fresh in
    (count (is_new_queue "submissions") s.calls ≤ 1)
    × (count (is_new_worker "submissions") s.calls ≡ 1)
    × (processor_of (lookup "submissions" s.workers) ≡ some 1)
    × IsConcurrent (lookup "submissions" s.workers)
run-registers_example = run-registers settings "submissions" calls_made

env_keys :
    get_queue_concurrency_env_keys (codes "submissions")
    ≡ codes "SUBMISSION_WORKER_CONCURRENCY" ∷ codes "SUBMISSIONS_WORKER_CONCURRENCY" ∷ []
unfolding get_queue_concurrency_env_keys underscores to_upper
env_keys = refl

configured : settings (codes "SUBMISSION_WORKER_CONCURRENCY") ≡ some (text (decimal 4))
unfolding text_eq
configured = refl

get_worker_concurrency-decimal_example : get_worker_concurrency settings (codes "submissions") ≡ 4
get_worker_concurrency-decimal_example =
    get_worker_concurrency-decimal settings (codes "submissions")
      (codes "SUBMISSION_WORKER_CONCURRENCY") (codes "SUBMISSIONS_WORKER_CONCURRENCY" ∷ []) 4
      env_keys configured (omega arith) (omega arith)
