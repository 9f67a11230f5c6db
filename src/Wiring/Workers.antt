-- ===== src/Wiring/Workers.antt =====
-- Which processors the application works with, once it has started.
use codeweaknesses.Common.{◌≡◌, refl, some, List, [], ◌∷◌, ◌∙◌, count, arith, String}
use codeweaknesses.Common.Assoc.{lookup}
use codeweaknesses.Queue.{Operation, initialise, register, run}
use codeweaknesses.Queue.Config.{Settings}
use codeweaknesses.Queue.Registry.{run-registers, first_processor, processor_of, is_new_worker}
use codeweaknesses.Wiring.{start_queues}

first_processor-kept :
    {P D : Type 0} (k : String) (p : P) (os : List (Operation P D))
    → first_processor k (some p) os ≡ some p
first_processor-kept k p [] = refl
first_processor-kept k p (o ∷ os) = first_processor-kept k p os

-- After the start, whatever calls of the service follow, and whatever is configured: the submissions are
-- worked on by the processor of submissions and the deliveries by that of deliveries, each by the
-- only worker that was made for its queue.
start_queues-works :
    {P D : Type 0} (config : Settings) (of_submissions of_deliveries : P)
    (os : List (Operation P D))
    → let s = run config os (start_queues config of_submissions of_deliveries) in
      (processor_of (lookup "submissions" s.workers) ≡ some of_submissions)
      × (processor_of (lookup "webhooks" s.workers) ≡ some of_deliveries)
      × (count (is_new_worker "submissions") s.calls ≡ 1)
      × (count (is_new_worker "webhooks") s.calls ≡ 1)
unfolding start_queues run
start_queues-works config of_submissions of_deliveries os =
    let all_calls =
      initialise ∷ register "submissions" of_submissions ∷ register "webhooks" of_deliveries ∷ os in
    let (q, made, works, c) = run-registers config "submissions" all_calls in
    let (q', made', works', c') = run-registers config "webhooks" all_calls in
    let kept = first_processor-kept "submissions" of_submissions os in
    let kept' = first_processor-kept "webhooks" of_deliveries os in
    (works ∙ kept, works' ∙ kept', ground (arith, made, kept), ground (arith, made', kept'))
