-- ===== src/Queue/Registry.antt =====
-- Which queues and workers the service makes, over any sequence of calls.
use Prim.Native.String.{String}
use codeweaknesses.Common.{
  ap, ◌∙◌, ℕ, ◌≤◌, ◌≡◌, refl, Bool, false, Option, none, some, List, [], ◌∷◌, ◌++◌, map, arith,
  count, is_some, if◌then◌else◌, ◌==◌, eq_iff, count-append,
}
use codeweaknesses.Common.Assoc.{Assoc, lookup, lookup-insert}
use codeweaknesses.Entities.{Text, codes}
use codeweaknesses.Queue.Config.{
  ConfigValue, Settings, parse_positive_integer, get_positive_integer_config, first_configured,
  get_worker_concurrency, get_queue_concurrency_env_keys,
}
use codeweaknesses.Queue.{
  fresh, run, worker_for, QueueService, QueueOptions, Worker, Call, new_queue, new_worker,
  close_worker, close_queue, get_or_create_queue, enqueue_submission, enqueue_webhook_delivery,
  close, on_module_init, register_processor, Operation, initialise, register, submit, deliver,
  shut_down, apply,
}

parse_positive_integer-pos :
    (v : ConfigValue) (fallback : ℕ) → 1 ≤ fallback → 1 ≤ parse_positive_integer v fallback
unfolding parse_positive_integer
parse_positive_integer-pos v fallback h = ground arith

get_positive_integer_config-pos :
    (config : Settings) (key : Text) (fallback : ℕ)
    → 1 ≤ fallback
    → 1 ≤ get_positive_integer_config config key fallback
unfolding get_positive_integer_config
get_positive_integer_config-pos config key fallback h = grind (arith, parse_positive_integer-pos)

first_configured-pos :
    (config : Settings) (keys : List Text) (queue_default : ℕ)
    → 1 ≤ queue_default
    → 1 ≤ first_configured config keys queue_default
unfolding first_configured
first_configured-pos config [] queue_default h = h
first_configured-pos config (key ∷ keys) queue_default h =
    grind (arith, parse_positive_integer-pos, first_configured-pos config keys queue_default h)

get_worker_concurrency-pos :
    (config : Settings) (queue_name : Text) → 1 ≤ get_worker_concurrency config queue_name
unfolding get_worker_concurrency
get_worker_concurrency-pos config queue_name =
    first_configured-pos config (get_queue_concurrency_env_keys queue_name) _ (
      ground (
        arith,
        get_positive_integer_config-pos config (codes "WORKER_CONCURRENCY") 1 (omega arith),
      ))

abbrev pub processor_of : {P : Type 0} → Option (Worker P) → Option P
processor_of none = none
processor_of (some w) = some w.processor

abbrev pub IsConcurrent : {P : Type 0} → Option (Worker P) → Type 0
IsConcurrent none = Unit
IsConcurrent (some w) = 1 ≤ w.concurrency

module _ {P D : Type 0} where
  abbrev pub is_new_queue : String → Call P D → Bool
  is_new_queue k (new_queue name options) = name == k
  is_new_queue k _ = false

  abbrev pub is_new_worker : String → Call P D → Bool
  is_new_worker k (new_worker name worker) = name == k
  is_new_worker k _ = false

  -- The processor of a queue: the first that is registered, whatever comes later.
  abbrev pub first_step : String → Option P → Operation P D → Option P
  first_step k (some p) o = some p
  first_step k none (register name p) = if name == k then some p else none
  first_step k none _ = none

  abbrev pub first_processor : String → Option P → List (Operation P D) → Option P
  first_processor k found [] = found
  first_processor k found (o ∷ os) = first_processor k (first_step k found o) os

  -- The table of queues and that of workers agree with what BullMQ was asked to make.
  record IsRegistered (k : String) (s : QueueService P D) : Type 0 where
    queue_made : count (is_new_queue k) s.calls ≡ (if is_some (lookup k s.queues) then 1 else 0)
    worker_made : count (is_new_worker k) s.calls ≡ (if is_some (lookup k s.workers) then 1 else 0)
    concurrent : IsConcurrent (lookup k s.workers)

  none_made_by_closing :
      (k : String) (ws : Assoc (Worker P)) (qs : Assoc QueueOptions) (calls : List (Call P D))
      → let cs = calls ++ (map (λ kv. close_worker kv.0) ws ++ map (λ kv. close_queue kv.0) qs) in
        (count (is_new_queue k) cs ≡ count (is_new_queue k) calls)
        × (count (is_new_worker k) cs ≡ count (is_new_worker k) calls)
  none_made_by_closing k [] [] [] = (refl, refl)
  none_made_by_closing k [] (q ∷ qs) [] =
      let (e, f) = none_made_by_closing k [] qs [] in (omega (arith, e), omega (arith, f))
  none_made_by_closing k (w ∷ ws) qs [] =
      let (e, f) = none_made_by_closing k ws qs [] in (omega (arith, e), omega (arith, f))
  none_made_by_closing k ws qs (c ∷ calls) =
      let (e, f) = none_made_by_closing k ws qs calls in (omega (arith, e), omega (arith, f))

  get_or_create_queue-IsRegistered :
      (k name : String) {s : QueueService P D}
      → IsRegistered k s
      → IsRegistered k (get_or_create_queue name s)
  unfolding get_or_create_queue
  get_or_create_queue-IsRegistered k name {s} r = record {
    queue_made = grind (arith, r.queue_made, lookup-insert, eq_iff name k, count-append);
    worker_made = grind (arith, r.worker_made, count-append);
    concurrent = ground (arith, r.concurrent);
  }

  register_processor-IsRegistered :
      (config : Settings) (k name : String) (p : P) {s : QueueService P D}
      → IsRegistered k s
      → IsRegistered k (register_processor config name p s)
  unfolding register_processor
  register_processor-IsRegistered config k name p {s} r = record {
    queue_made = grind (arith, r.queue_made, count-append);
    worker_made = grind (arith, r.worker_made, lookup-insert, eq_iff name k, count-append);
    concurrent = ground (
      arith,
      r.concurrent,
      lookup-insert name k (worker_for config name p s) s.workers,
      get_worker_concurrency-pos config (codes name),
    );
  }

  apply-IsRegistered :
      (config : Settings) (k : String) (o : Operation P D) {s : QueueService P D}
      → IsRegistered k s
      → IsRegistered k (apply config o s)
  unfolding apply on_module_init enqueue_submission enqueue_webhook_delivery close
  apply-IsRegistered config k initialise {s} r =
      get_or_create_queue-IsRegistered k "submissions" (record {
        queue_made = r.queue_made;
        worker_made = r.worker_made;
        concurrent = r.concurrent;
      })
  apply-IsRegistered config k (register name p) r =
      register_processor-IsRegistered config k name p r
  apply-IsRegistered config k (submit id x) {s} r =
      let r' = get_or_create_queue-IsRegistered k "submissions" r in
      record {
        queue_made = grind (arith, r'.queue_made, count-append);
        worker_made = grind (arith, r'.worker_made, count-append);
        concurrent = r'.concurrent;
      }
  apply-IsRegistered config k (deliver id x delay) {s} r =
      let r' = get_or_create_queue-IsRegistered k "webhooks" r in
      record {
        queue_made = grind (arith, r'.queue_made, count-append);
        worker_made = grind (arith, r'.worker_made, count-append);
        concurrent = r'.concurrent;
      }
  apply-IsRegistered config k shut_down {s} r =
      let (e, f) = none_made_by_closing k s.workers s.queues s.calls in
      record {
        queue_made = e ∙ r.queue_made;
        worker_made = f ∙ r.worker_made;
        concurrent = r.concurrent;
      }

  processor-apply :
      (config : Settings) (k : String) (o : Operation P D) (s : QueueService P D)
      → processor_of (lookup k (apply config o s).workers)
        ≡ first_step k (processor_of (lookup k s.workers)) o
  unfolding apply on_module_init enqueue_submission enqueue_webhook_delivery close
      get_or_create_queue register_processor
  processor-apply config k initialise s = ground arith
  processor-apply config k (register name p) s =
      ground (arith, eq_iff name k, lookup-insert name k (worker_for config name p s) s.workers)
  processor-apply config k (submit id x) s = ground arith
  processor-apply config k (deliver id x delay) s = ground arith
  processor-apply config k shut_down s = ground arith

  run-processor :
      (config : Settings) (k : String) (os : List (Operation P D)) {s : QueueService P D}
      → IsRegistered k s
      → (processor_of (lookup k (run config os s).workers)
          ≡ first_processor k (processor_of (lookup k s.workers)) os)
        × IsRegistered k (run config os s)
  unfolding run
  run-processor config k [] r = (refl, r)
  run-processor config k (o ∷ os) {s} r =
      let (e, r') = run-processor config k os (apply-IsRegistered config k o r) in
      (e ∙ ap (λ found. first_processor k found os) (processor-apply config k o s), r')

fresh-IsRegistered : {P D : Type 0} (k : String) → IsRegistered {P = P} {D = D} k fresh
unfolding lookup
fresh-IsRegistered k = record { queue_made = refl; worker_made = refl; concurrent = tt }

-- Whatever calls are made of a new service, in whatever order, and whatever is configured: for every name
-- BullMQ is asked at most once for a queue, and for a worker once if a processor was registered and
-- not at all otherwise; the worker runs the processor that was registered first, and at least one
-- job at a time.
pub run-registers :
    {P D : Type 0} (config : Settings) (k : String) (os : List (Operation P D))
    → let s = run config os fresh in
      (count (is_new_queue k) s.calls ≤ 1)
      × (count (is_new_worker k) s.calls ≡ (if is_some (first_processor k none os) then 1 else 0))
      × (processor_of (lookup k s.workers) ≡ first_processor k none os)
      × IsConcurrent (lookup k s.workers)
unfolding lookup
run-registers config k os =
    let (e, r) = run-processor config k os (fresh-IsRegistered k) in
    (ground (arith, r.queue_made), ground (arith, r.worker_made, e), e, r.concurrent)
