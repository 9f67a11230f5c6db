-- ===== src/Queue.antt =====
-- `QueueService` (src/queue/queue.service.ts). BullMQ stands outside the program: what the service asks
-- of it is kept in `calls`, the oldest first. `P` are job processors, `D` is the data of a job.
pub mod Config
pub mod Decimal
mod Examples
pub mod Registry
use Prim.Native.Nat.{min}
use codeweaknesses.Common.{
  ℕ, ◌*◌, String, Bool, true, false, Option, none, some, List, [], ◌∷◌, ◌++◌, map,
}
use codeweaknesses.Common.Assoc.{Assoc, lookup, insert}
use codeweaknesses.Entities.{codes}
use Config.{
  ConfigValue, text, Settings, get_or_default, get_positive_integer_config, get_worker_concurrency,
}

pub record RedisConnection : Type 0 where
  pub host : ConfigValue
  pub port : ℕ

-- The delay before the n-th attempt to reconnect.
unfoldable pub retry_strategy : ℕ → ℕ
retry_strategy times = min (times * 50) 2000

pub record QueueOptions : Type 0 where
  pub connection : Option RedisConnection
  pub attempts : ℕ
  pub backoff_delay : ℕ
  pub remove_on_complete : Bool
  pub remove_on_fail : Bool

pub record Worker (P : Type 0) : Type 0 where
  pub processor : P
  pub connection : Option RedisConnection
  pub concurrency : ℕ

pub record JobOptions : Type 0 where
  pub job_id : String
  pub delay : ℕ

-- What is asked of BullMQ: the constructors, `add`, and `close`.
pub data Call (P D : Type 0) : Type 0 where
  new_queue : String → QueueOptions → Call P D
  new_worker : String → Worker P → Call P D
  add : String → String → D → JobOptions → Call P D
  close_worker close_queue : String → Call P D

pub record QueueService (P D : Type 0) : Type 0 where
  pub queues : Assoc QueueOptions
  pub workers : Assoc (Worker P)
  pub redis_connection : Option RedisConnection
  pub calls : List (Call P D)

abbrev pub fresh : {P D : Type 0} → QueueService P D
fresh = record { queues = []; workers = []; redis_connection = none; calls = [] }

abbrev pub queue_options : {P D : Type 0} → QueueService P D → QueueOptions
queue_options s = record {
  connection = s.redis_connection;
  attempts = 3;
  backoff_delay = 2000;
  remove_on_complete = true;
  remove_on_fail = false;
}

-- The state after `getOrCreateQueue`; the queue itself goes by its name.
unfoldable pub get_or_create_queue : {P D : Type 0} → String → QueueService P D → QueueService P D
get_or_create_queue queue_name s = elim (lookup queue_name s.queues) [
  | some existing ↦ s
  | none ↦ record s {
    queues = insert queue_name (queue_options s) s.queues;
    calls = s.calls ++ new_queue queue_name (queue_options s) ∷ [];
  }
]

unfoldable pub enqueue :
    {P D : Type 0} → String → String → D → ℕ → QueueService P D → QueueService P D
unfolding get_or_create_queue
enqueue queue_name job_id job_data delay s =
    let s' = get_or_create_queue queue_name s in
    record s' {
      calls =
          s'.calls
          ++ add queue_name job_id job_data (record { job_id = job_id; delay = delay }) ∷ [];
    }

-- BullMQ's default of no delay.
unfoldable pub enqueue_submission :
    {P D : Type 0} → String → D → QueueService P D → QueueService P D
unfolding enqueue
enqueue_submission submission_id job_data s = enqueue "submissions" submission_id job_data 0 s

unfoldable pub enqueue_webhook_delivery :
    {P D : Type 0} → String → D → ℕ → QueueService P D → QueueService P D
unfolding enqueue
enqueue_webhook_delivery job_id job_data delay_ms s = enqueue "webhooks" job_id job_data delay_ms s

-- Every worker is closed, and then every queue; both stay in their tables.
unfoldable pub close : {P D : Type 0} → QueueService P D → QueueService P D
close s = record s {
  calls =
      s.calls ++ (map (λ kv. close_worker kv.0) s.workers ++ map (λ kv. close_queue kv.0) s.queues);
}

-- The calls that the program makes of the service.
pub data Operation (P D : Type 0) : Type 0 where
  initialise : Operation P D
  register : String → P → Operation P D
  submit : String → D → Operation P D
  deliver : String → D → ℕ → Operation P D
  shut_down : Operation P D

module _ (config : Settings) where
  unfoldable pub on_module_init : {P D : Type 0} → QueueService P D → QueueService P D
  unfolding get_or_create_queue
  on_module_init s = get_or_create_queue "submissions" (record s {
    redis_connection = some (record {
      host = get_or_default config (codes "REDIS_HOST") (text (codes "localhost"));
      port = get_positive_integer_config config (codes "REDIS_PORT") 6379;
    });
  })

  abbrev pub worker_for : {P D : Type 0} → String → P → QueueService P D → Worker P
  worker_for queue_name processor s = record {
    processor = processor;
    connection = s.redis_connection;
    concurrency = get_worker_concurrency config (codes queue_name);
  }

  unfoldable pub register_processor :
      {P D : Type 0} → String → P → QueueService P D → QueueService P D
  register_processor queue_name processor s = elim (lookup queue_name s.workers) [
    | some existing ↦ s
    | none ↦ record s {
      workers = insert queue_name (worker_for queue_name processor s) s.workers;
      calls = s.calls ++ new_worker queue_name (worker_for queue_name processor s) ∷ [];
    }
  ]

  unfoldable pub apply : {P D : Type 0} → Operation P D → QueueService P D → QueueService P D
  apply initialise s = on_module_init s
  apply (register queue_name processor) s = register_processor queue_name processor s
  apply (submit id job_data) s = enqueue_submission id job_data s
  apply (deliver id job_data delay) s = enqueue_webhook_delivery id job_data delay s
  apply shut_down s = close s

  unfoldable pub run : {P D : Type 0} → List (Operation P D) → QueueService P D → QueueService P D
  run [] s = s
  run (o ∷ os) s = run os (apply o s)
