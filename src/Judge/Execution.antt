-- ===== src/Judge/Execution.antt =====
-- `executeCode` of src/submissions/judge/judge-engine.service.ts. Docker is a parameter: what each
-- call to it answers. The run keeps the calls that were made and whether `container` is set.
pub mod Laws
pub mod Streams
use codeweaknesses.Common.{
  ℕ, zero, suc, ◌+◌, ◌/◌, ◌<◌, Bool, true, false, ◌&&◌, not, Option, none, some, List, [], ◌∷◌,
  ◌++◌, ltb, eqb, or_else, if◌then◌else◌, String,
}
use Prim.Native.Nat.{◌%◌}
use codeweaknesses.Common.Texts.{decimal}
use codeweaknesses.Entities.{Text, codes, SubmissionLanguage}
use codeweaknesses.Judge.Languages.{image_for_language, command_for_language}
use codeweaknesses.Judge.Output.{trim, is_filled}

pub record ExecutionResult : Type 0 where
  pub success : Bool
  pub output : Text
  pub error : Option Text
  pub execution_time : ℕ
  pub memory_used : ℕ
  pub timed_out : Bool
  pub memory_exceeded : Bool

-- What a rejected promise carries; `message` is `none` for a value that is no `Error`.
pub record Failure : Type 0 where
  pub status_code : Option ℕ
  pub message : Option Text

pub data Attempt {ℓ} (A : Type ℓ) : Type ℓ where
  done : A → Attempt A
  failed : Failure → Attempt A

-- The outcome of `Promise.race` over the streams and the timeout.
pub data Race : Type 0 where
  timeout : Race
  streams : Text → Text → Race
  stream_error : Race

-- The answers of the Docker daemon during one run; `create n` answers the n-th creation.
pub record Docker : Type 0 where
  pub create : ℕ → Attempt (Unit {0})
  pub pull : Attempt (Unit {0})
  pub attach : Attempt (Unit {0})
  pub start : Attempt (Unit {0})
  pub race : Race
  pub kill : Attempt (Unit {0})
  pub memory_usage : Option ℕ
  pub elapsed : ℕ

pub record CreateOptions : Type 0 where
  pub image : String
  pub code : Text
  pub input : Text
  pub cmd : List String
  pub memory : ℕ
  pub memory_swap : ℕ
  pub cpu_quota : ℕ
  pub readonly_rootfs : Bool
  pub network_disabled : Bool

pub data Call : Type 0 where
  create_container : CreateOptions → Call
  pull_image : String → Call
  attach_stream start_container kill_container fetch_stats remove_container : Call

pub record Run : Type 0 where
  pub calls : List Call
  pub container : Bool

abbrev pub M : Type 0 → Type 0
M A = Run → Attempt A × Run

infixl 5 ◌>>=◌ ◌>>◌
abbrev pub ◌>>=◌ : {A B : Type 0} → M A → (A → M B) → M B
◌>>=◌ m f r = let (a, r') = m r in elim a [ done x ↦ f x r' | failed e ↦ (failed e, r') ]

abbrev pub ◌>>◌ : {B : Type 0} → M (Unit {0}) → M B → M B
m >> k = m >>= λ _. k

abbrev pure : {A : Type 0} → A → M A
pure a r = (done a, r)

-- A call that is made, whatever it answers.
abbrev pub call : Call → Attempt (Unit {0}) → M (Unit {0})
call c answer r = (answer, record r { calls = r.calls ++ c ∷ [] })

abbrev pub succeeds : Attempt (Unit {0}) → Bool
succeeds (done x) = true
succeeds (failed e) = false

-- `container = await this.docker.createContainer(createOptions)`
abbrev pub create_call : CreateOptions → Attempt (Unit {0}) → M (Unit {0})
create_call options answer r = (
  answer,
  record { calls = r.calls ++ create_container options ∷ []; container = succeeds answer },
)

module _ (submission_timeout memory_limit : ℕ) where
  unfoldable pub create_options : SubmissionLanguage → Text → Text → CreateOptions
  create_options language code input = record {
    image = image_for_language language;
    code = code;
    input = input;
    cmd = command_for_language language;
    memory = memory_limit;
    memory_swap = memory_limit;
    cpu_quota = 100000;
    readonly_rootfs = true;
    network_disabled = true;
  }

  module _ (docker : Docker) where
    -- The inner `catch` of the creation: on status 404 the image is pulled and the creation retried.
    unfoldable pub retry_create : CreateOptions → Failure → M (Unit {0})
    retry_create options e = elim e.status_code [
      | none ↦ λ r. (failed e, r)
      | some status ↦
          if eqb status 404
          then (do
            call (pull_image options.image) docker.pull
            create_call options (docker.create 1))
          else λ r. (failed e, r)
    ]

    unfoldable pub acquire : CreateOptions → M (Unit {0})
    unfolding retry_create
    acquire options r =
        let (answer, r') = create_call options (docker.create 0) r in
        elim answer [ done x ↦ (done tt, r') | failed e ↦ retry_create options e r' ]

    unfoldable pub timeout_result : ExecutionResult
    timeout_result = record {
      success = false;
      output = [];
      error =
          some (codes "Execution timeout exceeded " ++ (decimal submission_timeout ++ codes "ms"));
      execution_time = submission_timeout;
      memory_used = 0;
      timed_out = true;
      memory_exceeded = false;
    }

    -- The result once the streams have ended; an empty `error` is falsy.
    unfoldable pub ended_result : Text → Text → ExecutionResult
    ended_result output error =
        let memory_used = or_else docker.memory_usage 0 in
        let memory_exceeded = ltb memory_limit memory_used in
        record {
          success = not (is_filled error) && not memory_exceeded;
          output = trim output;
          error =
              if is_filled error
              then some (trim error)
              else if memory_exceeded
              then some (codes "Memory limit exceeded")
              else none;
          execution_time = docker.elapsed;
          memory_used = memory_used;
          timed_out = false;
          memory_exceeded = memory_exceeded;
        }

    unfoldable pub collect : Text → Text → M ExecutionResult
    unfolding ended_result
    collect output error = do call fetch_stats (done tt); pure (ended_result output error)

    -- A kill whose rejection is caught, `container.kill().catch(() => {})`.
    abbrev kill_quietly : M (Unit {0})
    kill_quietly r = (done tt, record r { calls = r.calls ++ kill_container ∷ [] })

    unfoldable pub after_race : Race → M ExecutionResult
    unfolding timeout_result collect
    after_race timeout = do call kill_container docker.kill; pure timeout_result
    after_race (streams output error) = collect output error
    after_race stream_error = do kill_quietly; collect [] []

    -- The body of the outer `try`.
    unfoldable pub execute_body : CreateOptions → M ExecutionResult
    unfolding acquire after_race
    execute_body options = do
      acquire options
      call attach_stream docker.attach
      call start_container docker.start
      after_race docker.race

    unfoldable pub failed_result : Failure → ExecutionResult
    failed_result e = record {
      success = false;
      output = [];
      error = some (or_else e.message (codes "Unknown execution error"));
      execution_time = docker.elapsed;
      memory_used = 0;
      timed_out = false;
      memory_exceeded = false;
    }

    -- The `finally`: a container that was created is removed, and a failure to remove it ignored.
    unfoldable pub clean_up : Run → List Call
    clean_up r = if r.container then r.calls ++ remove_container ∷ [] else r.calls

    -- The outer `catch` turns what was thrown into a result, so there always is one.
    unfoldable pub execute_code : SubmissionLanguage → Text → Text → ExecutionResult × List Call
    unfolding execute_body failed_result clean_up create_options
    execute_code language code input =
        let (answer, r) =
          execute_body (create_options language code input)
            (record { calls = []; container = false }) in
        (elim answer [ done x ↦ x | failed e ↦ failed_result e ], clean_up r)
