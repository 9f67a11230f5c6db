-- ===== src/Judge/Execution/Laws.antt =====
-- What a run returns and leaves behind, whatever Docker answers.
use codeweaknesses.Common.{
  refl, if◌then◌else◌, inr, All-append, ◌∷◌, inl, ◌≤◌, ◌↔◌, ◌++◌, or_else, Bool-cases, List, ℕ, ◌≡◌,
  Bool, true, false, ◌&&◌, [], arith, none, count, All, eqb, some,
}
use codeweaknesses.Entities.{Text, SubmissionLanguage}
use codeweaknesses.Judge.Output.{trim}
use codeweaknesses.Judge.Execution.{
  stream_error, execute_code, ExecutionResult, Docker, done, failed, Race, timeout, CreateOptions,
  Call, create_container, remove_container, create_options, execute_body, succeeds,
}

abbrev pub is_remove : Call → Bool
is_remove remove_container = true
is_remove _ = false

-- A container comes to exist: at once, or after an image that was missing has been pulled.
abbrev pub created : Docker → Bool
created docker = elim (docker.create 0) [
  | done x ↦ true
  | failed e ↦ elim e.status_code [
    | none ↦ false
    | some status ↦ eqb status 404 && (succeeds docker.pull && succeeds (docker.create 1))
  ]
]

-- Docker starts the container, whose output is then awaited.
abbrev pub runs : Docker → Bool
runs docker = created docker && (succeeds docker.attach && succeeds docker.start)

abbrev pub is_timeout : Race → Bool
is_timeout timeout = true
is_timeout _ = false

-- No network, no swap beyond the limit, and a root file system that cannot be written.
abbrev pub IsIsolated : ℕ → Call → Type 0
IsIsolated memory_limit (create_container o) =
    (o.network_disabled ≡ true)
    × (o.readonly_rootfs ≡ true)
    × (o.memory ≡ memory_limit)
    × (o.memory_swap ≡ memory_limit)
IsIsolated memory_limit _ = Unit

module _ (submission_timeout memory_limit : ℕ) (docker : Docker) where
  body_removes :
      (options : CreateOptions)
      → ((execute_body submission_timeout memory_limit docker options
            (record { calls = []; container = false })).1.container
          ≡ created docker)
        × (count is_remove
              (execute_body submission_timeout memory_limit docker options
                (record { calls = []; container = false })).1.calls
            ≡ 0)
  unfolding execute_body
  body_removes options = ground arith

  body_IsIsolated :
      (language : SubmissionLanguage) (code input : Text)
      → All
          (IsIsolated memory_limit)
          (execute_body submission_timeout memory_limit docker
            (create_options submission_timeout memory_limit language code input)
            (record { calls = []; container = false })).1.calls
  unfolding execute_body create_options
  body_IsIsolated language code input = ground arith

module _ (submission_timeout memory_limit : ℕ) (docker : Docker) (language : SubmissionLanguage)
    (code input : Text) where
  abbrev pub result : ExecutionResult
  result = (execute_code submission_timeout memory_limit docker language code input).0

  abbrev pub calls : List Call
  calls = (execute_code submission_timeout memory_limit docker language code input).1

  -- Whatever fails in between: if a container came to exist, the calls end with its removal, the only
  -- one; if none came to exist nothing is removed.
  pub execute_code-removes :
      (before : List Call) × (calls
        ≡ (if created docker then before ++ remove_container ∷ [] else before))
      × (count is_remove before ≡ 0)
  unfolding execute_code
  execute_code-removes =
      let options = create_options submission_timeout memory_limit language code input in
      let (exists, none_yet) = body_removes submission_timeout memory_limit docker options in
      (
        (execute_body submission_timeout memory_limit docker options
            (record { calls = []; container = false })).1.calls,
        rw exists refl,
        none_yet,
      )

  -- Every container is created without network, with the memory limit and no swap beyond it, and
  -- with a root file system that cannot be written, on the first attempt and on the second.
  pub execute_code-IsIsolated : All (IsIsolated memory_limit) calls
  unfolding execute_code
  execute_code-IsIsolated =
      let options = create_options submission_timeout memory_limit language code input in
      let body = body_IsIsolated submission_timeout memory_limit docker language code input in
      elim (Bool-cases (created docker)) [
        | inl h ↦
            rw ((body_removes submission_timeout memory_limit docker options).0, h)
              (All-append (IsIsolated memory_limit) _ (remove_container ∷ []) body (tt, tt))
        | inr h ↦ rw ((body_removes submission_timeout memory_limit docker options).0, h) body
      ]

  -- A result says that the time limit was exceeded exactly when the container ran, the timeout
  -- won the race and the container could be killed.
  execute_code-timed_out :
      (result.timed_out ≡ true)
      ↔ ((runs docker && (is_timeout docker.race && succeeds docker.kill)) ≡ true)
  unfolding execute_code
  execute_code-timed_out = ground arith

  -- A successful run carries no error, did not time out, and stayed within the memory limit.
  execute_code-success :
      result.success ≡ true
      → (runs docker ≡ true)
        × (result.error ≡ none)
        × (result.timed_out ≡ false)
        × (result.memory_exceeded ≡ false)
        × (result.memory_used ≤ memory_limit)
  unfolding execute_code
  execute_code-success h = ground arith

  -- If the output stream of a running container fails, the run is reported as a success with no
  -- output, unless the memory limit was exceeded.
  execute_code-stream_error :
      runs docker ≡ true
      → docker.race ≡ stream_error
      → or_else docker.memory_usage 0 ≤ memory_limit
      → (result.success ≡ true) × (result.output ≡ []) × (result.error ≡ none)
  unfolding execute_code trim
  execute_code-stream_error h e m = ground arith
