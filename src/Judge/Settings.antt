-- ===== src/Judge/Settings.antt =====
-- The constructor of `JudgeEngineService` (src/submissions/judge/judge-engine.service.ts): where Docker is
-- asked for, and the limits from the configuration.
use codeweaknesses.Common.{Bool, Option, if◌then◌else◌, or_else, ℕ}
use codeweaknesses.Common.Int.{ℤ}
use codeweaknesses.Entities.{Text, codes}
use codeweaknesses.Queue.Config.{parse_int}

pub data Endpoint : Type 0 where
  named_pipe : Endpoint
  tcp : ℕ → Endpoint
  unix_socket : Endpoint

-- `pipe_opens` says whether the client of the named pipe can be made.
unfoldable pub endpoint : Bool → Bool → Endpoint
endpoint is_windows pipe_opens =
    if is_windows then (if pipe_opens then named_pipe else tcp 2375) else unix_socket

-- The values of the configuration are texts; NaN is `none`.
unfoldable pub submission_timeout : (Text → Option Text) → Option ℤ
submission_timeout config = parse_int (or_else (config (codes "SUBMISSION_TIMEOUT")) (codes "5000"))

unfoldable pub memory_limit : (Text → Option Text) → Option ℤ
memory_limit config = parse_int (or_else (config (codes "MEMORY_LIMIT")) (codes "268435456"))
