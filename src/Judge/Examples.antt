-- ===== src/Judge/Examples.antt =====
-- Runs on concrete answers of Docker, and outputs that differ in white space only.
use codeweaknesses.Common.{
  suc, ℕ, zero, suc, ◌≡◌, ◌↔◌, true, none, some, [], ◌∷◌, ◌++◌, List, count, All, if◌then◌else◌,
}
use codeweaknesses.Entities.{codes, python}
use codeweaknesses.Judge.Output.{compare_output}
use codeweaknesses.Judge.Output.Lines.{content}
use codeweaknesses.Judge.Output.Laws.{compare_output_iff}
use codeweaknesses.Judge.Execution.{
  Attempt, Docker, Race, timeout, done, failed, Call, remove_container,
}
use codeweaknesses.Judge.Execution.Streams.{Happening, stdout, exited, ended, timer, race}
use codeweaknesses.Judge.Execution.Laws.{
  execute_code-removes, execute_code-IsIsolated, calls, created, is_remove, IsIsolated,
}

compare_output_iff_example :
    (compare_output (codes "1 \r\n2\n") (codes "1\n\n2") ≡ true)
    ↔ (content (codes "1 \r\n2\n") ≡ content (codes "1\n\n2"))
compare_output_iff_example = compare_output_iff (codes "1 \r\n2\n") (codes "1\n\n2")

-- The image is missing at first; the first creation fails, and the second succeeds.
abbrev creation : ℕ → Attempt (Unit {0})
creation zero = failed (record { status_code = some 404; message = none })
creation (suc n) = done tt

abbrev daemon : Race → Docker
daemon race = record {
  create = creation;
  pull = done tt;
  attach = done tt;
  start = done tt;
  race = race;
  kill = done tt;
  memory_usage = some 1000;
  elapsed = 5;
}

execute_code-removes_example :
    (before : List Call) × (calls 5000 2000 (daemon timeout) python (codes "while 1: pass") []
      ≡ (if created (daemon timeout) then before ++ remove_container ∷ [] else before))
    × (count is_remove before ≡ 0)
execute_code-removes_example =
    execute_code-removes 5000 2000 (daemon timeout) python (codes "while 1: pass") []

execute_code-IsIsolated_example :
    All (IsIsolated 2000) (calls 5000 2000 (daemon timeout) python (codes "while 1: pass") [])
execute_code-IsIsolated_example =
    execute_code-IsIsolated 5000 2000 (daemon timeout) python (codes "while 1: pass") []

-- The bytes of ASCII text are its code units. The program prints 4 and ends before its time is up.
abbrev happenings : List Happening
happenings = stdout (codes "4") ∷ stdout (codes "\n") ∷ exited ∷ ended ∷ timer ∷ []
