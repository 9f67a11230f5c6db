-- ===== src/Submissions/Processor/Verdicts.antt =====
-- The verdict and the output of a live test-result event, as
-- src/submissions/processors/submission.processor.ts chooses them.
use codeweaknesses.Common.{Bool, Option, none, some, ◌&&◌, ◌++◌, if◌then◌else◌}
use codeweaknesses.Common.Texts.{to_lower, includes}
use codeweaknesses.Entities.{Text, codes}
use codeweaknesses.Judge.Output.{is_filled}
use codeweaknesses.Sse.Events.{Verdict, pass, fail, tle}

unfoldable pub live_verdict : Bool → Option Text → Verdict
live_verdict passed none = if passed then pass else fail
live_verdict passed (some error) =
    if passed
    then pass
    else if is_filled error && includes (to_lower error) (codes "time")
    then tle
    else fail

unfoldable pub live_output : Text → Option Text → Text
live_output output none = output
live_output output (some error) =
    if is_filled error
    then if is_filled output then output ++ (codes "\n[STDERR]:\n" ++ error) else error
    else output
