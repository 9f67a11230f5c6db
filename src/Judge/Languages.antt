-- ===== src/Judge/Languages.antt =====
-- `getImageForLanguage` and `getCommandForLanguage` of
-- src/submissions/judge/judge-engine.service.ts. The language is one of the enum, so the branch
-- for an unsupported one is not reached.
use codeweaknesses.Common.{String, List, [], ◌∷◌}
use codeweaknesses.Entities.{SubmissionLanguage, javascript, python, python3, cpp, c, java, bash}

unfoldable pub image_for_language : SubmissionLanguage → String
image_for_language javascript = "node:22-alpine"
image_for_language python = "python:3.11-alpine"
image_for_language python3 = "python:3.11-alpine"
image_for_language cpp = "gcc:latest"
image_for_language c = "gcc:latest"
image_for_language java = "openjdk:21-jdk-alpine"
image_for_language bash = "alpine:latest"

abbrev shell : String → List String
shell script = "sh" ∷ "-c" ∷ script ∷ []

abbrev python_script : String
python_script = "printf \"%s\" \"$INPUT\" | python -c \"import os; exec(os.environ['CODE'])\""

abbrev c_script : String
c_script =
    "printf \"%s\" \"$CODE\" > /tmp/prog.c && gcc -xc /tmp/prog.c -o /tmp/prog && printf \"%s\" \"$INPUT\" | /tmp/prog"

abbrev java_script : String
java_script =
    "printf \"%s\" \"$CODE\" > Main.java && javac Main.java && printf \"%s\" \"$INPUT\" | java Main"

unfoldable pub command_for_language : SubmissionLanguage → List String
command_for_language javascript =
    shell "printf \"%s\" \"$INPUT\" | node -e \"eval(process.env.CODE)\""
command_for_language python = shell python_script
command_for_language python3 = shell python_script
command_for_language cpp = shell c_script
command_for_language c = shell c_script
command_for_language java = shell java_script
command_for_language bash = shell "printf \"%s\" \"$INPUT\" | sh -c \"$CODE\""
