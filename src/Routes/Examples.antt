-- ===== src/Routes/Examples.antt =====
-- A visitor and a user ask for what only the staff may change.
use codeweaknesses.Common.{true, ◌⊎◌, none, some, List, [], ◌∷◌}
use codeweaknesses.Entities.{codes}
use codeweaknesses.Auth.Accounts.{payload_of}
use codeweaknesses.Auth.Guards.{secret_or_key}
use codeweaknesses.Auth.Samples.{plain_tokens, plain_hashes}
use codeweaknesses.Auth.Users.{find_all_users}
use codeweaknesses.Contests.Controller.{finish}
use codeweaknesses.Problems.Controller.{visible_test_cases, remove_test_case}
use codeweaknesses.Problems.Samples.{stable_order, sums}
use codeweaknesses.Routes.{
  Tables, Arrival, of_registration, of_users, of_problems, of_contests, serve,
}
use codeweaknesses.Routes.Guarding.{HasStaff, IsHarmless, serve-guards}

abbrev tables : Tables
tables = record { users = []; contest_tables = sums }

abbrev visits : List Arrival
visits =
    record {
      request = of_registration (record { name = "ada"; password = codes "engine" });
      bearer = none;
      now = 4;
      salt = "salt";
      new_id = "u";
    }
    ∷ record { request = of_users find_all_users; bearer = none; now = 5; salt = ""; new_id = "x" }
    ∷ record {
      request = of_problems (visible_test_cases "p");
      bearer = none;
      now = 6;
      salt = "";
      new_id = "y";
    }
    ∷ record {
      request = of_problems (remove_test_case "p" "t0");
      bearer = some (plain_tokens.sign secret_or_key 1 (payload_of "u" "ada"));
      now = 7;
      salt = "";
      new_id = "z";
    }
    ∷ record { request = of_contests (finish "c"); bearer = none; now = 8; salt = ""; new_id = "w" }
    ∷ []

serve-guards_example :
    HasStaff plain_tokens visits
    ⊎ (let (answers, after) =
          serve plain_hashes plain_tokens stable_order (λ id. true) visits tables in
        IsHarmless answers tables after)
serve-guards_example =
    serve-guards plain_hashes plain_tokens stable_order (λ id. true) visits tables
