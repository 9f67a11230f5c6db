-- ===== src/Repository/Examples.antt =====
-- A contest is removed, and restored.
use codeweaknesses.Common.{◌≡◌, refl, not, none, List, [], ◌∷◌, filter}
use codeweaknesses.Common.Results.{ok, err, not_found}
use codeweaknesses.Entities.{Contest}
use codeweaknesses.Repository.{contest_entity, has_id, remove, restore, find_one, find_all}
use codeweaknesses.Repository.{user_entity}
use codeweaknesses.Repository.Restoring.{remove-restore}

abbrev round : Contest
round = record {
  id = "c";
  title = "Spring round";
  start_time = 0;
  end_time = 3600000;
  finished_at = none;
  deleted_at = none;
}

abbrev table : List Contest
table = record round { id = "b" } ∷ round ∷ []

remove-restore_example :
    (after : List Contest) × (remove 5 "c" table ≡ ok after)
    × (find_one "c" after ≡ err (not_found "Not Found"))
    × (remove 6 "c" after ≡ err (not_found "Not Found"))
    × (find_all after ≡ filter (λ r. not (has_id "c" r)) (find_all table))
    × (restore "c" after ≡ ok (1, table))
unfolding find_one
remove-restore_example = remove-restore 5 6 "c" table round (refl, (refl, tt)) refl
