-- ===== src/Contests.antt =====
-- `finishContest` and `finishExpiredContests` of src/contest/contest.service.ts. The table is the list
-- of rows, the clock is an argument, and what is emitted is the list of the contests' identifiers.
pub mod Access
pub mod Controller
mod Examples
pub mod Expiry
pub mod Finish
pub mod Overlapping
use codeweaknesses.Common.{
  ℕ, String, Bool, ◌&&◌, not, Option, none, some, List, [], ◌∷◌, map, filter, find, leb, is_some,
  if◌then◌else◌, ◌==◌,
}
use codeweaknesses.Entities.{Contest}

-- `save` of a row that is in the table.
unfoldable pub save : Contest → List Contest → List Contest
save c = map (λ r. if r.id == c.id then c else r)

abbrev pub finish : ℕ → Contest → Contest
finish now c = record c { finished_at = some now }

-- A lookup leaves out rows that were deleted softly.
abbrev pub is_there : Contest → Bool
is_there c = not (is_some c.deleted_at)

-- The contest that is returned, the table, and what is emitted.
unfoldable pub finish_contest :
    ℕ → String → List Contest → Option Contest × List Contest × List String
finish_contest now id table = elim (find (λ c. c.id == id && is_there c) table) [
  | none ↦ (none, table, [])
  | some contest ↦
      if is_some contest.finished_at
      then (some contest, table, [])
      else (some (finish now contest), save (finish now contest) table, contest.id ∷ [])
]

-- `finishedAt: IsNull(), endTime: LessThanOrEqual(now)`
abbrev pub is_expired : ℕ → Contest → Bool
is_expired now c = not (is_some c.finished_at) && leb c.end_time now && is_there c

-- The loop over the expired contests.
unfoldable pub finish_each : ℕ → List Contest → List Contest → List Contest × List String
unfolding save
finish_each now table [] = (table, [])
finish_each now table (c ∷ cs) =
    let (table', emitted) = finish_each now (save (finish now c) table) cs in
    (table', c.id ∷ emitted)

unfoldable pub finish_expired_contests : ℕ → List Contest → List Contest × List String
unfolding finish_each
finish_expired_contests now table = finish_each now table (filter (is_expired now) table)
