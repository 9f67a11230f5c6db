-- ===== src/Contests/Examples.antt =====
-- A contest that has ended and one that has not; two requests to finish the latter overlap.
use codeweaknesses.Common.{◌≡◌, ◌&&◌, ◌||◌, false, none, any, List, [], ◌∷◌, ℕ, String, arith}
use codeweaknesses.Entities.{Contest}
use codeweaknesses.Contests.Overlapping.{
  Board, Move, request, tick, goes_on, move_all, is_finished, is_announced, tells, waits,
}
use codeweaknesses.Contests.Overlapping.Announced.{move_all-announces}

abbrev round_until : String → ℕ → Contest
round_until id end_time = record {
  id = id;
  title = "Round";
  start_time = 0;
  end_time = end_time;
  finished_at = none;
  deleted_at = none;
}

abbrev table : List Contest
table = round_until "c" 50 ∷ round_until "d" 500 ∷ []

-- Both requests read the contest before one of them has saved it, while the timer ticks.
abbrev afternoon : List Move
afternoon =
    request 110 "d"
    ∷ request 111 "d"
    ∷ tick 112
    ∷ goes_on 0
    ∷ goes_on 1
    ∷ goes_on 0
    ∷ goes_on 1
    ∷ []

abbrev board : Board
board = move_all afternoon (record { contests = table; pending = []; announced = [] })

move_all-announces_example :
    (any (is_finished "d") board.contests
      ≡ (any (is_finished "d") table || (is_announced "d" board || any (tells "d") board.pending)))
    × ((any (is_finished "d") table
          && ((is_announced "d" board || any (tells "d") board.pending)
              || any (waits "d") board.pending))
        ≡ false)
move_all-announces_example = move_all-announces "d" afternoon table (omega arith)
